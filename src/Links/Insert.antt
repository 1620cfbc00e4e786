-- ===== src/Links/Insert.antt =====
-- list_add, list_add_tail and list_del of include/list.h, on what the list stands for.
use icehydra.Prelude.{
  ℕ, ◌≡◌, refl, sym, ap, ◌∙◌, ◌⊎◌, inl, inr, false, List, [], ◌∷◌, ◌++◌, append_assoc, append-nil,
  arith,
}
use mathlib.Core.Path.{subst, ap₂}
use icehydra.Links.{
  Links, put, init_list_head, list_add_between, list_add, list_add_tail, list_del_between, list_del,
}
use icehydra.Links.Ring.{
  has, IsRing, PathTo-put, BackTo-put, PathTo-append, PathTo-cut, BackTo-append, BackTo-cut,
  has-append, IsRing-rotate, IsDistinct-cut, Apart-not_has,
}

-- A list that is not empty has a last entry.
pub last-cases :
    (xs : List ℕ) → (xs ≡ []) ⊎ ((init : List ℕ) × (last : ℕ) × (xs ≡ init ++ last ∷ []))
last-cases [] = inl refl
last-cases (x ∷ xs) = elim (last-cases xs) [
  | inl e ↦ inr ([], x, ap (◌∷◌ x) e)
  | inr (init, last, e) ↦ inr (x ∷ init, last, ap (◌∷◌ x) e)
]

pub init_list_head-IsRing : (m : Links) (h : ℕ) → IsRing (init_list_head h m) h []
unfolding init_list_head
init_list_head-IsRing m h = (ground arith, ground arith, (refl, tt))

-- The new entry stands first.
pub list_add-IsRing :
    (m : Links) (node head : ℕ) (xs : List ℕ)
    → has node (head ∷ xs) ≡ false
    → IsRing m head xs
    → IsRing (list_add node head m) head (node ∷ xs)
unfolding list_add
list_add-IsRing m node head [] out (f, b, d) =
    ((ground arith, ground arith), (ground arith, ground arith), (ground arith, (refl, tt)))
list_add-IsRing m node head (x ∷ xs) out ((e, f), (e', b), (d0, (d1, d2))) =
    let first = m.next head in
    let at_first : has x (head ∷ xs) ≡ false = ground arith in
    let away : has first (head ∷ xs) ≡ false = ap (λ (p : ℕ). has p (head ∷ xs)) e ∙ at_first in
    (
      (
        ground arith,
        (
          ground arith,
          PathTo-put (put m.next node first) head node x head xs d0
              (PathTo-put m.next node first x head xs (ground arith) f),
        ),
      ),
      (
        ground arith,
        (
          ground arith,
          BackTo-put (put m.prev first node) node head x head xs (ground arith)
              (BackTo-put m.prev first node x head xs away b),
        ),
      ),
      (ground arith, (ground arith, (d1, d2))),
    )

-- Before the head is behind the last entry.
list_add_tail-list_add :
    (m : Links) (node head last : ℕ)
    → m.prev head ≡ last
    → m.next last ≡ head
    → list_add_tail node head m ≡ list_add node last m
unfolding list_add_tail list_add
list_add_tail-list_add m node head last p q =
    ap₂ (λ (a b : ℕ). list_add_between node a b m) p (sym q)

list_add_tail-last :
    (m : Links) (node head last : ℕ) (init : List ℕ)
    → has node (head ∷ init ++ last ∷ []) ≡ false
    → IsRing m head (init ++ last ∷ [])
    → IsRing (list_add_tail node head m) head ((init ++ last ∷ []) ++ node ∷ [])
list_add_tail-last m node head last init out ring =
    let (f, next_last) = PathTo-cut m.next head last head init [] ring.0 in
    let (b, prev_head) = BackTo-cut m.prev head last head init [] ring.1 in
    let away : has node (last ∷ head ∷ init) ≡ false =
      ground (arith, has-append node init (last ∷ [])) in
    let added =
      list_add-IsRing m node last (head ∷ init) away (IsRing-rotate m head last init [] ring) in
    subst (λ g. IsRing g head ((init ++ last ∷ []) ++ node ∷ []))
      (sym (list_add_tail-list_add m node head last prev_head next_last))
      (subst (IsRing (list_add node last m) head) (sym (append_assoc init (last ∷ []) (node ∷ [])))
        (IsRing-rotate (list_add node last m) last head (node ∷ []) init added))

-- The new entry stands last.
pub list_add_tail-IsRing :
    (m : Links) (node head : ℕ) (xs : List ℕ)
    → has node (head ∷ xs) ≡ false
    → IsRing m head xs
    → IsRing (list_add_tail node head m) head (xs ++ node ∷ [])
list_add_tail-IsRing m node head [] out ring =
    subst (λ g. IsRing g head (node ∷ []))
      (sym (list_add_tail-list_add m node head head ring.1 ring.0))
      (list_add-IsRing m node head [] out ring)
list_add_tail-IsRing m node head (x ∷ xs) out ring = elim (last-cases (x ∷ xs)) [
  | inl e ↦ absurd (cc e)
  | inr (init, last, e) ↦
      subst (λ l. IsRing (list_add_tail node head m) head (l ++ node ∷ [])) (sym e)
        (list_add_tail-last m node head last init (subst (λ l. has node (head ∷ l) ≡ false) e out)
          (subst (IsRing m head) e ring))
]

list_del-between :
    (m : Links) (entry last x : ℕ)
    → m.prev entry ≡ last
    → m.next entry ≡ x
    → list_del entry m ≡ list_del_between last x m
unfolding list_del
list_del-between m entry last x p q = ap₂ (λ (a b : ℕ). list_del_between a b m) p q

-- What is left of a ring without its head is the ring of the first entry.
list_del_between-IsRing :
    (m : Links) (entry x last : ℕ) (init : List ℕ)
    → IsRing m entry (x ∷ init ++ last ∷ [])
    → IsRing (list_del_between last x m) x (init ++ last ∷ [])
unfolding list_del_between
list_del_between-IsRing m entry x last init ((e, f), (e', b), (d0, (d1, d2))) =
    let (f', next_last) = PathTo-cut m.next x last entry init [] f in
    let (b', prev_entry) = BackTo-cut m.prev x last entry init [] b in
    let (di, dl, away) = IsDistinct-cut (x ∷ init) (last ∷ []) (d1, d2) in
    let out : has last (x ∷ init) ≡ false =
      Apart-not_has last (x ∷ init) (last ∷ []) away (ground arith) in
    let out' : has x (last ∷ init) ≡ false = ground (arith, has-append x init (last ∷ [])) in
    (
      PathTo-append (put m.next last x) x last x init []
          (PathTo-put m.next last x x last init out f') (ground arith),
      BackTo-append (put m.prev x last) x last x init []
          (BackTo-put m.prev x last x last init out' b') (ground arith),
      (d1, d2),
    )

del-first :
    (m : Links) (entry x : ℕ) (zs : List ℕ)
    → IsRing m entry (x ∷ zs)
    → IsRing (list_del entry m) x zs
unfolding list_del list_del_between
del-first m entry x [] ((e, f), (e', b), (d0, (d1, d2))) = (ground arith, ground arith, (refl, tt))
del-first m entry x (z ∷ zs) ring = elim (last-cases (z ∷ zs)) [
  | inl e ↦ absurd (cc e)
  | inr (init, last, e) ↦
      let ring' = subst (λ l. IsRing m entry (x ∷ l)) e ring in
      let prev_entry = (BackTo-cut m.prev entry last entry (x ∷ init) [] ring'.1).1 in
      subst (λ g. IsRing g x (z ∷ zs)) (sym (list_del-between m entry last x prev_entry ring'.0.0))
        (subst (IsRing (list_del_between last x m) x) (sym e)
          (list_del_between-IsRing m entry x last init ring'))
]

-- An entry is taken out.
pub list_del-IsRing :
    (m : Links) (h entry : ℕ) (xs ys : List ℕ)
    → IsRing m h (xs ++ entry ∷ ys)
    → IsRing (list_del entry m) h (xs ++ ys)
list_del-IsRing m h entry xs [] ring =
    subst (IsRing (list_del entry m) h) (sym (append-nil xs))
      (del-first m entry h xs (IsRing-rotate m h entry xs [] ring))
list_del-IsRing m h entry xs (y ∷ ys) ring =
    IsRing-rotate (list_del entry m) y h ys xs
      (del-first m entry y (ys ++ h ∷ xs) (IsRing-rotate m h entry xs (y ∷ ys) ring))
