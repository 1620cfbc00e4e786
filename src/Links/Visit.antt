-- ===== src/Links/Visit.antt =====
-- The loops of include/list.h come to the entries in order; and the list that get_node_start builds.
use icehydra.Prelude.{
  ℕ, zero, suc, ◌+◌, ◌<◌, ◌≡◌, refl, sym, ap, ◌∙◌, false, List, [], ◌∷◌, ◌++◌, append_assoc,
  append-nil, arith, ◌==◌, eq→==, length, length-append,
}
use mathlib.Core.Path.{subst}
use mathlib.Core.List.{reverse, reverse-cons}
use icehydra.Run.{ok}
use icehydra.Links.{
  Links, walk, list_for_each, list_for_each_prev, list_empty, list_add_tail, init_list_head,
}
use icehydra.Links.Ring.{
  PathTo, BackTo, PathTo-append, has, has-append, IsDistinct, IsDistinct-cut, IsRing, Apart-not_has,
}
use icehydra.Links.Insert.{init_list_head-IsRing, list_add_tail-IsRing}

pub walk-PathTo :
    (f : ℕ → ℕ) (a b fuel : ℕ) (xs : List ℕ)
    → PathTo f a xs b
    → has b xs ≡ false
    → length xs < fuel
    → walk f b fuel (f a) ≡ ok xs
unfolding walk
walk-PathTo f a b zero xs way out h = absurd (omega arith)
walk-PathTo f a b (suc fuel) [] way out h = rw (walk, eq→== (f a) b way)
walk-PathTo f a b (suc fuel) (x ∷ xs) (e, way) out h =
    let miss : (x == b) ≡ false = ground arith in
    let rest = walk-PathTo f x b fuel xs way (ground arith) (omega arith) in
    ap (walk f b (suc fuel)) e ∙ rw (walk, miss, rest)

BackTo-reverse : (g : ℕ → ℕ) (a b : ℕ) (xs : List ℕ) → BackTo g a xs b → PathTo g b (reverse xs) a
BackTo-reverse g a b [] way = way
BackTo-reverse g a b (x ∷ xs) (e, way) =
    subst (λ l. PathTo g b l a) (sym (reverse-cons x xs))
      (PathTo-append g b x a (reverse xs) [] (BackTo-reverse g x b xs way) e)

length-reverse : (xs : List ℕ) → length (reverse xs) ≡ length xs
length-reverse [] = refl
length-reverse (x ∷ xs) =
    omega
      (arith, ap length (reverse-cons x xs), length-append (reverse xs) (x ∷ []), length-reverse xs)

has-reverse : (p : ℕ) (xs : List ℕ) → has p (reverse xs) ≡ has p xs
has-reverse p [] = refl
has-reverse p (x ∷ xs) =
    ap (has p) (reverse-cons x xs)
    ∙ ground (arith, has-append p (reverse xs) (x ∷ []), has-reverse p xs)

-- On a list of some entries, with as much fuel as entries and one: list_for_each comes to them in
-- order, list_for_each_prev in the reverse order, and list_empty says whether there are none.
pub list_for_each-IsRing :
    (m : Links) (h fuel : ℕ) (xs : List ℕ)
    → IsRing m h xs
    → length xs < fuel
    → (list_for_each fuel h m ≡ ok xs)
      × (list_for_each_prev fuel h m ≡ ok (reverse xs))
      × (list_empty h m ≡ (length xs == 0))
unfolding list_for_each list_for_each_prev list_empty
list_for_each-IsRing m h fuel xs (forth, back, (out, d)) enough = (
  walk-PathTo m.next h h fuel xs forth out enough,
  walk-PathTo m.prev h h fuel (reverse xs) (BackTo-reverse m.prev h h xs back)
      (has-reverse h xs ∙ out) (omega (arith, length-reverse xs)),
  empty xs forth out,
)
  where
    empty :
        (xs : List ℕ) → PathTo m.next h xs h → has h xs ≡ false → list_empty h m ≡ (length xs == 0)
    empty [] e out = ground arith
    empty (x ∷ xs) (e, way) out = ground arith

-- Entries are chained up behind a head, one after the other.
pub link_all : ℕ → List ℕ → Links → Links
link_all h [] m = m
link_all h (x ∷ xs) m = link_all h xs (list_add_tail x h m)

link_all-IsRing :
    (m : Links) (h : ℕ) (old xs : List ℕ)
    → IsDistinct (h ∷ old ++ xs)
    → IsRing m h old
    → IsRing (link_all h xs m) h (old ++ xs)
unfolding link_all
link_all-IsRing m h old [] d ring = subst (IsRing m h) (sym (append-nil old)) ring
link_all-IsRing m h old (x ∷ xs) d ring =
    let (d1, d2, away) = IsDistinct-cut (h ∷ old) (x ∷ xs) d in
    let out : has x (h ∷ old) ≡ false = Apart-not_has x (h ∷ old) (x ∷ xs) away (ground arith) in
    let grown = append_assoc old (x ∷ []) xs in
    subst (IsRing (link_all h xs (list_add_tail x h m)) h) grown (
      link_all-IsRing (list_add_tail x h m) h (old ++ x ∷ []) xs
        (subst (λ l. IsDistinct (h ∷ l)) (sym grown) d) (list_add_tail-IsRing m x h old out ring))

-- Distinct nodes, chained up as get_node_start does behind its start node, are visited by
-- list_for_each in the order in which they were read, whatever the memory held before.
pub link_all-visited :
    (m : Links) (h : ℕ) (xs : List ℕ)
    → IsDistinct (h ∷ xs)
    → list_for_each (length xs + 1) h (link_all h xs (init_list_head h m)) ≡ ok xs
link_all-visited m h xs d =
    (list_for_each-IsRing (link_all h xs (init_list_head h m)) h (length xs + 1) xs
      (link_all-IsRing (init_list_head h m) h [] xs d (init_list_head-IsRing m h)) (omega arith)).0
