-- ===== src/Links/Splice.antt =====
-- list_splice and list_splice_init of include/list.h, on what the two lists stand for.
use icehydra.Prelude.{
  ℕ, ◌≡◌, refl, sym, ◌⊎◌, inl, inr, true, false, List, [], ◌∷◌, ◌++◌, append-nil, arith, eq→==,
}
use mathlib.Core.Path.{subst}
use icehydra.Links.{Links, put, init_list_head, list_empty, splice, list_splice, list_splice_init}
use icehydra.Links.Ring.{
  PathTo, BackTo, has, IsDistinct, IsRing, PathTo-put, BackTo-put, BackTo-cut, has-append, Apart,
  IsDistinct-cut, IsDistinct-append, Apart-not_has, Apart-comm,
}
use icehydra.Links.Cross.{splice-forth, splice-back, splice-back_empty}
use icehydra.Links.Insert.{last-cases, init_list_head-IsRing}

module _ (m : Links) (list head : ℕ) where
  IsDistinct-joined :
      (ys xs : List ℕ)
      → IsDistinct (list ∷ ys)
      → IsDistinct (head ∷ xs)
      → Apart (list ∷ ys) (head ∷ xs)
      → IsDistinct (head ∷ ys ++ xs)
  IsDistinct-joined ys xs (p0, p) (q0, q) (away0, away) =
      let (out, apart) = Apart-comm ys (head ∷ xs) away in
      (ground (arith, has-append head ys xs), IsDistinct-append ys xs p q (Apart-comm xs ys apart))

  splice-next :
      (init xs : List ℕ) (last : ℕ)
      → IsRing m list (init ++ last ∷ [])
      → IsRing m head xs
      → Apart (list ∷ init ++ last ∷ []) (head ∷ xs)
      → PathTo (splice list head m).next head ((init ++ last ∷ []) ++ xs) head
  unfolding splice
  splice-next init xs last (forth, back, (d0, d)) (forth', back', (d0', d')) away =
      let comm = Apart-comm (list ∷ init ++ last ∷ []) (head ∷ xs) away in
      let joined = has-append last init (last ∷ []) in
      let (e, last_eq) = BackTo-cut m.prev list last list init [] back in
      let (p, q, apart) = IsDistinct-cut init (last ∷ []) d in
      let last_out : has last (head ∷ xs) ≡ false =
        Apart-not_has last (head ∷ xs) (list ∷ init ++ last ∷ []) comm (ground (arith, joined)) in
      subst
        (λ l.
          PathTo (put (put m.next head (m.next list)) l (m.next head)) head
            ((init ++ last ∷ []) ++ xs) head)
        (sym last_eq)
        (splice-forth m.next list head last (m.next head) init xs forth forth' refl comm.0
          (Apart-comm init (last ∷ []) apart).0 last_out d0')

  splice-prev :
      (y : ℕ) (ys xs : List ℕ)
      → IsRing m list (y ∷ ys)
      → IsRing m head xs
      → Apart (list ∷ y ∷ ys) (head ∷ xs)
      → BackTo (splice list head m).prev head (y ∷ ys ++ xs) head
  unfolding splice
  splice-prev y ys [] ((e, forth), back, (d0, (d1, d))) (e', back', d') away =
      let comm = Apart-comm (list ∷ y ∷ ys) (head ∷ []) away in
      let out : has head (y ∷ ys) ≡ false = ground (arith, comm.0) in
      subst
        (λ b. BackTo (put (put m.prev (m.next list) head) b (m.prev list)) head (y ∷ ys ++ []) head)
        (sym e')
        (subst (λ a. BackTo (put (put m.prev a head) head (m.prev list)) head (y ∷ ys ++ []) head)
          (sym e)
          (subst (λ l. BackTo (put (put m.prev y head) head (m.prev list)) head (y ∷ l) head)
            (sym (append-nil ys)) (splice-back_empty m.prev list head y ys back out d1)))
  splice-prev y ys (x ∷ xs) ((e, forth), back, (d0, (d1, d)))
        ((e', forth'), back', (d0', (d1', d'))) away =
      let comm = Apart-comm (list ∷ y ∷ ys) (head ∷ x ∷ xs) away in
      let (head_out, (x_out, others)) = comm in
      let y_out : has y (head ∷ x ∷ xs) ≡ false = away.1.0 in
      let joined = has-append y ys (x ∷ xs) in
      subst
        (λ b.
          BackTo (put (put m.prev (m.next list) head) b (m.prev list)) head (y ∷ ys ++ x ∷ xs) head)
        (sym e')
        (subst (λ a. BackTo (put (put m.prev a head) x (m.prev list)) head (y ∷ ys ++ x ∷ xs) head)
          (sym e)
          (splice-back m.prev list head y x ys xs back back' (ground arith) (ground arith) d1'
            (ground arith)))

  splice-IsRing :
      (ys xs : List ℕ)
      → (list_empty list m ≡ false)
      → IsRing m list ys
      → IsRing m head xs
      → Apart (list ∷ ys) (head ∷ xs)
      → IsRing (splice list head m) head (ys ++ xs)
  unfolding splice list_empty
  splice-IsRing [] xs some_entry (forth, back, d) ring' away = absurd (ground arith)
  splice-IsRing (y ∷ ys) xs some_entry (forth, back, d) (forth', back', d') away = (
    next_way (last-cases (y ∷ ys)),
    splice-prev y ys xs (forth, back, d) (forth', back', d') away,
    IsDistinct-joined (y ∷ ys) xs d d' away,
  )
    where
      next_way :
          ((y ∷ ys) ≡ []) ⊎ ((init : List ℕ) × (last : ℕ) × ((y ∷ ys) ≡ init ++ last ∷ []))
          → PathTo (splice list head m).next head (y ∷ ys ++ xs) head
      next_way (inl e) = absurd (ground arith)
      next_way (inr (init, last, e)) =
          subst (λ l. PathTo (splice list head m).next head (l ++ xs) head) (sym e)
            (splice-next init xs last (subst (IsRing m list) e (forth, back, d)) (forth', back', d')
              (subst (λ l. Apart (list ∷ l) (head ∷ xs)) e away))

  -- Two lists that share no address are joined: the entries of the first come before those of the
  -- other. list_splice_init leaves the first empty.
  pub list_splice-IsRing :
      (ys xs : List ℕ)
      → IsRing m list ys
      → IsRing m head xs
      → Apart (list ∷ ys) (head ∷ xs)
      → IsRing (list_splice list head m) head (ys ++ xs)
        × IsRing (list_splice_init list head m) head (ys ++ xs)
        × IsRing (list_splice_init list head m) list []
  unfolding list_splice list_splice_init list_empty init_list_head
  list_splice-IsRing [] xs ring ring' away =
      let none_there : list_empty list m ≡ true = eq→== (m.next list) list ring.0 in
      rw none_there (ring', ring', ring)
  list_splice-IsRing (y ∷ ys) xs (forth, back, d) ring' away =
      let some_entry : list_empty list m ≡ false = ground (arith, forth.0, d.0) in
      let (f, b, all) = splice-IsRing (y ∷ ys) xs some_entry (forth, back, d) ring' away in
      let out : has list (head ∷ (y ∷ ys) ++ xs) ≡ false =
        ground (arith, d.0, away.0, has-append list (y ∷ ys) xs) in
      let same : list_splice list head m ≡ splice list head m = rw (list_splice, some_entry) in
      let same_init : list_splice_init list head m ≡ init_list_head list (splice list head m) =
        rw (list_splice_init, some_entry) in
      (
        subst (λ l. IsRing l head ((y ∷ ys) ++ xs)) (sym same) (f, b, all),
        subst (λ l. IsRing l head ((y ∷ ys) ++ xs)) (sym same_init)
            (
              PathTo-put (splice list head m).next list list head head ((y ∷ ys) ++ xs) out f,
              BackTo-put (splice list head m).prev list list head head ((y ∷ ys) ++ xs) out b,
              all,
            ),
        subst (λ l. IsRing l list []) (sym same_init)
            (init_list_head-IsRing (splice list head m) list),
      )
