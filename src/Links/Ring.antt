-- ===== src/Links/Ring.antt =====
-- What a list of include/list.h stands for: the entries behind its head, in order. The pointers lead
-- through distinct addresses, forth and back, round to the head.
use icehydra.Prelude.{
  ℕ, ◌≡◌, refl, Bool, true, false, ◌||◌, List, [], ◌∷◌, ◌++◌, arith, ◌==◌, Bool-cases, inl, inr,
}
use icehydra.Links.{Links, put}

-- From `a` the steps lead through `xs` to `b`.
abbrev pub PathTo : (ℕ → ℕ) → ℕ → List ℕ → ℕ → Type 0
PathTo f a [] b = f a ≡ b
PathTo f a (x ∷ xs) b = (f a ≡ x) × PathTo f x xs b

-- From `b` the steps lead back through `xs` to `a`.
abbrev pub BackTo : (ℕ → ℕ) → ℕ → List ℕ → ℕ → Type 0
BackTo g a [] b = g b ≡ a
BackTo g a (x ∷ xs) b = (g x ≡ a) × BackTo g x xs b

abbrev pub has : ℕ → List ℕ → Bool
has p [] = false
has p (x ∷ xs) = (p == x) || has p xs

abbrev pub IsDistinct : List ℕ → Type 0
IsDistinct [] = Unit {0}
IsDistinct (x ∷ xs) = (has x xs ≡ false) × IsDistinct xs

abbrev pub IsRing : Links → ℕ → List ℕ → Type 0
IsRing m h xs = PathTo m.next h xs h × BackTo m.prev h xs h × IsDistinct (h ∷ xs)

-- A write elsewhere leaves a way as it was.
pub PathTo-put :
    (f : ℕ → ℕ) (p v a b : ℕ) (xs : List ℕ)
    → has p (a ∷ xs) ≡ false
    → PathTo f a xs b
    → PathTo (put f p v) a xs b
PathTo-put f p v a b [] out h = ground arith
PathTo-put f p v a b (x ∷ xs) out (e, h) = (ground arith, PathTo-put f p v x b xs (ground arith) h)

pub BackTo-put :
    (g : ℕ → ℕ) (p v a b : ℕ) (xs : List ℕ)
    → has p (b ∷ xs) ≡ false
    → BackTo g a xs b
    → BackTo (put g p v) a xs b
BackTo-put g p v a b [] out h = ground arith
BackTo-put g p v a b (x ∷ xs) out (e, h) = (ground arith, BackTo-put g p v x b xs (ground arith) h)

-- Ways are joined and cut at an address between them.
pub PathTo-append :
    (f : ℕ → ℕ) (a y b : ℕ) (xs ys : List ℕ)
    → PathTo f a xs y
    → PathTo f y ys b
    → PathTo f a (xs ++ y ∷ ys) b
PathTo-append f a y b [] ys h k = (h, k)
PathTo-append f a y b (x ∷ xs) ys (e, h) k = (e, PathTo-append f x y b xs ys h k)

pub PathTo-cut :
    (f : ℕ → ℕ) (a y b : ℕ) (xs ys : List ℕ)
    → PathTo f a (xs ++ y ∷ ys) b
    → PathTo f a xs y × PathTo f y ys b
PathTo-cut f a y b [] ys h = h
PathTo-cut f a y b (x ∷ xs) ys (e, h) = let (p, q) = PathTo-cut f x y b xs ys h in ((e, p), q)

pub BackTo-append :
    (g : ℕ → ℕ) (a y b : ℕ) (xs ys : List ℕ)
    → BackTo g a xs y
    → BackTo g y ys b
    → BackTo g a (xs ++ y ∷ ys) b
BackTo-append g a y b [] ys h k = (h, k)
BackTo-append g a y b (x ∷ xs) ys (e, h) k = (e, BackTo-append g x y b xs ys h k)

pub BackTo-cut :
    (g : ℕ → ℕ) (a y b : ℕ) (xs ys : List ℕ)
    → BackTo g a (xs ++ y ∷ ys) b
    → BackTo g a xs y × BackTo g y ys b
BackTo-cut g a y b [] ys h = h
BackTo-cut g a y b (x ∷ xs) ys (e, h) = let (p, q) = BackTo-cut g x y b xs ys h in ((e, p), q)

pub has-append : (p : ℕ) (xs ys : List ℕ) → has p (xs ++ ys) ≡ (has p xs || has p ys)
has-append p [] ys = refl
has-append p (x ∷ xs) ys = ground (arith, has-append p xs ys)

-- No address of the one list is in the other.
abbrev pub Apart : List ℕ → List ℕ → Type 0
Apart [] ys = Unit {0}
Apart (x ∷ xs) ys = (has x ys ≡ false) × Apart xs ys

pub Apart-not_has : (p : ℕ) (xs ys : List ℕ) → Apart xs ys → has p ys ≡ true → has p xs ≡ false
Apart-not_has p [] ys h k = refl
Apart-not_has p (x ∷ xs) ys (out, h) k = elim (Bool-cases (p == x)) [
  | inl hit ↦ ground arith
  | inr miss ↦ ground (arith, Apart-not_has p xs ys h k)
]

pub IsDistinct-cut :
    (xs ys : List ℕ) → IsDistinct (xs ++ ys) → IsDistinct xs × IsDistinct ys × Apart xs ys
IsDistinct-cut [] ys d = (tt, d, tt)
IsDistinct-cut (x ∷ xs) ys (out, d) =
    let (p, q, r) = IsDistinct-cut xs ys d in
    ((ground (arith, has-append x xs ys), p), q, (ground (arith, has-append x xs ys), r))

pub IsDistinct-append :
    (xs ys : List ℕ) → IsDistinct xs → IsDistinct ys → Apart xs ys → IsDistinct (xs ++ ys)
IsDistinct-append [] ys p q r = q
IsDistinct-append (x ∷ xs) ys (out, p) q (away, r) =
    (ground (arith, has-append x xs ys), IsDistinct-append xs ys p q r)

Apart-cons_right : (xs ys : List ℕ) (y : ℕ) → Apart xs (y ∷ ys) → (has y xs ≡ false) × Apart xs ys
Apart-cons_right [] ys y r = (refl, tt)
Apart-cons_right (x ∷ xs) ys y (out, r) =
    let (p, q) = Apart-cons_right xs ys y r in (ground arith, (ground arith, q))

Apart-nil : (xs : List ℕ) → Apart xs []
Apart-nil [] = tt
Apart-nil (x ∷ xs) = (refl, Apart-nil xs)

pub Apart-comm : (xs ys : List ℕ) → Apart xs ys → Apart ys xs
Apart-comm xs [] r = tt
Apart-comm xs (y ∷ ys) r = let (p, q) = Apart-cons_right xs ys y r in (p, Apart-comm xs ys q)

-- Each entry can be taken for the head.
pub IsRing-rotate :
    (m : Links) (h p : ℕ) (xs ys : List ℕ) → IsRing m h (xs ++ p ∷ ys) → IsRing m p (ys ++ h ∷ xs)
IsRing-rotate m h p xs ys (forth, back, d) =
    let (f, f') = PathTo-cut m.next h p h xs ys forth in
    let (b, b') = BackTo-cut m.prev h p h xs ys back in
    let (d1, d2, away) = IsDistinct-cut (h ∷ xs) (p ∷ ys) d in
    (
      PathTo-append m.next p h p ys xs f' f,
      BackTo-append m.prev p h p ys xs b' b,
      IsDistinct-append (p ∷ ys) (h ∷ xs) d2 d1 (Apart-comm (h ∷ xs) (p ∷ ys) away),
    )
