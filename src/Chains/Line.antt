-- ===== src/Chains/Line.antt =====
-- What a singly linked list of include/list.h stands for: the nodes behind its head, in order.
use icehydra.Prelude.{
  ℕ, ◌<◌, ◌≡◌, refl, sym, ◌∙◌, inl, inr, Bool-cases, true, false, List, [], ◌∷◌, ◌++◌, arith, ◌==◌,
  eq→==, if◌then◌else◌, length,
}
use mathlib.Core.Path.{subst}
use icehydra.Run.{ok}
use icehydra.Links.{put}
use icehydra.Links.Ring.{PathTo, has, IsDistinct}
use icehydra.Links.Visit.{walk-PathTo}
use icehydra.Chains.{Chains, set_last, end_at, slist_for_each, slist_empty}

-- The last of some nodes behind `a`, or `a` itself.
abbrev pub last_of : ℕ → List ℕ → ℕ
last_of a [] = a
last_of a (x ∷ xs) = last_of x xs

-- From `a` the steps lead through `xs`.
abbrev pub Steps : (ℕ → ℕ) → ℕ → List ℕ → Type 0
Steps f a [] = Unit {0}
Steps f a (x ∷ xs) = (f a ≡ x) × Steps f x xs

-- The nodes behind the head, up to the null pointer, with `last` at the end.
abbrev pub IsChain : Chains → ℕ → List ℕ → Type 0
IsChain m h xs =
    PathTo m.next h xs 0
    × (m.last h ≡ last_of h xs)
    × IsDistinct (h ∷ xs)
    × (has 0 (h ∷ xs) ≡ false)

pub last_of-append : (a : ℕ) (xs ys : List ℕ) → last_of a (xs ++ ys) ≡ last_of (last_of a xs) ys
last_of-append a [] ys = refl
last_of-append a (x ∷ xs) ys = last_of-append x xs ys

pub has-last_of : (a : ℕ) (xs : List ℕ) → has (last_of a xs) (a ∷ xs) ≡ true
has-last_of a [] = ground arith
has-last_of a (x ∷ xs) = ground (arith, has-last_of x xs)

pub PathTo-split :
    (f : ℕ → ℕ) (a b : ℕ) (xs ys : List ℕ)
    → PathTo f a (xs ++ ys) b
    → Steps f a xs × PathTo f (last_of a xs) ys b
PathTo-split f a b [] ys way = (tt, way)
PathTo-split f a b (x ∷ xs) ys (e, way) = let (p, q) = PathTo-split f x b xs ys way in ((e, p), q)

pub PathTo-Steps : (f : ℕ → ℕ) (a b : ℕ) (xs : List ℕ) → PathTo f a xs b → Steps f a xs
PathTo-Steps f a b [] way = tt
PathTo-Steps f a b (x ∷ xs) (e, way) = (e, PathTo-Steps f x b xs way)

pub PathTo-joined :
    (f : ℕ → ℕ) (a b : ℕ) (xs ys : List ℕ)
    → Steps f a xs
    → PathTo f (last_of a xs) ys b
    → PathTo f a (xs ++ ys) b
PathTo-joined f a b [] ys steps way = way
PathTo-joined f a b (x ∷ xs) ys (e, steps) way = (e, PathTo-joined f x b xs ys steps way)

pub Steps-put :
    (f : ℕ → ℕ) (p v a : ℕ) (xs : List ℕ)
    → has p (a ∷ xs) ≡ false
    → Steps f a xs
    → Steps (put f p v) a xs
Steps-put f p v a [] out steps = tt
Steps-put f p v a (x ∷ xs) out (e, steps) =
    (ground arith, Steps-put f p v x xs (ground arith) steps)

-- An address in a list and one that is not in it are two.
pub has-other : (p q : ℕ) (xs : List ℕ) → has p xs ≡ false → has q xs ≡ true → (p == q) ≡ false
has-other p q [] out inside = absurd (ground arith)
has-other p q (x ∷ xs) out inside = elim (Bool-cases (q == x)) [
  | inl hit ↦ ground arith
  | inr miss ↦ has-other p q xs (ground arith) (ground arith)
]

-- A write at the last node leaves the steps to it as they were.
pub Steps-put_last :
    (f : ℕ → ℕ) (v a : ℕ) (xs : List ℕ)
    → IsDistinct (a ∷ xs)
    → Steps f a xs
    → Steps (put f (last_of a xs) v) a xs
Steps-put_last f v a [] d steps = tt
Steps-put_last f v a (x ∷ xs) (out, d) (e, steps) =
    let there = has-last_of x xs in
    let apart = has-other a (last_of x xs) (x ∷ xs) out there in
    (ground (arith, apart), Steps-put_last f v x xs d steps)

-- `last` is mended at a place whose step was changed.
pub end_at-IsChain :
    (m : Chains) (h x : ℕ) (xs : List ℕ)
    → PathTo m.next h xs 0
    → (if m.next x == 0 then x else m.last h) ≡ last_of h xs
    → IsDistinct (h ∷ xs)
    → has 0 (h ∷ xs) ≡ false
    → IsChain (end_at x h m) h xs
end_at-IsChain m h x xs way end d live = elim (Bool-cases (m.next x == 0)) [
  | inl bare ↦
      let same : end_at x h m ≡ set_last h x m = rw bare in
      let chosen : (if m.next x == 0 then x else m.last h) ≡ x = rw bare in
      let at_end : put m.last h x h ≡ last_of h xs = rw (eq→== h h refl) (sym chosen ∙ end) in
      subst (λ c. IsChain c h xs) (sym same) (way, at_end, d, live)
  | inr more ↦
      let same : end_at x h m ≡ m = rw more in
      let chosen : (if m.next x == 0 then x else m.last h) ≡ m.last h = rw more in
      subst (λ c. IsChain c h xs) (sym same) (way, sym chosen ∙ end, d, live)
]

-- slist_for_each comes to the nodes in order, with as much fuel as nodes and one; slist_empty says
-- whether there are none.
pub slist_for_each-IsChain :
    (m : Chains) (h fuel : ℕ) (xs : List ℕ)
    → IsChain m h xs
    → length xs < fuel
    → (slist_for_each fuel h m ≡ ok xs) × (slist_empty h m ≡ (length xs == 0))
unfolding slist_for_each slist_empty
slist_for_each-IsChain m h fuel xs (way, end, d, live) enough =
    (walk-PathTo m.next h 0 fuel xs way (ground arith) enough, empty xs way live)
  where
    empty :
        (xs : List ℕ)
        → PathTo m.next h xs 0
        → has 0 (h ∷ xs) ≡ false
        → (m.next h == 0) ≡ (length xs == 0)
    empty [] e live = ground arith
    empty (x ∷ xs) (e, way) live = ground arith
