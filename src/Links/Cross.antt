-- ===== src/Links/Cross.antt =====
-- The ways through two lists of include/list.h that __list_splice joins.
use icehydra.Prelude.{ℕ, ◌≡◌, refl, sym, ◌∙◌, false, List, [], ◌∷◌, ◌++◌, append_assoc, arith}
use mathlib.Core.Path.{subst}
use icehydra.Links.{put}
use icehydra.Links.Ring.{PathTo, BackTo, has, PathTo-append, PathTo-cut, BackTo-append, has-append}

-- Two memories hold the same at each of some addresses.
abbrev pub Agree : (ℕ → ℕ) → (ℕ → ℕ) → List ℕ → Type 0
Agree f g [] = Unit {0}
Agree f g (x ∷ xs) = (g x ≡ f x) × Agree f g xs

pub Agree-refl : (f : ℕ → ℕ) (xs : List ℕ) → Agree f f xs
Agree-refl f [] = tt
Agree-refl f (x ∷ xs) = (refl, Agree-refl f xs)

pub Agree-put :
    (f g : ℕ → ℕ) (p v : ℕ) (xs : List ℕ) → has p xs ≡ false → Agree f g xs → Agree f (put g p v) xs
Agree-put f g p v [] out h = tt
Agree-put f g p v (x ∷ xs) out (e, h) = (ground arith, Agree-put f g p v xs (ground arith) h)

-- A way is there in another memory too, from a place that leads to its first address.
pub PathTo-Agree :
    (f g : ℕ → ℕ) (a c b : ℕ) (xs : List ℕ)
    → g c ≡ f a
    → Agree f g xs
    → PathTo f a xs b
    → PathTo g c xs b
PathTo-Agree f g a c b [] e h way = e ∙ way
PathTo-Agree f g a c b (x ∷ xs) e (e', h) (e'', way) = (e ∙ e'', PathTo-Agree f g x x b xs e' h way)

BackTo-Agree :
    (f g : ℕ → ℕ) (a b d : ℕ) (xs : List ℕ)
    → g d ≡ f b
    → Agree f g xs
    → BackTo f a xs b
    → BackTo g a xs d
BackTo-Agree f g a b d [] e h way = e ∙ way
BackTo-Agree f g a b d (x ∷ xs) e (e', h) (e'', way) = (e' ∙ e'', BackTo-Agree f g x b d xs e h way)

pub splice-forth :
    (f : ℕ → ℕ) (list head last at : ℕ) (init xs : List ℕ)
    → PathTo f list (init ++ last ∷ []) list
    → PathTo f head xs head
    → at ≡ f head
    → has head (list ∷ init ++ last ∷ []) ≡ false
    → has last init ≡ false
    → has last (head ∷ xs) ≡ false
    → has head xs ≡ false
    → PathTo (put (put f head (f list)) last at) head ((init ++ last ∷ []) ++ xs) head
splice-forth f list head last at init xs way way' e out1 out2 out3 out4 =
    let g = put (put f head (f list)) last at in
    let (front, back) = PathTo-cut f list last list init [] way in
    let away : has head init ≡ false = ground (arith, has-append head init (last ∷ [])) in
    let from_head : g head ≡ f list = ground arith in
    let from_last : g last ≡ f head = ground arith in
    let same : Agree f g init =
      Agree-put f (put f head (f list)) last at init out2
        (Agree-put f f head (f list) init away (Agree-refl f init)) in
    let same' : Agree f g xs =
      Agree-put f (put f head (f list)) last at xs (ground arith)
        (Agree-put f f head (f list) xs out4 (Agree-refl f xs)) in
    subst (λ l. PathTo g head l head) (sym (append_assoc init (last ∷ []) xs))
      (PathTo-append g head last head init xs
        (PathTo-Agree f g list head last init from_head same front)
        (PathTo-Agree f g head last head xs from_last same' way'))

pub splice-back :
    (f : ℕ → ℕ) (list head first at : ℕ) (tail xs : List ℕ)
    → BackTo f list (first ∷ tail) list
    → BackTo f head (at ∷ xs) head
    → has at (first ∷ tail) ≡ false
    → has first (tail ++ at ∷ xs) ≡ false
    → has at xs ≡ false
    → has head (at ∷ first ∷ []) ≡ false
    → BackTo (put (put f first head) at (f list)) head (first ∷ tail ++ at ∷ xs) head
splice-back f list head first at tail xs (e, way) (e', way') out1 out2 out3 out4 =
    let g = put (put f first head) at (f list) in
    let apart = has-append first tail (at ∷ xs) in
    let same : Agree f g tail =
      Agree-put f (put f first head) at (f list) tail (ground arith)
        (Agree-put f f first head tail (ground (arith, apart)) (Agree-refl f tail)) in
    let same' : Agree f g xs =
      Agree-put f (put f first head) at (f list) xs out3
        (Agree-put f f first head xs (ground (arith, apart)) (Agree-refl f xs)) in
    let at_first : g first ≡ head = ground arith in
    let at_at : g at ≡ f list = ground arith in
    let at_head : g head ≡ f head = ground arith in
    (
      at_first,
      BackTo-append g first at head tail xs (BackTo-Agree f g first list at tail at_at same way)
          (BackTo-Agree f g at head head xs at_head same' way'),
    )

pub splice-back_empty :
    (f : ℕ → ℕ) (list head first : ℕ) (tail : List ℕ)
    → BackTo f list (first ∷ tail) list
    → has head (first ∷ tail) ≡ false
    → has first tail ≡ false
    → BackTo (put (put f first head) head (f list)) head (first ∷ tail) head
splice-back_empty f list head first tail (e, way) out1 out2 =
    let g = put (put f first head) head (f list) in
    let same : Agree f g tail =
      Agree-put f (put f first head) head (f list) tail (ground arith)
        (Agree-put f f first head tail out2 (Agree-refl f tail)) in
    let at_first : g first ≡ head = ground arith in
    let at_head : g head ≡ f list = ground arith in
    (at_first, BackTo-Agree f g first list head tail at_head same way)
