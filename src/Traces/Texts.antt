-- ===== src/Traces/Texts.antt =====
-- What print_data_char of src/conf.c prints, and when it leaves the memory that it is given.
use icehydra.Prelude.{
  ◌-◌, ◌≤◌, drop-replicate, IsText, ◌<◌, replicate, ℕ, zero, suc, ◌≡◌, refl, sym, ap, ◌∙◌,
  append_assoc, length-append, length-replicate, inl, inr, false, List, [], ◌∷◌, ◌++◌, arith, leb,
  length, length-drop, take, drop, map, codes, Bool-cases,
}
use mathlib.Core.Path.{subst}
use icehydra.Run.{Run, ok, fault, Ends, returned, faulted, ◌>>=◌}
use icehydra.Run
use icehydra.Wire.{round4}
use icehydra.Wire.Padding.{round4-least}
use icehydra.Traces.{Argument, number, text, Printed, printf, text_at, print_data_char}

-- What `%s` prints of some memory.
abbrev pub IsTextAt : List ℕ → List ℕ → Type 0
IsTextAt bs body = IsText body × ((rest : List ℕ) × (bs ≡ body ++ 0 ∷ rest))

text_at-Ends : (bs : List ℕ) → Ends (IsText bs) (IsTextAt bs) (text_at bs)
unfolding text_at
text_at-Ends [] = faulted tt
text_at-Ends (zero ∷ bs) = returned (tt, (bs, refl))
text_at-Ends (suc b ∷ bs) =
    Run.bind (Run.mono (text_at-Ends bs) (λ h. (omega arith, h)) λ body q. q)
      λ body (t, (rest, e)). returned ((omega arith, t), (rest, ap (◌∷◌ (suc b)) e))

text_at-fault : (bs : List ℕ) → IsText bs → text_at bs ≡ fault
unfolding text_at
text_at-fault [] h = refl
text_at-fault (zero ∷ bs) (h0, h) = absurd (omega arith)
text_at-fault (suc b ∷ bs) (h0, h) = let rest = text_at-fault bs h in rw (text_at, rest)

IsText-empty : (bs : List ℕ) → length bs ≡ 0 → IsText bs
IsText-empty [] e = tt
IsText-empty (b ∷ bs) e = absurd (omega arith)

-- The arguments of all calls of printf, in their order.
abbrev pub arguments_of : List Printed → List Argument
arguments_of [] = []
arguments_of (p ∷ ps) = p.arguments ++ arguments_of ps

arguments_of-ids :
    (ids : List ℕ) (rest : List Printed)
    → arguments_of (map (λ id. printf (codes " %d") (number id ∷ [])) ids ++ rest)
      ≡ map number ids ++ arguments_of rest
arguments_of-ids [] rest = refl
arguments_of-ids (i ∷ ids) rest = ap (◌∷◌ (number i)) (arguments_of-ids ids rest)

-- The arguments that print_data_char prints are the ids, as many as it is told, and then the text
-- that stands behind their room, up to the first zero byte; or no zero byte follows there in the
-- memory, and it reads past the end.
pub print_data_char-Prints :
    (br_num : ℕ) (data_area : List ℕ)
    → Ends
        (IsText (drop (round4 br_num) data_area))
        (λ out.
          (body : List ℕ) × IsTextAt (drop (round4 br_num) data_area) body
          × (arguments_of out ≡ map number (take br_num data_area) ++ text body ∷ []))
        (print_data_char br_num data_area)
unfolding print_data_char
print_data_char-Prints br_num data_area = elim (Bool-cases (leb br_num (length data_area))) [
  | inl room ↦ rw room (
      Run.bind (text_at-Ends (drop (round4 br_num) data_area))
        λ body q. returned (body, q, arguments_of-ids (take br_num data_area) _))
  | inr short ↦ rw short (faulted (short_area short))
]
  where
    short_area : leb br_num (length data_area) ≡ false → IsText (drop (round4 br_num) data_area)
    short_area short =
        IsText-empty (drop (round4 br_num) data_area)
          (ground (arith, length-drop (round4 br_num) data_area, (round4-least br_num).1))

-- Memory without a zero byte behind the room of the ids is left behind.
pub print_data_char-fault :
    (br_num : ℕ) (data_area : List ℕ)
    → IsText (drop (round4 br_num) data_area)
    → print_data_char br_num data_area ≡ fault
unfolding print_data_char
print_data_char-fault br_num data_area h =
    let rest = text_at-fault (drop (round4 br_num) data_area) h in
    elim (Bool-cases (leb br_num (length data_area))) [
      | inl room ↦ rw (room, rest)
      | inr short ↦ rw short
    ]

IsText-append : (xs ys : List ℕ) → IsText (xs ++ ys) → IsText ys
IsText-append [] ys t = t
IsText-append (x ∷ xs) ys (t0, t) = IsText-append xs ys t

drop-IsText : (n : ℕ) (xs ys : List ℕ) → n ≤ length xs → IsText (drop n (xs ++ ys)) → IsText ys
drop-IsText zero xs ys h t = IsText-append xs ys t
drop-IsText (suc n) [] ys h t = absurd (omega arith)
drop-IsText (suc n) (x ∷ xs) ys h t = drop-IsText n xs ys (omega arith) t

cleared-IsText : (n : ℕ) → 0 < n → IsText (replicate n 0) → ⊥
cleared-IsText zero h t = absurd (omega arith)
cleared-IsText (suc n) h (t0, t) = omega arith

-- Cleared memory behind what has been stored ends the text.
pub stored-IsText :
    (br_num n m : ℕ) (stored : List ℕ)
    → round4 br_num ≤ length stored
    → n < m
    → IsText (drop (round4 br_num) (stored ++ drop n (replicate m 0)))
    → ⊥
stored-IsText br_num n m stored behind space t = cleared-IsText (m - n) (omega arith) (
    subst IsText (drop-replicate n m 0)
      (drop-IsText (round4 br_num) stored (drop n (replicate m 0)) behind t))

-- Where cleared memory is left behind what has been stored, print_data_char stays within it.
pub print_data_char-stored :
    (br_num n m : ℕ) (stored : List ℕ)
    → round4 br_num ≤ length stored
    → n < m
    → Ends ⊥ (λ out. Unit {0}) (print_data_char br_num (stored ++ drop n (replicate m 0)))
print_data_char-stored br_num n m stored behind space =
    Run.mono (print_data_char-Prints br_num (stored ++ drop n (replicate m 0)))
      (stored-IsText br_num n m stored behind space) (λ out q. tt)

replicate_last : (n : ℕ) → replicate {A = ℕ} (suc n) 0 ≡ replicate n 0 ++ 0 ∷ []
replicate_last zero = refl
replicate_last (suc n) = ap (◌∷◌ 0) (replicate_last n)

-- Wherever the text begins, cleared memory at the end ends it.
pub ended-IsText :
    (j m : ℕ) (stored : List ℕ)
    → length stored < m
    → j < m
    → IsText (drop j (stored ++ drop (length stored) (replicate m 0)))
    → ⊥
ended-IsText j m stored space begins t =
    let n = length stored in
    let k = m - n - 1 in
    let left : m - n ≡ suc k = omega arith in
    let zeros : drop n (replicate {A = ℕ} m 0) ≡ replicate {A = ℕ} k 0 ++ 0 ∷ [] =
      drop-replicate n m 0 ∙ ap (λ (i : ℕ). replicate {A = ℕ} i 0) left ∙ replicate_last k in
    let whole : stored ++ drop n (replicate {A = ℕ} m 0)
        ≡ (stored ++ replicate {A = ℕ} k 0) ++ 0 ∷ [] =
      ap (◌++◌ stored) zeros ∙ sym (append_assoc stored (replicate {A = ℕ} k 0) (0 ∷ [])) in
    let front : j ≤ length (stored ++ replicate {A = ℕ} k 0) =
      omega (arith, length-append stored (replicate {A = ℕ} k 0), length-replicate {A = ℕ} k 0) in
    let (t0, t1) =
      drop-IsText j (stored ++ replicate {A = ℕ} k 0) (0 ∷ []) front
        (subst (λ x. IsText (drop j x)) whole t) in
    omega arith
