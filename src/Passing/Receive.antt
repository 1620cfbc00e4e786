-- ===== src/Passing/Receive.antt =====
-- What recv_fd_unix_domain makes of what send_fd_unix_domain and send_errno_unix_domain send.
use icehydra.Prelude.{
  IsText, ℕ, zero, suc, ◌+◌, ◌-◌, ◌%◌, ◌≤◌, ◌<◌, ◌≡◌, refl, sym, ap, ◌∙◌, false, Option, none, some,
  List, [], ◌∷◌, ◌++◌, append_assoc, arith, ltb, ◌==◌, lt→ltb, le→ltb, if◌then◌else◌, length,
  length-append, drop, get_elem?, replicate, ℤ, pos, negsuc, neg,
}
use mathlib.Core.Path.{ap₂}
use icehydra.Run.{ok}
use icehydra.Kernel.{Kernel}
use icehydra.Kernel.Unix.{Message, Unix}
use icehydra.Passing.{
  error_code, fd_message, recv_room, scan, given_rights, recv_messages, recv_fd_unix_domain,
}

add_suc_one : (n : ℕ) → suc n + 1 ≡ suc (n + 1)
add_suc_one n = omega arith

get_elem?-of_length :
    {A : Type 0} (pre post : List A) (x : A) → get_elem? (pre ++ x ∷ post) (length pre) ≡ some x
get_elem?-of_length [] post x = refl
get_elem?-of_length (y ∷ pre) post x = get_elem?-of_length pre post x

get_elem?-next :
    {A : Type 0} (pre post : List A) (x y : A)
    → get_elem? (pre ++ x ∷ y ∷ post) (length pre + 1) ≡ some y
get_elem?-next [] post x y = refl
get_elem?-next (z ∷ pre) post x y =
    ap (get_elem? (z ∷ (pre ++ x ∷ y ∷ post))) (add_suc_one (length pre))
    ∙ get_elem?-next pre post x y

-- An integer is not below minus a bound.
abbrev pub IsNegBelow : ℤ → ℕ → Type 0
IsNegBelow (pos n) bound = Unit {0}
IsNegBelow (negsuc n) bound = n < bound

-- What `newfd` becomes by a status.
abbrev pub outcome : ℤ → ℕ → ℤ
outcome control status = if status == 0 then control else neg (pos status)

module _ (buf : List ℕ) (control : ℤ) (fuel ptr nr : ℕ) (newfd : Option ℤ) where
  scan-end : nr ≤ ptr → scan (suc fuel) buf control ptr nr newfd ≡ ok newfd
  unfolding scan
  scan-end h = rw (scan, le→ltb ptr nr h)

  scan-byte :
      (b : ℕ)
      → ptr < nr
      → get_elem? buf ptr ≡ some (suc b)
      → scan (suc fuel) buf control ptr nr newfd ≡ scan fuel buf control (ptr + 1) nr newfd
  unfolding scan
  scan-byte b h e =
      let some_byte : (suc b == 0) ≡ false = ground arith in
      rw (scan, lt→ltb ptr nr h, e, some_byte)

  scan-status :
      (status : ℕ)
      → ptr < nr
      → get_elem? buf ptr ≡ some 0
      → get_elem? buf (ptr + 1) ≡ some status
      → scan (suc fuel) buf control ptr nr newfd
        ≡ scan fuel buf control (ptr + 1) (nr - 2) (some (outcome control status))
  unfolding scan
  scan-status status h e e' = rw (scan, lt→ltb ptr nr h, e, e')

-- Behind a text, the scan finds the status that follows the first zero byte.
scan-text :
    (text pre post : List ℕ) (status : ℕ) (control : ℤ) (fuel nr : ℕ)
    → IsText text
    → nr ≡ length pre + length text + 2
    → length text + 1 < fuel
    → scan fuel (pre ++ (text ++ 0 ∷ status ∷ post)) control (length pre) nr none
      ≡ ok (some (outcome control status))
scan-text text pre post status control zero nr t e h = absurd (omega arith)
scan-text [] pre post status control (suc zero) nr t e h = absurd (omega arith)
scan-text [] pre post status control (suc (suc fuel)) nr t e h =
    let buf = pre ++ 0 ∷ status ∷ post in
    let next : get_elem? buf (length pre + 1) ≡ some status = get_elem?-next pre post 0 status in
    scan-status buf control (suc fuel) (length pre) nr none status (omega arith)
      (get_elem?-of_length pre (status ∷ post) 0) next
    ∙ scan-end buf control fuel (length pre + 1) (nr - 2) (some (outcome control status))
        (omega arith)
scan-text (zero ∷ text) pre post status control (suc fuel) nr (t0, t) e h = absurd (omega arith)
scan-text (suc b ∷ text) pre post status control (suc fuel) nr (t0, t) e h =
    let rest = text ++ 0 ∷ status ∷ post in
    let moved = append_assoc pre (suc b ∷ []) rest in
    let len : length (pre ++ suc b ∷ []) ≡ length pre + 1 = length-append pre (suc b ∷ []) in
    scan-byte (pre ++ suc b ∷ rest) control fuel (length pre) nr none b (omega arith)
      (get_elem?-of_length pre rest (suc b))
    ∙ ap₂ (λ (buf : List ℕ) (p : ℕ). scan fuel buf control p nr none) (sym moved) (sym len)
    ∙ scan-text text (pre ++ suc b ∷ []) post status control fuel nr t (omega (arith, len))
        (omega arith)

error_code-small : (n : ℕ) → n < 255 → error_code n ≡ suc n
error_code-small n h =
    let whole : suc n % 256 ≡ suc n = omega arith in
    let kept : (suc n % 256 == 0) ≡ false = ground (arith, whole) in rw kept whole

outcome-error_code : (n : ℕ) (control : ℤ) → n < 255 → outcome control (error_code n) ≡ negsuc n
outcome-error_code n control h =
    let other : (suc n == 0) ≡ false = ground arith in
    let one_less : suc n - 1 ≡ n = omega arith in
    ap (outcome control) (error_code-small n h) ∙ rw (other, one_less)

module _ (k : Kernel) (u : Unix k) where
  -- A message that ends in a zero byte and a status, behind a text, ends the loop.
  recv_messages-text :
      (fuel : ℕ) (sockfd : ℤ) (buf : List ℕ) (control : ℤ) (text : List ℕ) (status : ℕ)
      (rights : Option ℤ) (w w' : k.World)
      → IsText text
      → length text ≤ 126
      → u.recvmsg sockfd recv_room w
        ≡ (some (record { bytes = text ++ 0 ∷ status ∷ []; rights = rights }), w')
      → recv_messages k u (suc fuel) sockfd buf control w
        ≡ ok (outcome (given_rights rights control) status, w')
  unfolding recv_messages
  recv_messages-text fuel sockfd buf control text status rights w w' t small answer =
      let bytes = text ++ 0 ∷ status ∷ [] in
      let len : length bytes ≡ length text + 2 = length-append text (0 ∷ status ∷ []) in
      let some_bytes : (length bytes == 0) ≡ false = ground (arith, len) in
      let fits : ltb recv_room (length bytes) ≡ false =
        le→ltb recv_room (length bytes) (omega (arith, len)) in
      let joined = append_assoc text (0 ∷ status ∷ []) (drop (length bytes) buf) in
      let scanned =
        ap
          (λ (b : List ℕ).
            scan (length bytes + 1) b (given_rights rights control) 0 (length bytes) none)
          joined
        ∙ scan-text text [] (drop (length bytes) buf) status (given_rights rights control)
            (length bytes + 1) (length bytes) t (omega (arith, len)) (omega (arith, len)) in
      let after : (u.recvmsg sockfd recv_room w).1 ≡ w' =
        ap (λ (r : Option Message × k.World). r.1) answer in
      rw (recv_messages, answer, some_bytes, fits, scanned, after)

  -- What comes out of a message that send_fd_unix_domain built: the descriptor that the system gave
  -- for the one that was passed, or the error number that was passed.
  abbrev pub passed_on : ℤ → ℤ → ℤ
  passed_on (pos fd) received = received
  passed_on (negsuc n) received = negsuc n

  -- What comes with the message: the descriptor that the system gave for the one that was passed, and
  -- nothing with an error number.
  abbrev pub rights_for : ℤ → ℤ → Option ℤ
  rights_for (pos fd) received = some received
  rights_for (negsuc n) received = none

  -- When recvmsg delivers what send_fd_unix_domain sends, its two bytes behind a text or not, and with
  -- them the system's descriptor if a descriptor was passed and none if an error number was:
  -- recv_fd_unix_domain returns that descriptor, or the error number, if it is one from -255 to -1.
  -- The text has no zero byte and fits the buffer.
  pub recv_fd_unix_domain-fd_message :
      (fuel : ℕ) (sockfd passed received : ℤ) (text : List ℕ) (w w' : k.World)
      → IsText text
      → length text ≤ 126
      → IsNegBelow passed 255
      → u.recvmsg sockfd recv_room w ≡ (
        some (record {
          bytes = text ++ (fd_message passed).bytes;
          rights = rights_for passed received;
        }),
        w',
      )
      → recv_fd_unix_domain k u (suc fuel) sockfd w ≡ ok (passed_on passed received, w')
  unfolding recv_fd_unix_domain
  recv_fd_unix_domain-fd_message fuel sockfd (pos fd) received text w w' t small low answer =
      recv_messages-text fuel sockfd (replicate recv_room 0) (pos 0) text 0 (some received) w w' t
        small answer
  recv_fd_unix_domain-fd_message fuel sockfd (negsuc n) received text w w' t small low answer =
      recv_messages-text fuel sockfd (replicate recv_room 0) (pos 0) text (error_code n) none w w' t
        small answer
      ∙ ap (λ i. ok (i, w')) (outcome-error_code n (pos 0) low)
