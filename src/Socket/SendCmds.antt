-- ===== src/Socket/SendCmds.antt =====
-- tcp_send_protocol_cmd and tcp_send_noblock: one message reaches the stream, whole or cut short,
-- and the result says which.
use icehydra.Prelude.{
  ℕ, ◌+◌, ◌-◌, ◌≤◌, ◌<◌, ◌≡◌, ◌≢◌, refl, sym, ap, ◌∙◌, ◌⊎◌, inl, inr, List, ◌++◌, append_assoc,
  arith, some, ◌==◌, ==→eq, eq→==, lt→ltb, Bool-cases, length, take, drop, take-add, if◌then◌else◌,
  ℤ, pos, minus_one,
}
use icehydra.Run.{Run, ok, Ends, returned}
use icehydra.Run
use icehydra.Kernel.{Kernel}
use icehydra.Kernel.Stream.{IsStream, Accepts}
use icehydra.Wire.{decode, head_len}
use icehydra.Socket.{SendLoop, retries, send_body, tcp_send_protocol_cmd, tcp_send_noblock}
use icehydra.Socket.Send.{Sends, send_loop-Sends}

-- What a call of tcp_send_protocol_cmd means to send.
abbrev pub message : List ℕ → List ℕ → List ℕ
message head area = take head_len head ++ take (decode head).bodylen area

-- A buffer that does not hold what is sent from it.
abbrev pub Short : List ℕ → List ℕ → Type 0
Short head area = (length head < head_len) ⊎ (length area < (decode head).bodylen)

abbrev pub IsPrefix : List ℕ → List ℕ → Type 0
IsPrefix xs ys = (rest : List ℕ) × (xs ++ rest ≡ ys)

take-IsPrefix : (n m : ℕ) (xs : List ℕ) → n ≤ m → IsPrefix (take n xs) (take m xs)
take-IsPrefix n m xs h =
    let e : n + (m - n) ≡ m = omega arith in
    (take (m - n) (drop n xs), take-add n (m - n) xs ∙ ap (λ x. take x xs) e)

pub prefix-append : (xs ys zs : List ℕ) → IsPrefix ys zs → IsPrefix (xs ++ ys) (xs ++ zs)
prefix-append xs ys zs (rest, e) = (rest, append_assoc xs ys rest ∙ ap (◌++◌ xs) e)

pub prefix_of_left : (xs ys zs : List ℕ) → IsPrefix xs ys → IsPrefix xs (ys ++ zs)
prefix_of_left xs ys zs (rest, e) =
    (rest ++ zs, sym (append_assoc xs rest zs) ∙ ap (λ x. x ++ zs) e)

module _ (k : Kernel) (s : IsStream k) where
  open s use {output}

  -- A result of 0 for all of `msg`, -1 for a part of it; nothing goes elsewhere.
  abbrev pub Delivered : ℕ → List ℕ → k.World → ℤ × k.World → Type 0
  Delivered fd msg w (ret, w') =
      (new : List ℕ) × (output fd w' ≡ output fd w ++ new)
      × (((ret ≡ pos 0) × (new ≡ msg)) ⊎ ((ret ≡ minus_one) × IsPrefix new msg))
      × ((g : ℕ) → g ≢ fd → output g w' ≡ output g w)
      × (Accepts k fd → ret ≡ pos 0)

  Delivered-after :
      (fd : ℕ) (pre msg : List ℕ) (w w' : k.World) (r : ℤ × k.World)
      → output fd w' ≡ output fd w ++ pre
      → ((g : ℕ) → g ≢ fd → output g w' ≡ output g w)
      → Delivered fd msg w' r
      → Delivered fd (pre ++ msg) w r
  Delivered-after fd pre msg w w' (ret, w'') o q (new, o', done, q', all) = (
    pre ++ new,
    o' ∙ ap (λ x. x ++ new) o ∙ append_assoc (output fd w) pre new,
    elim done [
      | inl (z, e) ↦ inl (z, ap (◌++◌ pre) e)
      | inr (z, p) ↦ inr (z, prefix-append pre new msg p)
    ],
    λ g x. q' g x ∙ q g x,
    all,
  )

  -- What the test after a loop makes of it.
  Sends-Delivered :
      (fd len : ℕ) (area : List ℕ) (w : k.World) (r : SendLoop k)
      → Sends k s fd area len 0 w r
      → Delivered fd (take len area) w (if r.0 == len then pos 0 else minus_one, r.2)
  Sends-Delivered fd len area w (n, times, w') (new, e, o, le, q, all) = (
    new,
    o,
    elim (Bool-cases (n == len)) [
      | inl whole ↦ rw whole (inl (refl, e ∙ ap (λ (x : ℕ). take x area) (==→eq n len whole)))
      | inr part ↦ rw part (inr (refl, rw e (take-IsPrefix n len area le)))
    ],
    q,
    λ a. rw (eq→== n len (all a)),
  )

  module _ (fd : ℕ) (head area : List ℕ) where
    send_body-Delivered :
        (w : k.World) (r : SendLoop k)
        → Sends k s fd head head_len 0 w r
        → Ends (Short head area) (Delivered fd (message head area) w) (send_body k fd head area r)
    unfolding send_body
    send_body-Delivered w (n, times, w') (new, e, o, le, q, all) =
        elim (Bool-cases (n == head_len)) [
          | inl whole ↦
              let len = (decode head).bodylen in
              let front : output fd w' ≡ output fd w ++ take head_len head =
                o
                ∙ ap (◌++◌ (output fd w))
                    (e ∙ ap (λ (x : ℕ). take x head) (==→eq n head_len whole)) in
              rw whole (
                Run.bind
                  (Run.mono
                    (send_loop-Sends k s fd area len (times + len + 1) times 0 w' (omega arith)
                      (omega arith))
                    inr (λ r p. p))
                  λ r p. returned (
                    Delivered-after fd (take head_len head) (take len area) w w' _ front q
                      (Sends-Delivered fd len area w' r p)))
          | inr part ↦
              let shown =
                prefix_of_left (take n head) (take head_len head) _
                  (take-IsPrefix n head_len head le) in
              rw part (returned (new, o, inr (refl, rw e shown), q, λ a. ground (arith, all a)))
        ]

    -- A message goes to the stream whole, and the result is 0, or a front part of it goes there, and
    -- the result is -1; nothing else is written. If the system accepts what it is given, it goes
    -- whole. The call ends within its fuel, and reads outside a buffer only if the head is short or
    -- the body that the head announces is not there.
    pub tcp_send_protocol_cmd-Delivered :
        (w : k.World)
        → Ends
            (Short head area)
            (Delivered fd (message head area) w)
            (tcp_send_protocol_cmd k (pos fd) (some head) (some area) w)
    unfolding tcp_send_protocol_cmd
    tcp_send_protocol_cmd-Delivered w =
        Run.bind
          (Run.mono
            (send_loop-Sends k s fd head head_len (retries + head_len + 1) retries 0 w (omega arith)
              (omega arith))
            inl (λ r p. p))
          λ r p. send_body-Delivered w r p

  -- The same for a buffer and a count that is not zero.
  pub tcp_send_noblock-Delivered :
      (fd n : ℕ) (area : List ℕ) (w : k.World)
      → 0 < n
      → Ends
          (length area < n)
          (Delivered fd (take n area) w)
          (tcp_send_noblock k (pos fd) (some area) (pos n) w)
  unfolding tcp_send_noblock
  tcp_send_noblock-Delivered fd n area w h = rw (lt→ltb 0 n h) (
      Run.bind
        (send_loop-Sends k s fd area n (retries + n + 1) retries 0 w (omega arith) (omega arith))
        λ r p. returned (Sends-Delivered fd n area w r p))
