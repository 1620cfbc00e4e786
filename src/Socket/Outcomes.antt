-- ===== src/Socket/Outcomes.antt =====
-- What the callers of the two message functions can rely on.
use icehydra.Prelude.{
  ℕ, ◌≤◌, ◌<◌, ◌≡◌, ◌≢◌, sym, ap, ◌∙◌, ◌⊎◌, inl, inr, Bool-cases, some, List, [], ◌++◌, append-nil,
  append-injective, arith, ◌==◌, ==→eq, if◌then◌else◌, length, take, ℤ, pos, minus_one,
}
use icehydra.Run.{Run, Ends, returned}
use icehydra.Run
use icehydra.Kernel.{Kernel}
use icehydra.Kernel.Stream.{IsStream, Accepts, Delivers}
use icehydra.Wire.{decode, head_len}
use icehydra.Socket.{RecvCmd, over, tcp_send_protocol_cmd, tcp_recv_protocol_cmd, tcp_send_noblock}
use icehydra.Socket.SendCmds.{
  message, IsPrefix, Delivered, Short, tcp_send_protocol_cmd-Delivered, tcp_send_noblock-Delivered,
}
use icehydra.Socket.RecvCmds.{Oversized, Taken, Received, tcp_recv_protocol_cmd-Received}

module _ (k : Kernel) (s : IsStream k) where
  open s use {pending, output}

  -- All streams after `new` was written to `fd`.
  abbrev pub Wrote : ℕ → List ℕ → k.World → k.World → Type 0
  Wrote fd new w w' = (g : ℕ) → output g w' ≡ output g w ++ (if g == fd then new else [])

  Wrote-of :
      (fd : ℕ) (new : List ℕ) (w w' : k.World)
      → output fd w' ≡ output fd w ++ new
      → ((g : ℕ) → g ≢ fd → output g w' ≡ output g w)
      → Wrote fd new w w'
  Wrote-of fd new w w' o q g = elim (Bool-cases (g == fd)) [
    | inl hit ↦ rw hit (rw (← ==→eq g fd hit) at o)
    | inr miss ↦ rw miss (q g (λ x. ground arith) ∙ sym (append-nil (output g w)))
  ]

  -- The result 0 for all of `msg`, -1 for a front part.
  abbrev pub SentSome : ℕ → List ℕ → k.World → ℤ × k.World → Type 0
  SentSome fd msg w (ret, w') =
      (new : List ℕ) × Wrote fd new w w'
      × (((ret ≡ pos 0) × (new ≡ msg)) ⊎ ((ret ≡ minus_one) × IsPrefix new msg))

  abbrev pub SentAll : ℕ → List ℕ → k.World → ℤ × k.World → Type 0
  SentAll fd msg w (ret, w') = (ret ≡ pos 0) × Wrote fd msg w w'

  Delivered-SentSome :
      (fd : ℕ) (msg : List ℕ) (w : k.World) (r : ℤ × k.World)
      → Delivered k s fd msg w r
      → SentSome fd msg w r
  Delivered-SentSome fd msg w (ret, w') (new, o, done, q, all) =
      (new, Wrote-of fd new w w' o q, done)

  Delivered-SentAll :
      (fd : ℕ) (msg : List ℕ) (w : k.World) (r : ℤ × k.World)
      → Accepts k fd
      → Delivered k s fd msg w r
      → SentAll fd msg w r
  Delivered-SentAll fd msg w (ret, w') a (new, o, inl (z, e), q, all) =
      (z, Wrote-of fd msg w w' (o ∙ ap (◌++◌ (output fd w)) e) q)
  Delivered-SentAll fd msg w (ret, w') a (new, o, inr (z, e), q, all) =
      let never : pos 0 ≡ minus_one = sym (all a) ∙ z in absurd (ground arith)

  -- The same, and with result 0 if the system takes what is sent.
  abbrev pub Tells : ℕ → List ℕ → k.World → ℤ × k.World → Type 0
  Tells fd msg w r = SentSome fd msg w r × (Accepts k fd → r.0 ≡ pos 0)

  Delivered-Tells :
      (fd : ℕ) (msg : List ℕ) (w : k.World) (r : ℤ × k.World)
      → Delivered k s fd msg w r
      → Tells fd msg w r
  Delivered-Tells fd msg w (ret, w') (new, o, done, q, all) =
      ((new, Wrote-of fd new w w' o q, done), all)

  -- Who is told all that it is to be told has it.
  pub Tells-Wrote :
      (fd : ℕ) (msg : List ℕ) (w w' : k.World) (ret : ℤ)
      → Accepts k fd
      → Tells fd msg w (ret, w')
      → Wrote fd msg w w'
  Tells-Wrote fd msg w w' ret takes ((new, o, inl (z, e)), all) =
      λ g. o g ∙ ap (λ x. output g w ++ (if g == fd then x else [])) e
  Tells-Wrote fd msg w w' ret takes ((new, o, inr (z, e)), all) =
      let never : pos 0 ≡ minus_one = sym (all takes) ∙ z in absurd (ground arith)

  module _ (fd : ℕ) (head area : List ℕ) (w : k.World) where
    pub tcp_send_protocol_cmd-Tells :
        Ends
          (Short head area)
          (Tells fd (message head area) w)
          (tcp_send_protocol_cmd k (pos fd) (some head) (some area) w)
    tcp_send_protocol_cmd-Tells =
        Run.mono (tcp_send_protocol_cmd-Delivered k s fd head area w) (λ x. x)
          (Delivered-Tells fd (message head area) w)

    -- tcp_send_protocol_cmd ends within its fuel. The message goes to its stream whole and the result
    -- is 0, or a front part of it goes there and the result is -1; no other stream changes. It reads
    -- outside a buffer only if the head is short or the announced body is not there.
    pub tcp_send_protocol_cmd-SentSome :
        Ends
          (Short head area)
          (SentSome fd (message head area) w)
          (tcp_send_protocol_cmd k (pos fd) (some head) (some area) w)
    tcp_send_protocol_cmd-SentSome =
        Run.mono (tcp_send_protocol_cmd-Delivered k s fd head area w) (λ x. x)
          (Delivered-SentSome fd (message head area) w)

    -- If the system always takes some of what is sent to the descriptor, tcp_send_protocol_cmd sends
    -- the whole message, within its fuel, with result 0.
    pub tcp_send_protocol_cmd-SentAll :
        Accepts k fd
        → Ends
            (Short head area)
            (SentAll fd (message head area) w)
            (tcp_send_protocol_cmd k (pos fd) (some head) (some area) w)
    tcp_send_protocol_cmd-SentAll a =
        Run.mono (tcp_send_protocol_cmd-Delivered k s fd head area w) (λ x. x)
          λ r. Delivered-SentAll fd (message head area) w r a

  -- tcp_send_noblock, with a count above 0, ends within its fuel. That many bytes go to the stream
  -- and the result is 0, or fewer of them, from the front, and the result is -1; no other stream
  -- changes. It reads outside the buffer only if the buffer is shorter than the count.
  pub tcp_send_noblock-SentSome :
      (fd n : ℕ) (area : List ℕ) (w : k.World)
      → 0 < n
      → Ends
          (length area < n)
          (SentSome fd (take n area) w)
          (tcp_send_noblock k (pos fd) (some area) (pos n) w)
  tcp_send_noblock-SentSome fd n area w h =
      Run.mono (tcp_send_noblock-Delivered k s fd n area w h) (λ x. x)
        (Delivered-SentSome fd (take n area) w)

  -- A message was taken, or the result is -1; no stream was written to.
  abbrev pub TakenOrNot : ℕ → List ℕ → List ℕ → k.World → RecvCmd k → Type 0
  TakenOrNot fd head area w r =
      (Taken k s fd head area w r ⊎ (r.0 ≡ minus_one)) × ((g : ℕ) → output g r.3 ≡ output g w)

  -- This message was taken, what comes behind it is still to be read, and nothing was written.
  abbrev pub TakenExactly :
      ℕ → List ℕ → List ℕ → List ℕ → List ℕ → List ℕ → k.World → RecvCmd k → Type 0
  TakenExactly fd head area h body rest w (ret, head', area', w') =
      (ret ≡ pos 0)
      × (head' ≡ some (over h head))
      × (area' ≡ some (over body area))
      × (pending fd w' ≡ rest)
      × ((g : ℕ) → output g w' ≡ output g w)

  -- tcp_recv_protocol_cmd, with room for a head, ends within its fuel. Either exactly one message
  -- is taken off the stream, its head stored at the head and its body at the area, and the result
  -- is 0, or the result is -1. It writes outside a buffer only for a message that announces more
  -- than the area holds.
  pub tcp_recv_protocol_cmd-TakenOrNot :
      (fd : ℕ) (head area : List ℕ) (w : k.World)
      → head_len ≤ length head
      → Ends
          (Oversized k s fd (length area) w)
          (TakenOrNot fd head area w)
          (tcp_recv_protocol_cmd k (pos fd) (some head) (some area) w)
  tcp_recv_protocol_cmd-TakenOrNot fd head area w h =
      Run.mono (tcp_recv_protocol_cmd-Received k s fd head area w h) (λ x. x)
        λ r (taken, quiet, full). (taken, quiet)

  -- If a whole message waits that fits the area, and the system delivers what waits, then
  -- tcp_recv_protocol_cmd takes that message off the stream with result 0, and leaves what comes
  -- behind it; nothing is written to a stream. It ends within its fuel and stays within its buffers.
  pub tcp_recv_protocol_cmd-TakenExactly :
      (fd : ℕ) (head area h body rest : List ℕ) (w : k.World)
      → head_len ≤ length head
      → length h ≡ head_len
      → length body ≡ (decode h).bodylen
      → length body ≤ length area
      → pending fd w ≡ h ++ (body ++ rest)
      → Delivers k s fd
      → Ends ⊥
          (TakenExactly fd head area h body rest w)
          (tcp_recv_protocol_cmd k (pos fd) (some head) (some area) w)
  tcp_recv_protocol_cmd-TakenExactly fd head area h body rest w room n m small comes d =
      Run.mono (tcp_recv_protocol_cmd-Received k s fd head area w room) no_fault exact
    where
      no_fault : Oversized k s fd (length area) w → ⊥
      no_fault (h', more, long, e, large) =
          let (same, r) =
            append-injective h' h {us = more} {vs = body ++ rest} (long ∙ sym n) (sym e ∙ comes) in
          let len : (decode h').bodylen ≡ (decode h).bodylen =
            ap (λ (x : List ℕ). (decode x).bodylen) same in
          omega (arith, len)

      exact :
          (r : RecvCmd k)
          → Received k s fd head area w r
          → TakenExactly fd head area h body rest w r
      exact (ret, head', area', w') (inr lost, quiet, full) =
          let got = full d (h, body, rest, n, m, comes) in
          let never : pos 0 ≡ minus_one = sym got ∙ lost in absurd (ground arith)
      exact (ret, head', area', w')
            (inl (h', body', z, long, size, e, at_head, at_area), quiet, full) =
          let (same, tail) =
            append-injective h' h {us = body' ++ pending fd w'} {vs = body ++ rest} (long ∙ sym n)
              (sym e ∙ comes) in
          let len : length body' ≡ length body =
            size ∙ ap (λ (x : List ℕ). (decode x).bodylen) same ∙ sym m in
          let (body_same, left) =
            append-injective body' body {us = pending fd w'} {vs = rest} len tail in
          (
            z,
            at_head ∙ ap (λ (x : List ℕ). some (over x head)) same,
            at_area ∙ ap (λ (x : List ℕ). some (over x area)) body_same,
            left,
            quiet,
          )
