-- ===== src/Socket/RecvCmds.antt =====
-- tcp_recv_protocol_cmd: one message is taken off the stream, its head and then the body that the
-- head announces.
use icehydra.Prelude.{
  ℕ, ◌+◌, ◌≤◌, ◌<◌, ◌≡◌, refl, sym, ap, ◌∙◌, ◌⊎◌, inl, inr, List, [], ◌++◌, append-injective, arith,
  some, ◌==◌, ==→eq, Bool-cases, length, drop, length-append, pos, minus_one,
}
use icehydra.Run.{Run, ok, Ends, returned}
use icehydra.Run
use icehydra.Kernel.{Kernel}
use icehydra.Kernel.Stream.{IsStream, Delivers}
use icehydra.Wire.{ProtocolCmd, decode, head_len}
use icehydra.Wire.Layout.{decode-append}
use icehydra.Socket.{RecvLoop, RecvCmd, over, retries, recv_body, tcp_recv_protocol_cmd}
use icehydra.Socket.Recv.{Reads, recv_loop-Reads}

module _ (k : Kernel) (s : IsStream k) where
  open s use {pending, output}

  -- The stream begins with a message that announces more than `room` bytes of body.
  abbrev pub Oversized : ℕ → ℕ → k.World → Type 0
  Oversized fd room w =
      (h rest : List ℕ) × (length h ≡ head_len)
      × (pending fd w ≡ h ++ rest)
      × (room < (decode h).bodylen)

  -- A message was taken off the stream and stored: `h` at the head, `body` at the area.
  abbrev pub Taken : ℕ → List ℕ → List ℕ → k.World → RecvCmd k → Type 0
  Taken fd head area w (ret, head', area', w') =
      (h : List ℕ) × (body : List ℕ) × (ret ≡ pos 0)
      × (length h ≡ head_len)
      × (length body ≡ (decode h).bodylen)
      × (pending fd w ≡ h ++ (body ++ pending fd w'))
      × (head' ≡ some (over h head))
      × (area' ≡ some (over body area))

  -- A whole message is on the stream.
  abbrev pub Waiting : ℕ → k.World → Type 0
  Waiting fd w =
      (h : List ℕ) × (body : List ℕ) × (rest : List ℕ) × (length h ≡ head_len)
      × (length body ≡ (decode h).bodylen)
      × (pending fd w ≡ h ++ (body ++ rest))

  -- A message is taken or the result is -1; nothing is written to a stream; a message that waits is
  -- taken if the system delivers.
  abbrev pub Received : ℕ → List ℕ → List ℕ → k.World → RecvCmd k → Type 0
  Received fd head area w r =
      (Taken fd head area w r ⊎ (r.0 ≡ minus_one))
      × ((g : ℕ) → output g r.3 ≡ output g w)
      × (Delivers k s fd → Waiting fd w → r.0 ≡ pos 0)

  module _ (fd : ℕ) (head area : List ℕ) where
    -- What is left behind the head of a waiting message holds its body.
    rest-of_Waiting :
        (w w' : k.World) (h : List ℕ)
        → length h ≡ head_len
        → pending fd w ≡ h ++ pending fd w'
        → Waiting fd w
        → (decode h).bodylen ≤ length (pending fd w')
    rest-of_Waiting w w' h n front (h', body, rest, n', m, e) =
        let (a, b) = append-injective h h' {vs = body ++ rest} (n ∙ sym n') (sym front ∙ e) in
        let size : (decode h).bodylen ≡ length body =
          ap (λ (x : List ℕ). (decode x).bodylen) a ∙ sym m in
        omega (arith, size, ap length b, length-append body rest)

    recv_body-Received :
        (w : k.World) (r : RecvLoop k)
        → Reads k s fd head_len [] w r
        → Ends (Oversized fd (length area) w) (Received fd head area w) (recv_body k fd head area r)
    unfolding recv_body
    recv_body-Received w (h, times, w') (new, e, p, le, quiet, all) =
        elim (Bool-cases (length h == head_len)) [
          | inl whole ↦
              let n = ==→eq (length h) head_len whole in
              let front : pending fd w ≡ h ++ pending fd w' = rw e p in
              let same =
                ap (λ (c : ProtocolCmd). c.bodylen) (decode-append h (drop (length h) head) n) in
              rw (whole, same)
                (Run.bind
                  (Run.mono
                    (recv_loop-Reads k s fd (length area) (decode h).bodylen
                      (times + (decode h).bodylen + 1) times [] w' (omega arith) (omega arith))
                    (λ x. (h, pending fd w', n, front, x)) (λ r q. q))
                  λ (body, t, w'') (new', e', p', le', quiet', all').
                    let back : pending fd w' ≡ body ++ pending fd w'' = rw e' p' in
                    returned (elim (Bool-cases (length body == (decode h).bodylen)) [
                      | inl full ↦ rw full (
                        inl (
                          h,
                          body,
                          refl,
                          n,
                          ==→eq (length body) (decode h).bodylen full,
                          front ∙ ap (◌++◌ h) back,
                          refl,
                          refl,
                        ),
                        λ g. quiet' g ∙ quiet g,
                        λ d x. refl,
                      )
                      | inr part ↦ rw part (
                        inr refl,
                        λ g. quiet' g ∙ quiet g,
                        λ d x.
                            let there = rest-of_Waiting w w' h n front x in
                            ground (arith, all' d (omega (arith, there))),
                      )
                    ]))
          | inr part ↦ rw part (
              returned (
                inr refl,
                quiet,
                λ d (h', body, rest, n, m, q).
                    ground
                      (arith, all d (omega (arith, ap length q, length-append h' (body ++ rest)))),
              ))
        ]

    -- Either exactly one message is taken off the stream, its head stored at the head and its body
    -- at the area, and the result is 0, or the result is -1. A message that waits whole is taken if
    -- the system delivers. The call ends within its fuel, and writes outside a buffer only for a
    -- message that announces more than the area holds.
    pub tcp_recv_protocol_cmd-Received :
        (w : k.World)
        → head_len ≤ length head
        → Ends
            (Oversized fd (length area) w)
            (Received fd head area w)
            (tcp_recv_protocol_cmd k (pos fd) (some head) (some area) w)
    unfolding tcp_recv_protocol_cmd
    tcp_recv_protocol_cmd-Received w room =
        Run.bind
          (Run.mono
            (recv_loop-Reads k s fd (length head) head_len (retries + head_len + 1) retries [] w
              (omega arith) (omega arith))
            (λ x. absurd (omega arith)) (λ r p. p))
          λ r p. recv_body-Received w r p
