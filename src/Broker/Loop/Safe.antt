-- ===== src/Broker/Loop/Safe.antt =====
-- main.c: what can go wrong when the loop serves a process.
use icehydra.Prelude.{
  ℕ, ◌-◌, ◌≤◌, ◌<◌, ◌≡◌, refl, sym, ap, ◌∙◌, inl, inr, List, ◌++◌, arith, ltb, ltb→lt, ltb→le, ◌==◌,
  Bool-cases, length, length-append, length-drop, length-replicate, drop, pos,
}
use icehydra.Run.{Run, ok, fault, Ends, returned, faulted, ◌>>=◌}
use icehydra.Run
use icehydra.Kernel.{Kernel}
use icehydra.Kernel.Stream.{IsStream}
use icehydra.Wire.{
  ProtocolCmd, Packet, decode, byte_at, head_len, round4, send_reserve, send_serial,
}
use icehydra.Wire.Layout.{decode-append}
use icehydra.Wire.Padding.{round4-least}
use icehydra.Socket.{over}
use icehydra.Socket.RecvCmds.{Oversized, tcp_recv_protocol_cmd-Received}
use icehydra.Node.{PubSubNode}
use icehydra.Traces.Texts.{ended-IsText}
use icehydra.Traces.{trace}
use icehydra.Traces.Halts.{trace-Prints, trace-Halts}
use icehydra.Broker.Cast.Returns.{broadcast_cmd-Returns}
use icehydra.Broker.Reserve.Answers.{parser_reserve_cmd-Answered}
use icehydra.Config.Nodes.{IsRead}
use icehydra.Broker.Loop.{Broker, dispatch, receive_from, clear_head, clear_area, max_cmd_len}
use icehydra.Broker.Loop.Config.{dispatch-KeepsConfig}

-- What can be read from a descriptor are bytes.
abbrev pub HoldsBytes : (k : Kernel) → IsStream k → Type 0
HoldsBytes k s = (fd i : ℕ) (w : k.World) → byte_at (s.pending fd w) i < 256

module _ (k : Kernel) (s : IsStream k) where
  -- What comes at the descriptor begins with a head that announces as many bytes as the broker's
  -- buffer has behind it, or more.
  abbrev pub Overfull : ℕ → k.World → Type 0
  Overfull fd w =
      (h rest : List ℕ) × (length h ≡ head_len)
      × (s.pending fd w ≡ h ++ rest)
      × (max_cmd_len - head_len ≤ (decode h).bodylen)

  dispatch-Returns :
      (st : Broker) (fd : ℕ) (node : PubSubNode) (p : Packet) (w : k.World)
      → IsRead st.start
      → node.connfd ≡ pos fd
      → p.head.bodylen ≤ length p.tail
      → p.head.bodylen < 65536
      → p.head.broadcast_num < 256
      → 520 ≤ length p.tail
      → Ends ⊥ (λ r. Unit {0}) (dispatch k st node p w)
  unfolding dispatch
  dispatch-Returns st fd node p w r conn room small few space =
      elim (Bool-cases (p.head.cmd_send_type == send_reserve)) [
        | inl reserve ↦ rw reserve (
            Run.bind (parser_reserve_cmd-Answered k s st.start node fd p.head w r conn)
              λ x q. returned tt)
        | inr other ↦ elim (Bool-cases (p.head.cmd_send_type == send_serial)) [
          | inl serial ↦ rw (other, serial) (returned tt)
          | inr parallel ↦
              rw (other, parallel)
                (Run.bind (broadcast_cmd-Returns k s st.nodes p w room small few space)
                  λ x q. returned tt)
        ]
      ]

  -- What stands in the buffer after a message was taken that leaves room behind it.
  module _ (st : Broker) (fd : ℕ) (node : PubSubNode) (h body : List ℕ) (w : k.World)
      (r : IsRead st.start) (conn : node.connfd ≡ pos fd) (size : length body ≡ (decode h).bodylen)
      (fits : (decode h).bodylen < max_cmd_len - head_len)
      (few : (decode h).broadcast_num < 256) where
    length-over : length (over body clear_area) ≡ max_cmd_len - head_len
    length-over = omega (
      arith,
      size,
      fits,
      length-append body (drop (length body) clear_area),
      length-drop (length body) clear_area,
      length-replicate {A = ℕ} (max_cmd_len - head_len) 0,
    )

    print_and_dispatch-Returns :
        Ends ⊥
          (λ x. Unit {0})
          (do
            printed ← trace (decode h) (over body clear_area)
            dispatch k st node (record { head = decode h; tail = over body clear_area }) w)
    print_and_dispatch-Returns =
        let up = round4-least (decode h).broadcast_num in
        Run.bind
          (Run.mono (trace-Prints (decode h) (over body clear_area))
            (ended-IsText (round4 (decode h).broadcast_num) (max_cmd_len - head_len) body
              (omega (arith, size, fits)) (omega (arith, few, up)))
            (λ out p. p))
          λ out p.
            dispatch-Returns st fd node (record { head = decode h; tail = over body clear_area }) w
              r conn (omega (arith, length-over, fits)) (omega (arith, fits)) few
              (omega (arith, length-over))

  decoded-below :
      HoldsBytes k s → (fd : ℕ) (w : k.World) → (decode (s.pending fd w)).broadcast_num < 256
  unfolding decode
  decoded-below bytes fd w = bytes fd 6 w

  pub receive_from-Returns :
      (st : Broker) (i fd : ℕ) (node : PubSubNode) (w : k.World)
      → HoldsBytes k s
      → IsRead st.start
      → node.connfd ≡ pos fd
      → Ends (Overfull fd w) (λ r. Unit {0}) (receive_from k st i node w)
  unfolding receive_from
  receive_from-Returns st i fd node w bytes r conn = rw conn (
      Run.bind
        (Run.mono (tcp_recv_protocol_cmd-Received k s fd clear_head clear_area w (omega arith))
          too_long (λ x p. p))
        λ (ret, head, area, w1) (taken, quiet, full). elim taken [
          | inr lost ↦ rw lost (returned tt)
          | inl (h, body, z, long, size, e, at_head, at_area) ↦
              let back : decode (over h clear_head) ≡ decode h =
                decode-append h (drop (length h) clear_head) long in
              let few = few_ids h (body ++ s.pending fd w1) long e in
              rw (z, at_head, at_area, back)
                (elim (Bool-cases (ltb (decode h).bodylen (max_cmd_len - head_len))) [
                  | inl fits ↦
                      Run.mono
                        (print_and_dispatch-Returns st fd (record node { connfd = pos fd }) h body
                          w1 r refl size (ltb→lt _ _ fits) few)
                        absurd (λ x q. q)
                  | inr more ↦
                      Run.mono
                        (Run.bind (trace-Halts (decode h) (over body clear_area)) λ out q.
                          dispatch-KeepsConfig k s st (record node { connfd = pos fd })
                            (record { head = decode h; tail = over body clear_area }) w1)
                        (λ x. (h, body ++ s.pending fd w1, long, e, ltb→le _ _ more)) (λ x q. tt)
                ])
        ])
    where
      too_long : Oversized k s fd (length clear_area) w → Overfull fd w
      too_long (h, rest, long, e, large) = (h, rest, long, e, omega (arith, large))

      few_ids :
          (h rest : List ℕ)
          → length h ≡ head_len
          → s.pending fd w ≡ h ++ rest
          → (decode h).broadcast_num < 256
      few_ids h rest long e =
          let same : (decode (s.pending fd w)).broadcast_num ≡ (decode h).broadcast_num =
            ap (λ (x : List ℕ). (decode x).broadcast_num) e
            ∙ ap (λ (c : ProtocolCmd). c.broadcast_num) (decode-append h rest long) in
          omega (arith, sym same, decoded-below bytes fd w)
