-- ===== src/Relay/Answer.antt =====
-- main.c, at a process that has sent a command about the shared memories: it is read and answered.
use icehydra.Prelude.{
  ℕ, ◌-◌, ◌<◌, ◌≡◌, refl, sym, ap, ◌∙◌, List, [], ◌++◌, arith, ◌==◌, if◌then◌else◌, pos,
}
use icehydra.Run.{Run, ok, Ends, returned}
use icehydra.Run
use icehydra.Kernel.{Kernel}
use icehydra.Kernel.Stream.{IsStream, Accepts, Delivers}
use icehydra.Wire.{
  ProtocolCmd, encode, decode, head_len, round4, zero_cmd, set_pure_protocol_head, send_reserve,
}
use icehydra.Wire.Layout.{length-encode, decode-encode, bodylen-encode}
use icehydra.Wire.Head.{fresh_cmd, set_pure_protocol_head-given}
use icehydra.Socket.{over}
use icehydra.Socket.Outcomes.{Wrote, Tells-Wrote, tcp_recv_protocol_cmd-TakenExactly}
use icehydra.Node.{PubSubNode}
use icehydra.Config.Nodes.{IsRead}
use icehydra.Broker.Reserve.Answers.{answer, parser_reserve_cmd-Tells}
use icehydra.Traces.Halts.{trace-stored}
use icehydra.Broker.Loop.{Broker, dispatch, receive_from, clear_head, clear_area, max_cmd_len}
use icehydra.Client.Infos.Answered.{request}

module _ (k : Kernel) (s : IsStream k) where
  open s use {pending, output}

  -- The broker's variables stay, and just this has been written to the descriptor.
  abbrev pub Answered : Broker → ℕ → List ℕ → k.World → Broker × k.World → Type 0
  Answered st fd msg w (st', w') = (st' ≡ st) × Wrote k s fd msg w w'

  dispatch-Answered :
      (st : Broker) (fd cmdid : ℕ) (node : PubSubNode) (tail : List ℕ) (w : k.World)
      → IsRead st.start
      → node.connfd ≡ pos fd
      → Accepts k fd
      → Ends ⊥
          (Answered st fd (answer st.start cmdid) w)
          (dispatch k st node (record { head = fresh_cmd 0 send_reserve cmdid 0; tail = tail }) w)
  unfolding dispatch
  dispatch-Answered st fd cmdid node tail w r conn takes =
      Run.bind
        (parser_reserve_cmd-Tells k s st.start node fd (fresh_cmd 0 send_reserve cmdid 0) w r conn)
        λ (ret, w') told.
          returned (refl, Tells-Wrote k s fd (answer st.start cmdid) w w' ret takes told)

  Answered-before :
      (st : Broker) (fd : ℕ) (msg : List ℕ) (w w1 : k.World)
      → ((g : ℕ) → output g w1 ≡ output g w)
      → (r : Broker × k.World) → Answered st fd msg w1 r
      → Answered st fd msg w r
  Answered-before st fd msg w w1 quiet (st', w') (same, o) =
      (same, λ g. o g ∙ ap (λ x. x ++ (if g == fd then msg else [])) (quiet g))

  -- A command of a client, its number below 256, waits at a process's descriptor, the system delivers
  -- what waits and takes what is sent there, and the start node is as it was read. Then the broker
  -- reads it and writes the whole answer to that descriptor, out of the configuration it has read;
  -- its variables stay, and no other descriptor receives a byte. The step ends within its fuel and
  -- stays within its buffers.
  pub receive_from-Answered :
      (st : Broker) (i fd cmdid : ℕ) (node : PubSubNode) (w : k.World) (rest : List ℕ)
      → IsRead st.start
      → cmdid < 256
      → node.connfd ≡ pos fd
      → pending fd w ≡ request cmdid ++ rest
      → Delivers k s fd
      → Accepts k fd
      → Ends ⊥ (Answered st fd (answer st.start cmdid) w) (receive_from k st i node w)
  unfolding receive_from round4
  receive_from-Answered st i fd cmdid node w rest r small conn comes d takes =
      let head = fresh_cmd 0 send_reserve cmdid 0 in
      let made : set_pure_protocol_head zero_cmd (pos 0) (pos send_reserve) (pos cmdid) ≡ head =
        set_pure_protocol_head-given zero_cmd 0 send_reserve cmdid (omega arith) (omega arith)
          small in
      let at_front : pending fd w ≡ encode head ++ ([] ++ rest) =
        comes ∙ ap (λ (h : ProtocolCmd). encode h ++ rest) made in
      rw conn (
        Run.bind
          (tcp_recv_protocol_cmd-TakenExactly k s fd clear_head clear_area (encode head) [] rest w
            (omega arith) (length-encode head) (sym (bodylen-encode head)) (omega arith) at_front d)
          λ (ret, got, area, w1) (z, at_head, at_area, left, quiet).
            let back : decode (over (encode head) clear_head) ≡ head = decode-encode head _ in
            rw (z, at_head, at_area, back)
              (Run.bind
                (trace-stored head 0 (max_cmd_len - head_len) [] (omega arith) (omega arith))
                λ out h.
                  Run.mono
                    (dispatch-Answered st fd cmdid (record node { connfd = pos fd }) clear_area w1 r
                      refl takes)
                    (λ x. x) (Answered-before st fd (answer st.start cmdid) w w1 quiet)))
