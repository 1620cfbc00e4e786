-- ===== src/Relay/Deliver.antt =====
-- main.c, at a process whose message has come in: from the broker's buffer to every receiver.
use icehydra.Prelude.{
  ◌<◌, ℕ, ◌+◌, ◌-◌, ◌≤◌, ◌≡◌, refl, sym, ap, ◌∙◌, ◌⊎◌, inl, inr, List, ◌++◌, append_assoc, arith,
  length, length-append, length-drop, take, drop, replicate, ℤ, pos, minus_one,
}
use mathlib.Core.Path.{fun_ext, subst}
use icehydra.Run.{Run, ok, Ends, returned}
use icehydra.Run
use icehydra.Kernel.{Kernel}
use icehydra.Kernel.Stream.{IsStream, Delivers}
use icehydra.Wire.{Packet, head_len, round4}
use icehydra.Wire.Padding.{round4-least, broadcast_len-round4}
use icehydra.Socket.RecvCmds.{tcp_recv_protocol_cmd-Received}
use icehydra.Node.{PubSubNode}
use icehydra.Broker.Cast.Shares.{count_id, expected, FailedIn}
use icehydra.Socket.SendCmds.{IsPrefix}
use icehydra.Broker.Loop.Close.{closed_after, after_broadcast-Closes}
use icehydra.Broker.Cast.Frame.{passed_on, Broadcasts, broadcast_cmd-Broadcasts}
use icehydra.Traces.Halts.{trace-stored}
use icehydra.Traces.{trace}
use icehydra.Broker.Loop.{
  Broker, dispatch, receive_from, after_broadcast, clear_head, clear_area, max_cmd_len,
}
use icehydra.Client.Send.{client_message}
use icehydra.Relay.{
  subscriber_message, sent_head, sent_body, stored, passed_on-stored, length-sent_body, waits, fits,
  stored_of, count_id-take, expected-take,
}

module _ (k : Kernel) (s : IsStream k) where
  open s use {pending, output}

  -- Every process got its share and the broker is as it was. Or the send to a process failed that is
  -- named and whose descriptor does not accept all: the first process of its id is closed unless the
  -- id is 0, nothing else of the broker's variables has changed, and every descriptor got a front
  -- part of its share.
  abbrev pub Relayed : Broker → ℕ → List ℕ → (ℕ → List ℕ) → k.World → Broker × k.World → Type 0
  Relayed st num ids all w (st', w') =
      ((st' ≡ st) × ((g : ℕ) → output g w' ≡ output g w ++ all g))
      ⊎ ((r : ℤ) × FailedIn k s st.nodes num ids r
          × (st' ≡ record st { nodes = closed_after r st.nodes })
          × ((g : ℕ) → (new : List ℕ) × (output g w' ≡ output g w ++ new) × IsPrefix new (all g)))

  module _ (num n : ℕ) (ids area : List ℕ) (counted : num ≤ length ids) (room : n ≤ length area)
      (small : n + round4 num < max_cmd_len - head_len) where
    abbrev shares : Broker → ℕ → List ℕ
    shares st g = expected g st.nodes num ids (subscriber_message n area)

    Broadcasts-Relayed :
        (st : Broker) (w : k.World) (r : ℤ × k.World)
        → Broadcasts k s st.nodes num ids (shares st) w r
        → Relayed st num ids (shares st) w (after_broadcast k st r)
    unfolding after_broadcast
    Broadcasts-Relayed st w (ret, w') (inl (z, o)) = rw z (inl (refl, o))
    Broadcasts-Relayed st w (ret, w') (inr (bad, o)) =
        let (closed, quiet) = after_broadcast-Closes k s st ret w' in
        inr (ret, bad, closed, λ g. let (new, e, front) = o g in (new, quiet g ∙ e, front))

    abbrev message_in : Packet
    message_in = stored num n ids area counted room clear_area

    -- Behind the ids in the broker's buffer.
    abbrev behind_ids : List ℕ
    behind_ids =
        replicate (round4 num - num) 0
        ++ (take n area ++ drop (length (sent_body num n ids area counted room)) clear_area)

    tail-regrouped : message_in.tail ≡ take num ids ++ behind_ids
    tail-regrouped =
        let pad = replicate (round4 num - num) 0 in
        let back = drop (length (sent_body num n ids area counted room)) clear_area in
        append_assoc (take num ids ++ pad) (take n area) back
        ∙ append_assoc (take num ids) pad (take n area ++ back)

    -- A process that the broker finds named is named by the client.
    FailedIn-ids :
        (ns : List PubSubNode) (r : ℤ)
        → FailedIn k s ns num message_in.tail r
        → FailedIn k s ns num ids r
    FailedIn-ids ns r (i, node, at, (e, refused, named)) =
        let same =
          ap (count_id node.id num) tail-regrouped
          ∙ count_id-take node.id num ids behind_ids counted in
        (i, node, at, (e, refused, subst (λ (c : ℕ). 0 < c) same named))

    Broadcasts-ids :
        (ns : List PubSubNode) (all : ℕ → List ℕ) (w : k.World) (r : ℤ × k.World)
        → Broadcasts k s ns num message_in.tail all w r
        → Broadcasts k s ns num ids all w r
    Broadcasts-ids ns all w (ret, w') (inl done) = inl done
    Broadcasts-ids ns all w (ret, w') (inr (bad, o)) = inr (FailedIn-ids ns ret bad, o)

    -- The ids that the broker reads are those of the client, and what it passes on is the data.
    expected-shares :
        (st : Broker) (g : ℕ)
        → expected g st.nodes num message_in.tail (passed_on message_in) ≡ shares st g
    expected-shares st g =
        ap (λ x. expected g st.nodes num x (passed_on message_in)) tail-regrouped
        ∙ expected-take g st.nodes num ids behind_ids (passed_on message_in) counted
        ∙ ap (expected g st.nodes num ids) (passed_on-stored num n ids area counted room clear_area)

    dispatch-Relayed :
        (st : Broker) (node : PubSubNode) (w : k.World)
        → Ends ⊥ (Relayed st num ids (shares st) w) (dispatch k st node message_in w)
    unfolding dispatch
    dispatch-Relayed st node w =
        let up = round4-least num in
        let len = broadcast_len-round4 (sent_head num n ids area counted room) in
        let body = length-sent_body num n ids area counted room in
        let space : max_cmd_len - head_len ≤ length message_in.tail = omega (
          arith,
          small,
          body,
          length-append (sent_body num n ids area counted room)
              (drop (length (sent_body num n ids area counted room)) clear_area),
          length-drop (length (sent_body num n ids area counted room)) clear_area,
        ) in
        Run.bind
          (broadcast_cmd-Broadcasts k s st.nodes message_in w (omega (arith, len))
            (omega (arith, small)) (omega (arith, small, space)) (omega (arith, up, small, space)))
          λ r q. returned (
            Broadcasts-Relayed st w r (
              Broadcasts-ids st.nodes (shares st) w r (
                subst (λ all. Broadcasts k s st.nodes num message_in.tail all w r)
                  (fun_ext (expected-shares st)) q)))

    -- Behind the message the buffer is still clear, which ends the text that is printed.
    trace-Relayed : Ends ⊥ (λ out. Unit {0}) (trace message_in.head message_in.tail)
    trace-Relayed =
        trace-stored message_in.head (length (sent_body num n ids area counted room))
          (max_cmd_len - head_len) (sent_body num n ids area counted room)
          (omega (arith, length-sent_body num n ids area counted room))
          (omega (arith, small, length-sent_body num n ids area counted room))

    Relayed-before :
        (st : Broker) (w w1 : k.World)
        → ((g : ℕ) → output g w1 ≡ output g w)
        → (r : Broker × k.World) → Relayed st num ids (shares st) w1 r
        → Relayed st num ids (shares st) w r
    Relayed-before st w w1 quiet (st', w') (inl (e, o)) =
        inl (e, λ g. o g ∙ ap (λ x. x ++ shares st g) (quiet g))
    Relayed-before st w w1 quiet (st', w') (inr (r, bad, closed, o)) = inr (
      r,
      bad,
      closed,
      λ g. let (new, e, front) = o g in (new, e ∙ ap (λ x. x ++ new) (quiet g), front),
    )

    -- A message of a client, whose ids and data are as many as it counts, waits at a process's
    -- descriptor, the system delivers what waits, and the broker's buffer holds more than it: then it
    -- is read, and every process that it names receives the data, once for each time that it is
    -- named, under a head without ids, no other descriptor receives a byte, and the broker's variables stay; or a
    -- process that it names has a descriptor that does not accept all it is given, the first process
    -- of that id is closed unless the id is 0, and every descriptor has received a front part of its
    -- share. The step ends within its fuel and stays within its buffers.
    pub receive_from-Relayed :
        (st : Broker) (i fd : ℕ) (node : PubSubNode) (w : k.World) (rest : List ℕ)
        → node.connfd ≡ pos fd
        → pending fd w ≡ client_message num ids n area ++ rest
        → Delivers k s fd
        → Ends ⊥ (Relayed st num ids (shares st) w) (receive_from k st i node w)
    unfolding receive_from
    receive_from-Relayed st i fd node w rest conn comes delivers =
        let note = waits num n ids area counted room k s fd w rest comes in
        rw conn (
          Run.bind
            (Run.mono (tcp_recv_protocol_cmd-Received k s fd clear_head clear_area w (omega arith))
              (fits num n ids area counted room k s fd w rest comes (omega (arith, small)))
              (λ r p. p))
            λ (ret, head, got, w1) (taken, quiet, full). elim taken [
              | inl t ↦
                  let (at_head, at_area) =
                    stored_of num n ids area counted room k s fd w rest comes ret w1 head got t in
                  rw (t.2, at_head, at_area)
                    (Run.bind trace-Relayed λ out h.
                      Run.mono (dispatch-Relayed st (record node { connfd = pos fd }) w1) (λ x. x)
                        (Relayed-before st w w1 quiet))
              | inr lost ↦
                  let never : pos 0 ≡ minus_one = sym (full delivers note) ∙ lost in
                  absurd (ground arith)
            ])
