-- ===== src/Tests/Asked.antt =====
-- ih_get_shm_infos against a broker that answers each command that it gets.
use icehydra.Prelude.{
  ℕ, ◌<◌, ◌≡◌, refl, sym, ap, ◌∙◌, some, none, List, [], ◌∷◌, ◌++◌, append-nil, arith, ◌==◌, eq→==,
  if◌then◌else◌, length, replicate, ℤ, pos,
}
use icehydra.Run.{Run, ok, fault, out_of_fuel, Ends}
use icehydra.Kernel.{Kernel, Sent, sent}
use icehydra.Kernel.Stream.{IsStream}
use icehydra.Wire.{ProtocolCmd, encode, decode, zero_cmd, head_len, send_reserve}
use icehydra.Wire.Head.{fresh_cmd, set_pure_protocol_head-given}
use icehydra.Wire.Layout.{decode-encode, length-encode}
use icehydra.Socket.{send_loop, send_body, after_send, tcp_send_protocol_cmd}
use icehydra.Node.{ShmNode, PubSubNode, chunk_pub, encode_shms}
use icehydra.Broker.Loop.{begin, receive_from}
use icehydra.Relay.Answer.{Answered, receive_from-Answered}
use icehydra.Broker.Reserve.Answers.{answer}
use icehydra.Client.Infos.{wbuf_area}
use icehydra.Client.Infos.Answered.{request, IsServed, stream_of}
use icehydra.Node.Entries.{entries_in, entries_in-encode_shms}
use icehydra.Tests.Sim.{Sockets, sim, sim_stream, sim-Delivers, sim-Accepts}

abbrev entry : List ℕ → ShmNode
entry name = record { shm_name = name; shm_id = 4; shm_size = pos 128 }

abbrev start : PubSubNode
start = record {
  name = 112 ∷ [];
  chunk_type = chunk_pub;
  cpu_bind = pos 0;
  id = pos 0;
  connfd = pos 0;
  shm_nodes = some (entry (97 ∷ []) ∷ (entry (98 ∷ []) ∷ []));
  shm_node_num = 2;
  pub_links_num = pos 0;
}

-- What the broker says to the bytes of one call: a head alone is a command.
abbrev reply : List ℕ → List ℕ
reply bs = if length bs == head_len then answer start (decode bs).cmdid else []

abbrev asked : Kernel
asked = record sim {
  send = λ fd bs w. (
    sent (length bs),
    record w {
      written = λ g. if g == fd then w.written g ++ bs else w.written g;
      input = λ g. if g == fd then w.input g ++ reply bs else w.input g;
    },
  );
}

-- Less the answers, it is the system that stores what is sent.
plain :
    (fd : ℕ) (bs : List ℕ) (w w' : Sockets) (r : Sent)
    → asked.send fd bs w ≡ (r, w')
    → sim.send fd bs w ≡ (r, record w' { input = w.input })
plain fd bs w w' r e = ap (λ (p : Sent × Sockets). (p.0, record p.1 { input = w.input })) e

abbrev asked_stream : IsStream asked
asked_stream = record {
  pending = λ fd w. w.input fd;
  output = λ fd w. w.written fd;
  recv_length = sim_stream.recv_length;
  recv_pending = sim_stream.recv_pending;
  recv_failed_pending = sim_stream.recv_failed_pending;
  recv_output = sim_stream.recv_output;
  send_length = λ fd n bs w w' e. sim_stream.send_length fd n bs w _ (plain fd bs w w' _ e);
  send_output = λ fd n bs w w' e. sim_stream.send_output fd n bs w _ (plain fd bs w w' _ e);
  send_failed_output =
      λ fd bs w w' c e. sim_stream.send_failed_output fd bs w _ c (plain fd bs w w' _ e);
  send_output_ne =
      λ fd g bs w w' r ne e. sim_stream.send_output_ne fd g bs w _ r ne (plain fd bs w w' r e);
  close_output = λ fd g w. refl;
}

-- The head of a command goes out in one call.
abbrev after_command : ℕ → ℕ → Sockets → Sockets
after_command fd cmdid w =
    let bs = encode (fresh_cmd 0 send_reserve cmdid 0) in
    record w {
      written = λ g. if g == fd then w.written g ++ bs else w.written g;
      input = λ g. if g == fd then w.input g ++ reply bs else w.input g;
    }

command_sent :
    (fd cmdid : ℕ) (w : Sockets)
    → tcp_send_protocol_cmd asked
        (pos fd)
        (some (encode (fresh_cmd 0 send_reserve cmdid 0)))
        (some wbuf_area)
        w
      ≡ ok (pos 0, after_command fd cmdid w)
unfolding tcp_send_protocol_cmd send_loop send_body after_send encode decode
command_sent fd cmdid w = refl

abbrev world_of : Sockets → Run (ℤ × Sockets) → Sockets
world_of w (ok r) = r.1
world_of w fault = w
world_of w out_of_fuel = w

-- Sending a command leaves its answer.
sent_command :
    (fd cmdid : ℕ) (w w' : Sockets)
    → cmdid < 256
    → tcp_send_protocol_cmd asked (pos fd) (some (request cmdid)) (some wbuf_area) w
      ≡ ok (pos 0, w')
    → w'.input fd ≡ w.input fd ++ answer start cmdid
sent_command fd cmdid w w' small e =
    let made =
      set_pure_protocol_head-given zero_cmd 0 send_reserve cmdid (omega arith) (omega arith)
        small in
    let sent_first : Run (ℤ × Sockets) = ok (pos 0, after_command fd cmdid w) in
    let whole : sent_first ≡ ok (pos 0, w') =
      sym (command_sent fd cmdid w)
      ∙ ap
          (λ (h : ProtocolCmd).
            tcp_send_protocol_cmd asked (pos fd) (some (encode h)) (some wbuf_area) w)
          (sym made)
      ∙ e in
    let same : after_command fd cmdid w ≡ w' = ap (world_of w) whole in
    let head = fresh_cmd 0 send_reserve cmdid 0 in
    let back : decode (encode head) ≡ head =
      ap decode (sym (append-nil (encode head))) ∙ decode-encode head [] in
    ap (λ (x : Sockets). x.input fd) (sym same)
    ∙ rw (eq→== fd fd refl, length-encode head, back) refl

abbrev asked_served : (fd : ℕ) → IsServed asked asked_stream fd start
asked_served fd = record {
  served = λ cmdid w w' small e. sent_command fd cmdid w w' small e;
  noticed = λ w some_wait. (fd ∷ [], w, refl, rw (eq→== fd fd refl) refl, refl);
}

-- A message of three bytes has come in before.
abbrev before : Sockets
before = record {
  input = λ fd. stream_of ((fresh_cmd 3 1 188 0, 104 ∷ (105 ∷ (0 ∷ []))) ∷ []) [];
  written = λ fd. [];
  name = λ fd. none;
  peer = λ fd. none;
}

-- At the broker, a command waits at descriptor 4.
abbrev client_at : PubSubNode
client_at = record start { connfd = pos 4; id = pos 10 }

abbrev with_command : Sockets
with_command = record before { input = λ fd. request 3 ++ [] }

receive_from-Answered_example :
    Ends ⊥
      (Answered sim sim_stream (begin start (client_at ∷ []) 3) 4 (answer start 3) with_command)
      (receive_from sim (begin start (client_at ∷ []) 3) 0 client_at with_command)
receive_from-Answered_example =
    receive_from-Answered sim sim_stream (begin start (client_at ∷ []) 3) 0 4 3 client_at
      with_command []
      (refl, omega arith, (omega arith, omega arith, (omega arith, (omega arith, tt))))
      (omega arith) refl refl (sim-Delivers 4) (sim-Accepts 4)

entries_in-encode_shms_example :
    entries_in (encode_shms (entry (97 ∷ []) ∷ (entry (98 ∷ []) ∷ [])) ++ replicate 20 0)
    ≡ entry (97 ∷ []) ∷ (entry (98 ∷ []) ∷ []) ++ entries_in (replicate 20 0)
entries_in-encode_shms_example =
    entries_in-encode_shms (entry (97 ∷ []) ∷ (entry (98 ∷ []) ∷ [])) (replicate 20 0) (
      (omega arith, (omega arith, tt), omega arith, omega arith),
      ((omega arith, (omega arith, tt), omega arith, omega arith), tt),
    )
