-- ===== src/Tests/Journeys.antt =====
-- A message from a client through the broker to a process, and what ih_recv_data gives.
use icehydra.Prelude.{
  ℕ, zero, suc, ◌≡◌, refl, inr, ◌∙◌, sym, true, none, List, [], ◌∷◌, ◌++◌, append-nil, arith, ◌==◌,
  eq→==, if◌then◌else◌, length, take, drop, drop-of_length, replicate, IsText, pos,
}
use icehydra.Run.{Ends}
use icehydra.Kernel.{Kernel, ready}
use icehydra.Kernel.Stream.{IsStream}
use icehydra.Wire.{round4, encode}
use icehydra.Wire.Head.{fresh_cmd}
use icehydra.Socket.{over}
use icehydra.Node.{PubSubNode, chunk_sub}
use icehydra.Broker.Loop.{Broker, begin, again, watch, fd_setsize, all_below}
use icehydra.Broker.Loop.Serve.{OthersQuiet, watched, select_args}
use icehydra.Client.{ih_recv_data}
use icehydra.Client.Recv.{Got, ih_recv_data-Got}
use icehydra.Relay.Times.{times}
use icehydra.Relay.Journey.{Carries, relay, relay-delivered}
use icehydra.Tests.Sim.{Sockets, sim, sim_stream, sim-Delivers, sim-Accepts}

abbrev idle : Sockets
idle = record { input = λ fd. []; written = λ fd. []; name = λ fd. none; peer = λ fd. none }

abbrev holding : ℕ → List ℕ → Sockets
holding fd bs = record idle { input = λ g. if g == fd then bs else [] }

-- The same system, where descriptor 4 is what select reports.
abbrev one_ready : Kernel
one_ready = record sim { select = λ nfds fds w. (ready (4 ∷ []), w) }

abbrev one_stream : IsStream one_ready
one_stream = record {
  pending = sim_stream.pending;
  output = sim_stream.output;
  recv_length = sim_stream.recv_length;
  recv_pending = sim_stream.recv_pending;
  recv_failed_pending = sim_stream.recv_failed_pending;
  recv_output = sim_stream.recv_output;
  send_length = sim_stream.send_length;
  send_output = sim_stream.send_output;
  send_failed_output = sim_stream.send_failed_output;
  send_output_ne = sim_stream.send_output_ne;
  close_output = λ fd g w. refl;
}

-- The bytes written since, and no more, have come in.
arrive :
    (out in_fd : ℕ) (w w' : Sockets) (new : List ℕ)
    → w'.written out ≡ w.written out ++ new
    → (if in_fd == in_fd then drop (length (w.written out)) (w'.written out) else []) ≡ new ++ []
arrive out in_fd w w' new e =
    rw (eq→== in_fd in_fd refl, e) (drop-of_length (w.written out) new ∙ sym (append-nil new))

abbrev sent_up : Carries sim one_ready sim_stream one_stream 5 4
sent_up = record {
  carry = λ w w'. holding 4 (drop (length (w.written 5)) (w'.written 5));
  carried = λ w w' new e. ([], arrive 5 4 w w' new e);
}

abbrev sent_down : Carries one_ready sim one_stream sim_stream 6 7
sent_down = record {
  carry = λ w w'. holding 7 (drop (length (w.written 6)) (w'.written 6));
  carried = λ w w' new e. ([], arrive 6 7 w w' new e);
}

abbrev process : ℕ → ℕ → PubSubNode
process id fd = record {
  name = 97 ∷ [];
  chunk_type = chunk_sub;
  cpu_bind = pos 0;
  id = pos id;
  connfd = pos fd;
  shm_nodes = none;
  shm_node_num = 0;
  pub_links_num = pos 0;
}

abbrev broker : Broker
broker = begin (process 0 0) (process 10 4 ∷ (process 11 6 ∷ [])) 3

other_quiet : OthersQuiet (4 ∷ []) broker.nodes 0
other_quiet zero n e ne = absurd (ne refl)
other_quiet (suc zero) n e ne = let same : process 11 6 ≡ n = ground arith in inr (rw (← same) refl)
other_quiet (suc (suc j)) n e ne = absurd (ground arith)

-- The client asks for the process 11 twice.
low_descriptors : all_below fd_setsize (select_args broker).1 ≡ true
unfolding watch
low_descriptors = refl

relay-delivered_example :
    Ends ⊥
      (λ r. r ≡ (
        pos 0,
        again (watched broker),
        replicate (times 6 broker.nodes 2 (11 ∷ (11 ∷ []))) (pos 0, take 2 (104 ∷ (105 ∷ []))),
      ))
      (relay sim one_ready sim sim_stream one_stream sim_stream 5 4 6 7 sent_up sent_down 16 2
        (11 ∷ (11 ∷ []))
        2
        (104 ∷ (105 ∷ []))
        broker
        idle)
unfolding round4
relay-delivered_example =
    relay-delivered sim one_ready sim sim_stream one_stream sim_stream 5 4 6 7 sent_up sent_down 16
      2 2 0 (11 ∷ (11 ∷ [])) (104 ∷ (105 ∷ [])) broker (process 10 4) idle (omega arith)
      (omega arith) (omega arith) (omega arith) (omega arith) refl refl (λ x. omega arith)
      other_quiet (sim-Accepts 5) (λ i fd node at conn. sim-Accepts fd) (sim-Delivers 4)
      (sim-Delivers 7) (λ w some_wait. (w, refl, refl, λ g. refl)) low_descriptors

times-twice : times 6 broker.nodes 2 (11 ∷ (11 ∷ [])) ≡ 2
unfolding times
times-twice = refl

-- A head for two bytes, the bytes, and the first bytes of what comes next.
abbrev waiting : Sockets
waiting = holding 7 (encode (fresh_cmd 2 1 188 0) ++ (104 ∷ (105 ∷ []) ++ 73 ∷ []))

ih_recv_data-Got_example :
    Ends
      (IsText (drop (round4 0) (over (104 ∷ (105 ∷ [])) (replicate 16 0))))
      (Got sim sim_stream 7 (fresh_cmd 2 1 188 0) (104 ∷ (105 ∷ [])) (replicate 16 0) (73 ∷ []))
      (ih_recv_data sim (pos 7) (replicate 16 0) 0 waiting)
ih_recv_data-Got_example =
    ih_recv_data-Got sim sim_stream 7 0 (fresh_cmd 2 1 188 0) (104 ∷ (105 ∷ [])) (replicate 16 0)
      (73 ∷ []) waiting refl (omega arith) refl (sim-Delivers 7)
