-- ===== src/Broker/Loop/Config.antt =====
-- A pass of the loop ends within its fuel, whatever the system answers and the peers send, and
-- leaves the configuration as it was: of the processes it changes only the descriptors.
use icehydra.Prelude.{
  ℕ, zero, suc, ◌+◌, ◌≤◌, false, true, if◌then◌else◌, ltb, leb, ltb→le, ◌≡◌, refl, ap, ◌∙◌, inl,
  inr, some, List, [], ◌∷◌, arith, ◌==◌, Bool-cases, Option-cases, length, map, set, get_elem?, ℤ,
  pos, negsuc, minus_one, is_neg, neg, succ,
}
use icehydra.Run.{Run, ok, fault, Ends, returned, faulted}
use icehydra.Run
use icehydra.Kernel.{Kernel, Selected, select_failed, timed_out, ready}
use icehydra.Kernel.Stream.{IsStream}
use icehydra.Wire.{ProtocolCmd, Packet, encode, decode, send_reserve, send_serial}
use icehydra.Socket.{tcp_recv_protocol_cmd}
use icehydra.Socket.RecvCmds.{tcp_recv_protocol_cmd-Received}
use icehydra.Node.{PubSubNode, find_node_by_id}
use icehydra.Broker.Cast.Halts.{Halts, send-Halts, broadcast_cmd-Halts}
use icehydra.Broker.Reserve.{reserve_reply, parser_reserve_cmd}
use icehydra.Traces.Halts.{trace-Halts}
use icehydra.Broker.Loop.{
  Broker, Next, again, quit, attach, watch, close_node, after_broadcast, dispatch, receive_from,
  serve_node, serve_nodes, on_ready, after_select, round, is_peer, accept_unix_tcp, fd_isset,
  clear_head, clear_area, bytes_of, max_path, fd_setsize, all_below,
}
use icehydra.Setup.{sun_path_len}

-- A process without its descriptor.
abbrev pub configured : PubSubNode → PubSubNode
configured n = record n { connfd = pos 0 }

abbrev pub SameConfig : Broker → Broker → Type 0
SameConfig a b =
    (map configured b.nodes ≡ map configured a.nodes) × (b.start ≡ a.start) × (b.sockfd ≡ a.sockfd)

abbrev pub state : Next → Broker
state (again st) = st
state (quit st) = st

pub SameConfig-trans : (a b c : Broker) → SameConfig a b → SameConfig b c → SameConfig a c
SameConfig-trans a b c (p, q, r) (p', q', r') = (p' ∙ p, q' ∙ q, r' ∙ r)

map-set :
    (ns : List PubSubNode) (i : ℕ) (n : PubSubNode) (fd : ℤ)
    → get_elem? ns i ≡ some n
    → map configured (set ns i (record n { connfd = fd })) ≡ map configured ns
map-set [] i n fd e = refl
map-set (m ∷ ns) zero n fd e = let same : m ≡ n = cc in rw same
map-set (m ∷ ns) (suc i) n fd e = ap (◌∷◌ (configured m)) (map-set ns i n fd e)

map-attach :
    (ns : List PubSubNode) (un : List ℕ) (fd links : ℤ)
    → map configured (attach ns un fd links).0 ≡ map configured ns
unfolding attach
map-attach [] un fd links = refl
map-attach (n ∷ ns) un fd links = elim (Bool-cases (is_peer n un)) [
  | inl hit ↦ rw hit (ap (◌∷◌ (configured n)) (map-attach ns un fd (succ links)))
  | inr miss ↦ rw miss (ap (◌∷◌ (configured n)) (map-attach ns un fd links))
]

module _ (k : Kernel) (s : IsStream k) where
  map-close_node :
      (ns : List PubSubNode) (i : ℕ) (w : k.World)
      → map configured (close_node k ns i w).0 ≡ map configured ns
  unfolding close_node
  map-close_node ns i w = elim (Option-cases (get_elem? ns i)) [
    | inl e ↦ rw (e, close_node)
    | inr (n, e) ↦ rw (e, close_node) (map-set ns i n minus_one e)
  ]

  after_broadcast-Keeps : (st : Broker) (r : ℤ × k.World) → SameConfig st (after_broadcast k st r).0
  unfolding after_broadcast
  after_broadcast-Keeps st (ret, w) = elim (Bool-cases (is_neg ret)) [
    | inr good ↦ rw good (refl, refl, refl)
    | inl bad ↦ elim (Option-cases (find_node_by_id st.nodes (neg ret))) [
      | inl gone ↦ rw (bad, gone) (refl, refl, refl)
      | inr (j, at) ↦ rw (bad, at) (map-close_node st.nodes j w, refl, refl)
    ]
  ]

  -- A run ends, and if without a fault, then with the configuration kept.
  abbrev pub KeepsConfig : Broker → Run (Broker × k.World) → Type 0
  KeepsConfig st r = Ends (Unit {0}) (λ x. SameConfig st x.0) r

  parser_reserve_cmd-Halts :
      (start node : PubSubNode) (cmd : ProtocolCmd) (w : k.World)
      → Halts (parser_reserve_cmd k start node cmd w)
  unfolding parser_reserve_cmd
  parser_reserve_cmd-Halts start node cmd w = elim (Option-cases (reserve_reply start cmd.cmdid)) [
    | inl quiet ↦ rw (quiet, parser_reserve_cmd) (returned tt)
    | inr ((head, body), reply) ↦
        rw (reply, parser_reserve_cmd) (send-Halts k s node.connfd (encode head) body w)
  ]

  pub dispatch-KeepsConfig :
      (st : Broker) (node : PubSubNode) (p : Packet) (w : k.World)
      → KeepsConfig st (dispatch k st node p w)
  unfolding dispatch
  dispatch-KeepsConfig st node p w = elim (Bool-cases (p.head.cmd_send_type == send_reserve)) [
    | inl reserve ↦ rw reserve (
        Run.bind (parser_reserve_cmd-Halts st.start node p.head w)
          λ r q. returned (refl, refl, refl))
    | inr other ↦ elim (Bool-cases (p.head.cmd_send_type == send_serial)) [
      | inl serial ↦ rw (other, serial) (returned (refl, refl, refl))
      | inr parallel ↦
          rw (other, parallel)
            (Run.bind (broadcast_cmd-Halts k s st.nodes p w)
              λ r q. returned (after_broadcast-Keeps st r))
    ]
  ]

  recv-Halts :
      (fd : ℤ) (w : k.World)
      → Halts (tcp_recv_protocol_cmd k fd (some clear_head) (some clear_area) w)
  unfolding tcp_recv_protocol_cmd
  recv-Halts (negsuc n) w = returned tt
  recv-Halts (pos fd) w =
      Run.mono (tcp_recv_protocol_cmd-Received k s fd clear_head clear_area w (omega arith))
        (λ x. tt) (λ r p. tt)

  receive_from-KeepsConfig :
      (st : Broker) (i : ℕ) (node : PubSubNode) (w : k.World)
      → KeepsConfig st (receive_from k st i node w)
  unfolding receive_from
  receive_from-KeepsConfig st i node w =
      Run.bind (recv-Halts node.connfd w) λ (ret, head, area, w1) p.
        elim (Bool-cases (is_neg ret)) [
          | inl lost ↦ rw lost (returned (map-close_node st.nodes i w1, refl, refl))
          | inr got ↦
              let packet : Packet = record {
                head = decode (bytes_of head);
                tail = bytes_of area;
              } in
              rw got (
                Run.bind (trace-Halts packet.head packet.tail)
                  λ out h. dispatch-KeepsConfig st node packet w1)
        ]

  pub serve_node-KeepsConfig :
      (rset : List ℕ) (st : Broker) (i : ℕ) (w : k.World)
      → KeepsConfig st (serve_node k rset st i w)
  unfolding serve_node
  serve_node-KeepsConfig rset st i w = elim (Option-cases (get_elem? st.nodes i)) [
    | inl e ↦ rw (e, serve_node) (faulted tt)
    | inr (node, e) ↦ elim (Bool-cases (is_neg node.connfd)) [
      | inl closed ↦ rw (e, serve_node, closed) (returned (refl, refl, refl))
      | inr opened ↦ elim (Bool-cases (fd_isset node.connfd rset)) [
        | inl is_set ↦ rw (e, serve_node, opened, is_set) (receive_from-KeepsConfig st i node w)
        | inr unset ↦ rw (e, serve_node, opened, unset) (returned (refl, refl, refl))
      ]
    ]
  ]

  serve_nodes-KeepsConfig :
      (rset : List ℕ) (left i : ℕ) (st : Broker) (w : k.World)
      → KeepsConfig st (serve_nodes k rset left i st w)
  unfolding serve_nodes
  serve_nodes-KeepsConfig rset zero i st w = returned (refl, refl, refl)
  serve_nodes-KeepsConfig rset (suc left) i st w =
      Run.bind (serve_node-KeepsConfig rset st i w) λ (st', w') p.
        Run.mono (serve_nodes-KeepsConfig rset left (suc i) st' w') (λ x. x)
          λ (st'', w'') q. SameConfig-trans st st' st'' p q

  -- accept_unix_tcp faults only on a path that fills sun_path.
  pub accept_unix_tcp-Ends :
      (sockfd : ℕ) (w : k.World)
      → Ends
          (sun_path_len ≤ length (k.accept sockfd w).0.1)
          (λ got. Unit {0})
          (accept_unix_tcp k sockfd w)
  unfolding accept_unix_tcp
  accept_unix_tcp-Ends sockfd w =
      let path = (k.accept sockfd w).0.1 in
      elim (Bool-cases (ltb (length path) sun_path_len)) [
        | inl short ↦
            let held : ltb sun_path_len (length path + 1) ≡ false = ground (arith, short) in
            let room : leb max_path (length path + 1) ≡ false = ground (arith, short) in
            rw (held, room) (returned tt)
        | inr long ↦
            let over : ltb sun_path_len (length path + 1) ≡ true = ground (arith, long) in
            rw over (faulted (ltb→le (length path) sun_path_len long))
      ]

  on_ready-KeepsConfig :
      (st : Broker) (rset : List ℕ) (w : k.World) → KeepsConfig st (on_ready k st rset w)
  unfolding on_ready
  on_ready-KeepsConfig st rset w = elim (Bool-cases (fd_isset (pos st.sockfd) rset)) [
    | inr quiet ↦ rw quiet (serve_nodes-KeepsConfig rset (length st.nodes) 0 st w)
    | inl call ↦
        rw call (Run.bind_ok (accept_unix_tcp-Ends st.sockfd w) (λ x. tt) λ got e t. accepted got)
  ]
    where
      accepted :
          (got : (ℤ × List ℕ) × k.World)
          → KeepsConfig st (
              let (nodes, links) = attach st.nodes got.0.1 got.0.0 st.link_count in
              ok (
                if is_neg got.0.0 then st else record st { nodes = nodes; link_count = links },
                got.1,
              ))
      accepted got = elim (Bool-cases (is_neg got.0.0)) [
        | inl bad ↦ rw bad (returned (refl, refl, refl))
        | inr good ↦
            rw good (returned (map-attach st.nodes got.0.1 got.0.0 st.link_count, refl, refl))
      ]

  after_select-SameConfig :
      (st : Broker) (r : Selected × k.World)
      → Ends (Unit {0}) (λ r. SameConfig st (state r.0)) (after_select k st r)
  unfolding after_select
  after_select-SameConfig st (timed_out, w) = returned (refl, refl, refl)
  after_select-SameConfig st (select_failed, w) = returned (refl, refl, refl)
  after_select-SameConfig st (ready rset, w) =
      Run.bind (on_ready-KeepsConfig st rset w) λ r p. returned p

  -- A pass of the loop ends: with a fault, or with every process named, numbered and set up as
  -- before. No answer of the system and no message of a peer makes it run on.
  pub round-SameConfig :
      (st : Broker) (w : k.World) → Ends (Unit {0}) (λ r. SameConfig st (state r.0)) (round k st w)
  unfolding round
  round-SameConfig st w =
      elim (Bool-cases (all_below fd_setsize (st.sockfd ∷ (watch st.nodes st.max_conn_fd).0))) [
        | inr high ↦ rw high (faulted tt)
        | inl low ↦ rw low (
            Run.mono
              (after_select-SameConfig
                (record st { max_conn_fd = (watch st.nodes st.max_conn_fd).1 }) _)
              (λ x. x) (λ r p. p))
      ]
