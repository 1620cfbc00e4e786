-- ===== src/Tests/Brokers.antt =====
-- The theorems about the broker, at two configured processes.
use icehydra.Prelude.{
  ℕ, ◌≡◌, refl, List, [], ◌∷◌, ◌++◌, map, some, none, if◌then◌else◌, arith, pos, eqb_ℤ,
}
use icehydra.Run.{Ends}
use icehydra.Wire.{round4, Packet, broadcast_len}
use icehydra.Wire.Head.{fresh_cmd}
use icehydra.Node.{PubSubNode, chunk_pub, chunk_sub, str_same, find_node_by_id, find_node_by_name}
use icehydra.Node.Find.{IsFirst, starts_with, find_node_by_id-IsFirst, find_node_by_name-IsFirst}
use icehydra.Broker.Cast.{broadcast_cmd, strip_head}
use icehydra.Broker.Cast.Shares.{expected}
use icehydra.Broker.Cast.Frame.{
  passed_on, Broadcasts, broadcast_cmd-Broadcasts, strip_head-malformed,
}
use icehydra.Broker.Loop.{Broker, attach, receive_from, round}
use icehydra.Broker.Loop.Attach.{attach-client}
use icehydra.Broker.Loop.Config.{SameConfig, state, round-SameConfig}
use icehydra.Client.Send.{client_message}
use icehydra.Relay.{subscriber_message}
use icehydra.Relay.Deliver.{Relayed, receive_from-Relayed}
use icehydra.Tests.Sim.{Sockets, sim, sim_stream, sim-Delivers}

abbrev process : List ℕ → ℕ → ℕ → PubSubNode
process name id fd = record {
  name = name;
  chunk_type = chunk_sub;
  cpu_bind = pos 0;
  id = pos id;
  connfd = pos fd;
  shm_nodes = none;
  shm_node_num = 0;
  pub_links_num = pos 0;
}

abbrev two : List PubSubNode
two = process (97 ∷ []) 10 5 ∷ process (98 ∷ []) 11 6 ∷ []

abbrev broker : Broker
broker = record {
  start = record (process (112 ∷ []) 0 0) { chunk_type = chunk_pub };
  nodes = two;
  sockfd = 3;
  max_conn_fd = pos 0;
  link_count = pos 2;
}

abbrev text : List ℕ
text = 104 ∷ 105 ∷ []

-- A message of "hi" from process 10 to process 11 waits at descriptor 5.
abbrev sockets : Sockets
sockets = record {
  input = λ fd. client_message 1 (11 ∷ []) 2 text ++ [];
  written = λ fd. [];
  name = λ fd. none;
  peer = λ fd. none;
}

abbrev incoming : Packet
incoming = record { head = fresh_cmd 6 1 188 1; tail = 11 ∷ 0 ∷ 0 ∷ 0 ∷ 104 ∷ 105 ∷ [] }

found_by_id : IsFirst (λ n. eqb_ℤ n.id (pos 11)) two (find_node_by_id two (pos 11))
found_by_id = find_node_by_id-IsFirst two (pos 11)

find_node_by_name-IsFirst_example :
    IsFirst (λ n. starts_with n.name (98 ∷ 99 ∷ [])) two (find_node_by_name two (98 ∷ 99 ∷ []))
find_node_by_name-IsFirst_example = find_node_by_name-IsFirst two (98 ∷ 99 ∷ [])

broadcast_cmd-Broadcasts_example :
    Ends ⊥
      (Broadcasts sim sim_stream two 1 incoming.tail
        (λ g. expected g two 1 incoming.tail (passed_on incoming))
        sockets)
      (broadcast_cmd sim two (some incoming) sockets)
unfolding broadcast_len
broadcast_cmd-Broadcasts_example =
    broadcast_cmd-Broadcasts sim sim_stream two incoming sockets (omega arith) (omega arith)
      (omega arith) (omega arith)

abbrev short_packet : Packet
short_packet = record { head = fresh_cmd 2 1 188 5; tail = [] }

short_packet-kept : (strip_head short_packet).bodylen ≡ 2
unfolding broadcast_len
short_packet-kept = strip_head-malformed short_packet (omega arith)

-- "/run/shm/b-sock"
abbrev path_b : List ℕ
path_b =
    (47 ∷ 114 ∷ 117 ∷ 110 ∷ 47 ∷ 115 ∷ 104 ∷ 109 ∷ 47 ∷ [])
    ++ ((98 ∷ []) ++ (45 ∷ 115 ∷ 111 ∷ 99 ∷ 107 ∷ []))

attach-client_example :
    (attach two path_b (pos 9) (pos 0)).0
    ≡ map (λ n. if str_same n.name (98 ∷ []) then record n { connfd = pos 9 } else n) two
attach-client_example = attach-client two path_b (98 ∷ []) (pos 9) (pos 0) (
  47 ∷ 114 ∷ 117 ∷ 110 ∷ 47 ∷ 115 ∷ 104 ∷ 109 ∷ 47 ∷ [],
  45 ∷ 115 ∷ 111 ∷ 99 ∷ 107 ∷ [],
  refl,
  refl,
  refl,
  omega arith,
)

round-SameConfig_example :
    Ends (Unit {0}) (λ r. SameConfig broker (state r.0)) (round sim broker sockets)
round-SameConfig_example = round-SameConfig sim sim_stream broker sockets

receive_from-Relayed_example :
    Ends ⊥
      (Relayed sim sim_stream broker 1
        (11 ∷ [])
        (λ g. expected g two 1 (11 ∷ []) (subscriber_message 2 text))
        sockets)
      (receive_from sim broker 0 (process (97 ∷ []) 10 5) sockets)
unfolding round4
receive_from-Relayed_example =
    receive_from-Relayed sim sim_stream 1 2 (11 ∷ []) text (omega arith) (omega arith) (omega arith)
      broker 0 5 (process (97 ∷ []) 10 5) sockets [] refl refl (sim-Delivers 5)
