-- ===== src/Tests/Clients.antt =====
-- The theorems about the client library.
use icehydra.Prelude.{ℕ, ◌≡◌, refl, List, [], ◌∷◌, ◌++◌, some, none, replicate, arith, pos}
use icehydra.Run.{Ends, ok, fault}
use icehydra.Wire.{round4}
use icehydra.Node.{ShmNode}
use icehydra.Client.{broadcast_packet, ih_send_broadcast_data, find_shm}
use icehydra.Client.Send.{
  SentMessage, client_message, broadcast_to, broadcast_packet-fault,
  ih_send_broadcast_data-SentMessage,
}
use icehydra.Client.Shm.{find_shm-cases}
use icehydra.Tests.Sim.{Sockets, sim, sim_stream}

abbrev quiet : Sockets
quiet = record { input = λ fd. []; written = λ fd. []; name = λ fd. none; peer = λ fd. none }

abbrev text : List ℕ
text = 104 ∷ 105 ∷ []

round4-one : round4 1 ≡ 4
unfolding round4
round4-one = refl

ih_send_broadcast_data-SentMessage_example :
    Ends ⊥
      (SentMessage sim sim_stream 5 (client_message 1 (11 ∷ []) 2 text) quiet)
      (ih_send_broadcast_data sim (pos 5) (broadcast_to 1 (11 ∷ []) 2 text) quiet)
ih_send_broadcast_data-SentMessage_example =
    ih_send_broadcast_data-SentMessage sim sim_stream 5 1 2 (11 ∷ []) text quiet (omega arith)
      (omega arith) (omega arith) (omega (arith, round4-one))

broadcast_packet-fault_example : broadcast_packet (broadcast_to 57 (replicate 57 1) 2 text) ≡ fault
broadcast_packet-fault_example = broadcast_packet-fault 57 (replicate 57 1) 2 text (omega arith)

abbrev entry : List ℕ → ShmNode
entry name = record { shm_name = name; shm_id = 4; shm_size = pos 128 }

find_shm-cases_example :
    (find_shm ((entry (97 ∷ []) ∷ []) ++ entry (98 ∷ []) ∷ []) (98 ∷ [])
      ≡ ok (some (entry (98 ∷ []))))
    × (find_shm ((entry (97 ∷ []) ∷ []) ++ entry [] ∷ []) (98 ∷ []) ≡ ok none)
    × (find_shm (entry (97 ∷ []) ∷ []) (98 ∷ []) ≡ fault)
find_shm-cases_example =
    find_shm-cases (entry (97 ∷ []) ∷ []) [] (entry (98 ∷ [])) (entry [])
      (ground arith, ground arith, tt) (ground arith) refl
