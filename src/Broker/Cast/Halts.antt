-- ===== src/Broker/Cast/Halts.antt =====
-- broadcast_cmd ends within its fuel, whatever the message.
use icehydra.Prelude.{
  ℕ, zero, suc, inl, inr, Option, none, some, List, [], ◌∷◌, Bool-cases, Option-cases, ℤ, pos,
  negsuc, is_neg, eqb_ℤ,
}
use icehydra.Run.{Run, ok, Ends, returned, faulted}
use icehydra.Run
use icehydra.Kernel.{Kernel}
use icehydra.Kernel.Stream.{IsStream}
use icehydra.Wire.{ProtocolCmd, Packet, encode, set_pure_broadcast_field}
use icehydra.Socket.{tcp_send_protocol_cmd}
use icehydra.Socket.SendCmds.{tcp_send_protocol_cmd-Delivered}
use icehydra.Node.{PubSubNode}
use icehydra.Broker.Cast.{send_to_node, broadcast_nodes, broadcast_cmd, strip_body, strip_head}

-- A run ends, with whatever result.
abbrev pub Halts : {A : Type 0} → Run A → Type 0
Halts r = Ends (Unit {0}) (λ _. Unit {0}) r

module _ (k : Kernel) (s : IsStream k) where
  pub send-Halts :
      (fd : ℤ) (head : List ℕ) (area : Option (List ℕ)) (w : k.World)
      → Halts (tcp_send_protocol_cmd k fd (some head) area w)
  unfolding tcp_send_protocol_cmd
  send-Halts fd head none w = returned tt
  send-Halts (negsuc n) head (some area) w = returned tt
  send-Halts (pos fd) head (some area) w =
      Run.mono (tcp_send_protocol_cmd-Delivered k s fd head area w) (λ x. tt) (λ r p. tt)

  send_to_node-Halts :
      (node : PubSubNode) (head : ProtocolCmd) (area : List ℕ) (num : ℕ) (ids : List ℕ)
      (w : k.World)
      → Halts (send_to_node k node head area num ids w)
  unfolding send_to_node
  send_to_node-Halts node head area zero ids w = returned tt
  send_to_node-Halts node head area (suc num) [] w = faulted tt
  send_to_node-Halts node head area (suc num) (i ∷ ids) w =
      elim (Bool-cases (eqb_ℤ (pos i) node.id)) [
        | inl hit ↦
            rw (hit, send_to_node)
              (Run.bind (send-Halts node.connfd (encode head) (some area) w) λ r p.
                elim (Bool-cases (is_neg r.0)) [
                  | inl bad ↦ rw bad (returned tt)
                  | inr good ↦ rw good (send_to_node-Halts node head area num ids r.1)
                ])
        | inr miss ↦ rw (miss, send_to_node) (send_to_node-Halts node head area num ids w)
      ]

  broadcast_nodes-Halts :
      (nodes : List PubSubNode) (head : ProtocolCmd) (area : List ℕ) (num : ℕ) (ids : List ℕ)
      (w : k.World)
      → Halts (broadcast_nodes k nodes head area num ids w)
  unfolding broadcast_nodes
  broadcast_nodes-Halts [] head area num ids w = returned tt
  broadcast_nodes-Halts (node ∷ nodes) head area num ids w =
      Run.bind (send_to_node-Halts node head area num ids w) λ r p. elim (Option-cases r.0) [
        | inl on ↦ rw on (broadcast_nodes-Halts nodes head area num ids r.1)
        | inr (e, stop) ↦ rw stop (returned tt)
      ]

  pub broadcast_cmd-Halts :
      (nodes : List PubSubNode) (p : Packet) (w : k.World)
      → Halts (broadcast_cmd k nodes (some p) w)
  unfolding broadcast_cmd set_pure_broadcast_field
  broadcast_cmd-Halts nodes p w =
      Run.bind
        (broadcast_nodes-Halts nodes (record (strip_head p) { broadcast_num = 0 }) (strip_body p)
          p.head.broadcast_num p.tail w)
        λ r q. returned tt
