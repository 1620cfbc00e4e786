-- ===== src/Broker/Cast.antt =====
-- broadcast_cmd of src/conf.c.
pub mod Shares
pub mod Progress
pub mod Frame
pub mod Halts
pub mod Returns
use icehydra.Prelude.{
  ℕ, zero, suc, Option, none, some, List, [], ◌∷◌, Bool, true, false, if◌then◌else◌, drop, ℤ, pos,
  minus_one, is_neg, neg, sub_ℕ, eqb_ℤ,
}
use icehydra.Run.{Run, ok, fault, ◌>>=◌}
use icehydra.Kernel.{Kernel}
use icehydra.Wire.{
  ProtocolCmd, Packet, encode, broadcast_len, set_broadcast_cmd_head, set_pure_broadcast_field,
}
use icehydra.Socket.{tcp_send_protocol_cmd}
use icehydra.Node.{PubSubNode}

-- The message after its ids were stripped off: the new head and the body.
abbrev pub strip_body : Packet → List ℕ
strip_body p = drop (broadcast_len p.head) p.tail

pub strip_head : Packet → ProtocolCmd
strip_head p =
    set_broadcast_cmd_head p.head (sub_ℕ p.head.bodylen (broadcast_len p.head)) minus_one 0

module _ (k : Kernel) where
  open k use {World}

  -- The inner loop of broadcast_cmd at one node, over the ids of the message: one send for each that
  -- is the node's. `some r` is an early return of `r`. Reading past the ids is a fault.
  pub send_to_node : PubSubNode → ProtocolCmd → List ℕ → ℕ → List ℕ → World → Run (Option ℤ × World)
  send_to_node node head area zero ids w = ok (none, w)
  send_to_node node head area (suc num) [] w = fault
  send_to_node node head area (suc num) (i ∷ ids) w = elim (eqb_ℤ (pos i) node.id) [
    | true ↦ do
      (ret, w') ← tcp_send_protocol_cmd k node.connfd (some (encode head)) (some area) w
      if is_neg ret then ok (some (neg node.id), w') else send_to_node node head area num ids w'
    | false ↦ send_to_node node head area num ids w
  ]

  -- `list_for_each` of broadcast_cmd
  pub broadcast_nodes :
      List PubSubNode → ProtocolCmd → List ℕ → ℕ → List ℕ → World → Run (Option ℤ × World)
  unfolding send_to_node
  broadcast_nodes [] head area num ids w = ok (none, w)
  broadcast_nodes (node ∷ nodes) head area num ids w = do
    (early, w') ← send_to_node node head area num ids w
    elim early [ some r ↦ ok (some r, w') | none ↦ broadcast_nodes nodes head area num ids w' ]

  -- `cmd_head` is a message whose ids and body stand behind its head; both pointers that the source
  -- is given point into it, so they are null together. The ids stay where they are.
  pub broadcast_cmd : List PubSubNode → Option Packet → World → Run (ℤ × World)
  unfolding broadcast_nodes strip_head
  broadcast_cmd nodes none w = ok (pos 0, w)
  broadcast_cmd nodes (some p) w = do
    (sent, area) ← set_pure_broadcast_field (some (record p { head = strip_head p })) none 0 none
    elim sent [
      | none ↦ fault
      | some q ↦ do
        (early, w') ← broadcast_nodes nodes q.head (strip_body p) p.head.broadcast_num q.tail w
        ok (elim early [ some r ↦ r | none ↦ pos 0 ], w')
    ]
