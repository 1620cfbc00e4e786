-- ===== src/Broker/Cast/Returns.antt =====
-- broadcast_cmd stays within the broker's buffer, whatever the message in it says.
use icehydra.Prelude.{
  ◌≤◌, ◌<◌, inl, inr, some, List, arith, ltb, ltb→lt, ltb→le, Bool-cases, length, length-drop,
}
use icehydra.Run.{Run, ok, Ends, returned}
use icehydra.Run
use icehydra.Kernel.{Kernel}
use icehydra.Kernel.Stream.{IsStream}
use icehydra.Wire.{Packet, broadcast_len, set_pure_broadcast_field}
use icehydra.Wire.Padding.{round4-least, broadcast_len-round4}
use icehydra.Node.{PubSubNode}
use icehydra.Broker.Cast.{strip_body, strip_head, broadcast_cmd}
use icehydra.Broker.Cast.Frame.{strip_head-malformed, broadcast_cmd-Broadcasts}
use icehydra.Broker.Cast.Progress.{broadcast_nodes-Progress}

module _ (k : Kernel) (s : IsStream k) where
  -- The room behind the head holds the body that is announced, and the ids and their padding twice.
  pub broadcast_cmd-Returns :
      (nodes : List PubSubNode) (p : Packet) (w : k.World)
      → p.head.bodylen ≤ length p.tail
      → p.head.bodylen < 65536
      → p.head.broadcast_num < 256
      → 520 ≤ length p.tail
      → Ends ⊥ (λ r. Unit {0}) (broadcast_cmd k nodes (some p) w)
  unfolding broadcast_cmd set_pure_broadcast_field
  broadcast_cmd-Returns nodes p w room small few space =
      let up = round4-least p.head.broadcast_num in
      let len = broadcast_len-round4 p.head in
      elim (Bool-cases (ltb p.head.bodylen (broadcast_len p.head))) [
        | inr whole ↦
            Run.mono
              (broadcast_cmd-Broadcasts k s nodes p w (ltb→le _ _ whole) small room
                (omega (arith, up)))
              (λ x. x) (λ r q. tt)
        | inl malformed ↦
            let kept = strip_head-malformed p (ltb→lt _ _ malformed) in
            let short = ltb→lt p.head.bodylen (broadcast_len p.head) malformed in
            Run.bind
              (broadcast_nodes-Progress k s (record (strip_head p) { broadcast_num = 0 })
                (strip_body p)
                (omega (arith, kept, len, up, short, length-drop (broadcast_len p.head) p.tail))
                nodes p.head.broadcast_num p.tail w (omega (arith, up)))
              λ r q. returned tt
      ]
