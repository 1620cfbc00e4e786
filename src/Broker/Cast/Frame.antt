-- ===== src/Broker/Cast/Frame.antt =====
-- What broadcast_cmd sends, and to whom.
use icehydra.Prelude.{
  ℕ, ◌+◌, ◌-◌, ◌%◌, ◌≤◌, ◌<◌, ◌≡◌, refl, sym, ap, ◌⊎◌, inl, inr, Option, none, some, List, ◌++◌,
  arith, length, take, drop, length-drop, ℤ, pos,
}
use mathlib.Core.Path.{subst}
use icehydra.Run.{Run, ok, Ends, returned}
use icehydra.Run
use icehydra.Kernel.{Kernel}
use icehydra.Kernel.Stream.{IsStream}
use icehydra.Wire.{
  ProtocolCmd, Packet, encode, broadcast_len, send_parallel, set_pure_broadcast_field,
}
use icehydra.Wire.Padding.{round4-least, broadcast_len-round4}
use icehydra.Wire.Head.{set_broadcast_cmd_head-strip, set_broadcast_cmd_head-negative}
use icehydra.Node.{PubSubNode}
use icehydra.Broker.Cast.{strip_body, strip_head, broadcast_cmd}
use icehydra.Socket.SendCmds.{IsPrefix}
use icehydra.Broker.Cast.Shares.{expected, FailedIn, Progress}
use icehydra.Broker.Cast.Progress.{broadcast_nodes-Progress}

-- The head of the message that is passed on: the same command, the ids taken off the length.
abbrev pub stripped : ProtocolCmd → ProtocolCmd
stripped h = record h {
  magic0 = b'I';
  magic1 = b'H';
  bodylen = h.bodylen - broadcast_len h;
  cmd_send_type = send_parallel;
  broadcast_num = 0;
}

-- The room that the ids take: a whole number of words of four bytes.
abbrev pub ids_room : ℕ → ℕ
ids_room num = num + (4 - num % 4) % 4

-- The message as it is passed on: the same command under a head that counts no ids, and of the
-- bytes behind the ids as many as the length leaves when the room of the ids is taken off.
abbrev pub passed_on : Packet → List ℕ
passed_on p =
    let room = ids_room p.head.broadcast_num in
    encode (record p.head {
      magic0 = b'I';
      magic1 = b'H';
      bodylen = p.head.bodylen - room;
      cmd_send_type = send_parallel;
      broadcast_num = 0;
    })
    ++ take (p.head.bodylen - room) (drop room p.tail)

ids_room-broadcast_len : (h : ProtocolCmd) → ids_room h.broadcast_num ≡ broadcast_len h
ids_room-broadcast_len h = omega (arith, round4-least h.broadcast_num, broadcast_len-round4 h)

-- What broadcast_cmd makes of the message in its buffer is what is to be passed on.
pub passed_on-strip :
    (p : Packet)
    → passed_on p
      ≡ encode (stripped p.head) ++ take (p.head.bodylen - broadcast_len p.head) (strip_body p)
passed_on-strip p =
    ap
      (λ (room : ℕ).
        encode (record p.head {
          magic0 = b'I';
          magic1 = b'H';
          bodylen = p.head.bodylen - room;
          cmd_send_type = send_parallel;
          broadcast_num = 0;
        })
        ++ take (p.head.bodylen - room) (drop room p.tail))
      (ids_room-broadcast_len p.head)

strip_head-stripped :
    (p : Packet)
    → broadcast_len p.head ≤ p.head.bodylen
    → p.head.bodylen < 65536
    → strip_head p ≡ stripped p.head
unfolding strip_head
strip_head-stripped p h b =
    ground (arith, set_broadcast_cmd_head-strip p.head (p.head.bodylen - broadcast_len p.head))

-- A message whose body length is below the room of its ids keeps that length in the head that is
-- passed on.
pub strip_head-malformed :
    (p : Packet) → p.head.bodylen < broadcast_len p.head → (strip_head p).bodylen ≡ p.head.bodylen
unfolding strip_head
strip_head-malformed p h =
    ground
      (arith, set_broadcast_cmd_head-negative p.head (broadcast_len p.head - p.head.bodylen - 1))

-- The result of a broadcast, with what was written to each descriptor.
abbrev pub Broadcasts :
    (k : Kernel)
    → IsStream k
    → List PubSubNode
    → ℕ
    → List ℕ
    → (ℕ → List ℕ)
    → k.World
    → ℤ × k.World
    → Type 0
Broadcasts k s nodes num ids all w (ret, w') =
    ((ret ≡ pos 0) × ((g : ℕ) → s.output g w' ≡ s.output g w ++ all g))
    ⊎ (FailedIn k s nodes num ids ret
        × ((g : ℕ) → (new : List ℕ) × (s.output g w' ≡ s.output g w ++ new) × IsPrefix new (all g)))

module _ (k : Kernel) (s : IsStream k) where
  Progress-Broadcasts :
      (nodes : List PubSubNode) (num : ℕ) (ids : List ℕ) (all : ℕ → List ℕ) (w : k.World)
      (r : Option ℤ × k.World)
      → Progress k s all (FailedIn k s nodes num ids) w r
      → Broadcasts k s nodes num ids all w (elim r.0 [ some e ↦ e | none ↦ pos 0 ], r.1)
  Progress-Broadcasts nodes num ids all w (none, w') p = inl (refl, p)
  Progress-Broadcasts nodes num ids all w (some e, w') p = inr p

  -- For a message whose ids and body are in its buffer, the body no shorter than the room of the
  -- ids: each process that the message names gets the message without its ids, as often as it is
  -- named, and nobody gets anything else, and the result is 0; or the result is minus the id of a
  -- process that the message names and whose descriptor does not accept all it is given, and every descriptor got a front part of its share.
  -- The call ends within its fuel and stays within its buffers.
  pub broadcast_cmd-Broadcasts :
      (nodes : List PubSubNode) (p : Packet) (w : k.World)
      → broadcast_len p.head ≤ p.head.bodylen
      → p.head.bodylen < 65536
      → p.head.bodylen ≤ length p.tail
      → p.head.broadcast_num ≤ length p.tail
      → Ends ⊥
          (Broadcasts k s nodes p.head.broadcast_num p.tail
            (λ g. expected g nodes p.head.broadcast_num p.tail (passed_on p))
            w)
          (broadcast_cmd k nodes (some p) w)
  unfolding broadcast_cmd set_pure_broadcast_field
  broadcast_cmd-Broadcasts nodes p w long small room ids = rw (strip_head-stripped p long small) (
      Run.bind
        (broadcast_nodes-Progress k s (stripped p.head) (strip_body p)
          (omega (arith, length-drop (broadcast_len p.head) p.tail)) nodes p.head.broadcast_num
          p.tail w ids)
        λ r q. returned (
          subst
            (λ (m : List ℕ).
              Broadcasts k s nodes p.head.broadcast_num p.tail
                (λ g. expected g nodes p.head.broadcast_num p.tail m) w
                (elim r.0 [ some e ↦ e | none ↦ pos 0 ], r.1))
            (sym (passed_on-strip p))
            (Progress-Broadcasts nodes p.head.broadcast_num p.tail _ w r q)))
