-- ===== src/Wire/Ranges.antt =====
-- The fields of a head that src/conf.c fills in stay within the widths that include/conf.h gives them.
use icehydra.Prelude.{ℕ, ◌<◌, Bool, true, false, ◌&&◌, not, if◌then◌else◌, ℤ, pos, is_neg, arith}
use icehydra.Wire.{
  ProtocolCmd, encode, zero_cmd, u8, u16, set_pure_protocol_head, add_ids, set_broadcast_cmd_head,
  send_parallel,
}
use icehydra.Wire.Layout.{AllBytes}

-- uint8_t and uint16_t
abbrev pub InRange : ProtocolCmd → Type 0
InRange h =
    (h.magic0 < 256)
    × (h.magic1 < 256)
    × (h.bodylen < 65536)
    × (h.cmd_send_type < 256)
    × (h.cmdid < 256)
    × (h.broadcast_num < 256)
    × (h.pad < 256)

InRange-AllBytes : (h : ProtocolCmd) → InRange h → AllBytes (encode h)
unfolding encode
InRange-AllBytes h (a, b, c, d, e, f, g) =
    (a, (b, (omega arith, (omega arith, (d, (e, (f, (g, tt))))))))

u8-below : (i : ℤ) → u8 i < 256
u8-below i = omega arith

u16-below : (i : ℤ) → u16 i < 65536
u16-below i = omega arith

choice-below : (c : Bool) (a b bound : ℕ) → a < bound → b < bound → (if c then a else b) < bound
choice-below true a b bound h g = h
choice-below false a b bound h g = g

cleared-InRange : (c : Bool) (h : ProtocolCmd) → InRange h → InRange (if c then zero_cmd else h)
cleared-InRange true h r =
    (omega arith, omega arith, omega arith, omega arith, omega arith, omega arith, omega arith)
cleared-InRange false h r = r

-- Whatever numbers set_pure_protocol_head and set_broadcast_cmd_head are given, they turn a head whose
-- fields are in the range of their types into one of which that holds too, so that its layout consists
-- of bytes.
pub set_pure_protocol_head-InRange :
    (h : ProtocolCmd) (bodylen send_type cmdid : ℤ) (br_num : ℕ)
    → InRange h
    → InRange (set_pure_protocol_head h bodylen send_type cmdid)
      × InRange (set_broadcast_cmd_head h bodylen cmdid br_num)
      × AllBytes (encode (set_broadcast_cmd_head h bodylen cmdid br_num))
unfolding set_pure_protocol_head set_broadcast_cmd_head
set_pure_protocol_head-InRange h bodylen send_type cmdid br_num r =
    let whole = pure bodylen send_type cmdid in
    let (a, b, c, d, e, f, g) = pure (add_ids bodylen br_num) (pos send_parallel) cmdid in
    let ranged : InRange (set_broadcast_cmd_head h bodylen cmdid br_num) =
      (a, b, c, d, e, omega arith, g) in
    (whole, ranged, InRange-AllBytes (set_broadcast_cmd_head h bodylen cmdid br_num) ranged)
  where
    pure : (x y z : ℤ) → InRange (set_pure_protocol_head h x y z)
    pure x y z =
        let given = not (is_neg x) && not (is_neg y) && not (is_neg z) in
        let (a, b, c, d, e, f, g) = cleared-InRange given h r in
        (
          omega arith,
          omega arith,
          choice-below (is_neg x) _ _ 65536 c (u16-below x),
          choice-below (is_neg y) _ _ 256 d (u8-below y),
          choice-below (is_neg z) _ _ 256 e (u8-below z),
          f,
          g,
        )
