-- ===== src/Wire/Padding.antt =====
-- `round4` and GET_PROTOCOL_BROADCAST_LEN: the room that the ids take in a message.
use icehydra.Prelude.{ℕ, ◌+◌, ◌%◌, ◌≤◌, ◌<◌, ◌≡◌, refl, arith}
use icehydra.Wire.{ProtocolCmd, round4, broadcast_len}

-- `round4` is the least multiple of four that is not below its argument.
pub round4-least : (x : ℕ) → (round4 x % 4 ≡ 0) × (x ≤ round4 x) × (round4 x < x + 4)
unfolding round4
round4-least x = ground arith

pub broadcast_len-round4 : (h : ProtocolCmd) → broadcast_len h ≡ round4 h.broadcast_num
unfolding round4 broadcast_len
broadcast_len-round4 h = refl
