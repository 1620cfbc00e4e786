-- ===== src/Wire.antt =====
-- include/conf.h and include/icehydra_cmd.h: the message head, its layout in memory, and the
-- commands; src/conf.c: the functions that fill a head in. A byte is a number below 256.
pub mod Layout
pub mod Padding
pub mod Head
pub mod Ids
pub mod Ranges
use icehydra.Prelude.{
  ℕ, zero, suc, ◌+◌, ◌-◌, ◌*◌, ◌/◌, ◌%◌, ◌^◌, ◌<◌, Bool, true, false, ◌&&◌, ◌||◌, not, Option, none,
  some, List, [], ◌∷◌, ◌++◌, ltb, ◌==◌, if◌then◌else◌, get_or, replicate, ℤ, pos, negsuc, is_neg,
  is_pos, to_nat,
}
use icehydra.Run.{Run, ok, fault, ◌>>=◌}

-- PROTOCOL_CMD, less `broadcast_ids`, which names the bytes that follow the head.
pub record ProtocolCmd : Type 0 where
  pub magic0 : ℕ
  pub magic1 : ℕ
  pub bodylen : ℕ
  pub cmd_send_type : ℕ
  pub cmdid : ℕ
  pub broadcast_num : ℕ
  pub pad : ℕ

-- PROTOCOL_CMD_HEAD_LEN
abbrev pub head_len : ℕ
head_len = 8

abbrev pub byte_at : List ℕ → ℕ → ℕ
byte_at bs i = get_or bs i 0

-- The little-endian layout of the struct, for a head whose fields are in the ranges of their types.
unfoldable pub encode : ProtocolCmd → List ℕ
encode h =
    h.magic0
    ∷ h.magic1
    ∷ (h.bodylen % 256)
    ∷ (h.bodylen / 256)
    ∷ h.cmd_send_type
    ∷ h.cmdid
    ∷ h.broadcast_num
    ∷ h.pad
    ∷ []

unfoldable pub decode : List ℕ → ProtocolCmd
decode bs = record {
  magic0 = byte_at bs 0;
  magic1 = byte_at bs 1;
  bodylen = byte_at bs 2 + 256 * byte_at bs 3;
  cmd_send_type = byte_at bs 4;
  cmdid = byte_at bs 5;
  broadcast_num = byte_at bs 6;
  pad = byte_at bs 7;
}

abbrev pub zero_cmd : ProtocolCmd
zero_cmd = record {
  magic0 = 0;
  magic1 = 0;
  bodylen = 0;
  cmd_send_type = 0;
  cmdid = 0;
  broadcast_num = 0;
  pad = 0;
}

-- enum ICEHYDAR_CMD_SEND_TYPE
abbrev pub send_reserve : ℕ
send_reserve = 0

abbrev pub send_parallel : ℕ
send_parallel = 1

abbrev pub send_serial : ℕ
send_serial = 2

-- enum ICEHYDAR_CMD_ID
abbrev pub cmd_conn_ok : ℕ
cmd_conn_ok = 1

abbrev pub cmd_get_shm_info : ℕ
cmd_get_shm_info = 2

abbrev pub cmd_get_shm_num : ℕ
cmd_get_shm_num = 3

abbrev pub cmd_default : ℕ
cmd_default = 188

-- `!!(0b11 & x)` for a number
abbrev pub low_bits_set : ℕ → ℕ
low_bits_set n = if n % 4 == 0 then 0 else 1

-- `round4(x)`, as the source writes it: `4*((x>>2)+!!(0b11&x))`.
unfoldable pub round4 : ℕ → ℕ
round4 x = 4 * (x / 4 + low_bits_set x)

-- GET_PROTOCOL_BROADCAST_LEN
unfoldable pub broadcast_len : ProtocolCmd → ℕ
broadcast_len h = 4 * (h.broadcast_num / 4 + low_bits_set h.broadcast_num)

-- Assigning an `int` that is not negative to a field of the head truncates it.
abbrev pub u8 : ℤ → ℕ
u8 i = to_nat i % 256

abbrev pub u16 : ℤ → ℕ
u16 i = to_nat i % 65536

-- A negative argument leaves its field alone; the head is cleared only if all three are given.
unfoldable pub set_pure_protocol_head : ProtocolCmd → ℤ → ℤ → ℤ → ProtocolCmd
set_pure_protocol_head h bodylen send_type cmdid =
    let given = not (is_neg bodylen) && not (is_neg send_type) && not (is_neg cmdid) in
    let cleared = if given then zero_cmd else h in
    record cleared {
      magic0 = b'I';
      magic1 = b'H';
      bodylen = if is_neg bodylen then cleared.bodylen else u16 bodylen;
      cmd_send_type = if is_neg send_type then cleared.cmd_send_type else u8 send_type;
      cmdid = if is_neg cmdid then cleared.cmdid else u8 cmdid;
    }

-- bodylen + round4(br_num), for a `br_num` that is not negative
abbrev pub add_ids : ℤ → ℕ → ℤ
add_ids (pos n) ids = pos (n + round4 ids)
add_ids (negsuc n) ids =
    let room = round4 ids in if ltb n room then pos (room - suc n) else negsuc (n - room)

unfoldable pub set_broadcast_cmd_head : ProtocolCmd → ℤ → ℤ → ℕ → ProtocolCmd
unfolding set_pure_protocol_head round4
set_broadcast_cmd_head h bodylen cmdid br_num =
    record (set_pure_protocol_head h (add_ids bodylen br_num) (pos send_parallel) cmdid) {
      broadcast_num = br_num % 256;
    }

-- for(i = 0; i < num; i++) dest[i] = ids[i], a fault outside either array
pub write_ids : ℕ → List ℕ → List ℕ → Run (List ℕ)
write_ids zero ids dest = ok dest
write_ids (suc n) [] dest = fault
write_ids (suc n) (i ∷ ids) [] = fault
write_ids (suc n) (i ∷ ids) (d ∷ dest) = do rest ← write_ids n ids dest; ok (i ∷ rest)

-- A head with the memory behind it, which `broadcast_ids` names.
pub record Packet : Type 0 where
  pub head : ProtocolCmd
  pub tail : List ℕ

-- A null `broadcast_ids` writes no id.
abbrev pub write_given_ids : ℕ → Option (List ℕ) → List ℕ → Run (List ℕ)
write_given_ids num none dest = ok dest
write_given_ids num (some ids) dest = write_ids num ids dest

abbrev pub set_num : ProtocolCmd → ℕ → ProtocolCmd
set_num h num = record h { broadcast_num = num % 256 }

-- `cmd_head`, `area` (the source's `data`) and `broadcast_ids` may be null. The results are the
-- memory at `cmd_head` and at `area`.
unfoldable pub set_pure_broadcast_field :
    Option Packet → Option (List ℕ) → ℕ → Option (List ℕ) → Run (Option Packet × Option (List ℕ))
unfolding write_ids
set_pure_broadcast_field (some p) none num ids = do
  tail ← write_given_ids num ids p.tail
  ok (some (record { head = set_num p.head num; tail = tail }), none)
set_pure_broadcast_field (some p) (some area) num ids = do
  area' ← write_given_ids num ids area
  ok (some (record p { head = set_num p.head num }), some area')
set_pure_broadcast_field none none num ids = ok (none, none)
set_pure_broadcast_field none (some area) num ids = do
  area' ← write_given_ids num ids area
  ok (none, some area')
