-- ===== src/Wire/Head.antt =====
-- set_pure_protocol_head and set_broadcast_cmd_head of src/conf.c, on the arguments that the
-- program gives them.
use icehydra.Prelude.{ℕ, ◌+◌, ◌<◌, ◌≡◌, arith, pos, negsuc, minus_one}
use icehydra.Wire.{
  ProtocolCmd, send_parallel, round4, set_pure_protocol_head, set_broadcast_cmd_head,
}

-- The head that says `IH`, with nothing but these fields set.
abbrev pub fresh_cmd : ℕ → ℕ → ℕ → ℕ → ProtocolCmd
fresh_cmd bodylen send_type cmdid num = record {
  magic0 = b'I';
  magic1 = b'H';
  bodylen = bodylen;
  cmd_send_type = send_type;
  cmdid = cmdid;
  broadcast_num = num;
  pad = 0;
}

-- With all three arguments given nothing of the old head is left.
pub set_pure_protocol_head-given :
    (h : ProtocolCmd) (n t c : ℕ)
    → n < 65536
    → t < 256
    → c < 256
    → set_pure_protocol_head h (pos n) (pos t) (pos c) ≡ fresh_cmd n t c 0
unfolding set_pure_protocol_head
set_pure_protocol_head-given h n t c hn ht hc = ground arith

-- If the length of the body with room for the ids fits 16 bits, and the command and the number of
-- ids fit a byte: set_broadcast_cmd_head makes the head that says `IH` with these, for a parallel
-- command, and nothing of the old head is left. The room is the number of ids, rounded up to a
-- multiple of four.
pub set_broadcast_cmd_head-given :
    (h : ProtocolCmd) (n c num : ℕ)
    → n + round4 num < 65536
    → c < 256
    → num < 256
    → set_broadcast_cmd_head h (pos n) (pos c) num ≡ fresh_cmd (n + round4 num) send_parallel c num
unfolding set_broadcast_cmd_head
set_broadcast_cmd_head-given h n c num fits hc hn =
    ground (arith, set_pure_protocol_head-given h (n + round4 num) send_parallel c)

-- As the broker calls it, on a message whose ids it strips: the command stays.
pub set_broadcast_cmd_head-strip :
    (h : ProtocolCmd) (n : ℕ)
    → n < 65536
    → set_broadcast_cmd_head h (pos n) minus_one 0 ≡ record h {
      magic0 = b'I';
      magic1 = b'H';
      bodylen = n;
      cmd_send_type = send_parallel;
      broadcast_num = 0;
    }
unfolding set_broadcast_cmd_head round4
set_broadcast_cmd_head-strip h n fits = ground arith

-- A body length below zero is dropped, and the old one stays.
pub set_broadcast_cmd_head-negative :
    (h : ProtocolCmd) (n : ℕ)
    → (set_broadcast_cmd_head h (negsuc n) minus_one 0).bodylen ≡ h.bodylen
unfolding set_broadcast_cmd_head round4
set_broadcast_cmd_head-negative h n = ground arith
