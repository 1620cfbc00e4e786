-- ===== src/Client.antt =====
-- icehydra.c: the library that the processes link to. Its one variable, `client_connfd`, is passed
-- in and out.
pub mod Send
pub mod Recv
pub mod Shm
pub mod Infos
use icehydra.Prelude.{
  ℕ, zero, suc, ◌+◌, ◌*◌, ◌-◌, ◌/◌, ◌<◌, Bool, true, false, ◌&&◌, not, Option, none, some, List, [],
  ◌∷◌, ◌++◌, ltb, ◌==◌, if◌then◌else◌, length, replicate, ℤ, pos, negsuc, minus_one, is_neg, is_pos,
  to_nat,
}
use icehydra.Run.{Run, ok, fault, out_of_fuel, ◌>>=◌}
use icehydra.Kernel.{Kernel}
use icehydra.Wire.{
  ProtocolCmd, Packet, encode, decode, zero_cmd, head_len, round4, set_pure_protocol_head,
  set_broadcast_cmd_head, set_pure_broadcast_field, send_reserve, cmd_default, cmd_get_shm_info,
  cmd_get_shm_num,
}
use icehydra.Socket.{tcp_send_noblock, tcp_send_protocol_cmd, tcp_recv_protocol_cmd}
use icehydra.Traces.{trace}
use icehydra.Node.{ShmNode, str_same}

-- IH_BROADCAST_CMD_T; the counts are not negative.
pub record IhBroadcastCmd : Type 0 where
  pub area : Option (List ℕ)
  pub br_ids : Option (List ℕ)
  pub br_num : ℕ
  pub datalen : ℕ

-- `uint8_t cmd_head[64] = {0}`
abbrev pub cleared : Packet
cleared = record { head = zero_cmd; tail = replicate 56 0 }

abbrev pub bytes : Packet → List ℕ
bytes p = encode p.head ++ p.tail

-- The sum of two results that are 0 or -1.
abbrev pub add_results : ℤ → ℤ → ℤ
add_results (pos a) (pos b) = pos (a + b)
add_results (pos zero) (negsuc b) = negsuc b
add_results (pos (suc a)) (negsuc b) = if ltb b (suc a) then pos (a - b) else negsuc (b - suc a)
add_results (negsuc a) (pos zero) = negsuc a
add_results (negsuc a) (pos (suc b)) = if ltb a (suc b) then pos (b - a) else negsuc (a - suc b)
add_results (negsuc a) (negsuc b) = negsuc (suc (a + b))

-- What ih_send_broadcast_data builds in `cmd_head`.
pub broadcast_packet : IhBroadcastCmd → Run (Option Packet)
unfolding set_broadcast_cmd_head set_pure_broadcast_field
broadcast_packet cmd = do
  (p, none_used) ←
      set_pure_broadcast_field
        (some (record cleared {
          head = set_broadcast_cmd_head zero_cmd (pos cmd.datalen) (pos cmd_default) cmd.br_num;
        }))
        none cmd.br_num cmd.br_ids
  ok p

abbrev packet_bytes : Option Packet → Option (List ℕ)
packet_bytes none = none
packet_bytes (some p) = some (bytes p)

module _ (k : Kernel) where
  open k use {World, close}

  -- close_s(client_connfd)
  abbrev pub close_s : ℤ → World → ℤ × World
  close_s fd w = (minus_one, if is_pos fd then close (to_nat fd) w else w)

  -- The result, and `client_connfd` afterwards.
  pub ih_send_broadcast_data : ℤ → IhBroadcastCmd → World → Run (ℤ × ℤ × World)
  unfolding broadcast_packet
  ih_send_broadcast_data client_connfd cmd w =
      if is_neg client_connfd then ok (minus_one, client_connfd, w) else do
        p ← broadcast_packet cmd
        (a, w1) ←
            tcp_send_noblock k client_connfd (packet_bytes p) (pos (head_len + round4 cmd.br_num)) w
        (b, w2) ← tcp_send_noblock k client_connfd cmd.area (pos cmd.datalen) w1
        let ret = add_results a b
        let (fd, w3) = close_s client_connfd w2
        ok (if is_neg ret then (ret, fd, w3) else (ret, client_connfd, w2))

  unfoldable pub ih_send_get_shm_ids_cmd : ℤ → World → Run (ℤ × World)
  ih_send_get_shm_ids_cmd client_connfd w =
      if is_neg client_connfd
      then ok (minus_one, w)
      else tcp_send_protocol_cmd k client_connfd
          (some (
            encode
              (set_pure_protocol_head zero_cmd (pos 0) (pos send_reserve) (pos cmd_get_shm_info))))
          (some (replicate 56 0)) w

  -- The result, the memory at `area` (the source's `data`), `*datalen`, `client_connfd`.
  unfoldable pub ih_recv_data : ℤ → List ℕ → ℕ → World → Run (ℤ × List ℕ × ℕ × ℤ × World)
  unfolding trace
  ih_recv_data client_connfd area datalen w =
      if is_neg client_connfd then ok (minus_one, area, datalen, client_connfd, w) else do
        (ret, head, area', w1) ←
            tcp_recv_protocol_cmd k client_connfd (some (replicate head_len 0)) (some area) w
        let h : ProtocolCmd = elim head [ none ↦ zero_cmd | some bs ↦ decode bs ]
        let got : List ℕ = elim area' [ none ↦ [] | some bs ↦ bs ]
        let (fd, w2) = close_s client_connfd w1
        let result = if h.cmdid == cmd_get_shm_info then pos cmd_get_shm_info else pos 0
        if is_neg ret
            then ok (minus_one, got, 0, fd, w2)
            else (do printed ← trace h got; ok (result, got, h.bodylen, client_connfd, w1))

-- The search of ih_get_shm_by_name: the entry whose id it goes on with, -1 at an entry with an empty
-- name, and a fault past the end of the buffer.
pub find_shm : List ShmNode → List ℕ → Run (Option ShmNode)
find_shm [] name = fault
find_shm (n ∷ ns) name =
    if str_same name n.shm_name && length name == length n.shm_name
    then ok (some n)
    else if length n.shm_name == 0
    then ok none
    else find_shm ns name
