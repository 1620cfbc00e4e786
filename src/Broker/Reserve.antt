-- ===== src/Broker/Reserve.antt =====
-- parser_reserve_cmd of src/conf.c: the broker's answers about shared memory.
pub mod Answers
use icehydra.Prelude.{
  ℕ, ◌*◌, ◌%◌, ◌-◌, Option, none, some, List, ◌∷◌, ◌==◌, if◌then◌else◌, replicate, ℤ, pos,
}
use mathlib.Core.Option
use icehydra.Run.{Run, ok}
use icehydra.Kernel.{Kernel}
use icehydra.Wire.{
  ProtocolCmd, encode, zero_cmd, head_len, set_pure_protocol_head, cmd_get_shm_info,
  cmd_get_shm_num,
}
use icehydra.Socket.{tcp_send_protocol_cmd}
use icehydra.Node.{PubSubNode, encode_shms}

-- sizeof(SHM_NODE_T)
abbrev pub shm_node_size : ℕ
shm_node_size = 40

-- `uint8_t buf[2000]`
abbrev buf_len : ℕ
buf_len = 2000

-- The answer's head and the memory that its body is sent from.
pub reserve_reply : PubSubNode → ℕ → Option (ProtocolCmd × Option (List ℕ))
unfolding set_pure_protocol_head encode_shms
reserve_reply node_start cmdid =
    if cmdid == cmd_get_shm_info
    then some (
      set_pure_protocol_head zero_cmd (pos (shm_node_size * node_start.shm_node_num)) (pos 0)
          (pos cmd_get_shm_info),
      Option.map encode_shms node_start.shm_nodes,
    )
    else if cmdid == cmd_get_shm_num
    then some (
      set_pure_protocol_head zero_cmd (pos 1) (pos 0) (pos cmd_get_shm_num),
      some ((node_start.shm_node_num % 256) ∷ replicate (buf_len - head_len - 1) 0),
    )
    else none

module _ (k : Kernel) where
  open k use {World}

  unfoldable pub parser_reserve_cmd :
      PubSubNode → PubSubNode → ProtocolCmd → World → Run (ℤ × World)
  unfolding reserve_reply
  parser_reserve_cmd node_start current_node cmd w = elim (reserve_reply node_start cmd.cmdid) [
    | none ↦ ok (pos 0, w)
    | some (head, sendbuf) ↦
        tcp_send_protocol_cmd k current_node.connfd (some (encode head)) sendbuf w
  ]
