-- ===== src/Client/Infos.antt =====
-- icehydra.c: ih_select_recv_ready, ih_get_shm_infos, ih_get_shm_by_id and ih_get_shm_by_name. The
-- two loops of ih_get_shm_infos run until an answer comes, and so on fuel that the caller gives.
pub mod Closed
pub mod Attach
pub mod Answered
pub mod Entries
pub mod Found
pub mod Named
use icehydra.Prelude.{
  ℕ, zero, suc, ◌+◌, ◌*◌, ◌-◌, ◌/◌, Bool, true, false, Option, none, some, List, [], ◌∷◌, ltb, ◌==◌,
  if◌then◌else◌, replicate, ℤ, pos, negsuc, minus_one, is_neg, to_nat, eqb_ℤ,
}
use icehydra.Run.{Run, ok, fault, out_of_fuel, ◌>>=◌}
use icehydra.Kernel.{Kernel, Selected, select_failed, timed_out, ready}
use icehydra.Wire.{
  ProtocolCmd, encode, decode, zero_cmd, head_len, byte_at, set_pure_protocol_head, send_reserve,
  cmd_get_shm_info, cmd_get_shm_num,
}
use icehydra.Socket.{tcp_send_protocol_cmd, tcp_recv_protocol_cmd}
use icehydra.Node.{ShmNode}
use icehydra.Node.Entries.{signed, entries_in}
use icehydra.Storage.{Storage}
use icehydra.Shm.{shm_mmap}
use icehydra.Broker.Loop.{fd_isset, bytes_of}
use icehydra.Broker.Reserve.{shm_node_size}
use icehydra.Client.{ih_send_get_shm_ids_cmd, ih_recv_data, find_shm}

-- ih_recvIsShmIDs
abbrev pub ih_recv_is_shm_ids : ℤ → Bool
ih_recv_is_shm_ids ret = eqb_ℤ (pos cmd_get_shm_info) ret

abbrev pub is_ready : ℕ → Selected → Bool
is_ready fd select_failed = false
is_ready fd timed_out = false
is_ready fd (ready rset) = fd_isset (pos fd) rset

-- `uint8_t wbuf[64]` behind its head
abbrev pub wbuf_area : List ℕ
wbuf_area = replicate 56 0

module _ (k : Kernel) where
  open k use {World, select}

  -- With the timeout of a second that ih_get_shm_infos gives.
  pub ih_select_recv_ready : ℤ → World → Bool × World
  ih_select_recv_ready (negsuc n) w = (false, w)
  ih_select_recv_ready (pos fd) w =
      let (answer, w') = select (fd + 1) (fd ∷ []) w in (is_ready fd answer, w')

  -- The first loop: messages are dropped until the number of memories comes, or none for -1.
  pub await_num : ℕ → ℤ → World → Run (Option ℕ × World)
  await_num zero client_connfd w = out_of_fuel
  await_num (suc fuel) client_connfd w = do
    (ret, head, area, w') ←
        tcp_recv_protocol_cmd k client_connfd (some (replicate head_len 0)) (some wbuf_area) w
    elim (is_neg ret) [
      | true ↦ ok (none, w')
      | false ↦ elim ((decode (bytes_of head)).cmdid == cmd_get_shm_num) [
        | true ↦ ok (some (byte_at (bytes_of area) 0), w')
        | false ↦ await_num fuel client_connfd w'
      ]
    ]

  -- `buffer`, `datalen`, `client_connfd` and the world.
  abbrev pub Infos : Type 0
  Infos = List ℕ × ℕ × ℤ × World

  -- A pass of the second loop, up to its condition.
  pub receive_infos : ℤ → Infos → Run (ℤ × List ℕ × ℕ × ℤ × World)
  unfolding ih_select_recv_ready
  receive_infos ret (buffer, datalen, client_connfd, w) =
      let (is_set, w') = ih_select_recv_ready client_connfd w in
      if is_set
      then ih_recv_data k client_connfd buffer datalen w'
      else ok (ret, buffer, datalen, client_connfd, w')

  -- The second loop: until the answer with the memories comes.
  pub await_infos : ℕ → ℤ → Infos → Run Infos
  unfolding receive_infos
  await_infos zero ret st = out_of_fuel
  await_infos (suc fuel) ret st = do
    (ret', buffer, datalen, fd, w) ← receive_infos ret st
    elim (ih_recv_is_shm_ids ret') [
      | true ↦ ok (buffer, datalen, fd, w)
      | false ↦ await_infos fuel ret' (buffer, datalen, fd, w)
    ]

  -- The result, the buffer, `client_connfd` and the world; `buffersize` is not negative.
  abbrev pub InfosResult : Type 0
  InfosResult = ℤ × List ℕ × ℤ × World

  after_num : ℕ → ℤ → List ℕ → ℕ → Option ℕ × World → Run InfosResult
  unfolding await_infos
  after_num fuel client_connfd buffer buffersize (none, w) =
      ok (minus_one, buffer, client_connfd, w)
  after_num fuel client_connfd buffer buffersize (some shm_num, w) =
      if ltb buffersize (shm_node_size * shm_num)
      then ok (minus_one, buffer, client_connfd, w)
      else if shm_num == 0
      then ok (pos 0, buffer, client_connfd, w)
      else (do
        (ret, w1) ← ih_send_get_shm_ids_cmd k client_connfd w
        if is_neg ret then ok (ret, buffer, client_connfd, w1) else (do
          (buffer', datalen, fd, w2) ← await_infos fuel ret (buffer, 0, client_connfd, w1)
          ok (pos (datalen / shm_node_size), buffer', fd, w2)))

  unfoldable pub ih_get_shm_infos : ℕ → ℤ → List ℕ → ℕ → World → Run InfosResult
  unfolding await_num after_num
  ih_get_shm_infos fuel client_connfd buffer buffersize w =
      if is_neg client_connfd then ok (minus_one, buffer, client_connfd, w) else (do
        (ret, w1) ←
            tcp_send_protocol_cmd k client_connfd
              (some (
                encode (
                  set_pure_protocol_head zero_cmd (pos 0) (pos send_reserve)
                    (pos cmd_get_shm_num))))
              (some wbuf_area) w
        found ← await_num fuel client_connfd w1
        after_num fuel client_connfd buffer buffersize found)

module _ (s : Storage) where
  -- The size, `*ptr` and the world.
  pub ih_get_shm_by_id : ℤ → s.World → ℤ × Option ℕ × s.World
  ih_get_shm_by_id shm_id w =
      let (shm, w') =
        shm_mmap s
          (record { size = pos 0; proj_id = pos 0; id = shm_id; filename = []; mem_ptr = none })
          w in
      (shm.size, shm.mem_ptr, w')

  -- In the memory at `infobuf`. -1 leaves `*ptr` alone.
  pub ih_get_shm_by_name : List ℕ → List ℕ → Option ℕ → s.World → Run (ℤ × Option ℕ × s.World)
  unfolding ih_get_shm_by_id
  ih_get_shm_by_name infobuf name ptr w = do
    found ← find_shm (entries_in infobuf) name
    ok (elim found [ none ↦ (minus_one, ptr, w) | some n ↦ ih_get_shm_by_id (signed n.shm_id) w ])
