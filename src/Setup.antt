-- ===== src/Setup.antt =====
-- src/unix_socket.c and icehydra.c: sockets are opened, bound to a path, and connected.
pub mod Connect
pub mod Ready
use icehydra.Prelude.{
  ℕ, zero, suc, ◌&&◌, ◌+◌, Bool, true, false, Option, none, some, List, [], ◌∷◌, ◌++◌, ltb, leb,
  ◌==◌, if◌then◌else◌, length, replicate, codes, ℤ, pos, minus_one, is_neg, is_pos, to_nat,
}
use icehydra.Run.{Run, ok, fault, ◌>>=◌}
use icehydra.Kernel.{Kernel, Received, got, recv_failed}
use icehydra.Kernel.Unix.{Unix}
use icehydra.Names.{name_prefix, sock_name_suffix, name_fix}
use icehydra.Client.{close_s}

-- sizeof(un.sun_path)
abbrev pub sun_path_len : ℕ
sun_path_len = 108

-- strcpy to sun_path, the final NUL included.
abbrev pub copy_path : List ℕ → Run (List ℕ)
copy_path name = if ltb (length name) sun_path_len then ok name else fault

-- 0666
abbrev pub open_mode : ℕ
open_mode = 438

-- CMD_ALL_CONNECT_OK
abbrev pub cmd_all_connect_ok : List ℕ
cmd_all_connect_ok = 73 ∷ 72 ∷ 0 ∷ 0 ∷ 1 ∷ 1 ∷ 0 ∷ 0 ∷ []

-- CMD_ALL_CONNECT_OK_LEN
abbrev pub cmd_all_connect_ok_len : ℕ
cmd_all_connect_ok_len = 8

-- isMemSameN, `!memcmp(a,b,N)`, on memory that has as many bytes
unfoldable pub is_mem_same_n : List ℕ → List ℕ → ℕ → Bool
is_mem_same_n a b zero = true
is_mem_same_n (x ∷ a) (y ∷ b) (suc n) = x == y && is_mem_same_n a b n
is_mem_same_n [] b (suc n) = false
is_mem_same_n (x ∷ a) [] (suc n) = false

-- What a client's wait leads to: it goes on, or the program ends.
pub data Waited : Type 0 where
  goes_on exits : Waited

-- The answer to a recv of CMD_ALL_CONNECT_OK_LEN bytes.
abbrev pub all_connected : Received → ℤ
all_connected (recv_failed e) = minus_one
all_connected (got buf) =
    if length buf == cmd_all_connect_ok_len
      && is_mem_same_n buf cmd_all_connect_ok cmd_all_connect_ok_len
    then pos 0
    else minus_one

module _ (k : Kernel) (u : Unix k) where
  open k use {World}

  unfoldable pub creat_bind_unix_tcp : List ℕ → World → Run (ℤ × World)
  creat_bind_unix_tcp name w = if ltb sun_path_len (length name) then ok (minus_one, w) else do
    path ← copy_path name
    let (fd, w1) = u.socket (u.unlink name w)
    if is_neg fd then ok (minus_one, w1) else (do
      let (ret, w2) = u.bind (to_nat fd) path w1
      ok (if is_neg ret then (minus_one, w2) else (fd, u.chmod path open_mode w2)))

  unfoldable pub listen_unix_tcp : ℤ → ℤ → World → ℤ × World
  listen_unix_tcp sockfd backlog w = u.listen sockfd backlog w

  unfoldable pub connect_unix_tcp : ℤ → List ℕ → World → Run (ℤ × World)
  connect_unix_tcp sockfd server_name w = if is_neg sockfd then ok (minus_one, w) else do
    path ← copy_path server_name
    let (ret, w1) = u.connect (to_nat sockfd) path w
    ok (if is_neg ret then minus_one else pos 0, w1)

  -- The result, which is also `client_connfd` from then on. `reserved` is that of name_fix.
  unfoldable pub ih_subscriber_create_connect : (ℕ → ℕ) → List ℕ → List ℕ → World → Run (ℤ × World)
  unfolding creat_bind_unix_tcp connect_unix_tcp name_fix
  ih_subscriber_create_connect reserved subscriber_name publisher_name w = do
    un_client_name ← name_fix reserved (some name_prefix) subscriber_name (some sock_name_suffix)
    un_server_name ← name_fix reserved (some name_prefix) publisher_name (some sock_name_suffix)
    (sockfd, w1) ← creat_bind_unix_tcp un_client_name w
    (ret, w2) ← connect_unix_tcp sockfd un_server_name w1
    ok (if is_neg ret then close_s k sockfd w2 else (sockfd, w2))

  unfoldable pub wait_all_unix_connet : ℤ → World → ℤ × World
  unfolding is_mem_same_n
  wait_all_unix_connet sockfd w =
      let (answer, w') = u.recv_all sockfd cmd_all_connect_ok_len w in (all_connected answer, w')

  unfoldable pub ih_wait_other_process : ℤ → World → Waited × World
  unfolding wait_all_unix_connet
  ih_wait_other_process client_connfd w =
      let (ret, w') = wait_all_unix_connet client_connfd w in
      (if is_neg ret then exits else goes_on, w')
