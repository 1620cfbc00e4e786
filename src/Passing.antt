-- ===== src/Passing.antt =====
-- src/unix_socket.c: a descriptor or an error number is passed over a unix socket.
pub mod Receive
pub mod Errors
use icehydra.Prelude.{
  ℕ, zero, suc, ◌+◌, ◌-◌, ◌%◌, Bool, true, false, not, Option, none, some, List, [], ◌∷◌, ltb, ◌==◌,
  if◌then◌else◌, length, get_elem?, replicate, ℤ, pos, negsuc, minus_one, is_neg, to_nat, neg,
  eqb_ℤ,
}
use icehydra.Run.{Run, ok, fault, out_of_fuel, ◌>>=◌}
use icehydra.Kernel.{Kernel}
use icehydra.Kernel.Unix.{Message, Unix}
use icehydra.Socket.{over, tcp_send_noblock}

-- `buf[1] = -fd_to_send; if(buf[1] == 0) buf[1] = 1;`
abbrev pub error_code : ℕ → ℕ
error_code n = if suc n % 256 == 0 then 1 else suc n % 256

-- The message that send_fd_unix_domain builds.
abbrev pub fd_message : ℤ → Message
fd_message (pos fd) = record { bytes = 0 ∷ 0 ∷ []; rights = some (pos fd) }
fd_message (negsuc n) = record { bytes = 0 ∷ error_code n ∷ []; rights = none }

-- sizeof(buf) in recv_fd_unix_domain
abbrev pub recv_room : ℕ
recv_room = 128

-- `for(ptr=buf;ptr<&buf[nr];)`: behind a zero byte stands the status. The result is `newfd`, if it was
-- set; `control` is the descriptor that came with the message. The pointer goes on in each round, so
-- that as many rounds as bytes, and one, are enough.
unfoldable pub scan : ℕ → List ℕ → ℤ → ℕ → ℕ → Option ℤ → Run (Option ℤ)
scan zero buf control ptr nr newfd = out_of_fuel
scan (suc fuel) buf control ptr nr newfd = elim (ltb ptr nr) [
  | false ↦ ok newfd
  | true ↦ elim (get_elem? buf ptr) [
    | none ↦ fault
    | some b ↦ elim (b == 0) [
      | false ↦ scan fuel buf control (ptr + 1) nr newfd
      | true ↦ elim (get_elem? buf (ptr + 1)) [
        | none ↦ fault
        | some status ↦
            scan fuel buf control (ptr + 1) (nr - 2)
              (some (if status == 0 then control else neg (pos status)))
      ]
    ]
  ]
]

abbrev pub given_rights : Option ℤ → ℤ → ℤ
given_rights none control = control
given_rights (some fd) control = fd

module _ (k : Kernel) (u : Unix k) where
  open k use {World}

  unfoldable pub send_fd_unix_domain : ℤ → ℤ → World → ℤ × World
  send_fd_unix_domain sockfd fd_to_send w =
      if is_neg sockfd
      then (minus_one, w)
      else let (ret, w') = u.sendmsg (to_nat sockfd) (fd_message fd_to_send) w in
        (if eqb_ℤ ret (pos 2) then pos 0 else minus_one, w')

  unfoldable pub send_errno_unix_domain : ℤ → ℤ → List ℕ → World → Run (ℤ × World)
  unfolding send_fd_unix_domain
  send_errno_unix_domain sockfd errcode msg w =
      if not (is_neg errcode) then ok (minus_one, w) else do
        (sent, w1) ←
            (if ltb 0 (length msg)
              then tcp_send_noblock k sockfd (some msg) (pos (length msg)) w
              else ok (pos (length msg), w))
        if not (eqb_ℤ sent (pos (length msg)))
            then ok (minus_one, w1)
            else (let (ret, w2) = send_fd_unix_domain sockfd errcode w1 in
                ok (if is_neg ret then minus_one else pos 0, w2))

  -- `for(;;)`; the buffer and the ancillary data stay from one message to the next.
  unfoldable pub recv_messages : ℕ → ℤ → List ℕ → ℤ → World → Run (ℤ × World)
  unfolding scan
  recv_messages zero sockfd buf control w = out_of_fuel
  recv_messages (suc fuel) sockfd buf control w =
      let (answer, w') = u.recvmsg sockfd recv_room w in
      elim answer [
        | none ↦ ok (minus_one, w')
        | some msg ↦ elim (length msg.bytes == 0) [
          | true ↦ ok (minus_one, w')
          | false ↦ elim (ltb recv_room (length msg.bytes)) [
            | true ↦ fault
            | false ↦ do
              newfd ←
                  scan (length msg.bytes + 1) (over msg.bytes buf) (given_rights msg.rights control)
                    0 (length msg.bytes) none
              elim newfd [
                | some fd ↦ ok (fd, w')
                | none ↦
                    recv_messages fuel sockfd (over msg.bytes buf) (given_rights msg.rights control)
                      w'
              ]
          ]
        ]
      ]

  unfoldable pub recv_fd_unix_domain : ℕ → ℤ → World → Run (ℤ × World)
  unfolding recv_messages
  recv_fd_unix_domain fuel sockfd w = recv_messages fuel sockfd (replicate recv_room 0) (pos 0) w
