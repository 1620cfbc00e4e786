-- ===== src/Socket.antt =====
-- src/unix_socket.c and src/icehydra_util.c: the loops that receive and send on a socket that does
-- not block. A loop runs on fuel: each round either counts `times` down or moves bytes, so that
-- `times + len` rounds and one more are enough.
pub mod Recv
pub mod Send
pub mod RecvCmds
pub mod SendCmds
pub mod Outcomes
use icehydra.Prelude.{
  ℕ, zero, suc, ◌+◌, ◌-◌, ◌*◌, ◌<◌, ◌≡◌, Bool, true, false, Option, none, some, List, [], ◌∷◌, ◌++◌,
  ltb, ◌==◌, not, ◌||◌, if◌then◌else◌, length, take, drop, ℤ, pos, is_neg, is_pos, to_nat,
  minus_one,
}
use icehydra.Run.{Run, ok, fault, out_of_fuel, ◌>>=◌}
use icehydra.Kernel.{
  Kernel, Errno, is_transient, Received, got, recv_failed, Sent, sent, send_failed,
}
use icehydra.Wire.{head_len, decode}

-- `int times = 2000`
abbrev pub retries : ℕ
retries = 2000

-- What an error does in every loop: `if(!(times--)) break;`, then another round if it may pass.
-- `again` makes the round with the count that is left, `stop` leaves the loop.
abbrev pub on_error {ℓ} : {R : Type ℓ} → ℕ → Errno → (ℕ → R) → (ℕ → R) → R
on_error zero e again stop = stop 0
on_error (suc times) e again stop = if is_transient e then again times else stop times

-- The memory at a destination after its first bytes were written.
abbrev pub over : List ℕ → List ℕ → List ℕ
over bs buf = bs ++ drop (length bs) buf

module _ (k : Kernel) where
  open k use {World, recv, send}

  -- The bytes read so far, the retries left, and the world.
  abbrev pub RecvLoop : Type 0
  RecvLoop = List ℕ × ℕ × World

  after_recv :
      (ℕ → List ℕ → World → Run RecvLoop) → ℕ → ℕ → List ℕ → Received × World → Run RecvLoop
  after_recv again cap times acc (recv_failed e, w) =
      on_error times e (λ t. again t acc w) (λ t. ok (acc, t, w))
  after_recv again cap times acc (got [], w) = ok (acc, times, w)
  after_recv again cap times acc (got (b ∷ bs), w) =
      if ltb cap (length (acc ++ b ∷ bs)) then fault else again times (acc ++ b ∷ bs) w

  -- `for (totallen = 0; totallen < len; )` with recv; `acc` is what stands at the destination, which
  -- has room for `cap` bytes. The writes of a call that passes the end are a fault.
  pub recv_loop : ℕ → ℕ → ℕ → ℕ → ℕ → List ℕ → World → Run RecvLoop
  unfolding after_recv
  recv_loop fd cap len zero times acc w = out_of_fuel
  recv_loop fd cap len (suc fuel) times acc w = elim (ltb (length acc) len) [
    | true ↦ after_recv (recv_loop fd cap len fuel) cap times acc (recv fd (len - length acc) w)
    | false ↦ ok (acc, times, w)
  ]

  -- The result, the memory at `cmd_head` and at `area` (the source's `data`), and the world.
  abbrev pub RecvCmd : Type 0
  RecvCmd = ℤ × Option (List ℕ) × Option (List ℕ) × World

  recv_body : ℕ → List ℕ → List ℕ → RecvLoop → Run RecvCmd
  unfolding recv_loop
  recv_body fd head area (bs, times, w) =
      let head' = over bs head in
      if not (length bs == head_len) then ok (minus_one, some head', some area, w) else do
        let bodylen = (decode head').bodylen
        (body, t, w') ← recv_loop fd (length area) bodylen (times + bodylen + 1) times [] w
        ok (
          if length body == bodylen then pos 0 else minus_one,
          some head',
          some (over body area),
          w',
        )

  unfoldable pub tcp_recv_protocol_cmd : ℤ → Option (List ℕ) → Option (List ℕ) → World → Run RecvCmd
  unfolding recv_loop recv_body
  tcp_recv_protocol_cmd sockfd none area w = ok (pos 0, none, area, w)
  tcp_recv_protocol_cmd sockfd (some head) none w = ok (pos 0, some head, none, w)
  tcp_recv_protocol_cmd sockfd (some head) (some area) w =
      if is_neg sockfd
      then ok (pos 0, some head, some area, w)
      else recv_loop (to_nat sockfd) (length head) head_len (retries + head_len + 1) retries [] w
        >>= recv_body (to_nat sockfd) head area

  -- The bytes sent so far, the retries left, and the world.
  abbrev pub SendLoop : Type 0
  SendLoop = ℕ × ℕ × World

  unfoldable pub after_send : (ℕ → ℕ → World → Run SendLoop) → ℕ → ℕ → Sent × World → Run SendLoop
  after_send again times total (send_failed e, w) =
      on_error times e (λ t. again t total w) (λ t. ok (total, t, w))
  after_send again times total (sent zero, w) = ok (total, times, w)
  after_send again times total (sent (suc n), w) = again times (total + suc n) w

  -- `for (totallen = 0; totallen < len; )` with send. A read past the end of `area` is a fault.
  unfoldable pub send_loop : ℕ → List ℕ → ℕ → ℕ → ℕ → ℕ → World → Run SendLoop
  unfolding after_send
  send_loop fd area len zero times total w = out_of_fuel
  send_loop fd area len (suc fuel) times total w = elim (ltb total len) [
    | true ↦
        if ltb (length area) len
        then fault
        else after_send (send_loop fd area len fuel) times total
            (send fd (take (len - total) (drop total area)) w)
    | false ↦ ok (total, times, w)
  ]

  unfoldable pub send_body : ℕ → List ℕ → List ℕ → SendLoop → Run (ℤ × World)
  unfolding send_loop
  send_body fd head area (total, times, w) =
      if not (total == head_len) then ok (minus_one, w) else do
        let bodylen = (decode head).bodylen
        (n, t, w') ← send_loop fd area bodylen (times + bodylen + 1) times 0 w
        ok (if n == bodylen then pos 0 else minus_one, w')

  unfoldable pub tcp_send_protocol_cmd :
      ℤ → Option (List ℕ) → Option (List ℕ) → World → Run (ℤ × World)
  unfolding send_loop send_body
  tcp_send_protocol_cmd sockfd none area w = ok (pos 0, w)
  tcp_send_protocol_cmd sockfd (some head) none w = ok (pos 0, w)
  tcp_send_protocol_cmd sockfd (some head) (some area) w =
      if is_neg sockfd
      then ok (pos 0, w)
      else send_loop (to_nat sockfd) head head_len (retries + head_len + 1) retries 0 w
        >>= send_body (to_nat sockfd) head area

  unfoldable pub tcp_send_noblock : ℤ → Option (List ℕ) → ℤ → World → Run (ℤ × World)
  unfolding send_loop
  tcp_send_noblock sockfd none len w = ok (pos 0, w)
  tcp_send_noblock sockfd (some area) len w =
      if not (is_pos len) || is_neg sockfd then ok (pos 0, w) else do
        (n, t, w') ←
            send_loop (to_nat sockfd) area (to_nat len) (retries + to_nat len + 1) retries 0 w
        ok (if n == to_nat len then pos 0 else minus_one, w')

  unfoldable pub tcp_recv_noblock :
      ℤ → Option (List ℕ) → ℤ → World → Run (ℤ × Option (List ℕ) × World)
  unfolding recv_loop
  tcp_recv_noblock sockfd none len w = ok (pos 0, none, w)
  tcp_recv_noblock sockfd (some area) len w =
      if not (is_pos len) || is_neg sockfd then ok (pos 0, some area, w) else do
        (bs, t, w') ←
            recv_loop (to_nat sockfd) (length area) (to_nat len) (retries + to_nat len + 1) retries
              [] w
        ok (if length bs == to_nat len then pos 0 else minus_one, some (over bs area), w')
