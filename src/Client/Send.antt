-- ===== src/Client/Send.antt =====
-- ih_send_broadcast_data puts one message on the stream: a head that counts ids and bytes, the ids
-- with their padding, and the data.
use icehydra.Prelude.{
  ℕ, zero, suc, ◌+◌, ◌-◌, ◌≤◌, ◌<◌, ◌≡◌, refl, sym, ap, ◌∙◌, true, if◌then◌else◌, ◌⊎◌, inl, inr,
  some, List, [], ◌++◌, append_assoc, append-nil, arith, length, length-append, length-take,
  length-drop, take, drop, replicate, take-append_more, take-replicate, drop-replicate, ℤ, pos,
  minus_one, is_neg,
}
use mathlib.Core.Path.{ap₂}
use icehydra.Run.{Run, ok, fault, Ends, returned}
use icehydra.Run
use icehydra.Kernel.{Kernel}
use icehydra.Kernel.Stream.{IsStream, Accepts}
use icehydra.Wire.{
  Packet, encode, zero_cmd, head_len, round4, send_parallel, cmd_default, set_pure_broadcast_field,
}
use icehydra.Wire.Layout.{length-encode}
use icehydra.Wire.Padding.{round4-least}
use icehydra.Wire.Head.{fresh_cmd, set_broadcast_cmd_head-given}
use icehydra.Wire.Ids.{write_ids-ok, write_ids-fault}
use icehydra.Socket.{tcp_send_noblock}
use icehydra.Socket.SendCmds.{Delivered, tcp_send_noblock-Delivered}
use icehydra.Client.{
  IhBroadcastCmd, bytes, add_results, close_s, broadcast_packet, ih_send_broadcast_data,
}

-- The ids of a message, filled up with zeros to a multiple of four.
abbrev pub padded : ℕ → List ℕ → List ℕ
padded num ids = take num ids ++ replicate (round4 num - num) 0

-- A client's message for `num` processes, with `n` bytes of data.
abbrev pub client_message : ℕ → List ℕ → ℕ → List ℕ → List ℕ
client_message num ids n area =
    encode (fresh_cmd (n + round4 num) send_parallel cmd_default num)
    ++ (padded num ids ++ take n area)

abbrev pub filled : ℕ → List ℕ → ℕ → Packet
filled num ids n = record {
  head = fresh_cmd (n + round4 num) send_parallel cmd_default num;
  tail = take num ids ++ drop num (replicate 56 0);
}

abbrev pub broadcast_to : ℕ → List ℕ → ℕ → List ℕ → IhBroadcastCmd
broadcast_to num ids n area = record {
  area = some area;
  br_ids = some ids;
  br_num = num;
  datalen = n;
}

broadcast_packet-filled :
    (num : ℕ) (ids : List ℕ) (n : ℕ) (area : List ℕ)
    → num ≤ length ids
    → num ≤ 56
    → n + round4 num < 65536
    → broadcast_packet (broadcast_to num ids n area) ≡ ok (some (filled num ids n))
unfolding broadcast_packet
broadcast_packet-filled num ids n area h g fits = rw (
  set_broadcast_cmd_head-given zero_cmd n cmd_default num fits (omega arith) (omega arith),
  write_ids-ok num ids (replicate 56 0) h (omega arith),
)

-- More ids than the buffer of 64 bytes has room for: the write runs past its end.
pub broadcast_packet-fault :
    (num : ℕ) (ids : List ℕ) (n : ℕ) (area : List ℕ)
    → 56 < num
    → broadcast_packet (broadcast_to num ids n area) ≡ fault
unfolding broadcast_packet set_pure_broadcast_field
broadcast_packet-fault num ids n area h =
    rw (write_ids-fault num ids (replicate 56 0) (omega arith))

-- The head and the ids, of which the first `send` takes no more than the message wants.
take-filled :
    (num : ℕ) (ids : List ℕ) (n : ℕ)
    → num ≤ length ids
    → num ≤ 56
    → take (head_len + round4 num) (bytes (filled num ids n))
      ≡ encode (fresh_cmd (n + round4 num) send_parallel cmd_default num) ++ padded num ids
take-filled num ids n h g =
    let head = fresh_cmd (n + round4 num) send_parallel cmd_default num in
    let room : List ℕ = replicate 56 0 in
    let up = round4-least num in
    let front : take (round4 num) (take num ids ++ drop num room) ≡ padded num ids =
      take-append_more (take num ids) (drop num room) (round4 num) (round4 num - num)
        (omega (arith, length-take num ids, up))
      ∙ ap (λ (x : List ℕ). take num ids ++ take (round4 num - num) x) (drop-replicate num 56 0)
      ∙ ap (◌++◌ (take num ids))
          (take-replicate (round4 num - num) (56 - num) 0 (omega (arith, up))) in
    take-append_more (encode head) (take num ids ++ drop num room) (head_len + round4 num)
      (round4 num) (omega (arith, length-encode head))
    ∙ ap (◌++◌ (encode head)) front

module _ (k : Kernel) (s : IsStream k) where
  open s use {output}

  -- The result, what was written, and what becomes of the connection.
  abbrev pub SentMessage : ℕ → List ℕ → k.World → ℤ × ℤ × k.World → Type 0
  SentMessage fd msg w (ret, fd', w') =
      ((ret ≡ pos 0) × (fd' ≡ pos fd) × (output fd w' ≡ output fd w ++ msg))
      ⊎ ((fd' ≡ minus_one) × (is_neg ret ≡ true) × (¬ Accepts k fd))

  -- Sending a count of zero is no call at all.
  send_any-Delivered :
      (fd n : ℕ) (area : List ℕ) (w : k.World)
      → n ≤ length area
      → Ends ⊥
          (Delivered k s fd (take n area) w)
          (tcp_send_noblock k (pos fd) (some area) (pos n) w)
  unfolding tcp_send_noblock
  send_any-Delivered fd zero area w h =
      returned ([], sym (append-nil _), inl (refl, refl), λ g x. refl, λ a. refl)
  send_any-Delivered fd (suc n) area w h =
      Run.mono (tcp_send_noblock-Delivered k s fd (suc n) area w (omega arith)) (λ x. omega arith)
        (λ r p. p)

  failed : (ret : ℤ) → ret ≡ pos 0 → ret ≡ minus_one → ⊥
  failed ret z z' = ground arith

  both-SentMessage :
      (fd : ℕ) (front back msg : List ℕ) (w w1 : k.World) (a : ℤ) (r : ℤ × k.World)
      → front ++ back ≡ msg
      → Delivered k s fd front w (a, w1)
      → Delivered k s fd back w1 r
      → SentMessage fd msg w (
          if is_neg (add_results a r.0)
          then (add_results a r.0, (close_s k (pos fd) r.1).0, (close_s k (pos fd) r.1).1)
          else (add_results a r.0, pos fd, r.1))
  both-SentMessage fd front back msg w w1 a (b, w2) same (x, o, inl (z, e), q, all)
        (y, o', inl (z', e'), q', all') =
      rw (z, z')
        (inl (
          refl,
          refl,
          o'
              ∙ ap (λ v. v ++ y) o
              ∙ append_assoc (output fd w) x y
              ∙ ap₂ (λ u v. output fd w ++ (u ++ v)) e e'
              ∙ ap (◌++◌ (output fd w)) same,
        ))
  both-SentMessage fd front back msg w w1 a (b, w2) same (x, o, inl (z, e), q, all)
        (y, o', inr (z', e'), q', all') =
      rw (z, z') (inr (refl, refl, λ t. failed b (all' t) z'))
  both-SentMessage fd front back msg w w1 a (b, w2) same (x, o, inr (z, e), q, all)
        (y, o', inl (z', e'), q', all') =
      rw (z, z') (inr (refl, refl, λ t. failed a (all t) z))
  both-SentMessage fd front back msg w w1 a (b, w2) same (x, o, inr (z, e), q, all)
        (y, o', inr (z', e'), q', all') =
      rw (z, z') (inr (refl, refl, λ t. failed b (all' t) z'))

  -- A message of up to 56 ids, with the ids and data that it counts and a length that fits 16 bits,
  -- goes to the broker as laid out, with result 0, or the connection is closed, with a result below
  -- 0, and the descriptor did not accept all that it was given. The call ends within its fuel and stays within its buffers.
  pub ih_send_broadcast_data-SentMessage :
      (fd num n : ℕ) (ids area : List ℕ) (w : k.World)
      → num ≤ length ids
      → num ≤ 56
      → n ≤ length area
      → n + round4 num < 65536
      → Ends ⊥
          (SentMessage fd (client_message num ids n area) w)
          (ih_send_broadcast_data k (pos fd) (broadcast_to num ids n area) w)
  unfolding ih_send_broadcast_data
  ih_send_broadcast_data-SentMessage fd num n ids area w h g room fits =
      let head = fresh_cmd (n + round4 num) send_parallel cmd_default num in
      let buf = filled num ids n in
      let up = round4-least num in
      let long : head_len + round4 num ≤ length (bytes buf) = omega (
        arith,
        length-encode head,
        length-append (encode head) buf.tail,
        length-append (take num ids) (drop num (replicate 56 0)),
        length-take num ids,
        length-drop {A = ℕ} num (replicate 56 0),
        up,
      ) in
      let layout : take (head_len + round4 num) (bytes buf) ++ take n area
          ≡ client_message num ids n area =
        ap (λ x. x ++ take n area) (take-filled num ids n h g)
        ∙ append_assoc (encode head) (padded num ids) (take n area) in
      rw (broadcast_packet-filled num ids n area h g fits) (
        Run.bind (send_any-Delivered fd (head_len + round4 num) (bytes buf) w long) λ (a, w1) p.
          Run.bind (send_any-Delivered fd n area w1 room) λ r q. returned (
            both-SentMessage fd (take (head_len + round4 num) (bytes buf)) (take n area) _ w w1 a r
              layout p q))
