-- ===== src/Client/Infos/Answered.antt =====
-- ih_get_shm_infos of icehydra.c, when the broker answers: messages that came before are dropped, and
-- the buffer holds the entries of the configuration.
use icehydra.Prelude.{
  ℕ, zero, suc, ◌+◌, ◌≤◌, ◌<◌, ◌≡◌, ◌≢◌, refl, sym, ap, ◌∙◌, inl, inr, true, false, some, Option,
  List, [], ◌∷◌, ◌++◌, append_assoc, arith, ◌==◌, length, replicate, ℤ, pos,
}
use icehydra.Run.{Run, ok, Ends, returned}
use icehydra.Run
use icehydra.Kernel.{Kernel, ready}
use icehydra.Kernel.Stream.{IsStream, Accepts, Delivers}
use icehydra.Wire.{
  ProtocolCmd, encode, decode, byte_at, zero_cmd, head_len, set_pure_protocol_head, send_reserve,
  cmd_get_shm_num,
}
use icehydra.Wire.Layout.{decode-encode, length-encode, bodylen-encode}
use icehydra.Wire.Head.{fresh_cmd, set_pure_protocol_head-given}
use icehydra.Socket.{tcp_send_protocol_cmd}
use icehydra.Socket.SendCmds.{Short}
use icehydra.Socket.Outcomes.{tcp_send_protocol_cmd-SentAll, tcp_recv_protocol_cmd-TakenExactly}
use icehydra.Node.{PubSubNode}
use icehydra.Broker.Loop.{fd_isset, bytes_of}
use icehydra.Broker.Reserve.Answers.{answer}
use icehydra.Client.Infos.{await_num, wbuf_area}

-- A command to the broker.
abbrev pub request : ℕ → List ℕ
request cmdid = encode (set_pure_protocol_head zero_cmd (pos 0) (pos send_reserve) (pos cmdid))

-- The peer of a client is a broker with this start node: to a command that has been sent whole, what
-- comes next is its answer, as Relay/Answer shows of the broker's side. And select reports what waits.
pub record IsServed (k : Kernel) (s : IsStream k) (fd : ℕ) (start : PubSubNode) : Type 0 where
  pub served :
      (cmdid : ℕ) (w w' : k.World)
      → cmdid < 256
      → tcp_send_protocol_cmd k (pos fd) (some (request cmdid)) (some wbuf_area) w ≡ ok (pos 0, w')
      → s.pending fd w' ≡ s.pending fd w ++ answer start cmdid
  pub noticed :
      (w : k.World)
      → s.pending fd w ≢ []
      → (rset : List ℕ) × (w' : k.World) × (k.select (fd + 1) (fd ∷ []) w ≡ (ready rset, w'))
        × (fd_isset (pos fd) rset ≡ true)
        × (s.pending fd w' ≡ s.pending fd w)

-- Messages on a stream, and what follows them.
abbrev pub stream_of : List (ProtocolCmd × List ℕ) → List ℕ → List ℕ
stream_of [] rest = rest
stream_of ((h, body) ∷ ms) rest = encode h ++ (body ++ stream_of ms rest)

-- Each is whole, has room in the small buffer of the first loop, and is not the answer that it waits
-- for.
abbrev pub AllOthers : List (ProtocolCmd × List ℕ) → Type 0
AllOthers [] = Unit {0}
AllOthers ((h, body) ∷ ms) =
    (length body ≡ h.bodylen)
    × (length body ≤ 56)
    × ((h.cmdid == cmd_get_shm_num) ≡ false)
    × AllOthers ms

pub stream_of-append :
    (ms : List (ProtocolCmd × List ℕ)) (xs ys : List ℕ)
    → stream_of ms xs ++ ys ≡ stream_of ms (xs ++ ys)
stream_of-append [] xs ys = refl
stream_of-append ((h, body) ∷ ms) xs ys =
    append_assoc (encode h) (body ++ stream_of ms xs) ys
    ∙ ap (◌++◌ (encode h))
        (append_assoc body (stream_of ms xs) ys ∙ ap (◌++◌ body) (stream_of-append ms xs ys))

module _ (k : Kernel) (s : IsStream k) (fd : ℕ) (d : Delivers k s fd) where
  open s use {pending}

  -- The first loop drops what came before, and takes the number out of the answer.
  pub await_num-found :
      (fuel num : ℕ) (ms : List (ProtocolCmd × List ℕ)) (rest : List ℕ) (w : k.World)
      → length ms < fuel
      → AllOthers ms
      → pending fd w ≡ stream_of ms (encode (fresh_cmd 1 0 cmd_get_shm_num 0) ++ (num ∷ [] ++ rest))
      → Ends ⊥
          (λ (found, w'). (found ≡ some num) × (pending fd w' ≡ rest))
          (await_num k fuel (pos fd) w)
  unfolding await_num
  await_num-found zero num ms rest w h others comes = absurd (omega arith)
  await_num-found (suc fuel) num [] rest w h others comes =
      let head = fresh_cmd 1 0 cmd_get_shm_num 0 in
      Run.bind
        (tcp_recv_protocol_cmd-TakenExactly k s fd (replicate head_len 0) wbuf_area (encode head)
          (num ∷ []) rest w (omega arith) (length-encode head) (sym (bodylen-encode head))
          (omega arith) comes d)
        λ (ret, at, area, w1) (z, at_head, at_area, left, quiet).
          let count : byte_at (bytes_of area) 0 ≡ num =
            ap (λ (x : Option (List ℕ)). byte_at (bytes_of x) 0) at_area in
          rw (z, at_head, decode-encode head) (returned (ap some count, left))
  await_num-found (suc fuel) num ((head, body) ∷ ms) rest w h (size, room, other, others) comes =
      Run.bind
        (tcp_recv_protocol_cmd-TakenExactly k s fd (replicate head_len 0) wbuf_area (encode head)
          body _ w (omega arith) (length-encode head) (size ∙ sym (bodylen-encode head))
          (omega (arith, room)) comes d)
        λ (ret, at, area, w1) (z, at_head, at_area, left, quiet).
          rw (z, at_head, decode-encode head, other)
            (await_num-found fuel num ms rest w1 (omega arith) others left)

  module _ (start : PubSubNode) (v : IsServed k s fd start) (a : Accepts k fd) where
    -- A command is sent whole, and then its answer waits behind what waited before.
    pub request-served :
        (cmdid : ℕ) (w : k.World)
        → cmdid < 256
        → Ends ⊥
            (λ (ret, w'). (ret ≡ pos 0) × (pending fd w' ≡ pending fd w ++ answer start cmdid))
            (tcp_send_protocol_cmd k (pos fd) (some (request cmdid)) (some wbuf_area) w)
    request-served cmdid w small =
        let sent = tcp_send_protocol_cmd-SentAll k s fd (request cmdid) wbuf_area w a in
        let head = fresh_cmd 0 send_reserve cmdid 0 in
        let made : set_pure_protocol_head zero_cmd (pos 0) (pos send_reserve) (pos cmdid) ≡ head =
          set_pure_protocol_head-given zero_cmd 0 send_reserve cmdid (omega arith) (omega arith)
            small in
        let body : (decode (request cmdid)).bodylen ≡ 0 =
          ap (λ (h : ProtocolCmd). (decode (encode h)).bodylen) made ∙ bodylen-encode head in
        let ((ret, w'), is_ok, (z, o)) =
          Run.returns (Run.mono sent (λ x. not-short cmdid body x) (λ r p. p)) in
        rw is_ok (returned (z, v.served cmdid w w' small (is_ok ∙ ap (λ (x : ℤ). ok (x, w')) z)))
      where
        not-short : (c : ℕ) → (decode (request c)).bodylen ≡ 0 → Short (request c) wbuf_area → ⊥
        not-short c body (inl short) = omega (
          arith,
          short,
          length-encode (set_pure_protocol_head zero_cmd (pos 0) (pos send_reserve) (pos c)),
        )
        not-short c body (inr short) = omega (arith, short, body)
