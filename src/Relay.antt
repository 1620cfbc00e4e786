-- ===== src/Relay.antt =====
-- The program as a whole: a message that a client has sent, read by the broker, reaches the
-- processes that it names.
pub mod Deliver
pub mod Times
pub mod Receive
pub mod Journey
pub mod Answer
use icehydra.Prelude.{
  ℕ, zero, suc, ◌+◌, ◌-◌, ◌≤◌, ◌<◌, ◌≡◌, refl, sym, ap, ◌∙◌, ◌⊎◌, inl, inr, Bool, true, false,
  Option, some, List, [], ◌∷◌, ◌++◌, append_assoc, append-injective, arith, if◌then◌else◌, length,
  length-append, length-take, length-replicate, take, drop, replicate, take-append_more, append-nil,
  drop-of_length, ℤ, pos, minus_one, neg, eqb_ℤ,
}
use icehydra.Run.{Run, ok, Ends, returned}
use icehydra.Run
use icehydra.Kernel.{Kernel}
use icehydra.Kernel.Stream.{IsStream, Delivers}
use icehydra.Wire.{
  ProtocolCmd, Packet, encode, decode, head_len, round4, broadcast_len, send_parallel, cmd_default,
}
use icehydra.Wire.Layout.{decode-encode, length-encode}
use icehydra.Wire.Padding.{round4-least, broadcast_len-round4}
use icehydra.Wire.Head.{fresh_cmd}
use icehydra.Socket.{over}
use icehydra.Socket.RecvCmds.{Oversized, Taken, Waiting}
use icehydra.Node.{PubSubNode}
use icehydra.Broker.Cast.{strip_body}
use icehydra.Broker.Cast.Shares.{count_id, expected, share}
use icehydra.Broker.Cast.Frame.{passed_on, passed_on-strip}
use icehydra.Broker.Loop.{clear_head, clear_area, max_cmd_len, bytes_of}
use icehydra.Client.Send.{padded, client_message}

pub count_id-take :
    (id : ℤ) (num : ℕ) (ids rest : List ℕ)
    → num ≤ length ids
    → count_id id num (take num ids ++ rest) ≡ count_id id num ids
count_id-take id zero ids rest h = refl
count_id-take id (suc num) [] rest h = absurd (omega arith)
count_id-take id (suc num) (i ∷ ids) rest h = rw (count_id-take id num ids rest (omega arith))

pub expected-take :
    (g : ℕ) (ns : List PubSubNode) (num : ℕ) (ids rest frame : List ℕ)
    → num ≤ length ids
    → expected g ns num (take num ids ++ rest) frame ≡ expected g ns num ids frame
expected-take g [] num ids rest frame h = refl
expected-take g (n ∷ ns) num ids rest frame h = rw (count_id-take n.id num ids rest h) (
    ap (◌++◌ (share g n.connfd (count_id n.id num ids) frame))
      (expected-take g ns num ids rest frame h))

-- What a process receives: the client's data, under a head without ids.
abbrev pub subscriber_message : ℕ → List ℕ → List ℕ
subscriber_message n area = encode (fresh_cmd n send_parallel cmd_default 0) ++ take n area

module _ (num n : ℕ) (ids area : List ℕ) (counted : num ≤ length ids) (room : n ≤ length area) where
  -- The head and the body of the client's message.
  abbrev pub sent_head : ProtocolCmd
  sent_head = fresh_cmd (n + round4 num) send_parallel cmd_default num

  abbrev pub sent_body : List ℕ
  sent_body = padded num ids ++ take n area

  length-padded : length (padded num ids) ≡ round4 num
  length-padded = omega (
    arith,
    length-append (take num ids) (replicate (round4 num - num) 0),
    length-take num ids,
    length-replicate {A = ℕ} (round4 num - num) 0,
    round4-least num,
  )

  pub length-sent_body : length sent_body ≡ n + round4 num
  length-sent_body =
      omega (arith, length-append (padded num ids) (take n area), length-padded, length-take n area)

  -- The message as it lies in the broker's buffer.
  abbrev pub stored : List ℕ → Packet
  stored buf = record { head = sent_head; tail = over sent_body buf }

  pub passed_on-stored : (buf : List ℕ) → passed_on (stored buf) ≡ subscriber_message n area
  passed_on-stored buf =
      let len : broadcast_len sent_head ≡ length (padded num ids) =
        broadcast_len-round4 sent_head ∙ sym length-padded in
      let left : (n + round4 num) - broadcast_len sent_head ≡ n =
        omega (arith, broadcast_len-round4 sent_head) in
      let back = drop (length sent_body) buf in
      let body : strip_body (stored buf) ≡ take n area ++ back =
        ap (λ (x : ℕ). drop x (sent_body ++ back)) len
        ∙ ap (drop (length (padded num ids))) (append_assoc (padded num ids) (take n area) back)
        ∙ drop-of_length (padded num ids) (take n area ++ back) in
      passed_on-strip (stored buf)
      ∙ ap
          (λ (x : ℕ).
            encode (fresh_cmd x send_parallel cmd_default 0) ++ take x (strip_body (stored buf)))
          left
      ∙ ap (λ x. encode (fresh_cmd n send_parallel cmd_default 0) ++ take n x) body
      ∙ ap (◌++◌ (encode (fresh_cmd n send_parallel cmd_default 0))) (
          take-append_more (take n area) back n 0 (omega (arith, length-take n area))
          ∙ append-nil (take n area))

  decode-sent_head : (rest : List ℕ) → decode (encode sent_head ++ rest) ≡ sent_head
  decode-sent_head rest = decode-encode sent_head rest

  bodylen-sent : (decode (encode sent_head)).bodylen ≡ length sent_body
  bodylen-sent =
      ap (λ (c : ProtocolCmd). c.bodylen)
        (ap decode (sym (append-nil (encode sent_head))) ∙ decode-encode sent_head [])
      ∙ sym length-sent_body

  module _ (k : Kernel) (s : IsStream k) (fd : ℕ) (w : k.World) (rest : List ℕ)
      (comes : s.pending fd w ≡ client_message num ids n area ++ rest) where
    comes_split : s.pending fd w ≡ encode sent_head ++ (sent_body ++ rest)
    comes_split = comes ∙ append_assoc (encode sent_head) sent_body rest

    pub waits : Waiting k s fd w
    waits =
        (encode sent_head, sent_body, rest, length-encode sent_head, sym bodylen-sent, comes_split)

    -- The message fits the broker's buffer.
    pub fits : n + round4 num ≤ max_cmd_len - head_len → Oversized k s fd (length clear_area) w → ⊥
    fits small (h, more, long, e, over_room) =
        let (same, r) =
          append-injective h (encode sent_head) {vs = sent_body ++ rest}
            (long ∙ sym (length-encode sent_head)) (sym e ∙ comes_split) in
        let len : (decode h).bodylen ≡ length sent_body =
          ap (λ (x : List ℕ). (decode x).bodylen) same ∙ bodylen-sent in
        omega (arith, len, length-sent_body)

    -- What the broker stores of it.
    pub stored_of :
        (ret : ℤ) (w' : k.World) (head' area' : Option (List ℕ))
        → Taken k s fd clear_head clear_area w (ret, head', area', w')
        → (decode (bytes_of head') ≡ sent_head) × (bytes_of area' ≡ over sent_body clear_area)
    stored_of ret w' head' area' (h, body, z, long, full, e, at_head, at_area) =
        let (same, tail) =
          append-injective h (encode sent_head) {us = body ++ s.pending fd w'}
            {vs = sent_body ++ rest} (long ∙ sym (length-encode sent_head)) (sym e ∙ comes_split) in
        let len : length body ≡ length sent_body =
          full ∙ ap (λ (x : List ℕ). (decode x).bodylen) same ∙ bodylen-sent in
        let (body_same, r) =
          append-injective body sent_body {us = s.pending fd w'} {vs = rest} len tail in
        (
          ap (λ x. decode (bytes_of x)) at_head
              ∙ ap (λ (x : List ℕ). decode (over x clear_head)) same
              ∙ decode-encode sent_head _,
          ap bytes_of at_area ∙ ap (λ (x : List ℕ). over x clear_area) body_same,
        )
