-- ===== src/Broker/Reserve/Answers.antt =====
-- parser_reserve_cmd of src/conf.c answers out of the configuration that get_node_start has read.
use icehydra.Prelude.{
  ℕ, ◌*◌, ◌-◌, ◌%◌, ◌≤◌, ◌≡◌, refl, sym, ap, ◌∙◌, inl, inr, none, some, List, [], ◌∷◌, ◌++◌,
  append-nil, arith, ◌==◌, if◌then◌else◌, Bool-cases, Option-cases, length, length-append,
  length-replicate, take, replicate, pos,
}
use mathlib.Core.Path.{ap₂, subst}
use icehydra.Run.{Run, ok, Ends, returned}
use icehydra.Run
use icehydra.Kernel.{Kernel}
use icehydra.Kernel.Stream.{IsStream}
use icehydra.Wire.{
  ProtocolCmd, encode, decode, zero_cmd, head_len, cmd_get_shm_info, cmd_get_shm_num,
}
use icehydra.Wire.Layout.{decode-encode, length-encode}
use icehydra.Wire.Head.{fresh_cmd, set_pure_protocol_head-given}
use icehydra.Socket.{tcp_send_protocol_cmd}
use icehydra.Socket.SendCmds.{message, Short}
use icehydra.Socket.Outcomes.{SentSome, Tells, tcp_send_protocol_cmd-Tells}
use icehydra.Node.{ShmNode, PubSubNode, encode_shm, encode_shms, bytes4, word}
use icehydra.Config.Nodes.{AllNamed, IsRead}
use icehydra.Broker.Reserve.{shm_node_size, reserve_reply, parser_reserve_cmd}

pub length-encode_shm :
    (n : ShmNode) → length n.shm_name ≤ 32 → length (encode_shm n) ≡ shm_node_size
unfolding encode_shm
length-encode_shm n h =
    let pad = replicate {A = ℕ} (32 - length n.shm_name) 0 in
    omega (
      arith,
      length-append (n.shm_name ++ pad) (bytes4 n.shm_id ++ bytes4 (word n.shm_size)),
      length-append n.shm_name pad,
      length-replicate {A = ℕ} (32 - length n.shm_name) 0,
    )

pub length-encode_shms :
    (ns : List ShmNode) → AllNamed ns → length (encode_shms ns) ≡ shm_node_size * length ns
unfolding encode_shms
length-encode_shms [] h = refl
length-encode_shms (n ∷ ns) (short, h) = omega (
  arith,
  length-append (encode_shm n) (encode_shms ns),
  length-encode_shm n (omega arith),
  length-encode_shms ns h,
)

-- The answers: the entries under a head that counts their bytes, or their number; none to another
-- command, and none about entries if the configuration names no shared memory.
abbrev pub info_answer : PubSubNode → List ℕ
info_answer start = elim start.shm_nodes [
  | none ↦ []
  | some ns ↦
      encode (fresh_cmd (shm_node_size * start.shm_node_num) 0 cmd_get_shm_info 0)
      ++ take (shm_node_size * start.shm_node_num) (encode_shms ns)
]

abbrev pub answer : PubSubNode → ℕ → List ℕ
answer start cmdid =
    if cmdid == cmd_get_shm_info
    then info_answer start
    else if cmdid == cmd_get_shm_num
    then encode (fresh_cmd 1 0 cmd_get_shm_num 0) ++ start.shm_node_num ∷ []
    else []

take_head : (h : ProtocolCmd) → take head_len (encode h) ≡ encode h
unfolding encode
take_head h = refl

module _ (k : Kernel) (s : IsStream k) where
  unsent : (fd : ℕ) (w : k.World) → Tells k s fd [] w (pos 0, w)
  unsent fd w = (([], quiet, inl (refl, refl)), λ takes. refl)
    where
      quiet : (g : ℕ) → s.output g w ≡ s.output g w ++ (if g == fd then [] else [])
      quiet g = elim (Bool-cases (g == fd)) [
        | inl hit ↦ rw hit (sym (append-nil (s.output g w)))
        | inr miss ↦ rw miss (sym (append-nil (s.output g w)))
      ]

  -- A null pointer sends nothing.
  send_null-Tells :
      (fd : ℕ) (head : List ℕ) (w : k.World)
      → Ends ⊥ (Tells k s fd [] w) (tcp_send_protocol_cmd k (pos fd) (some head) none w)
  unfolding tcp_send_protocol_cmd
  send_null-Tells fd head w = returned (unsent fd w)

  send-Tells :
      (fd n c : ℕ) (area : List ℕ) (w : k.World)
      → n ≤ length area
      → Ends ⊥
          (Tells k s fd (encode (fresh_cmd n 0 c 0) ++ take n area) w)
          (tcp_send_protocol_cmd k (pos fd) (some (encode (fresh_cmd n 0 c 0))) (some area) w)
  send-Tells fd n c area w room =
      let head = fresh_cmd n 0 c 0 in
      let back : decode (encode head) ≡ head =
        ap decode (sym (append-nil (encode head))) ∙ decode-encode head [] in
      let len : (decode (encode head)).bodylen ≡ n = ap (λ (h : ProtocolCmd). h.bodylen) back in
      let same : message (encode head) area ≡ encode head ++ take n area =
        ap₂ (λ (x : List ℕ) (i : ℕ). x ++ take i area) (take_head head) len in
      Run.mono (tcp_send_protocol_cmd-Tells k s fd (encode head) area w) (fits head len)
        λ r p. subst (λ m. Tells k s fd m w r) same p
    where
      fits :
          (head : ProtocolCmd) → (decode (encode head)).bodylen ≡ n → Short (encode head) area → ⊥
      fits head len (inl short) = omega (arith, short, length-encode head)
      fits head len (inr short) = omega (arith, short, len, room)

  -- What the system does not take of the answer is all that can be missing.
  pub parser_reserve_cmd-Tells :
      (start node : PubSubNode) (fd : ℕ) (cmd : ProtocolCmd) (w : k.World)
      → IsRead start
      → node.connfd ≡ pos fd
      → Ends ⊥ (Tells k s fd (answer start cmd.cmdid) w) (parser_reserve_cmd k start node cmd w)
  unfolding parser_reserve_cmd reserve_reply
  parser_reserve_cmd-Tells start node fd cmd w (c, n, shms) conn =
      elim (Bool-cases (cmd.cmdid == cmd_get_shm_info)) [
        | inl info ↦ elim (Option-cases start.shm_nodes) [
          | inl bare ↦
              rw (parser_reserve_cmd, reserve_reply, info, bare, conn) (send_null-Tells fd _ w)
          | inr (ns, given) ↦
              let held = rw given at shms in
              let num = start.shm_node_num in
              rw
                (
                  parser_reserve_cmd,
                  reserve_reply,
                  info,
                  given,
                  conn,
                  set_pure_protocol_head-given zero_cmd (shm_node_size * num) 0 cmd_get_shm_info
                      (omega (arith, held.1)) (omega arith) (omega arith),
                )
                (send-Tells fd (shm_node_size * num) cmd_get_shm_info (encode_shms ns) w
                  (omega (arith, held.0, length-encode_shms ns held.2)))
        ]
        | inr other ↦ elim (Bool-cases (cmd.cmdid == cmd_get_shm_num)) [
          | inl number ↦
              let whole : start.shm_node_num % 256 ≡ start.shm_node_num = omega (arith, shms.1) in
              rw
                (
                  parser_reserve_cmd,
                  reserve_reply,
                  other,
                  number,
                  conn,
                  whole,
                  set_pure_protocol_head-given zero_cmd 1 0 cmd_get_shm_num (omega arith)
                      (omega arith) (omega arith),
                )
                (send-Tells fd 1 cmd_get_shm_num (start.shm_node_num ∷ replicate 1991 0) w
                  (omega arith))
          | inr unknown ↦
              rw (parser_reserve_cmd, reserve_reply, other, unknown) (returned (unsent fd w))
        ]
      ]

  -- To a client, the broker answers out of a configuration as it is read: with the entries that the
  -- count says, or with the count, or not at all. The answer goes out whole with result 0, or a
  -- front part of it with result -1, and no other stream changes. The call ends within its fuel
  -- and reads nothing outside its buffers.
  pub parser_reserve_cmd-Answered :
      (start node : PubSubNode) (fd : ℕ) (cmd : ProtocolCmd) (w : k.World)
      → IsRead start
      → node.connfd ≡ pos fd
      → Ends ⊥ (SentSome k s fd (answer start cmd.cmdid) w) (parser_reserve_cmd k start node cmd w)
  parser_reserve_cmd-Answered start node fd cmd w r conn =
      Run.mono (parser_reserve_cmd-Tells start node fd cmd w r conn) (λ x. x) λ x p. p.0
