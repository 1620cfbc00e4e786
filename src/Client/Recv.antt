-- ===== src/Client/Recv.antt =====
-- icehydra.c, ih_recv_data: a message that waits for the client comes whole into its buffer.
use icehydra.Prelude.{
  ℕ, ◌≤◌, ◌≡◌, refl, sym, ap, ◌∙◌, List, [], ◌++◌, append-nil, arith, ◌==◌, if◌then◌else◌, length,
  drop, replicate, ℤ, pos, IsText,
}
use icehydra.Run.{Run, ok, Ends, returned}
use icehydra.Run
use icehydra.Kernel.{Kernel}
use icehydra.Kernel.Stream.{IsStream, Delivers}
use icehydra.Wire.{ProtocolCmd, encode, decode, head_len, round4, cmd_get_shm_info}
use icehydra.Wire.Layout.{decode-encode, length-encode}
use icehydra.Socket.{over}
use icehydra.Socket.Outcomes.{tcp_recv_protocol_cmd-TakenExactly}
use icehydra.Traces.Halts.{trace-Prints}
use icehydra.Client.{ih_recv_data}

-- What ih_recv_data returns for a message with this head.
abbrev pub result_of : ProtocolCmd → ℤ
result_of h = if h.cmdid == cmd_get_shm_info then pos cmd_get_shm_info else pos 0

module _ (k : Kernel) (s : IsStream k) where
  open s use {pending}

  -- The body is at the front of the buffer, its length is given, the connection stays, and what came
  -- behind the message still waits.
  abbrev pub Got :
      ℕ → ProtocolCmd → List ℕ → List ℕ → List ℕ → ℤ × List ℕ × ℕ × ℤ × k.World → Type 0
  Got fd h body area rest (ret, got, datalen, fd', w') =
      (ret ≡ result_of h)
      × (got ≡ over body area)
      × (datalen ≡ h.bodylen)
      × (fd' ≡ pos fd)
      × (pending fd w' ≡ rest)

  -- A message waits whole at the client's descriptor, its body fits the buffer, and the system
  -- delivers what waits. Then ih_recv_data ends within its fuel: it returns 2 for an answer about
  -- shared memories and else 0, with the body in the buffer and its length, keeps the connection,
  -- and leaves what comes behind the message; or the buffer, from behind the room of the ids, has no
  -- zero byte, and what is printed of it is read past its end.
  pub ih_recv_data-Got :
      (fd datalen : ℕ) (h : ProtocolCmd) (body area rest : List ℕ) (w : k.World)
      → length body ≡ h.bodylen
      → length body ≤ length area
      → pending fd w ≡ encode h ++ (body ++ rest)
      → Delivers k s fd
      → Ends
          (IsText (drop (round4 h.broadcast_num) (over body area)))
          (Got fd h body area rest)
          (ih_recv_data k (pos fd) area datalen w)
  unfolding ih_recv_data
  ih_recv_data-Got fd datalen h body area rest w size room comes d =
      let back : decode (encode h) ≡ h =
        ap decode (sym (append-nil (encode h))) ∙ decode-encode h [] in
      let same : length body ≡ (decode (encode h)).bodylen =
        size ∙ ap (λ (c : ProtocolCmd). c.bodylen) (sym back) in
      Run.bind
        (Run.mono
          (tcp_recv_protocol_cmd-TakenExactly k s fd (replicate head_len 0) area (encode h) body
            rest w (omega arith) (length-encode h) same room comes d)
          absurd (λ r p. p))
        λ (ret, head, area', w1) (z, at_head, at_area, left, quiet).
          rw (z, at_head, at_area, decode-encode h)
            (Run.bind (trace-Prints h (over body area))
              λ out p. returned (refl, refl, refl, refl, left))
