-- ===== src/Client/Infos/Closed.antt =====
-- ih_get_shm_infos once the broker has gone: its first loop ends, its second does not.
use icehydra.Prelude.{
  ℕ, zero, suc, ◌<◌, ◌≡◌, refl, ap, ◌∙◌, Bool, true, false, inl, inr, Option, List, ◌++◌, arith,
  ◌==◌, Bool-cases, length, length-append, replicate, ℤ, pos, negsuc,
}
use icehydra.Run.{Run, ok, out_of_fuel, Ends, returned}
use icehydra.Run
use icehydra.Kernel.{Kernel}
use icehydra.Kernel.Stream.{IsStream}
use icehydra.Wire.{decode, head_len, cmd_get_shm_num}
use icehydra.Socket.RecvCmds.{Taken, tcp_recv_protocol_cmd-Received}
use icehydra.Broker.Loop.{bytes_of}
use icehydra.Client.Infos.{
  ih_select_recv_ready, ih_recv_is_shm_ids, await_num, receive_infos, await_infos, wbuf_area,
}

module _ (k : Kernel) where
  -- Once the connection is closed, the second loop of ih_get_shm_infos does not end: whatever fuel
  -- it is given, it runs out, unless the last result was the answer.
  pub await_infos-closed :
      (fuel n : ℕ) (ret : ℤ) (buffer : List ℕ) (datalen : ℕ) (w : k.World)
      → ih_recv_is_shm_ids ret ≡ false
      → await_infos k fuel ret (buffer, datalen, negsuc n, w) ≡ out_of_fuel
  unfolding await_infos receive_infos ih_select_recv_ready
  await_infos-closed zero n ret buffer datalen w h = refl
  await_infos-closed (suc fuel) n ret buffer datalen w h =
      ap
        (λ (b : Bool). elim b [
          | true ↦ ok (buffer, datalen, negsuc n, w)
          | false ↦ await_infos k fuel ret (buffer, datalen, negsuc n, w)
        ])
        h
      ∙ await_infos-closed fuel n ret buffer datalen w h

  module _ (s : IsStream k) where
    -- A message takes its head off the stream, at least.
    Taken-less :
        (fd : ℕ) (head area : List ℕ) (w w' : k.World) (ret : ℤ) (h a : Option (List ℕ))
        → Taken k s fd head area w (ret, h, a, w')
        → length (s.pending fd w') < length (s.pending fd w)
    Taken-less fd head area w w' ret h a (bs, body, z, n, m, e, p, q) = omega (
      arith,
      ap length e,
      length-append bs (body ++ s.pending fd w'),
      length-append body (s.pending fd w'),
    )

    -- The first loop of ih_get_shm_infos ends, with a result or a fault: it takes at least a head off
    -- the stream in each round, so that as many rounds as bytes wait, and one, are enough.
    pub await_num-Ends :
        (fuel fd : ℕ) (w : k.World)
        → length (s.pending fd w) < fuel
        → Ends (Unit {0}) (λ r. Unit {0}) (await_num k fuel (pos fd) w)
    unfolding await_num
    await_num-Ends zero fd w h = absurd (omega arith)
    await_num-Ends (suc fuel) fd w h =
        Run.bind
          (Run.mono
            (tcp_recv_protocol_cmd-Received k s fd (replicate head_len 0) wbuf_area w (omega arith))
            (λ x. tt) (λ r p. p))
          λ (ret, head, area, w') (taken, quiet, full). elim taken [
            | inr lost ↦ rw lost (returned tt)
            | inl t ↦
                let less = Taken-less fd (replicate head_len 0) wbuf_area w w' ret head area t in
                let found = (decode (bytes_of head)).cmdid == cmd_get_shm_num in
                rw t.2 (elim (Bool-cases found) [
                  | inl hit ↦ rw hit (returned tt)
                  | inr miss ↦ rw miss (await_num-Ends fuel fd w' (omega arith))
                ])
          ]
