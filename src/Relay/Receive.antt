-- ===== src/Relay/Receive.antt =====
-- icehydra.c: a process that calls ih_recv_data for the messages that the broker has passed on.
use icehydra.Prelude.{
  ℕ, zero, suc, ◌≤◌, ◌<◌, ◌≡◌, refl, ap, ◌∙◌, List, [], ◌∷◌, ◌++◌, append_assoc, append-nil, arith,
  length, length-take, length-replicate, take, take-append_more, drop, replicate, ℤ, pos,
}
use icehydra.Run.{Run, ok, Ends, returned, ◌>>=◌}
use icehydra.Run
use icehydra.Kernel.{Kernel}
use icehydra.Kernel.Stream.{IsStream, Delivers}
use icehydra.Wire.{round4, send_parallel, cmd_default}
use icehydra.Wire.Head.{fresh_cmd}
use icehydra.Traces.Texts.{stored-IsText}
use icehydra.Broker.Cast.Shares.{copies}
use icehydra.Client.{ih_recv_data}
use icehydra.Client.Recv.{Got, ih_recv_data-Got}
use icehydra.Relay.{subscriber_message}

-- Calls of ih_recv_data, each with a cleared buffer of `m` bytes: the results, and the data.
pub receive_times : (k : Kernel) → ℕ → ℕ → ℤ → k.World → Run (List (ℤ × List ℕ) × k.World)
receive_times k m zero fd w = ok ([], w)
receive_times k m (suc c) fd w = do
  (ret, area, datalen, fd', w1) ← ih_recv_data k fd (replicate m 0) 0 w
  (others, w2) ← receive_times k m c fd' w1
  ok ((ret, take datalen area) ∷ others, w2)

module _ (k : Kernel) (s : IsStream k) (fd n m : ℕ) (area : List ℕ) (d : Delivers k s fd)
    (counted : n ≤ length area) (space : n < m) where
  receive-message :
      (w : k.World) (rest : List ℕ)
      → s.pending fd w ≡ subscriber_message n area ++ rest
      → Ends ⊥
          (Got k s fd (fresh_cmd n send_parallel cmd_default 0) (take n area) (replicate m 0) rest)
          (ih_recv_data k (pos fd) (replicate m 0) 0 w)
  unfolding round4
  receive-message w rest comes =
      Run.mono
        (ih_recv_data-Got k s fd 0 (fresh_cmd n send_parallel cmd_default 0) (take n area)
          (replicate m 0) rest w (omega (arith, length-take n area))
          (omega (arith, length-take n area, length-replicate {A = ℕ} m 0))
          (comes ∙ append_assoc _ (take n area) rest) d)
        (λ t.
          stored-IsText 0 (length (take n area)) m (take n area) (omega arith)
            (omega (arith, length-take n area)) t)
        (λ r p. p)

  -- What stands at the front of the buffer is the data.
  take-over : (buf : List ℕ) → take n (take n area ++ drop (length (take n area)) buf) ≡ take n area
  take-over buf =
      take-append_more (take n area) (drop (length (take n area)) buf) n 0
        (omega (arith, length-take n area))
      ∙ append-nil (take n area)

  pub receive_times-copies :
      (c : ℕ) (w : k.World) (rest : List ℕ)
      → s.pending fd w ≡ copies c (subscriber_message n area) ++ rest
      → Ends ⊥
          (λ (got, w'). (got ≡ replicate c (pos 0, take n area)) × (s.pending fd w' ≡ rest))
          (receive_times k m c (pos fd) w)
  unfolding receive_times
  receive_times-copies zero w rest comes = returned (refl, comes)
  receive_times-copies (suc c) w rest comes =
      let more = copies c (subscriber_message n area) in
      Run.bind
        (receive-message w (more ++ rest)
          (comes ∙ append_assoc (subscriber_message n area) more rest))
        λ (ret, got, datalen, fd', w1) (z, at, len, conn, left).
          rw (z, at, len, conn, take-over (replicate m 0))
            (Run.bind (receive_times-copies c w1 rest left)
              λ (others, w2) (same, end). returned (ap (◌∷◌ (pos 0, take n area)) same, end))
