-- ===== src/Socket/Send.antt =====
-- The sending loop writes its bytes to the stream in order, ends within its fuel, and reads past
-- its buffer only if it was asked for more than the buffer holds.
use icehydra.Prelude.{
  ℕ, zero, suc, ◌+◌, ◌-◌, ◌≤◌, ◌<◌, ◌≡◌, ◌≢◌, refl, sym, ap, ◌∙◌, inl, inr, List, [], ◌++◌,
  append_assoc, append-nil, arith, ltb, ltb→lt, ltb→le, Bool-cases, length, take, drop, length-take,
  length-drop, take-take, take-add,
}
use icehydra.Run.{Run, ok, fault, Ends, returned, faulted}
use icehydra.Run
use icehydra.Kernel.{Kernel, Errno, Sent, sent, send_failed, is_transient}
use icehydra.Kernel.Stream.{IsStream, Accepts}
use icehydra.Socket.{SendLoop, on_error, after_send, send_loop}

module _ (k : Kernel) (s : IsStream k) where
  open s use {output, send_length, send_output, send_failed_output, send_output_ne}

  -- The loop went on from the first `total` bytes of `area`, to at most `len` in all, and wrote what
  -- lies between to `fd` alone; if the system accepts what it is given, all `len` are sent.
  abbrev pub Sends : ℕ → List ℕ → ℕ → ℕ → k.World → SendLoop k → Type 0
  Sends fd area len total w (n, times, w') =
      (new : List ℕ) × (take total area ++ new ≡ take n area)
      × (output fd w' ≡ output fd w ++ new)
      × (n ≤ len)
      × ((g : ℕ) → g ≢ fd → output g w' ≡ output g w)
      × (Accepts k fd → n ≡ len)

  Sends-stop :
      (fd : ℕ) (area : List ℕ) (len times total : ℕ) (w w' : k.World)
      → total ≤ len
      → output fd w' ≡ output fd w
      → ((g : ℕ) → g ≢ fd → output g w' ≡ output g w)
      → (Accepts k fd → total ≡ len)
      → Sends fd area len total w (total, times, w')
  Sends-stop fd area len times total w w' h o q all =
      ([], append-nil (take total area), o ∙ sym (append-nil (output fd w)), h, q, all)

  -- What is given to one call.
  abbrev slice : List ℕ → ℕ → ℕ → List ℕ
  slice area len total = take (len - total) (drop total area)

  length-slice :
      (area : List ℕ) (len total : ℕ)
      → len ≤ length area
      → length (slice area len total) ≡ len - total
  length-slice area len total h =
      omega (arith, length-take (len - total) (drop total area), length-drop total area)

  take-slice :
      (area : List ℕ) (len total n : ℕ)
      → n ≤ len - total
      → take total area ++ take n (slice area len total) ≡ take (total + n) area
  take-slice area len total n h =
      ap (◌++◌ (take total area)) (take-take n (len - total) (drop total area) h)
      ∙ take-add total n area

  Sends-after :
      (fd : ℕ) (area : List ℕ) (len total n : ℕ) (w w' : k.World) (r : SendLoop k)
      → n ≤ len - total
      → output fd w' ≡ output fd w ++ take n (slice area len total)
      → ((g : ℕ) → g ≢ fd → output g w' ≡ output g w)
      → Sends fd area len (total + n) w' r
      → Sends fd area len total w r
  Sends-after fd area len total n w w' (m, times, w'') h o q (new, e, p, le, q', all) =
      let bs = take n (slice area len total) in
      (
        bs ++ new,
        sym (append_assoc (take total area) bs new)
            ∙ ap (λ x. x ++ new) (take-slice area len total n h)
            ∙ e,
        p ∙ ap (λ x. x ++ new) o ∙ append_assoc (output fd w) bs new,
        le,
        λ g x. q' g x ∙ q g x,
        all,
      )

  module _ (fd : ℕ) (area : List ℕ) (len fuel : ℕ) (again : ℕ → ℕ → k.World → Run (SendLoop k))
      (room : len ≤ length area)
      (ih : (times total : ℕ) (w : k.World)
        → total ≤ len
        → times + (len - total) < fuel
        → Ends (length area < len) (Sends fd area len total w) (again times total w)) where
    -- A call that sends nothing is not made while the system accepts.
    not-accepted :
        (total : ℕ) (w w' : k.World) (r : Sent)
        → total < len
        → k.send fd (slice area len total) w ≡ (r, w')
        → ((n : ℕ) → r ≢ sent (suc n))
        → Accepts k fd
        → total ≡ len
    not-accepted total w w' r h eq nothing a =
        let (n, w'', found) =
          a (slice area len total) w
            (λ x. absurd (omega (arith, length-slice area len total room, ap length x))) in
        absurd (nothing n (ap (λ (p : Sent × k.World). p.0) (sym eq ∙ found)))

    on_error-Sends :
        (times : ℕ) (e : Errno) (total : ℕ) (w w' : k.World)
        → total < len
        → times + (len - total) < suc fuel
        → k.send fd (slice area len total) w ≡ (send_failed e, w')
        → Ends
            (length area < len)
            (Sends fd area len total w)
            (on_error times e (λ t. again t total w') (λ t. ok (total, t, w')))
    on_error-Sends times e total w w' h m eq = pick times m
      where
        same : output fd w' ≡ output fd w
        same = send_failed_output fd _ w w' e eq

        quiet : (g : ℕ) → g ≢ fd → output g w' ≡ output g w
        quiet g x = send_output_ne fd g _ w w' _ x eq

        stop : (t : ℕ) → Sends fd area len total w (total, t, w')
        stop t =
            Sends-stop fd area len t total w w' (omega arith) same quiet
              (not-accepted total w w' _ h eq (λ n x. cc))

        pick :
            (t : ℕ)
            → t + (len - total) < suc fuel
            → Ends
                (length area < len)
                (Sends fd area len total w)
                (on_error t e (λ u. again u total w') (λ u. ok (total, u, w')))
        pick zero m = returned (stop 0)
        pick (suc t) m = elim (Bool-cases (is_transient e)) [
          | inl pass ↦ rw pass (
              Run.mono (ih t total w' (omega arith) (omega arith)) (λ x. x)
                λ r (new, a, b, c, d, f).
                  (new, a, b ∙ ap (λ x. x ++ new) same, c, λ g x. d g x ∙ quiet g x, f))
          | inr fails ↦ rw fails (returned (stop t))
        ]

    after_send-Sends :
        (times total : ℕ) (w : k.World) (r : Sent × k.World)
        → total < len
        → times + (len - total) < suc fuel
        → k.send fd (slice area len total) w ≡ r
        → Ends (length area < len) (Sends fd area len total w) (after_send k again times total r)
    unfolding after_send
    after_send-Sends times total w (send_failed e, w') h m eq =
        on_error-Sends times e total w w' h m eq
    after_send-Sends times total w (sent zero, w') h m eq = returned (
        Sends-stop fd area len times total w w' (omega arith)
          (send_output fd 0 _ w w' eq ∙ append-nil (output fd w))
          (λ g x. send_output_ne fd g _ w w' _ x eq) (not-accepted total w w' _ h eq (λ n x. cc)))
    after_send-Sends times total w (sent (suc n), w') h m eq =
        let fits = send_length fd (suc n) _ w w' eq in
        let size = length-slice area len total room in
        Run.mono
          (ih times (total + suc n) w' (omega (arith, fits, size)) (omega (arith, fits, size)))
          (λ x. x)
          λ r.
            Sends-after fd area len total (suc n) w w' r (omega (arith, fits, size))
              (send_output fd (suc n) _ w w' eq) (λ g x. send_output_ne fd g _ w w' _ x eq)

  pub send_loop-Sends :
      (fd : ℕ) (area : List ℕ) (len fuel times total : ℕ) (w : k.World)
      → total ≤ len
      → times + (len - total) < fuel
      → Ends
          (length area < len)
          (Sends fd area len total w)
          (send_loop k fd area len fuel times total w)
  unfolding send_loop
  send_loop-Sends fd area len zero times total w h m = absurd (omega arith)
  send_loop-Sends fd area len (suc fuel) times total w h m = elim (Bool-cases (ltb total len)) [
    | inl more ↦ elim (Bool-cases (ltb (length area) len)) [
      | inl short ↦ rw (more, send_loop, short) (faulted (ltb→lt (length area) len short))
      | inr room ↦
          rw (more, send_loop, room)
            (after_send-Sends fd area len fuel (send_loop k fd area len fuel)
              (ltb→le (length area) len room) (send_loop-Sends fd area len fuel) times total w _
              (ltb→lt total len more) m refl)
    ]
    | inr done ↦
        rw (done, send_loop)
          (returned (
            Sends-stop fd area len times total w w h refl (λ g x. refl)
              (λ a. omega (arith, ltb→le total len done))))
  ]
