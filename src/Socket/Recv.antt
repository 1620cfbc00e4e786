-- ===== src/Socket/Recv.antt =====
-- The receiving loop reads the stream in order, ends within its fuel, and writes past its buffer
-- only if it was asked for more than the buffer holds.
use icehydra.Prelude.{
  ℕ, zero, suc, ◌+◌, ◌-◌, ◌≤◌, ◌<◌, ◌≡◌, ◌≢◌, refl, sym, ap, ◌∙◌, inl, inr, List, [], ◌∷◌, ◌++◌,
  append_assoc, append-nil, arith, ltb, ltb→lt, ltb→le, Bool-cases, length, length-append,
}
use icehydra.Run.{Run, ok, fault, Ends, returned, faulted}
use icehydra.Run
use icehydra.Kernel.{Kernel, Errno, Received, got, recv_failed, is_transient}
use icehydra.Kernel.Stream.{IsStream, Delivers}
use icehydra.Socket.{RecvLoop, on_error, after_recv, recv_loop}

module _ (k : Kernel) (s : IsStream k) where
  open s use {pending, output, recv_length, recv_pending, recv_failed_pending, recv_output}

  -- The loop went on from `acc` with the next bytes of `fd`, to at most `len` in all, and wrote to
  -- no stream; if the system delivers, it has read all that it was asked for.
  abbrev pub Reads : ℕ → ℕ → List ℕ → k.World → RecvLoop k → Type 0
  Reads fd len acc w (bs, times, w') =
      (new : List ℕ) × (bs ≡ acc ++ new)
      × (pending fd w ≡ new ++ pending fd w')
      × (length bs ≤ len)
      × ((g : ℕ) → output g w' ≡ output g w)
      × (Delivers k s fd → len ≤ length acc + length (pending fd w) → length bs ≡ len)

  Reads-stop :
      (fd len times : ℕ) (acc : List ℕ) (w w' : k.World)
      → length acc ≤ len
      → pending fd w' ≡ pending fd w
      → ((g : ℕ) → output g w' ≡ output g w)
      → (Delivers k s fd → len ≤ length acc + length (pending fd w) → length acc ≡ len)
      → Reads fd len acc w (acc, times, w')
  Reads-stop fd len times acc w w' h p o all = ([], sym (append-nil acc), sym p, h, o, all)

  Reads-after :
      (fd len : ℕ) (acc bs : List ℕ) (w w' : k.World) (r : RecvLoop k)
      → pending fd w ≡ bs ++ pending fd w'
      → ((g : ℕ) → output g w' ≡ output g w)
      → Reads fd len (acc ++ bs) w' r
      → Reads fd len acc w r
  Reads-after fd len acc bs w w' (all, times, w'') p o (new, e, q, h, o', full) = (
    bs ++ new,
    e ∙ append_assoc acc bs new,
    p ∙ ap (◌++◌ bs) q ∙ sym (append_assoc bs new (pending fd w'')),
    h,
    λ g. o' g ∙ o g,
    λ d e.
        full d (omega (arith, length-append acc bs, length-append bs (pending fd w'), ap length p)),
  )

  -- A call that brings nothing is not made while the system delivers and bytes are left.
  not-delivered :
      (fd len : ℕ) (acc : List ℕ) (w w' : k.World) (r : Received)
      → length acc < len
      → k.recv fd (len - length acc) w ≡ (r, w')
      → ((b : ℕ) (bs : List ℕ) → r ≢ got (b ∷ bs))
      → Delivers k s fd
      → len ≤ length acc + length (pending fd w)
      → length acc ≡ len
  not-delivered fd len acc w w' r h eq nothing d e =
      let (b, bs, w'', found) =
        d (len - length acc) w (omega arith) (λ x. absurd (omega (arith, ap length x))) in
      absurd (nothing b bs (ap (λ (p : Received × k.World). p.0) (sym eq ∙ found)))

  module _ (fd cap len fuel : ℕ) (again : ℕ → List ℕ → k.World → Run (RecvLoop k))
      (ih : (times : ℕ) (acc : List ℕ) (w : k.World)
        → length acc ≤ len
        → times + (len - length acc) < fuel
        → Ends (cap < len) (Reads fd len acc w) (again times acc w)) where
    on_error-Reads :
        (times : ℕ) (e : Errno) (acc : List ℕ) (w w' : k.World)
        → length acc < len
        → times + (len - length acc) < suc fuel
        → k.recv fd (len - length acc) w ≡ (recv_failed e, w')
        → Ends
            (cap < len)
            (Reads fd len acc w)
            (on_error times e (λ t. again t acc w') (λ t. ok (acc, t, w')))
    on_error-Reads times e acc w w' h m eq = pick times m
      where
        same : pending fd w' ≡ pending fd w
        same = recv_failed_pending fd _ w w' e eq

        quiet : (g : ℕ) → output g w' ≡ output g w
        quiet g = recv_output fd _ g w w' _ eq

        stop : (t : ℕ) → Reads fd len acc w (acc, t, w')
        stop t =
            Reads-stop fd len t acc w w' (omega arith) same quiet
              (not-delivered fd len acc w w' _ h eq (λ b bs x. cc))

        pick :
            (t : ℕ)
            → t + (len - length acc) < suc fuel
            → Ends
                (cap < len)
                (Reads fd len acc w)
                (on_error t e (λ u. again u acc w') (λ u. ok (acc, u, w')))
        pick zero m = returned (stop 0)
        pick (suc t) m = elim (Bool-cases (is_transient e)) [
          | inl pass ↦ rw pass (
              Run.mono (ih t acc w' (omega arith) (omega arith)) (λ x. x)
                λ r (new, a, b, c, d, f). (
                  new,
                  a,
                  sym same ∙ b,
                  c,
                  λ g. d g ∙ quiet g,
                  λ x y. f x (omega (arith, ap length same)),
                ))
          | inr fails ↦ rw fails (returned (stop t))
        ]

    after_recv-Reads :
        (times : ℕ) (acc : List ℕ) (w : k.World) (r : Received × k.World)
        → length acc < len
        → times + (len - length acc) < suc fuel
        → k.recv fd (len - length acc) w ≡ r
        → Ends (cap < len) (Reads fd len acc w) (after_recv k again cap times acc r)
    unfolding after_recv
    after_recv-Reads times acc w (recv_failed e, w') h m eq = on_error-Reads times e acc w w' h m eq
    after_recv-Reads times acc w (got [], w') h m eq = returned (
        Reads-stop fd len times acc w w' (omega arith) (sym (recv_pending fd _ w w' [] eq))
          (λ g. recv_output fd _ g w w' _ eq) (not-delivered fd len acc w w' _ h eq (λ b bs x. cc)))
    after_recv-Reads times acc w (got (b ∷ bs), w') h m eq =
        let all = acc ++ b ∷ bs in
        let fits = recv_length fd _ w w' (b ∷ bs) eq in
        let size = length-append acc (b ∷ bs) in
        elim (Bool-cases (ltb cap (length all))) [
          | inl past ↦ rw past (faulted (omega (arith, fits, size, ltb→lt cap (length all) past)))
          | inr inside ↦ rw inside (
              Run.mono (ih times all w' (omega (arith, fits, size)) (omega (arith, fits, size)))
                (λ x. x)
                (λ r.
                  Reads-after fd len acc (b ∷ bs) w w' r (recv_pending fd _ w w' (b ∷ bs) eq)
                    (λ g. recv_output fd _ g w w' _ eq)))
        ]

  pub recv_loop-Reads :
      (fd cap len fuel times : ℕ) (acc : List ℕ) (w : k.World)
      → length acc ≤ len
      → times + (len - length acc) < fuel
      → Ends (cap < len) (Reads fd len acc w) (recv_loop k fd cap len fuel times acc w)
  unfolding recv_loop
  recv_loop-Reads fd cap len zero times acc w h m = absurd (omega arith)
  recv_loop-Reads fd cap len (suc fuel) times acc w h m = elim (Bool-cases (ltb (length acc) len)) [
    | inl more ↦
        rw (more, recv_loop)
          (after_recv-Reads fd cap len fuel (recv_loop k fd cap len fuel)
            (recv_loop-Reads fd cap len fuel) times acc w _ (ltb→lt _ _ more) m refl)
    | inr done ↦
        rw (done, recv_loop)
          (returned (
            Reads-stop fd len times acc w w h refl (λ g. refl)
              (λ d e. omega (arith, ltb→le (length acc) len done))))
  ]
