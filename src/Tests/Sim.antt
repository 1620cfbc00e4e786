-- ===== src/Tests/Sim.antt =====
-- A system whose sockets hold what has come in and what was written. It always delivers and accepts.
use icehydra.Prelude.{
  ℕ, zero, suc, ◌≤◌, ◌<◌, ◌≡◌, ◌≢◌, refl, sym, ap, ◌∙◌, true, Option, some, List, [], ◌∷◌, ◌++◌,
  arith, ◌==◌, eq→==, if◌then◌else◌, length, take, drop, length-take, take-append-drop, take_all,
  pos,
}
use mathlib.Core.Path.{ap₂}
use icehydra.Kernel.{
  Kernel, Errno, eagain, Received, got, recv_failed, Sent, sent, send_failed, ready,
}
use icehydra.Kernel.Stream.{IsStream, Delivers, Accepts}

pub record Sockets : Type 0 where
  pub input : ℕ → List ℕ
  pub written : ℕ → List ℕ
  pub name : ℕ → Option (List ℕ)
  pub peer : ℕ → Option (List ℕ)

abbrev pub take_in : ℕ → ℕ → List ℕ → Sockets → Received × Sockets
take_in fd n [] w = (recv_failed eagain, w)
take_in fd n (b ∷ bs) w = (
  got (take n (b ∷ bs)),
  record w { input = λ g. if g == fd then drop n (b ∷ bs) else w.input g },
)

abbrev pub sim : Kernel
sim = record {
  World = Sockets;
  recv = λ fd n w. take_in fd n (w.input fd) w;
  send = λ fd bs w. (
    sent (length bs),
    record w { written = λ g. if g == fd then w.written g ++ bs else w.written g },
  );
  close = λ fd w. w;
  select = λ nfds fds w. (ready fds, w);
  accept = λ fd w. ((pos 9, []), w);
  stat = λ path w. (some true, w);
}

pub take_in-length :
    (fd n : ℕ) (xs : List ℕ) (w w' : Sockets) (bs : List ℕ)
    → take_in fd n xs w ≡ (got bs, w')
    → length bs ≤ n
take_in-length fd n [] w w' bs e = absurd (ground arith)
take_in-length fd n (x ∷ xs) w w' bs e =
    let same : take n (x ∷ xs) ≡ bs = ground arith in
    omega (arith, length-take n (x ∷ xs), ap length same)

pub take_in-input :
    (fd n : ℕ) (xs : List ℕ) (w w' : Sockets) (bs : List ℕ)
    → take_in fd n xs w ≡ (got bs, w')
    → xs ≡ bs ++ w'.input fd
take_in-input fd n [] w w' bs e = absurd (ground arith)
take_in-input fd n (x ∷ xs) w w' bs e =
    let same : take n (x ∷ xs) ≡ bs = ground arith in
    let left : w'.input fd ≡ drop n (x ∷ xs) =
      ap (λ (p : Received × Sockets). p.1.input fd) (sym e) ∙ rw (eq→== fd fd refl) in
    sym (take-append-drop n (x ∷ xs)) ∙ ap₂ ◌++◌ same (sym left)

pub take_in-failed :
    (fd n : ℕ) (xs : List ℕ) (w w' : Sockets) (c : Errno)
    → take_in fd n xs w ≡ (recv_failed c, w')
    → w' ≡ w
take_in-failed fd n [] w w' c e = ap (λ (p : Received × Sockets). p.1) (sym e)
take_in-failed fd n (x ∷ xs) w w' c e = absurd (ground arith)

pub take_in-written :
    (fd n g : ℕ) (xs : List ℕ) (w w' : Sockets) (r : Received)
    → take_in fd n xs w ≡ (r, w')
    → w'.written g ≡ w.written g
take_in-written fd n g [] w w' r e = ap (λ (p : Received × Sockets). p.1.written g) (sym e)
take_in-written fd n g (x ∷ xs) w w' r e = ap (λ (p : Received × Sockets). p.1.written g) (sym e)

pub sim_sent :
    (fd n : ℕ) (bs : List ℕ) (w w' : Sockets) → sim.send fd bs w ≡ (sent n, w') → n ≡ length bs
sim_sent fd n bs w w' e =
    let same : Sent.sent n ≡ sent (length bs) = ap (λ (p : Sent × Sockets). p.0) (sym e) in cc

sim_written :
    (fd g : ℕ) (bs : List ℕ) (w w' : Sockets) (r : Sent)
    → sim.send fd bs w ≡ (r, w')
    → w'.written g ≡ (if g == fd then w.written g ++ bs else w.written g)
sim_written fd g bs w w' r e = ap (λ (p : Sent × Sockets). p.1.written g) (sym e)

pub sim_never_fails :
    (fd : ℕ) (bs : List ℕ) (w w' : Sockets) (e : Errno) → sim.send fd bs w ≡ (send_failed e, w') → ⊥
sim_never_fails fd bs w w' c e =
    let same : Sent.sent (length bs) ≡ send_failed c = ap (λ (p : Sent × Sockets). p.0) e in cc

pub sim_output :
    (fd n : ℕ) (bs : List ℕ) (w w' : Sockets)
    → sim.send fd bs w ≡ (sent n, w')
    → w'.written fd ≡ w.written fd ++ take n bs
sim_output fd n bs w w' e =
    let whole : take n bs ≡ bs = take_all n bs (omega (arith, sim_sent fd n bs w w' e)) in
    sim_written fd fd bs w w' (sent n) e
    ∙ rw (eq→== fd fd refl) (ap (◌++◌ (w.written fd)) (sym whole))

pub sim_output_ne :
    (fd g : ℕ) (bs : List ℕ) (w w' : Sockets) (r : Sent)
    → g ≢ fd
    → sim.send fd bs w ≡ (r, w')
    → w'.written g ≡ w.written g
sim_output_ne fd g bs w w' r ne e = sim_written fd g bs w w' r e ∙ ground arith

abbrev pub sim_stream : IsStream sim
sim_stream = record {
  pending = λ fd w. w.input fd;
  output = λ fd w. w.written fd;
  recv_length = λ fd n w w' bs e. take_in-length fd n (w.input fd) w w' bs e;
  recv_pending = λ fd n w w' bs e. take_in-input fd n (w.input fd) w w' bs e;
  recv_failed_pending =
      λ fd n w w' c e. ap (λ (x : Sockets). x.input fd) (take_in-failed fd n (w.input fd) w w' c e);
  recv_output = λ fd n g w w' r e. take_in-written fd n g (w.input fd) w w' r e;
  send_length = λ fd n bs w w' e. omega (arith, sim_sent fd n bs w w' e);
  send_output = λ fd n bs w w' e. sim_output fd n bs w w' e;
  send_failed_output = λ fd bs w w' c e. absurd (sim_never_fails fd bs w w' c e);
  send_output_ne = λ fd g bs w w' r ne e. sim_output_ne fd g bs w w' r ne e;
  close_output = λ fd g w. refl;
}

delivers_from :
    (fd n : ℕ) (xs : List ℕ) (w : Sockets)
    → 0 < n
    → xs ≢ []
    → (b : ℕ) × (bs : List ℕ) × (w' : Sockets) × (take_in fd n xs w ≡ (got (b ∷ bs), w'))
delivers_from fd n [] w h left = absurd (left refl)
delivers_from fd zero (x ∷ xs) w h left = absurd (omega arith)
delivers_from fd (suc n) (x ∷ xs) w h left = (x, take n xs, _, refl)

pub sim-Delivers : (fd : ℕ) → Delivers sim sim_stream fd
sim-Delivers fd n w h left = delivers_from fd n (w.input fd) w h left

pub sim-Accepts : (fd : ℕ) → Accepts sim fd
sim-Accepts fd [] w h = absurd (h refl)
sim-Accepts fd (b ∷ bs) w h = (length bs, _, refl)
