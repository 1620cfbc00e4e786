-- ===== src/Kernel/Stream.antt =====
-- The documented behaviour of a stream socket (socket(2), SOCK_STREAM: "sequenced, reliable,
-- two-way, connection-based byte streams"), as far as the program relies on it.
use icehydra.Prelude.{ℕ, suc, ◌≤◌, ◌<◌, ◌≡◌, ◌≢◌, List, [], ◌∷◌, ◌++◌, length, take}
use icehydra.Kernel.{Kernel, Errno, Received, got, recv_failed, Sent, sent, send_failed}

-- `pending fd` is what has still to be read from `fd`, `output fd` what has been written to it.
pub record IsStream (k : Kernel) : Type 0 where
  pub pending : ℕ → k.World → List ℕ
  pub output : ℕ → k.World → List ℕ
  -- recv delivers the next bytes, at most as many as asked for, and writes to no stream
  pub recv_length :
      (fd n : ℕ) (w w' : k.World) (bs : List ℕ) → k.recv fd n w ≡ (got bs, w') → length bs ≤ n
  pub recv_pending :
      (fd n : ℕ) (w w' : k.World) (bs : List ℕ)
      → k.recv fd n w ≡ (got bs, w')
      → pending fd w ≡ bs ++ pending fd w'
  pub recv_failed_pending :
      (fd n : ℕ) (w w' : k.World) (e : Errno)
      → k.recv fd n w ≡ (recv_failed e, w')
      → pending fd w' ≡ pending fd w
  pub recv_output :
      (fd n g : ℕ) (w w' : k.World) (r : Received)
      → k.recv fd n w ≡ (r, w')
      → output g w' ≡ output g w
  -- send takes bytes from the front, at most those given, and touches no other stream
  pub send_length :
      (fd n : ℕ) (bs : List ℕ) (w w' : k.World) → k.send fd bs w ≡ (sent n, w') → n ≤ length bs
  pub send_output :
      (fd n : ℕ) (bs : List ℕ) (w w' : k.World)
      → k.send fd bs w ≡ (sent n, w')
      → output fd w' ≡ output fd w ++ take n bs
  pub send_failed_output :
      (fd : ℕ) (bs : List ℕ) (w w' : k.World) (e : Errno)
      → k.send fd bs w ≡ (send_failed e, w')
      → output fd w' ≡ output fd w
  pub send_output_ne :
      (fd g : ℕ) (bs : List ℕ) (w w' : k.World) (r : Sent)
      → g ≢ fd
      → k.send fd bs w ≡ (r, w')
      → output g w' ≡ output g w
  -- close writes to no stream
  pub close_output : (fd g : ℕ) (w : k.World) → output g (k.close fd w) ≡ output g w

-- What a good run of the system means for one descriptor: a recv finds what has still to be read,
-- and a send takes some of what it is given.
abbrev pub Delivers : (k : Kernel) → IsStream k → ℕ → Type 0
Delivers k s fd =
    (n : ℕ) (w : k.World)
    → 0 < n
    → s.pending fd w ≢ []
    → (b : ℕ) × (bs : List ℕ) × (w' : k.World) × (k.recv fd n w ≡ (got (b ∷ bs), w'))

abbrev pub Accepts : Kernel → ℕ → Type 0
Accepts k fd =
    (bs : List ℕ) (w : k.World)
    → bs ≢ []
    → (n : ℕ) × (w' : k.World) × (k.send fd bs w ≡ (sent (suc n), w'))
