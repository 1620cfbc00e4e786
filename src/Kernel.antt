-- ===== src/Kernel.antt =====
-- What the program asks of the operating system. The calls are parameters of the model: `World` is
-- everything outside the process, and each call returns its result and the world after it.
-- Descriptors that reach the system are not negative.
pub mod Stream
pub mod Unix
use icehydra.Prelude.{ℕ, Bool, true, false, Option, List, ℤ}

-- The values of `errno` that the program tells apart.
pub data Errno : Type 0 where
  eagain ewouldblock eintr other : Errno

-- `errno == EAGAIN || errno == EWOULDBLOCK || errno == EINTR`
abbrev pub is_transient : Errno → Bool
is_transient eagain = true
is_transient ewouldblock = true
is_transient eintr = true
is_transient other = false

-- recv: the bytes that it wrote, none of them at the end of the stream; or -1 and `errno`.
pub data Received : Type 0 where
  got : List ℕ → Received
  recv_failed : Errno → Received

-- send: how many bytes it took, or -1 and `errno`.
pub data Sent : Type 0 where
  sent : ℕ → Sent
  send_failed : Errno → Sent

-- select: -1, 0, or the descriptors that are ready.
pub data Selected : Type 0 where
  select_failed timed_out : Selected
  ready : List ℕ → Selected

pub record Kernel : Type 1 where
  pub World : Type 0
  -- recv(fd, buf, count, MSG_DONTWAIT)
  pub recv : ℕ → ℕ → World → Received × World
  -- send(fd, bytes, MSG_DONTWAIT)
  pub send : ℕ → List ℕ → World → Sent × World
  pub close : ℕ → World → World
  -- select(nfds, set), for a second
  pub select : ℕ → List ℕ → World → Selected × World
  -- accept(sockfd): the descriptor or -1, and the path that the peer is bound to
  pub accept : ℕ → World → (ℤ × List ℕ) × World
  -- stat(path): none on failure, and else whether the path is a socket
  pub stat : List ℕ → World → Option Bool × World
