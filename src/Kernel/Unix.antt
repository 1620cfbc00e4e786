-- ===== src/Kernel/Unix.antt =====
-- The system calls that open unix sockets and pass descriptors, over the world of a kernel.
use icehydra.Prelude.{ℕ, ◌≡◌, false, Option, some, List, ℤ, is_neg}
use icehydra.Kernel.{Kernel, Received}

-- What sendmsg and recvmsg carry: the bytes, and a descriptor as ancillary data.
pub record Message : Type 0 where
  pub bytes : List ℕ
  pub rights : Option ℤ

pub record Unix (k : Kernel) : Type 0 where
  pub unlink : List ℕ → k.World → k.World
  -- socket(AF_UNIX, SOCK_STREAM, 0)
  pub socket : k.World → ℤ × k.World
  -- bind(fd, path) and connect(fd, path): 0 or -1
  pub bind : ℕ → List ℕ → k.World → ℤ × k.World
  pub connect : ℕ → List ℕ → k.World → ℤ × k.World
  -- chmod(path, mode)
  pub chmod : List ℕ → ℕ → k.World → k.World
  pub listen : ℤ → ℤ → k.World → ℤ × k.World
  -- recv(fd, buf, count, MSG_WAITALL)
  pub recv_all : ℤ → ℕ → k.World → Received × k.World
  -- sendmsg: how many bytes it took, or -1
  pub sendmsg : ℕ → Message → k.World → ℤ × k.World
  -- recvmsg, for at most so many bytes: none on failure
  pub recvmsg : ℤ → ℕ → k.World → Option Message × k.World

-- What bind(2), chmod(2) and connect(2) document, as far as the program relies on it: `name_of` is
-- the path that a descriptor is bound to, `peer_of` the path that it is connected to.
pub record IsUnix (k : Kernel) (u : Unix k) : Type 0 where
  pub name_of : ℕ → k.World → Option (List ℕ)
  pub peer_of : ℕ → k.World → Option (List ℕ)
  pub bind_name :
      (fd : ℕ) (path : List ℕ) (w w' : k.World) (r : ℤ)
      → u.bind fd path w ≡ (r, w')
      → is_neg r ≡ false
      → name_of fd w' ≡ some path
  pub chmod_name :
      (fd mode : ℕ) (path : List ℕ) (w : k.World) → name_of fd (u.chmod path mode w) ≡ name_of fd w
  pub connect_peer :
      (fd : ℕ) (path : List ℕ) (w w' : k.World) (r : ℤ)
      → u.connect fd path w ≡ (r, w')
      → is_neg r ≡ false
      → peer_of fd w' ≡ some path
  pub connect_name :
      (fd g : ℕ) (path : List ℕ) (w w' : k.World) (r : ℤ)
      → u.connect fd path w ≡ (r, w')
      → name_of g w' ≡ name_of g w
  pub listen_name :
      (fd backlog : ℤ) (g : ℕ) (w w' : k.World) (r : ℤ)
      → u.listen fd backlog w ≡ (r, w')
      → name_of g w' ≡ name_of g w
