-- ===== src/Storage.antt =====
-- What the program asks of the operating system about files, processes and shared memories. The calls
-- are parameters of the model, over `World`, everything outside the process.
use icehydra.Prelude.{ℕ, Bool, Option, List, ℤ}

-- struct flock: the kind of lock and the range, which begins at `start` from `whence`.
pub data LockType : Type 0 where
  rdlck wrlck unlck : LockType

pub record Flock : Type 0 where
  pub l_type : LockType
  pub l_start : ℕ
  pub l_whence : ℕ
  pub l_len : ℕ

pub record Storage : Type 1 where
  pub World : Type 0
  -- whether stat succeeds and the path is a directory
  pub is_dir : List ℕ → World → Bool
  -- st_size of a path, and the bytes that a file gives, or none if it does not open
  pub st_size : List ℕ → World → ℕ
  pub contents : List ℕ → World → Option (List ℕ)
  -- popen: the texts that fgets gives one after the other, or none on failure
  pub popen : List ℕ → World → Option (List (List ℕ)) × World
  pub pclose : World → World
  -- fcntl(fd, F_SETLK, lock)
  pub set_lock : ℤ → Flock → World → ℤ × World
  -- sched_setaffinity(0, mask), the mask as the list of its processors
  pub sched_setaffinity : List ℕ → World → ℤ × World
  pub ftok : List ℕ → ℤ → World → ℤ
  -- shmget(key, size, create)
  pub shmget : ℤ → ℤ → Bool → World → ℤ × World
  -- shmat: the address, or none on failure
  pub shmat : ℤ → World → Option ℕ × World
  pub shmdt : Option ℕ → World → ℤ × World
  pub memset_zero : ℕ → ℤ → World → World
  -- the size of a segment
  pub shm_segsz : ℤ → World → ℤ
  -- memfd_create(name, 0), and shm_open(name, O_CREAT|O_RDWR, 0666)
  pub memfd_create : List ℕ → World → ℤ × World
  pub shm_open : List ℕ → World → ℤ × World
  pub ftruncate : ℕ → ℤ → World → ℤ × World
  pub close : ℕ → World → World
  -- mmap(size, protection, MAP_SHARED, fd): the address, or none on failure
  pub mmap : ℤ → ℕ → ℤ → World → Option ℕ × World
  pub munmap : Option ℕ → ℤ → World → ℤ × World
