-- ===== src/Shm/Posix.antt =====
-- src/shm_manager.c, in the variant for IH_HAVE_POSIXSHM: the memory is a descriptor, opened by shm_open.
use icehydra.Prelude.{ℕ, Option, none, if◌then◌else◌, ℤ, is_neg, to_nat}
use Prim.Native.Nat.{bit_or}
use icehydra.Storage.{Storage}
use icehydra.Shm.{IcehydraShm}

-- PROT_READ|PROT_READ
abbrev pub protection : ℕ
protection = bit_or 1 1

module _ (s : Storage) where
  open s use {World}

  unfoldable pub shm_mmap : IcehydraShm → World → IcehydraShm × World
  shm_mmap shm w =
      let (at, w') = s.mmap shm.size protection shm.id w in (record shm { mem_ptr = at }, w')

  unfoldable pub shm_munmap : IcehydraShm → World → ℤ × World
  shm_munmap shm w = s.munmap shm.mem_ptr shm.size w

  -- What is returned, null on failure; the record; and the world.
  unfoldable pub shm_create : IcehydraShm → World → Option ℕ × IcehydraShm × World
  unfolding shm_mmap
  shm_create shm w =
      let (fd, w1) = s.shm_open shm.filename w in
      if is_neg fd
      then (none, shm, w1)
      else let (ret, w2) = s.ftruncate (to_nat fd) shm.size w1 in
        if is_neg ret
        then (none, shm, s.close (to_nat fd) w2)
        else let (mapped, w3) = shm_mmap (record shm { id = fd }) w2 in (mapped.mem_ptr, mapped, w3)
