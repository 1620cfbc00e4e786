-- ===== src/Shm.antt =====
-- src/shm_manager.c, in the variant that is built by default (System V): a shared memory is created
-- for a name and a number, attached and detached. The other variants are in Memfd and Posix.
pub mod Memfd
pub mod Posix
use icehydra.Prelude.{
  ℕ, Bool, true, false, Option, none, some, List, if◌then◌else◌, ℤ, pos, is_pos, is_neg,
}
use icehydra.Run.{Run, ok, fault, ◌>>=◌}
use icehydra.Storage.{Storage}
use icehydra.Files.{make_dir}

-- icehydra_shm_t; `fd` and `id` are one word of it.
pub record IcehydraShm : Type 0 where
  pub size : ℤ
  pub proj_id : ℤ
  pub id : ℤ
  pub filename : List ℕ
  pub mem_ptr : Option ℕ

-- `shm->proj_id > 0 ? shm->proj_id : 1`
abbrev pub project : IcehydraShm → ℤ
project shm = if is_pos shm.proj_id then shm.proj_id else pos 1

module _ (s : Storage) where
  open s use {World}

  -- The result is `mem_ptr` of the record, null on failure.
  unfoldable pub shm_create : IcehydraShm → World → Run (IcehydraShm × World)
  shm_create shm w = do
    (ret, w1) ← make_dir s shm.filename w
    let (id, w2) = s.shmget (s.ftok shm.filename (project shm) w1) shm.size true w1
    let (at, w3) = s.shmat id w2
    ok (elim at [
      | none ↦ (record shm { mem_ptr = none }, w3)
      | some p ↦ (record shm { mem_ptr = some p; id = id }, s.memset_zero p shm.size w3)
    ])

  -- The segment that shm_mmap attaches: the one named by `id`, or looked up if that is negative.
  unfoldable pub segment : IcehydraShm → World → ℤ × World
  segment shm w =
      if is_neg shm.id
      then s.shmget (s.ftok shm.filename (project shm) w) (pos 0) false w
      else (shm.id, w)

  unfoldable pub shm_mmap : IcehydraShm → World → IcehydraShm × World
  unfolding segment
  shm_mmap shm w =
      let (id, w1) = segment shm w in
      let (at, w2) = s.shmat id w1 in
      elim at [
        | none ↦ (record shm { mem_ptr = none; id = id }, w2)
        | some p ↦ (record shm { mem_ptr = some p; id = id; size = s.shm_segsz id w2 }, w2)
      ]

  unfoldable pub shm_munmap : IcehydraShm → World → ℤ × World
  shm_munmap shm w = s.shmdt shm.mem_ptr w
