-- ===== src/Config/Memories.antt =====
-- init_shm of src/conf.c on an array that describes shared memories: every entry is what its object
-- says.
use icehydra.Prelude.{
  ℕ, suc, ◌+◌, ◌%◌, ◌<◌, ◌≡◌, refl, ap, ◌∙◌, none, some, List, [], ◌∷◌, arith, length, lt→ltb, ℤ,
  pos,
}
use icehydra.Run.{ok}
use icehydra.Node.{ShmNode, word}
use icehydra.Storage.{Storage}
use icehydra.Shm.{IcehydraShm, shm_create, shm_munmap}
use icehydra.Config.{CJson, max_file_name, shm_name_key, shm_size_key, init_entry, init_entries}

-- What shm_create is asked for, for a shared memory of a process.
abbrev pub requested : List ℕ → ℕ → ℤ → IcehydraShm
requested filename p size = record {
  size = size;
  proj_id = pos p;
  id = pos 0;
  filename = filename;
  mem_ptr = none;
}

module _ (s : Storage) (j : CJson) where
  -- The objects, numbered behind `p`, are made into the entries, from one world to the other: each
  -- has a size and a name that fits, and its shared memory is created, attached, and detached again.
  pub data Made (filename : List ℕ)
      : ℕ → List j.Value → List ShmNode → s.World → s.World → Type 0 where
    all_made : {p : ℕ} {w : s.World} → Made filename p [] [] w w
    made :
        {p q : ℕ} {item size name : j.Value} {items : List j.Value} {entries : List ShmNode}
        {x : List ℕ} {shm : IcehydraShm} {w w1 w' : s.World}
        → j.get_object_item_case_sensitive item shm_size_key ≡ some size
        → j.get_object_item_case_sensitive item shm_name_key ≡ some name
        → j.valuestring name ≡ some x
        → length x < max_file_name
        → shm_create s (requested filename (suc p) (j.valueint size)) w ≡ ok (shm, w1)
        → shm.mem_ptr ≡ some q
        → Made filename (suc p) items entries (shm_munmap s shm w1).1 w'
        → Made filename p
            (item ∷ items)
            (record { shm_name = x; shm_id = word shm.id; shm_size = shm.size } ∷ entries)
            w
            w'

  init_entry-made :
      (filename : List ℕ) (p q : ℕ) (item size name : j.Value) (x : List ℕ) (shm : IcehydraShm)
      (w w1 : s.World)
      → j.get_object_item_case_sensitive item shm_size_key ≡ some size
      → j.get_object_item_case_sensitive item shm_name_key ≡ some name
      → j.valuestring name ≡ some x
      → length x < max_file_name
      → shm_create s (requested filename p (j.valueint size)) w ≡ ok (shm, w1)
      → shm.mem_ptr ≡ some q
      → init_entry s j filename p item w
        ≡ ok (
          record { shm_name = x; shm_id = word shm.id; shm_size = shm.size },
          (shm_munmap s shm w1).1,
        )
  unfolding init_entry
  init_entry-made filename p q item size name x shm w w1 sized named text short created at =
      simp (init_entry, sized, named, created, at, text, lt→ltb (length x) max_file_name short)

  pub init_entries-Made :
      (filename : List ℕ) (p : ℕ) (items : List j.Value) (entries : List ShmNode) (w w' : s.World)
      → Made filename p items entries w w'
      → p + length items < 256
      → init_entries s j filename (length items) p items w ≡ ok (entries, p + length items, w')
  unfolding init_entries
  init_entries-Made filename p items entries w w' all_made h =
      let e : p ≡ p + 0 = omega arith in ap (λ (x : ℕ). ok ([], x, w)) e
  init_entries-Made filename p items entries w w'
        (made {q = q} {item = item} {size = size} {name = name} {items = rest} {entries = es}
          {x = x} {shm = shm} {w1 = w1} sized named text short created at more)
        h =
      let next : (p + 1) % 256 ≡ suc p = omega arith in
      let last : suc p + length rest ≡ p + suc (length rest) = omega arith in
      let ih : init_entries s j filename (length rest) (suc p) rest (shm_munmap s shm w1).1
          ≡ ok (es, p + suc (length rest), w') =
        init_entries-Made filename (suc p) rest es (shm_munmap s shm w1).1 w' more (omega arith)
        ∙ ap (λ (n : ℕ). ok (es, n, w')) last in
      rw
        (
          next,
          init_entry-made filename (suc p) q item size name x shm w w1 sized named text short
              created at,
          ih,
        )
        refl
