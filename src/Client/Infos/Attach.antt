-- ===== src/Client/Infos/Attach.antt =====
-- A shared memory is found by its name among the entries that the broker sent, and attached.
use icehydra.Prelude.{
  ℕ, ◌<◌, ◌≡◌, ◌≢◌, refl, ap, ◌∙◌, some, Option, List, [], ◌∷◌, ◌++◌, append_assoc, pos,
}
use icehydra.Run.{ok}
use icehydra.Node.{ShmNode, word, encode_shms}
use icehydra.Node.Entries.{AllFit, entries_in, entries_in-encode_shms, signed, signed-word}
use icehydra.Client.{find_shm}
use icehydra.Storage.{Storage}
use icehydra.Shm.{shm_mmap, segment}
use icehydra.Client.Shm.{Misses, find_shm-cases}
use icehydra.Client.Infos.{ih_get_shm_by_id, ih_get_shm_by_name}

module _ (s : Storage) where
  by_id-attached :
      (i p : ℕ) (w w' : s.World)
      → s.shmat (pos i) w ≡ (some p, w')
      → ih_get_shm_by_id s (pos i) w ≡ (s.shm_segsz (pos i) w', some p, w')
  unfolding ih_get_shm_by_id shm_mmap segment
  by_id-attached i p w w' e = simp (ih_get_shm_by_id, shm_mmap, segment, e)

  -- In the memory at `infobuf` stand entries that fit, and whatever follows them. Behind entries of
  -- other names, none of them empty: if the entry of a name that is not empty holds an id that an
  -- `int` can, and the system attaches that segment, ih_get_shm_by_name returns the segment's size
  -- and its address.
  pub ih_get_shm_by_name-attached :
      (pre post : List ShmNode) (n : ShmNode) (rest : List ℕ) (i p : ℕ) (ptr : Option ℕ)
      (w w' : s.World)
      → AllFit (pre ++ n ∷ post)
      → Misses n.shm_name pre
      → n.shm_name ≢ []
      → n.shm_id ≡ word (pos i)
      → i < 2147483648
      → s.shmat (pos i) w ≡ (some p, w')
      → ih_get_shm_by_name s (encode_shms (pre ++ n ∷ post) ++ rest) n.shm_name ptr w
        ≡ ok (s.shm_segsz (pos i) w', some p, w')
  unfolding ih_get_shm_by_name
  ih_get_shm_by_name-attached pre post n rest i p ptr w w' fit miss full at small e =
      let entries : entries_in (encode_shms (pre ++ n ∷ post) ++ rest)
          ≡ pre ++ n ∷ (post ++ entries_in rest) =
        entries_in-encode_shms (pre ++ n ∷ post) rest fit
        ∙ append_assoc pre (n ∷ post) (entries_in rest) in
      let found =
        (find_shm-cases pre (post ++ entries_in rest) n (record n { shm_name = [] }) miss full
          refl).0 in
      let id : signed n.shm_id ≡ pos i = ap signed at ∙ signed-word (pos i) small in
      rw (ap (λ x. find_shm x n.shm_name) entries ∙ found, id, by_id-attached i p w w' e)
