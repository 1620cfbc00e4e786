-- ===== src/Wire/Ids.antt =====
-- set_pure_broadcast_field of src/conf.c: the ids are written one after the other.
use icehydra.Prelude.{
  ℕ, zero, suc, ◌≤◌, ◌<◌, ◌≡◌, refl, none, some, List, [], ◌∷◌, ◌++◌, arith, length, take, drop,
}
use icehydra.Run.{ok, fault}
use icehydra.Wire.{Packet, write_ids, set_num, set_pure_broadcast_field}

pub write_ids-ok :
    (num : ℕ) (ids dest : List ℕ)
    → num ≤ length ids
    → num ≤ length dest
    → write_ids num ids dest ≡ ok (take num ids ++ drop num dest)
unfolding write_ids
write_ids-ok zero ids dest h g = refl
write_ids-ok (suc num) [] dest h g = absurd (omega arith)
write_ids-ok (suc num) (i ∷ ids) [] h g = absurd (omega arith)
write_ids-ok (suc num) (i ∷ ids) (d ∷ dest) h g =
    rw (write_ids-ok num ids dest (omega arith) (omega arith))

pub write_ids-fault :
    (num : ℕ) (ids dest : List ℕ) → length dest < num → write_ids num ids dest ≡ fault
unfolding write_ids
write_ids-fault zero ids dest g = absurd (omega arith)
write_ids-fault (suc num) [] dest g = refl
write_ids-fault (suc num) (i ∷ ids) [] g = refl
write_ids-fault (suc num) (i ∷ ids) (d ∷ dest) g = rw (write_ids-fault num ids dest (omega arith))

-- The ids overwrite the memory behind the head, as many as are counted.
pub set_pure_broadcast_field-some :
    (p : Packet) (num : ℕ) (ids : List ℕ)
    → num ≤ length ids
    → num ≤ length p.tail
    → set_pure_broadcast_field (some p) none num (some ids)
      ≡ ok (
        some (record { head = set_num p.head num; tail = take num ids ++ drop num p.tail }),
        none,
      )
unfolding set_pure_broadcast_field
set_pure_broadcast_field-some p num ids h g = rw (write_ids-ok num ids p.tail h g)
