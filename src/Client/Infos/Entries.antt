-- ===== src/Client/Infos/Entries.antt =====
-- The entries of an answer: their bytes hold a zero byte, behind the first name.
use icehydra.Prelude.{
  ℕ, suc, ◌*◌, ◌-◌, ◌≤◌, ◌<◌, ◌≡◌, ap, ◌∙◌, List, [], ◌∷◌, ◌++◌, append_assoc, arith, length, take,
  replicate, take-append_more, IsText,
}
use mathlib.Core.Path.{subst}
use icehydra.Node.{ShmNode, encode_shm, encode_shms, bytes4, word}
use icehydra.Config.Nodes.{AllNamed}
use icehydra.Broker.Reserve.{shm_node_size}
use icehydra.Broker.Reserve.Answers.{length-encode_shm}

zero-IsText : (xs ys : List ℕ) → IsText (xs ++ 0 ∷ ys) → ⊥
zero-IsText [] ys (t0, t) = omega arith
zero-IsText (x ∷ xs) ys (t0, t) = zero-IsText xs ys t

-- A name with less than 32 bytes has a zero byte behind it.
encode_shm-IsText :
    (n : ShmNode) (rest : List ℕ) → length n.shm_name < 32 → IsText (encode_shm n ++ rest) → ⊥
unfolding encode_shm
encode_shm-IsText n rest short t =
    let numbers = bytes4 n.shm_id ++ bytes4 (word n.shm_size) in
    let pad : replicate (32 - length n.shm_name) 0 ≡ 0 ∷ replicate (31 - length n.shm_name) 0 =
      let e : 32 - length n.shm_name ≡ suc (31 - length n.shm_name) = omega arith in
      ap (λ (x : ℕ). replicate {A = ℕ} x 0) e in
    let found : encode_shm n ++ rest
        ≡ n.shm_name ++ 0 ∷ (replicate (31 - length n.shm_name) 0 ++ (numbers ++ rest)) =
      rw pad (
        append_assoc (n.shm_name ++ 0 ∷ replicate (31 - length n.shm_name) 0) numbers rest
        ∙ append_assoc n.shm_name (0 ∷ replicate (31 - length n.shm_name) 0) (numbers ++ rest)) in
    zero-IsText n.shm_name _ (subst IsText found t)

-- The first entries, whatever follows them.
pub encode_shms-IsText :
    (num : ℕ) (ns : List ShmNode) (rest : List ℕ)
    → 0 < num
    → num ≤ length ns
    → AllNamed ns
    → IsText (take (shm_node_size * num) (encode_shms ns) ++ rest)
    → ⊥
unfolding encode_shms
encode_shms-IsText num [] rest some_of held named t = omega arith
encode_shms-IsText num (n ∷ ns) rest some_of held (short, named) t =
    let left = shm_node_size * num - shm_node_size in
    let front : take (shm_node_size * num) (encode_shm n ++ encode_shms ns)
        ≡ encode_shm n ++ take left (encode_shms ns) =
      take-append_more (encode_shm n) (encode_shms ns) (shm_node_size * num) left
        (omega (arith, length-encode_shm n (omega arith))) in
    encode_shm-IsText n (take left (encode_shms ns) ++ rest) (omega arith) (
      subst IsText
        (ap (λ x. x ++ rest) front ∙ append_assoc (encode_shm n) (take left (encode_shms ns)) rest)
        t)
