-- ===== src/Node.antt =====
-- include/conf.h and src/conf.c: a configured process, and the searches in the list of them.
-- A string is the list of its bytes before the final NUL.
pub mod Find
pub mod Entries
use icehydra.Prelude.{
  ℕ, zero, suc, ◌+◌, ◌/◌, ◌%◌, Bool, true, false, ◌&&◌, Option, none, some, List, [], ◌∷◌, ◌++◌,
  ◌==◌, if◌then◌else◌, length, replicate, ℤ, pos, negsuc, eqb_ℤ, set, get_elem?, ◌-◌,
}
use mathlib.Core.Option

-- CHUNK_TYES
pub data ChunkType : Type 0 where
  chunk_err chunk_pub chunk_sub : ChunkType

-- SHM_NODE_T
pub record ShmNode : Type 0 where
  pub shm_name : List ℕ
  pub shm_id : ℕ
  pub shm_size : ℤ

-- pub_sub_node_t, less its links: the nodes are kept as the list that `list_for_each` visits.
pub record PubSubNode : Type 0 where
  pub name : List ℕ
  pub chunk_type : ChunkType
  pub cpu_bind : ℤ
  pub id : ℤ
  pub connfd : ℤ
  pub shm_nodes : Option (List ShmNode)
  pub shm_node_num : ℕ
  pub pub_links_num : ℤ

-- isStrSameN, `!strncmp(a,b,N)`
unfoldable pub str_same_n : List ℕ → List ℕ → ℕ → Bool
str_same_n a b zero = true
str_same_n [] [] (suc n) = true
str_same_n [] (y ∷ b) (suc n) = false
str_same_n (x ∷ a) [] (suc n) = false
str_same_n (x ∷ a) (y ∷ b) (suc n) = x == y && str_same_n a b n

-- isStrSame, `!strcmp(a,b)`
unfoldable pub str_same : List ℕ → List ℕ → Bool
str_same [] [] = true
str_same [] (y ∷ b) = false
str_same (x ∷ a) [] = false
str_same (x ∷ a) (y ∷ b) = x == y && str_same a b

-- A search returns the position of the node that the source returns a pointer to.
pub find_node_by_id : List PubSubNode → ℤ → Option ℕ
find_node_by_id [] id = none
find_node_by_id (n ∷ ns) id =
    if eqb_ℤ n.id id then some 0 else Option.map suc (find_node_by_id ns id)

pub find_node_by_name : List PubSubNode → List ℕ → Option ℕ
unfolding str_same_n
find_node_by_name [] name = none
find_node_by_name (n ∷ ns) name =
    if str_same_n n.name name (length n.name)
    then some 0
    else Option.map suc (find_node_by_name ns name)

-- An `int` in memory: four bytes, the low one first, of its two's complement.
abbrev pub word : ℤ → ℕ
word (pos n) = n % 4294967296
word (negsuc n) = 4294967296 - 1 - n % 4294967296

abbrev pub bytes4 : ℕ → List ℕ
bytes4 n = (n % 256) ∷ (n / 256 % 256) ∷ (n / 65536 % 256) ∷ (n / 16777216 % 256) ∷ []

-- The 40 bytes of a SHM_NODE_T whose name has room in its 32 bytes. calloc cleared the rest.
unfoldable pub encode_shm : ShmNode → List ℕ
encode_shm n =
    (n.shm_name ++ replicate (32 - length n.shm_name) 0)
    ++ (bytes4 n.shm_id ++ bytes4 (word n.shm_size))

unfoldable pub encode_shms : List ShmNode → List ℕ
unfolding encode_shm
encode_shms [] = []
encode_shms (n ∷ ns) = encode_shm n ++ encode_shms ns
