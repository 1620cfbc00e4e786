-- ===== src/Node/Entries.antt =====
-- SHM_NODE_T of include/conf.h in memory: the entries that the client reads are those that were laid
-- out.
use icehydra.Prelude.{
  ℕ, zero, suc, ◌+◌, ◌*◌, ◌-◌, ◌/◌, ◌<◌, ◌≡◌, refl, sym, ap, ◌∙◌, List, [], ◌∷◌, ◌++◌, append_assoc,
  arith, ltb, if◌then◌else◌, length, length-append, length-replicate, drop, replicate,
  drop-of_length, ℤ, pos, negsuc, IsText,
}
use mathlib.Core.Path.{ap₂}
use icehydra.Wire.{byte_at}
use icehydra.Node.{ShmNode, encode_shm, encode_shms, bytes4, word}

-- An `unsigned int` read as an `int`.
abbrev pub signed : ℕ → ℤ
signed n = if ltb n 2147483648 then pos n else negsuc (4294967295 - n)

-- The string at the front of some memory.
pub until_zero : List ℕ → List ℕ
until_zero [] = []
until_zero (zero ∷ bs) = []
until_zero (suc b ∷ bs) = suc b ∷ until_zero bs

abbrev pub number4 : List ℕ → ℕ
number4 bs = byte_at bs 0 + 256 * byte_at bs 1 + 65536 * byte_at bs 2 + 16777216 * byte_at bs 3

-- The entry at the front of some memory, its name read as the string that begins there.
unfoldable pub decode_shm : List ℕ → ShmNode
unfolding until_zero
decode_shm bs = record {
  shm_name = until_zero bs;
  shm_id = number4 (drop 32 bs);
  shm_size = signed (number4 (drop 36 bs));
}

-- So many entries, one behind the other.
unfoldable pub decode_shms : ℕ → List ℕ → List ShmNode
unfolding decode_shm
decode_shms zero bs = []
decode_shms (suc n) bs = decode_shm bs ∷ decode_shms n (drop 40 bs)

-- The number fits an `int`.
abbrev pub FitsInt : ℤ → Type 0
FitsInt (pos n) = n < 2147483648
FitsInt (negsuc n) = n < 2147483648

-- The entry is as C can hold it: a name of less than 32 bytes, none of them zero, and numbers that
-- fit their fields.
abbrev pub Fits : ShmNode → Type 0
Fits n = (length n.shm_name < 32) × IsText n.shm_name × (n.shm_id < 4294967296) × FitsInt n.shm_size

abbrev pub AllFit : List ShmNode → Type 0
AllFit [] = Unit {0}
AllFit (n ∷ ns) = Fits n × AllFit ns

pub signed-word : (z : ℤ) → FitsInt z → signed (word z) ≡ z
signed-word (pos n) h = ground arith
signed-word (negsuc n) h = ground arith

word-below : (z : ℤ) → FitsInt z → word z < 4294967296
word-below (pos n) h = omega arith
word-below (negsuc n) h = omega arith

number4-bytes4 : (i : ℕ) (rest : List ℕ) → i < 4294967296 → number4 (bytes4 i ++ rest) ≡ i
number4-bytes4 i rest h = omega arith

until_zero-append : (xs ys : List ℕ) → IsText xs → until_zero (xs ++ 0 ∷ ys) ≡ xs
unfolding until_zero
until_zero-append [] ys t = refl
until_zero-append (zero ∷ xs) ys (t0, t) = absurd (omega arith)
until_zero-append (suc x ∷ xs) ys (t0, t) = ap (◌∷◌ (suc x)) (until_zero-append xs ys t)

module _ (n : ShmNode) (rest : List ℕ) (fits : Fits n) where
  -- The name with its room, and the numbers.
  abbrev room : List ℕ
  room = n.shm_name ++ replicate (32 - length n.shm_name) 0

  abbrev numbers : List ℕ
  numbers = bytes4 n.shm_id ++ bytes4 (word n.shm_size)

  length-room : length room ≡ 32
  length-room = omega (
    arith,
    fits.0,
    length-append n.shm_name (replicate (32 - length n.shm_name) 0),
    length-replicate {A = ℕ} (32 - length n.shm_name) 0,
  )

  laid_out : encode_shm n ++ rest ≡ room ++ (numbers ++ rest)
  unfolding encode_shm
  laid_out = append_assoc room numbers rest

  drop-laid_out : drop 32 (encode_shm n ++ rest) ≡ numbers ++ rest
  drop-laid_out =
      ap (drop 32) laid_out
      ∙ ap (λ (i : ℕ). drop i (room ++ (numbers ++ rest))) (sym length-room)
      ∙ drop-of_length room (numbers ++ rest)

  drop-size : drop 36 (encode_shm n ++ rest) ≡ bytes4 (word n.shm_size) ++ rest
  drop-size =
      let e : 36 ≡ length (room ++ bytes4 n.shm_id) =
        omega (arith, length-room, length-append room (bytes4 n.shm_id)) in
      ap (drop 36)
        (laid_out ∙ sym (append_assoc room (bytes4 n.shm_id) (bytes4 (word n.shm_size) ++ rest)))
      ∙ ap (λ (i : ℕ). drop i ((room ++ bytes4 n.shm_id) ++ (bytes4 (word n.shm_size) ++ rest))) e
      ∙ drop-of_length (room ++ bytes4 n.shm_id) (bytes4 (word n.shm_size) ++ rest)

  name-laid_out : until_zero (encode_shm n ++ rest) ≡ n.shm_name
  name-laid_out =
      let pad : 32 - length n.shm_name ≡ suc (31 - length n.shm_name) = omega (arith, fits.0) in
      let more = replicate (31 - length n.shm_name) 0 ++ (numbers ++ rest) in
      ap until_zero (
        laid_out
        ∙ append_assoc n.shm_name (replicate (32 - length n.shm_name) 0) (numbers ++ rest)
        ∙ ap (λ (i : ℕ). n.shm_name ++ (replicate i 0 ++ (numbers ++ rest))) pad)
      ∙ until_zero-append n.shm_name more fits.1

  -- Reading an entry back from the bytes that lay it out, whatever follows them, gives the entry.
  pub decode_shm-encode_shm : decode_shm (encode_shm n ++ rest) ≡ n
  unfolding decode_shm
  decode_shm-encode_shm =
      let id : number4 (drop 32 (encode_shm n ++ rest)) ≡ n.shm_id =
        ap number4 drop-laid_out
        ∙ number4-bytes4 n.shm_id (bytes4 (word n.shm_size) ++ rest) fits.2 in
      let size : signed (number4 (drop 36 (encode_shm n ++ rest))) ≡ n.shm_size =
        ap (λ x. signed (number4 x)) drop-size
        ∙ ap signed (number4-bytes4 (word n.shm_size) rest (word-below n.shm_size fits.3))
        ∙ signed-word n.shm_size fits.3 in
      rw (name-laid_out, id, size) refl

-- The entries that stand in some memory: as many as begin in it with all their bytes.
abbrev pub entries_in : List ℕ → List ShmNode
entries_in bs = decode_shms (length bs / 40) bs

length-encode_shm : (n : ShmNode) → Fits n → length (encode_shm n) ≡ 40
unfolding encode_shm
length-encode_shm n fits =
    omega (arith, length-room n [] fits, length-append (room n [] fits) (numbers n [] fits))

decode_shms-encode_shms :
    (ns : List ShmNode) (more : ℕ) (rest : List ℕ)
    → AllFit ns
    → decode_shms (length ns + more) (encode_shms ns ++ rest) ≡ ns ++ decode_shms more rest
unfolding decode_shms encode_shms
decode_shms-encode_shms [] more rest h =
    let e : 0 + more ≡ more = omega arith in ap (λ (i : ℕ). decode_shms i rest) e
decode_shms-encode_shms (n ∷ ns) more rest (fits, h) =
    let e : suc (length ns) + more ≡ suc (length ns + more) = omega arith in
    let split : (encode_shm n ++ encode_shms ns) ++ rest
        ≡ encode_shm n ++ (encode_shms ns ++ rest) =
      append_assoc (encode_shm n) (encode_shms ns) rest in
    let len = length-encode_shm n fits in
    let behind : drop 40 (encode_shm n ++ (encode_shms ns ++ rest)) ≡ encode_shms ns ++ rest =
      ap (λ (i : ℕ). drop i (encode_shm n ++ (encode_shms ns ++ rest))) (sym len)
      ∙ drop-of_length (encode_shm n) (encode_shms ns ++ rest) in
    ap (λ (i : ℕ). decode_shms i ((encode_shm n ++ encode_shms ns) ++ rest)) e
    ∙ ap (decode_shms (suc (length ns + more))) split
    ∙ ap₂ ◌∷◌ (decode_shm-encode_shm n (encode_shms ns ++ rest) fits)
        (ap (decode_shms (length ns + more)) behind ∙ decode_shms-encode_shms ns more rest h)

pub length-encode_shms : (ns : List ShmNode) → AllFit ns → length (encode_shms ns) ≡ 40 * length ns
unfolding encode_shms
length-encode_shms [] h = refl
length-encode_shms (n ∷ ns) (fits, h) = omega (
  arith,
  length-append (encode_shm n) (encode_shms ns),
  length-encode_shm n fits,
  length-encode_shms ns h,
)

-- Reading the entries of a memory in which entries that fit were laid out gives these, and then what
-- the rest of the memory holds.
pub entries_in-encode_shms :
    (ns : List ShmNode) (rest : List ℕ)
    → AllFit ns
    → entries_in (encode_shms ns ++ rest) ≡ ns ++ entries_in rest
entries_in-encode_shms ns rest h =
    let e : length (encode_shms ns ++ rest) / 40 ≡ length ns + length rest / 40 =
      omega (arith, length-encode_shms ns h, length-append (encode_shms ns) rest) in
    ap (λ (i : ℕ). decode_shms i (encode_shms ns ++ rest)) e
    ∙ decode_shms-encode_shms ns (length rest / 40) rest h
