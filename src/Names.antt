-- ===== src/Names.antt =====
-- name_fix of src/icehydra_util.c: a name with a prefix and a suffix, in memory of its own.
use icehydra.Prelude.{
  ℕ, ◌+◌, ◌≤◌, ◌≡◌, refl, inl, inr, Bool-cases, Option, none, some, List, [], ◌++◌, arith, leb,
  if◌then◌else◌, length, length-append, codes,
}
use icehydra.Run.{Run, ok, fault, Ends, returned, faulted}

-- NAME_PREFIX and SOCK_NAME_SUFFIX
abbrev pub name_prefix : List ℕ
name_prefix = codes "/run/shm/"

abbrev pub sock_name_suffix : List ℕ
sock_name_suffix = codes "-sock"

-- strLen: 0 for a null pointer.
abbrev pub str_len : Option (List ℕ) → ℕ
str_len none = 0
str_len (some s) = length s

-- sprintf of a text, whose final NUL is written too, into memory of `room` bytes.
abbrev print_into : ℕ → List ℕ → Run (List ℕ)
print_into room text = if leb (length text + 1) room then ok text else fault

-- `reserved n` is how many bytes stand at what calloc returns for `n` bytes; it is promised to be no
-- less. `name` is given; `prefix` and `suffix` may be null, and if both are, the memory stays clear.
unfoldable pub name_fix : (ℕ → ℕ) → Option (List ℕ) → List ℕ → Option (List ℕ) → Run (List ℕ)
name_fix reserved prefix name suffix =
    let room = reserved (str_len prefix + length name + str_len suffix) in
    elim prefix [
      | none ↦ elim suffix [ none ↦ ok [] | some after ↦ print_into room (name ++ after) ]
      | some before ↦ elim suffix [
        | none ↦ print_into room (before ++ name)
        | some after ↦ print_into room (before ++ (name ++ after))
      ]
    ]

-- In memory of the size asked for, and with a prefix, a suffix or both, whatever the name, the final
-- NUL is written behind the memory that name_fix allocated.
pub name_fix-fault :
    (before name after : List ℕ)
    → (name_fix (λ n. n) (some before) name (some after) ≡ fault)
      × (name_fix (λ n. n) (some before) name none ≡ fault)
      × (name_fix (λ n. n) none name (some after) ≡ fault)
unfolding name_fix
name_fix-fault before name after = (
  ground (arith, length-append before (name ++ after), length-append name after),
  ground (arith, length-append before name),
  ground (arith, length-append name after),
)

-- calloc gives no byte more than it is asked for, when it is asked for as many as this text has.
abbrev pub NoByteMore : (ℕ → ℕ) → List ℕ → Type 0
NoByteMore reserved text = reserved (length text) ≤ length text

-- name_fix puts the three together, or calloc has given no byte more than it was asked for.
pub name_fix-Joins :
    (reserved : ℕ → ℕ) (before name after : List ℕ)
    → Ends
        (NoByteMore reserved (before ++ (name ++ after)))
        (λ text. text ≡ before ++ (name ++ after))
        (name_fix reserved (some before) name (some after))
unfolding name_fix
name_fix-Joins reserved before name after =
    let text = before ++ (name ++ after) in
    let size : length before + length name + length after ≡ length text =
      omega (arith, length-append before (name ++ after), length-append name after) in
    rw size (elim (Bool-cases (leb (length text + 1) (reserved (length text)))) [
      | inl more ↦ rw more (returned refl)
      | inr none_more ↦ rw none_more (faulted (ground (arith, none_more)))
    ])
