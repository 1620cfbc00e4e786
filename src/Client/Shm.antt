-- ===== src/Client/Shm.antt =====
-- The search of ih_get_shm_by_name in what the broker sent.
use icehydra.Prelude.{
  ℕ, ◌≡◌, ◌≢◌, refl, sym, ap, ◌∙◌, append-nil, true, false, inl, inr, none, some, List, [], ◌∷◌,
  ◌++◌, arith, Bool-cases, length, ◌==◌, eq→==,
}
use icehydra.Run.{ok, fault}
use icehydra.Node.{ShmNode, str_same}
use icehydra.Node.Find.{str_same-eq, str_same_self}
use icehydra.Client.{find_shm}

-- No entry has the name, and none has an empty one.
abbrev pub Misses : List ℕ → List ShmNode → Type 0
Misses name [] = Unit {0}
Misses name (n ∷ ns) = (n.shm_name ≢ name) × (n.shm_name ≢ []) × Misses name ns

length-zero : (xs : List ℕ) → (length xs == 0) ≡ true → xs ≡ []
length-zero [] h = refl
length-zero (x ∷ xs) h = absurd (ground arith)

skip :
    (n : ShmNode) (ns : List ShmNode) (name : List ℕ)
    → n.shm_name ≢ name
    → n.shm_name ≢ []
    → find_shm (n ∷ ns) name ≡ find_shm ns name
unfolding find_shm
skip n ns name miss full = elim (Bool-cases (str_same name n.shm_name)) [
  | inl same ↦ absurd (miss (sym (str_same-eq name n.shm_name same)))
  | inr other ↦ elim (Bool-cases (length n.shm_name == 0)) [
    | inl empty ↦ absurd (full (length-zero n.shm_name empty))
    | inr more ↦ rw (other, more)
  ]
]

find_shm-Misses :
    (pre ns : List ShmNode) (name : List ℕ)
    → Misses name pre
    → find_shm (pre ++ ns) name ≡ find_shm ns name
find_shm-Misses [] ns name h = refl
find_shm-Misses (n ∷ pre) ns name h =
    skip n (pre ++ ns) name h.0 h.1 ∙ find_shm-Misses pre ns name h.2

str_same-nil : (xs : List ℕ) → xs ≢ [] → str_same xs [] ≡ false
str_same-nil xs h = elim (Bool-cases (str_same xs [])) [
  | inl same ↦ absurd (h (str_same-eq xs [] same))
  | inr other ↦ other
]

-- Behind entries that have neither the name, which is not empty, nor an empty one: an entry with
-- the name is found, an entry with an empty name ends the search in vain, and the end of the buffer
-- is read past.
pub find_shm-cases :
    (pre post : List ShmNode) (n last : ShmNode)
    → Misses n.shm_name pre
    → n.shm_name ≢ []
    → last.shm_name ≡ []
    → (find_shm (pre ++ n ∷ post) n.shm_name ≡ ok (some n))
      × (find_shm (pre ++ last ∷ post) n.shm_name ≡ ok none)
      × (find_shm pre n.shm_name ≡ fault)
unfolding find_shm
find_shm-cases pre post n last h named empty = (
  find_shm-Misses pre (n ∷ post) n.shm_name h
      ∙ rw (str_same_self n.shm_name, eq→== (length n.shm_name) _ refl),
  find_shm-Misses pre (last ∷ post) n.shm_name h ∙ rw (empty, str_same-nil n.shm_name named),
  ap (λ x. find_shm x n.shm_name) (sym (append-nil pre)) ∙ find_shm-Misses pre [] n.shm_name h,
)
