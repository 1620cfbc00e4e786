-- ===== src/Node/Find.antt =====
-- The searches in the node list return the first node that fits.
use icehydra.Prelude.{
  ℕ, suc, ◌≡◌, refl, ap, ◌∙◌, Bool, true, false, ◌&&◌, inl, inr, Option, none, some, List, [], ◌∷◌,
  ◌++◌, ◌==◌, arith, Bool-cases, Option-cases, if◌then◌else◌, get_elem?, set, length, ℤ, minus_one,
  eqb_ℤ,
}
use mathlib.Core.Option
use icehydra.Node.{PubSubNode, str_same_n, str_same, find_node_by_id, find_node_by_name}

pub eqb_ℤ→eq : (a b : ℤ) → eqb_ℤ a b ≡ true → a ≡ b
eqb_ℤ→eq a b h = ground arith

pub eqb_ℤ_self : (a : ℤ) → eqb_ℤ a a ≡ true
eqb_ℤ_self a = ground arith

-- No entry passes the test.
abbrev pub AllMiss : {A : Type 0} → (A → Bool) → List A → Type 0
AllMiss test [] = Unit {0}
AllMiss test (x ∷ xs) = (test x ≡ false) × AllMiss test xs

-- A place that holds an entry that passes the test, behind entries that do not; or no entry passes.
abbrev pub IsFirst : {A : Type 0} → (A → Bool) → List A → Option ℕ → Type 0
IsFirst test xs none = AllMiss test xs
IsFirst {A} test xs (some i) =
    (pre : List A) × (a : A) × (post : List A) × (xs ≡ pre ++ a ∷ post)
    × (length pre ≡ i)
    × (test a ≡ true)
    × AllMiss test pre

IsFirst-map-suc :
    {A : Type 0} (test : A → Bool) (x : A) (xs : List A) (o : Option ℕ)
    → test x ≡ false
    → IsFirst test xs o
    → IsFirst test (x ∷ xs) (Option.map suc o)
IsFirst-map-suc test x xs none miss h = (miss, h)
IsFirst-map-suc test x xs (some i) miss (pre, a, post, e, len, hit, before) =
    (x ∷ pre, a, post, ap (◌∷◌ x) e, ap suc len, hit, (miss, before))

-- The node that is found is the first with the id; if none is found, no node has it.
pub find_node_by_id-IsFirst :
    (ns : List PubSubNode) (id : ℤ) → IsFirst (λ n. eqb_ℤ n.id id) ns (find_node_by_id ns id)
unfolding find_node_by_id
find_node_by_id-IsFirst [] id = tt
find_node_by_id-IsFirst (n ∷ ns) id = elim (Bool-cases (eqb_ℤ n.id id)) [
  | inl hit ↦ rw hit ([], n, ns, refl, refl, hit, tt)
  | inr miss ↦ rw miss (IsFirst-map-suc _ n ns _ miss (find_node_by_id-IsFirst ns id))
]

-- The list in which the first node with an id has lost its descriptor.
abbrev pub close_first : ℤ → List PubSubNode → List PubSubNode
close_first id [] = []
close_first id (n ∷ ns) =
    if eqb_ℤ n.id id then record n { connfd = minus_one } ∷ ns else n ∷ close_first id ns

-- The node that is found loses its descriptor at its place.
abbrev pub close_found : List PubSubNode → Option ℕ → List PubSubNode
close_found ns none = ns
close_found ns (some j) = elim (get_elem? ns j) [
  | none ↦ ns
  | some n ↦ set ns j (record n { connfd = minus_one })
]

close_found-suc :
    (n : PubSubNode) (ns : List PubSubNode) (o : Option ℕ)
    → close_found (n ∷ ns) (Option.map suc o) ≡ n ∷ close_found ns o
close_found-suc n ns none = refl
close_found-suc n ns (some j) = elim (Option-cases (get_elem? ns j)) [
  | inl e ↦ rw (close_found, e) refl
  | inr (m, e) ↦ rw (close_found, e) refl
]

pub close_found-first :
    (ns : List PubSubNode) (id : ℤ) → close_found ns (find_node_by_id ns id) ≡ close_first id ns
unfolding find_node_by_id
close_found-first [] id = refl
close_found-first (n ∷ ns) id = elim (Bool-cases (eqb_ℤ n.id id)) [
  | inl hit ↦ rw hit refl
  | inr miss ↦
      rw miss (close_found-suc n ns (find_node_by_id ns id) ∙ ap (◌∷◌ n) (close_found-first ns id))
]

abbrev pub starts_with : List ℕ → List ℕ → Bool
starts_with [] name = true
starts_with (x ∷ xs) [] = false
starts_with (x ∷ xs) (y ∷ ys) = x == y && starts_with xs ys

pub str_same_n-starts_with : (a b : List ℕ) → str_same_n a b (length a) ≡ starts_with a b
unfolding str_same_n
str_same_n-starts_with [] b = refl
str_same_n-starts_with (x ∷ a) [] = refl
str_same_n-starts_with (x ∷ a) (y ∷ b) = ap (◌&&◌ (x == y)) (str_same_n-starts_with a b)

-- The search by name finds the first node whose name is a prefix of the one that is looked for; if
-- none is found, no node's name is.
pub find_node_by_name-IsFirst :
    (ns : List PubSubNode) (name : List ℕ)
    → IsFirst (λ n. starts_with n.name name) ns (find_node_by_name ns name)
unfolding find_node_by_name
find_node_by_name-IsFirst [] name = tt
find_node_by_name-IsFirst (n ∷ ns) name =
    let same = str_same_n-starts_with n.name name in
    elim (Bool-cases (starts_with n.name name)) [
      | inl hit ↦ rw (same, hit) ([], n, ns, refl, refl, hit, tt)
      | inr miss ↦
          rw (same, miss) (IsFirst-map-suc _ n ns _ miss (find_node_by_name-IsFirst ns name))
    ]

pub str_same_n-append : (a b : List ℕ) → str_same_n a (a ++ b) (length a) ≡ true
unfolding str_same_n
str_same_n-append [] b = refl
str_same_n-append (x ∷ a) b = ground (arith, str_same_n-append a b)

pub str_same-eq : (a b : List ℕ) → str_same a b ≡ true → a ≡ b
unfolding str_same
str_same-eq [] [] e = refl
str_same-eq [] (y ∷ b) e = cc
str_same-eq (x ∷ a) [] e = cc
str_same-eq (x ∷ a) (y ∷ b) e = ground (arith, str_same-eq a b)

pub str_same_self : (a : List ℕ) → str_same a a ≡ true
unfolding str_same
str_same_self [] = refl
str_same_self (x ∷ a) = ground (arith, str_same_self a)

pub str_same_n-eq_front :
    (a b c : List ℕ) → length a ≡ length b → str_same_n a (b ++ c) (length a) ≡ true → a ≡ b
unfolding str_same_n
str_same_n-eq_front [] [] c h e = refl
str_same_n-eq_front [] (y ∷ b) c h e = absurd (omega arith)
str_same_n-eq_front (x ∷ a) [] c h e = absurd (omega arith)
str_same_n-eq_front (x ∷ a) (y ∷ b) c h e = ground (arith, str_same_n-eq_front a b c (omega arith))
