-- ===== src/Broker/Loop/Attach.antt =====
-- A client that connects is given to the configured process of its name.
use icehydra.Prelude.{
  ℕ, ◌+◌, ◌-◌, ◌%◌, ◌<◌, ◌≡◌, refl, sym, ap, ◌∙◌, Bool, true, ◌&&◌, inl, inr, map, List, [], ◌∷◌,
  ◌++◌, arith, ◌==◌, eq→==, if◌then◌else◌, Bool-cases, length, length-append, drop, drop-of_length,
  ℤ,
}
use mathlib.Core.Path.{ap₂}
use icehydra.Node.{PubSubNode, str_same_n, str_same}
use icehydra.Node.Find.{str_same_n-append, str_same_n-eq_front, str_same-eq, str_same_self}
use icehydra.Broker.Loop.{name_prefix_len, sock_name_suffix_len, size_mod, is_peer, attach}

-- The path that a client of a given name is bound to: a prefix and a suffix of the right lengths.
abbrev pub SocketPath : List ℕ → List ℕ → Type 0
SocketPath un client =
    (prefix : List ℕ) × (suffix : List ℕ) × (length prefix ≡ name_prefix_len)
    × (length suffix ≡ sock_name_suffix_len)
    × (un ≡ prefix ++ (client ++ suffix))
    × (length un < size_mod)

front_fits :
    (a client suffix : List ℕ)
    → a ≡ client
    → (str_same_n a (client ++ suffix) (length a) && length a == length client) ≡ true
front_fits a client suffix h =
    rw (h, str_same_n-append client suffix) (eq→== (length client) (length client) refl)

module _ (un client : List ℕ) (path : SocketPath un client) where
  rest-of_path : (suffix : List ℕ) × (drop name_prefix_len un ≡ client ++ suffix)
  rest-of_path =
      let (prefix, suffix, n, m, e, small) = path in
      (
        suffix,
        ap (drop name_prefix_len) e
            ∙ ap (λ (x : ℕ). drop x (prefix ++ (client ++ suffix))) (sym n)
            ∙ drop-of_length prefix (client ++ suffix),
      )

  length-path :
      (length un + size_mod - name_prefix_len - sock_name_suffix_len) % size_mod ≡ length client
  length-path =
      let (prefix, suffix, n, m, e, small) = path in
      omega
        (arith, ap length e, length-append prefix (client ++ suffix), length-append client suffix)

  is_peer-eq : (node : PubSubNode) → is_peer node un ≡ true → node.name ≡ client
  unfolding is_peer
  is_peer-eq node h =
      let (suffix, e) = rest-of_path in
      let same : str_same_n node.name (drop name_prefix_len un) (length node.name) ≡ true =
        ground arith in
      let long : length node.name ≡ length client = ground (arith, length-path) in
      str_same_n-eq_front node.name client suffix long (rw e at same)

  is_peer_of_eq : (node : PubSubNode) → node.name ≡ client → is_peer node un ≡ true
  unfolding is_peer
  is_peer_of_eq node h =
      let (suffix, e) = rest-of_path in rw (e, length-path) (front_fits node.name client suffix h)

is_peer-str_same :
    (un client : List ℕ)
    → SocketPath un client
    → (node : PubSubNode) → is_peer node un ≡ str_same node.name client
is_peer-str_same un client path node = elim (Bool-cases (is_peer node un)) [
  | inl hit ↦
      hit
      ∙ sym (str_same_self client)
      ∙ ap (λ x. str_same x client) (sym (is_peer-eq un client path node hit))
  | inr miss ↦ elim (Bool-cases (str_same node.name client)) [
    | inl same ↦
        let hit = is_peer_of_eq un client path node (str_same-eq node.name client same) in
        absurd (ground arith)
    | inr other ↦ miss ∙ sym other
  ]
]

-- For a peer whose path is a client's name between 9 bytes and 5 bytes: a process takes the new
-- descriptor if it has the client's name, and is left as it is otherwise.
pub attach-client :
    (ns : List PubSubNode) (un client : List ℕ) (connfd links : ℤ)
    → SocketPath un client
    → (attach ns un connfd links).0
      ≡ map (λ n. if str_same n.name client then record n { connfd = connfd } else n) ns
unfolding attach
attach-client [] un client connfd links path = refl
attach-client (n ∷ ns) un client connfd links path =
    ap₂ ◌∷◌
      (ap (λ (b : Bool). if b then record n { connfd = connfd } else n)
        (is_peer-str_same un client path n))
      (attach-client ns un client connfd _ path)
