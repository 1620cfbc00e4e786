-- ===== src/Config/Start.antt =====
-- get_node_start of src/conf.c: the nodes of the file, chained up behind the start node.
use icehydra.Prelude.{
  ℕ, zero, suc, ◌+◌, ◌-◌, ◌≤◌, ◌<◌, ◌≡◌, refl, false, inl, inr, Option, none, some, List, [], ◌∷◌,
  ◌++◌, arith, length, length-append, Bool-cases, Option-cases, pos, eqb_ℤ,
}
use icehydra.Run.{Run, ok, fault, Ends, returned, faulted}
use icehydra.Run
use icehydra.Node.{PubSubNode}
use icehydra.Node.Find.{eqb_ℤ→eq}
use icehydra.Storage.{Storage}
use icehydra.Files.{read_file}
use icehydra.Config.{
  CJson, Chain, Loaded, loaded, unreadable, exits, add_node, finish, load_nodes, get_node_start,
}
use icehydra.Config.Nodes.{IsRead, get_icehydra_json_node-IsRead}

-- Each process has an id other than 0.
abbrev pub AllListed : List PubSubNode → Type 0
AllListed [] = Unit {0}
AllListed (n ∷ ns) = (eqb_ℤ n.id (pos 0) ≡ false) × IsRead n × AllListed ns

AllListed-append :
    (ns : List PubSubNode) (n : PubSubNode)
    → AllListed ns
    → eqb_ℤ n.id (pos 0) ≡ false
    → IsRead n
    → AllListed (ns ++ n ∷ [])
AllListed-append [] n h e r = (e, r, tt)
AllListed-append (m ∷ ns) n (e', r', h) e r = (e', r', AllListed-append ns n h e r)

-- The start node has the id 0, and the others are behind it, counted.
abbrev pub IsConfigured : PubSubNode → List PubSubNode → ℕ → Type 0
IsConfigured start nodes links =
    (start.id ≡ pos 0) × IsRead start × AllListed nodes × (length nodes ≤ links)

abbrev pub IsLoaded : Loaded → Type 0
IsLoaded unreadable = Unit {0}
IsLoaded exits = Unit {0}
IsLoaded (loaded start nodes) =
    (links : ℕ) × (start.pub_links_num ≡ pos links) × IsConfigured start nodes links

-- Of `count` nodes read, the first at least is not behind the start node.
abbrev IsChain : ℕ → Option Chain → Type 0
IsChain count none = Unit {0}
IsChain count (some c) = (0 < count) × IsConfigured c.start c.nodes (count - 1)

-- Parsing a value takes something off the text.
abbrev pub Shortens : CJson → Type 0
Shortens j =
    (text next : List ℕ) (v : j.Value) → j.parse text ≡ some (v, next) → length next < length text

add_node-IsChain :
    (count : ℕ) (chain : Option Chain) (node : PubSubNode) (c : Chain)
    → IsChain count chain
    → IsRead node
    → add_node chain node ≡ some c
    → IsChain (suc count) (some c)
unfolding add_node
add_node-IsChain count chain node c h r e = elim (Bool-cases (eqb_ℤ node.id (pos 0))) [
  | inl start ↦
      let same : record { start = node; nodes = [] } ≡ c = ground arith in
      rw (← same) (omega arith, (eqb_ℤ→eq node.id (pos 0) start, r, tt, omega arith))
  | inr listed ↦ behind listed chain h (rw listed at e)
]
  where
    behind :
        eqb_ℤ node.id (pos 0) ≡ false
        → (chain : Option Chain) → IsChain count chain
        → elim chain [ none ↦ none | some c ↦ some (record c { nodes = c.nodes ++ node ∷ [] }) ]
          ≡ some c
        → IsChain (suc count) (some c)
    behind listed none h e = absurd (ground arith)
    behind listed (some b) (some_read, (z, r', all, long)) e =
        let same : record b { nodes = b.nodes ++ node ∷ [] } ≡ c = ground arith in
        rw (← same) (
          omega arith,
          (
            z,
            r',
            AllListed-append b.nodes node all listed r,
            omega (arith, long, some_read, length-append b.nodes (node ∷ [])),
          ),
        )

module _ (s : Storage) (j : CJson) where
  finish-IsLoaded :
      (chain : Option Chain) (count : ℕ) (w : s.World)
      → IsChain count chain
      → Ends (Unit {0}) (λ r. IsLoaded r.0) (finish s j chain count w)
  unfolding finish
  finish-IsLoaded none count w h = faulted tt
  finish-IsLoaded (some c) count w (some_read, (z, r, all, long)) =
      returned (count - 1, refl, (z, r, all, long))

  load_nodes-IsLoaded :
      (fuel : ℕ) (text : List ℕ) (chain : Option Chain) (count : ℕ) (w : s.World)
      → Shortens j
      → length text < fuel
      → IsChain count chain
      → Ends (Unit {0}) (λ r. IsLoaded r.0) (load_nodes s j fuel text chain count w)
  unfolding load_nodes
  load_nodes-IsLoaded zero text chain count w p h q = absurd (omega arith)
  load_nodes-IsLoaded (suc fuel) text chain count w p h q = elim (Option-cases (j.parse text)) [
    | inl e ↦ rw (e, load_nodes) (finish-IsLoaded chain count w q)
    | inr ((json, next), e) ↦
        rw (e, load_nodes)
          (Run.bind (get_icehydra_json_node-IsRead s j json w) λ (node, w') r.
            elim (Option-cases (add_node chain node)) [
              | inl refused ↦ rw refused (returned tt)
              | inr (c, added) ↦ rw added (
                  load_nodes-IsLoaded fuel next (some c) (suc count) w' p
                    (omega (arith, p text next json e))
                    (add_node-IsChain count chain node c q r added))
            ])
  ]

  -- Reading the configuration ends, if parsing a value shortens the text. Unless it faults, returns
  -- NULL or ends the program, the start node has the id 0 and every process behind it another, no
  -- name is longer than 31 bytes, no descriptor is set, every count of shared memories is below 256
  -- and covered by the entries, and pub_links_num is at least the number of processes.
  pub get_node_start-IsLoaded :
      (file : List ℕ) (w : s.World)
      → Shortens j
      → Ends (Unit {0}) (λ r. IsLoaded r.0) (get_node_start s j file w)
  unfolding get_node_start
  get_node_start-IsLoaded file w p = elim (Option-cases (read_file s file w)) [
    | inl e ↦ rw (e, get_node_start) (returned tt)
    | inr (text, e) ↦
        rw (e, get_node_start)
          (load_nodes-IsLoaded (length text + 1) text none 0 w p (omega arith) tt)
  ]
