-- ===== src/Config/Order.antt =====
-- get_node_start of src/conf.c on a file that describes the processes one after the other.
use icehydra.Prelude.{
  ℕ, zero, suc, ◌+◌, ◌-◌, ◌<◌, ◌≡◌, refl, ap, ◌∙◌, false, none, some, Option, List, [], ◌∷◌, ◌++◌,
  append_assoc, append-nil, arith, length, pos, eqb_ℤ,
}
use mathlib.Core.Path.{ap₂}
use icehydra.Run.{ok}
use icehydra.Node.{PubSubNode}
use icehydra.Storage.{Storage}
use icehydra.Files.{read_file}
use icehydra.Config.{CJson, Chain, loaded, exits, add_node, finish, load_nodes, get_node_start}
use icehydra.Config.Start.{Shortens}
use icehydra.Config.Items.{Describes, get_icehydra_json_node-Describes}

-- No process but the start node has the id 0.
abbrev pub NoneStarts : List PubSubNode → Type 0
NoneStarts [] = Unit {0}
NoneStarts (n ∷ ns) = (eqb_ℤ n.id (pos 0) ≡ false) × NoneStarts ns

add_node-behind :
    (c : Chain) (node : PubSubNode)
    → eqb_ℤ node.id (pos 0) ≡ false
    → add_node (some c) node ≡ some (record c { nodes = c.nodes ++ node ∷ [] })
unfolding add_node
add_node-behind c node other = rw other refl

add_node-start :
    (chain : Option Chain) (node : PubSubNode)
    → node.id ≡ pos 0
    → add_node chain node ≡ some (record { start = node; nodes = [] })
unfolding add_node
add_node-start chain node zero_id = simp zero_id

module _ (s : Storage) (j : CJson) where
  -- A text in which values stand that describe these processes, and no more values.
  pub data Reads : List ℕ → List PubSubNode → s.World → s.World → Type 0 where
    ends : {text : List ℕ} {w : s.World} → j.parse text ≡ none → Reads text [] w w
    reads :
        {text next : List ℕ} {json : j.Value} {node : PubSubNode} {ns : List PubSubNode}
        {w w1 w' : s.World}
        → j.parse text ≡ some (json, next)
        → Describes s j json node w w1
        → Reads next ns w1 w'
        → Reads text (node ∷ ns) w w'

  -- One round of the loop.
  load_nodes-step :
      (fuel count : ℕ) (text next : List ℕ) (json : j.Value) (chain : Option Chain) (c : Chain)
      (node : PubSubNode) (w w1 : s.World)
      → j.parse text ≡ some (json, next)
      → Describes s j json node w w1
      → add_node chain node ≡ some c
      → load_nodes s j (suc fuel) text chain count w
        ≡ load_nodes s j fuel next (some c) (suc count) w1
  unfolding load_nodes
  load_nodes-step fuel count text next json chain c node w w1 e described added =
      rw (load_nodes, e, get_icehydra_json_node-Describes s j json node w w1 described)
        (ap
          (λ (o : Option Chain). elim o [
            | none ↦ ok (exits, w1)
            | some c ↦ load_nodes s j fuel next (some c) (suc count) w1
          ])
          added)

  -- Behind a start node, the processes are chained up in their order.
  load_nodes-Reads :
      (fuel count : ℕ) (text : List ℕ) (start : PubSubNode) (before ns : List PubSubNode)
      (w w' : s.World)
      → Shortens j
      → length text < fuel
      → Reads text ns w w'
      → NoneStarts ns
      → load_nodes s j fuel text (some (record { start = start; nodes = before })) (suc count) w
        ≡ ok (loaded (record start { pub_links_num = pos (count + length ns) }) (before ++ ns), w')
  unfolding load_nodes finish
  load_nodes-Reads zero count text start before ns w w' p h r none_starts = absurd (omega arith)
  load_nodes-Reads (suc fuel) count text start before ns w w' p h (ends e) none_starts =
      let links : suc count - 1 ≡ count + 0 = omega arith in
      rw (load_nodes, e, links, append-nil before) refl
  load_nodes-Reads (suc fuel) count text start before ns w w' p h
        (reads {next = next} {json = json} {node = node} {ns = rest} {w1 = w1} e described more)
        (other, others) =
      let links : suc count + length rest ≡ count + suc (length rest) = omega arith in
      let ih =
        load_nodes-Reads fuel (suc count) next start (before ++ node ∷ []) rest w1 w' p
          (omega (arith, p text next json e)) more others in
      let whole : (before ++ node ∷ []) ++ rest ≡ before ++ node ∷ rest =
        append_assoc before (node ∷ []) rest in
      load_nodes-step fuel (suc count) text next json _ _ node w w1 e described
        (add_node-behind _ node other)
      ∙ ih
      ∙ ap₂
          (λ (i : ℕ) (l : List PubSubNode).
            ok (loaded (record start { pub_links_num = pos i }) l, w'))
          links whole

  -- The file is a text of values that describe processes, the first one with the id 0 and no other,
  -- and parsing a value shortens the text. Then get_node_start returns the first one as the start
  -- node, which counts the others, with the others behind it in the order of the file, each with
  -- the name, the id, the kind, the processor and the shared memories that its value says.
  pub get_node_start-Reads :
      (file text : List ℕ) (start : PubSubNode) (ns : List PubSubNode) (w w' : s.World)
      → Shortens j
      → read_file s file w ≡ some text
      → Reads text (start ∷ ns) w w'
      → start.id ≡ pos 0
      → NoneStarts ns
      → get_node_start s j file w
        ≡ ok (loaded (record start { pub_links_num = pos (length ns) }) ns, w')
  unfolding get_node_start
  get_node_start-Reads file text start ns w w' p given
        (reads {next = next} {json = json} {w1 = w1} e described more) at_start none_starts =
      let fuel : length text + 1 ≡ suc (length text) = omega arith in
      let count : 0 + length ns ≡ length ns = omega arith in
      let rest =
        load_nodes-Reads (length text) 0 next start [] ns w1 w' p
          (omega (arith, p text next json e)) more none_starts in
      rw (get_node_start, given, fuel)
        (load_nodes-step (length text) 0 text next json none _ start w w1 e described
            (add_node-start none start at_start)
          ∙ rest
          ∙ ap (λ (i : ℕ). ok (loaded (record start { pub_links_num = pos i }) ns, w')) count)
