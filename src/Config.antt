-- ===== src/Config.antt =====
-- src/conf.c: the configuration file becomes the list of processes. cJSON is a parameter.
pub mod Nodes
pub mod Start
pub mod Memories
pub mod Items
pub mod Order
use icehydra.Prelude.{
  codes, ℕ, zero, suc, ◌+◌, ◌-◌, ◌%◌, ◌<◌, Bool, true, false, Option, none, some, List, [], ◌∷◌,
  ◌++◌, ltb, ◌==◌, if◌then◌else◌, length, replicate, ℤ, pos, negsuc, eqb_ℤ, not, ◌&&◌,
}
use icehydra.Run.{Run, ok, fault, out_of_fuel, ◌>>=◌}
use icehydra.Node.{ShmNode, PubSubNode, chunk_err, chunk_pub, chunk_sub, str_same, word}
use icehydra.Storage.{Storage}
use icehydra.Files.{read_file}
use icehydra.Names.{name_prefix}
use icehydra.Shm.{IcehydraShm, shm_create, shm_munmap}

-- What the program uses of cJSON: cJSON_ParseWithOpts with the text behind the value, the searches
-- in an object, and a value's fields. A null pointer is none.
pub record CJson : Type 1 where
  pub Value : Type 0
  pub parse : List ℕ → Option (Value × List ℕ)
  pub get_object_item : Value → List ℕ → Option Value
  pub get_object_item_case_sensitive : Value → List ℕ → Option Value
  pub array_size : Value → ℕ
  pub children : Value → List Value
  pub key : Value → List ℕ
  pub valuestring : Value → Option (List ℕ)
  pub valueint : Value → ℤ

-- MAX_FILE_NAME
abbrev pub max_file_name : ℕ
max_file_name = 32

-- The keys of a node, and of a shared memory.
abbrev pub ih_name : List ℕ
ih_name = codes "ih-name"

abbrev pub ih_pid : List ℕ
ih_pid = codes "ih-pid"

abbrev pub ih_cpu_bind : List ℕ
ih_cpu_bind = codes "ih-cpu_bind"

abbrev pub ih_shm : List ℕ
ih_shm = codes "ih-shm"

abbrev pub shm_name_key : List ℕ
shm_name_key = codes "shm_name"

abbrev pub shm_size_key : List ℕ
shm_size_key = codes "shm_size"

-- item_list
abbrev pub item_list : List (List ℕ)
item_list = ih_name ∷ ih_pid ∷ ih_cpu_bind ∷ ih_shm ∷ []

-- strcpy to a field of MAX_FILE_NAME bytes, the final NUL included.
abbrev pub copy_name : Option (List ℕ) → Run (List ℕ)
copy_name none = fault
copy_name (some name) = if ltb (length name) max_file_name then ok name else fault

-- create_pub_sub_object
abbrev pub create_pub_sub_object : PubSubNode
create_pub_sub_object = record {
  name = [];
  chunk_type = chunk_err;
  cpu_bind = pos 0;
  id = pos 0;
  connfd = pos 0;
  shm_nodes = none;
  shm_node_num = 0;
  pub_links_num = pos 0;
}

abbrev pub empty_shm : ShmNode
empty_shm = record { shm_name = []; shm_id = 0; shm_size = pos 0 }

-- What get_node_start does: it returns the start node, whose list holds the nodes; returns NULL; or
-- ends the program.
pub data Loaded : Type 0 where
  loaded : PubSubNode → List PubSubNode → Loaded
  unreadable exits : Loaded

-- The start node read last and the list at it.
pub record Chain : Type 0 where
  pub start : PubSubNode
  pub nodes : List PubSubNode

-- The first node must have the id 0; every node with the id 0 starts a new list.
unfoldable pub add_node : Option Chain → PubSubNode → Option Chain
add_node chain node =
    if eqb_ℤ node.id (pos 0)
    then some (record { start = node; nodes = [] })
    else elim chain [ none ↦ none | some c ↦ some (record c { nodes = c.nodes ++ node ∷ [] }) ]

module _ (s : Storage) (j : CJson) where
  open s use {World}
  open j use {Value}

  -- The body of cJSON_ArrayForEach in init_shm
  unfoldable pub init_entry : List ℕ → ℕ → Value → World → Run (ShmNode × World)
  unfolding shm_create
  init_entry filename proj_id item w = elim (j.get_object_item_case_sensitive item shm_size_key) [
    | none ↦ fault
    | some size ↦ elim (j.get_object_item_case_sensitive item shm_name_key) [
      | none ↦ fault
      | some shm_name ↦ do
        (shm, w1) ←
            shm_create s
              (record {
                size = j.valueint size;
                proj_id = pos proj_id;
                id = pos 0;
                filename = filename;
                mem_ptr = none;
              })
              w
        elim shm.mem_ptr [
          | none ↦ fault
          | some p ↦ do
            name ← copy_name (j.valuestring shm_name)
            ok (
              record { shm_name = name; shm_id = word shm.id; shm_size = shm.size },
              (shm_munmap s shm w1).1,
            )
        ]
    ]
  ]

  -- The loop of init_shm, over an array of `room` entries; `shm_proj_id` is a byte.
  unfoldable pub init_entries : List ℕ → ℕ → ℕ → List Value → World → Run (List ShmNode × ℕ × World)
  unfolding init_entry
  init_entries filename room proj_id [] w = ok (replicate room empty_shm, proj_id, w)
  init_entries filename zero proj_id (item ∷ items) w = fault
  init_entries filename (suc room) proj_id (item ∷ items) w = do
    (entry, w1) ← init_entry filename ((proj_id + 1) % 256) item w
    (rest, last, w2) ← init_entries filename room ((proj_id + 1) % 256) items w1
    ok (entry ∷ rest, last, w2)

  unfoldable pub init_shm : PubSubNode → Value → World → Run (PubSubNode × World)
  unfolding init_entries
  init_shm node json w = do
    (entries, last, w') ←
        init_entries (name_prefix ++ node.name) (j.array_size json) 0 (j.children json) w
    ok (record node { shm_nodes = some entries; shm_node_num = last }, w')

  -- The four tests of the loop in get_icehydra_json_node, on the name of the item that was found.
  unfoldable pub read_name : PubSubNode → Value → Run PubSubNode
  read_name node object =
      if str_same (j.key object) ih_name
      then (do name ← copy_name (j.valuestring object); ok (record node { name = name }))
      else ok node

  unfoldable pub read_pid : PubSubNode → Value → PubSubNode
  read_pid node object =
      if str_same (j.key object) ih_pid
      then record node {
        id = j.valueint object;
        chunk_type = if eqb_ℤ (j.valueint object) (pos 0) then chunk_pub else chunk_sub;
      }
      else node

  unfoldable pub read_cpu_bind : PubSubNode → Value → PubSubNode
  read_cpu_bind node object =
      if str_same (j.key object) ih_cpu_bind
      then record node { cpu_bind = j.valueint object }
      else node

  unfoldable pub read_shm : PubSubNode → Value → World → Run (PubSubNode × World)
  unfolding init_shm
  read_shm node object w =
      if str_same (j.key object) ih_shm then init_shm node object w else ok (node, w)

  unfoldable pub read_item : PubSubNode → Value → World → Run (PubSubNode × World)
  unfolding read_name read_pid read_cpu_bind read_shm
  read_item node object w = do
    named ← read_name node object
    read_shm (read_cpu_bind (read_pid named object) object) object w

  unfoldable pub read_items : Value → List (List ℕ) → PubSubNode → World → Run (PubSubNode × World)
  unfolding read_item
  read_items json [] node w = ok (node, w)
  read_items json (key ∷ keys) node w = elim (j.get_object_item json key) [
    | none ↦ read_items json keys node w
    | some object ↦ do (node', w') ← read_item node object w; read_items json keys node' w'
  ]

  unfoldable pub get_icehydra_json_node : Value → World → Run (PubSubNode × World)
  unfolding read_items
  get_icehydra_json_node json w = read_items json item_list create_pub_sub_object w

  -- After the loop: `result_node->pub_links_num = node_count-1`, a fault if there is no node.
  unfoldable pub finish : Option Chain → ℕ → World → Run (Loaded × World)
  finish none count w = fault
  finish (some c) count w =
      ok (loaded (record c.start { pub_links_num = pos (count - 1) }) c.nodes, w)

  -- `while(json)`; each value that is read shortens the text, which bounds the fuel.
  unfoldable pub load_nodes : ℕ → List ℕ → Option Chain → ℕ → World → Run (Loaded × World)
  unfolding get_icehydra_json_node finish
  load_nodes zero text chain count w = out_of_fuel
  load_nodes (suc fuel) text chain count w = elim (j.parse text) [
    | none ↦ finish chain count w
    | some (json, next) ↦ do
      (node, w') ← get_icehydra_json_node json w
      elim (add_node chain node) [
        | none ↦ ok (exits, w')
        | some c ↦ load_nodes fuel next (some c) (suc count) w'
      ]
  ]

  unfoldable pub get_node_start : List ℕ → World → Run (Loaded × World)
  unfolding load_nodes
  get_node_start file w = elim (read_file s file w) [
    | none ↦ ok (unreadable, w)
    | some text ↦ load_nodes (length text + 1) text none 0 w
  ]
