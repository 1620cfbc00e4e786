-- ===== src/Config/Items.antt =====
-- get_icehydra_json_node of src/conf.c on an object that describes a process: every field is what the
-- object says.
use icehydra.Prelude.{
  ℕ, ◌+◌, ◌<◌, ◌≡◌, refl, Option, none, some, List, [], ◌∷◌, ◌++◌, arith, length, lt→ltb,
  if◌then◌else◌, ℤ, pos, eqb_ℤ,
}
use icehydra.Run.{ok}
use icehydra.Node.{ShmNode, PubSubNode, chunk_pub, chunk_sub, str_same}
use icehydra.Storage.{Storage}
use icehydra.Names.{name_prefix}
use icehydra.Config.{
  CJson, max_file_name, init_shm, ih_name, ih_pid, ih_cpu_bind, ih_shm, read_item, read_name,
  read_pid, read_cpu_bind, read_shm, read_items, get_icehydra_json_node, create_pub_sub_object,
}
use icehydra.Config.Memories.{Made, init_entries-Made}

module _ (s : Storage) (j : CJson) where
  -- A field is found, under the very name that is looked for.
  abbrev pub HasField : j.Value → List ℕ → j.Value → Type 0
  HasField json key object = (j.get_object_item json key ≡ some object) × (j.key object ≡ key)

  -- The processor that the object names, or 0 if it names none.
  pub data HasCpu (json : j.Value) : ℤ → Type 0 where
    on_cpu : {cpu : j.Value} → HasField json ih_cpu_bind cpu → HasCpu json (j.valueint cpu)
    on_any_cpu : j.get_object_item json ih_cpu_bind ≡ none → HasCpu json (pos 0)

  -- The object has an array of shared memories, made for the process of this name from one world to
  -- the other, and these are its entries and their number; or it has none.
  pub data HasShms (json : j.Value) (name : List ℕ)
      : Option (List ShmNode) → ℕ → s.World → s.World → Type 0 where
    no_memory : {w : s.World} → j.get_object_item json ih_shm ≡ none → HasShms json name none 0 w w
    memories :
        {shms : j.Value} {entries : List ShmNode} {w w' : s.World}
        → HasField json ih_shm shms
        → j.array_size shms ≡ length (j.children shms)
        → length (j.children shms) < 256
        → Made s j (name_prefix ++ name) 0 (j.children shms) entries w w'
        → HasShms json name (some entries) (length (j.children shms)) w w'

  -- The object describes this process: a name that fits and an id, and besides, where it has them, a
  -- processor and shared memories.
  pub data Describes (json : j.Value) : PubSubNode → s.World → s.World → Type 0 where
    fields :
        {name pid : j.Value} {x : List ℕ} {cpu : ℤ} {shms : Option (List ShmNode)} {num : ℕ}
        {w w' : s.World}
        → HasField json ih_name name
        → HasField json ih_pid pid
        → j.valuestring name ≡ some x
        → length x < max_file_name
        → HasCpu json cpu
        → HasShms json x shms num w w'
        → Describes json
            (record {
              name = x;
              id = j.valueint pid;
              chunk_type = if eqb_ℤ (j.valueint pid) (pos 0) then chunk_pub else chunk_sub;
              cpu_bind = cpu;
              connfd = pos 0;
              shm_nodes = shms;
              shm_node_num = num;
              pub_links_num = pos 0;
            })
            w
            w'

  -- The process once its name, its id and its processor are read.
  abbrev named : List ℕ → PubSubNode
  named x = record create_pub_sub_object { name = x }

  abbrev numbered : List ℕ → ℤ → PubSubNode
  numbered x pid = record (named x) {
    id = pid;
    chunk_type = if eqb_ℤ pid (pos 0) then chunk_pub else chunk_sub;
  }

  abbrev bound : List ℕ → ℤ → ℤ → PubSubNode
  bound x pid cpu = record (numbered x pid) { cpu_bind = cpu }

  -- An item sets the field that its own name says.
  module _ (node : PubSubNode) (object : j.Value) (w : s.World) where
    read_item-name :
        (x : List ℕ)
        → j.key object ≡ ih_name
        → j.valuestring object ≡ some x
        → length x < max_file_name
        → read_item s j node object w ≡ ok (record node { name = x }, w)
    unfolding read_item read_name read_pid read_cpu_bind read_shm str_same
    read_item-name x key text short = simp (key, text, lt→ltb (length x) max_file_name short)

    read_item-pid :
        j.key object ≡ ih_pid
        → read_item s j node object w
          ≡ ok (
            record node {
              id = j.valueint object;
              chunk_type = if eqb_ℤ (j.valueint object) (pos 0) then chunk_pub else chunk_sub;
            },
            w,
          )
    unfolding read_item read_name read_pid read_cpu_bind read_shm str_same
    read_item-pid key = simp key

    read_item-cpu_bind :
        j.key object ≡ ih_cpu_bind
        → read_item s j node object w ≡ ok (record node { cpu_bind = j.valueint object }, w)
    unfolding read_item read_name read_pid read_cpu_bind read_shm str_same
    read_item-cpu_bind key = simp key

    read_item-shm :
        (entries : List ShmNode) (w' : s.World)
        → j.key object ≡ ih_shm
        → j.array_size object ≡ length (j.children object)
        → length (j.children object) < 256
        → Made s j (name_prefix ++ node.name) 0 (j.children object) entries w w'
        → read_item s j node object w
          ≡ ok (
            record node { shm_nodes = some entries; shm_node_num = length (j.children object) },
            w',
          )
    unfolding read_item read_name read_pid read_cpu_bind read_shm init_shm str_same
    read_item-shm entries w' key size few all =
        let filled =
          init_entries-Made s j (name_prefix ++ node.name) 0 (j.children object) entries w w' all
            (omega (arith, few)) in
        let count : 0 + length (j.children object) ≡ length (j.children object) = omega arith in
        simp (key, size, filled, count)

  -- The last two keys: the processor, and the shared memories.
  read_shm_key :
      (json : j.Value) (x : List ℕ) (pid cpu : ℤ) (shms : Option (List ShmNode)) (num : ℕ)
      (w w' : s.World)
      → HasShms json x shms num w w'
      → read_items s j json (ih_shm ∷ []) (bound x pid cpu) w
        ≡ ok (record (bound x pid cpu) { shm_nodes = shms; shm_node_num = num }, w')
  unfolding read_items
  read_shm_key json x pid cpu shms num w w' (no_memory absent) = rw (read_items, absent) refl
  read_shm_key json x pid cpu shms num w w'
        (memories {shms = object} {entries} (found, key) size few all) =
      rw (read_items, found, read_item-shm (bound x pid cpu) object w entries w' key size few all)

  read_last_keys :
      (json : j.Value) (x : List ℕ) (pid cpu : ℤ) (shms : Option (List ShmNode)) (num : ℕ)
      (w w' : s.World)
      → HasCpu json cpu
      → HasShms json x shms num w w'
      → read_items s j json (ih_cpu_bind ∷ ih_shm ∷ []) (numbered x pid) w
        ≡ ok (record (bound x pid cpu) { shm_nodes = shms; shm_node_num = num }, w')
  unfolding read_items
  read_last_keys json x pid cpu shms num w w' (on_any_cpu absent) has =
      let rest = read_shm_key json x pid (pos 0) shms num w w' has in rw (read_items, absent) rest
  read_last_keys json x pid cpu shms num w w' (on_cpu {cpu = object} (found, key)) has =
      let rest = read_shm_key json x pid (j.valueint object) shms num w w' has in
      rw (read_items, found, read_item-cpu_bind (numbered x pid) object w key) rest

  -- An object that describes a process, its fields found under their very names: it is read into
  -- that process.
  pub get_icehydra_json_node-Describes :
      (json : j.Value) (node : PubSubNode) (w w' : s.World)
      → Describes json node w w'
      → get_icehydra_json_node s j json w ≡ ok (node, w')
  unfolding get_icehydra_json_node read_items
  get_icehydra_json_node-Describes json node w w'
        (fields {name} {pid} {x} {cpu} {shms} {num}
          (found, key)
          (found_pid, key_pid)
          text
          short
          has_cpu
          has_shms) =
      let rest = read_last_keys json x (j.valueint pid) cpu shms num w w' has_cpu has_shms in
      rw
        (
          read_items,
          found,
          read_item-name create_pub_sub_object name w x key text short,
          read_items,
          found_pid,
          read_item-pid (named x) pid w key_pid,
        )
        rest
