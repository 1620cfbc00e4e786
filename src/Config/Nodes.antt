-- ===== src/Config/Nodes.antt =====
-- What the processes of a configuration are like once get_node_start of src/conf.c has read them.
use icehydra.Prelude.{
  ℕ, zero, suc, ◌+◌, ◌%◌, ◌≤◌, ◌<◌, ◌≡◌, refl, inl, inr, Option, none, some, List, [], ◌∷◌, ◌++◌,
  arith, length, length-replicate, replicate, Bool-cases, Option-cases, pos, ltb,
}
use icehydra.Run.{Run, ok, fault, Ends, returned, faulted}
use icehydra.Run
use icehydra.Node.{ShmNode, PubSubNode, str_same}
use icehydra.Storage.{Storage}
use icehydra.Shm.{IcehydraShm, shm_create}
use icehydra.Files.Commands.{make_dir-Ends}
use icehydra.Names.{name_prefix}
use icehydra.Config.{
  CJson, max_file_name, copy_name, shm_name_key, shm_size_key, init_entry, init_entries, init_shm,
  empty_shm, ih_name, ih_pid, ih_cpu_bind, ih_shm, read_item, read_name, read_pid, read_cpu_bind,
  read_shm, read_items, get_icehydra_json_node, create_pub_sub_object, item_list,
}

-- Every entry has a name that fits its field.
abbrev pub AllNamed : List ShmNode → Type 0
AllNamed [] = Unit {0}
AllNamed (n ∷ ns) = (length n.shm_name < max_file_name) × AllNamed ns

abbrev pub entries_of : Option (List ShmNode) → List ShmNode
entries_of none = []
entries_of (some ns) = ns

-- The counted entries are there, and the count fits a byte.
abbrev pub HoldsShms : PubSubNode → Type 0
HoldsShms n =
    (n.shm_node_num ≤ length (entries_of n.shm_nodes))
    × (n.shm_node_num < 256)
    × AllNamed (entries_of n.shm_nodes)

-- A process that has been read and has not connected.
abbrev pub IsRead : PubSubNode → Type 0
IsRead n = (n.connfd ≡ pos 0) × (length n.name < max_file_name) × HoldsShms n

copy_name-fits :
    (name : Option (List ℕ)) → Ends (Unit {0}) (λ x. length x < max_file_name) (copy_name name)
copy_name-fits none = faulted tt
copy_name-fits (some name) = elim (Bool-cases (ltb (length name) max_file_name)) [
  | inl short ↦ rw short (returned (ground arith))
  | inr long ↦ rw long (faulted tt)
]

AllNamed-replicate : (n : ℕ) → AllNamed (replicate n empty_shm)
AllNamed-replicate zero = tt
AllNamed-replicate (suc n) = (omega arith, AllNamed-replicate n)

shm_create-Ends :
    (s : Storage) (shm : IcehydraShm) (w : s.World)
    → Ends (Unit {0}) (λ r. Unit {0}) (shm_create s shm w)
unfolding shm_create
shm_create-Ends s shm w =
    Run.bind (Run.mono (make_dir-Ends s shm.filename w) (λ x. tt) (λ r p. p)) λ r p. returned tt

module _ (s : Storage) (j : CJson) where
  init_entry-Named :
      (filename : List ℕ) (p : ℕ) (item : j.Value) (w : s.World)
      → Ends
          (Unit {0})
          (λ r. length r.0.shm_name < max_file_name)
          (init_entry s j filename p item w)
  unfolding init_entry
  init_entry-Named filename p item w =
      elim (Option-cases (j.get_object_item_case_sensitive item shm_size_key)) [
        | inl e ↦ rw (e, init_entry) (faulted tt)
        | inr (size, e) ↦ elim (Option-cases (j.get_object_item_case_sensitive item shm_name_key)) [
          | inl e' ↦ rw (e, e', init_entry) (faulted tt)
          | inr (name, e') ↦
              rw (e, e', init_entry)
                (Run.bind
                  (shm_create-Ends s
                    (record {
                      size = j.valueint size;
                      proj_id = pos p;
                      id = pos 0;
                      filename = filename;
                      mem_ptr = none;
                    })
                    w)
                  λ (shm, w1) tried. elim (Option-cases shm.mem_ptr) [
                    | inl e'' ↦ rw e'' (faulted tt)
                    | inr (q, e'') ↦
                        rw e'' (Run.bind (copy_name-fits (j.valuestring name)) λ x h. returned h)
                  ])
        ]
      ]

  -- The array has its room, and the last number is at most the room behind the first.
  abbrev Filled : ℕ → ℕ → List ShmNode × ℕ × s.World → Type 0
  Filled room p (entries, last, w) =
      (length entries ≡ room) × (last ≤ p + room) × (last < 256) × AllNamed entries

  init_entries-Filled :
      (filename : List ℕ) (room p : ℕ) (items : List j.Value) (w : s.World)
      → p < 256
      → Ends (Unit {0}) (Filled room p) (init_entries s j filename room p items w)
  unfolding init_entries
  init_entries-Filled filename room p [] w h =
      returned (length-replicate room empty_shm, omega arith, h, AllNamed-replicate room)
  init_entries-Filled filename zero p (item ∷ items) w h = faulted tt
  init_entries-Filled filename (suc room) p (item ∷ items) w h =
      Run.bind (init_entry-Named filename ((p + 1) % 256) item w) λ (entry, w1) named.
        Run.bind (init_entries-Filled filename room ((p + 1) % 256) items w1 (omega arith))
          λ (rest, last, w2) (len, low, small, all).
            returned (omega arith, omega arith, small, (named, all))

  init_shm-IsRead :
      (node : PubSubNode) (json : j.Value) (w : s.World)
      → IsRead node
      → Ends (Unit {0}) (λ r. IsRead r.0) (init_shm s j node json w)
  unfolding init_shm
  init_shm-IsRead node json w (c, n, old) =
      Run.bind
        (init_entries-Filled (name_prefix ++ node.name) (j.array_size json) 0 (j.children json) w
          (omega arith))
        λ (entries, last, w') (len, low, small, all). returned (c, n, (omega arith, small, all))

  read_name-IsRead :
      (node : PubSubNode) (object : j.Value)
      → IsRead node
      → Ends (Unit {0}) IsRead (read_name s j node object)
  unfolding read_name
  read_name-IsRead node object (c, n, shms) = elim (Bool-cases (str_same (j.key object) ih_name)) [
    | inl hit ↦
        rw hit
          (Run.bind (copy_name-fits (j.valuestring object)) λ x short. returned (c, short, shms))
    | inr miss ↦ rw miss (returned (c, n, shms))
  ]

  read_pid-IsRead :
      (node : PubSubNode) (object : j.Value) → IsRead node → IsRead (read_pid s j node object)
  unfolding read_pid
  read_pid-IsRead node object h = elim (Bool-cases (str_same (j.key object) ih_pid)) [
    | inl hit ↦ rw hit h
    | inr miss ↦ rw miss h
  ]

  read_cpu_bind-IsRead :
      (node : PubSubNode) (object : j.Value) → IsRead node → IsRead (read_cpu_bind s j node object)
  unfolding read_cpu_bind
  read_cpu_bind-IsRead node object h = elim (Bool-cases (str_same (j.key object) ih_cpu_bind)) [
    | inl hit ↦ rw hit h
    | inr miss ↦ rw miss h
  ]

  read_shm-IsRead :
      (node : PubSubNode) (object : j.Value) (w : s.World)
      → IsRead node
      → Ends (Unit {0}) (λ r. IsRead r.0) (read_shm s j node object w)
  unfolding read_shm
  read_shm-IsRead node object w h = elim (Bool-cases (str_same (j.key object) ih_shm)) [
    | inl hit ↦ rw hit (init_shm-IsRead node object w h)
    | inr miss ↦ rw miss (returned h)
  ]

  read_item-IsRead :
      (node : PubSubNode) (object : j.Value) (w : s.World)
      → IsRead node
      → Ends (Unit {0}) (λ r. IsRead r.0) (read_item s j node object w)
  unfolding read_item
  read_item-IsRead node object w h = Run.bind (read_name-IsRead node object h) λ named p.
      read_shm-IsRead (read_cpu_bind s j (read_pid s j named object) object) object w
        (read_cpu_bind-IsRead (read_pid s j named object) object (read_pid-IsRead named object p))

  read_items-IsRead :
      (json : j.Value) (keys : List (List ℕ)) (node : PubSubNode) (w : s.World)
      → IsRead node
      → Ends (Unit {0}) (λ r. IsRead r.0) (read_items s j json keys node w)
  unfolding read_items
  read_items-IsRead json [] node w h = returned h
  read_items-IsRead json (key ∷ keys) node w h = elim (Option-cases (j.get_object_item json key)) [
    | inl e ↦ rw (e, read_items) (read_items-IsRead json keys node w h)
    | inr (object, e) ↦
        rw (e, read_items)
          (Run.bind (read_item-IsRead node object w h)
            λ (node', w') p. read_items-IsRead json keys node' w' p)
  ]

  pub get_icehydra_json_node-IsRead :
      (json : j.Value) (w : s.World)
      → Ends (Unit {0}) (λ r. IsRead r.0) (get_icehydra_json_node s j json w)
  unfolding get_icehydra_json_node
  get_icehydra_json_node-IsRead json w =
      read_items-IsRead json item_list create_pub_sub_object w
        (refl, omega arith, (omega arith, omega arith, tt))
