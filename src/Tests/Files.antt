-- ===== src/Tests/Files.antt =====
-- A configuration file with a start node that names a processor and a shared memory, and behind it a
-- process that names neither.
use icehydra.Prelude.{
  ℕ, ◌≡◌, refl, Option, none, some, List, [], ◌∷◌, arith, if◌then◌else◌, ◌==◌, ℤ, pos,
}
use icehydra.Run.{ok}
use icehydra.Node.{PubSubNode, chunk_pub, chunk_sub, str_same}
use icehydra.Files.{icehydra_system, make_dir, read_file}
use icehydra.Shm.{shm_create, shm_munmap}
use icehydra.Config.{
  CJson, loaded, get_node_start, ih_name, ih_pid, ih_cpu_bind, ih_shm, shm_size_key,
}
use icehydra.Config.Start.{Shortens}
use icehydra.Config.Memories.{all_made, made}
use icehydra.Config.Items.{on_cpu, on_any_cpu, no_memory, memories, fields}
use icehydra.Config.Order.{Reads, ends, reads, get_node_start-Reads}
use icehydra.Tests.Configs.{disk}

pub data Value : Type 0 where
  process name_of pid_of cpu_of : ℕ → Value
  shms shm shm_size shm_name : Value

abbrev pub parse_process : List ℕ → Option (Value × List ℕ)
parse_process [] = none
parse_process (b ∷ bs) = some (process b, bs)

abbrev pub field_of : Value → List ℕ → Option Value
field_of (process id) key =
    if str_same key ih_name
    then some (name_of id)
    else if str_same key ih_pid
    then some (pid_of id)
    else if str_same key ih_cpu_bind
    then (if id == 0 then some (cpu_of id) else none)
    else if id == 0
    then some shms
    else none
field_of (name_of id) key = none
field_of (pid_of id) key = none
field_of (cpu_of id) key = none
field_of shms key = none
field_of shm key = if str_same key shm_size_key then some shm_size else some shm_name
field_of shm_size key = none
field_of shm_name key = none

abbrev pub key_of : Value → List ℕ
key_of (process id) = []
key_of (name_of id) = ih_name
key_of (pid_of id) = ih_pid
key_of (cpu_of id) = ih_cpu_bind
key_of shms = ih_shm
key_of shm = []
key_of shm_size = []
key_of shm_name = []

abbrev pub int_of : Value → ℤ
int_of (process id) = pos 0
int_of (name_of id) = pos 0
int_of (pid_of id) = pos id
int_of (cpu_of id) = pos 1
int_of shms = pos 0
int_of shm = pos 0
int_of shm_size = pos 128
int_of shm_name = pos 0

abbrev pub file_json : CJson
file_json = record {
  Value = Value;
  parse = parse_process;
  get_object_item = field_of;
  get_object_item_case_sensitive = field_of;
  array_size = λ v. 1;
  children = λ v. shm ∷ [];
  key = key_of;
  valuestring = λ v. some (97 ∷ []);
  valueint = int_of;
}

pub file_json-Shortens : Shortens file_json
file_json-Shortens [] next v e = absurd (ground arith)
file_json-Shortens (b ∷ bs) next v e = let same : bs ≡ next = ground arith in rw same (omega arith)

abbrev pub first_process : PubSubNode
first_process = record {
  name = 97 ∷ [];
  id = pos 0;
  chunk_type = chunk_pub;
  cpu_bind = pos 1;
  connfd = pos 0;
  shm_nodes = some (record { shm_name = 97 ∷ []; shm_id = 1; shm_size = pos 128 } ∷ []);
  shm_node_num = 1;
  pub_links_num = pos 0;
}

abbrev pub second_process : PubSubNode
second_process = record {
  name = 97 ∷ [];
  id = pos 7;
  chunk_type = chunk_sub;
  cpu_bind = pos 0;
  connfd = pos 0;
  shm_nodes = none;
  shm_node_num = 0;
  pub_links_num = pos 0;
}

pub file-Reads : Reads disk file_json (0 ∷ (7 ∷ [])) (first_process ∷ (second_process ∷ [])) 0 0
unfolding str_same shm_create shm_munmap make_dir icehydra_system
file-Reads =
    reads {json = process 0} refl
      (fields {name = name_of 0} {pid = pid_of 0} (refl, refl) (refl, refl) refl (omega arith)
        (on_cpu {cpu = cpu_of 0} (refl, refl))
        (memories {shms = shms} (refl, refl) refl (omega arith)
          (made {size = shm_size} {name = shm_name} refl refl refl (omega arith) refl refl
            all_made)))
      (reads {json = process 7} refl
        (fields {name = name_of 7} {pid = pid_of 7} (refl, refl) (refl, refl) refl (omega arith)
          (on_any_cpu refl) (no_memory refl))
        (ends refl))

get_node_start-Reads_example :
    get_node_start disk file_json [] 0
    ≡ ok (loaded (record first_process { pub_links_num = pos 1 }) (second_process ∷ []), 0)
unfolding read_file
get_node_start-Reads_example =
    get_node_start-Reads disk file_json [] (0 ∷ (7 ∷ [])) first_process (second_process ∷ []) 0 0
      file_json-Shortens refl file-Reads refl (refl, tt)
