-- ===== src/Tests/Configs.antt =====
-- The theorems about the configuration and the shared memories, with a parser that makes a value of
-- each byte, and storage that attaches every segment.
use icehydra.Prelude.{
  false, map, ℕ, ◌≡◌, refl, Option, some, none, List, [], ◌∷◌, arith, if◌then◌else◌, ◌==◌, pos,
  minus_one,
}
use icehydra.Run.{Ends, ok, fault, out_of_fuel}
use icehydra.Node.{PubSubNode, ShmNode, str_same, str_same_n, chunk_pub, chunk_sub}
use icehydra.Wire.{zero_cmd, cmd_get_shm_info}
use icehydra.Storage.{Storage}
use icehydra.Files.{icehydra_system, make_dir, read_file}
use icehydra.Shm.{shm_create, shm_munmap}
use icehydra.Config.{
  CJson, loaded, get_node_start, load_nodes, finish, add_node, get_icehydra_json_node, read_items,
  read_item, read_name, read_pid, read_cpu_bind, read_shm, init_shm, init_entries, init_entry,
}
use icehydra.Config.Start.{IsLoaded, Shortens, get_node_start-IsLoaded}
use icehydra.Broker.Reserve.{parser_reserve_cmd}
use icehydra.Broker.Reserve.Answers.{answer, parser_reserve_cmd-Answered}
use icehydra.Socket.Outcomes.{SentSome}
use icehydra.Client.Infos.{await_num, await_infos}
use icehydra.Client.Infos.Closed.{await_infos-closed, await_num-Ends}
use icehydra.Names.{name_fix, name_fix-fault}
use icehydra.Broker.Loop.{
  Broker, again, begin, round, after_select, on_ready, accept_unix_tcp, attach, watch, is_peer,
}
use icehydra.Broker.Loop.Config.{configured}
use icehydra.Broker.Loop.Reach.{here, pass, AllNumbered, Reaches-IsServed}
use icehydra.Config.Nodes.{IsRead}
use icehydra.Tests.Sim.{Sockets, sim, sim_stream}

abbrev pub disk : Storage
disk = record {
  World = ℕ;
  is_dir = λ f w. false;
  popen = λ c w. (some [], w);
  pclose = λ w. w;
  set_lock = λ fd l w. (pos 0, w);
  sched_setaffinity = λ m w. (pos 0, w);
  memfd_create = λ f w. (pos 4, w);
  shm_open = λ f w. (pos 4, w);
  ftruncate = λ fd n w. (pos 0, w);
  close = λ fd w. w;
  mmap = λ n p fd w. (some 4096, w);
  munmap = λ p n w. (pos 0, w);
  ftok = λ f p w. p;
  shmget = λ key n c w. (key, w);
  shmat = λ id w. (some 4096, w);
  shmdt = λ p w. (pos 0, w);
  memset_zero = λ p n w. w;
  shm_segsz = λ id w. pos 128;
  st_size = λ f w. 2;
  contents = λ f w. some (0 ∷ 7 ∷ []);
}

-- A value is its number and the name it has in its object.
abbrev pub parse_byte : List ℕ → Option ((ℕ × List ℕ) × List ℕ)
parse_byte [] = none
parse_byte (b ∷ bs) = some ((b, []), bs)

abbrev pub tiny_json : CJson
tiny_json = record {
  Value = ℕ × List ℕ;
  parse = parse_byte;
  get_object_item = λ v key. some (v.0, key);
  get_object_item_case_sensitive = λ v key. some (v.0, key);
  array_size = λ v. 1;
  children = λ v. (v.0, []) ∷ [];
  key = λ v. v.1;
  valuestring = λ v. some (109 ∷ []);
  valueint = λ v. pos v.0;
}

pub tiny_json-Shortens : Shortens tiny_json
tiny_json-Shortens [] next v e = absurd (ground arith)
tiny_json-Shortens (b ∷ bs) next v e =
    let same : bs ≡ next = ground arith in rw (← same) (omega arith)

abbrev first_memory : ShmNode
first_memory = record { shm_name = 109 ∷ []; shm_id = 1; shm_size = pos 0 }

abbrev memory : ShmNode
memory = record { shm_name = 109 ∷ []; shm_id = 5; shm_size = pos 128 }

abbrev pub loaded_node : ℕ → PubSubNode
loaded_node i = record {
  name = 109 ∷ [];
  chunk_type = if i == 0 then chunk_pub else chunk_sub;
  cpu_bind = pos i;
  id = pos i;
  connfd = pos 0;
  shm_nodes = some (record first_memory { shm_size = pos i } ∷ []);
  shm_node_num = 1;
  pub_links_num = pos 0;
}

two_processes :
    get_node_start disk tiny_json [] 0
    ≡ ok (loaded (record (loaded_node 0) { pub_links_num = pos 1 }) (loaded_node 7 ∷ []), 0)
unfolding get_node_start load_nodes finish add_node get_icehydra_json_node read_items read_item
    read_name read_pid read_cpu_bind read_shm init_shm init_entries init_entry shm_create shm_munmap
    icehydra_system make_dir read_file str_same
two_processes = refl

get_node_start-IsLoaded_example :
    Ends (Unit {0}) (λ r. IsLoaded r.0) (get_node_start disk tiny_json [] 0)
get_node_start-IsLoaded_example = get_node_start-IsLoaded disk tiny_json [] 0 tiny_json-Shortens

abbrev pub start : PubSubNode
start = record {
  name = 97 ∷ [];
  chunk_type = chunk_pub;
  cpu_bind = pos 0;
  id = pos 0;
  connfd = pos 0;
  shm_nodes = some (memory ∷ []);
  shm_node_num = 1;
  pub_links_num = pos 1;
}

abbrev asking : PubSubNode
asking = record start { connfd = pos 5; id = pos 7; chunk_type = chunk_sub }

abbrev silent : Sockets
silent = record { input = λ fd. []; written = λ fd. []; name = λ fd. none; peer = λ fd. none }

parser_reserve_cmd-Answered_example :
    Ends ⊥
      (SentSome sim sim_stream 5 (answer start cmd_get_shm_info) silent)
      (parser_reserve_cmd sim start asking (record zero_cmd { cmdid = cmd_get_shm_info }) silent)
parser_reserve_cmd-Answered_example =
    parser_reserve_cmd-Answered sim sim_stream start asking 5
      (record zero_cmd { cmdid = cmd_get_shm_info }) silent
      (refl, omega arith, (omega arith, omega arith, (omega arith, tt))) refl

await_infos-closed_example : await_infos sim 100 (pos 0) ([], 0, minus_one, silent) ≡ out_of_fuel
await_infos-closed_example = await_infos-closed sim 100 0 (pos 0) [] 0 silent refl

await_num-Ends_example : Ends (Unit {0}) (λ r. Unit {0}) (await_num sim 1 (pos 5) silent)
await_num-Ends_example = await_num-Ends sim sim_stream 1 5 silent (omega arith)

name_fix-fault_example :
    (name_fix (λ n. n) (some (47 ∷ [])) (97 ∷ []) (some (45 ∷ [])) ≡ fault)
    × (name_fix (λ n. n) (some (47 ∷ [])) (97 ∷ []) none ≡ fault)
    × (name_fix (λ n. n) none (97 ∷ []) (some (45 ∷ [])) ≡ fault)
name_fix-fault_example = name_fix-fault (47 ∷ []) (97 ∷ []) (45 ∷ [])

-- A pass in which a client that is bound to no path connects: the highest descriptor is noted.
abbrev after_pass : Broker
after_pass = record (begin start (loaded_node 7 ∷ []) 3) { max_conn_fd = pos 0 }

one_pass : round sim (begin start (loaded_node 7 ∷ []) 3) silent ≡ ok (again after_pass, silent)
unfolding round after_select on_ready accept_unix_tcp attach watch is_peer str_same_n
one_pass = refl

Reaches-IsServed_example :
    IsRead start
    × (map configured (loaded_node 7 ∷ []) ≡ map configured (loaded_node 7 ∷ []))
    × AllNumbered (loaded_node 7 ∷ [])
    × (◌≡◌ {A = ℕ} 3 3)
Reaches-IsServed_example =
    Reaches-IsServed sim sim_stream start (loaded_node 7 ∷ []) 3 after_pass silent silent
      (refl, omega arith, (omega arith, omega arith, (omega arith, tt)))
      (refl, (refl, omega arith, (omega arith, omega arith, (omega arith, tt))), tt)
      (pass here one_pass)
