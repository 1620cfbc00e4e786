-- ===== src/Main.antt =====
-- main.c: the options, the start-up, and the passes of the loop.
pub mod Open
pub mod Passes
pub mod Described
use icehydra.Prelude.{
  ℕ, zero, suc, Bool, true, false, not, some, List, [], ◌∷◌, ltb, ◌==◌, if◌then◌else◌, length, ℤ,
  pos, is_pos, to_nat,
}
use icehydra.Run.{Run, ok, fault, ◌>>=◌}
use icehydra.Kernel.{Kernel}
use icehydra.Kernel.Unix.{Unix}
use icehydra.Storage.{Storage}
use icehydra.Files.{bind_cpu}
use icehydra.Names.{name_prefix, sock_name_suffix, name_fix}
use icehydra.Node.{PubSubNode}
use icehydra.Config.{CJson, loaded, unreadable, exits, get_node_start}
use icehydra.Setup.{creat_bind_unix_tcp, listen_unix_tcp}
use icehydra.Broker.Loop.{max_path, Broker, Next, again, quit, begin, round}

-- struct arguments, without `date` and `head`, which nothing uses
pub record Arguments : Type 0 where
  pub file : List ℕ
  pub daemon : Bool

abbrev pub no_arguments : Arguments
no_arguments = record { file = []; daemon = false }

-- The keys that argp_parse gives to parse_opt, with the option's argument.
pub data Key : Type 0 where
  key_D key_arg key_end key_other : Key
  key_f : List ℕ → Key

-- What the system does for `main` besides: access(path, F_OK | R_OK), as the test that it is 0, and
-- daemon(1, 0).
pub record Host (s : Storage) (k : Kernel) : Type 0 where
  pub access : List ℕ → s.World → Bool
  pub daemon : k.World → k.World

-- How far `main` comes: -1 returned, exit, a failed assertion, the loop, or the loop left.
pub data Started : Type 0 where
  no_file exited aborted : Started
  looping : Broker → Started
  left : Broker → Started

module _ (s : Storage) (k : Kernel) (h : Host s k) where
  -- strcpy to `file` writes the final NUL too. ARGP_ERR_UNKNOWN, for another key, changes nothing.
  unfoldable pub parse_opt : Key → Arguments → s.World → Run Arguments
  parse_opt key_D arguments v = ok (record arguments { daemon = true })
  parse_opt key_arg arguments v = ok arguments
  parse_opt key_end arguments v = ok arguments
  parse_opt key_other arguments v = ok arguments
  parse_opt (key_f arg) arguments v =
      if not (h.access arg v)
      then ok arguments
      else if ltb (length arg) max_path
      then ok (record arguments { file = arg })
      else fault

  -- argp_parse calls parse_opt for one key after the other.
  unfoldable pub parse_opts : List Key → Arguments → s.World → Run Arguments
  unfolding parse_opt
  parse_opts [] arguments v = ok arguments
  parse_opts (key ∷ keys) arguments v = do
    arguments' ← parse_opt key arguments v
    parse_opts keys arguments' v

module _ (s : Storage) (k : Kernel) (u : Unix k) where
  -- From bind_cpu to the loop; the results of bind_cpu and listen are not looked at.
  unfoldable pub open_server :
      (ℕ → ℕ) → PubSubNode → List PubSubNode → s.World → k.World → Run (Started × s.World × k.World)
  unfolding bind_cpu name_fix creat_bind_unix_tcp listen_unix_tcp
  open_server reserved node_start nodes v w = do
    let (ret, v') = bind_cpu s node_start.cpu_bind v
    un_server_name ← name_fix reserved (some name_prefix) node_start.name (some sock_name_suffix)
    (sockfd, w1) ← creat_bind_unix_tcp k u un_server_name w
    if not (is_pos sockfd)
        then ok (aborted, v', w1)
        else (let (ret, w2) = listen_unix_tcp k u sockfd (pos 32) w1 in
            ok (looping (begin node_start nodes (to_nat sockfd)), v', w2))

module _ (k : Kernel) where
  -- So many passes of `while(1)`, or until it is left.
  unfoldable pub passes : ℕ → Broker → k.World → Run (Started × k.World)
  unfolding round
  passes zero st w = ok (looping st, w)
  passes (suc n) st w = do
    (next, w') ← round k st w
    elim next [ again st' ↦ passes n st' w' | quit st' ↦ ok (left st', w') ]

module _ (s : Storage) (k : Kernel) (u : Unix k) (h : Host s k) (j : CJson) where
  unfoldable pub start_up :
      (ℕ → ℕ) → List Key → s.World → k.World → Run (Started × s.World × k.World)
  unfolding parse_opts get_node_start open_server
  start_up reserved keys v w = do
    arguments ← parse_opts s k h keys no_arguments v
    if length arguments.file == 0 then ok (no_file, v, w) else (do
      let w1 = if arguments.daemon then h.daemon w else w
      (node_start, v1) ← get_node_start s j arguments.file v
      elim node_start [
        | unreadable ↦ ok (aborted, v1, w1)
        | exits ↦ ok (exited, v1, w1)
        | loaded start nodes ↦ open_server s k u reserved start nodes v1 w1
      ])

  -- `main`, its loop followed for so many passes.
  unfoldable pub main :
      ℕ → (ℕ → ℕ) → List Key → s.World → k.World → Run (Started × s.World × k.World)
  unfolding start_up passes
  main n reserved keys v w = do
    (started, v1, w1) ← start_up reserved keys v w
    elim started [
      | no_file ↦ ok (no_file, v1, w1)
      | exited ↦ ok (exited, v1, w1)
      | aborted ↦ ok (aborted, v1, w1)
      | looping st ↦ do (started', w2) ← passes k n st w1; ok (started', v1, w2)
      | left st ↦ ok (left st, v1, w1)
    ]
