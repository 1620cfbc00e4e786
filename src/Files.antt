-- ===== src/Files.antt =====
-- src/icehydra_util.c: commands, directories, files, locks, and the processor that a process runs on.
pub mod Commands
use icehydra.Prelude.{
  ℕ, ◌+◌, Bool, true, false, ◌&&◌, Option, none, some, List, [], ◌∷◌, ◌++◌, ltb, leb, if◌then◌else◌,
  length, take, drop, codes, ℤ, pos, minus_one, is_neg, to_nat,
}
use icehydra.Run.{Run, ok, fault, ◌>>=◌}
use icehydra.Storage.{Storage, LockType, rdlck, wrlck, unlck, Flock}

-- MAX_SHELL_CMD
abbrev pub max_shell_cmd : ℕ
max_shell_cmd = 256

-- CPU_SET on a cleared mask: a number outside the mask's 1024 processors sets nothing.
abbrev pub cpu_mask : ℤ → List ℕ
cpu_mask cpuid =
    if is_neg cpuid then [] else if ltb (to_nat cpuid) 1024 then to_nat cpuid ∷ [] else []

-- The lock of the three functions: from the start of the file to its end.
abbrev pub whole_file : LockType → Flock
whole_file kind = record { l_type = kind; l_start = 0; l_whence = 0; l_len = 0 }

-- A text and its NUL, written to the front of `buf`.
abbrev pub put_text : List ℕ → List ℕ → Run (List ℕ)
put_text buf text =
    if ltb (length text) (length buf) then ok (text ++ 0 ∷ drop (length text + 1) buf) else fault

-- `while(fgets(resp,MAX_SHELL_CMD,p) != NULL)`: each text is written over the one before.
unfoldable pub read_response : List ℕ → List (List ℕ) → Run (List ℕ)
read_response resp [] = ok resp
read_response resp (text ∷ texts) = do resp' ← put_text resp text; read_response resp' texts

-- `mkdir -p %s `
abbrev pub mkdir_command : List ℕ → List ℕ
mkdir_command path = codes "mkdir -p " ++ (path ++ codes " ")

module _ (s : Storage) where
  open s use {World}

  unfoldable pub bind_cpu : ℤ → World → ℤ × World
  bind_cpu cpuid w = s.sched_setaffinity (cpu_mask cpuid) w

  unfoldable pub file_read_lock : ℤ → World → ℤ × World
  file_read_lock fd w = s.set_lock fd (whole_file rdlck) w

  unfoldable pub file_write_lock : ℤ → World → ℤ × World
  file_write_lock fd w = s.set_lock fd (whole_file wrlck) w

  unfoldable pub file_unlock : ℤ → World → ℤ × World
  file_unlock fd w = s.set_lock fd (whole_file unlck) w

  -- The result, the memory at `resp`, and the world. A response that is read is not closed.
  unfoldable pub icehydra_system :
      List ℕ → Option (List ℕ) → World → Run (ℤ × Option (List ℕ) × World)
  unfolding read_response
  icehydra_system cmd resp w =
      let (p, w1) = s.popen cmd w in
      elim p [
        | none ↦ ok (minus_one, resp, w1)
        | some texts ↦ elim resp [
          | none ↦ ok (pos 0, none, s.pclose w1)
          | some buf ↦ do buf' ← read_response buf texts; ok (pos 0, some buf', w1)
        ]
      ]

  abbrev pub is_dir_exists : List ℕ → World → Bool
  is_dir_exists = s.is_dir

  -- sprintf writes the command and its NUL into MAX_SHELL_CMD bytes.
  unfoldable pub make_dir : List ℕ → World → Run (ℤ × World)
  unfolding icehydra_system
  make_dir path w =
      if is_dir_exists path w
      then ok (pos 0, w)
      else if leb max_shell_cmd (length (mkdir_command path))
      then fault
      else (do (ret, resp, w') ← icehydra_system (mkdir_command path) none w; ok (ret, w'))

  abbrev pub get_file_size : List ℕ → World → ℕ
  get_file_size = s.st_size

  -- The bytes of the file, none for the result -1.
  unfoldable pub read_file : List ℕ → World → Option (List ℕ)
  read_file filename w = elim (s.contents filename w) [
    | none ↦ none
    | some bytes ↦
        let size = get_file_size filename w in
        if ltb 0 size && leb size (length bytes) then some (take size bytes) else none
  ]
