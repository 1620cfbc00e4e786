-- ===== src/Files/Commands.antt =====
-- make_dir and icehydra_system of src/icehydra_util.c: that they end, and when they stay in bounds.
use icehydra.Prelude.{
  ℕ, ◌≤◌, ◌<◌, ◌≡◌, refl, inl, inr, true, Bool-cases, none, List, arith, length, length-append, leb,
  leb→le, Option-cases, codes, pos,
}
use icehydra.Run.{Run, ok, Ends, returned, faulted}
use icehydra.Run
use icehydra.Storage.{Storage}
use icehydra.Files.{max_shell_cmd, icehydra_system, is_dir_exists, mkdir_command, make_dir}

module _ (s : Storage) where
  system_quiet-Ends :
      (cmd : List ℕ) (w : s.World) → Ends ⊥ (λ r. Unit {0}) (icehydra_system s cmd none w)
  unfolding icehydra_system
  system_quiet-Ends cmd w = elim (Option-cases (s.popen cmd w).0) [
    | inl e ↦ rw (e, icehydra_system) (returned tt)
    | inr (texts, e) ↦ rw (e, icehydra_system) (returned tt)
  ]

  -- make_dir ends, with its command written outside its buffer only for a path of more than 245
  -- bytes; a directory that is there is left alone.
  pub make_dir-Ends :
      (path : List ℕ) (w : s.World)
      → Ends
          (245 < length path)
          (λ r. is_dir_exists s path w ≡ true → r ≡ (pos 0, w))
          (make_dir s path w)
  unfolding make_dir
  make_dir-Ends path w = elim (Bool-cases (s.is_dir path w)) [
    | inl there ↦ rw there (returned (λ h. refl))
    | inr missing ↦ elim (Bool-cases (leb max_shell_cmd (length (mkdir_command path)))) [
      | inl long ↦
          let above : max_shell_cmd ≤ length (mkdir_command path) = leb→le _ _ long in
          rw (missing, long) (faulted (omega (arith, above, length-append path (codes " "))))
      | inr short ↦
          rw (missing, short)
            (Run.bind (Run.mono (system_quiet-Ends (mkdir_command path) w) absurd (λ r p. p))
              λ r p. returned (λ h. cc))
    ]
  ]
