-- ===== src/Traces/Halts.antt =====
-- main.c and icehydra.c: what is printed of a message ends, or leaves the memory that it is given.
use icehydra.Prelude.{IsText, ℕ, ◌≤◌, ◌<◌, List, ◌++◌, drop, replicate, length}
use icehydra.Run.{Ends, returned}
use icehydra.Run
use icehydra.Wire.{ProtocolCmd, round4}
use icehydra.Traces.Texts.{print_data_char-Prints, print_data_char-stored}
use icehydra.Traces.{trace}

pub trace-Halts :
    (head : ProtocolCmd) (area : List ℕ) → Ends (Unit {0}) (λ out. Unit {0}) (trace head area)
unfolding trace
trace-Halts head area =
    Run.bind (Run.mono (print_data_char-Prints head.broadcast_num area) (λ t. tt) (λ out q. q))
      λ out q. returned tt

pub trace-stored :
    (head : ProtocolCmd) (n m : ℕ) (stored : List ℕ)
    → round4 head.broadcast_num ≤ length stored
    → n < m
    → Ends ⊥ (λ out. Unit {0}) (trace head (stored ++ drop n (replicate m 0)))
unfolding trace
trace-stored head n m stored behind space =
    Run.bind (print_data_char-stored head.broadcast_num n m stored behind space)
      λ out q. returned tt

pub trace-Prints :
    (head : ProtocolCmd) (area : List ℕ)
    → Ends (IsText (drop (round4 head.broadcast_num) area)) (λ out. Unit {0}) (trace head area)
unfolding trace
trace-Prints head area =
    Run.bind (print_data_char-Prints head.broadcast_num area) λ out q. returned tt
