-- ===== src/Traces.antt =====
-- src/conf.c: what the broker prints of a message that it has received, and isShmInfo. A call of
-- printf is its format and the arguments.
pub mod Texts
pub mod Halts
use icehydra.Prelude.{
  ℕ, zero, suc, ◌≡◌, refl, ap, inl, inr, Bool, false, not, List, [], ◌∷◌, ◌++◌, map, arith, leb,
  ◌==◌, if◌then◌else◌, length, length-drop, take, drop, codes, Bool-cases,
}
use icehydra.Run.{Run, ok, fault, Ends, returned, faulted, ◌>>=◌}
use icehydra.Run
use icehydra.Wire.{ProtocolCmd, round4, cmd_get_shm_info}
use icehydra.Wire.Padding.{round4-least}

pub data Argument : Type 0 where
  number : ℕ → Argument
  text : List ℕ → Argument

pub record Printed : Type 0 where
  pub format : List ℕ
  pub arguments : List Argument

abbrev pub printf : List ℕ → List Argument → Printed
printf format arguments = record { format = format; arguments = arguments }

unfoldable pub print_cmd_head : ProtocolCmd → List Printed
print_cmd_head head =
    printf (codes "\n") []
    ∷ printf (codes "magic: %c %c \n") (number head.magic0 ∷ number head.magic1 ∷ [])
    ∷ printf (codes "bodylen: %d,sendType: %d,id: %d,br_num: %d \n") (
        number head.bodylen
        ∷ number head.cmd_send_type
        ∷ number head.cmdid
        ∷ number head.broadcast_num
        ∷ [])
    ∷ []

-- The bytes that `%s` prints, which end before a zero byte.
unfoldable pub text_at : List ℕ → Run (List ℕ)
text_at [] = fault
text_at (zero ∷ bs) = ok []
text_at (suc b ∷ bs) = do rest ← text_at bs; ok (suc b ∷ rest)

-- The calls of printf in print_data_char, for the text behind the ids.
abbrev pub data_prints : ℕ → List ℕ → List ℕ → List Printed
data_prints br_num data_area body =
    printf (codes "\n") []
    ∷ printf (codes "ids:") []
    ∷ (map (λ id. printf (codes " %d") (number id ∷ [])) (take br_num data_area)
        ++ printf (codes "\n") [] ∷ printf (codes "body: %s \n") (text body ∷ []) ∷ [])

unfoldable pub print_data_char : ℕ → List ℕ → Run (List Printed)
unfolding text_at
print_data_char br_num data_area =
    if not (leb br_num (length data_area))
    then fault
    else do body ← text_at (drop (round4 br_num) data_area); ok (data_prints br_num data_area body)

unfoldable pub is_shm_info : ProtocolCmd → Bool
is_shm_info cmd_head = cmd_head.cmdid == cmd_get_shm_info

-- Both prints of a message, as the broker and the client library make them.
unfoldable pub trace : ProtocolCmd → List ℕ → Run (List Printed)
unfolding print_cmd_head print_data_char
trace head area = do
  rest ← print_data_char head.broadcast_num area
  ok (print_cmd_head head ++ rest)
