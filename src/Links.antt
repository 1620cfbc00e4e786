-- ===== src/Links.antt =====
-- include/list.h: the circular, doubly linked list that the processes are kept in. A `list_head` is
-- an address, and the memory holds two addresses at each.
pub mod Ring
pub mod Insert
pub mod Visit
pub mod Entries
pub mod Cross
pub mod Splice
pub mod Move
use icehydra.Prelude.{
  ℕ, zero, suc, Bool, true, false, List, [], ◌∷◌, ◌==◌, ◌+◌, ◌-◌, not, if◌then◌else◌,
}
use icehydra.Run.{Run, ok, out_of_fuel, ◌>>=◌}

-- struct list_head, at every address.
pub record Links : Type 0 where
  pub next : ℕ → ℕ
  pub prev : ℕ → ℕ

-- The memory after a write at `p`.
abbrev pub put : (ℕ → ℕ) → ℕ → ℕ → ℕ → ℕ
put f p v q = if q == p then v else f q

-- x->next = y and x->prev = y
abbrev pub set_next : ℕ → ℕ → Links → Links
set_next x y m = record m { next = put m.next x y }

abbrev pub set_prev : ℕ → ℕ → Links → Links
set_prev x y m = record m { prev = put m.prev x y }

unfoldable pub init_list_head : ℕ → Links → Links
init_list_head list m = set_prev list list (set_next list list m)

-- __list_add and __list_del
unfoldable pub list_add_between : ℕ → ℕ → ℕ → Links → Links
list_add_between node before after m =
    set_next before node (set_prev node before (set_next node after (set_prev after node m)))

unfoldable pub list_del_between : ℕ → ℕ → Links → Links
list_del_between before after m = set_next before after (set_prev after before m)

unfoldable pub list_add : ℕ → ℕ → Links → Links
unfolding list_add_between
list_add node head m = list_add_between node head (m.next head) m

unfoldable pub list_add_tail : ℕ → ℕ → Links → Links
unfolding list_add_between
list_add_tail node head m = list_add_between node (m.prev head) head m

unfoldable pub list_del : ℕ → Links → Links
unfolding list_del_between
list_del entry m = list_del_between (m.prev entry) (m.next entry) m

unfoldable pub list_move : ℕ → ℕ → Links → Links
unfolding list_del_between list_add
list_move list head m = list_add list head (list_del_between (m.prev list) (m.next list) m)

unfoldable pub list_move_tail : ℕ → ℕ → Links → Links
unfolding list_del_between list_add_tail
list_move_tail list head m =
    list_add_tail list head (list_del_between (m.prev list) (m.next list) m)

unfoldable pub list_empty : ℕ → Links → Bool
list_empty head m = m.next head == head

-- __list_splice
unfoldable pub splice : ℕ → ℕ → Links → Links
splice list head m =
    let first = m.next list in
    let last = m.prev list in
    let at = m.next head in
    set_prev at last (set_next last at (set_next head first (set_prev first head m)))

unfoldable pub list_splice : ℕ → ℕ → Links → Links
unfolding list_empty splice
list_splice list head m = if list_empty list m then m else splice list head m

unfoldable pub list_splice_init : ℕ → ℕ → Links → Links
unfolding list_empty splice init_list_head
list_splice_init list head m =
    if list_empty list m then m else init_list_head list (splice list head m)

-- A walk along pointers that stops before `stop`, with the addresses it comes to.
unfoldable pub walk : (ℕ → ℕ) → ℕ → ℕ → ℕ → Run (List ℕ)
walk step stop zero pos = out_of_fuel
walk step stop (suc fuel) pos = elim (pos == stop) [
  | true ↦ ok []
  | false ↦ do rest ← walk step stop fuel (step pos); ok (pos ∷ rest)
]

-- The addresses that the loop's variable takes.
unfoldable pub list_for_each : ℕ → ℕ → Links → Run (List ℕ)
unfolding walk
list_for_each fuel head m = walk m.next head fuel (m.next head)

unfoldable pub list_for_each_prev : ℕ → ℕ → Links → Run (List ℕ)
unfolding walk
list_for_each_prev fuel head m = walk m.prev head fuel (m.prev head)

-- `n` is read before the body runs, which gives the memory that it leaves.
unfoldable pub walk_safe : ℕ → (ℕ → Links → Links) → ℕ → ℕ → ℕ → Links → Run (List ℕ × Links)
walk_safe head body zero pos n m = out_of_fuel
walk_safe head body (suc fuel) pos n m = elim (pos == head) [
  | true ↦ ok ([], m)
  | false ↦ do
    let m' = body pos m
    (rest, m'') ← walk_safe head body fuel n (m'.next n) m'
    ok (pos ∷ rest, m'')
]

-- The addresses that the loop's variable takes, and the memory that the bodies leave.
unfoldable pub list_for_each_safe : ℕ → (ℕ → Links → Links) → ℕ → Links → Run (List ℕ × Links)
unfolding walk_safe
list_for_each_safe fuel body head m =
    walk_safe head body fuel (m.next head) (m.next (m.next head)) m

-- The struct's address, for a pointer to its `list_head` at the offset `member`.
unfoldable pub list_entry : ℕ → ℕ → ℕ
list_entry member ptr = ptr - member

unfoldable pub walk_entry : ℕ → ℕ → Links → ℕ → ℕ → Run (List ℕ)
unfolding list_entry
walk_entry member head m zero pos = out_of_fuel
walk_entry member head m (suc fuel) pos = elim (pos + member == head) [
  | true ↦ ok []
  | false ↦ do
    rest ← walk_entry member head m fuel (list_entry member (m.next (pos + member)))
    ok (pos ∷ rest)
]

unfoldable pub list_for_each_entry : ℕ → ℕ → ℕ → Links → Run (List ℕ)
unfolding walk_entry
list_for_each_entry fuel member head m =
    walk_entry member head m fuel (list_entry member (m.next head))
