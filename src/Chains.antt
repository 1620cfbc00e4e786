-- ===== src/Chains.antt =====
-- include/list.h: the singly linked list. A node is an address, 0 is the null pointer, and the address
-- of a slist_head is that of its node `first`.
pub mod Line
pub mod Change
pub mod Remove
pub mod Join
use icehydra.Prelude.{ℕ, zero, suc, Bool, true, false, List, [], ◌∷◌, ◌==◌, if◌then◌else◌}
use icehydra.Run.{Run, ok, fault, out_of_fuel, ◌>>=◌}
use icehydra.Links.{put, walk}

-- struct slist_node at every address, and `last` of the slist_head there.
pub record Chains : Type 0 where
  pub next : ℕ → ℕ
  pub last : ℕ → ℕ

-- x->next = y and list->last = y
abbrev pub set_next : ℕ → ℕ → Chains → Chains
set_next x y m = record m { next = put m.next x y }

abbrev pub set_last : ℕ → ℕ → Chains → Chains
set_last list y m = record m { last = put m.last list y }

-- `if (!x->next) list->last = x`
abbrev pub end_at : ℕ → ℕ → Chains → Chains
end_at x list m = if m.next x == 0 then set_last list x m else m

unfoldable pub init_slist_head : ℕ → Chains → Chains
init_slist_head list m = set_last list list (set_next list 0 m)

unfoldable pub slist_add_after : ℕ → ℕ → ℕ → Chains → Chains
slist_add_after node prev list m =
    end_at node list (set_next prev node (set_next node (m.next prev) m))

unfoldable pub slist_add_head : ℕ → ℕ → Chains → Chains
unfolding slist_add_after
slist_add_head node list m = slist_add_after node list list m

unfoldable pub slist_add_tail : ℕ → ℕ → Chains → Chains
slist_add_tail node list m = set_last list node (set_next (m.last list) node (set_next node 0 m))

-- `prev->next->next` reads through the null pointer behind the last node.
unfoldable pub slist_del_after : ℕ → ℕ → Chains → Run Chains
slist_del_after prev list m =
    if m.next prev == 0
    then fault
    else ok (end_at prev list (set_next prev (m.next (m.next prev)) m))

unfoldable pub slist_del_head : ℕ → Chains → Run Chains
unfolding slist_del_after
slist_del_head list m = slist_del_after list list m

unfoldable pub slist_empty : ℕ → Chains → Bool
slist_empty list m = m.next list == 0

-- __slist_splice
unfoldable pub join : ℕ → ℕ → ℕ → Chains → Chains
join list at head m =
    let m1 = set_next (m.last list) (m.next at) m in
    let m2 = set_next at (m1.next list) m1 in
    if m2.next (m2.last list) == 0 then set_last head (m2.last list) m2 else m2

unfoldable pub slist_splice : ℕ → ℕ → ℕ → Chains → Chains
unfolding slist_empty join
slist_splice list at head m = if slist_empty list m then m else join list at head m

unfoldable pub slist_splice_init : ℕ → ℕ → ℕ → Chains → Chains
unfolding slist_empty join init_slist_head
slist_splice_init list at head m =
    if slist_empty list m then m else init_slist_head list (join list at head m)

-- The addresses that the loop's variable takes.
unfoldable pub slist_for_each : ℕ → ℕ → Chains → Run (List ℕ)
unfolding walk
slist_for_each fuel head m = walk m.next 0 fuel (m.next head)
