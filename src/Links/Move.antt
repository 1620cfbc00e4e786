-- ===== src/Links/Move.antt =====
-- list_move and list_move_tail of include/list.h, on what the list stands for.
use icehydra.Prelude.{ℕ, ◌≡◌, false, List, [], ◌∷◌, ◌++◌, arith}
use icehydra.Links.{Links, list_del, list_move, list_move_tail}
use icehydra.Links.Ring.{has, has-append, IsDistinct-cut, Apart-comm, IsRing}
use icehydra.Links.Insert.{list_add-IsRing, list_add_tail-IsRing, list_del-IsRing}

module _ (m : Links) (head entry : ℕ) (xs ys : List ℕ)
    (ring : IsRing m head (xs ++ entry ∷ ys)) where
  entry_out : has entry (head ∷ xs ++ ys) ≡ false
  entry_out =
      let (d1, (away0, d2), apart) = IsDistinct-cut (head ∷ xs) (entry ∷ ys) ring.2 in
      let back = Apart-comm (head ∷ xs) (entry ∷ ys) apart in
      ground (arith, has-append entry xs ys, back.0)

  -- list_move puts an entry of the list first, list_move_tail puts it last; the others keep their order.
  pub list_move-IsRing :
      IsRing (list_move entry head m) head (entry ∷ xs ++ ys)
      × IsRing (list_move_tail entry head m) head ((xs ++ ys) ++ entry ∷ [])
  unfolding list_move list_move_tail list_del
  list_move-IsRing =
      let left = list_del-IsRing m head entry xs ys ring in
      (
        list_add-IsRing (list_del entry m) entry head (xs ++ ys) entry_out left,
        list_add_tail-IsRing (list_del entry m) entry head (xs ++ ys) entry_out left,
      )
