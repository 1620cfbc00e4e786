-- ===== src/Chains/Change.antt =====
-- Nodes of a singly linked list of include/list.h are added and taken out.
use icehydra.Prelude.{
  ℕ, ◌≡◌, sym, ap, ◌∙◌, Bool, true, false, List, [], ◌∷◌, ◌++◌, append-nil, arith, ◌==◌, eq→==,
  if◌then◌else◌,
}
use mathlib.Core.Path.{subst, ap₂}
use icehydra.Links.{put}
use icehydra.Links.Ring.{PathTo, has, has-append, IsDistinct, IsDistinct-cut}
use icehydra.Links.Cross.{Agree, Agree-refl, Agree-put, PathTo-Agree}
use icehydra.Chains.{Chains, set_next, set_last, slist_add_after, slist_add_tail}
use icehydra.Chains.Line.{
  last_of, last_of-append, has-last_of, has-other, Steps-put, Steps-put_last, PathTo-split,
  PathTo-joined, IsChain, end_at-IsChain,
}

IsDistinct-insert :
    (xs ys : List ℕ) (node : ℕ)
    → has node (xs ++ ys) ≡ false
    → IsDistinct (xs ++ ys)
    → IsDistinct (xs ++ node ∷ ys)
IsDistinct-insert [] ys node out d = (out, d)
IsDistinct-insert (x ∷ xs) ys node out (away, d) = (
  ground (arith, has-append x xs ys, has-append x xs (node ∷ ys)),
  IsDistinct-insert xs ys node (ground arith) d,
)

-- The last of the first nodes is none of those behind them.
pub last_of-out :
    (h : ℕ) (xs ys : List ℕ) → IsDistinct (h ∷ xs ++ ys) → has (last_of h xs) ys ≡ false
last_of-out h [] ys (out, d) = out
last_of-out h (x ∷ xs) ys (out, d) = last_of-out x xs ys d

-- Behind the last node, slist_add_after moves `last`.
slist_add_after-last :
    (m : Chains) (h node prev : ℕ)
    → (node == prev) ≡ false
    → m.next prev ≡ 0
    → slist_add_after node prev h m
      ≡ set_last h node (set_next prev node (set_next node (m.next prev) m))
unfolding slist_add_after
slist_add_after-last m h node prev other null =
    let grown = set_next prev node (set_next node (m.next prev) m) in
    let at_end : (grown.next node == 0) ≡ true = ground arith in
    ap (λ (b : Bool). if b then set_last h node grown else grown) at_end

-- Where `last` is to point, by whether a node stands behind.
pub last-behind :
    (f : ℕ → ℕ) (prev node : ℕ) (ys : List ℕ)
    → PathTo f prev ys 0
    → has 0 ys ≡ false
    → (if f prev == 0 then node else last_of prev ys) ≡ last_of node ys
last-behind f prev node [] e live = rw (eq→== (f prev) 0 e)
last-behind f prev node (y ∷ ys) (e, way) live =
    let some_node : (f prev == 0) ≡ false = ground arith in rw some_node

module _ (m : Chains) (h node : ℕ) (xs ys : List ℕ) (chain : IsChain m h (xs ++ ys))
    (out : has node (0 ∷ h ∷ xs ++ ys) ≡ false) where
  added_way :
      PathTo
        (put (put m.next node (m.next (last_of h xs))) (last_of h xs) node)
        h
        (xs ++ node ∷ ys)
        0
  added_way =
      let (way, end, d, live) = chain in
      let f = m.next in
      let prev = last_of h xs in
      let g = put (put f node (f prev)) prev node in
      let (steps, behind) = PathTo-split f h 0 xs ys way in
      let node_out : has node (h ∷ xs) ≡ false = ground (arith, has-append node xs ys) in
      let other : (node == prev) ≡ false =
        has-other node prev (h ∷ xs) node_out (has-last_of h xs) in
      let same : Agree f g ys =
        Agree-put f (put f node (f prev)) prev node ys (last_of-out h xs ys d) (
          Agree-put f f node (f prev) ys (ground (arith, has-append node xs ys))
            (Agree-refl f ys)) in
      let from_prev : g prev ≡ node = ground arith in
      let from_node : g node ≡ f prev = ground arith in
      PathTo-joined g h 0 xs (node ∷ ys)
        (Steps-put_last (put f node (f prev)) node h xs (IsDistinct-cut (h ∷ xs) ys d).0
          (Steps-put f node (f prev) h xs node_out steps))
        (from_prev, PathTo-Agree f g prev node 0 ys from_node same behind)

  added_kept : IsDistinct (h ∷ xs ++ node ∷ ys) × (has 0 (h ∷ xs ++ node ∷ ys) ≡ false)
  added_kept =
      let (way, end, d, live) = chain in
      (
        IsDistinct-insert (h ∷ xs) ys node (ground arith) d,
        ground (arith, has-append 0 xs ys, has-append 0 xs (node ∷ ys)),
      )

  added_last : (if m.next (last_of h xs) == 0 then node else m.last h) ≡ last_of h (xs ++ node ∷ ys)
  added_last =
      let (way, end, d, live) = chain in
      ap (λ e. if m.next (last_of h xs) == 0 then node else e) (end ∙ last_of-append h xs ys)
      ∙ last-behind m.next (last_of h xs) node ys (PathTo-split m.next h 0 xs ys way).1
          (ground (arith, has-append 0 xs ys))
      ∙ sym (last_of-append h xs (node ∷ ys))

  -- A node that is not the list's is put behind any of its nodes, or the head.
  pub slist_add_after-IsChain :
      IsChain (slist_add_after node (last_of h xs) h m) h (xs ++ node ∷ ys)
  unfolding slist_add_after
  slist_add_after-IsChain =
      let prev = last_of h xs in
      let grown = set_next prev node (set_next node (m.next prev) m) in
      let other : (node == prev) ≡ false =
        has-other node prev (h ∷ xs) (ground (arith, has-append node xs ys)) (has-last_of h xs) in
      let from_node : grown.next node ≡ m.next prev = ground arith in
      end_at-IsChain grown h node (xs ++ node ∷ ys) added_way
        (ap (λ v. if v == 0 then node else m.last h) from_node ∙ added_last) added_kept.0
        added_kept.1

-- slist_add_tail puts the node last.
pub slist_add_tail-IsChain :
    (m : Chains) (h node : ℕ) (xs : List ℕ)
    → IsChain m h xs
    → has node (0 ∷ h ∷ xs) ≡ false
    → IsChain (slist_add_tail node h m) h (xs ++ node ∷ [])
unfolding slist_add_tail
slist_add_tail-IsChain m h node xs (way, end, d, live) out =
    let prev = last_of h xs in
    let other : (node == prev) ≡ false =
      has-other node prev (h ∷ xs) (ground arith) (has-last_of h xs) in
    let whole = append-nil xs in
    let null : m.next prev ≡ 0 =
      (PathTo-split m.next h 0 xs [] (subst (λ l. PathTo m.next h l 0) (sym whole) way)).1 in
    let tail : slist_add_tail node h m ≡ slist_add_after node prev h m =
      ap₂ (λ p v. set_last h node (set_next p node (set_next node v m))) end (sym null)
      ∙ sym (slist_add_after-last m h node prev other null) in
    subst (λ c. IsChain c h (xs ++ node ∷ [])) (sym tail)
      (slist_add_after-IsChain m h node xs [] (subst (IsChain m h) (sym whole) (way, end, d, live))
        (subst (λ l. has node (0 ∷ h ∷ l) ≡ false) (sym whole) out))
