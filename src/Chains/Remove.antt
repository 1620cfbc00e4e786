-- ===== src/Chains/Remove.antt =====
-- Nodes of a singly linked list of include/list.h are taken out.
use icehydra.Prelude.{
  ℕ, ◌≡◌, sym, ap, ◌∙◌, false, List, [], ◌∷◌, ◌++◌, arith, ◌==◌, eq→==, if◌then◌else◌,
}
use icehydra.Run.{ok, fault}
use icehydra.Links.{put}
use icehydra.Links.Ring.{PathTo, has, has-append, IsDistinct, IsDistinct-cut}
use icehydra.Links.Cross.{Agree, Agree-refl, Agree-put, PathTo-Agree}
use icehydra.Chains.{Chains, set_next, end_at, slist_del_after}
use icehydra.Chains.Line.{
  last_of, last_of-append, Steps-put_last, PathTo-split, PathTo-joined, IsChain, end_at-IsChain,
}
use icehydra.Chains.Change.{last_of-out, last-behind}

IsDistinct-remove : (xs ys : List ℕ) (x : ℕ) → IsDistinct (xs ++ x ∷ ys) → IsDistinct (xs ++ ys)
IsDistinct-remove [] ys x (out, d) = d
IsDistinct-remove (z ∷ xs) ys x (out, d) =
    (ground (arith, has-append z xs (x ∷ ys), has-append z xs ys), IsDistinct-remove xs ys x d)

-- Behind the last node there is nothing to take out, and the null pointer is read.
pub slist_del_after-fault :
    (m : Chains) (h : ℕ) (xs : List ℕ)
    → m.next (last_of h xs) ≡ 0
    → slist_del_after (last_of h xs) h m ≡ fault
unfolding slist_del_after
slist_del_after-fault m h xs e = rw (eq→== (m.next (last_of h xs)) 0 e)

module _ (m : Chains) (h x : ℕ) (xs ys : List ℕ) (chain : IsChain m h (xs ++ x ∷ ys)) where
  left_way : PathTo (put m.next (last_of h xs) (m.next x)) h (xs ++ ys) 0
  left_way =
      let (way, end, d, live) = chain in
      let f = m.next in
      let prev = last_of h xs in
      let g = put f prev (f x) in
      let (steps, (e, behind)) = PathTo-split f h 0 xs (x ∷ ys) way in
      let prev_out : has prev (x ∷ ys) ≡ false = last_of-out h xs (x ∷ ys) d in
      let same : Agree f g ys = Agree-put f f prev (f x) ys (ground arith) (Agree-refl f ys) in
      let from_prev : g prev ≡ f x = ground arith in
      PathTo-joined g h 0 xs ys
        (Steps-put_last f (f x) h xs (IsDistinct-cut (h ∷ xs) (x ∷ ys) d).0 steps)
        (PathTo-Agree f g x prev 0 ys from_prev same behind)

  left_last : (if m.next x == 0 then last_of h xs else m.last h) ≡ last_of h (xs ++ ys)
  left_last =
      let (way, end, d, live) = chain in
      ap (λ e. if m.next x == 0 then last_of h xs else e) (end ∙ last_of-append h xs (x ∷ ys))
      ∙ last-behind m.next x (last_of h xs) ys (PathTo-split m.next h 0 xs (x ∷ ys) way).1.1
          (ground (arith, has-append 0 xs (x ∷ ys)))
      ∙ sym (last_of-append h xs ys)

  -- The node behind any node, or behind the head, is taken out.
  pub slist_del_after-IsChain :
      (m' : Chains) × (slist_del_after (last_of h xs) h m ≡ ok m') × IsChain m' h (xs ++ ys)
  unfolding slist_del_after
  slist_del_after-IsChain =
      let (way, end, d, live) = chain in
      let prev = last_of h xs in
      let (steps, (e, behind)) = PathTo-split m.next h 0 xs (x ∷ ys) way in
      let some_node : (m.next prev == 0) ≡ false = ground (arith, has-append 0 xs (x ∷ ys)) in
      let shorter = set_next prev (m.next x) m in
      let removed : slist_del_after prev h m ≡ ok (end_at prev h shorter) =
        rw some_node (ap (λ n. ok (end_at prev h (set_next prev (m.next n) m))) e) in
      let from_prev : shorter.next prev ≡ m.next x = ground arith in
      let kept : IsDistinct (h ∷ xs ++ ys) = IsDistinct-remove (h ∷ xs) ys x d in
      let alive : has 0 (h ∷ xs ++ ys) ≡ false =
        ground (arith, has-append 0 xs (x ∷ ys), has-append 0 xs ys) in
      (
        end_at prev h shorter,
        removed,
        end_at-IsChain shorter h prev (xs ++ ys) left_way
            (ap (λ v. if v == 0 then prev else m.last h) from_prev ∙ left_last) kept alive,
      )
