-- ===== src/Chains/Join.antt =====
-- slist_splice and slist_splice_init of include/list.h, on what the two lists stand for.
use icehydra.Prelude.{
  ℕ, ◌≡◌, sym, ap, ◌∙◌, true, false, List, [], ◌∷◌, ◌++◌, arith, ◌==◌, eq→==, if◌then◌else◌,
}
use mathlib.Core.Path.{subst}
use icehydra.Links.{put}
use icehydra.Links.Ring.{
  PathTo, has, has-append, IsDistinct, IsDistinct-cut, IsDistinct-append, Apart, Apart-comm,
  Apart-not_has,
}
use icehydra.Links.Cross.{Agree, Agree-refl, Agree-put, PathTo-Agree}
use icehydra.Chains.{Chains, set_next, end_at, slist_empty, join, slist_splice}
use icehydra.Chains.Line.{
  last_of, last_of-append, has-last_of, has-other, Steps-put, Steps-put_last, PathTo-split,
  PathTo-Steps, PathTo-joined, IsChain, end_at-IsChain,
}
use icehydra.Chains.Change.{last_of-out, last-behind}

IsDistinct-between :
    (xs ys zs : List ℕ)
    → IsDistinct (xs ++ zs)
    → IsDistinct ys
    → Apart ys (xs ++ zs)
    → IsDistinct (xs ++ (ys ++ zs))
IsDistinct-between [] ys zs d e away = IsDistinct-append ys zs e d away
IsDistinct-between (x ∷ xs) ys zs (out, d) e away =
    let (x_out, rest) = Apart-comm ys (x ∷ xs ++ zs) away in
    (
      ground (arith, has-append x xs zs, has-append x xs (ys ++ zs), has-append x ys zs),
      IsDistinct-between xs ys zs d e (Apart-comm (xs ++ zs) ys rest),
    )

module _ (m : Chains) (list head y : ℕ) (ys xs zs : List ℕ) (chain : IsChain m list (y ∷ ys))
    (chain' : IsChain m head (xs ++ zs)) (away : Apart (list ∷ y ∷ ys) (head ∷ xs ++ zs)) where
  at_in : has (last_of head xs) (head ∷ xs ++ zs) ≡ true
  at_in = ground (arith, has-last_of head xs, has-append (last_of head xs) xs zs)

  -- The last node of the first list is none of the other's.
  end_out : has (last_of y ys) (head ∷ xs ++ zs) ≡ false
  end_out =
      Apart-not_has (last_of y ys) (head ∷ xs ++ zs) (list ∷ y ∷ ys)
        (Apart-comm (list ∷ y ∷ ys) (head ∷ xs ++ zs) away) (ground (arith, has-last_of y ys))

  -- The node that the lists are joined at is none of the first list's.
  at_out : has (last_of head xs) (list ∷ y ∷ ys) ≡ false
  at_out = Apart-not_has (last_of head xs) (list ∷ y ∷ ys) (head ∷ xs ++ zs) away at_in

  joined_way :
      PathTo
        (put (put m.next (last_of y ys) (m.next (last_of head xs))) (last_of head xs) (m.next list))
        head
        (xs ++ (y ∷ ys ++ zs))
        0
  joined_way =
      let (way, end, d, live) = chain in
      let (way', end', d', live') = chain' in
      let f = m.next in
      let at = last_of head xs in
      let last = last_of y ys in
      let f1 = put f last (f at) in
      let g = put f1 at (f list) in
      let (front, behind) = PathTo-split f head 0 xs zs way' in
      let steps = PathTo-Steps f y 0 ys way.1 in
      let from_at : g at ≡ y = ground (arith, way.0) in
      let other : (last == at) ≡ false = has-other last at (head ∷ xs ++ zs) end_out at_in in
      let from_last : g last ≡ f at = ground arith in
      let same : Agree f g zs = Agree-put f f1 at (f list) zs (last_of-out head xs zs d') (
        Agree-put f f last (f at) zs (ground (arith, end_out, has-append last xs zs))
          (Agree-refl f zs)) in
      PathTo-joined g head 0 xs (y ∷ ys ++ zs)
        (Steps-put_last f1 (f list) head xs (IsDistinct-cut (head ∷ xs) zs d').0
          (Steps-put f last (f at) head xs (ground (arith, end_out, has-append last xs zs)) front))
        (
          from_at,
          PathTo-joined g y 0 ys zs
              (Steps-put f1 at (f list) y ys (ground (arith, at_out))
                (Steps-put_last f (f at) y ys d.1 steps))
              (PathTo-Agree f g at last 0 zs from_last same behind),
        )

  joined_last :
      (if m.next (last_of head xs) == 0 then last_of y ys else m.last head)
      ≡ last_of head (xs ++ (y ∷ ys ++ zs))
  joined_last =
      let (way', end', d', live') = chain' in
      let at = last_of head xs in
      ap (λ e. if m.next at == 0 then last_of y ys else e) (end' ∙ last_of-append head xs zs)
      ∙ last-behind m.next at (last_of y ys) zs (PathTo-split m.next head 0 xs zs way').1
          (ground (arith, has-append 0 xs zs))
      ∙ sym (last_of-append head xs (y ∷ ys ++ zs) ∙ last_of-append y ys zs)

  joined_kept :
      IsDistinct (head ∷ xs ++ (y ∷ ys ++ zs)) × (has 0 (head ∷ xs ++ (y ∷ ys ++ zs)) ≡ false)
  joined_kept =
      let (way, end, d, live) = chain in
      let (way', end', d', live') = chain' in
      (
        IsDistinct-between (head ∷ xs) (y ∷ ys) zs d' d.1 away.1,
        ground
            (arith, has-append 0 xs zs, has-append 0 xs (y ∷ ys ++ zs), has-append 0 (y ∷ ys) zs),
      )

  join-IsChain : IsChain (join list (last_of head xs) head m) head (xs ++ (y ∷ ys ++ zs))
  unfolding join
  join-IsChain =
      let (way, end, d, live) = chain in
      let at = last_of head xs in
      let last = last_of y ys in
      let m2 : Chains = record {
        next = put (put m.next last (m.next at)) at (m.next list);
        last = m.last;
      } in
      let other : (last == at) ≡ false = has-other last at (head ∷ xs ++ zs) end_out at_in in
      let from_last : m2.next last ≡ m.next at = ground arith in
      let apart : (list == last) ≡ false = has-other list last (y ∷ ys) d.0 (has-last_of y ys) in
      let list_kept : put m.next last (m.next at) list ≡ m.next list = ground arith in
      let same : join list at head m ≡ end_at last head m2 =
        ap
          (λ l.
            end_at l head (set_next at (put m.next l (m.next at) list) (set_next l (m.next at) m)))
          end
        ∙ ap (λ v. end_at last head (set_next at v (set_next last (m.next at) m))) list_kept in
      subst (λ c. IsChain c head (xs ++ (y ∷ ys ++ zs))) (sym same)
        (end_at-IsChain m2 head last (xs ++ (y ∷ ys ++ zs)) joined_way
          (ap (λ v. if v == 0 then last else m.last head) from_last ∙ joined_last) joined_kept.0
          joined_kept.1)

-- Two lists that share no address are joined: the nodes of the first go behind any node of the other,
-- or behind its head.
pub slist_splice-IsChain :
    (m : Chains) (list head : ℕ) (ys xs zs : List ℕ)
    → IsChain m list ys
    → IsChain m head (xs ++ zs)
    → Apart (list ∷ ys) (head ∷ xs ++ zs)
    → IsChain (slist_splice list (last_of head xs) head m) head (xs ++ (ys ++ zs))
unfolding slist_splice slist_empty
slist_splice-IsChain m list head [] xs zs (e, end, d, live) chain' away =
    let none_there : (m.next list == 0) ≡ true = eq→== (m.next list) 0 e in
    let same : slist_splice list (last_of head xs) head m ≡ m = rw none_there in
    subst (λ c. IsChain c head (xs ++ zs)) (sym same) chain'
slist_splice-IsChain m list head (y ∷ ys) xs zs ((e, way), end, d, live) chain' away =
    let some_there : (m.next list == 0) ≡ false = ground arith in
    let same : slist_splice list (last_of head xs) head m ≡ join list (last_of head xs) head m =
      rw some_there in
    subst (λ c. IsChain c head (xs ++ (y ∷ ys ++ zs))) (sym same)
      (join-IsChain m list head y ys xs zs ((e, way), end, d, live) chain' away)
