-- ===== src/Links/Entries.antt =====
-- The loops of include/list.h over the structs that hold the list, and the one that may remove them.
use icehydra.Prelude.{
  ℕ, zero, suc, ◌+◌, ◌-◌, ◌≤◌, ◌<◌, ◌≡◌, ap, ◌∙◌, false, true, List, [], ◌∷◌, map, arith, ◌==◌,
  eq→==, length,
}
use icehydra.Run.{Run, ok, ◌>>=◌}
use icehydra.Links.{
  Links, list_del, list_del_between, walk_safe, list_for_each_safe, list_entry, walk_entry,
  list_for_each_entry,
}
use icehydra.Links.Ring.{PathTo, has, IsRing}
use icehydra.Links.Insert.{list_del-IsRing}

-- Each address is at least as high as an offset.
abbrev pub Above : ℕ → List ℕ → Type 0
Above member [] = Unit {0}
Above member (x ∷ xs) = (member ≤ x) × Above member xs

walk_entry-step :
    (m : Links) (head member fuel pos : ℕ)
    → (pos + member == head) ≡ false
    → walk_entry member head m (suc fuel) pos ≡ (do
      rest ← walk_entry member head m fuel (list_entry member (m.next (pos + member)))
      ok (pos ∷ rest))
unfolding walk_entry
walk_entry-step m head member fuel pos miss = rw (walk_entry, miss)

walk_safe-step :
    (m : Links) (head fuel pos n : ℕ) (body : ℕ → Links → Links)
    → (pos == head) ≡ false
    → walk_safe head body (suc fuel) pos n m ≡ (do
      (rest, m') ← walk_safe head body fuel n ((body pos m).next n) (body pos m)
      ok (pos ∷ rest, m'))
unfolding walk_safe
walk_safe-step m head fuel pos n body miss = rw (walk_safe, miss)

walk_entry-PathTo :
    (m : Links) (a head member fuel : ℕ) (xs : List ℕ)
    → PathTo m.next a xs head
    → has head xs ≡ false
    → member ≤ head
    → Above member xs
    → length xs < fuel
    → walk_entry member head m fuel (list_entry member (m.next a)) ≡ ok (map (list_entry member) xs)
unfolding walk_entry list_entry
walk_entry-PathTo m a head member zero xs way out low up h = absurd (omega arith)
walk_entry-PathTo m a head member (suc fuel) [] way out low up h =
    let back : (m.next a - member + member == head) ≡ true =
      eq→== (m.next a - member + member) head (omega (arith, way, low)) in
    rw (walk_entry, back)
walk_entry-PathTo m a head member (suc fuel) (x ∷ xs) (e, way) out low (up, ups) h =
    let same : x - member + member ≡ x = omega arith in
    let miss : (x - member + member == head) ≡ false = ground arith in
    let rest = walk_entry-PathTo m x head member fuel xs way (ground arith) low ups (omega arith) in
    ap (λ p. walk_entry member head m (suc fuel) (p - member)) e
    ∙ walk_entry-step m head member fuel (x - member) miss
    ∙ ap
        (λ p. do
          rest ← walk_entry member head m fuel (list_entry member (m.next p))
          ok ((x - member) ∷ rest))
        same
    ∙ ap (λ (r : Run (List ℕ)). do rest ← r; ok ((x - member) ∷ rest)) rest

-- On a list whose addresses are at least the offset of `member`, with as much fuel as entries and one:
-- list_for_each_entry comes to the structs of the entries, in order.
pub list_for_each_entry-IsRing :
    (m : Links) (head member fuel : ℕ) (xs : List ℕ)
    → IsRing m head xs
    → member ≤ head
    → Above member xs
    → length xs < fuel
    → list_for_each_entry fuel member head m ≡ ok (map (list_entry member) xs)
unfolding list_for_each_entry
list_for_each_entry-IsRing m head member fuel xs (forth, back, (out, d)) low up h =
    walk_entry-PathTo m head head member fuel xs forth out low up h

-- When the body removes the entry that the loop stands at, list_for_each_safe still comes to every
-- entry, in order, and the list is empty at the end.
pub list_for_each_safe-list_del :
    (m : Links) (head fuel : ℕ) (xs : List ℕ)
    → IsRing m head xs
    → length xs < fuel
    → (m' : Links) × (list_for_each_safe fuel list_del head m ≡ ok (xs, m')) × IsRing m' head []
unfolding list_for_each_safe walk_safe list_del list_del_between
list_for_each_safe-list_del m head zero xs ring h = absurd (omega arith)
list_for_each_safe-list_del m head (suc fuel) [] (e, e', d) h =
    let back : (m.next head == head) ≡ true = eq→== (m.next head) head e in
    (m, rw (walk_safe, back), (e, e', d))
list_for_each_safe-list_del m head (suc fuel) (x ∷ xs) ring h =
    let shorter = list_del-IsRing m head x [] xs ring in
    let (m', went, empty) =
      list_for_each_safe-list_del (list_del x m) head fuel xs shorter (omega arith) in
    let miss : (x == head) ≡ false = ground arith in
    let first : m.next head ≡ x = ring.0.0 in
    let second : m.next x ≡ (list_del x m).next head = ground arith in
    (
      m',
      ap (λ p. walk_safe head list_del (suc fuel) p (m.next p) m) first
          ∙ walk_safe-step m head fuel x (m.next x) list_del miss
          ∙ ap
              (λ (n : ℕ). do
                (rest, m'') ← walk_safe head list_del fuel n ((list_del x m).next n) (list_del x m)
                ok (x ∷ rest, m''))
              second
          ∙ ap (λ (r : Run (List ℕ × Links)). do (rest, m'') ← r; ok (x ∷ rest, m'')) went,
      empty,
    )
