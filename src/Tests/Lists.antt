-- ===== src/Tests/Lists.antt =====
-- The theorems about linked lists, at memories in which lists were built.
use icehydra.Prelude.{ℕ, ◌≡◌, refl, [], ◌∷◌, arith}
use icehydra.Run.{ok}
use icehydra.Links.{
  Links, put, init_list_head, list_del, list_for_each, list_for_each_safe, list_splice,
  list_splice_init,
}
use icehydra.Links.Ring.{IsRing}
use icehydra.Links.Insert.{list_del-IsRing}
use icehydra.Links.Visit.{link_all, link_all-visited}
use icehydra.Links.Entries.{list_for_each_safe-list_del}
use icehydra.Links.Splice.{list_splice-IsRing}

abbrev blank : Links
blank = record { next = λ p. 0; prev = λ p. 0 }

link_all-visited_example :
    list_for_each 3 100 (link_all 100 (200 ∷ 300 ∷ []) (init_list_head 100 blank))
    ≡ ok (200 ∷ 300 ∷ [])
link_all-visited_example = link_all-visited blank 100 (200 ∷ 300 ∷ []) (refl, (refl, (refl, tt)))

-- The head 1 with the entries 2 and 3, and the head 4 with the entry 5.
abbrev forth : ℕ → ℕ
forth = put (put (put (put (put (λ p. 0) 1 2) 2 3) 3 1) 4 5) 5 4

abbrev back : ℕ → ℕ
back = put (put (put (put (put (λ p. 0) 1 3) 3 2) 2 1) 4 5) 5 4

abbrev two_lists : Links
two_lists = record { next = forth; prev = back }

first-IsRing : IsRing two_lists 1 (2 ∷ 3 ∷ [])
first-IsRing = ((refl, (refl, refl)), (refl, (refl, refl)), (refl, (refl, (refl, tt))))

second-IsRing : IsRing two_lists 4 (5 ∷ [])
second-IsRing = ((refl, refl), (refl, refl), (refl, (refl, tt)))

two_lists-IsRing : IsRing (list_del 3 two_lists) 1 (2 ∷ [])
two_lists-IsRing = list_del-IsRing two_lists 1 3 (2 ∷ []) [] first-IsRing

two_lists-emptied :
    (m' : Links) × (list_for_each_safe 3 list_del 1 two_lists ≡ ok (2 ∷ 3 ∷ [], m'))
    × IsRing m' 1 []
two_lists-emptied =
    list_for_each_safe-list_del two_lists 1 3 (2 ∷ 3 ∷ []) first-IsRing (omega arith)

list_splice-IsRing_example :
    IsRing (list_splice 4 1 two_lists) 1 (5 ∷ 2 ∷ 3 ∷ [])
    × IsRing (list_splice_init 4 1 two_lists) 1 (5 ∷ 2 ∷ 3 ∷ [])
    × IsRing (list_splice_init 4 1 two_lists) 4 []
list_splice-IsRing_example =
    list_splice-IsRing two_lists 4 1 (5 ∷ []) (2 ∷ 3 ∷ []) second-IsRing first-IsRing
      (refl, (refl, tt))
