-- ===== src/Tests/Lists.antt =====
-- The lists of list.c at concrete inputs.
use lpc17xx_network.Base.{ℕ, ◌≡◌, refl, arith, [], ◌∷◌, some, none, if◌then◌else◌, ◌==◌}
use lpc17xx_network.LinkedList.{Links, list_for_each, list_splice}
use lpc17xx_network.LinkedList.Ring.{IsRing}
use lpc17xx_network.LinkedList.Walk.{list_for_each-visits}
use lpc17xx_network.LinkedList.Splice.{list_splice-for_each}

-- Of five nodes.
abbrev five : ℕ → ℕ → ℕ → ℕ → ℕ → ℕ → ℕ
five a b c d e n =
    if n == 1
    then a
    else if n == 2
    then b
    else if n == 3
    then c
    else if n == 4
    then d
    else if n == 5
    then e
    else 0

-- Node 1 heads the list of nodes 2 and 3; node 4 heads the list of node 5.
abbrev pub links : Links
links = record { next = five 2 3 1 5 4; prev = five 3 1 2 5 4 }

pub two-IsRing : IsRing links 1 (2 ∷ 3 ∷ [])
two-IsRing = record {
  chain = (refl, refl, (refl, refl, (refl, refl)));
  distinct = (refl, (refl, (refl, tt)));
}

one-IsRing : IsRing links 4 (5 ∷ [])
one-IsRing = record { chain = (refl, refl, (refl, refl)); distinct = (refl, (refl, tt)) }

list_for_each-visits_example : list_for_each 3 1 links ≡ some (2 ∷ 3 ∷ [])
list_for_each-visits_example = list_for_each-visits 3 1 (2 ∷ 3 ∷ []) links two-IsRing (omega arith)

list_splice-for_each_example : list_for_each 10 4 (list_splice 1 4 links) ≡ none
list_splice-for_each_example =
    list_splice-for_each 1 4 2 (3 ∷ []) (5 ∷ []) links two-IsRing one-IsRing refl 10
