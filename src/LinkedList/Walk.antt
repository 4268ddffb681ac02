-- ===== src/LinkedList/Walk.antt =====
-- list_empty and list_for_each on a well-formed list.
use lpc17xx_network.Base.{ℕ, zero, suc, ◌<◌, ◌≡◌, arith, some, List, [], ◌∷◌, is_empty, length}
use lpc17xx_network.LinkedList.{Links, list_empty, visit, list_for_each}
use lpc17xx_network.LinkedList.Ring.{◌∉◌, Chain, IsRing}

-- list_empty tells whether the list has no node.
pub list_empty-is_empty :
    (head : ℕ) (xs : List ℕ) (l : Links) → IsRing l head xs → list_empty head l ≡ is_empty xs
unfolding list_empty
list_empty-is_empty head [] l r = ground arith
list_empty-is_empty head (x ∷ xs) l r = ground arith

visit-Chain :
    (n p head : ℕ) (xs : List ℕ) (l : Links)
    → Chain l p xs head
    → head ∉ xs
    → length xs < n
    → visit n (l.next p) head l ≡ some xs
unfolding visit
visit-Chain zero p head xs l c out fuel = absurd (omega arith)
visit-Chain (suc n) p head [] l c out fuel = ground arith
visit-Chain (suc n) p head (x ∷ xs) l c out fuel = ground (arith, visit-Chain n x head xs l c.2)

-- On a well-formed list, list_for_each visits every node once and in order, and ends; any fuel
-- above the number of nodes is enough.
pub list_for_each-visits :
    (fuel head : ℕ) (xs : List ℕ) (l : Links)
    → IsRing l head xs
    → length xs < fuel
    → list_for_each fuel head l ≡ some xs
unfolding list_for_each
list_for_each-visits fuel head xs l r h = visit-Chain fuel head head xs l r.chain r.distinct.0 h
