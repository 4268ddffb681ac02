-- ===== src/LinkedList/Splice.antt =====
-- Walks of a list after list_splice.
use lpc17xx_network.Base.{ℕ, zero, suc, ◌≡◌, ◌≢◌, refl, arith, true, none, List, [], ◌∷◌}
use lpc17xx_network.LinkedList.{Links, list_splice, visit, list_for_each}
use lpc17xx_network.LinkedList.Ring.{has, ◌∉◌, Chain, IsRing, prev-mem}

-- A walk that stays among nodes other than the head does not end.
visit_closed :
    (n pos head : ℕ) (xs : List ℕ) (l : Links)
    → head ∉ xs
    → ((a : ℕ) → has a xs ≡ true → has (l.next a) xs ≡ true)
    → has pos xs ≡ true
    → visit n pos head l ≡ none
unfolding visit
visit_closed zero pos head xs l out closed m = refl
visit_closed (suc n) pos head xs l out closed m =
    ground (arith, visit_closed n (l.next pos) head xs l out closed (closed pos m))

-- In a chain every node but the last is followed by another node.
next_inside :
    (l : Links) (p : ℕ) (xs : List ℕ) (q a : ℕ)
    → Chain l p xs q
    → has a (p ∷ xs) ≡ true
    → a ≢ l.prev q
    → has (l.next a) xs ≡ true
next_inside l p [] q a c m ne = ground arith
next_inside l p (x ∷ xs) q a (b, c, d) m ne = ground (arith, next_inside l x xs q a d)

-- After list_splice of a well-formed list that has nodes onto the head of another, a walk of
-- list_for_each from that head does not end, whatever the fuel.
pub list_splice-for_each :
    (from head x : ℕ) (xs ys : List ℕ) (l : Links)
    → IsRing l from (x ∷ xs)
    → IsRing l head ys
    → head ∉ (from ∷ x ∷ xs)
    → (fuel : ℕ) → list_for_each fuel head (list_splice from head l) ≡ none
unfolding list_for_each list_splice
list_splice-for_each from head x xs ys l r s out fuel =
    let last = prev-mem l x xs from r.chain.2 in
    visit_closed fuel _ head (x ∷ xs) (list_splice from head l) (ground arith)
      (λ a m. ground (arith, next_inside l x xs from a r.chain.2, last)) (ground (arith, last))
