-- ===== src/LinkedList/Add.antt =====
-- INIT_LIST, list_add and list_add_tail on a well-formed list.
use lpc17xx_network.Base.{ℕ, refl, arith, List, [], ◌∷◌, ◌++◌}
use lpc17xx_network.LinkedList.{Links, list_add_between, list_add, list_add_tail, init_list}
use lpc17xx_network.LinkedList.Ring.{
  ◌∉◌, IsRing, Chain-frame, Chain-append, has-append, prev-mem, Chain-retarget, IsDistinct-join,
}

pub init_list-IsRing : (ptr : ℕ) (l : Links) → IsRing (init_list ptr l) ptr []
unfolding init_list
init_list-IsRing ptr l = record { chain = (ground arith, ground arith); distinct = (refl, tt) }

-- In a well-formed list, list_add of a node that is neither the head nor in the list leaves a
-- well-formed list with the new node first and the others in order.
pub list_add-cons :
    (new head : ℕ) (xs : List ℕ) (l : Links)
    → IsRing l head xs
    → new ∉ (head ∷ xs)
    → IsRing (list_add new head l) head (new ∷ xs)
unfolding list_add list_add_between
list_add-cons new head [] l r out = record {
  chain = (ground arith, ground arith, (ground arith, ground arith));
  distinct = ground arith;
}
list_add-cons new head (x ∷ xs) l r out = record {
  chain = (
    ground arith,
    ground arith,
    (
      ground arith,
      ground arith,
      Chain-frame l _ x xs head (λ a h. ground arith)
          (λ a h. ground (arith, has-append a xs (head ∷ []))) r.chain.2,
    ),
  );
  distinct = ground arith;
}

-- In a well-formed list, list_add_tail of a node that is neither the head nor in the list leaves
-- a well-formed list with the new node last and the others in order.
pub list_add_tail-append :
    (new head : ℕ) (xs : List ℕ) (l : Links)
    → IsRing l head xs
    → new ∉ (head ∷ xs)
    → IsRing (list_add_tail new head l) head (xs ++ new ∷ [])
unfolding list_add_tail list_add_between
list_add_tail-append new head xs l r out =
    let last = prev-mem l head xs head r.chain in
    record {
      chain = (Chain-append _ head xs new [] head).1 (
        Chain-retarget l _ head xs head new r.chain r.distinct (ground arith) (ground arith)
            (λ n h e. ground arith) (λ n h. ground arith),
        (ground (arith, last), ground arith),
      );
      distinct = IsDistinct-join (head ∷ xs) (new ∷ []) r.distinct (refl, tt) (λ n h. ground arith);
    }
