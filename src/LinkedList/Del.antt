-- ===== src/LinkedList/Del.antt =====
-- list_del and list_pop on a well-formed list.
use lpc17xx_network.Base.{ℕ, ◌≡◌, ◌≢◌, refl, arith, true, List, [], ◌∷◌, ◌++◌, append-nil}
use lpc17xx_network.LinkedList.{Links, list_del, list_pop}
use lpc17xx_network.LinkedList.Ring.{
  has, ◌∉◌, IsDistinct, Chain, IsRing, Chain-frame, Chain-append, has-append, prev-mem, next-mem,
  Chain-retarget, IsDistinct-append, IsDistinct-join,
}
use lpc17xx_network.LinkedList.Walk.{list_empty-is_empty}

-- What list_del leaves of the links, where the entry is not its own neighbour.
pub record Deleted (l : Links) (e : ℕ) (k : Links) : Type 0 where
  pub to : k.next (l.prev e) ≡ l.next e
  pub from : k.prev (l.next e) ≡ l.prev e
  pub next_null : k.next e ≡ 0
  pub prev_null : k.prev e ≡ 0
  pub next_same : (n : ℕ) → n ≢ e → n ≢ l.prev e → k.next n ≡ l.next n
  pub prev_same : (n : ℕ) → n ≢ e → n ≢ l.next e → k.prev n ≡ l.prev n

pub list_del-Deleted :
    (l : Links) (e : ℕ) → l.prev e ≢ e → l.next e ≢ e → Deleted l e (list_del e l)
unfolding list_del
list_del-Deleted l e hp hn = record {
  to = ground arith;
  from = ground arith;
  next_null = ground arith;
  prev_null = ground arith;
  next_same = λ n a b. ground arith;
  prev_same = λ n a b. ground arith;
}

-- The chain that is left when the node between `xs` and `ys` is unlinked.
Chain-without :
    (l k : Links) (e p : ℕ) (xs ys : List ℕ) (q : ℕ)
    → Deleted l e k
    → Chain l p xs e
    → Chain l e ys q
    → IsDistinct (p ∷ xs)
    → IsDistinct (ys ++ q ∷ [])
    → ((n : ℕ) → has n (p ∷ xs) ≡ true → n ∉ (e ∷ ys))
    → ((n : ℕ) → has n xs ≡ true → n ∉ (ys ++ q ∷ []))
    → e ∉ ys
    → q ≢ e
    → Chain k p (xs ++ ys) q
Chain-without l k e p xs [] q d front back dx dy apart below out ne = rw append-nil (
    Chain-retarget l k p xs e q front dx (ground (arith, d.to)) (ground (arith, d.from))
      (λ n h m. ground (arith, d.next_same n, apart n))
      (λ n h. ground (arith, d.prev_same n, apart n, below n)))
Chain-without l k e p xs (y ∷ ys) q d front back dx dy apart below out ne =
    (Chain-append k p xs y ys q).1 (
      Chain-retarget l k p xs e y front dx (ground (arith, d.to)) (ground (arith, d.from))
          (λ n h m. ground (arith, d.next_same n, apart n))
          (λ n h. ground (arith, d.prev_same n, apart n, below n)),
      Chain-frame l k y ys q
          (λ a h. ground (arith, d.next_same a, prev-mem l p xs e front, apart (l.prev e)))
          (λ a h. ground (arith, d.prev_same a, has-append a ys (q ∷ []))) back.2,
    )

-- In a well-formed list, list_del takes the node `e` out, leaves a well-formed list of the other
-- nodes in order, and clears both pointers of the node.
pub list_del-append :
    (head e : ℕ) (xs ys : List ℕ) (l : Links)
    → IsRing l head (xs ++ e ∷ ys)
    → IsRing (list_del e l) head (xs ++ ys)
      × ((list_del e l).next e ≡ 0)
      × ((list_del e l).prev e ≡ 0)
list_del-append head e xs ys l r =
    let (front, back) = (Chain-append l head xs e ys head).0 r.chain in
    let (dx, dy, apart) = IsDistinct-append xs (e ∷ ys) r.distinct.1 in
    let outside = has-append head xs (e ∷ ys) in
    let d =
      list_del-Deleted l e (ground (arith, prev-mem l head xs e front, apart e, outside)) (
        ground (arith, next-mem l e ys head back, has-append (l.next e) ys (head ∷ []), outside)) in
    (
      record {
        chain =
            Chain-without l (list_del e l) e head xs ys head d front back
              (ground (arith, outside), dx)
              (IsDistinct-join ys (head ∷ []) dy.1 (refl, tt) (λ n h. ground (arith, outside)))
              (λ n h. ground (arith, outside, apart n))
              (λ n h. ground (arith, outside, apart n, has-append n ys (head ∷ []))) dy.0
              (ground (arith, outside));
        distinct = (
          ground (arith, outside, has-append head xs ys),
          IsDistinct-join xs ys dx dy.1 (λ n h. ground (arith, apart n)),
        );
      },
      d.next_null,
      d.prev_null,
    )

-- list_pop returns the first node and takes it out, or returns NULL for an empty list.
pub list_pop-nil : (head : ℕ) (l : Links) → IsRing l head [] → list_pop head l ≡ (0, l)
unfolding list_pop
list_pop-nil head l r = ground arith

-- On a well-formed list that has a node, list_pop returns the first node and leaves a well-formed
-- list of the others in order.
pub list_pop-cons :
    (head x : ℕ) (xs : List ℕ) (l : Links)
    → IsRing l head (x ∷ xs)
    → ((list_pop head l).0 ≡ x) × IsRing (list_pop head l).1 head xs
unfolding list_pop
list_pop-cons head x xs l r =
    let full = list_empty-is_empty head (x ∷ xs) l r in
    rw (full, r.chain.0) (refl, (list_del-append head x [] xs l r).0)
