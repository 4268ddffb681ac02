-- ===== src/LinkedList/Move.antt =====
-- list_del of one list and list_add to another in the same memory: how the scheduler moves a process.
use lpc17xx_network.Base.{ℕ, ◌≡◌, ◌≢◌, refl, inl, inr, Bool-cases, arith, true, List, [], ◌∷◌, ◌++◌}
use lpc17xx_network.LinkedList.{
  Links, list_add_between, list_add, list_add_tail, list_del, list_pop,
}
use lpc17xx_network.LinkedList.Ring.{
  has, ◌∉◌, IsDistinct, IsRing, Chain-frame, Chain-append, has-append, prev-mem, next-mem,
  IsDistinct-append,
}
use lpc17xx_network.LinkedList.Walk.{list_empty-is_empty}
use lpc17xx_network.LinkedList.Add.{list_add-cons}
use lpc17xx_network.LinkedList.Del.{list_del-Deleted, list_del-append}

-- Two lists with no node in common, heads included.
abbrev pub AreApart : ℕ → List ℕ → ℕ → List ℕ → Type 0
AreApart a xs b ys = (n : ℕ) → has n (a ∷ xs) ≡ true → n ∉ (b ∷ ys)

-- A list is kept by what leaves its own nodes alone.
pub IsRing-frame :
    (l k : Links) (head : ℕ) (xs : List ℕ)
    → ((n : ℕ) → has n (head ∷ xs) ≡ true → k.next n ≡ l.next n)
    → ((n : ℕ) → has n (head ∷ xs) ≡ true → k.prev n ≡ l.prev n)
    → IsRing l head xs
    → IsRing k head xs
IsRing-frame l k head xs fn fp r = record {
  chain =
      Chain-frame l k head xs head fn (λ n h. fp n (ground (arith, has-append n xs (head ∷ []))))
        r.chain;
  distinct = r.distinct;
}

-- The neighbours of a node are other nodes of its list, or its head.
pub neighbours :
    (a e : ℕ) (xs ys : List ℕ) (l : Links)
    → IsRing l a (xs ++ e ∷ ys)
    → (has e (a ∷ (xs ++ e ∷ ys)) ≡ true)
      × (has (l.prev e) (a ∷ (xs ++ e ∷ ys)) ≡ true)
      × (has (l.next e) (a ∷ (xs ++ e ∷ ys)) ≡ true)
      × (l.prev e ≢ e)
      × (l.next e ≢ e)
neighbours a e xs ys l r =
    let (front, back) = (Chain-append l a xs e ys a).0 r.chain in
    let (dx, dy, apart) = IsDistinct-append xs (e ∷ ys) r.distinct.1 in
    let outside = has-append a xs (e ∷ ys) in
    let before = prev-mem l a xs e front in
    let after = next-mem l e ys a back in
    let behind = has-append (l.next e) ys (a ∷ []) in
    (
      ground (arith, has-append e xs (e ∷ ys)),
      ground (arith, before, has-append (l.prev e) xs (e ∷ ys)),
      ground (arith, after, behind, has-append (l.next e) xs (e ∷ ys)),
      ground (arith, before, apart e, outside),
      ground (arith, after, behind, outside),
    )

-- list_del leaves a list alone that shares no node with the one of its entry.
pub list_del-apart :
    (a e b : ℕ) (xs ys zs : List ℕ) (l : Links)
    → IsRing l a (xs ++ e ∷ ys)
    → IsRing l b zs
    → AreApart a (xs ++ e ∷ ys) b zs
    → IsRing (list_del e l) b zs
list_del-apart a e b xs ys zs l r s apart =
    let (at, before, after, not_prev, not_next) = neighbours a e xs ys l r in
    let d = list_del-Deleted l e not_prev not_next in
    IsRing-frame l (list_del e l) b zs
      (λ n h.
        d.next_same n (other n e h (apart e at)) (other n (l.prev e) h (apart (l.prev e) before)))
      (λ n h.
        d.prev_same n (other n e h (apart e at)) (other n (l.next e) h (apart (l.next e) after)))
      s
  where
    other : (n m : ℕ) → has n (b ∷ zs) ≡ true → m ∉ (b ∷ zs) → n ≢ m
    other n m h out e = cc

-- list_add leaves a list alone that shares no node with the one it adds to, and has not the new one.
pub list_add-apart :
    (new b a : ℕ) (zs xs : List ℕ) (l : Links)
    → IsRing l b zs
    → IsRing l a xs
    → AreApart a xs b zs
    → new ∉ (a ∷ xs)
    → IsRing (list_add new b l) a xs
unfolding list_add list_add_between
list_add-apart new b a zs xs l r s apart out =
    IsRing-frame l _ a xs (λ n h. ground (arith, apart n)) (λ n h. ground (arith, apart n, first)) s
  where
    first : has (l.next b) (b ∷ zs) ≡ true
    first = ground (arith, next-mem l b zs b r.chain, has-append (l.next b) zs (b ∷ []))

pub list_add_tail-apart :
    (new b a : ℕ) (zs xs : List ℕ) (l : Links)
    → IsRing l b zs
    → IsRing l a xs
    → AreApart a xs b zs
    → new ∉ (a ∷ xs)
    → IsRing (list_add_tail new b l) a xs
unfolding list_add_tail list_add_between
list_add_tail-apart new b a zs xs l r s apart out =
    IsRing-frame l _ a xs (λ n h. ground (arith, apart n, last)) (λ n h. ground (arith, apart n)) s
  where
    last : has (l.prev b) (b ∷ zs) ≡ true
    last = prev-mem l b zs b r.chain

-- list_pop is list_del of the first node.
pub list_pop-list_del :
    (head x : ℕ) (xs : List ℕ) (l : Links)
    → IsRing l head (x ∷ xs)
    → list_pop head l ≡ (x, list_del x l)
unfolding list_pop
list_pop-list_del head x xs l r =
    let full = list_empty-is_empty head (x ∷ xs) l r in rw (full, r.chain.0) refl

-- A node of a list of distinct nodes is not among the others.
pub gone :
    (a e : ℕ) (xs ys : List ℕ) → IsDistinct (a ∷ (xs ++ e ∷ ys)) → (e ∉ (a ∷ (xs ++ ys))) × (e ∉ xs)
gone a e xs ys (out, d) =
    let (dx, dy, apart) = IsDistinct-append xs (e ∷ ys) d in
    let before : e ∉ xs = elim (Bool-cases (has e xs)) [
      | inl in_xs ↦ absurd (found in_xs (apart e in_xs))
      | inr free ↦ free
    ] in
    (ground (arith, has-append a xs (e ∷ ys), has-append e xs ys, dy.0), before)
  where
    found : has e xs ≡ true → (e ∉ (e ∷ ys)) → ⊥
    found h n = ground arith

-- A node moved from one list to the head of another.
pub list_add-list_del :
    (a e b : ℕ) (xs ys zs : List ℕ) (l : Links)
    → IsRing l a (xs ++ e ∷ ys)
    → IsRing l b zs
    → AreApart a (xs ++ e ∷ ys) b zs
    → IsRing (list_add e b (list_del e l)) a (xs ++ ys)
      × IsRing (list_add e b (list_del e l)) b (e ∷ zs)
list_add-list_del a e b xs ys zs l r s apart =
    let (at, before, after, not_prev, not_next) = neighbours a e xs ys l r in
    let left = (list_del-append a e xs ys l r).0 in
    let target = list_del-apart a e b xs ys zs l r s apart in
    (
      list_add-apart e b a zs (xs ++ ys) (list_del e l) target left
          (λ n h. apart n (ground (arith, has-append n xs ys, has-append n xs (e ∷ ys))))
          (gone a e xs ys r.distinct).0,
      list_add-cons e b zs (list_del e l) target (apart e at),
    )
