-- ===== src/LinkedList/Ring.antt =====
-- The lists that `Links` hold: a head, and the nodes that follow it.
use lpc17xx_network.Base.{
  ℕ, ◌≡◌, refl, ◌↔◌, ◌≢◌, arith, Bool, true, false, ◌||◌, List, [], ◌∷◌, ◌++◌, ◌==◌,
}
use lpc17xx_network.LinkedList.{Links}

abbrev pub has : ℕ → List ℕ → Bool
has a [] = false
has a (x ∷ xs) = (a == x) || has a xs

infix 40 ◌∉◌
abbrev pub ◌∉◌ : ℕ → List ℕ → Type 0
a ∉ xs = has a xs ≡ false

-- No node occurs twice.
abbrev pub IsDistinct : List ℕ → Type 0
IsDistinct [] = Unit {0}
IsDistinct (x ∷ xs) = (x ∉ xs) × IsDistinct xs

-- From `p` the links lead forth through `xs` to `q`, and back the same way.
abbrev pub Chain : Links → ℕ → List ℕ → ℕ → Type 0
Chain l p [] q = (l.next p ≡ q) × (l.prev q ≡ p)
Chain l p (x ∷ xs) q = (l.next p ≡ x) × (l.prev x ≡ p) × Chain l x xs q

-- `xs` are the nodes of the list at `head`, in order.
pub record IsRing (l : Links) (head : ℕ) (xs : List ℕ) : Type 0 where
  pub chain : Chain l head xs head
  pub distinct : IsDistinct (head ∷ xs)

-- A chain is kept where the `next` of `p ∷ xs` and the `prev` of `xs` and `q` are.
pub Chain-frame :
    (l k : Links) (p : ℕ) (xs : List ℕ) (q : ℕ)
    → ((a : ℕ) → has a (p ∷ xs) ≡ true → k.next a ≡ l.next a)
    → ((a : ℕ) → has a (xs ++ q ∷ []) ≡ true → k.prev a ≡ l.prev a)
    → Chain l p xs q
    → Chain k p xs q
Chain-frame l k p [] q fn fp (a, b) = (ground (arith, fn p), ground (arith, fp q))
Chain-frame l k p (x ∷ xs) q fn fp (a, b, c) = (
  ground (arith, fn p),
  ground (arith, fp x),
  Chain-frame l k x xs q (λ n h. ground (arith, fn n)) (λ n h. ground (arith, fp n)) c,
)

pub Chain-append :
    (l : Links) (p : ℕ) (xs : List ℕ) (e : ℕ) (ys : List ℕ) (q : ℕ)
    → Chain l p (xs ++ e ∷ ys) q ↔ (Chain l p xs e × Chain l e ys q)
Chain-append l p [] e ys q = (λ (a, b, c). ((a, b), c), λ ((a, b), c). (a, b, c))
Chain-append l p (x ∷ xs) e ys q = (
  λ (a, b, c). let (d, f) = (Chain-append l x xs e ys q).0 c in ((a, b, d), f),
  λ ((a, b, c), d). (a, b, (Chain-append l x xs e ys q).1 (c, d)),
)

pub has-append : (a : ℕ) (xs ys : List ℕ) → has a (xs ++ ys) ≡ (has a xs || has a ys)
has-append a [] ys = refl
has-append a (x ∷ xs) ys = ground (arith, has-append a xs ys)

-- The node before the end of a chain is its start or one of its nodes.
pub prev-mem :
    (l : Links) (p : ℕ) (xs : List ℕ) (q : ℕ) → Chain l p xs q → has (l.prev q) (p ∷ xs) ≡ true
prev-mem l p [] q (a, b) = ground arith
prev-mem l p (x ∷ xs) q (a, b, c) = ground (arith, prev-mem l x xs q c)

-- The node after the start of a chain is one of its nodes or its end.
pub next-mem :
    (l : Links) (p : ℕ) (xs : List ℕ) (q : ℕ)
    → Chain l p xs q
    → has (l.next p) (xs ++ q ∷ []) ≡ true
next-mem l p [] q c = ground arith
next-mem l p (x ∷ xs) q c = ground arith

-- A chain that ended at `e` ends at `b` when its last node is linked to `b` instead.
pub Chain-retarget :
    (l k : Links) (p : ℕ) (xs : List ℕ) (e b : ℕ)
    → Chain l p xs e
    → IsDistinct (p ∷ xs)
    → k.next (l.prev e) ≡ b
    → k.prev b ≡ l.prev e
    → ((n : ℕ) → has n (p ∷ xs) ≡ true → n ≢ l.prev e → k.next n ≡ l.next n)
    → ((n : ℕ) → has n xs ≡ true → k.prev n ≡ l.prev n)
    → Chain k p xs b
Chain-retarget l k p [] e b (c, d) dist to from fn fp = (ground arith, ground arith)
Chain-retarget l k p (x ∷ xs) e b (c, d, f) (out, dist) to from fn fp = (
  ground (arith, fn p, prev-mem l x xs e f),
  ground (arith, fp x),
  Chain-retarget l k x xs e b f dist to from (λ n h. ground (arith, fn n))
      (λ n h. ground (arith, fp n)),
)

-- Distinct nodes stay so in two parts, and when one between them is left out.
pub IsDistinct-append :
    (xs ys : List ℕ)
    → IsDistinct (xs ++ ys)
    → IsDistinct xs × IsDistinct ys × ((n : ℕ) → has n xs ≡ true → n ∉ ys)
IsDistinct-append [] ys d = (tt, d, λ n h. cc)
IsDistinct-append (x ∷ xs) ys (out, d) =
    let (dx, dy, apart) = IsDistinct-append xs ys d in
    (
      (ground (arith, has-append x xs ys), dx),
      dy,
      λ n h. ground (arith, has-append x xs ys, apart n),
    )

pub IsDistinct-join :
    (xs ys : List ℕ)
    → IsDistinct xs
    → IsDistinct ys
    → ((n : ℕ) → has n xs ≡ true → n ∉ ys)
    → IsDistinct (xs ++ ys)
IsDistinct-join [] ys dx dy apart = dy
IsDistinct-join (x ∷ xs) ys (out, dx) dy apart = (
  ground (arith, has-append x xs ys, apart x),
  IsDistinct-join xs ys dx dy (λ n h. ground (arith, apart n)),
)
