-- ===== src/LinkedList/SafeWalk.antt =====
-- list_for_each_safe around a list_del of some of the nodes.
use lpc17xx_network.Base.{
  ℕ, zero, suc, ◌<◌, ◌≡◌, refl, sym, subst, ap, ◌∙◌, arith, some, List, [], ◌∷◌, ◌++◌, length, Bool,
  false, if◌then◌else◌, ◌==◌, ==_refl, append_assoc, Bool-cases, inl, inr,
}
use lpc17xx_network.LinkedList.{Links, list_del, visit_safe, list_for_each_safe}
use lpc17xx_network.LinkedList.Ring.{Chain, Chain-append, IsRing, has-append}
use lpc17xx_network.LinkedList.Del.{list_del-append}

-- The statement `if (...) list_del(pos)`.
abbrev pub del_if : (ℕ → Bool) → ℕ → Links → Links
del_if drop pos l = if drop pos then list_del pos l else l

abbrev pub without : (ℕ → Bool) → List ℕ → List ℕ
without drop [] = []
without drop (x ∷ xs) = let rest = without drop xs in if drop x then rest else x ∷ rest

-- The first node, or the head that follows the last one.
abbrev first_or : List ℕ → ℕ → ℕ
first_or [] head = head
first_or (x ∷ xs) head = x

next_first : (l : Links) (p : ℕ) (xs : List ℕ) (q : ℕ) → Chain l p xs q → l.next p ≡ first_or xs q
next_first l p [] q (a, b) = a
next_first l p (x ∷ xs) q (a, b, c) = a

-- What is left of a list, of which `ks` are behind the walk.
abbrev IsLeft : ℕ → (ℕ → Bool) → ℕ → ℕ → ℕ → List ℕ → List ℕ → Links → Type 0
IsLeft fuel drop pos n head ks xs l =
    (l' : Links) × (visit_safe fuel pos n head (del_if drop) l ≡ some (xs, l'))
    × IsRing l' head (ks ++ without drop xs)

visit_safe-end :
    (fuel n head : ℕ) (body : ℕ → Links → Links) (l : Links)
    → visit_safe (suc fuel) head n head body l ≡ some ([], l)
unfolding visit_safe
visit_safe-end fuel n head body l = rw (visit_safe, ==_refl head) refl

visit_safe-next :
    (fuel pos n head : ℕ) (body : ℕ → Links → Links) (l k : Links) (ps : List ℕ)
    → (pos == head) ≡ false
    → visit_safe fuel n ((body pos l).next n) head body (body pos l) ≡ some (ps, k)
    → visit_safe (suc fuel) pos n head body l ≡ some (pos ∷ ps, k)
unfolding visit_safe
visit_safe-next fuel pos n head body l k ps off e = rw (visit_safe, off, e) refl

other_node :
    (head x : ℕ) (ks xs : List ℕ) (l : Links) → IsRing l head (ks ++ x ∷ xs) → (x == head) ≡ false
other_node head x ks xs l v = let out = v.distinct.0 in ground (arith, has-append head ks (x ∷ xs))

visit_safe-IsLeft :
    (fuel pos n head : ℕ) (drop : ℕ → Bool) (ks xs : List ℕ) (l : Links)
    → IsRing l head (ks ++ xs)
    → pos ≡ first_or xs head
    → n ≡ l.next pos
    → length xs < fuel
    → IsLeft fuel drop pos n head ks xs l
visit_safe-IsLeft zero pos n head drop ks xs l v p q m = absurd (omega (arith, m))
visit_safe-IsLeft (suc fuel) pos n head drop ks [] l v p q m =
    rw p (l, visit_safe-end fuel n head (del_if drop) l, v)
visit_safe-IsLeft (suc fuel) pos n head drop ks (x ∷ xs) l v p q m =
    let off = other_node head x ks xs l v in
    let is_next : n ≡ first_or xs head =
      q ∙ ap l.next p ∙ next_first l x xs head ((Chain-append l head ks x xs head).0 v.chain).1 in
    rw p (elim (Bool-cases (drop x)) [
      | inl e ↦
          let (l', run, left) =
            visit_safe-IsLeft fuel n ((list_del x l).next n) head drop ks xs (list_del x l)
              (list_del-append head x ks xs l v).0 is_next refl (omega (arith, m)) in
          (l', visit_safe-next fuel x n head (del_if drop) l l' xs off (rw e run), rw e left)
      | inr e ↦
          let (l', run, left) =
            visit_safe-IsLeft fuel n (l.next n) head drop (ks ++ x ∷ []) xs l
              (subst (IsRing l head) (sym (append_assoc ks (x ∷ []) xs)) v) is_next refl
              (omega (arith, m)) in
          (
            l',
            visit_safe-next fuel x n head (del_if drop) l l' xs off (rw e run),
            rw e (subst (IsRing l' head) (append_assoc ks (x ∷ []) (without drop xs)) left),
          )
    ])

-- On.
pub list_for_each_safe-without :
    (fuel head : ℕ) (drop : ℕ → Bool) (xs : List ℕ) (l : Links)
    → IsRing l head xs
    → length xs < fuel
    → (l' : Links) × (list_for_each_safe fuel head (del_if drop) l ≡ some (xs, l'))
      × IsRing l' head (without drop xs)
unfolding list_for_each_safe
list_for_each_safe-without fuel head drop xs l v m =
    visit_safe-IsLeft fuel (l.next head) (l.next (l.next head)) head drop [] xs l v
      (next_first l head xs head v.chain) refl m
