-- ===== src/Tcp/Walk.antt =====
-- The loop of tcp_tick over the list of connections in memory.
use lpc17xx_network.Base.{
  ℕ, suc, ◌<◌, ◌≡◌, refl, ap, ◌∙◌, arith, List, [], ◌∷◌, map, length, Bool, true, false, ◌==◌,
  ==_refl, Option, none, some, inl, inr,
}
use lpc17xx_network.LinkedList.{Links, list_for_each_safe}
use lpc17xx_network.LinkedList.Ring.{has, IsDistinct, IsRing}
use lpc17xx_network.LinkedList.SafeWalk.{del_if, without, list_for_each_safe-without}
use lpc17xx_network.Tcp.{Tcb}
use lpc17xx_network.Tcp.Tick.{tick_tcb, tcp_tick}
use lpc17xx_network.Wait.Connect.{at_address}
use lpc17xx_network.Wait.Connect.Keeps.{
  tick_tcb-cases, tcp_tick-none, tcp_tick-some, at_address-hit, at_address-miss,
}

-- The addresses of connections.
abbrev pub addresses : List Tcb → List ℕ
addresses ts = map (λ (t : Tcb). t.self) ts

abbrev is_freed : Option Tcb → Bool
is_freed none = false
is_freed (some t) = elim (tick_tcb t) [ none ↦ true | some t' ↦ false ]

-- The tick frees the connection at an address.
unfoldable pub expires : List Tcb → ℕ → Bool
expires ts a = is_freed (at_address a ts)

-- What the body of the loop does to the pointers.
unfoldable pub tick_links : List Tcb → ℕ → Links → Links
unfolding expires
tick_links ts = del_if (expires ts)

without-same :
    (f g : ℕ → Bool) (xs : List ℕ)
    → ((a : ℕ) → has a xs ≡ true → f a ≡ g a)
    → without f xs ≡ without g xs
without-same f g [] same = refl
without-same f g (x ∷ xs) same =
    let head : f x ≡ g x = same x (ground arith) in
    let rest = without-same f g xs (λ a m. same a (ground arith)) in rw (head, rest) refl

-- A connection at another address does not matter.
expires-cons :
    (t : Tcb) (ts : List Tcb) (a : ℕ)
    → has t.self (addresses ts) ≡ false
    → has a (addresses ts) ≡ true
    → expires (t ∷ ts) a ≡ expires ts a
unfolding expires
expires-cons t ts a out m =
    let other : (t.self == a) ≡ false = ground arith in ap is_freed (at_address-miss a t ts other)

without-tcp_tick :
    (ts : List Tcb)
    → IsDistinct (addresses ts)
    → without (expires ts) (addresses ts) ≡ addresses (tcp_tick ts)
unfolding expires tcp_tick
without-tcp_tick [] d = refl
without-tcp_tick (t ∷ ts) (out, d) =
    let rest =
      without-same (expires (t ∷ ts)) (expires ts) (addresses ts) (λ a m. expires-cons t ts a out m)
      ∙ without-tcp_tick ts d in
    let here : expires (t ∷ ts) t.self ≡ is_freed (some t) =
      ap is_freed (at_address-hit t.self t ts (==_refl t.self)) in
    elim (tick_tcb-cases t) [
      | inl (gone, e) ↦
          let on : expires (t ∷ ts) t.self ≡ true = here ∙ rw (is_freed, gone) refl in
          rw (tcp_tick-none t ts gone, on) rest
      | inr (t', kept, self, st) ↦
          let off : expires (t ∷ ts) t.self ≡ false = here ∙ rw (is_freed, kept) refl in
          rw (tcp_tick-some t t' ts kept, off, rest, self) refl
    ]

-- When the memory holds the list of connections as a well-formed list of their addresses, the
-- list_for_each_safe loop of tcp_tick, with the list_del of each connection whose last tick in
-- TIME_WAIT this is, visits every connection once and in order, ends with any fuel above their
-- number, and leaves a well-formed list of the connections that tcp_tick leaves, in order.
pub list_for_each_safe-tcp_tick :
    (fuel tcb_head : ℕ) (ts : List Tcb) (l : Links)
    → IsRing l tcb_head (addresses ts)
    → length ts < fuel
    → (l' : Links) × (list_for_each_safe fuel tcb_head (tick_links ts) l ≡ some (addresses ts, l'))
      × IsRing l' tcb_head (addresses (tcp_tick ts))
unfolding tick_links
list_for_each_safe-tcp_tick fuel tcb_head ts l v enough =
    let (l', run, left) =
      list_for_each_safe-without fuel tcb_head (expires ts) (addresses ts) l v
        (omega (arith, length_addresses ts, enough)) in
    (l', run, rw (without-tcp_tick ts v.distinct.1) at left)
  where
    length_addresses : (us : List Tcb) → length (addresses us) ≡ length us
    length_addresses [] = refl
    length_addresses (u ∷ us) = ap (λ n. suc n) (length_addresses us)
