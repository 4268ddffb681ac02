-- ===== src/Process/Links/Ends.antt =====
-- process_spawn and the idle task: the pointers where a process comes into the queues and leaves.
use lpc17xx_network.Base.{ℕ, ◌≡◌, refl, ap, List, [], ◌∷◌, arith}
use lpc17xx_network.LinkedList.{Links, list_add, list_pop}
use lpc17xx_network.LinkedList.Ring.{IsRing}
use lpc17xx_network.LinkedList.Add.{list_add-cons}
use lpc17xx_network.LinkedList.Del.{list_del-append, list_pop-nil}
use lpc17xx_network.LinkedList.Move.{AreApart, list_add-apart, list_del-apart, list_pop-list_del}
use lpc17xx_network.Process.{Sched, process_spawn, idle_round}
use lpc17xx_network.Process.Links.{Heads, Holds, IsFree, AreApart-sym, AreApart-cons}
use lpc17xx_network.Process.Links.Switch.{first_or_null}

unfoldable pub spawn_links : Heads → ℕ → Links → Links
spawn_links h newproc l = list_add newproc h.runqueue l

-- The list_pop of the idle task: the process that it gives back, NULL for none, and the pointers.
unfoldable pub idle_links : Heads → Links → ℕ × Links
idle_links h l = list_pop h.deadqueue l

pub process_spawn-Holds :
    (h : Heads) (l : Links) (s : Sched) (newproc stack : ℕ)
    → Holds h l s
    → IsFree h s newproc
    → Holds h (spawn_links h newproc l) (process_spawn newproc stack s)
unfolding process_spawn spawn_links
process_spawn-Holds h l s newproc stack v f =
    let wait_run = AreApart-sym h.runqueue h.waitqueue s.runqueue s.waitqueue v.run_wait in
    let dead_run = AreApart-sym h.runqueue h.deadqueue s.runqueue s.deadqueue v.run_dead in
    record {
      run = list_add-cons newproc h.runqueue s.runqueue l v.run f.not_run;
      wait =
          list_add-apart newproc h.runqueue h.waitqueue s.runqueue s.waitqueue l v.run v.wait
            wait_run f.not_wait;
      dead =
          list_add-apart newproc h.runqueue h.deadqueue s.runqueue s.deadqueue l v.run v.dead
            dead_run f.not_dead;
      run_wait =
          AreApart-cons h.runqueue h.waitqueue newproc s.runqueue s.waitqueue v.run_wait f.not_wait;
      run_dead =
          AreApart-cons h.runqueue h.deadqueue newproc s.runqueue s.deadqueue v.run_dead f.not_dead;
      wait_dead = v.wait_dead;
    }

-- What the idle task leaves of the dead queue.
abbrev pub rest_of : List ℕ → List ℕ
rest_of [] = []
rest_of (p ∷ ps) = ps

pub idle_round-rest : (s : Sched) → (idle_round s).1 ≡ record s { deadqueue = rest_of s.deadqueue }
unfolding idle_round
idle_round-rest s = go s.deadqueue refl
  where
    go :
        (qs : List ℕ)
        → s.deadqueue ≡ qs
        → (idle_round s).1 ≡ record s { deadqueue = rest_of s.deadqueue }
    go [] e = rw (idle_round, e) (ap (λ q. record s { deadqueue = q }) e)
    go (p ∷ ps) e = rw (idle_round, e) refl

list_pop-rest :
    (head : ℕ) (qs : List ℕ) (l : Links)
    → IsRing l head qs
    → IsRing (list_pop head l).1 head (rest_of qs) × ((list_pop head l).0 ≡ first_or_null qs)
list_pop-rest head [] l v = rw (list_pop-nil head l v) (v, refl)
list_pop-rest head (p ∷ ps) l v =
    rw (list_pop-list_del head p ps l v) ((list_del-append head p [] ps l v).0, refl)

list_pop-apart :
    (a b : ℕ) (qs zs : List ℕ) (l : Links)
    → IsRing l a qs
    → IsRing l b zs
    → AreApart a qs b zs
    → IsRing (list_pop a l).1 b zs
list_pop-apart a b [] zs l v w apart = rw (list_pop-nil a l v) w
list_pop-apart a b (p ∷ ps) zs l v w apart =
    rw (list_pop-list_del a p ps l v) (list_del-apart a p b [] ps zs l v w apart)

AreApart-rest : (a b : ℕ) (qs zs : List ℕ) → AreApart b zs a qs → AreApart b zs a (rest_of qs)
AreApart-rest a b [] zs apart n m = apart n m
AreApart-rest a b (p ∷ ps) zs apart n m = ground (arith, apart n)

-- The process that is given back is the head of the dead queue.
pub idle_round-Holds :
    (h : Heads) (l : Links) (s : Sched)
    → Holds h l s
    → Holds h (idle_links h l).1 (idle_round s).1 × ((idle_links h l).0 ≡ first_or_null s.deadqueue)
unfolding idle_links
idle_round-Holds h l s v =
    let (dead, first) = list_pop-rest h.deadqueue s.deadqueue l v.dead in
    let dead_run = AreApart-sym h.runqueue h.deadqueue s.runqueue s.deadqueue v.run_dead in
    let dead_wait = AreApart-sym h.waitqueue h.deadqueue s.waitqueue s.deadqueue v.wait_dead in
    rw (idle_round-rest s) (
      record {
        run = list_pop-apart h.deadqueue h.runqueue s.deadqueue s.runqueue l v.dead v.run dead_run;
        wait =
            list_pop-apart h.deadqueue h.waitqueue s.deadqueue s.waitqueue l v.dead v.wait
              dead_wait;
        dead = dead;
        run_wait = v.run_wait;
        run_dead = AreApart-rest h.deadqueue h.runqueue s.deadqueue s.runqueue v.run_dead;
        wait_dead = AreApart-rest h.deadqueue h.waitqueue s.deadqueue s.waitqueue v.wait_dead;
      },
      first,
    )
