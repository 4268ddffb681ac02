-- ===== src/Process/Links.antt =====
-- The queues of process.c in memory: what its list_add and list_del do to the pointers.
pub mod Switch
pub mod Race
pub mod Ends
pub mod Sound
pub mod Turns
pub mod Steps
pub mod Tracked
pub mod Fair
use lpc17xx_network.Base.{
  ℕ, ◌≡◌, ◌≢◌, refl, arith, ◌∙◌, ap, Bool, true, false, ◌||◌, ◌==◌, ==_refl, List, [], ◌∷◌, ◌++◌,
  inl, inr, Bool-cases,
}
use lpc17xx_network.LinkedList.{Links, list_add, list_del}
use lpc17xx_network.LinkedList.Ring.{has, ◌∉◌, IsDistinct, IsRing, has-append}
use lpc17xx_network.LinkedList.Add.{list_add-cons}
use lpc17xx_network.LinkedList.Move.{
  AreApart, list_del-apart, list_add-apart, list_add-list_del, neighbours, gone,
}
use lpc17xx_network.Process.{Sched, unlink, process_wakeup, process_wait, process_finish}
use lpc17xx_network.Process.Queues.{unlink-absent}

-- The addresses of the three list heads.
pub record Heads : Type 0 where
  pub runqueue : ℕ
  pub waitqueue : ℕ
  pub deadqueue : ℕ

-- The pointer writes of process_wakeup, process_wait and process_finish.
unfoldable pub wakeup_links : Heads → ℕ → Links → Links
wakeup_links h proc l = list_add proc h.runqueue (list_del proc l)

unfoldable pub wait_links : Heads → ℕ → Links → Links
wait_links h current l = list_add current h.waitqueue l

unfoldable pub finish_links : Heads → ℕ → Links → Links
finish_links h current l = list_add current h.deadqueue l

-- The memory holds the three queues, and no node is in two of them.
pub record Holds (h : Heads) (l : Links) (s : Sched) : Type 0 where
  pub run : IsRing l h.runqueue s.runqueue
  pub wait : IsRing l h.waitqueue s.waitqueue
  pub dead : IsRing l h.deadqueue s.deadqueue
  pub run_wait : AreApart h.runqueue s.runqueue h.waitqueue s.waitqueue
  pub run_dead : AreApart h.runqueue s.runqueue h.deadqueue s.deadqueue
  pub wait_dead : AreApart h.waitqueue s.waitqueue h.deadqueue s.deadqueue

-- A process that is in no queue, and no queue's head.
pub record IsFree (h : Heads) (s : Sched) (p : ℕ) : Type 0 where
  pub not_run : p ∉ (h.runqueue ∷ s.runqueue)
  pub not_wait : p ∉ (h.waitqueue ∷ s.waitqueue)
  pub not_dead : p ∉ (h.deadqueue ∷ s.deadqueue)

pub AreApart-sym : (a b : ℕ) (xs ys : List ℕ) → AreApart a xs b ys → AreApart b ys a xs
AreApart-sym a b xs ys apart n m = elim (Bool-cases (has n (a ∷ xs))) [
  | inl found ↦ absurd (both m (apart n found))
  | inr free ↦ free
]
  where
    both : {x : Bool} → x ≡ true → x ≢ false
    both e f = cc

pub AreApart-cons :
    (a b p : ℕ) (xs ys : List ℕ) → AreApart a xs b ys → p ∉ (b ∷ ys) → AreApart a (p ∷ xs) b ys
AreApart-cons a b p xs ys apart out n m = ground (arith, apart n)

pub process_wait-Holds :
    (h : Heads) (l : Links) (s : Sched) (current : ℕ)
    → Holds h l s
    → IsFree h s current
    → Holds h (wait_links h current l) (process_wait current s)
unfolding process_wait wait_links
process_wait-Holds h l s current v f =
    let wait_run = AreApart-sym h.runqueue h.waitqueue s.runqueue s.waitqueue v.run_wait in
    let dead_wait = AreApart-sym h.waitqueue h.deadqueue s.waitqueue s.deadqueue v.wait_dead in
    let new_run =
      AreApart-cons h.waitqueue h.runqueue current s.waitqueue s.runqueue wait_run f.not_run in
    record {
      run =
          list_add-apart current h.waitqueue h.runqueue s.waitqueue s.runqueue l v.wait v.run
            v.run_wait f.not_run;
      wait = list_add-cons current h.waitqueue s.waitqueue l v.wait f.not_wait;
      dead =
          list_add-apart current h.waitqueue h.deadqueue s.waitqueue s.deadqueue l v.wait v.dead
            dead_wait f.not_dead;
      run_wait = AreApart-sym h.waitqueue h.runqueue (current ∷ s.waitqueue) s.runqueue new_run;
      run_dead = v.run_dead;
      wait_dead =
          AreApart-cons h.waitqueue h.deadqueue current s.waitqueue s.deadqueue v.wait_dead
            f.not_dead;
    }

pub process_finish-Holds :
    (h : Heads) (l : Links) (s : Sched) (current : ℕ)
    → Holds h l s
    → IsFree h s current
    → Holds h (finish_links h current l) (process_finish current s)
unfolding process_finish finish_links
process_finish-Holds h l s current v f =
    let dead_run = AreApart-sym h.runqueue h.deadqueue s.runqueue s.deadqueue v.run_dead in
    let dead_wait = AreApart-sym h.waitqueue h.deadqueue s.waitqueue s.deadqueue v.wait_dead in
    let new_run =
      AreApart-cons h.deadqueue h.runqueue current s.deadqueue s.runqueue dead_run f.not_run in
    let new_wait =
      AreApart-cons h.deadqueue h.waitqueue current s.deadqueue s.waitqueue dead_wait f.not_wait in
    record {
      run =
          list_add-apart current h.deadqueue h.runqueue s.deadqueue s.runqueue l v.dead v.run
            v.run_dead f.not_run;
      wait =
          list_add-apart current h.deadqueue h.waitqueue s.deadqueue s.waitqueue l v.dead v.wait
            v.wait_dead f.not_wait;
      dead = list_add-cons current h.deadqueue s.deadqueue l v.dead f.not_dead;
      run_wait = v.run_wait;
      run_dead = AreApart-sym h.deadqueue h.runqueue (current ∷ s.deadqueue) s.runqueue new_run;
      wait_dead = AreApart-sym h.deadqueue h.waitqueue (current ∷ s.deadqueue) s.waitqueue new_wait;
    }

unlink-append : (p : ℕ) (xs ys : List ℕ) → p ∉ xs → unlink p (xs ++ p ∷ ys) ≡ xs ++ ys
unfolding unlink
unlink-append p [] ys out = rw (==_refl p) refl
unlink-append p (x ∷ xs) ys out = ground (arith, unlink-append p xs ys)

-- A list keeps its distance when a node is left out of it.
AreApart-without :
    (a b e : ℕ) (xs ys zs : List ℕ) → AreApart b zs a (xs ++ e ∷ ys) → AreApart b zs a (xs ++ ys)
AreApart-without a b e xs ys zs apart n m =
    ground (arith, apart n, has-append n xs ys, has-append n xs (e ∷ ys))

absent : (h p : ℕ) (qs : List ℕ) → p ∉ (h ∷ qs) → unlink p qs ≡ qs
absent h p qs out = unlink-absent p qs (ground arith)

-- What process_wakeup leaves of the three queues.
woken-Holds :
    (h : Heads) (l : Links) (s t : Sched) (proc : ℕ) (xs ys : List ℕ)
    → Holds h l s
    → s.waitqueue ≡ xs ++ proc ∷ ys
    → t.runqueue ≡ proc ∷ s.runqueue
    → t.waitqueue ≡ xs ++ ys
    → t.deadqueue ≡ s.deadqueue
    → Holds h (wakeup_links h proc l) t
unfolding wakeup_links
woken-Holds h l s t proc xs ys v e run_is wait_is dead_is =
    let wait : IsRing l h.waitqueue (xs ++ proc ∷ ys) = rw e at v.wait in
    let run_wait : AreApart h.runqueue s.runqueue h.waitqueue (xs ++ proc ∷ ys) =
      rw e at v.run_wait in
    let wait_dead : AreApart h.waitqueue (xs ++ proc ∷ ys) h.deadqueue s.deadqueue =
      rw e at v.wait_dead in
    let wait_run = AreApart-sym h.runqueue h.waitqueue s.runqueue (xs ++ proc ∷ ys) run_wait in
    let dead_wait = AreApart-sym h.waitqueue h.deadqueue (xs ++ proc ∷ ys) s.deadqueue wait_dead in
    let at = (neighbours h.waitqueue proc xs ys l wait).0 in
    let dead =
      list_del-apart h.waitqueue proc h.deadqueue xs ys s.deadqueue l wait v.dead wait_dead in
    let run = list_del-apart h.waitqueue proc h.runqueue xs ys s.runqueue l wait v.run wait_run in
    let moved =
      list_add-list_del h.waitqueue proc h.runqueue xs ys s.runqueue l wait v.run wait_run in
    let out_of_run = wait_run proc at in
    let out_of_dead = wait_dead proc at in
    let dead_run = AreApart-sym h.runqueue h.deadqueue s.runqueue s.deadqueue v.run_dead in
    let left = (gone h.waitqueue proc xs ys wait.distinct).0 in
    let run_left = AreApart-without h.waitqueue h.runqueue proc xs ys s.runqueue run_wait in
    let dead_left = AreApart-without h.waitqueue h.deadqueue proc xs ys s.deadqueue dead_wait in
    record {
      run = rw run_is moved.1;
      wait = rw wait_is moved.0;
      dead = rw dead_is (
          list_add-apart proc h.runqueue h.deadqueue s.runqueue s.deadqueue (list_del proc l) run
            dead dead_run out_of_dead);
      run_wait =
          rw (run_is, wait_is)
            (AreApart-cons h.runqueue h.waitqueue proc s.runqueue (xs ++ ys) run_left left);
      run_dead =
          rw (run_is, dead_is)
            (AreApart-cons h.runqueue h.deadqueue proc s.runqueue s.deadqueue v.run_dead
              out_of_dead);
      wait_dead =
          rw (wait_is, dead_is)
            (AreApart-sym h.deadqueue h.waitqueue s.deadqueue (xs ++ ys) dead_left);
    }

-- When the memory holds the run queue, the wait queue and the dead queue as well-formed lists
-- with no node in common, and a process is in the wait queue, the list_del and list_add of
-- process_wakeup leave a memory that holds the queues that process_wakeup describes, again with
-- no node in common.
pub process_wakeup-Holds :
    (h : Heads) (l : Links) (s : Sched) (proc : ℕ) (xs ys : List ℕ)
    → Holds h l s
    → s.waitqueue ≡ xs ++ proc ∷ ys
    → Holds h (wakeup_links h proc l) (process_wakeup proc s)
unfolding process_wakeup
process_wakeup-Holds h l s proc xs ys v e =
    let wait : IsRing l h.waitqueue (xs ++ proc ∷ ys) = rw e at v.wait in
    let at = (neighbours h.waitqueue proc xs ys l wait).0 in
    let wait_dead : AreApart h.waitqueue (xs ++ proc ∷ ys) h.deadqueue s.deadqueue =
      rw e at v.wait_dead in
    let run_wait : AreApart h.runqueue s.runqueue h.waitqueue (xs ++ proc ∷ ys) =
      rw e at v.run_wait in
    let wait_run = AreApart-sym h.runqueue h.waitqueue s.runqueue (xs ++ proc ∷ ys) run_wait in
    woken-Holds h l s (process_wakeup proc s) proc xs ys v e
      (ap (λ q. proc ∷ q) (absent h.runqueue proc s.runqueue (wait_run proc at)))
      (ap (unlink proc) e ∙ unlink-append proc xs ys (gone h.waitqueue proc xs ys wait.distinct).1)
      (absent h.deadqueue proc s.deadqueue (wait_dead proc at))
