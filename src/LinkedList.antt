-- ===== src/LinkedList.antt =====
-- list.c and list.h: circular doubly linked lists through `next` and `prev` pointers that lie
-- inside the listed structures. A node is its address; 0 is NULL. `list_entry` is the identity
-- here, since a node stands for the structure around it.
pub mod Ring
pub mod Add
pub mod Walk
pub mod SafeWalk
pub mod Del
pub mod Move
pub mod Splice
use lpc17xx_network.Base.{
  ℕ, zero, suc, ◌+◌, Bool, true, false, Option, none, some, List, [], ◌∷◌, ◌==◌, if◌then◌else◌,
}

-- The memory that holds the nodes: what each node's two pointers are.
pub record Links : Type 0 where
  pub next : ℕ → ℕ
  pub prev : ℕ → ℕ

abbrev pub assign : (ℕ → ℕ) → ℕ → ℕ → ℕ → ℕ
assign f p v q = if q == p then v else f q

-- `p->next = v` and `p->prev = v`.
abbrev pub set_next : ℕ → ℕ → Links → Links
set_next p v l = record l { next = assign l.next p v }

abbrev pub set_prev : ℕ → ℕ → Links → Links
set_prev p v l = record l { prev = assign l.prev p v }

-- _list_add: the four writes in the order of the source.
unfoldable pub list_add_between : ℕ → ℕ → ℕ → Links → Links
list_add_between new prev next l =
    set_next prev new (set_next new next (set_prev new prev (set_prev next new l)))

unfoldable pub list_add : ℕ → ℕ → Links → Links
unfolding list_add_between
list_add new head l = list_add_between new head (l.next head) l

unfoldable pub list_add_tail : ℕ → ℕ → Links → Links
unfolding list_add_between
list_add_tail new head l = list_add_between new (l.prev head) head l

-- `entry->prev->next = entry->next` and so on; each right side is read when its turn comes.
unfoldable pub list_del : ℕ → Links → Links
list_del entry l =
    let l1 = set_next (l.prev entry) (l.next entry) l in
    let l2 = set_prev (l1.next entry) (l1.prev entry) l1 in set_prev entry 0 (set_next entry 0 l2)

unfoldable pub list_splice : ℕ → ℕ → Links → Links
list_splice from head l =
    let first = l.next from in
    let end = l.prev from in
    let l1 = set_next head first (set_prev first head l) in
    let l2 = set_next end (l1.next head) l1 in set_prev (l2.next head) end l2

unfoldable pub list_empty : ℕ → Links → Bool
list_empty head l = l.next head == head

-- INIT_LIST.
unfoldable pub init_list : ℕ → Links → Links
init_list ptr l = set_prev ptr ptr (set_next ptr ptr l)

-- list_for_each: the nodes that the loop visits from `pos` on; `none` when the fuel runs out.
unfoldable pub visit : ℕ → ℕ → ℕ → Links → Option (List ℕ)
visit zero pos head l = none
visit (suc n) pos head l =
    let rest = visit n (l.next pos) head l in
    if pos == head then some [] else elim rest [ none ↦ none | some ps ↦ some (pos ∷ ps) ]

unfoldable pub list_for_each : ℕ → ℕ → Links → Option (List ℕ)
unfolding visit
list_for_each fuel head l = visit fuel (l.next head) head l

-- list_pop: the first node, taken out of the list, or NULL.
unfoldable pub list_pop : ℕ → Links → ℕ × Links
unfolding list_empty list_del
list_pop head l = if list_empty head l then (0, l) else (l.next head, list_del (l.next head) l)

-- list_for_each_safe around the statement `body`: the nodes that it visits, and the pointers after
-- it. The next node is read before the statement runs.
unfoldable pub visit_safe : ℕ → ℕ → ℕ → ℕ → (ℕ → Links → Links) → Links → Option (List ℕ × Links)
visit_safe zero pos n head body l = none
visit_safe (suc fuel) pos n head body l =
    let l' = body pos l in
    let rest = visit_safe fuel n (l'.next n) head body l' in
    if pos == head
    then some ([], l)
    else elim rest [ none ↦ none | some (ps, k) ↦ some (pos ∷ ps, k) ]

unfoldable pub list_for_each_safe : ℕ → ℕ → (ℕ → Links → Links) → Links → Option (List ℕ × Links)
unfolding visit_safe
list_for_each_safe fuel head body l =
    visit_safe fuel (l.next head) (l.next (l.next head)) head body l
