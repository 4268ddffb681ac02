-- ===== src/Emac/Ring.antt =====
-- The loop of irq_enet over the ring of receive descriptors.
use lpc17xx_network.Base.{
  ℕ, zero, suc, ◌+◌, ◌%◌, ◌<◌, ◌≤◌, ◌≡◌, refl, sym, ap, ◌∙◌, Bool-cases, inl, inr, arith, List, [],
  ◌∷◌, true, false, Option, none, some, ◌==◌, ==_iff, ==_ne, take,
}
use lpc17xx_network.Base.Run.{Run, ok, fault, halted, ◌>>=◌}
use lpc17xx_network.Emac.{desc_len, frag_len, last_fragment, Fragment, enet_round, irq_enet}

-- A receive descriptor with its status: the memory at `packet`, the controller's `status_info`, and
-- the block that get_mem returns when the fragment is gathered.
pub record RxSlot : Type 0 where
  pub packet : List ℕ
  pub status_info : ℕ
  pub block : List ℕ

unfoldable pub fragment_at : (ℕ → RxSlot) → ℕ → Fragment
unfolding frag_len last_fragment
fragment_at slots desc_idx = record {
  frag = take (frag_len (slots desc_idx).status_info) (slots desc_idx).packet;
  last_flag = last_fragment (slots desc_idx).status_info;
  block = (slots desc_idx).block;
}

-- What the loop leaves: RxConsumeIndex, the frame that is not complete, and the frames injected.
pub record Drained : Type 0 where
  pub consume_index : ℕ
  pub current_frame : Option (List ℕ)
  pub frames : List (List ℕ)

abbrev pub before : Option (List ℕ) → Drained → Drained
before none d = d
before (some frame) d = record d { frames = frame ∷ d.frames }

-- The rest of the loop after a round.
abbrev pub then_rest :
    (Option (List ℕ) → Option (Run Drained))
    → Run (Option (List ℕ) × Option (List ℕ))
    → Option (Run Drained)
then_rest rest fault = some fault
then_rest rest halted = some halted
then_rest rest (ok (current, whole)) = elim (rest current) [
  | none ↦ none
  | some r ↦ some (r >>= λ d. ok (before whole d))
]

-- `while (RxConsumeIndex != RxProduceIndex)` on fuel; none when the fuel runs out. `now` counts the
-- tests: the controller moves `produce` on, and fills slots, between one test and the next.
unfoldable pub enet_loop :
    ℕ → (ℕ → ℕ → RxSlot) → (ℕ → ℕ) → ℕ → ℕ → Option (List ℕ) → Option (Run Drained)
unfolding fragment_at
enet_loop zero slots produce now consume current = none
enet_loop (suc n) slots produce now consume current = elim (consume == produce now) [
  | true ↦ some (ok (record { consume_index = consume; current_frame = current; frames = [] }))
  | false ↦
      then_rest (λ c. enet_loop n slots produce (suc now) ((consume + 1) % desc_len) c)
        (enet_round current (fragment_at (slots now) consume))
]

-- The fragments in `n` slots of the ring, from a place and a test on.
abbrev pub fragments_from : (ℕ → ℕ → RxSlot) → ℕ → ℕ → ℕ → List Fragment
fragments_from slots zero now consume = []
fragments_from slots (suc n) now consume =
    fragment_at (slots now) consume ∷ fragments_from slots n (suc now) ((consume + 1) % desc_len)

-- What the controller does with RxProduceIndex: `arrived t` fragments have come in by the test
-- `t`, at most `total` in all, and it leaves a slot of the ring free. The loop has taken `t`
-- fragments by then.
pub record Fills (consume total : ℕ) (produce arrived : ℕ → ℕ) : Type 0 where
  pub index : (t : ℕ) → produce t ≡ (consume + arrived t) % desc_len
  pub onwards : (t : ℕ) → arrived t ≤ arrived (suc t)
  pub room : (t : ℕ) → arrived t < t + desc_len
  pub bounded : (t : ℕ) → arrived t ≤ total

-- The result of irq_enet over the fragments, with the index where the loop stops.
abbrev pub drained_at : ℕ → Option (List ℕ) × List (List ℕ) → Drained
drained_at produce (left, frames) = record {
  consume_index = produce;
  current_frame = left;
  frames = frames;
}

then_rest-run :
    (produce : ℕ) (r : Run (Option (List ℕ) × Option (List ℕ)))
    (rest : Option (List ℕ) → Option (Run Drained)) (fs : List Fragment)
    → ((c : Option (List ℕ)) → rest c ≡ some (irq_enet c fs >>= λ d. ok (drained_at produce d)))
    → then_rest rest r
      ≡ some (
          (r >>= λ x. irq_enet x.0 fs >>= λ y.
          ok (y.0, elim x.1 as (λ o. List (List ℕ)) [ none ↦ y.1 | some frame ↦ frame ∷ y.1 ]))
          >>= λ d. ok (drained_at produce d))
then_rest-run produce fault rest fs h = refl
then_rest-run produce halted rest fs h = refl
then_rest-run produce (ok (c, whole)) rest fs h = rw (then_rest, h c) (go (irq_enet c fs) whole)
  where
    go :
        (r : Run (Option (List ℕ) × List (List ℕ))) (whole : Option (List ℕ))
        → ◌≡◌ {A = Option (Run Drained)}
            (some ((r >>= λ d. ok (drained_at produce d)) >>= λ d. ok (before whole d)))
            (some (
              (r >>= λ y.
              ok
                (y.0, elim whole as (λ o. List (List ℕ)) [ none ↦ y.1 | some frame ↦ frame ∷ y.1 ]))
              >>= λ d. ok (drained_at produce d)))
    go (ok (left, frames)) none = refl
    go (ok (left, frames)) (some frame) = refl
    go fault whole = refl
    go halted whole = refl

module _ (consume total : ℕ) (produce arrived : ℕ → ℕ)
    (v : Fills consume total produce arrived) where
  -- The first test that finds nothing left.
  stops_at :
      (k now : ℕ)
      → now + k ≡ total
      → now ≤ arrived now
      → (stop : ℕ) × (now ≤ stop)
        × (stop ≤ total)
        × (arrived stop ≡ stop)
        × ((t : ℕ) → now ≤ t → t < stop → t < arrived t)
  stops_at zero now sum came = (
    now,
    omega arith,
    omega (arith, sum),
    omega (arith, sum, came, v.bounded now),
    λ t from below. omega (arith, from, below),
  )
  stops_at (suc k) now sum came = elim (Bool-cases (arrived now == now)) [
    | inl same ↦ (
      now,
      omega arith,
      omega (arith, sum),
      (==_iff (arrived now) now).0 same,
      λ t from below. omega (arith, from, below),
    )
    | inr other ↦
        let some_left : now < arrived now = ground (arith, other, came) in
        let (stop, from, below, all, before) =
          stops_at k (suc now) (omega (arith, sum)) (omega (arith, some_left, v.onwards now)) in
        (
          stop,
          omega (arith, from),
          below,
          all,
          λ t after h. elim (Bool-cases (t == now)) [
            | inl here ↦ rw ((==_iff t now).0 here) some_left
            | inr later ↦ before t (ground (arith, later, after)) h
          ],
        )
  ]

  enet_loop-run :
      (n fuel now at : ℕ) (slots : ℕ → ℕ → RxSlot) (current : Option (List ℕ))
      → at ≡ (consume + now) % desc_len
      → arrived (now + n) ≡ now + n
      → ((t : ℕ) → now ≤ t → t < now + n → t < arrived t)
      → n < fuel
      → enet_loop fuel slots produce now at current
        ≡ some (
            irq_enet current (fragments_from slots n now at) >>= λ r.
            ok (drained_at (produce (now + n)) r))
  unfolding enet_loop irq_enet
  enet_loop-run n zero now at slots current place all before fuel = absurd (omega (arith, fuel))
  enet_loop-run zero (suc f) now at slots current place all before fuel =
      let here : arrived now ≡ now = ap arrived (omega arith) ∙ all ∙ omega arith in
      let e : at ≡ produce now = omega (arith, place, here, v.index now) in
      rw (enet_loop, (==_iff at (produce now)).1 e)
        (ap
          (λ (i : ℕ).
            some (ok (record { consume_index = i; current_frame = current; frames = [] })))
          (e ∙ ap produce (omega arith)))
  enet_loop-run (suc n) (suc f) now at slots current place all before fuel =
      let some_left = before now (omega arith) (omega arith) in
      let other : (at == produce now) ≡ false =
        ==_ne at (produce now) (λ e. omega (arith, e, place, v.index now, v.room now, some_left)) in
      let next = (at + 1) % desc_len in
      let on : suc now + n ≡ now + suc n = omega arith in
      rw (enet_loop, other)
        (then_rest-run (produce (now + suc n)) (enet_round current (fragment_at (slots now) at))
          (λ c. enet_loop f slots produce (suc now) next c) (fragments_from slots n (suc now) next)
          (λ c.
            enet_loop-run n f (suc now) next slots c (omega (arith, place))
              (ap arrived on ∙ all ∙ sym on)
              (λ t from below. before t (omega (arith, from)) (omega (arith, below)))
              (omega (arith, fuel))
            ∙ ap
                (λ (i : ℕ). some (
                  irq_enet c (fragments_from slots n (suc now) next) >>= λ r.
                  ok (drained_at (produce i) r)))
                on))

-- From an index within the ring, while the controller goes on to fill slots, always leaves one
-- free and fills at most `total` of them in all, with RxProduceIndex read again in every test:
-- the loop of irq_enet ends within `total + 1` tests, at the first one that finds every fragment
-- taken, with RxConsumeIndex equal to the RxProduceIndex read there, and does what irq_enet does
-- on the list of the fragments in the slots that it passed, each as it was in its round, also
-- across the end of the ring.
pub enet_loop-irq_enet :
    (slots : ℕ → ℕ → RxSlot) (consume total : ℕ) (produce arrived : ℕ → ℕ)
    (current : Option (List ℕ))
    → consume < desc_len
    → Fills consume total produce arrived
    → (n : ℕ) × (n ≤ total)
      × (arrived n ≡ n)
      × ((t : ℕ) → t < n → t < arrived t)
      × (enet_loop (suc total) slots produce 0 consume current
          ≡ some (
              irq_enet current (fragments_from slots n 0 consume) >>= λ r.
              ok (drained_at (produce n) r)))
enet_loop-irq_enet slots consume total produce arrived current inside v =
    let (n, from, below, all, before) =
      stops_at consume total produce arrived v total 0 (omega arith) (omega arith) in
    let same : 0 + n ≡ n = omega arith in
    (
      n,
      below,
      all,
      λ t h. before t (omega arith) h,
      enet_loop-run consume total produce arrived v n (suc total) 0 consume slots current
            (omega (arith, inside)) (ap arrived same ∙ all ∙ sym same)
            (λ t from h. before t from (omega (arith, h))) (omega (arith, below))
          ∙ ap
              (λ (i : ℕ). some (
                irq_enet current (fragments_from slots n 0 consume) >>= λ r.
                ok (drained_at (produce i) r)))
              same,
    )
