-- ===== src/Tcp/Calls/Stream.antt =====
-- tcp_rx_data as a whole, over what happens to the connection while it waits.
use lpc17xx_network.Base.{
  ℕ, zero, suc, ◌-◌, ◌^◌, ◌<◌, ◌≤◌, ◌≡◌, ◌≢◌, refl, sym, ◌∙◌, ap, arith, List, [], ◌++◌, false,
  none, some, length, ◌==◌, if◌then◌else◌, append_assoc, length-append, ==_ne,
}
use lpc17xx_network.Cbuf.Inv.{IsValid, bytes}
use lpc17xx_network.Tcp.{Tcb}
use lpc17xx_network.Tcp.Calls.{is_close_wait, tcp_rx_data_round}
use lpc17xx_network.Tcp.Calls.Data.{tcp_rx_data_round-append}

-- The result: -1, 0 with the bytes, or a loop that is not over within the fuel.
pub data RxData : Type 0 where
  failed : RxData
  received : List ℕ → Tcb → RxData
  running_on : RxData

abbrev received_more : List ℕ → RxData → RxData
received_more dst (received rest t) = received (dst ++ rest) t
received_more dst r = r

-- `waits n` is what happens to the connection before the round with the fuel `n` left goes on: during
-- its wait, or by a segment that comes in without one.
unfoldable pub tcp_rx_data : ℕ → (ℕ → Tcb → Tcb) → Tcb → ℕ → RxData
tcp_rx_data zero waits connection len = if len == 0 then received [] connection else running_on
tcp_rx_data (suc n) waits connection len =
    if len == 0 then received [] connection else elim (tcp_rx_data_round (waits n connection) len) [
      | none ↦ failed
      | some (dst, left, t) ↦ received_more dst (tcp_rx_data n waits t left)
    ]

-- The bytes that arrive during the waits, from the one with the fuel `n`.
abbrev pub arrivals : (ℕ → List ℕ) → ℕ → List ℕ
arrivals arriving zero = []
arrivals arriving (suc n) = arriving n ++ arrivals arriving n

-- A wait that ends by data, after which the bytes `new` stand behind what the buffer held.
pub record Brings (new : List ℕ) (t u : Tcb) : Type 0 where
  pub valid : IsValid u.rx_buf
  pub alive : is_close_wait u.state ≡ false
  pub ready : length (bytes u.rx_buf) ≢ 0
  pub behind : bytes u.rx_buf ≡ bytes t.rx_buf ++ new

tcp_rx_data-done :
    (n : ℕ) (waits : ℕ → Tcb → Tcb) (t : Tcb) → tcp_rx_data n waits t 0 ≡ received [] t
unfolding tcp_rx_data
tcp_rx_data-done zero waits t = refl
tcp_rx_data-done (suc n) waits t = refl

tcp_rx_data-more :
    (n len left : ℕ) (waits : ℕ → Tcb → Tcb) (t u v : Tcb) (dst rest : List ℕ)
    → len ≢ 0
    → tcp_rx_data_round (waits n t) len ≡ some (dst, left, u)
    → tcp_rx_data n waits u left ≡ received rest v
    → tcp_rx_data (suc n) waits t len ≡ received (dst ++ rest) v
unfolding tcp_rx_data
tcp_rx_data-more n len left waits t u v dst rest ne first others =
    rw (tcp_rx_data, ==_ne len 0 ne, first, others) refl

-- The bytes of a round and of the later ones, put together.
joined_rounds :
    (first later held kept before new unread unused : List ℕ)
    → first ++ kept ≡ before ++ new
    → later ++ (held ++ unused) ≡ kept ++ unread
    → (first ++ later) ++ (held ++ unused) ≡ before ++ (new ++ unread)
joined_rounds first later held kept before new unread unused e f =
    append_assoc first later (held ++ unused)
    ∙ ap (λ l. first ++ l) f
    ∙ sym (append_assoc first kept unread)
    ∙ ap (λ l. l ++ unread) e
    ∙ append_assoc before new unread

-- What a wait does to a connection that has no bytes to give: some arrive.
abbrev pub AreFilling : (ℕ → Tcb → Tcb) → (ℕ → List ℕ) → Type 0
AreFilling waits arriving =
    (k : ℕ) (u : Tcb)
    → IsValid u.rx_buf
    → is_close_wait u.state ≡ false
    → length (bytes u.rx_buf) ≡ 0
    → Brings (arriving k) u (waits k u)

-- The result of a call that took `len` bytes.
abbrev pub Receives : (ℕ → Tcb → Tcb) → (ℕ → List ℕ) → ℕ → Tcb → ℕ → Type 0
Receives waits arriving n t len =
    (dst : List ℕ) × (u : Tcb) × (left : ℕ) × (tcp_rx_data n waits t len ≡ received dst u)
    × (length dst ≡ len)
    × IsValid u.rx_buf
    × (dst ++ (bytes u.rx_buf ++ arrivals arriving left) ≡ bytes t.rx_buf ++ arrivals arriving n)

module _ (waits : ℕ → Tcb → Tcb) (arriving : ℕ → List ℕ) where
  -- What the rounds after the first find: an empty buffer, unless there is nothing left to take.
  abbrev Later : ℕ → Type 0
  Later n =
      (c : Tcb) (more : ℕ)
      → IsValid c.rx_buf
      → is_close_wait c.state ≡ false
      → (more ≢ 0 → length (bytes c.rx_buf) ≡ 0)
      → more ≤ n
      → more < 2 ^ 32
      → Receives waits arriving n c more

  round_first :
      (n len : ℕ) (t : Tcb)
      → Later n
      → Brings (arriving n) t (waits n t)
      → suc len ≤ suc n
      → suc len < 2 ^ 32
      → Receives waits arriving (suc n) t (suc len)
  round_first n len t rounds b enough small =
      let (first, buf, round, valid, joined, count) =
        tcp_rx_data_round-append (waits n t) (suc len) b.valid b.alive small in
      let some_taken : length first ≢ 0 = λ z. b.ready (omega (arith, count)) in
      let both = sym (length-append first (bytes buf)) ∙ ap length joined in
      let after = record (waits n t) { rx_buf = buf } in
      let (later, u, left, run, many, valid', accounted) =
        rounds after (suc len - length first) valid b.alive (λ ne. omega (arith, count, both, ne))
          (omega (arith, some_taken)) (omega arith) in
      (
        first ++ later,
        u,
        left,
        tcp_rx_data-more n (suc len) (suc len - length first) waits t after u first later
            (omega arith) round run,
        length-append first later ∙ omega (arith, many, count),
        valid',
        joined_rounds first later (bytes u.rx_buf) (bytes buf) (bytes t.rx_buf) (arriving n)
            (arrivals arriving n) (arrivals arriving left) (joined ∙ b.behind) accounted,
      )

  rounds-Later : (n : ℕ) → AreFilling waits arriving → Later n
  rounds-Later n fill c zero valid alive empty fits few =
      ([], c, n, tcp_rx_data-done n waits c, refl, valid, refl)
  rounds-Later zero fill c (suc more) valid alive empty fits few = absurd (omega arith)
  rounds-Later (suc n) fill c (suc more) valid alive empty fits few =
      round_first n more c (rounds-Later n fill)
        (fill n c valid alive (empty (λ z. omega (arith, z)))) fits few

-- When no FIN comes, the buffer is well formed, and every wait of tcp_rx_data brings at least one
-- byte that fits: a call for `len` bytes ends within `len` rounds with exactly `len` bytes, and
-- these, followed by what the buffer then holds and by what arrives in the rounds that were not
-- needed, are what the buffer held followed by what arrives in all the rounds.
pub tcp_rx_data-received :
    (n len : ℕ) (waits : ℕ → Tcb → Tcb) (arriving : ℕ → List ℕ) (t : Tcb)
    → AreFilling waits arriving
    → Brings (arriving n) t (waits n t)
    → IsValid t.rx_buf
    → len ≤ suc n
    → len < 2 ^ 32
    → Receives waits arriving (suc n) t len
tcp_rx_data-received n zero waits arriving t fill b v enough small =
    ([], t, suc n, tcp_rx_data-done (suc n) waits t, refl, v, refl)
tcp_rx_data-received n (suc len) waits arriving t fill b v enough small =
    round_first waits arriving n len t (rounds-Later waits arriving n fill) b enough small
