-- ===== src/Tcp/Exchange/Place.antt =====
-- A connection that stands anywhere in the list.
use lpc17xx_network.Base.{
  ℕ, suc, ◌≡◌, ◌≢◌, refl, sym, ◌∙◌, inl, inr, Bool-cases, Option, ◌==◌, ap, List, [], ◌∷◌, ◌++◌,
  Bool, true, false, none, some, length, get_elem?, set, if◌then◌else◌,
}
use lpc17xx_network.Base.Run.{ok, halted}
use lpc17xx_network.Effect.{tcp_waitq}
use lpc17xx_network.Tcp.{TcpHeader, established, close_wait, Tcb, TcpTx, tcp_tx_call, ack_header}
use lpc17xx_network.Tcp.Receive.{
  Segment, find_index, matches, find_tcb, switch, guarded, stop_timer, finish, deliver, tcp_rx,
  stays, on_established, take_ack, take_fin, take_data,
}

-- No connection in `before` has the ports and the address of `u`.
abbrev pub ComesFirst : Tcb → List Tcb → Type 0
ComesFirst u before = (s : Segment) → matches s u ≡ true → find_index (matches s) before ≡ none

pub ComesFirst-nil : (u : Tcb) → ComesFirst u []
unfolding find_index
ComesFirst-nil u s m = refl

-- What stands at the place is the same in two lists that are.
pub same_place :
    (before : List Tcb) (u u' : Tcb) (others : List Tcb)
    → before ++ u ∷ others ≡ before ++ u' ∷ others
    → u ≡ u'
same_place [] u u' others e = cc
same_place (t ∷ ts) u u' others e = same_place ts u u' others cc

none_left :
    (o : Option ℕ)
    → ◌≡◌ {A = Option ℕ} (elim o as (λ x. Option ℕ) [ none ↦ none | some i ↦ some (suc i) ]) none
    → o ≡ none
none_left none e = refl
none_left (some i) e = absurd (cc)

-- A search that finds nothing in a list finds nothing at its head and in its tail.
find_index-none :
    (f : Tcb → Bool) (t : Tcb) (ts : List Tcb)
    → find_index f (t ∷ ts) ≡ none
    → (f t ≡ false) × (find_index f ts ≡ none)
unfolding find_index
find_index-none f t ts e = elim (Bool-cases (f t)) [
  | inl hit ↦ absurd (found (rw hit at e))
  | inr miss ↦ (miss, none_left (find_index f ts) (rw miss at e))
]
  where
    found : ◌≢◌ {A = Option ℕ} (some 0) none
    found z = cc

find_index-place :
    (f : Tcb → Bool) (before : List Tcb) (u : Tcb) (others : List Tcb)
    → find_index f before ≡ none
    → f u ≡ true
    → find_index f (before ++ u ∷ others) ≡ some (length before)
unfolding find_index
find_index-place f [] u others e m = rw (find_index, m) refl
find_index-place f (t ∷ ts) u others e m =
    let (miss, rest) = find_index-none f t ts e in
    rw (find_index, miss, find_index-place f ts u others rest m) refl

get_elem?-place :
    (before : List Tcb) (u : Tcb) (others : List Tcb)
    → get_elem? (before ++ u ∷ others) (length before) ≡ some u
get_elem?-place [] u others = refl
get_elem?-place (t ∷ ts) u others = get_elem?-place ts u others

set-place :
    (before : List Tcb) (u u' : Tcb) (others : List Tcb)
    → set (before ++ u ∷ others) (length before) u' ≡ before ++ u' ∷ others
set-place [] u u' others = refl
set-place (t ∷ ts) u u' others = ap (λ l. t ∷ l) (set-place ts u u' others)

module _ (s : Segment) (before : List Tcb) (u : Tcb) (others : List Tcb)
    (first : ComesFirst u before) (mine : matches s u ≡ true) where
  find_tcb-place : find_tcb s (before ++ u ∷ others) ≡ some (length before)
  unfolding find_tcb
  find_tcb-place =
      rw (find_tcb, find_index-place (matches s) before u others (first s mine) mine) refl

  -- The case of the switch that it goes through.
  pub tcp_rx-place :
      (u' : Tcb) (send_ack : Bool) (sent : List TcpTx)
      → guarded u.state (stop_timer u) s ≡ ok (stays u' send_ack sent)
      → tcp_rx (before ++ u ∷ others) s
        ≡ ok (record {
          tcbs = before ++ u' ∷ others;
          sent = sent ++ (if send_ack then tcp_tx_call (ack_header u') s.src_ip ∷ [] else []);
          woken = tcp_waitq ∷ [];
        })
  unfolding tcp_rx deliver finish
  tcp_rx-place u' send_ack sent g =
      rw
        (
          tcp_rx,
          find_tcb-place,
          get_elem?-place before u others,
          deliver,
          g,
          set-place before u u' others,
        )
        refl

  -- An open one.
  pub tcp_rx-established :
      (u' : Tcb) (send_ack : Bool)
      → u.state ≡ established
      → on_established (stop_timer u) s ≡ stays u' send_ack []
      → tcp_rx (before ++ u ∷ others) s
        ≡ ok (record {
          tcbs = before ++ u' ∷ others;
          sent = (if send_ack then tcp_tx_call (ack_header u') s.src_ip ∷ [] else []);
          woken = tcp_waitq ∷ [];
        })
  unfolding guarded switch
  tcp_rx-established u' send_ack e run =
      let open_case : guarded u.state (stop_timer u) s ≡ ok (on_established (stop_timer u) s) =
        rw (guarded, e, switch) refl in
      tcp_rx-place u' send_ack [] (open_case ∙ ap (λ sw. ok sw) run)

  stuck : u.state ≡ close_wait → tcp_rx (before ++ u ∷ others) s ≡ halted
  unfolding tcp_rx deliver guarded
  stuck e = rw (tcp_rx, find_tcb-place, get_elem?-place before u others, deliver, e, guarded) refl

-- The same ports, address and state.
IsLike : Tcb → Tcb → Type 0
IsLike t u =
    (t.src_port ≡ u.src_port)
    × (t.dst_port ≡ u.dst_port)
    × (t.dst_ip ≡ u.dst_ip)
    × (t.state ≡ u.state)

take_data-IsLike : (t : Tcb) (s : Segment) → IsLike (take_data t s) t
unfolding take_data IsLike
take_data-IsLike t s = elim (Bool-cases (s.data_len == 0)) [
  | inl empty ↦ rw (take_data, empty) (refl, refl, refl, refl)
  | inr full ↦ rw (take_data, full) (refl, refl, refl, refl)
]

take_ack-IsLike : (t : Tcb) (h : TcpHeader) → IsLike (take_ack t h) t
unfolding take_ack IsLike
take_ack-IsLike t h = elim (Bool-cases h.ack) [
  | inl on ↦ rw (take_ack, on) (refl, refl, refl, refl)
  | inr off ↦ rw (take_ack, off) (refl, refl, refl, refl)
]

take_fin-IsLike :
    (t : Tcb) (h : TcpHeader)
    → h.fin ≡ true
    → IsLike (take_fin t h) (record t { state = close_wait })
unfolding take_fin IsLike
take_fin-IsLike t h fin = rw (take_fin, fin) (refl, refl, refl, refl)

matches-IsLike : (s : Segment) (t u : Tcb) → IsLike t u → matches s t ≡ matches s u
unfolding matches IsLike
matches-IsLike s t u (src, dst, ip, st) = rw (matches, src, dst, ip) refl

fin_acked :
    (s : Segment) (u : Tcb)
    → s.header.fin ≡ true
    → on_established (stop_timer u) s
      ≡ stays (take_data (take_fin (take_ack (stop_timer u) s.header) s.header) s) true []
unfolding on_established
fin_acked s u fin = rw (on_established, fin) refl

-- A segment with FIN, with or without data, for an open connection that is the first of the list
-- with its ports and address, is handled and acknowledged; the next segment of that peer for the
-- connection, such as the same one sent again, stops the system.
pub tcp_rx-tcp_rx_halted :
    (s again : Segment) (before : List Tcb) (u : Tcb) (others : List Tcb)
    → ComesFirst u before
    → u.state ≡ established
    → matches s u ≡ true
    → s.header.fin ≡ true
    → matches again u ≡ true
    → (u' : Tcb) × (tcp_rx (before ++ u ∷ others) s
        ≡ ok (record {
          tcbs = before ++ u' ∷ others;
          sent = tcp_tx_call (ack_header u') s.src_ip ∷ [];
          woken = tcp_waitq ∷ [];
        }))
      × (tcp_rx (before ++ u' ∷ others) again ≡ halted)
unfolding matches IsLike
tcp_rx-tcp_rx_halted s again before u others first alive mine fin mine_too =
    let acked = take_ack (stop_timer u) s.header in
    let fin_taken = take_fin acked s.header in
    let u' = take_data fin_taken s in
    let like = take_data-IsLike fin_taken s in
    let fin_like = take_fin-IsLike acked s.header fin in
    let same : (r : Segment) → matches r u' ≡ matches r u = λ r.
      matches-IsLike r u' fin_taken like
      ∙ matches-IsLike r fin_taken (record acked { state = close_wait }) fin_like
      ∙ matches-IsLike r acked (stop_timer u) (take_ack-IsLike (stop_timer u) s.header) in
    (
      u',
      tcp_rx-established s before u others first mine u' true alive (fin_acked s u fin),
      stuck again before u' others (λ r m. first r (sym (same r) ∙ m)) (same again ∙ mine_too)
          (like.3 ∙ fin_like.3),
    )
