-- ===== src/Chain/Logs/Paths.antt =====
-- `dealPoolV3Log` of service/evm.go on every path: a log of a registered pool never panics.
use ibswap_api.Common.{
  ℕ, ◌-◌, ◌≤◌, ◌<◌, ◌≡◌, ◌≢◌, refl, ◌⊎◌, inl, inr, Bool, true, false, Option, some, List, [], ◌∷◌,
  ◌++◌, arith, ltb, if◌then◌else◌, length, take, drop, le→leb, length-take, length-drop, Bool-cases,
}
use ibswap_api.Common.Int.{ℤ, pos}
use ibswap_api.Common.Eq.{Text, text_eq, text_eq_iff}
use ibswap_api.Common.Outcome.{Outcome, ok, Result, value, error}
use ibswap_api.Chain.Bytes.{high_bit, abs_bytes, flag_bytes}
use ibswap_api.Chain.Types.{
  Ethereum, event_swap_v3, EventLog, PoolStat, Token, Message, Sent, sent, logged, swap_data_error,
  balance0_error, balance1_error, slice, slice_from, int64,
}
use ibswap_api.Chain.Logs.{Trade, swap_trade, balance_or_zero, finish_v3, deal_pool_v3_log}

-- The values among what a handler sent.
abbrev pub values : {S : Type 0} → List (Sent S) → List S
values [] = []
values (sent s ∷ ms) = s ∷ values ms
values (logged m ∷ ms) = values ms

slice_fits :
    (lo hi : ℕ) (d : List ℕ)
    → lo < hi
    → hi ≤ length d
    → (w : List ℕ) × (0 < length w) × (slice lo hi d ≡ ok w)
unfolding slice
slice_fits lo hi d h k = (
  take (hi - lo) (drop lo d),
  omega (arith, length-take (hi - lo) (drop lo d), length-drop lo d),
  rw (le→leb lo hi (omega arith), le→leb hi (length d) k),
)

slice_from_fits :
    (lo : ℕ) (d : List ℕ) → lo < length d → (w : List ℕ) × (0 < length w) × (slice_from lo d ≡ ok w)
unfolding slice_from
slice_from_fits lo d h =
    (drop lo d, omega (arith, length-drop lo d), rw (le→leb lo (length d) (omega arith)))

either_some :
    (b : Bool) (s t : List ℕ) (x y : ℤ)
    → (z : ℤ) × ((if◌then◌else◌ {A = List ℕ × Option ℤ} b (s, some x) (t, some y)).1 ≡ some z)
either_some true s t x y = (x, refl)
either_some false s t x y = (y, refl)

abs_bytes-some : (d : List ℕ) → 0 < length d → (z : ℤ) × ((abs_bytes d).1 ≡ some z)
unfolding abs_bytes
abs_bytes-some [] h = elim h [ ]
abs_bytes-some (b ∷ d) h = either_some (high_bit b) _ _ _ _

flag_bytes-some : (d : List ℕ) → 0 < length d → (z : ℤ) × ((flag_bytes d).1 ≡ some z)
unfolding flag_bytes
flag_bytes-some [] h = elim h [ ]
flag_bytes-some (b ∷ d) h = either_some (high_bit b) _ _ _ _

-- Data that is long enough is read without a panic, whatever it is.
swap_trade-ok : (d : List ℕ) → 160 ≤ length d → (t : Trade) × (swap_trade d ≡ ok t)
unfolding swap_trade
swap_trade-ok d h = (
  record { amount0 = a0.0; amount1 = a1.0; tick = int64 t.0 },
  rw (w0.2, a0.1, w1.2, a1.1, w2.2, t.1),
)
  where
    w0 : (w : List ℕ) × (0 < length w) × (slice 0 32 d ≡ ok w)
    w0 = slice_fits 0 32 d (omega arith) (omega arith)

    w1 : (w : List ℕ) × (0 < length w) × (slice 32 64 d ≡ ok w)
    w1 = slice_fits 32 64 d (omega arith) (omega arith)

    w2 : (w : List ℕ) × (0 < length w) × (slice_from 156 d ≡ ok w)
    w2 = slice_from_fits 156 d (omega arith)

    a0 : (z : ℤ) × ((abs_bytes w0.0).1 ≡ some z)
    a0 = abs_bytes-some w0.0 w0.1

    a1 : (z : ℤ) × ((abs_bytes w1.0).1 ≡ some z)
    a1 = abs_bytes-some w1.0 w1.1

    t : (z : ℤ) × ((flag_bytes w2.0).1 ≡ some z)
    t = flag_bytes-some w2.0 w2.1

-- A balance as it is sent: 0 if it could not be read.
abbrev pub balance : Result Text ℤ → ℤ
balance (value b) = b
balance (error m) = pos 0

-- One value is sent, with the balances that could be read.
abbrev pub SendsStat : EventLog → Token → Token → Trade → Outcome (List (Sent PoolStat)) → Type 0
SendsStat log t0 t1 t r =
    (out : List (Sent PoolStat)) × (s : PoolStat) × (r ≡ ok out)
    × (values out ≡ s ∷ [])
    × (s.reserve0 ≡ balance (t0 log.address))
    × (s.reserve1 ≡ balance (t1 log.address))
    × (s.volume0 ≡ t.amount0)
    × (s.volume1 ≡ t.amount1)
    × (s.tick ≡ t.tick)

values-balance :
    (b : Result Text ℤ) (c : Result Text ℤ) (s : PoolStat)
    → values (
        (balance_or_zero balance0_error b).1 ++ (balance_or_zero balance1_error c).1 ++ sent s ∷ [])
      ≡ s ∷ []
unfolding balance_or_zero
values-balance (value b) (value c) s = refl
values-balance (value b) (error c) s = refl
values-balance (error b) (value c) s = refl
values-balance (error b) (error c) s = refl

balance_lem : (f : Text → Message) (b : Result Text ℤ) → (balance_or_zero f b).0 ≡ balance b
unfolding balance_or_zero
balance_lem f (value b) = refl
balance_lem f (error b) = refl

finish_v3-SendsStat :
    (e : Ethereum) (t0 t1 : Token) (now : ℕ) (log : EventLog) (t : Trade)
    → SendsStat log t0 t1 t (finish_v3 e (some t0) (some t1) now log t)
unfolding finish_v3
finish_v3-SendsStat e t0 t1 now log t = (
  _,
  _,
  refl,
  values-balance (t0 log.address) (t1 log.address) _,
  balance_lem _ (t0 log.address),
  balance_lem _ (t1 log.address),
  refl,
  refl,
  refl,
)

-- A log of a registered pool that has a topic ends in one of three ways, and never in a panic:
-- a swap whose data is short is reported and nothing is sent; any other swap is sent as read; a log
-- of another event is sent with no volume and tick 0.
pub deal_pool_v3_log-total :
    (e : Ethereum) (t0 t1 : Token) (now : ℕ) (log : EventLog) (topic : List ℕ)
    (others : List (List ℕ))
    → log.topics ≡ topic ∷ others
    → let r = deal_pool_v3_log e (some t0) (some t1) now log in
      ((topic ≡ event_swap_v3 e)
        × (length log.payload < 160)
        × (r ≡ ok (logged (swap_data_error log.payload) ∷ [])))
      ⊎ ((topic ≡ event_swap_v3 e)
          × (160 ≤ length log.payload)
          × ((t : Trade) × (swap_trade log.payload ≡ ok t) × SendsStat log t0 t1 t r))
      ⊎ ((topic ≢ event_swap_v3 e)
          × SendsStat log t0 t1 (record { amount0 = pos 0; amount1 = pos 0; tick = pos 0 }) r)
unfolding deal_pool_v3_log
deal_pool_v3_log-total e t0 t1 now log topic others h =
    elim (Bool-cases (text_eq topic (event_swap_v3 e))) [
      | inl swap ↦ elim (Bool-cases (ltb (length log.payload) 160)) [
        | inl short ↦ inl (same swap, ground arith, rw (h, swap, short))
        | inr long ↦ inr (
            inl
              (same swap, ground arith, read swap long (swap_trade-ok log.payload (ground arith))))
      ]
      | inr other ↦
          inr (inr (λ p. differ other p, rw (h, other) (finish_v3-SendsStat e t0 t1 now log _)))
    ]
  where
    same : text_eq topic (event_swap_v3 e) ≡ true → topic ≡ event_swap_v3 e
    same = (text_eq_iff topic (event_swap_v3 e)).0

    differ : text_eq topic (event_swap_v3 e) ≡ false → topic ≡ event_swap_v3 e → ⊥
    differ o p = cc ((text_eq_iff topic (event_swap_v3 e)).1 p)

    read :
        text_eq topic (event_swap_v3 e) ≡ true
        → ltb (length log.payload) 160 ≡ false
        → (t : Trade) × (swap_trade log.payload ≡ ok t)
        → (t : Trade) × (swap_trade log.payload ≡ ok t)
          × SendsStat log t0 t1 t (deal_pool_v3_log e (some t0) (some t1) now log)
    read swap long (t, q) = (t, q, rw (h, swap, long, q) (finish_v3-SendsStat e t0 t1 now log t))
