-- ===== src/Handlers/Tickers/Listed.antt =====
-- api/gecko.go: which pools `Tickers` gives.
use ibswap_api.Common.{
  ℕ, zero, suc, ◌≡◌, ◌≢◌, refl, ap, ap₂, ◌∙◌, inl, inr, none, some, List, [], ◌∷◌, map, All,
  All-weaken, Option-cases,
}
use ibswap_api.Common.Int.{ℤ, pos, negsuc}
use ibswap_api.Common.Eq.{Text, text_eq_instance}
use ibswap_api.Common.Dict.{Dict, lookup}
use ibswap_api.Common.Decimal.{int_string, set_string, set_string-int_string}
use ibswap_api.Common.Outcome.{ok}
use ibswap_api.Registry
use ibswap_api.Registry.{Registry, Coin, get_coin, get_pool}
use ibswap_api.Stats.Ticks.{Reserves}
use ibswap_api.Stats.Ticks.Description.{OfPool, At}
use ibswap_api.Stats.Overview.{Api, StatTable, PoolOverview}
use ibswap_api.Stats.Overview.Rows.{
  IsSteady, reread-IsSteady, own_overview, own_after, overview_pools_by_contract-At,
  overview_pools_by_contract-error,
}
use ibswap_api.Prices.{Prices}
use ibswap_api.Handlers.Tickers.{
  Formats, Ticker, mul, div, liquidity, ticker_of, ticker_row, ticker_rows,
}

div-ok : (a y : ℤ) → y ≢ pos 0 → (q : ℤ) × (div a y ≡ ok q)
div-ok a (pos zero) h = absurd (h refl)
div-ok (pos a) (pos (suc d)) h = (_, refl)
div-ok (negsuc a) (pos (suc d)) h = (_, refl)
div-ok (pos a) (negsuc d) h = (_, refl)
div-ok (negsuc a) (negsuc d) h = (_, refl)

-- The pools with both coins and current reserves.
abbrev pub listed : Registry → Dict Text Reserves → List Registry.Pool → List Text
listed r held [] = []
listed r held (p ∷ ps) =
    let rest = listed r held ps in
    elim (get_coin r p.token0) [
      | none ↦ rest
      | some base ↦ elim (get_coin r p.token1) [
        | none ↦ rest
        | some target ↦ elim (lookup p.contract held) [ none ↦ rest | some c ↦ p.contract ∷ rest ]
      ]
    ]

listed_skipped :
    (r : Registry) (held : Dict Text Reserves) (p : Registry.Pool) (ps : List Registry.Pool)
    → lookup p.contract held ≡ none
    → listed r held ps ≡ listed r held (p ∷ ps)
listed_skipped r held p ps e = elim (Option-cases (get_coin r p.token0)) [
  | inl e0 ↦ rw (listed, e0) refl
  | inr (c0, e0) ↦ elim (Option-cases (get_coin r p.token1)) [
    | inl e1 ↦ rw (listed, e0, e1) refl
    | inr (c1, e1) ↦ rw (listed, e0, e1, e) refl
  ]
]

module _ {W : Type 0} (fm : Formats W) (prices : Prices W) where
  -- For each coin, `int64(math.Pow10(…))` of its decimals is not 0.
  abbrev pub Divisible : Registry → Type 0
  Divisible r = (t : Text) (c : Coin) → get_coin r t ≡ some c → fm.pow10_int64 c.decimal ≢ pos 0

  pub liquidity-ok :
      (p : Registry.Pool) (base target : Coin) (o : PoolOverview) (a0 a1 : ℤ)
      → o.reserve0 ≡ int_string a0
      → o.reserve1 ≡ int_string a1
      → fm.pow10_int64 base.decimal ≢ pos 0
      → fm.pow10_int64 target.decimal ≢ pos 0
      → (l : ℕ) × (liquidity fm prices p base target o ≡ ok l)
  unfolding liquidity
  liquidity-ok p base target o a0 a1 e0 e1 h0 h1 =
      let (x, f) = div-ok (mul a0 a1) (fm.pow10_int64 base.decimal) h0 in
      let (y, g) = div-ok x (fm.pow10_int64 target.decimal) h1 in
      rw
        (
          liquidity,
          ap set_string e0 ∙ set_string-int_string a0,
          ap set_string e1 ∙ set_string-int_string a1,
          f,
          g,
        )
        (_, refl)

  pub ticker_of-ok :
      (p : Registry.Pool) (base target : Coin) (o : PoolOverview)
      → ((l : ℕ) × (liquidity fm prices p base target o ≡ ok l))
      → (t : Ticker) × (ticker_of fm prices p base target o ≡ ok t) × (t.pool_id ≡ p.contract)
  unfolding ticker_of
  ticker_of-ok p base target o (l, e) = rw (ticker_of, e) (_, refl, refl)

  pub row_skipped :
      (stat_days : ℤ) (table : StatTable) (t : ℕ × ℕ) (r : Registry) (p : Registry.Pool) (s : Api)
      → lookup p.contract s.globals.curr_reserves ≡ none
      → ticker_row fm prices stat_days table t r p s ≡ ok (none, s)
  unfolding ticker_row
  row_skipped stat_days table t r p s e = elim (Option-cases (get_coin r p.token0)) [
    | inl e0 ↦ rw (ticker_row, e0) refl
    | inr (c0, e0) ↦ elim (Option-cases (get_coin r p.token1)) [
      | inl e1 ↦ rw (ticker_row, e0, e1) refl
      | inr (c1, e1) ↦
          rw
            (
              ticker_row,
              e0,
              e1,
              overview_pools_by_contract-error stat_days table t r p.contract s e,
            )
            refl
    ]
  ]

  row_given :
      (stat_days : ℤ) (table : StatTable) (t : ℕ × ℕ) (r : Registry) (p : Registry.Pool) (s : Api)
      (q : OfPool) (c0 c1 : Coin)
      → Divisible r
      → get_pool r p.contract ≡ some p
      → At p.contract s.globals q
      → get_coin r p.token0 ≡ some c0
      → get_coin r p.token1 ≡ some c1
      → (u : Ticker) × (ticker_row fm prices stat_days table t r p s
          ≡ ok (some u, own_after stat_days table t p q s))
        × (u.pool_id ≡ p.contract)
  unfolding ticker_row
  row_given stat_days table t r p s q c0 c1 d known at e0 e1 =
      let o = own_overview stat_days table t p q s in
      let (u, f, same) = ticker_of-ok p c0 c1 o (
        liquidity-ok p c0 c1 o q.curr.reserve0 q.curr.reserve1 refl refl (d p.token0 c0 e0)
          (d p.token1 c1 e1)) in
      (
        u,
        rw (ticker_row, e0, e1, overview_pools_by_contract-At stat_days table t r p q s at known, f)
            refl,
        same,
      )

  -- When the registry gives each pool of a list, each of them has all its statistics or no reserves, and
  -- no coin has decimals of which the power of 10 is 0 as an int64, the loop of `Tickers` does not panic.
  -- It gives the pools with both coins and current reserves, in the order of the list.
  pub ticker_rows-listed :
      (stat_days : ℤ) (table : StatTable) (times : Text → ℕ × ℕ) (r : Registry)
      (pools : List Registry.Pool) (s : Api)
      → Divisible r
      → All (λ p. get_pool r p.contract ≡ some p) pools
      → All (λ p. IsSteady s.globals p.contract) pools
      → (ts : List Ticker) × (s' : Api) × (ticker_rows fm prices stat_days table times r pools s
          ≡ ok (ts, s'))
        × (map (λ t. t.pool_id) ts ≡ listed r s.globals.curr_reserves pools)
  unfolding ticker_rows ticker_row
  ticker_rows-listed stat_days table times r [] s d k h = ([], s, refl, refl)
  ticker_rows-listed stat_days table times r (p ∷ rest) s d (known, k) (inl e, h) =
      let (ts, s', f, w) = ticker_rows-listed stat_days table times r rest s d k h in
      (
        ts,
        s',
        rw (ticker_rows, row_skipped stat_days table (times p.contract) r p s e, f) refl,
        w ∙ listed_skipped r s.globals.curr_reserves p rest e,
      )
  ticker_rows-listed stat_days table times r (p ∷ rest) s d (known, k) (inr (q, at), h) =
      elim (Option-cases (get_coin r p.token0)) [
        | inl e0 ↦
            let (ts, s', f, w) = ticker_rows-listed stat_days table times r rest s d k h in
            (ts, s', rw (ticker_rows, ticker_row, e0, f) refl, rw (listed, e0) w)
        | inr (c0, e0) ↦ elim (Option-cases (get_coin r p.token1)) [
          | inl e1 ↦
              let (ts, s', f, w) = ticker_rows-listed stat_days table times r rest s d k h in
              (ts, s', rw (ticker_rows, ticker_row, e0, e1, f) refl, rw (listed, e0, e1) w)
          | inr (c1, e1) ↦
              let t = times p.contract in
              let (u, g, same) = row_given stat_days table t r p s q c0 c1 d known at e0 e1 in
              let (ts, s', f, w) =
                ticker_rows-listed stat_days table times r rest (own_after stat_days table t p q s)
                  d k
                  (All-weaken rest (λ x i. reread-IsSteady t.0 p.contract x.contract q s.globals i)
                    h) in
              (
                u ∷ ts,
                s',
                rw (ticker_rows, g, f) refl,
                rw (listed, e0, e1, at.curr_found) (ap₂ ◌∷◌ same w),
              )
        ]
      ]
