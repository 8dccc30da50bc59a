-- ===== src/Handlers/Tickers/Stopped.antt =====
-- api/gecko.go: a coin of which the power of 10 of the decimals is 0 ends `Tickers`.
use mathlib.Core.List.{Memᴰ}
use ibswap_api.Common.{ℕ, ◌≡◌, refl, ap, subst, ◌∙◌, some, List, [], ◌∷◌}
use ibswap_api.Common.Int.{ℤ, pos}
use ibswap_api.Common.Eq.{Text}
use ibswap_api.Common.Decimal.{int_string, set_string, set_string-int_string}
use ibswap_api.Common.Outcome.{panic, Yields-panic}
use ibswap_api.Registry
use ibswap_api.Registry.{Registry, Coin, get_coin, get_pool, get_pools}
use ibswap_api.Stats.Ticks.Description.{IsKept}
use ibswap_api.Stats.Overview.{Api, StatTable, PoolOverview}
use ibswap_api.Stats.Overview.Calm.{CalmApi}
use ibswap_api.Stats.Overview.Rows.{own_overview, overview_pools_by_contract-key}
use ibswap_api.Prices.{Prices}
use ibswap_api.Handlers.Tickers.{
  Formats, mul, div, liquidity, ticker_of, ticker_row, ticker_rows, tickers,
}
use ibswap_api.Handlers.Tickers.Calm.{ticker_row-Calm}

div-zero : (a y : ℤ) → y ≡ pos 0 → div a y ≡ panic
div-zero a y e = ap (div a) e

module _ {W : Type 0} (fm : Formats W) (prices : Prices W) (stat_days : ℤ) (table : StatTable) where
  ticker_of-panic :
      (p : Registry.Pool) (base target : Coin) (o : PoolOverview) (a0 a1 : ℤ)
      → o.reserve0 ≡ int_string a0
      → o.reserve1 ≡ int_string a1
      → fm.pow10_int64 base.decimal ≡ pos 0
      → ticker_of fm prices p base target o ≡ panic
  unfolding ticker_of liquidity
  ticker_of-panic p base target o a0 a1 e0 e1 h =
      rw
        (
          ticker_of,
          liquidity,
          ap set_string e0 ∙ set_string-int_string a0,
          ap set_string e1 ∙ set_string-int_string a1,
          div-zero (mul a0 a1) (fm.pow10_int64 base.decimal) h,
        )
        refl

  ticker_row-panic :
      (t : ℕ × ℕ) (r : Registry) (p p1 : Registry.Pool) (c0 c1 : Coin) (s : Api)
      → get_coin r p.token0 ≡ some c0
      → get_coin r p.token1 ≡ some c1
      → fm.pow10_int64 c0.decimal ≡ pos 0
      → get_pool r p.contract ≡ some p1
      → p1.contract ≡ p.contract
      → IsKept s.globals p.contract
      → ticker_row fm prices stat_days table t r p s ≡ panic
  unfolding ticker_row
  ticker_row-panic t r p p1 c0 c1 s e0 e1 h f same (q, at) =
      let o = own_overview stat_days table t p1 q s in
      let given = overview_pools_by_contract-key stat_days table t r p1 p.contract q s same at f in
      rw
        (
          ticker_row,
          e0,
          e1,
          given,
          ticker_of-panic p c0 c1 o q.curr.reserve0 q.curr.reserve1 refl refl h,
        )
        refl

  ticker_rows-panic :
      (times : Text → ℕ × ℕ) (r : Registry) (p : Registry.Pool) (ps : List Registry.Pool) (s : Api)
      → ((s' : Api)
          → IsKept s'.globals p.contract
          → ticker_row fm prices stat_days table (times p.contract) r p s' ≡ panic)
      → Memᴰ p ps
      → IsKept s.globals p.contract
      → ticker_rows fm prices stat_days table times r ps s ≡ panic
  unfolding ticker_rows
  ticker_rows-panic times r p [] s stops m k = elim m [ ]
  ticker_rows-panic times r p (x ∷ ps) s stops (Memᴰ.head e) k =
      let stops_here : ticker_row fm prices stat_days table (times x.contract) r x s ≡ panic =
        subst (λ y. ticker_row fm prices stat_days table (times y.contract) r y s ≡ panic) e
          (stops s k) in
      rw (ticker_rows, stops_here) refl
  ticker_rows-panic times r p (x ∷ ps) s stops (Memᴰ.tail m) k =
      Yields-panic (CalmApi s.globals)
        (ticker_row fm prices stat_days table (times x.contract) r x s) _
        (ticker_row-Calm fm prices stat_days table (times x.contract) r x s)
        (λ y calm. rw (ticker_rows-panic times r p ps y.1 stops m (calm.kept p.contract k)) refl)

  -- The pool is one of the V3 pools, with its statistics; its first coin has such decimals.
  pub tickers-panic :
      (times : Text → ℕ × ℕ) (r : Registry) (s : Api) (p p1 : Registry.Pool) (c0 c1 : Coin)
      → Memᴰ p (get_pools (pos 3) r).0
      → get_coin r p.token0 ≡ some c0
      → get_coin r p.token1 ≡ some c1
      → fm.pow10_int64 c0.decimal ≡ pos 0
      → get_pool (get_pools (pos 3) r).1 p.contract ≡ some p1
      → p1.contract ≡ p.contract
      → IsKept s.globals p.contract
      → tickers fm prices stat_days table times r s ≡ panic
  unfolding tickers get_pools get_coin
  tickers-panic times r s p p1 c0 c1 m e0 e1 h f same k =
      let (ps, r') = get_pools (pos 3) r in
      let stops = λ (s' : Api) (i : IsKept s'.globals p.contract).
        ticker_row-panic (times p.contract) r' p p1 c0 c1 s' e0 e1 h f same i in
      rw (tickers, ticker_rows-panic times r' p ps s stops m k) refl
