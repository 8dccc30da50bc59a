-- ===== src/Handlers/Tickers/Answered.antt =====
-- api/gecko.go: what `Tickers` needs of the registry and of the maps of the statistics not to panic.
use ibswap_api.Common.{
  ℕ, ◌≡◌, refl, ap, subst, ◌∙◌, ◌⊎◌, inl, inr, none, some, List, [], ◌∷◌, Option-cases,
}
use ibswap_api.Common.Int.{ℤ, pos}
use ibswap_api.Common.Eq.{Text, text_eq_instance}
use ibswap_api.Common.Dict.{lookup}
use ibswap_api.Common.Outcome.{Yields, Returns, Returns-bind}
use ibswap_api.Registry
use ibswap_api.Registry.{Registry, get_coin, get_pool, get_pools}
use ibswap_api.Stats.Ticks.{Globals}
use ibswap_api.Stats.Ticks.Description.{IsKept}
use ibswap_api.Stats.Overview.{Api, StatTable}
use ibswap_api.Stats.Overview.Calm.{Calm, CalmApi}
use ibswap_api.Stats.Overview.Rows.{own_overview, overview_pools_by_contract-key}
use ibswap_api.Prices.{Prices}
use ibswap_api.Handlers.Tickers.{Formats, ticker_row, ticker_rows, tickers}
use ibswap_api.Handlers.Tickers.Calm.{ticker_row-Calm}
use ibswap_api.Handlers.Tickers.Listed.{Divisible, liquidity-ok, ticker_of-ok, row_skipped}

-- What has current reserves has all its statistics, and a pool of the registry has its contract.
abbrev pub IsBacked : Registry → Globals → Text → Type 0
IsBacked r g k =
    (lookup k g.curr_reserves ≡ none)
    ⊎ (IsKept g k × ((p : Registry.Pool) × (get_pool r k ≡ some p) × (p.contract ≡ k)))

IsBacked-Calm :
    (r : Registry) (g g' : Globals) → Calm g g' → (k : Text) → IsBacked r g k → IsBacked r g' k
IsBacked-Calm r g g' c k (inl e) = inl (ap (lookup k) c.curr ∙ e)
IsBacked-Calm r g g' c k (inr (i, p)) = inr (c.kept k i, p)

module _ {W : Type 0} (fm : Formats W) (prices : Prices W) (stat_days : ℤ) (table : StatTable) where
  ticker_row-Returns :
      (t : ℕ × ℕ) (r : Registry) (p : Registry.Pool) (s : Api)
      → Divisible fm prices r
      → IsBacked r s.globals p.contract
      → Returns (ticker_row fm prices stat_days table t r p s)
  unfolding ticker_row
  ticker_row-Returns t r p s d (inl e) = (_, row_skipped fm prices stat_days table t r p s e)
  ticker_row-Returns t r p s d (inr ((q, at), (p1, f, same))) =
      elim (Option-cases (get_coin r p.token0)) [
        | inl e0 ↦ rw (ticker_row, e0) (_, refl)
        | inr (c0, e0) ↦ elim (Option-cases (get_coin r p.token1)) [
          | inl e1 ↦ rw (ticker_row, e0, e1) (_, refl)
          | inr (c1, e1) ↦
              let o = own_overview stat_days table t p1 q s in
              let given =
                overview_pools_by_contract-key stat_days table t r p1 p.contract q s same at f in
              let (u, g, _) = ticker_of-ok fm prices p c0 c1 o (
                liquidity-ok fm prices p c0 c1 o q.curr.reserve0 q.curr.reserve1 refl refl
                  (d p.token0 c0 e0) (d p.token1 c1 e1)) in
              rw (ticker_row, e0, e1, given, g) (_, refl)
        ]
      ]

  ticker_rows-Returns :
      (times : Text → ℕ × ℕ) (r : Registry) (ps : List Registry.Pool) (s : Api)
      → Divisible fm prices r
      → ((k : Text) → IsBacked r s.globals k)
      → Returns (ticker_rows fm prices stat_days table times r ps s)
  unfolding ticker_rows
  ticker_rows-Returns times r [] s d h = (_, refl)
  ticker_rows-Returns times r (p ∷ ps) s d h =
      let t = times p.contract in
      let (x, e) = ticker_row-Returns t r p s d (h p.contract) in
      let calm =
        subst (Yields (CalmApi s.globals)) e (ticker_row-Calm fm prices stat_days table t r p s) in
      let (y, f) =
        ticker_rows-Returns times r ps x.1 d
          (λ k. IsBacked-Calm r s.globals x.1.globals calm k (h k)) in
      rw (ticker_rows, e, f) (_, refl)

  Divisible-get_pools :
      (v : ℤ) (r : Registry) → Divisible fm prices r → Divisible fm prices (get_pools v r).1
  unfolding get_pools get_coin
  Divisible-get_pools v r d = d

  pub tickers-Returns :
      (times : Text → ℕ × ℕ) (r : Registry) (s : Api)
      → Divisible fm prices r
      → ((k : Text) → IsBacked (get_pools (pos 3) r).1 s.globals k)
      → Returns (tickers fm prices stat_days table times r s)
  unfolding tickers
  tickers-Returns times r s d h =
      let (ps, r') = get_pools (pos 3) r in
      Returns-bind (ticker_rows fm prices stat_days table times r' ps s) _
        (ticker_rows-Returns times r' ps s (Divisible-get_pools (pos 3) r d) h) (λ x. (_, refl))
