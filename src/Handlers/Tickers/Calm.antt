-- ===== src/Handlers/Tickers/Calm.antt =====
-- What `Tickers` of api/gecko.go leaves of the maps of the statistics.
use ibswap_api.Common.{ℕ, inl, inr, List, [], ◌∷◌, Option-cases}
use ibswap_api.Common.Int.{ℤ}
use ibswap_api.Common.Eq.{Text}
use ibswap_api.Common.Outcome.{Yields, Yields-bind, Yields-then, Yields-result}
use ibswap_api.Registry
use ibswap_api.Registry.{Registry, get_coin}
use ibswap_api.Stats.Overview.{Api, StatTable, overview_pools_by_contract}
use ibswap_api.Stats.Overview.Calm.{CalmApi, Calm-refl, Calm-trans, overview_pools_by_contract-Calm}
use ibswap_api.Prices.{Prices}
use ibswap_api.Handlers.Tickers.{Formats, ticker_of, ticker_row, ticker_rows}

module _ {W : Type 0} (fm : Formats W) (prices : Prices W) (stat_days : ℤ) (table : StatTable) where
  pub ticker_row-Calm :
      (t : ℕ × ℕ) (r : Registry) (p : Registry.Pool) (s : Api)
      → Yields (CalmApi s.globals) (ticker_row fm prices stat_days table t r p s)
  unfolding ticker_row
  ticker_row-Calm t r p s = elim (Option-cases (get_coin r p.token0)) [
    | inl e ↦ rw (e, ticker_row) (Calm-refl s.globals)
    | inr (c0, e) ↦ elim (Option-cases (get_coin r p.token1)) [
      | inl f ↦ rw (e, f, ticker_row) (Calm-refl s.globals)
      | inr (c1, f) ↦
          rw (e, f, ticker_row)
            (Yields-then _ (CalmApi s.globals)
              (overview_pools_by_contract stat_days table t r p.contract s) _
              (overview_pools_by_contract-Calm stat_days table t r p.contract s)
              (λ x h.
                Yields-result (CalmApi s.globals) x.0 _ _
                  (λ v. Yields-bind _ (ticker_of fm prices p c0 c1 v) _ (λ u. h)) (λ m. h)))
    ]
  ]

  pub ticker_rows-Calm :
      (times : Text → ℕ × ℕ) (r : Registry) (ps : List Registry.Pool) (s : Api)
      → Yields (CalmApi s.globals) (ticker_rows fm prices stat_days table times r ps s)
  unfolding ticker_rows
  ticker_rows-Calm times r [] s = Calm-refl s.globals
  ticker_rows-Calm times r (p ∷ ps) s =
      Yields-then _ (CalmApi s.globals)
        (ticker_row fm prices stat_days table (times p.contract) r p s) _
        (ticker_row-Calm (times p.contract) r p s)
        (λ x h.
          Yields-then _ (CalmApi s.globals) (ticker_rows fm prices stat_days table times r ps x.1) _
            (ticker_rows-Calm times r ps x.1) (λ y i. Calm-trans _ _ _ h i))
