-- ===== src/Prices/Served.antt =====
-- service/price.go with service/api.go: the walk of `setTokensPriceAsUsd` over the overviews that
-- `OverviewPoolsByContract` gives.
use mathlib.Core.List.{Memᴰ}
use ibswap_api.Common.{ℕ, ◌+◌, ◌≡◌, refl, sym, ap, ◌∙◌, inl, inr, Option, none, some, List}
use ibswap_api.Common.Int.{ℤ}
use ibswap_api.Common.Eq.{Text, text_eq_instance}
use ibswap_api.Common.Dict.{lookup}
use ibswap_api.Common.Outcome.{ok, ◌>>=◌, Result, value, error}
use ibswap_api.Registry
use ibswap_api.Registry.{Registry, get_pool, get_coin}
use ibswap_api.Registry.Invariant.{IsValid}
use ibswap_api.Registry.Lookup.{get_coin-contract}
use ibswap_api.Stats.Ticks.{Globals}
use ibswap_api.Stats.Overview.{Api, StatTable, PoolOverview, overview_pools_by_contract}
use ibswap_api.Stats.Overview.Rows.{
  IsSteady, reread-IsSteady, own_after, overview_pools_by_contract-At,
  overview_pools_by_contract-error,
}
use ibswap_api.Prices.{Float, Overviews, Prices, Walk, set_tokens_price_as_usd}
use ibswap_api.Prices.Links.{Setting, Reliable, IsShared}
use ibswap_api.Prices.Correct.{Settled, set_tokens_price_as_usd-Settled}

-- The database and the times at which a call of `OverviewPoolsByContract` asks, call by call.
abbrev pub Moments : Type 0
Moments = ℕ → StatTable × (ℕ × ℕ)

abbrev pub tick_in : Result Text PoolOverview → Option ℤ
tick_in (error m) = none
tick_in (value o) = some o.curr_tick

-- `OverviewPoolsByContract`, as the walk uses it.
unfoldable pub served_overviews : ℤ → Registry → Overviews (Api × Moments)
served_overviews stat_days r = record {
  overview = λ contract x. do
    (o, s) ← overview_pools_by_contract stat_days (x.1 0).0 (x.1 0).1 r contract x.0
    ok (tick_in o, (s, λ i. x.1 (i + 1)));
}

-- The tick of the current reserves.
abbrev pub current_tick : Globals → Text → Option ℤ
current_tick g t = elim (lookup t g.curr_reserves) [ none ↦ none | some c ↦ some c.tick ]

module _ {W : Type 0} (fl : Float W) (stat_days : ℤ) (r : Registry)
    (pools : List Registry.Pool) where
  abbrev pub served_setting : Prices W → Globals → Setting W (Api × Moments)
  served_setting ps g = record {
    float = fl;
    source = served_overviews stat_days r;
    registry = r;
    pools = pools;
    start = ps;
    tick_of = current_tick g;
  }

  -- `GetPool` gives each pool for its contract.
  abbrev pub Known : Type 0
  Known = (p : Registry.Pool) → Memᴰ p pools → get_pool r p.contract ≡ some p

  -- Since `g`, the current reserves are the same, and each pool has all its statistics or no reserves.
  abbrev pub AllSteady : Globals → Api × Moments → Type 0
  AllSteady g x =
      (x.0.globals.curr_reserves ≡ g.curr_reserves)
      × ((p : Registry.Pool) → Memᴰ p pools → IsSteady x.0.globals p.contract)

  pub served_answers :
      (g : Globals)
      → Known
      → (p : Registry.Pool) (x : Api × Moments) → Memᴰ p pools
      → AllSteady g x
      → (x' : Api × Moments) × ((served_overviews stat_days r).overview p.contract x
          ≡ ok (current_tick g p.contract, x'))
        × AllSteady g x'
  unfolding served_overviews
  served_answers g known p x m h = elim (h.1 p m) [
    | inl e ↦ (
      (x.0, λ i. x.1 (i + 1)),
      rw
          (
            overview_pools_by_contract-error stat_days (x.1 0).0 (x.1 0).1 r p.contract x.0 e,
            current_tick,
            sym (ap (lookup p.contract) h.0) ∙ e,
          )
          refl,
      h,
    )
    | inr (q, at) ↦
        let t = (x.1 0).1 in
        let table = (x.1 0).0 in
        (
          (own_after stat_days table t p q x.0, λ i. x.1 (i + 1)),
          rw
              (
                overview_pools_by_contract-At stat_days table t r p q x.0 at (known p m),
                current_tick,
                sym (ap (lookup p.contract) h.0) ∙ at.curr_found,
              )
              refl,
          (h.0, λ p' m'. reread-IsSteady t.0 p.contract p'.contract q x.0.globals (h.1 p' m')),
        )
  ]

  abbrev pub served : (ps : Prices W) (g : Globals) → Known → Reliable (served_setting ps g)
  served ps g known = record { Good = AllSteady g; answers = served_answers g known }

  -- Over the overviews that `OverviewPoolsByContract` gives, `setTokensPriceAsUsd` ends without a panic:
  -- when the registry is valid and gives each of the pools, only WETH has the shared entry, and each
  -- pool has all its statistics or no reserves. Each token is then left with a price that follows from
  -- the three known ones over the ticks of the current reserves, or, when none follows, with its entry.
  pub set_tokens_price_as_usd_serves :
      (ps : Prices W) (s : Api) (moments : Moments) (known : Known)
      → IsValid r
      → IsShared ps
      → ((p : Registry.Pool) → Memᴰ p pools → IsSteady s.globals p.contract)
      → (x : Walk W (Api × Moments)) × (set_tokens_price_as_usd fl
            (served_overviews stat_days r)
            r
            pools
            ps
            (s, moments)
          ≡ ok (some x))
        × ((t : Text) → Settled (served_setting ps s.globals) (served ps s.globals known) x t)
  set_tokens_price_as_usd_serves ps s moments known valid shared steady =
      let (x, e, settled, _, _) =
        set_tokens_price_as_usd-Settled (served_setting ps s.globals) (served ps s.globals known)
          (s, moments) (λ t c h. get_coin-contract r t c valid h) shared (refl, steady) in
      (x, e, settled)
