-- ===== src/Stats/Overview/Rows.antt =====
-- `OverviewPools` and `OverviewPoolsByContract` of service/api.go: which rows they give, and of what.
use ibswap_api.Common.{
  subst, sym, ℕ, ◌≡◌, refl, ap, ◌∙◌, ◌⊎◌, inl, inr, none, some, List, [], ◌∷◌, ◌++◌, All,
  All-weaken, map, Bool-cases,
}
use ibswap_api.Common.Int.{ℤ}
use ibswap_api.Common.Eq.{Text, codes, text_eq, text_eq_instance}
use ibswap_api.Common.Dict.{lookup, insert, lookup-insert}
use ibswap_api.Common.Decimal.{int_string}
use ibswap_api.Common.Outcome.{ok, error, value}
use ibswap_api.Registry
use ibswap_api.Registry.{Registry, get_pool}
use ibswap_api.Stats.Window.{get_24h_volume}
use ibswap_api.Stats.Ticks.{Globals}
use ibswap_api.Stats.Ticks.Description.{OfPool, At, IsKept}
use ibswap_api.Stats.Overview.{
  Api, StatTable, PoolOverview, stat_pool_volumes, last_stat, overview, read_volume, overview_pool,
  overview_pools, overview_pools_by_contract,
}

-- A contract has no current reserves, or all three maps have it.
abbrev pub IsSteady : Globals → Text → Type 0
IsSteady g k = (lookup k g.curr_reserves ≡ none) ⊎ IsKept g k

-- The pools that have current reserves.
abbrev pub watched : Globals → List Registry.Pool → List Text
watched g [] = []
watched g (p ∷ ps) = elim (lookup p.contract g.curr_reserves) [
  | none ↦ watched g ps
  | some r ↦ p.contract ∷ watched g ps
]

-- The maps after a volume is read: only that volume differs.
abbrev pub reread : ℕ → Text → OfPool → Globals → Globals
reread now key q g = record g {
  volumes_24h = insert key (get_24h_volume now q.volumes).1 g.volumes_24h;
}

pub read_volume-At :
    (now : ℕ) (key : Text) (q : OfPool) (g : Globals)
    → At key g q
    → read_volume now key g ≡ ok ((get_24h_volume now q.volumes).0, reread now key q g)
unfolding read_volume
read_volume-At now key q g h = rw (h.volumes_found, read_volume) refl

pub reread-IsKept :
    (now : ℕ) (key k : Text) (q : OfPool) (g : Globals) → IsKept g k → IsKept (reread now key q g) k
reread-IsKept now key k q g (p, h) = elim (Bool-cases (text_eq k key)) [
  | inl e ↦ (
    record p { volumes = (get_24h_volume now q.volumes).1 },
    record {
      utc0_found = h.utc0_found;
      curr_found = h.curr_found;
      volumes_found = lookup-insert k key _ g.volumes_24h ∙ rw e refl;
    },
  )
  | inr e ↦ (
    p,
    record {
      utc0_found = h.utc0_found;
      curr_found = h.curr_found;
      volumes_found = lookup-insert k key _ g.volumes_24h ∙ rw e h.volumes_found;
    },
  )
]

pub reread-IsSteady :
    (now : ℕ) (key k : Text) (q : OfPool) (g : Globals)
    → IsSteady g k
    → IsSteady (reread now key q g) k
reread-IsSteady now key k q g (inl e) = inl e
reread-IsSteady now key k q g (inr h) = inr (reread-IsKept now key k q g h)

module _ (stat_days : ℤ) (table : StatTable) where
  -- The overview of a pool that has its statistics.
  abbrev pub own_overview : ℕ × ℕ → Registry.Pool → OfPool → Api → PoolOverview
  own_overview t p q s =
      overview p.contract p.token0 p.token1 q.curr (get_24h_volume t.0 q.volumes).0 q.utc0
        (last_stat (stat_pool_volumes stat_days table t.1 p.contract s.pool_stats).0)

  abbrev pub own_after : ℕ × ℕ → Registry.Pool → OfPool → Api → Api
  own_after t p q s = record {
    globals = reread t.0 p.contract q s.globals;
    pool_stats = (stat_pool_volumes stat_days table t.1 p.contract s.pool_stats).1;
  }

  overview_pool-At :
      (t : ℕ × ℕ) (p : Registry.Pool) (q : OfPool) (s : Api)
      → At p.contract s.globals q
      → overview_pool stat_days table t p s ≡ ok (some (own_overview t p q s), own_after t p q s)
  unfolding overview_pool
  overview_pool-At t p q s h =
      rw (h.curr_found, overview_pool, read_volume-At t.0 p.contract q s.globals h, h.utc0_found)
        refl

  overview_pool-none :
      (t : ℕ × ℕ) (p : Registry.Pool) (s : Api)
      → lookup p.contract s.globals.curr_reserves ≡ none
      → overview_pool stat_days table t p s ≡ ok (none, s)
  unfolding overview_pool
  overview_pool-none t p s h = rw (h, overview_pool) refl

  pub overview_pools_by_contract-error :
      (t : ℕ × ℕ) (r : Registry) (k : Text) (s : Api)
      → lookup k s.globals.curr_reserves ≡ none
      → overview_pools_by_contract stat_days table t r k s
        ≡ ok (error (codes "key not exist. " ++ k), s)
  unfolding overview_pools_by_contract
  overview_pools_by_contract-error t r k s h = rw (h, overview_pools_by_contract) refl

  pub overview_pools_by_contract-At :
      (t : ℕ × ℕ) (r : Registry) (p : Registry.Pool) (q : OfPool) (s : Api)
      → At p.contract s.globals q
      → get_pool r p.contract ≡ some p
      → overview_pools_by_contract stat_days table t r p.contract s
        ≡ ok (value (own_overview t p q s), own_after t p q s)
  unfolding overview_pools_by_contract
  overview_pools_by_contract-At t r p q s h found =
      rw
        (
          h.curr_found,
          overview_pools_by_contract,
          read_volume-At t.0 p.contract q s.globals h,
          h.utc0_found,
          found,
        )
        refl

  -- The pool that the registry gives for a contract, if only by a pool of the other version.
  pub overview_pools_by_contract-key :
      (t : ℕ × ℕ) (r : Registry) (p : Registry.Pool) (k : Text) (q : OfPool) (s : Api)
      → p.contract ≡ k
      → At k s.globals q
      → get_pool r k ≡ some p
      → overview_pools_by_contract stat_days table t r k s
        ≡ ok (value (own_overview t p q s), own_after t p q s)
  overview_pools_by_contract-key t r p k q s same h found =
      subst
        (λ j.
          overview_pools_by_contract stat_days table t r j s
          ≡ ok (value (own_overview t p q s), own_after t p q s))
        same
        (overview_pools_by_contract-At t r p q s (subst (λ j. At j s.globals q) (sym same) h)
          (ap (get_pool r) same ∙ found))

  -- For a pool of the registry that has its statistics, `OverviewPoolsByContract` gives the row that
  -- `OverviewPools` has for it, and both leave the same. The row has the pool's tokens, its current
  -- reserves and tick, those of the start of the day, and its volume of 24 hours, in decimal.
  pub overview_pools_by_contract_agrees :
      (t : ℕ × ℕ) (r : Registry) (p : Registry.Pool) (q : OfPool) (s : Api)
      → At p.contract s.globals q
      → get_pool r p.contract ≡ some p
      → (o : PoolOverview) × (s' : Api) × (overview_pool stat_days table t p s ≡ ok (some o, s'))
        × (overview_pools_by_contract stat_days table t r p.contract s ≡ ok (value o, s'))
        × (o.contract ≡ p.contract)
        × (o.token0 ≡ p.token0)
        × (o.token1 ≡ p.token1)
        × (o.reserve0 ≡ int_string q.curr.reserve0)
        × (o.reserve1 ≡ int_string q.curr.reserve1)
        × (o.curr_tick ≡ q.curr.tick)
        × (o.utc0_reserve0 ≡ int_string q.utc0.reserve0)
        × (o.utc0_reserve1 ≡ int_string q.utc0.reserve1)
        × (o.utc0_tick ≡ q.utc0.tick)
        × (o.volume24h0 ≡ int_string (get_24h_volume t.0 q.volumes).0.amount0)
        × (o.volume24h1 ≡ int_string (get_24h_volume t.0 q.volumes).0.amount1)
  overview_pools_by_contract_agrees t r p q s h found = (
    own_overview t p q s,
    own_after t p q s,
    overview_pool-At t p q s h,
    overview_pools_by_contract-At t r p q s h found,
    refl,
    refl,
    refl,
    refl,
    refl,
    refl,
    refl,
    refl,
    refl,
    refl,
    refl,
  )

  -- When no pool of a list has current reserves without the other statistics, `OverviewPools` does not
  -- panic. It gives a row for each pool that has them, in the order of the list, and for no other.
  pub overview_pools_rows :
      (times : Text → ℕ × ℕ) (pools : List Registry.Pool) (s : Api)
      → All (λ p. IsSteady s.globals p.contract) pools
      → (rows : List PoolOverview) × (s' : Api) × (overview_pools stat_days table times pools s
          ≡ ok (rows, s'))
        × (map (λ o. o.contract) rows ≡ watched s.globals pools)
  unfolding overview_pools
  overview_pools_rows times [] s h = ([], s, refl, refl)
  overview_pools_rows times (p ∷ rest) s (inl e, h) =
      let (rows, s', f, w) = overview_pools_rows times rest s h in
      rw (overview_pool-none (times p.contract) p s e, f, e, watched) (rows, s', refl, w)
  overview_pools_rows times (p ∷ rest) s (inr (q, k), h) =
      let t = times p.contract in
      let s1 = own_after t p q s in
      let (rows, s', f, w) =
        overview_pools_rows times rest s1
          (All-weaken rest (λ x i. reread-IsSteady t.0 p.contract x.contract q s.globals i) h) in
      rw (overview_pool-At t p q s k, f, k.curr_found, watched)
        (own_overview t p q s ∷ rows, s', refl, ap (◌∷◌ p.contract) w)
