-- ===== src/Stats/Overview.antt =====
-- service/api.go: `StatPoolVolumes` with its cache, `OverviewPools` and `OverviewPoolsByContract`. The
-- clock and the database are arguments; a nil entry that is used is a panic.
pub mod Cache
pub mod Rows
pub mod Calm
use ibswap_api.Common.{
  ℕ, ◌+◌, ◌/◌, Bool, true, false, Option, none, some, List, [], ◌∷◌, ◌++◌, if◌then◌else◌,
}
use ibswap_api.Common.Int.{ℤ, pos, ◌+ℤ◌, ◌-ℤ◌, eqb_ℤ}
use ibswap_api.Common.Eq.{Text, codes, text_eq_instance}
use ibswap_api.Common.Dict.{Dict, lookup, insert}
use ibswap_api.Common.Outcome.{Outcome, ok, panic, ◌>>=◌, deref, Result, value, error}
use ibswap_api.Common.Decimal.{int_string}
use ibswap_api.Chain.Types.{int64}
use ibswap_api.Registry
use ibswap_api.Registry.{Registry, get_pool}
use ibswap_api.Storage
use ibswap_api.Storage.{DayStat, get_pool_statistic}
use ibswap_api.Stats.Window.{Volume, Volumes, get_24h_volume}
use ibswap_api.Stats.Ticks.{Reserves, Globals}

-- `poolStatsM` beside the maps of service/types.go.
pub record Api : Type 0 where
  pub globals : Globals
  pub pool_stats : Dict Text (List DayStat)

abbrev pub last : {A : Type 0} → List A → Option A
last [] = none
last (x ∷ []) = some x
last (x ∷ y ∷ xs) = last (y ∷ xs)

abbrev pub day_of : ℕ → ℤ
day_of now = pos (now / 86400)

-- The test of `StatPoolVolumes` on what the cache holds: its last row is of yesterday.
unfoldable pub is_current : ℤ → List DayStat → Bool
is_current curr_day ps = elim (last ps) [ none ↦ false | some s ↦ eqb_ℤ s.id (curr_day -ℤ pos 1) ]

-- `PoolOverview`
pub record PoolOverview : Type 0 where
  pub contract : Text
  pub token0 : Text
  pub token1 : Text
  pub reserve0 : Text
  pub reserve1 : Text
  pub curr_tick : ℤ
  pub volume24h0 : Text
  pub volume24h1 : Text
  pub utc0_reserve0 : Text
  pub utc0_reserve1 : Text
  pub utc0_tick : ℤ
  pub vol01d : Text
  pub vol11d : Text
  pub vol07d : Text
  pub vol17d : Text
  pub ts : ℤ

-- The last row of the statistics, if there is one and no error.
abbrev pub last_stat : Result Text (List DayStat) → Option DayStat
last_stat (error m) = none
last_stat (value ps) = last ps

-- A column of it, and otherwise the empty string.
abbrev pub column : (DayStat → Text) → Option DayStat → Text
column f none = []
column f (some s) = f s

-- What an overview is made of, with the names of the pool's tokens.
abbrev pub overview :
    Text → Text → Text → Reserves → Volume → Reserves → Option DayStat → PoolOverview
overview contract token0 token1 curr vol utc0 stat = record {
  contract = contract;
  token0 = token0;
  token1 = token1;
  reserve0 = int_string curr.reserve0;
  reserve1 = int_string curr.reserve1;
  curr_tick = curr.tick;
  volume24h0 = int_string vol.amount0;
  volume24h1 = int_string vol.amount1;
  utc0_reserve0 = int_string utc0.reserve0;
  utc0_reserve1 = int_string utc0.reserve1;
  utc0_tick = utc0.tick;
  vol01d = column (λ s. s.vol01d) stat;
  vol11d = column (λ s. s.vol11d) stat;
  vol07d = column (λ s. s.vol07d) stat;
  vol17d = column (λ s. s.vol17d) stat;
  ts = int64 (vol.ts +ℤ pos 86400);
}

-- `volumes24H[key].get24HVolume()`
unfoldable pub read_volume : ℕ → Text → Globals → Outcome (Volume × Globals)
read_volume now key g = do
  v ← deref (lookup key g.volumes_24h)
  let read = get_24h_volume now v
  ok (read.0, record g { volumes_24h = insert key read.1 g.volumes_24h })

abbrev pub add_row : Option PoolOverview → List PoolOverview → List PoolOverview
add_row none rows = rows
add_row (some r) rows = r ∷ rows

-- What `GetPoolStatistic` is answered for a contract and a first day.
abbrev pub StatTable : Type 0
StatTable = Text → ℤ → Storage.Rows DayStat

module _ (stat_days : ℤ) where
  -- The part of `StatPoolVolumes` that asks the database.
  unfoldable pub refresh :
      StatTable
      → ℤ
      → Text
      → Dict Text (List DayStat)
      → Result Text (List DayStat) × Dict Text (List DayStat)
  refresh table curr_day key cache = elim (get_pool_statistic (table key (curr_day -ℤ stat_days))) [
    | error m ↦ (error m, cache)
    | value ps ↦ (value ps, insert key ps cache)
  ]

  -- `StatPoolVolumes`, with the cache that it leaves.
  unfoldable pub stat_pool_volumes :
      StatTable
      → ℕ
      → Text
      → Dict Text (List DayStat)
      → Result Text (List DayStat) × Dict Text (List DayStat)
  unfolding refresh is_current
  stat_pool_volumes table now key cache = elim (lookup key cache) [
    | none ↦ refresh table (day_of now) key cache
    | some ps ↦
        if is_current (day_of now) ps
        then (value ps, cache)
        else refresh table (day_of now) key cache
  ]

  -- A passage of the loop of `OverviewPools`, with the times at which the volume and the statistics are
  -- asked for; `none` is the `continue`.
  unfoldable pub overview_pool :
      StatTable → ℕ × ℕ → Registry.Pool → Api → Outcome (Option PoolOverview × Api)
  unfolding read_volume
  overview_pool table (now, later) p s = elim (lookup p.contract s.globals.curr_reserves) [
    | none ↦ ok (none, s)
    | some curr ↦ do
      (vol, g) ← read_volume now p.contract s.globals
      utc0 ← deref (lookup p.contract g.utc0_reserves)
      let stat = stat_pool_volumes table later p.contract s.pool_stats
      ok (
        some (overview p.contract p.token0 p.token1 curr vol utc0 (last_stat stat.0)),
        record { globals = g; pool_stats = stat.1 },
      )
  ]

  -- `OverviewPools`, over what `GetPools` gives; each pool has the times of its passage.
  unfoldable pub overview_pools :
      StatTable → (Text → ℕ × ℕ) → List Registry.Pool → Api → Outcome (List PoolOverview × Api)
  unfolding overview_pool
  overview_pools table times [] s = ok ([], s)
  overview_pools table times (p ∷ rest) s = do
    (r, s') ← overview_pool table (times p.contract) p s
    (rows, s'') ← overview_pools table times rest s'
    ok (add_row r rows, s'')

  -- `OverviewPoolsByContract`. `GetPool` gives no error, but may give no pool.
  unfoldable pub overview_pools_by_contract :
      StatTable → ℕ × ℕ → Registry → Text → Api → Outcome (Result Text PoolOverview × Api)
  unfolding read_volume
  overview_pools_by_contract table (now, later) r contract s =
      elim (lookup contract s.globals.curr_reserves) [
        | none ↦ ok (error (codes "key not exist. " ++ contract), s)
        | some curr ↦ do
          (vol, g) ← read_volume now contract s.globals
          utc0 ← deref (lookup contract g.utc0_reserves)
          let stat = stat_pool_volumes table later contract s.pool_stats
          p ← deref (get_pool r contract)
          ok (
            value (overview contract p.token0 p.token1 curr vol utc0 (last_stat stat.0)),
            record { globals = g; pool_stats = stat.1 },
          )
      ]
