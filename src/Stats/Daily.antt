-- ===== src/Stats/Daily.antt =====
-- service/api.go: `countVolumes`, which stores the statistics of each day once.
pub mod Once
pub mod Calm
pub mod Missing
use ibswap_api.Common.{ℕ, ◌/◌, ◌==◌, Bool, true, false, Option, List, [], ◌∷◌, ◌++◌, if◌then◌else◌}
use ibswap_api.Common.Int.{ℤ, pos, ◌+ℤ◌, ◌-ℤ◌}
use ibswap_api.Common.Eq.{Text, text_eq_instance}
use ibswap_api.Common.Dict.{lookup}
use ibswap_api.Common.Decimal.{int_string}
use ibswap_api.Common.Outcome.{Outcome, ok, panic, ◌>>=◌, deref, Result, value, error}
use ibswap_api.Registry
use ibswap_api.Storage
use ibswap_api.Storage.{get_n_days_volumes}
use ibswap_api.Stats.Ticks.{Globals}
use ibswap_api.Stats.Overview.{read_volume}

-- The arguments of `StorePoolStatistic`.
pub record StoredStat : Type 0 where
  pub id : ℤ
  pub contract : Text
  pub tick : ℤ
  pub r0 : Text
  pub r1 : Text
  pub v01d : Text
  pub v11d : Text
  pub v07d : Text
  pub v17d : Text

-- What the query of `GetNDaysVolumes` is answered for a contract and a first day.
abbrev pub DayTable : Type 0
DayTable = Text → ℤ → Storage.Rows (Text × Text)

-- A passage of the inner loop: nothing is stored when the volumes of the last days cannot be read.
unfoldable pub count_pool :
    DayTable → ℕ → ℕ → Registry.Pool → Globals → Outcome (List StoredStat × Globals)
count_pool table day now p g = do
  (vol, g') ← read_volume now p.contract g
  elim (get_n_days_volumes (table p.contract (pos day -ℤ pos 7))) [
    | error m ↦ ok ([], g')
    | value week ↦ do
      curr ← deref (lookup p.contract g'.curr_reserves)
      ok (
        record {
          id = pos day -ℤ pos 1;
          contract = p.contract;
          tick = curr.tick;
          r0 = int_string curr.reserve0;
          r1 = int_string curr.reserve1;
          v01d = int_string vol.amount0;
          v11d = int_string vol.amount1;
          v07d = int_string (week.0 +ℤ vol.amount0);
          v17d = int_string (week.1 +ℤ vol.amount1);
        }
            ∷ [],
        g',
      )
  ]

unfoldable pub count_pools :
    DayTable → ℕ → ℕ → List Registry.Pool → Globals → Outcome (List StoredStat × Globals)
unfolding count_pool
count_pools table day now [] g = ok ([], g)
count_pools table day now (p ∷ rest) g = do
  (s, g') ← count_pool table day now p g
  (ss, g'') ← count_pools table day now rest g'
  ok (s ++ ss, g'')

-- A tick of the ticker: its time, the pools that `GetPools` gives, and the database as it is then. The
-- volumes are taken at the time of the tick.
pub record Tick : Type 0 where
  pub now : ℕ
  pub pools : List Registry.Pool
  pub table : DayTable

-- A passage of the loop of `countVolumes`, with `preDay` before and after.
unfoldable pub count_tick : Tick → ℕ × Globals → Outcome (List StoredStat × (ℕ × Globals))
unfolding count_pools
count_tick t (pre_day, g) =
    let day = t.now / 86400 in
    if day == pre_day
    then ok ([], (pre_day, g))
    else do (ss, g') ← count_pools t.table day t.now t.pools g; ok (ss, (day, g'))

-- `countVolumes`, over the ticks that it has had: what each of them stores.
unfoldable pub count_volumes :
    List Tick → ℕ × Globals → Outcome (List (List StoredStat) × (ℕ × Globals))
unfolding count_tick
count_volumes [] s = ok ([], s)
count_volumes (t ∷ ts) s = do
  (ss, s') ← count_tick t s
  (rest, s'') ← count_volumes ts s'
  ok (ss ∷ rest, s'')
