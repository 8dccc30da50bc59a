-- ===== src/Stats/Ticks.antt =====
-- service/types.go: `Reserves` and the maps of the package; service/task.go: `dealTickV3`, which
-- keeps them from what a watcher of pools sends. A nil entry that is used is a panic.
pub mod Description
pub mod Passage
pub mod Own
pub mod Reserved
pub mod Stores
use ibswap_api.Common.{
  ℕ, ◌/◌, ◌≡◌, Bool, Option, none, some, List, [], ◌∷◌, ◌&&◌, ◌||◌, if◌then◌else◌, not,
}
use ibswap_api.Common.Int.{ℤ, pos, ltb_ℤ, eqb_ℤ}
use ibswap_api.Common.Eq.{Text, text_eq_instance}
use ibswap_api.Common.Dict.{Dict, lookup, insert}
use ibswap_api.Common.Outcome.{Outcome, ok, panic, ◌>>=◌, deref}
use ibswap_api.Common.Decimal.{int_string}
use ibswap_api.Chain.Types.{PoolStat}
use ibswap_api.Stats.Window.{Volume, Volumes, append}

pub record Reserves : Type 0 where
  pub day : ℤ
  pub reserve0 : ℤ
  pub reserve1 : ℤ
  pub tick : ℤ

abbrev pub default_tick : ℤ
default_tick = pos 999999999

-- `NewReserves`
unfoldable pub new_reserves : Reserves
new_reserves = record { day = pos 0; reserve0 = pos 0; reserve1 = pos 0; tick = default_tick }

-- `set`
unfoldable pub set_reserves : ℤ → ℤ → ℤ → Reserves → Reserves
set_reserves r0 r1 t r = record r { reserve0 = r0; reserve1 = r1; tick = t }

-- `utc0Reserves`, `currReserves` and `volumes24H`
pub record Globals : Type 0 where
  pub utc0_reserves : Dict Text Reserves
  pub curr_reserves : Dict Text Reserves
  pub volumes_24h : Dict Text Volumes

-- The arguments of `StorePoolVolume`.
pub record StoredVolume : Type 0 where
  pub tx : Text
  pub contract : Text
  pub tick : ℤ
  pub r0 : Text
  pub r1 : Text
  pub v0 : Text
  pub v1 : Text

-- The state of a loop of `dealTickV3`: the maps, and its `preReserve0` and `preReserve1`.
pub record Loop : Type 0 where
  pub globals : Globals
  pub pre_reserve0 : ℤ
  pub pre_reserve1 : ℤ

-- The time when the day is read, the later time when a trade is appended, and the tick.
pub record Arrival : Type 0 where
  pub now : ℕ
  pub later : ℕ
  pub stat : PoolStat

abbrev pub is_zero : ℤ → Bool
is_zero a = eqb_ℤ a (pos 0)

abbrev pub is_positive : ℤ → Bool
is_positive a = ltb_ℤ (pos 0) a

-- A tick without a trade keeps the tick that the pool has.
unfoldable pub tick_of : Globals → PoolStat → Outcome ℤ
tick_of g s =
    if is_zero s.volume0 && is_zero s.volume1
    then (do r ← deref (lookup s.address g.curr_reserves); ok r.tick)
    else ok s.tick

-- "set current reserves"
unfoldable pub set_current : PoolStat → ℤ → Loop → Outcome Loop
unfolding set_reserves
set_current s t l = if is_zero s.reserve0 then ok l else do
  r ← deref (lookup s.address l.globals.curr_reserves)
  ok (record {
    globals = record l.globals {
      curr_reserves =
          insert s.address (set_reserves s.reserve0 s.reserve1 t r) l.globals.curr_reserves;
    };
    pre_reserve0 = s.reserve0;
    pre_reserve1 = s.reserve1;
  })

-- "update utc0 reserves": the first tick of a day copies the current reserves.
unfoldable pub set_utc0 : ℕ → Text → Globals → Outcome Globals
unfolding set_reserves
set_utc0 now key g = do
  u ← deref (lookup key g.utc0_reserves)
  let curr_day = pos (now / 86400)
  if eqb_ℤ u.day curr_day then ok g else do
    c ← deref (lookup key g.curr_reserves)
    ok (record g {
      utc0_reserves =
          insert key (record (set_reserves c.reserve0 c.reserve1 c.tick u) { day = curr_day })
            g.utc0_reserves;
    })

-- "set 24H volumes"
unfoldable pub add_volume : ℕ → PoolStat → Globals → Outcome Globals
add_volume later s g =
    if is_positive s.volume0 || is_positive s.volume1
    then (do
      v ← deref (lookup s.address g.volumes_24h)
      ok (record g {
        volumes_24h =
            insert s.address
              (append later (record { amount0 = s.volume0; amount1 = s.volume1; ts = pos s.ts }) v)
              g.volumes_24h;
      }))
    else ok g

-- The body of the loop of `dealTickV3` for a tick.
unfoldable pub deal_tick : Arrival → Loop → Outcome (Loop × StoredVolume)
unfolding tick_of set_current set_utc0 add_volume
deal_tick a l = do
  t ← tick_of l.globals a.stat
  l' ← set_current a.stat t l
  g ← set_utc0 a.now a.stat.address l'.globals
  g' ← add_volume a.later a.stat g
  ok (
    record l' { globals = g' },
    record {
      tx = a.stat.tx;
      contract = a.stat.address;
      tick = t;
      r0 = int_string l'.pre_reserve0;
      r1 = int_string l'.pre_reserve1;
      v0 = int_string a.stat.volume0;
      v1 = int_string a.stat.volume1;
    },
  )

unfoldable pub deal_ticks : List Arrival → Loop → Outcome (Loop × List StoredVolume)
unfolding deal_tick
deal_ticks [] l = ok (l, [])
deal_ticks (a ∷ rest) l = do
  (l', s) ← deal_tick a l
  (l'', ss) ← deal_ticks rest l'
  ok (l'', s ∷ ss)
