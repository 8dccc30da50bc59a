-- ===== src/Stats/Ticks/Description.antt =====
-- One pool, as `dealTickV3` of service/task.go ought to keep it: a description of that pool alone.
use ibswap_api.Common.{ℕ, ◌/◌, ◌≡◌, some, List, [], ◌∷◌, ◌&&◌, ◌||◌, if◌then◌else◌}
use ibswap_api.Common.Int.{ℤ, pos, eqb_ℤ}
use ibswap_api.Common.Eq.{Text, text_eq, text_eq_instance}
use ibswap_api.Common.Dict.{lookup}
use ibswap_api.Chain.Types.{PoolStat}
use ibswap_api.Stats.Window.{Volumes, append}
use ibswap_api.Stats.Ticks.{Reserves, set_reserves, Globals, Arrival, is_zero, is_positive}

-- What the three maps hold for one pool.
pub record OfPool : Type 0 where
  pub utc0 : Reserves
  pub curr : Reserves
  pub volumes : Volumes

pub record At (key : Text) (g : Globals) (p : OfPool) : Type 0 where
  pub utc0_found : lookup key g.utc0_reserves ≡ some p.utc0
  pub curr_found : lookup key g.curr_reserves ≡ some p.curr
  pub volumes_found : lookup key g.volumes_24h ≡ some p.volumes

abbrev pub own_tick : PoolStat → OfPool → ℤ
own_tick s p = if is_zero s.volume0 && is_zero s.volume1 then p.curr.tick else s.tick

abbrev pub own_current : PoolStat → OfPool → OfPool
own_current s p =
    if is_zero s.reserve0
    then p
    else record p { curr = set_reserves s.reserve0 s.reserve1 (own_tick s p) p.curr }

abbrev pub own_utc0 : ℕ → OfPool → OfPool
own_utc0 now p = if eqb_ℤ p.utc0.day (pos (now / 86400)) then p else record p {
  utc0 = record (set_reserves p.curr.reserve0 p.curr.reserve1 p.curr.tick p.utc0) {
    day = pos (now / 86400);
  };
}

abbrev pub own_volume : ℕ → PoolStat → OfPool → OfPool
own_volume later s p =
    if is_positive s.volume0 || is_positive s.volume1
    then record p {
      volumes =
          append later (record { amount0 = s.volume0; amount1 = s.volume1; ts = pos s.ts })
            p.volumes;
    }
    else p

-- A tick of the pool, and the ticks of a sequence that are the pool's.
abbrev pub own_arrival : Arrival → OfPool → OfPool
own_arrival a p = own_volume a.later a.stat (own_utc0 a.now (own_current a.stat p))

abbrev pub own_arrivals : Text → List Arrival → OfPool → OfPool
own_arrivals key [] p = p
own_arrivals key (a ∷ rest) p =
    own_arrivals key rest (if text_eq key a.stat.address then own_arrival a p else p)

-- The reserves that the loop has at hand after a tick, whichever pool it is of.
abbrev pub seen0 : PoolStat → ℤ → ℤ
seen0 s pre = if is_zero s.reserve0 then pre else s.reserve0

abbrev pub seen1 : PoolStat → ℤ → ℤ
seen1 s pre = if is_zero s.reserve0 then pre else s.reserve1

-- `initPoolStat` or `initPoolStatReal` has run for the pool.
abbrev pub IsKept : Globals → Text → Type 0
IsKept g key = (p : OfPool) × At key g p
