-- ===== src/Stats/Daily/Calm.antt =====
-- What `countVolumes` of service/api.go leaves of the maps of the statistics.
use ibswap_api.Common.{◌≡◌, refl, All, ℕ, ◌/◌, ◌==◌, inl, inr, List, [], ◌∷◌, Bool-cases}
use ibswap_api.Common.Int.{pos, ◌-ℤ◌}
use ibswap_api.Common.Eq.{text_eq_instance}
use ibswap_api.Common.Dict.{lookup}
use ibswap_api.Common.Outcome.{ok, deref, Yields, Yields-bind, Yields-then, Yields-result}
use ibswap_api.Registry
use ibswap_api.Storage.{get_n_days_volumes}
use ibswap_api.Stats.Ticks.{Globals}
use ibswap_api.Stats.Overview.{read_volume}
use ibswap_api.Stats.Overview.Calm.{Calm, Calm-refl, Calm-trans, read_volume-Calm}
use ibswap_api.Stats.Ticks.Description.{IsKept}
use ibswap_api.Stats.Daily.Once.{count_pools-ok}
use ibswap_api.Stats.Daily.{StoredStat, DayTable, count_pool, count_pools, Tick, count_tick}

count_pool-Calm :
    (table : DayTable) (d now : ℕ) (p : Registry.Pool) (g : Globals)
    → Yields (λ x. Calm g x.1) (count_pool table d now p g)
unfolding count_pool
count_pool-Calm table d now p g =
    Yields-then _ _ (read_volume now p.contract g) _ (read_volume-Calm now p.contract g) (λ x h.
      Yields-result _ (get_n_days_volumes (table p.contract (pos d -ℤ pos 7))) _ _
        (λ week. Yields-bind _ (deref (lookup p.contract x.1.curr_reserves)) _ (λ c. h)) (λ m. h))

count_pools-Calm :
    (table : DayTable) (d now : ℕ) (ps : List Registry.Pool) (g : Globals)
    → Yields (λ x. Calm g x.1) (count_pools table d now ps g)
unfolding count_pools
count_pools-Calm table d now [] g = Calm-refl g
count_pools-Calm table d now (p ∷ ps) g =
    Yields-then _ _ (count_pool table d now p g) _ (count_pool-Calm table d now p g) (λ x h.
      Yields-then _ _ (count_pools table d now ps x.1) _ (count_pools-Calm table d now ps x.1)
        (λ y i. Calm-trans g x.1 y.1 h i))

pub count_tick-Calm :
    (t : Tick) (pre : ℕ) (g : Globals) → Yields (λ x. Calm g x.1.1) (count_tick t (pre, g))
unfolding count_tick
count_tick-Calm t pre g = elim (Bool-cases (t.now / 86400 == pre)) [
  | inl e ↦ rw (e, count_tick) (Calm-refl g)
  | inr e ↦
      rw (e, count_tick)
        (Yields-then _ _ (count_pools t.table (t.now / 86400) t.now t.pools g) _
          (count_pools-Calm t.table (t.now / 86400) t.now t.pools g) (λ x h. h))
]

pub count_tick-ok :
    (t : Tick) (pre : ℕ) (g : Globals)
    → All (λ p. IsKept g p.contract) t.pools
    → (x : List StoredStat × (ℕ × Globals)) × (count_tick t (pre, g) ≡ ok x)
unfolding count_tick
count_tick-ok t pre g h = elim (Bool-cases (t.now / 86400 == pre)) [
  | inl e ↦ (([], (pre, g)), rw (e, count_tick) refl)
  | inr e ↦
      let (ss, g', f, _, _, _) = count_pools-ok t.table (t.now / 86400) t.now t.pools g h in
      ((ss, (t.now / 86400, g')), rw (e, count_tick, f) refl)
]
