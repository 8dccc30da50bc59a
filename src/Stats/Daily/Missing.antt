-- ===== src/Stats/Daily/Missing.antt =====
-- service/api.go: a V3 pool without volumes ends `countVolumes` on a new day.
use mathlib.Core.List.{Memᴰ}
use ibswap_api.Common.{
  ℕ, ◌≡◌, refl, sym, subst, ◌∙◌, ◌/◌, ◌==◌, inl, inr, false, none, List, [], ◌∷◌, Bool-cases,
  Option-cases,
}
use ibswap_api.Common.Int.{pos, ◌-ℤ◌}
use ibswap_api.Common.Eq.{Text, text_eq, text_eq_iff, text_eq_instance}
use ibswap_api.Common.Dict.{lookup, lookup-insert}
use ibswap_api.Common.Outcome.{
  panic, deref, Yields, Yields-bind, Yields-then, Yields-result, Yields-panic,
}
use ibswap_api.Registry
use ibswap_api.Storage.{get_n_days_volumes}
use ibswap_api.Stats.Ticks.{Globals}
use ibswap_api.Stats.Overview.{read_volume}
use ibswap_api.Stats.Daily.{DayTable, count_pool, count_pools, Tick, count_tick}

-- There are no volumes of the pool.
abbrev pub HasNone : Text → Globals → Type 0
HasNone k g = lookup k g.volumes_24h ≡ none

module _ (k : Text) (table : DayTable) (day now : ℕ) where
  read_volume-HasNone :
      (c : Text) (g : Globals) → HasNone k g → Yields (λ x. HasNone k x.1) (read_volume now c g)
  unfolding read_volume
  read_volume-HasNone c g h = elim (Option-cases (lookup c g.volumes_24h)) [
    | inl e ↦ rw (e, read_volume) tt
    | inr (v, e) ↦ elim (Bool-cases (text_eq k c)) [
      | inl same ↦ absurd (cc (e, h, (text_eq_iff k c).0 same))
      | inr other ↦ rw (e, read_volume) (lookup-insert k c _ g.volumes_24h ∙ rw other h)
    ]
  ]

  count_pool-HasNone :
      (p : Registry.Pool) (g : Globals)
      → HasNone k g
      → Yields (λ x. HasNone k x.1) (count_pool table day now p g)
  unfolding count_pool
  count_pool-HasNone p g h =
      Yields-then _ _ (read_volume now p.contract g) _ (read_volume-HasNone p.contract g h) (λ x i.
        Yields-result _ (get_n_days_volumes (table p.contract (pos day -ℤ pos 7))) _ _
          (λ week. Yields-bind _ (deref (lookup p.contract x.1.curr_reserves)) _ (λ c. i)) (λ m. i))

  count_pool-panic :
      (p : Registry.Pool) (g : Globals)
      → p.contract ≡ k
      → HasNone k g
      → count_pool table day now p g ≡ panic
  unfolding count_pool read_volume
  count_pool-panic p g e h =
      rw (count_pool, read_volume, (subst (λ j. lookup j g.volumes_24h ≡ none) (sym e) h)) refl

  pub count_pools-panic :
      (p : Registry.Pool) (ps : List Registry.Pool) (g : Globals)
      → Memᴰ p ps
      → p.contract ≡ k
      → HasNone k g
      → count_pools table day now ps g ≡ panic
  unfolding count_pools
  count_pools-panic p [] g m e h = elim m [ ]
  count_pools-panic p (x ∷ ps) g (Memᴰ.head same) e h =
      let stops : count_pool table day now x g ≡ panic =
        subst (λ y. count_pool table day now y g ≡ panic) same (count_pool-panic p g e h) in
      rw (count_pools, stops) refl
  count_pools-panic p (x ∷ ps) g (Memᴰ.tail m) e h =
      Yields-panic (λ y. HasNone k y.1) (count_pool table day now x g) _ (count_pool-HasNone x g h)
        (λ y i. rw (count_pools-panic p ps y.1 m e i) refl)

pub count_tick-panic :
    (t : Tick) (pre : ℕ) (g : Globals) (p : Registry.Pool)
    → (t.now / 86400 == pre) ≡ false
    → Memᴰ p t.pools
    → HasNone p.contract g
    → count_tick t (pre, g) ≡ panic
unfolding count_tick
count_tick-panic t pre g p new m h =
    rw
      (
        new,
        count_tick,
        count_pools-panic p.contract t.table (t.now / 86400) t.now p t.pools g m refl h,
      )
      refl
