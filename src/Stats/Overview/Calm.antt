-- ===== src/Stats/Overview/Calm.antt =====
-- What the overviews of service/api.go leave of the maps of the statistics, whatever these hold.
use ibswap_api.Common.{ℕ, ◌≡◌, refl, ◌∙◌, inl, inr, List, [], ◌∷◌, Option-cases}
use ibswap_api.Common.Int.{ℤ}
use ibswap_api.Common.Eq.{Text, text_eq_instance}
use ibswap_api.Common.Dict.{lookup}
use ibswap_api.Common.Outcome.{deref, Yields, Yields-bind, Yields-then}
use ibswap_api.Registry
use ibswap_api.Registry.{Registry, get_pool}
use ibswap_api.Stats.Ticks.{Globals, new_reserves}
use ibswap_api.Stats.Ticks.Description.{IsKept}
use ibswap_api.Stats.Overview.{
  Api, StatTable, read_volume, overview_pool, overview_pools, overview_pools_by_contract,
}
use ibswap_api.Stats.Overview.Rows.{reread-IsKept}

-- What was kept of a pool is kept, and the reserves are the same.
pub record Calm (g g' : Globals) : Type 0 where
  pub kept : (k : Text) → IsKept g k → IsKept g' k
  pub curr : g'.curr_reserves ≡ g.curr_reserves
  pub utc0 : g'.utc0_reserves ≡ g.utc0_reserves

pub Calm-refl : (g : Globals) → Calm g g
Calm-refl g = record { kept = λ k h. h; curr = refl; utc0 = refl }

pub Calm-trans : (g g' g'' : Globals) → Calm g g' → Calm g' g'' → Calm g g''
Calm-trans g g' g'' a b = record {
  kept = λ k h. b.kept k (a.kept k h);
  curr = b.curr ∙ a.curr;
  utc0 = b.utc0 ∙ a.utc0;
}

-- `Calm` of the maps next to what a call gives.
abbrev pub CalmApi : {A : Type 0} → Globals → A × Api → Type 0
CalmApi g x = Calm g x.1.globals

pub read_volume-Calm :
    (now : ℕ) (key : Text) (g : Globals) → Yields (λ x. Calm g x.1) (read_volume now key g)
unfolding read_volume
read_volume-Calm now key g = Yields-bind _ (deref (lookup key g.volumes_24h)) _ (λ v. record {
  kept = λ k.
      reread-IsKept now key k (record { utc0 = new_reserves; curr = new_reserves; volumes = v }) g;
  curr = refl;
  utc0 = refl;
})

module _ (stat_days : ℤ) (table : StatTable) where
  overview_pool-Calm :
      (t : ℕ × ℕ) (p : Registry.Pool) (s : Api)
      → Yields (CalmApi s.globals) (overview_pool stat_days table t p s)
  unfolding overview_pool
  overview_pool-Calm t p s = elim (Option-cases (lookup p.contract s.globals.curr_reserves)) [
    | inl e ↦ rw (e, overview_pool) (Calm-refl s.globals)
    | inr (c, e) ↦
        rw (e, overview_pool)
          (Yields-then _ (CalmApi s.globals) (read_volume t.0 p.contract s.globals) _
            (read_volume-Calm t.0 p.contract s.globals)
            (λ x h. Yields-bind _ (deref (lookup p.contract x.1.utc0_reserves)) _ (λ u. h)))
  ]

  pub overview_pools-Calm :
      (times : Text → ℕ × ℕ) (ps : List Registry.Pool) (s : Api)
      → Yields (CalmApi s.globals) (overview_pools stat_days table times ps s)
  unfolding overview_pools
  overview_pools-Calm times [] s = Calm-refl s.globals
  overview_pools-Calm times (p ∷ ps) s =
      Yields-then _ (CalmApi s.globals) (overview_pool stat_days table (times p.contract) p s) _
        (overview_pool-Calm (times p.contract) p s)
        (λ x h.
          Yields-then _ (CalmApi s.globals) (overview_pools stat_days table times ps x.1) _
            (overview_pools-Calm times ps x.1) (λ y i. Calm-trans _ _ _ h i))

  pub overview_pools_by_contract-Calm :
      (t : ℕ × ℕ) (r : Registry) (k : Text) (s : Api)
      → Yields (CalmApi s.globals) (overview_pools_by_contract stat_days table t r k s)
  unfolding overview_pools_by_contract
  overview_pools_by_contract-Calm t r k s = elim (Option-cases (lookup k s.globals.curr_reserves)) [
    | inl e ↦ rw (e, overview_pools_by_contract) (Calm-refl s.globals)
    | inr (c, e) ↦
        rw (e, overview_pools_by_contract)
          (Yields-then _ (CalmApi s.globals) (read_volume t.0 k s.globals) _
            (read_volume-Calm t.0 k s.globals)
            (λ x h.
              Yields-bind _ (deref (lookup k x.1.utc0_reserves)) _
                (λ u. Yields-bind _ (deref (get_pool r k)) _ (λ p. h))))
  ]
