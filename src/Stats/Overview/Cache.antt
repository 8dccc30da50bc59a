-- ===== src/Stats/Overview/Cache.antt =====
-- The cache of `StatPoolVolumes` (service/api.go) against the database's answers.
use ibswap_api.Common.{
  ℕ, ◌≡◌, refl, sym, ap, ◌∙◌, ◌⊎◌, inl, inr, true, false, none, some, List, [], ◌∷◌, Bool-cases,
  Option-cases,
}
use ibswap_api.Common.Int.{ℤ, pos, ◌-ℤ◌}
use ibswap_api.Common.Eq.{Text, text_eq_instance, eqb_ℤ_iff}
use ibswap_api.Common.Dict.{Dict, lookup, insert-cases}
use ibswap_api.Common.Outcome.{Result, value, Result-cases}
use ibswap_api.Storage.{DayStat, get_pool_statistic}
use ibswap_api.Stats.Overview.{StatTable, last, day_of, is_current, refresh, stat_pool_volumes}

-- A call of `StatPoolVolumes`: its time, its contract, and the database as it is then.
pub record Request : Type 0 where
  pub now : ℕ
  pub key : Text
  pub table : StatTable

is_current-last :
    (day : ℤ) (ps : List DayStat)
    → is_current day ps ≡ true
    → (s : DayStat) × (last ps ≡ some s) × (s.id ≡ day -ℤ pos 1)
unfolding is_current
is_current-last day ps h = elim (Option-cases (last ps)) [
  | inl e ↦ absurd (apart (sym (rw (e, is_current) refl) ∙ h))
  | inr (s, e) ↦ (s, e, (eqb_ℤ_iff s.id (day -ℤ pos 1)).0 (sym (rw (e, is_current) refl) ∙ h))
]
  where
    apart : false ≡ true → ⊥
    apart p = cc p

module _ (stat_days : ℤ) where
  -- What the database answers to the call, when it is asked.
  abbrev pub fresh : Request → Result Text (List DayStat)
  fresh q = get_pool_statistic (q.table q.key (day_of q.now -ℤ stat_days))

  abbrev pub served : Request → Dict Text (List DayStat) → Result Text (List DayStat)
  served q cache = (stat_pool_volumes stat_days q.table q.now q.key cache).0

  -- The cache after a sequence of calls, the newest first.
  pub cache_after : List Request → Dict Text (List DayStat)
  cache_after [] = []
  cache_after (q ∷ qs) = (stat_pool_volumes stat_days q.table q.now q.key (cache_after qs)).1

  -- One of the calls was for this contract, and the database answered it with these rows.
  pub data Given (key : Text) (ps : List DayStat) : List Request → Type 0 where
    this :
        {q : Request} {qs : List Request} → key ≡ q.key → fresh q ≡ value ps → Given key ps (q ∷ qs)
    earlier : {q : Request} {qs : List Request} → Given key ps qs → Given key ps (q ∷ qs)

  -- What a call leaves in the cache was there before, or is what it was answered.
  refresh-Given :
      (q : Request) (cache : Dict Text (List DayStat)) (k : Text) (ps : List DayStat)
      → lookup k (refresh stat_days q.table (day_of q.now) q.key cache).1 ≡ some ps
      → ((k ≡ q.key) × (fresh q ≡ value ps)) ⊎ (lookup k cache ≡ some ps)
  unfolding refresh
  refresh-Given q cache k ps h = elim (Result-cases (fresh q)) [
    | inl (m, e) ↦ inr (rw (e, refresh) at h)
    | inr (rows, e) ↦ elim (insert-cases k q.key rows ps cache (rw (e, refresh) at h)) [
      | inl (same, rest) ↦ inl (same, e ∙ ap value (sym rest))
      | inr (other, old) ↦ inr old
    ]
  ]

  stat_pool_volumes-Given :
      (q : Request) (cache : Dict Text (List DayStat)) (k : Text) (ps : List DayStat)
      → lookup k (stat_pool_volumes stat_days q.table q.now q.key cache).1 ≡ some ps
      → ((k ≡ q.key) × (fresh q ≡ value ps)) ⊎ (lookup k cache ≡ some ps)
  unfolding stat_pool_volumes
  stat_pool_volumes-Given q cache k ps h = elim (Option-cases (lookup q.key cache)) [
    | inl e ↦ refresh-Given q cache k ps (rw (e, stat_pool_volumes) at h)
    | inr (old, e) ↦ elim (Bool-cases (is_current (day_of q.now) old)) [
      | inl c ↦ inr (rw (e, stat_pool_volumes, c) at h)
      | inr c ↦ refresh-Given q cache k ps (rw (e, stat_pool_volumes, c) at h)
    ]
  ]

  cache_after-Given :
      (qs : List Request) (k : Text) (ps : List DayStat)
      → lookup k (cache_after qs) ≡ some ps
      → Given k ps qs
  unfolding cache_after lookup
  cache_after-Given [] k ps h = absurd (none_found h)
    where
      none_found : none ≡ some ps → ⊥
      none_found p = cc p
  cache_after-Given (q ∷ qs) k ps h = elim (stat_pool_volumes-Given q (cache_after qs) k ps h) [
    | inl (same, e) ↦ this same e
    | inr old ↦ earlier (cache_after-Given qs k ps old)
  ]

  refresh-fresh :
      (q : Request) (cache : Dict Text (List DayStat))
      → (refresh stat_days q.table (day_of q.now) q.key cache).0 ≡ fresh q
  unfolding refresh
  refresh-fresh q cache = elim (Result-cases (fresh q)) [
    | inl (m, e) ↦ rw (e, refresh) refl
    | inr (rows, e) ↦ rw (e, refresh) refl
  ]

  -- After any calls of `StatPoolVolumes`, a call gives what the database answers to it, or rows that
  -- the database gave to an earlier call for the same contract and of which the last is of yesterday.
  pub stat_pool_volumes_fresh :
      (qs : List Request) (q : Request)
      → (served q (cache_after qs) ≡ fresh q)
        ⊎ ((ps : List DayStat) × (s : DayStat) × (served q (cache_after qs) ≡ value ps)
            × Given q.key ps qs
            × (last ps ≡ some s)
            × (s.id ≡ day_of q.now -ℤ pos 1))
  unfolding stat_pool_volumes
  stat_pool_volumes_fresh qs q = elim (Option-cases (lookup q.key (cache_after qs))) [
    | inl e ↦ inl (rw (e, served, stat_pool_volumes) (refresh-fresh q (cache_after qs)))
    | inr (old, e) ↦ elim (Bool-cases (is_current (day_of q.now) old)) [
      | inr c ↦ inl (rw (e, served, stat_pool_volumes, c) (refresh-fresh q (cache_after qs)))
      | inl c ↦
          let (s, l, d) = is_current-last (day_of q.now) old c in
          inr (
            old,
            s,
            rw (e, served, stat_pool_volumes, c) refl,
            cache_after-Given qs q.key old e,
            l,
            d,
          )
    ]
  ]
