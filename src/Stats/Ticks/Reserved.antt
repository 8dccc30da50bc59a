-- ===== src/Stats/Ticks/Reserved.antt =====
-- service/task.go: a tick makes the same of the same reserves, whatever trades are kept of the pool.
use ibswap_api.Common.{ℕ, ◌≡◌, refl, sym, subst, ◌∙◌, inl, inr, ◌||◌, ◌/◌, Bool-cases}
use ibswap_api.Common.Eq.{text_eq_instance}
use ibswap_api.Chain.Types.{PoolStat}
use ibswap_api.Stats.Window.{Volumes}
use ibswap_api.Common.Int.{pos, eqb_ℤ}
use ibswap_api.Stats.Ticks.{Reserves, Arrival, is_zero, is_positive}
use ibswap_api.Stats.Ticks.Description.{OfPool, own_current, own_utc0, own_volume, own_arrival}

-- The reserves of a pool are the same, those at the start of the day too.
pub record SameReserves (q q' : OfPool) : Type 0 where
  pub curr : q'.curr ≡ q.curr
  pub utc0 : q'.utc0 ≡ q.utc0

pub SameReserves-refl : (q : OfPool) → SameReserves q q
SameReserves-refl q = record { curr = refl; utc0 = refl }

pub SameReserves-trans : (p q r : OfPool) → SameReserves p q → SameReserves q r → SameReserves p r
SameReserves-trans p q r a b = record { curr = b.curr ∙ a.curr; utc0 = b.utc0 ∙ a.utc0 }

SameReserves-sym : (p q : OfPool) → SameReserves p q → SameReserves q p
SameReserves-sym p q a = record { curr = sym a.curr; utc0 = sym a.utc0 }

own_volume-SameReserves :
    (later : ℕ) (s : PoolStat) (p : OfPool) → SameReserves p (own_volume later s p)
own_volume-SameReserves later s p =
    elim (Bool-cases (is_positive s.volume0 || is_positive s.volume1)) [
      | inl e ↦ rw e (record { curr = refl; utc0 = refl })
      | inr e ↦ rw e (record { curr = refl; utc0 = refl })
    ]

-- The trades that are kept make no difference to the reserves.
revalued :
    (a : Arrival) (u c : Reserves) (v v' : Volumes)
    → SameReserves
        (own_utc0 a.now (own_current a.stat (record { utc0 = u; curr = c; volumes = v })))
        (own_utc0 a.now (own_current a.stat (record { utc0 = u; curr = c; volumes = v' })))
revalued a u c v v' = elim (Bool-cases (is_zero a.stat.reserve0)) [
  | inl z ↦ elim (Bool-cases (eqb_ℤ u.day (pos (a.now / 86400)))) [
    | inl d ↦ rw (z, d) (record { curr = refl; utc0 = refl })
    | inr d ↦ rw (z, d) (record { curr = refl; utc0 = refl })
  ]
  | inr z ↦ elim (Bool-cases (eqb_ℤ u.day (pos (a.now / 86400)))) [
    | inl d ↦ rw (z, d) (record { curr = refl; utc0 = refl })
    | inr d ↦ rw (z, d) (record { curr = refl; utc0 = refl })
  ]
]

pub own_arrival-SameReserves :
    (a : Arrival) (q q' : OfPool)
    → SameReserves q q'
    → SameReserves (own_arrival a q) (own_arrival a q')
own_arrival-SameReserves a q q' h =
    let before = λ (p : OfPool). own_utc0 a.now (own_current a.stat p) in
    let reserved : SameReserves (before q) (before q') =
      subst (λ u. SameReserves (before q) (before (record q' { utc0 = u }))) (sym h.utc0)
        (subst
          (λ c.
            SameReserves (before q)
              (before (record { utc0 = q.utc0; curr = c; volumes = q'.volumes })))
          (sym h.curr) (revalued a q.utc0 q.curr q.volumes q'.volumes)) in
    SameReserves-trans _ (before q) _
      (SameReserves-sym (before q) _ (own_volume-SameReserves a.later a.stat (before q)))
      (SameReserves-trans (before q) (before q') _ reserved
        (own_volume-SameReserves a.later a.stat (before q')))
