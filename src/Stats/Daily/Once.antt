-- ===== src/Stats/Daily/Once.antt =====
-- `countVolumes` of service/api.go stores the statistics of a day once.
use ibswap_api.Common.{
  ℕ, ◌/◌, ◌≤◌, ◌<◌, ◌==◌, ==_iff, ◌≡◌, refl, sym, ap, subst, inl, inr, false, List, [], ◌∷◌, ◌++◌,
  arith, if◌then◌else◌, All, All-weaken, map, Bool-cases,
}
use ibswap_api.Common.Int.{pos, ◌-ℤ◌}
use ibswap_api.Common.Eq.{Text, text_eq_instance}
use ibswap_api.Common.Outcome.{ok, value, error, Result-cases}
use ibswap_api.Registry
use ibswap_api.Storage.{get_n_days_volumes}
use ibswap_api.Stats.Ticks.{Globals}
use ibswap_api.Stats.Ticks.Description.{IsKept}
use ibswap_api.Stats.Overview.Rows.{reread, reread-IsKept, read_volume-At}
use ibswap_api.Stats.Daily.{
  StoredStat, DayTable, count_pool, count_pools, Tick, count_tick, count_volumes,
}

-- The pools whose volumes of the last days can be read.
abbrev pub readable : DayTable → ℕ → List Registry.Pool → List Text
readable table day [] = []
readable table day (p ∷ ps) = elim (get_n_days_volumes (table p.contract (pos day -ℤ pos 7))) [
  | error m ↦ readable table day ps
  | value week ↦ p.contract ∷ readable table day ps
]

abbrev pub day : Tick → ℕ
day t = t.now / 86400

-- The days of the ticks do not go back.
abbrev pub InOrder : ℕ → List Tick → Type 0
InOrder pre [] = Unit
InOrder pre (t ∷ ts) = (pre ≤ day t) × InOrder (day t) ts

-- What each tick stores: on a new day, which is later than `pre`, a row of the day before for each
-- pool that can be read, and otherwise nothing.
abbrev pub IsOnce : ℕ → List Tick → List (List StoredStat) → Type 0
IsOnce pre [] [] = Unit
IsOnce pre [] (ss ∷ rest) = ⊥
IsOnce pre (t ∷ ts) [] = ⊥
IsOnce pre (t ∷ ts) (ss ∷ rest) =
    (map (λ r. r.contract) ss ≡ (if day t == pre then [] else readable t.table (day t) t.pools))
    × All (λ r. (pre < day t) × (r.id ≡ pos (day t) -ℤ pos 1)) ss
    × IsOnce (day t) ts rest

-- The pools of each tick have their statistics.
abbrev pub AllHeld : Globals → List Tick → Type 0
AllHeld g ts = All (λ t. All (λ p. IsKept g p.contract) t.pools) ts

map-append :
    (xs ys : List StoredStat)
    → map (λ r. r.contract) (xs ++ ys) ≡ map (λ r. r.contract) xs ++ map (λ r. r.contract) ys
map-append [] ys = refl
map-append (x ∷ xs) ys = ap (◌∷◌ x.contract) (map-append xs ys)

pub count_pools-ok :
    (table : DayTable) (d now : ℕ) (pools : List Registry.Pool) (g : Globals)
    → All (λ p. IsKept g p.contract) pools
    → (ss : List StoredStat) × (g' : Globals) × (count_pools table d now pools g ≡ ok (ss, g'))
      × (map (λ r. r.contract) ss ≡ readable table d pools)
      × All (λ r. r.id ≡ pos d -ℤ pos 1) ss
      × ((k : Text) → IsKept g k → IsKept g' k)
unfolding count_pools
count_pools-ok table d now [] g h = ([], g, refl, refl, tt, λ k i. i)
count_pools-ok table d now (p ∷ rest) g ((q, h), hs) =
    let g1 = reread now p.contract q g in
    let up = λ (k : Text). λ (i : IsKept g k). reread-IsKept now p.contract k q g i in
    let (ss, g2, e, c, a, u) =
      count_pools-ok table d now rest g1 (All-weaken rest (λ x i. up x.contract i) hs) in
    elim (Result-cases (get_n_days_volumes (table p.contract (pos d -ℤ pos 7)))) [
      | inl (m, f) ↦
          rw (count_pool, read_volume-At now p.contract q g h, f, e, readable)
            (ss, g2, refl, c, a, λ k i. u k (up k i))
      | inr (week, f) ↦
          rw (count_pool, read_volume-At now p.contract q g h, f, h.curr_found, e, readable)
            (_, g2, refl, ap (◌∷◌ p.contract) c, (refl, a), λ k i. u k (up k i))
    ]

later : (a b : ℕ) → (a == b) ≡ false → b ≤ a → b < a
later a b e h = ground arith

-- When the days do not go back and the pools of every tick have their statistics, `countVolumes` does
-- not panic. It stores nothing on a tick of the day of the tick before; on the first tick of a later
-- day, for each pool of the tick whose volumes of the last seven days can be read, one row, with the
-- number of the day before, in the order of the pools.
pub count_volumes-IsOnce :
    (ticks : List Tick) (pre : ℕ) (g : Globals)
    → InOrder pre ticks
    → AllHeld g ticks
    → (passes : List (List StoredStat)) × (s : ℕ × Globals) × (count_volumes ticks (pre, g)
        ≡ ok (passes, s))
      × IsOnce pre ticks passes
unfolding count_volumes
count_volumes-IsOnce [] pre g o h = ([], (pre, g), refl, tt)
count_volumes-IsOnce (t ∷ ts) pre g o h = elim (Bool-cases (day t == pre)) [
  | inl same ↦
      let at_pre = (==_iff (day t) pre).0 same in
      let (passes, s, e, r) =
        count_volumes-IsOnce ts pre g (subst (λ d. InOrder d ts) at_pre o.1) h.1 in
      rw (count_tick, same, e)
        ([] ∷ passes, s, refl, (rw same refl, tt, subst (λ d. IsOnce d ts passes) (sym at_pre) r))
  | inr new ↦
      let (ss, g', e, c, a, u) = count_pools-ok t.table (day t) t.now t.pools g h.0 in
      let (passes, s, f, r) =
        count_volumes-IsOnce ts (day t) g' o.1
          (All-weaken ts (λ x i. All-weaken x.pools (λ p k. u p.contract k) i) h.1) in
      rw (count_tick, new, e, f)
        (
          ss ∷ passes,
          s,
          refl,
          (rw new c, All-weaken ss (λ x i. (later (day t) pre new o.0, i)) a, r),
        )
]
