-- ===== src/Stats/Ticks/Stores.antt =====
-- The rows that `dealTickV3` of service/task.go stores.
use ibswap_api.Common.{◌≡◌, refl, List, [], ◌∷◌, All, map}
use ibswap_api.Common.Int.{ℤ}
use ibswap_api.Common.Eq.{Text}
use ibswap_api.Common.Decimal.{int_string}
use ibswap_api.Common.Outcome.{ok}
use ibswap_api.Stats.Ticks.{StoredVolume, Loop, Arrival, deal_ticks}
use ibswap_api.Stats.Ticks.Description.{IsKept, seen0, seen1}
use ibswap_api.Stats.Ticks.Passage.{deal_tick_lem}
use ibswap_api.Stats.Ticks.Own.{IsKept-after}

abbrev pub reserves_of : StoredVolume → Text × Text × Text
reserves_of s = (s.contract, s.r0, s.r1)

-- Each tick's pool with the last reserves that any tick of the sequence brought.
abbrev pub last_brought : ℤ → ℤ → List Arrival → List (Text × Text × Text)
last_brought r0 r1 [] = []
last_brought r0 r1 (a ∷ rest) =
    let s0 = seen0 a.stat r0 in
    let s1 = seen1 a.stat r1 in
    (a.stat.address, int_string s0, int_string s1) ∷ last_brought s0 s1 rest

-- For ticks whose pools are all initialised, a watcher's loop stores one row for each tick, in
-- their order, for the tick's pool. The reserves in it are those of the latest tick, of any pool of
-- the watcher, whose `Reserve0` is not 0; before the first of these, those that the loop had.
pub deal_ticks_stores :
    (ticks : List Arrival) (l : Loop)
    → All (λ a. IsKept l.globals a.stat.address) ticks
    → (l' : Loop) × (ss : List StoredVolume) × (deal_ticks ticks l ≡ ok (l', ss))
      × (map reserves_of ss ≡ last_brought l.pre_reserve0 l.pre_reserve1 ticks)
unfolding deal_ticks
deal_ticks_stores [] l h = (l, [], refl, refl)
deal_ticks_stores (a ∷ rest) l h =
    let (l1, s, e, b, c0, c1, d0, d1, d2, _) = deal_tick_lem a l h.0.0 h.0.1 in
    let (l2, ss, f, j) =
      deal_ticks_stores rest l1 (IsKept-after rest h.0.0 l.globals l1.globals a h.0.1 b h.1) in
    rw (e, f) (l2, s ∷ ss, refl, rw (d0, d1, d2, j, c0, c1) refl)
