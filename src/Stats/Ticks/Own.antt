-- ===== src/Stats/Ticks/Own.antt =====
-- What `dealTickV3` of service/task.go keeps of one pool, against a description of that pool alone.
use ibswap_api.Common.{
  ◌≡◌, refl, sym, subst, inl, inr, true, false, List, [], ◌∷◌, if◌then◌else◌, All, Bool-cases,
  arith,
}
use ibswap_api.Common.Eq.{Text, text_eq, text_eq_iff, text_eq_instance}
use ibswap_api.Common.Outcome.{ok}
use ibswap_api.Stats.Ticks.{Globals, StoredVolume, Loop, Arrival, deal_ticks}
use ibswap_api.Stats.Ticks.Description.{OfPool, At, own_arrival, own_arrivals, IsKept}
use ibswap_api.Stats.Ticks.Passage.{Becomes, deal_tick_lem}

At-unique : (key : Text) (g : Globals) (p q : OfPool) → At key g p → At key g q → p ≡ q
At-unique key g p q h i =
    record_eq p q (cc (h.utc0_found, i.utc0_found)) (cc (h.curr_found, i.curr_found))
      (cc (h.volumes_found, i.volumes_found))
  where
    record_eq : (p q : OfPool) → p.utc0 ≡ q.utc0 → p.curr ≡ q.curr → p.volumes ≡ q.volumes → p ≡ q
    record_eq p q a b c = grind arith

-- A tick leaves what is kept of any pool, and moves that of its own pool by `own_arrival`.
pub arrival-At :
    (k : Text) (p q : OfPool) (g g' : Globals) (a : Arrival)
    → At a.stat.address g p
    → Becomes a.stat.address (own_arrival a p) g g'
    → At k g q
    → At k g' (if text_eq k a.stat.address then own_arrival a q else q)
arrival-At k p q g g' a i b h = elim (Bool-cases (text_eq k a.stat.address)) [
  | inl e ↦
      let s = (text_eq_iff k a.stat.address).0 e in
      let same = At-unique a.stat.address g p q i (subst (λ j. At j g q) s h) in
      rw e (
        subst (λ j. At j g' (own_arrival a q)) (sym s)
          (subst (λ r. At a.stat.address g' (own_arrival a r)) same b.here))
  | inr e ↦
      rw e (b.elsewhere k q (λ s. apart k a.stat.address e ((text_eq_iff k a.stat.address).1 s)) h)
]
  where
    apart : (j k : Text) → text_eq j k ≡ false → text_eq j k ≡ true → ⊥
    apart j k e f = cc (e, f)

pub IsKept-after :
    (ticks : List Arrival) (p : OfPool) (g g' : Globals) (a : Arrival)
    → At a.stat.address g p
    → Becomes a.stat.address (own_arrival a p) g g'
    → All (λ b. IsKept g b.stat.address) ticks
    → All (λ b. IsKept g' b.stat.address) ticks
IsKept-after [] p g g' a i b h = tt
IsKept-after (c ∷ cs) p g g' a i b h =
    ((_, arrival-At c.stat.address p h.0.0 g g' a i b h.0.1), IsKept-after cs p g g' a i b h.1)

-- A watcher's loop never panics on ticks whose pools are all initialised. It leaves of any
-- initialised pool what that pool's own ticks, in their order, make of what it had: the current
-- reserves, those at the start of the day, and the trades.
pub deal_ticks_own :
    (ticks : List Arrival) (l : Loop) (key : Text) (p : OfPool)
    → All (λ a. IsKept l.globals a.stat.address) ticks
    → At key l.globals p
    → (l' : Loop) × (ss : List StoredVolume) × (deal_ticks ticks l ≡ ok (l', ss))
      × At key l'.globals (own_arrivals key ticks p)
unfolding deal_ticks
deal_ticks_own [] l key p h i = (l, [], refl, i)
deal_ticks_own (a ∷ rest) l key p h i =
    let (l1, s, e, b, _, _, _, _, _, _) = deal_tick_lem a l h.0.0 h.0.1 in
    let g1 = l1.globals in
    let (l2, ss, f, j) =
      deal_ticks_own rest l1 key _ (IsKept-after rest h.0.0 l.globals g1 a h.0.1 b h.1)
        (arrival-At key h.0.0 p l.globals g1 a h.0.1 b i) in
    rw (e, f) (l2, s ∷ ss, refl, j)
