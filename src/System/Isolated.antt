-- ===== src/System/Isolated.antt =====
-- What the service keeps of one pool, whatever else goes on in it.
use ibswap_api.Common.{
  ℕ, some, ◌≡◌, refl, sym, ap, subst, ◌∙◌, inl, inr, false, List, [], ◌∷◌, if◌then◌else◌, All,
  Bool-cases, All-get_elem?, All-Memᴰ, none,
}
use ibswap_api.Common.Eq.{Text, text_eq, text_eq_instance}
use ibswap_api.Common.Dict.{lookup}
use ibswap_api.Stats.Overview.Calm.{Calm}
use ibswap_api.Common.Outcome.{ok}
use ibswap_api.Stats.Ticks.{Arrival, Loop}
use ibswap_api.Stats.Ticks.Description.{OfPool, At, own_arrival, own_arrivals, IsKept}
use ibswap_api.Stats.Discovery.Grounded.{pool_of}
use ibswap_api.Router.{Setup, Gin}
use ibswap_api.Router.Handling.{state_of}
use ibswap_api.Stats.Discovery.{Found}
use ibswap_api.Stats.Ticks.Passage.{deal_tick_lem}
use ibswap_api.Stats.Ticks.Own.{arrival-At}
use ibswap_api.Stats.Discovery.Calls.{TaskCall}
use ibswap_api.Stats.Discovery.Pending.{IsPending}
use ibswap_api.Stats.Discovery.Others.{enter-others, perform-others}
use ibswap_api.System.Sound.{IsAllowed, step-Sound, request_step-Sound, count_step-Sound}
use ibswap_api.System.Tasks.{listen_step-Sound, Sound, IsOwn, IsWatched}
use ibswap_api.System.{
  works, listens, work_step, Service, Event, ticks, finds, requests, counts, tick_step, find_step,
  step,
}
use ibswap_api.Stats.Ticks.Reserved.{
  SameReserves, SameReserves-refl, SameReserves-trans, own_arrival-SameReserves,
}

-- The ticks among events.
abbrev pub ticks_in : List Event → List Arrival
ticks_in [] = []
ticks_in (ticks i a ∷ es) = a ∷ ticks_in es
ticks_in (finds m ∷ es) = ticks_in es
ticks_in (works ∷ es) = ticks_in es
ticks_in (listens i f ∷ es) = ticks_in es
ticks_in (requests m q ∷ es) = ticks_in es
ticks_in (counts now table ∷ es) = ticks_in es

-- An event is not the discovery of this pool.
abbrev pub IsElsewhere : Text → Event → Type 0
IsElsewhere k (finds m) = text_eq k (pool_of m) ≡ false
IsElsewhere k (ticks i a) = Unit
IsElsewhere k works = Unit
IsElsewhere k (listens i f) = Unit
IsElsewhere k (requests m q) = Unit
IsElsewhere k (counts now table) = Unit

-- What an event is to a pool.
abbrev pub own_event : Text → Event → OfPool → OfPool
own_event k (ticks i a) q = if text_eq k a.stat.address then own_arrival a q else q
own_event k (finds m) q = q
own_event k works q = q
own_event k (listens i f) q = q
own_event k (requests m r) q = q
own_event k (counts now table) q = q

own_event-SameReserves :
    (k : Text) (e : Event) (q q' : OfPool)
    → SameReserves q q'
    → SameReserves (own_event k e q) (own_event k e q')
own_event-SameReserves k (ticks i a) q q' h = elim (Bool-cases (text_eq k a.stat.address)) [
  | inl e ↦ rw e (own_arrival-SameReserves a q q' h)
  | inr e ↦ rw e h
]
own_event-SameReserves k (finds m) q q' h = h
own_event-SameReserves k works q q' h = h
own_event-SameReserves k (listens i f) q q' h = h
own_event-SameReserves k (requests m r) q q' h = h
own_event-SameReserves k (counts now table) q q' h = h

abbrev pub own_events : Text → List Event → OfPool → OfPool
own_events k [] q = q
own_events k (e ∷ es) q = own_events k es (own_event k e q)

own_events-SameReserves :
    (k : Text) (es : List Event) (q q' : OfPool)
    → SameReserves q q'
    → SameReserves (own_events k es q) (own_events k es q')
own_events-SameReserves k [] q q' h = h
own_events-SameReserves k (e ∷ es) q q' h =
    own_events-SameReserves k es _ _ (own_event-SameReserves k e q q' h)

own_events-own_arrivals :
    (k : Text) (es : List Event) (q : OfPool) → own_events k es q ≡ own_arrivals k (ticks_in es) q
own_events-own_arrivals k [] q = refl
own_events-own_arrivals k (ticks i a ∷ es) q = own_events-own_arrivals k es _
own_events-own_arrivals k (finds m ∷ es) q = own_events-own_arrivals k es q
own_events-own_arrivals k (works ∷ es) q = own_events-own_arrivals k es q
own_events-own_arrivals k (listens i f ∷ es) q = own_events-own_arrivals k es q
own_events-own_arrivals k (requests m r ∷ es) q = own_events-own_arrivals k es q
own_events-own_arrivals k (counts now table ∷ es) q = own_events-own_arrivals k es q

module _ {W : Type 0} (u : Setup W) (gin : Gin) where
  -- A run: events that are allowed when they come, and the service after them.
  pub data Run : List Event → Service W → Service W → Type 0 where
    idle : {s : Service W} → Run [] s s
    goes_on :
        {e : Event} {es : List Event} {s s1 s2 : Service W}
        → IsAllowed u gin e s
        → step u gin e s ≡ ok s1
        → Run es s1 s2
        → Run (e ∷ es) s s2

  -- What is kept of a pool after a step: it is still not about to be opened.
  abbrev Keeps : Text → OfPool → Service W → Type 0
  Keeps k q s =
      (q' : OfPool) × At k s.site.globals q' × SameReserves q q' × (IsPending k s.todo → ⊥)

  Calm-Keeps :
      (k : Text) (q : OfPool) (s s' : Service W)
      → Calm s.site.globals s'.site.globals
      → s'.todo ≡ s.todo
      → (IsPending k s.todo → ⊥)
      → At k s.site.globals q
      → Keeps k q s'
  Calm-Keeps k q s s' c e n at =
      let (q', at') = c.kept k (q, at) in
      (
        q',
        at',
        record {
          curr = found_same (sym at'.curr_found ∙ ap (lookup k) c.curr ∙ at.curr_found);
          utc0 = found_same (sym at'.utc0_found ∙ ap (lookup k) c.utc0 ∙ at.utc0_found);
        },
        subst (λ x. IsPending k x → ⊥) (sym e) n,
      )
    where
      found_same : {A : Type 0} {a b : A} → some a ≡ some b → a ≡ b
      found_same e = cc e

  tick_step-Keeps :
      (i : ℕ) (a : Arrival) (s : Service W) (k : Text) (q : OfPool)
      → Sound s
      → IsOwn u gin i a s
      → (IsPending k s.todo → ⊥)
      → At k s.site.globals q
      → (s1 : Service W) × (tick_step u gin i a s ≡ ok s1) × Keeps k (own_event k (ticks i a) q) s1
  unfolding tick_step
  tick_step-Keeps i a s k q h (w, e, on, m) n at =
      let own = All-get_elem? (IsWatched s.site.globals) s.watchers i w h.watched e in
      let (p, there) = All-Memᴰ (IsKept s.site.globals) w.pools m own in
      let l : Loop = record {
        globals = s.site.globals;
        pre_reserve0 = w.pre_reserve0;
        pre_reserve1 = w.pre_reserve1;
      } in
      let (l', v, f, b, _, _, _, _, _, _) = deal_tick_lem a l p there in
      rw (e, tick_step, on, f)
        (
          _,
          refl,
          (
            if text_eq k a.stat.address then own_arrival a q else q,
            arrival-At k p q s.site.globals l'.globals a there b at,
            SameReserves-refl (if text_eq k a.stat.address then own_arrival a q else q),
            n,
          ),
        )

  found-Keeps :
      (m : Found) (s : Service W) (k : Text) (q : OfPool) (cs : List TaskCall)
      → s.todo ≡ cs
      → text_eq k (pool_of m) ≡ false
      → (IsPending k s.todo → ⊥)
      → At k s.site.globals q
      → Keeps k q (find_step u gin m s)
  unfolding find_step
  found-Keeps m s k q (c ∷ cs) e away n at = rw (e, find_step) (q, at, SameReserves-refl q, n)
  found-Keeps m s k q [] e away n at =
      let (at', n') = enter-others u.crypto.hex_to_address m (state_of s.site) k q away at in
      rw (e, find_step) (q, at', SameReserves-refl q, n')

  worked-Keeps :
      (s : Service W) (k : Text) (q : OfPool) (cs : List TaskCall)
      → s.todo ≡ cs
      → (IsPending k s.todo → ⊥)
      → At k s.site.globals q
      → Keeps k q (work_step u gin s)
  unfolding work_step
  worked-Keeps s k q [] e n at = rw (e, work_step) (q, at, SameReserves-refl q, n)
  worked-Keeps s k q (c ∷ cs) e n at =
      let (at', n') =
        perform-others u.crypto.hex_to_address c cs (state_of s.site) k q
          (subst (λ x. IsPending k x → ⊥) e n) at in
      rw (e, work_step) (q, at', SameReserves-refl q, n')

  -- Each step, for a pool that it does not discover.
  step-Keeps :
      (e : Event) (s : Service W) (k : Text) (q : OfPool)
      → Sound s
      → IsAllowed u gin e s
      → IsElsewhere k e
      → (IsPending k s.todo → ⊥)
      → At k s.site.globals q
      → (s1 : Service W) × (step u gin e s ≡ ok s1) × Keeps k (own_event k e q) s1
  unfolding step
  step-Keeps (ticks i a) s k q h w away n at = tick_step-Keeps i a s k q h w n at
  step-Keeps (finds m) s k q h w away n at =
      (find_step u gin m s, refl, found-Keeps m s k q s.todo refl away n at)
  step-Keeps works s k q h w away n at =
      (work_step u gin s, refl, worked-Keeps s k q s.todo refl n at)
  step-Keeps (listens i (some m)) s k q h w away n at = absurd (cc w)
  step-Keeps (listens i none) s k q h w away n at =
      let (s', e, _, same, todo) = listen_step-Sound u gin i s h in
      (
        s',
        e,
        (
          q,
          subst (λ x. At k x.globals q) (sym same) at,
          SameReserves-refl q,
          subst (λ x. IsPending k x → ⊥) (sym todo) n,
        ),
      )
  step-Keeps (requests m r) s k q h w away n at =
      let (s', e, _, c, todo) = request_step-Sound u gin m r s w h in
      (s', e, Calm-Keeps k q s s' c todo n at)
  step-Keeps (counts now table) s k q h w away n at =
      let (s', e, _, c, todo) = count_step-Sound u gin now table s w h in
      (s', e, Calm-Keeps k q s s' c todo n at)

  run-own_events :
      (es : List Event) (s s' : Service W) (k : Text) (q : OfPool)
      → Sound s
      → Run es s s'
      → All (IsElsewhere k) es
      → (IsPending k s.todo → ⊥)
      → At k s.site.globals q
      → Keeps k (own_events k es q) s'
  run-own_events [] s s' k q h idle away n at = (q, at, SameReserves-refl q, n)
  run-own_events (e ∷ es) s s' k q h (goes_on {s1 = s1} w f r) (away, others) n at =
      let (s2, g, (q1, at1, same, n1)) = step-Keeps e s k q h w away n at in
      let (s3, g', sound) = step-Sound u gin e s w h in
      let i : ok s2 ≡ ok s1 = sym g ∙ f in
      let i' : ok s3 ≡ ok s1 = sym g' ∙ f in
      let there : At k s1.site.globals q1 = subst (λ x. At k x.site.globals q1) (ok_eq i) at1 in
      let n2 = subst (λ x. IsPending k x.todo → ⊥) (ok_eq i) n1 in
      let (q2, at2, same2, n3) =
        run-own_events es s1 s' k q1 (subst Sound (ok_eq i') sound) r others n2 there in
      (
        q2,
        at2,
        SameReserves-trans _ (own_events k es q1) q2
            (own_events-SameReserves k es (own_event k e q) q1 same) same2,
        n3,
      )
    where
      ok_eq : {A : Type 0} {x y : A} → ok x ≡ ok y → x ≡ y
      ok_eq e = cc e

  -- From a sound state, in which a pool is not between its `AddPool` and its `initPoolStatReal`, over a
  -- run of events that are allowed when they come (those of `reachable-Sound`), of which none is a
  -- message about this pool, the reserves that are kept of the pool, the current ones and those at the
  -- start of the day, are what its own ticks, in their order, make of what they were: the ticks and
  -- messages of other pools, the requests and the ticks of `countVolumes` make no difference.
  pub run-isolated :
      (es : List Event) (s s' : Service W) (k : Text) (q : OfPool)
      → Sound s
      → Run es s s'
      → All (IsElsewhere k) es
      → (IsPending k s.todo → ⊥)
      → At k s.site.globals q
      → (q' : OfPool) × At k s'.site.globals q' × SameReserves (own_arrivals k (ticks_in es) q) q'
  run-isolated es s s' k q h r away n at =
      let (q', at', same, _) = run-own_events es s s' k q h r away n at in
      (q', at', subst (λ x. SameReserves x q') (own_events-own_arrivals k es q) same)
