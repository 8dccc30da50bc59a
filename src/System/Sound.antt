-- ===== src/System/Sound.antt =====
-- What the steps of the service keep, whatever their order.
use mathlib.Core.List.{append-nil}
use ibswap_api.Common.{
  ℕ, Bool, true, false, if◌then◌else◌, ◌/◌, ◌==◌, ◌≡◌, refl, sym, ap, subst, ◌∙◌, inl, inr, some,
  [], ◌++◌, All-weaken, none, ◌⊎◌,
}
use ibswap_api.Common.Int.{pos}
use ibswap_api.Common.Eq.{Text, text_eq_instance}
use ibswap_api.Common.Outcome.{Outcome, ok, Yields, Returns}
use ibswap_api.Registry.{Registry, get_pools}
use ibswap_api.Registry.Listing.{get_pools-HasKey}
use ibswap_api.Registry.Steady.{Steady, Steady-refl, get_pools-Steady}
use ibswap_api.Stats.Overview.Calm.{Calm}
use ibswap_api.Stats.Daily.{DayTable, Tick, count_tick}
use ibswap_api.Stats.Daily.Calm.{count_tick-Calm, count_tick-ok}
use ibswap_api.Router.{Setup, Moment, Request, Gin}
use ibswap_api.Router.Handling.{serve}
use ibswap_api.Router.Replies.{CanServe, asks_tickers, serve-Returns}
use ibswap_api.Router.Quiet.{Quiet, serve-Quiet}
use ibswap_api.Stats.Discovery.Pending.{IsPending}
use ibswap_api.System.{
  works, listens, work_step, Service, Event, ticks, finds, requests, counts, new_watchers,
  find_step, request_step, count_step, step,
}
use ibswap_api.System.Tasks.{
  Sound, Calm-Sound, IsOwn, OpensPrinted, tick_step-Sound, listen_step-Sound, found-Sound,
  worked-Sound,
}

module _ {W : Type 0} (u : Setup W) (gin : Gin) where
  -- A request for `Tickers` finds no coin whose power of 10 is 0, and what serves the request starts no
  -- watcher: only `AddPool` starts one, without statistics.
  abbrev pub IsServable : Moment → Request → Service W → Type 0
  IsServable m q s =
      CanServe u (asks_tickers gin q) s.site × Yields (λ x. x.2 ≡ []) (serve u gin m q s.site)

  pub request_step-Sound :
      (m : Moment) (q : Request) (s : Service W)
      → IsServable m q s
      → Sound s
      → (s' : Service W) × (request_step u gin m q s ≡ ok s')
        × Sound s'
        × Calm s.site.globals s'.site.globals
        × (s'.todo ≡ s.todo)
  unfolding request_step
  request_step-Sound m q s (n, none_started) h =
      let ((r, site, es), e) =
        serve-Returns u gin m q s.site (h.in_hand.grounded, h.in_hand.held) n in
      let quiet = subst (Yields (λ x. x.2 ≡ [])) e none_started in
      let (steady, calm) = subst (Yields (Quiet s.site)) e (serve-Quiet u gin m q s.site) quiet in
      rw (e, request_step)
        (
          _,
          refl,
          Calm-Sound s _ steady calm
              (ap (λ x. s.watchers ++ new_watchers u gin x) quiet ∙ append-nil s.watchers) refl h,
          calm,
          refl,
        )

  -- On a new day, no pool is still to get its statistics.
  abbrev pub IsCountable : ℕ → Service W → Type 0
  IsCountable now s = ((now / 86400 == s.pre_day) ≡ true) ⊎ ((k : Text) → IsPending k s.todo → ⊥)

  countable-ok :
      (now : ℕ) (table : DayTable) (s : Service W)
      → IsCountable now s
      → Sound s
      → Returns (
          count_tick
            (record { now = now; pools = (get_pools (pos 3) s.site.registry).0; table = table })
            (s.pre_day, s.site.globals))
  unfolding count_tick
  countable-ok now table s (inl same) h = rw (same, count_tick) (_, refl)
  countable-ok now table s (inr settled) h =
      let r = s.site.registry in
      let ps = (get_pools (pos 3) r).0 in
      count_tick-ok (record { now = now; pools = ps; table = table }) s.pre_day s.site.globals
        (All-weaken ps
          (λ p (i, e). elim (h.in_hand.kept p.contract i e) [
            | inl kept ↦ kept
            | inr w ↦ absurd (settled p.contract w)
          ])
          (get_pools-HasKey r h.in_hand.grounded.listed))

  pub count_step-Sound :
      (now : ℕ) (table : DayTable) (s : Service W)
      → IsCountable now s
      → Sound s
      → (s' : Service W) × (count_step u gin now table s ≡ ok s')
        × Sound s'
        × Calm s.site.globals s'.site.globals
        × (s'.todo ≡ s.todo)
  unfolding count_step
  count_step-Sound now table s w h =
      let r = s.site.registry in
      let g = s.site.globals in
      let t : Tick = record { now = now; pools = (get_pools (pos 3) r).0; table = table } in
      let (x, e) = countable-ok now table s w h in
      let calm = subst (Yields (λ y. Calm g y.1.1)) e (count_tick-Calm t s.pre_day g) in
      rw (e, count_step)
        (
          _,
          refl,
          Calm-Sound s _ (either_steady (now / 86400 == s.pre_day) r _ (get_pools-Steady (pos 3) r))
              calm refl refl h,
          calm,
          refl,
        )
    where
      either_steady : (b : Bool) (r r' : Registry) → Steady r r' → Steady r (if b then r else r')
      either_steady true r r' h = Steady-refl r
      either_steady false r r' h = h

  -- What the other goroutines, the chain and gin are taken to do, for one event.
  abbrev pub IsAllowed : Event → Service W → Type 0
  IsAllowed (ticks i a) s = IsOwn u gin i a s
  IsAllowed (finds m) s = Unit
  IsAllowed works s = OpensPrinted u gin s.todo
  IsAllowed (listens i fault) s = fault ≡ none
  IsAllowed (requests m q) s = IsServable m q s
  IsAllowed (counts now table) s = IsCountable now s

  pub step-Sound :
      (e : Event) (s : Service W)
      → IsAllowed e s
      → Sound s
      → (s' : Service W) × (step u gin e s ≡ ok s') × Sound s'
  unfolding step
  step-Sound (ticks i a) s w h = tick_step-Sound u gin i a s w h
  step-Sound (finds m) s w h = (find_step u gin m s, refl, found-Sound u gin m s s.todo refl h)
  step-Sound works s w h = (work_step u gin s, refl, worked-Sound u gin s s.todo refl w h)
  step-Sound (listens i (some m)) s w h = absurd (cc w)
  step-Sound (listens i none) s w h =
      let (s', e, sound, _, _) = listen_step-Sound u gin i s h in (s', e, sound)
  step-Sound (requests m q) s w h =
      let (s', e, i, _, _) = request_step-Sound m q s w h in (s', e, i)
  step-Sound (counts now table) s w h =
      let (s', e, i, _, _) = count_step-Sound now table s w h in (s', e, i)

  -- The outcomes that the service can come to, by events that are allowed when they come.
  pub data Reach (s : Service W) : Outcome (Service W) → Type 0 where
    start : Reach s (ok s)
    next :
        {s' : Service W} (e : Event) → Reach s (ok s') → IsAllowed e s' → Reach s (step u gin e s')

  -- From a sound state, no sequence of allowed steps, in any order, ends in a panic, of a goroutine or of
  -- a handler, and each step leads to a sound state again. A step is atomic. Allowed are a tick of a
  -- watcher for one of its own pools, once it listens; the start of its listening, when no error comes of
  -- it; for a message to the task of NFTs or of the factory, when the message before is dealt with, all
  -- up to `AddPool`, and then, as steps of their own, each `addCoin`, each call of the database, and
  -- `initPoolStatReal` with `StartPool`, for a pool whose address is written as `Hex` writes it; a
  -- request that starts no watcher, one for `Tickers` only when no coin of the registry then has decimals
  -- of which the power of 10 is 0 as an int64; and a tick of `countVolumes`, on a new day only when no
  -- pool is between its `AddPool` and its `initPoolStatReal`.
  pub reachable-Sound :
      (s : Service W) (o : Outcome (Service W))
      → Sound s
      → Reach s o
      → (s' : Service W) × (o ≡ ok s') × Sound s'
  reachable-Sound s o h start = (s, refl, h)
  reachable-Sound s o h (next e r w) =
      let (s1, f, i) = reachable-Sound s _ h r in step-Sound e _ w (subst Sound (sym (cc f)) i)
