-- ===== src/System/Between.antt =====
-- What is between the calls of the task that finds pools: a new pool that has no statistics yet.
use mathlib.Core.List.{Memᴰ}
use ibswap_api.Common.{ℕ, ◌≡◌, refl, ◌/◌, ◌==◌, false, none, [], ap, ◌∙◌}
use ibswap_api.Common.Int.{pos}
use ibswap_api.Common.Eq.{text_eq_instance}
use ibswap_api.Common.Dict.{lookup}
use ibswap_api.Common.Outcome.{ok, panic}
use ibswap_api.Registry
use ibswap_api.Registry.{get_pools}
use ibswap_api.Stats.Ticks.{Globals}
use ibswap_api.Stats.Daily.{DayTable, Tick}
use ibswap_api.Stats.Daily.Missing.{count_tick-panic}
use ibswap_api.Stats.Discovery.{Found}
use ibswap_api.Stats.Discovery.Others.{enter_lem}
use ibswap_api.Router.{Setup, Gin}
use ibswap_api.Router.Handling.{state_of}
use ibswap_api.System.{Service, finds, counts, find_step, count_step, step}

module _ {W : Type 0} (u : Setup W) (gin : Gin) where
  count_step-panic :
      (now : ℕ) (table : DayTable) (s : Service W) (p : Registry.Pool)
      → (now / 86400 == s.pre_day) ≡ false
      → Memᴰ p (get_pools (pos 3) s.site.registry).0
      → lookup p.contract s.site.globals.volumes_24h ≡ none
      → count_step u gin now table s ≡ panic
  unfolding count_step
  count_step-panic now table s p new m h =
      let t : Tick = record {
        now = now;
        pools = (get_pools (pos 3) s.site.registry).0;
        table = table;
      } in
      rw (count_tick-panic t s.pre_day s.site.globals p new m h, count_step) refl

  found-globals :
      (m : Found) (s : Service W)
      → s.todo ≡ []
      → ((find_step u gin m s).site.globals ≡ s.site.globals)
        × ((find_step u gin m s).pre_day ≡ s.pre_day)
  unfolding find_step
  found-globals m s e =
      rw (e, find_step) (enter_lem u.crypto.hex_to_address m (state_of s.site), refl)

  -- When a message comes to a task that finds pools, and `GetPools` then gives a V3 pool of which there
  -- are no volumes yet (`AddPool` has entered it, `initPoolStatReal` is still to come), the message's
  -- first step ends well, and a tick of `countVolumes` that comes next and finds a new day ends in a
  -- panic of its goroutine.
  pub counts_between_panics :
      (m : Found) (now : ℕ) (table : DayTable) (s : Service W) (p : Registry.Pool)
      → s.todo ≡ []
      → Memᴰ p (get_pools (pos 3) (find_step u gin m s).site.registry).0
      → lookup p.contract s.site.globals.volumes_24h ≡ none
      → (now / 86400 == s.pre_day) ≡ false
      → (step u gin (finds m) s ≡ ok (find_step u gin m s))
        × (step u gin (counts now table) (find_step u gin m s) ≡ panic)
  unfolding step
  counts_between_panics m now table s p idle on missing new =
      let (same, day) = found-globals m s idle in
      (
        refl,
        count_step-panic now table (find_step u gin m s) p (ap (λ d. now / 86400 == d) day ∙ new) on
            (ap (λ (g : Globals). lookup p.contract g.volumes_24h) same ∙ missing),
      )
