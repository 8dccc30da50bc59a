-- ===== src/System.antt =====
-- The whole service: the goroutines of service/task.go and service/api.go and the HTTP handlers, which
-- share the registry and the maps of the statistics. A step is a tick, a request, the start of a
-- watcher, or one call of the task that finds pools: `AddPool` with what comes before it, `addCoin`, or
-- `initPoolStatReal` with `StartPool`. What happens within a step is not interleaved with another.
pub mod Tasks
pub mod Sound
pub mod Starting
pub mod Isolated
pub mod Between
use ibswap_api.Common.{
  Bool, true, false, ℕ, ◌/◌, ◌==◌, Option, none, some, List, [], ◌∷◌, ◌++◌, if◌then◌else◌,
  get_elem?, set, map,
}
use ibswap_api.Common.Int.{ℤ, pos}
use ibswap_api.Common.Eq.{Text}
use ibswap_api.Common.Outcome.{Outcome, ok, panic, ◌>>=◌, Result}
use ibswap_api.Registry.{Coin, Pool, get_pools, init_coins_and_pools}
use ibswap_api.Stats.Start.{Batch, Answers, start}
use ibswap_api.Prices.{Prices}
use ibswap_api.Stats.Ticks.{Arrival, deal_tick}
use ibswap_api.Stats.Discovery.{Effect, deleted, moved, stored, started, Found}
use ibswap_api.Stats.Discovery.Calls.{TaskCall, enter, perform}
use ibswap_api.Stats.Daily.{DayTable, count_tick}
use ibswap_api.Router.{Setup, Moment, Request, Gin, Site}
use ibswap_api.Router.Handling.{state_of, put_state, serve}

-- A goroutine of `dealTickV3`: the addresses of its pools, as their ticks name them, its variables, and
-- whether its node listens yet.
pub record Watcher : Type 0 where
  pub pools : List Text
  pub pre_reserve0 : ℤ
  pub pre_reserve1 : ℤ
  pub is_listening : Bool

-- The service, with the goroutines that `StartPool` started, `preDay` of `countVolumes`, and the calls
-- that are left of the message that the task of NFTs is at.
pub record Service (W : Type 0) : Type 0 where
  pub site : Site W
  pub watchers : List Watcher
  pub pre_day : ℕ
  pub todo : List TaskCall

-- A tick for a watcher, a message to the task that finds pools, its next call, the start of a watcher
-- (with the error of `Dial`, of `NewERC20` or of the first `BlockNumber`, if there is one), a request, or
-- a tick of `countVolumes`.
pub data Event : Type 0 where
  ticks : ℕ → Arrival → Event
  finds : Found → Event
  works : Event
  listens : ℕ → Option Text → Event
  requests : Moment → Request → Event
  counts : ℕ → DayTable → Event

module _ {W : Type 0} (u : Setup W) (gin : Gin) where
  -- `StartPool`: a watcher names each pool by the `Hex` of its address.
  abbrev pub watcher_of : Batch → Watcher
  watcher_of b = record {
    pools = map (λ e. u.crypto.address_hex e.0) b;
    pre_reserve0 = pos 0;
    pre_reserve1 = pos 0;
    is_listening = false;
  }

  abbrev pub new_watchers : List Effect → List Watcher
  new_watchers [] = []
  new_watchers (started b ∷ es) = watcher_of b ∷ new_watchers es
  new_watchers (deleted i c ∷ es) = new_watchers es
  new_watchers (moved i c v ∷ es) = new_watchers es
  new_watchers (stored i c v p t0 t1 f ∷ es) = new_watchers es

  -- A tick of `dealTickV3`, for the watcher with this number.
  unfoldable pub tick_step : ℕ → Arrival → Service W → Outcome (Service W)
  tick_step i a s = elim (get_elem? s.watchers i) [
    | none ↦ ok s
    | some w ↦ elim w.is_listening [
      | false ↦ ok s
      | true ↦ do
        (l, stored_volume) ← deal_tick a (record {
          globals = s.site.globals;
          pre_reserve0 = w.pre_reserve0;
          pre_reserve1 = w.pre_reserve1;
        })
        ok (record s {
          site = record s.site { globals = l.globals };
          watchers =
              set s.watchers i
                (record w { pre_reserve0 = l.pre_reserve0; pre_reserve1 = l.pre_reserve1 });
        })
    ]
  ]

  -- `StartListenV3` in the goroutine of a watcher, up to its loop: it panics on an error.
  unfoldable pub listen_step : ℕ → Option Text → Service W → Outcome (Service W)
  listen_step i fault s = elim (get_elem? s.watchers i) [
    | none ↦ ok s
    | some w ↦ elim fault [
      | some m ↦ panic
      | none ↦ ok (record s { watchers = set s.watchers i (record w { is_listening = true }) })
    ]
  ]

  -- A message to `dealNft` or `dealFactory`, up to `AddPool`; none is taken before the last is dealt with.
  unfoldable pub find_step : Found → Service W → Service W
  find_step m s = elim s.todo [
    | [] ↦
        let (t, calls) = enter u.crypto.hex_to_address m (state_of s.site) in
        record s { site = put_state t s.site; todo = calls }
    | c ∷ cs ↦ s
  ]

  -- The next call of the message.
  unfoldable pub work_step : Service W → Service W
  work_step s = elim s.todo [
    | [] ↦ s
    | c ∷ cs ↦
        let (t, es) = perform u.crypto.hex_to_address c (state_of s.site) in
        record s { site = put_state t s.site; watchers = s.watchers ++ new_watchers es; todo = cs }
  ]

  unfoldable pub request_step : Moment → Request → Service W → Outcome (Service W)
  request_step m q s = do
    (response, site, es) ← serve u gin m q s.site
    ok (record s { site = site; watchers = s.watchers ++ new_watchers es })

  -- A tick of `countVolumes`; on the day of the tick before, it does not call `GetPools`.
  unfoldable pub count_step : ℕ → DayTable → Service W → Outcome (Service W)
  count_step now table s = do
    let (ps, r) = get_pools (pos 3) s.site.registry
    (rows, (day, g)) ←
        count_tick (record { now = now; pools = ps; table = table }) (s.pre_day, s.site.globals)
    ok (record s {
      site = record s.site {
        globals = g;
        registry = if now / 86400 == s.pre_day then s.site.registry else r;
      };
      pre_day = day;
    })

  unfoldable pub step : Event → Service W → Outcome (Service W)
  unfolding tick_step find_step work_step listen_step request_step count_step
  step (ticks i a) s = tick_step i a s
  step (finds m) s = ok (find_step m s)
  step works s = ok (work_step s)
  step (listens i fault) s = listen_step i fault s
  step (requests m q) s = request_step m q s
  step (counts now table) s = count_step now table s

  -- The registry from the database, and `start(3)` of `Start`: its V3 pools with their statistics, and a
  -- watcher for each batch of them, which is still to listen. What `start` leaves is taken before the
  -- first message of the task of NFTs, which `Start` has started.
  unfoldable pub launch :
      Result Text (List (Result Text Coin))
      → Result Text (List (Result Text Pool))
      → (Text → ℕ → ℕ)
      → (Text → Answers)
      → ℤ
      → Prices W
      → ℕ
      → Outcome (Service W)
  launch coins pools clock answers limit prices now = do
    let (ps, r) = get_pools (pos 3) (init_coins_and_pools coins pools)
    (g, batches) ← start u.crypto.hex_to_address clock answers limit ps
    ok (record {
      site = record { registry = r; globals = g; pool_stats = []; prices = prices };
      watchers = map watcher_of batches;
      pre_day = now / 86400;
      todo = [];
    })
