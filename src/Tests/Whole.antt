-- ===== src/Tests/Whole.antt =====
-- The service as a whole, at concrete inputs.
use mathlib.Core.List.{Memᴰ}
use ibswap_api.Common.{
  ℕ, ◌≡◌, refl, none, [], ◌∷◌, if◌then◌else◌, ◌^◌, some, true, sym, subst, inl, inr, All, List,
}
use ibswap_api.Common.Int.{pos, ℤ, negsuc}
use ibswap_api.Common.Eq.{codes, text_eq_instance, text_eq, Text}
use ibswap_api.Common.Dict.{lookup, insert}
use ibswap_api.Common.Outcome.{ok, value, panic}
use ibswap_api.Registry
use ibswap_api.Registry.{Coin, get_pools, init_coins_and_pools, new_pool, add_coin, get_coin}
use ibswap_api.Stats.Ticks.{Arrival, new_reserves}
use ibswap_api.Stats.Discovery.{Found, from_factory, add_coin_of}
use ibswap_api.Stats.Discovery.Calls.{enter, perform}
use ibswap_api.Stats.Discovery.Pending.{AllKept-InHand}
use ibswap_api.Router.Handling.{state_of, handle}
use ibswap_api.Router.Replies.{IsReady}
use ibswap_api.System.{
  works, listens, work_step, listen_step, Service, ticks, finds, step, find_step, counts, Event,
}
use ibswap_api.System.Sound.{Reach, start, next, reachable-Sound, step-Sound}
use ibswap_api.System.Tasks.{Sound, IsOwn}
use ibswap_api.Tests.Running.{setup, to_overview, site, fresh-IsReady, moment}
use ibswap_api.Stats.Ticks.Reserved.{SameReserves}
use ibswap_api.System.Between.{counts_between_panics}
use ibswap_api.System.Isolated.{IsElsewhere, Run, idle, goes_on, run-isolated}
use ibswap_api.Stats.Ticks.Description.{OfPool, At, own_arrivals}
use ibswap_api.Stats.Window.{new_volumes}
use ibswap_api.Stats.Start.{init_pool_stat_real}
use ibswap_api.Router
use ibswap_api.Router.{Context, all_tickers, text, token_form, Setup}
use ibswap_api.Router.Stopped.{with_coin, add_token_stops_tickers}
use ibswap_api.Handlers.{message, params_error, token_numbers}
use ibswap_api.Handlers.Adding.{coin_of}
use ibswap_api.Common.Decimal.{set_string}
use ibswap_api.Chain.Types.{int64}

abbrev service : Service ℕ
service = record { site = site; watchers = []; pre_day = 1; todo = [] }

-- The factory tells of a pool, and then its watcher of a trade.
abbrev created : Found
created =
    from_factory none
      (λ t. record {
        bind_error = none;
        decimals = value 18;
        symbol = value (codes "T");
        insert_error = none;
      })
      (record {
        contract = codes "0xp";
        token0 = codes "0xa";
        token1 = codes "0xb";
        fee_rate = pos 500;
        tick_spacing = pos 10;
      })

abbrev traded : Arrival
traded = record {
  now = 90000;
  later = 90000;
  stat = record {
    address = codes "0xp";
    tx = codes "0x1";
    reserve0 = pos 5;
    reserve1 = pos 5;
    volume0 = pos 1;
    volume1 = pos 0;
    tick = pos 10;
    ts = 90000;
  };
}

abbrev entered : Service ℕ
entered = find_step setup to_overview created service

abbrev opened : Service ℕ
opened =
    work_step setup to_overview (work_step setup to_overview (work_step setup to_overview entered))

-- Its watcher listens.
abbrev with_pool : Service ℕ
with_pool = record opened {
  todo = [];
  watchers =
      record {
        pools = codes "0xp" ∷ [];
        pre_reserve0 = pos 0;
        pre_reserve1 = pos 0;
        is_listening = true;
      }
      ∷ [];
}

opened-with_pool : step setup to_overview (listens 0 none) opened ≡ ok with_pool
unfolding step listen_step work_step find_step enter perform Registry.add_new_pool
opened-with_pool = refl

traded-IsOwn : IsOwn setup to_overview 0 traded with_pool
traded-IsOwn = (_, refl, refl, Memᴰ.head refl)

to_with_pool : Reach setup to_overview service (ok with_pool)
unfolding step work_step find_step enter perform Registry.add_new_pool
to_with_pool = subst (Reach setup to_overview service) opened-with_pool (
    next (listens 0 none)
      (next works (next works (next works (next (finds created) start tt) tt) tt) refl) refl)

service-Sound : Sound service
service-Sound = record {
  in_hand = AllKept-InHand (state_of site) fresh-IsReady.0 fresh-IsReady.1;
  watched = tt;
}

reachable-Sound_example :
    (s : Service ℕ) × (step setup to_overview (ticks 0 traded) with_pool ≡ ok s) × Sound s
reachable-Sound_example =
    reachable-Sound setup to_overview service (step setup to_overview (ticks 0 traded) with_pool)
      service-Sound (next (ticks 0 traded) to_with_pool traded-IsOwn)

with_pool-Sound : Sound with_pool
with_pool-Sound =
    let (s, e, h) =
      reachable-Sound setup to_overview service (ok with_pool) service-Sound to_with_pool in
    subst Sound (sym (ok_eq e)) h
  where
    ok_eq : {A : Type 0} {x y : A} → ok x ≡ ok y → x ≡ y
    ok_eq e = cc e

with_pool-IsReady : IsReady with_pool.site
with_pool-IsReady = (
  with_pool-Sound.in_hand.grounded,
  λ k p f. elim (with_pool-Sound.in_hand.kept k p f) [ inl i ↦ i | inr w ↦ absurd w ],
)

-- The new pool, as `GetPools` gives it before it has its statistics.
new_in_list :
    (p : Registry.Pool) × Memᴰ p (get_pools (pos 3) entered.site.registry).0
    × (p.contract ≡ codes "0xp")
unfolding find_step enter Registry.add_new_pool get_pools Registry.int8 init_coins_and_pools text_eq
    lookup insert
new_in_list = (_, Memᴰ.head refl, refl)

no_volumes : (k : Text) → lookup k service.site.globals.volumes_24h ≡ none
unfolding lookup
no_volumes k = refl

counts_between_panics_example :
    (step setup to_overview (finds created) service ≡ ok entered)
    × (step setup to_overview (counts 180000 (λ k n. value [])) entered ≡ panic)
counts_between_panics_example =
    counts_between_panics setup to_overview created 180000 (λ k n. value []) service new_in_list.0
      refl new_in_list.1 (no_volumes new_in_list.0.contract) refl

abbrev fresh_pool : OfPool
fresh_pool = record { utc0 = new_reserves; curr = new_reserves; volumes = new_volumes }

abbrev other_created : Found
other_created =
    from_factory none
      (λ t. record {
        bind_error = some (codes "no contract");
        decimals = value 18;
        symbol = value (codes "T");
        insert_error = none;
      })
      (record {
        contract = codes "0xq";
        token0 = codes "0xa";
        token1 = codes "0xb";
        fee_rate = pos 3000;
        tick_spacing = pos 60;
      })

abbrev run_events : List Event
run_events = ticks 0 traded ∷ finds other_created ∷ []

-- The tick of the pool, and then a message of another one.
traded_and_found : (s : Service ℕ) × Run setup to_overview run_events with_pool s
traded_and_found =
    let (s1, e, h) =
      step-Sound setup to_overview (ticks 0 traded) with_pool traded-IsOwn with_pool-Sound in
    let (s2, f, i) = step-Sound setup to_overview (finds other_created) s1 tt h in
    (s2, goes_on traded-IsOwn e (goes_on tt f idle))

with_pool-At : At (codes "0xp") with_pool.site.globals fresh_pool
unfolding find_step work_step enter perform add_coin_of lookup Registry.add_new_pool
    init_pool_stat_real insert text_eq
with_pool-At = record { utc0_found = refl; curr_found = refl; volumes_found = refl }

elsewhere : All (IsElsewhere (codes "0xp")) run_events
unfolding text_eq
elsewhere = (tt, (refl, tt))

run-isolated_example :
    (q : OfPool) × At (codes "0xp") traded_and_found.0.site.globals q
    × SameReserves (own_arrivals (codes "0xp") (traded ∷ []) fresh_pool) q
run-isolated_example =
    run-isolated setup to_overview run_events with_pool traded_and_found.0 (codes "0xp") fresh_pool
      with_pool-Sound traded_and_found.1 elsewhere (λ w. w) with_pool-At

-- A form for a coin of contract 0xa, with -1 decimals.
abbrev zero_form : Context
zero_form = record {
  query = λ k. [];
  post_form = λ k.
      if text_eq k (codes "decimal")
      then codes "-1"
      else if text_eq k (codes "contract")
      then codes "0xa"
      else codes "1";
  param = λ k. [];
}

abbrev powers : ℤ → ℤ
powers (pos n) = pos (10 ^ n)
powers (negsuc n) = pos 0

abbrev powers_setup : Setup ℕ
powers_setup = record setup { formats = record setup.formats { pow10_int64 = powers } }

abbrev zero_coin : Coin
zero_coin = coin_of (token_form zero_form) (negsuc 0, pos 1, pos 1)

zero_numbers : token_numbers (token_form zero_form) ≡ some (negsuc 0, pos 1, pos 1)
unfolding token_numbers set_string text_eq int64
zero_numbers = refl

traded_pool :
    (p : Registry.Pool) × Memᴰ p (get_pools (pos 3) (add_coin zero_coin with_pool.site.registry)).0
    × (p.token0 ≡ codes "0xa")
    × ((c : Coin) × (get_coin (add_coin zero_coin with_pool.site.registry) p.token1 ≡ some c))
unfolding find_step work_step enter perform Registry.add_new_pool get_pools add_coin add_coin_of
    get_coin Registry.get_coins Registry.int8 init_coins_and_pools Registry.add_token text_eq lookup
    insert
traded_pool = (_, Memᴰ.head refl, refl, (_, refl))

add_token_stops_tickers_example :
    (handle powers_setup moment zero_form Router.add_token with_pool.site
      ≡ ok (text (message params_error), with_coin zero_coin with_pool.site, []))
    × (handle powers_setup moment zero_form all_tickers (with_coin zero_coin with_pool.site)
        ≡ panic)
unfolding text_eq
add_token_stops_tickers_example =
    add_token_stops_tickers powers_setup moment moment zero_form zero_form with_pool.site
      (negsuc 0, pos 1, pos 1) traded_pool.0 traded_pool.3.0 with_pool-IsReady refl zero_numbers
      refl refl traded_pool.1 traded_pool.2 traded_pool.3.1
