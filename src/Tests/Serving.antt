-- ===== src/Tests/Serving.antt =====
-- The daemon, the handlers and the rate limits at concrete inputs.
use ibswap_api.Common.{
  ℕ, ◌+◌, ◌≡◌, ◌≢◌, ◌⊎◌, ◌↔◌, refl, Bool, true, false, Option, none, some, List, [], ◌∷◌, ltb,
}
use ibswap_api.Common.Int.{ℤ, pos}
use ibswap_api.Common.Eq.{Text, codes, text_eq_instance}
use ibswap_api.Common.Dict.{lookup}
use ibswap_api.Common.Decimal.{set_string}
use ibswap_api.Common.Outcome.{ok, panic}
use ibswap_api.Access.{parse_int}
use ibswap_api.Registry.{Registry, new_pool, empty, get_coin}
use ibswap_api.Stats.Discovery.{State, watch}
use ibswap_api.Chain.Types.{int64}
use ibswap_api.Stats.Ticks.{Arrival, deal_tick}
use ibswap_api.Daemon.{failure, Daemon, Answer, background, exited, command, exits, breaks, run}
use ibswap_api.Daemon.Roles.{run_roles}
use ibswap_api.Daemon.Restarts.{Streak, run-Streak}
use ibswap_api.Handlers.{
  message, fine, params_error, parsed, TokenForm, token_numbers, add_token_handler, PoolForm,
  is_wrong, add_pool_handler,
}
use ibswap_api.Handlers.Adding.{coin_of, add_token_handler_inverted, add_pool_handler_panics}
use ibswap_api.Limits
use ibswap_api.Limits.{Rate, Event, requests, expires, new_ip_rate_limiter}
use ibswap_api.Limits.Own.{answers_to, alone, nothing, run-alone}

abbrev daemon : Daemon
daemon = record {
  log_file = codes "out.log";
  max_count = pos 0;
  max_error = pos 3;
  min_exit_time = pos 10;
}

abbrev ran : ℤ → Answer
ran dat = record { open_error = none; start_error = none; dat = dat }

abbrev not_opened : Answer
not_opened = record { open_error = some (codes "no file"); start_error = none; dat = pos 0 }

-- Three short runs, one that is long, and four failures.
abbrev later_rounds : List Answer
later_rounds =
    ran (pos 2)
    ∷ ran (pos 3)
    ∷ ran (pos 60)
    ∷ not_opened
    ∷ ran (pos 1)
    ∷ not_opened
    ∷ ran (pos 0)
    ∷ ran (pos 60)
    ∷ []

abbrev rounds : List Answer
rounds = ran (pos 1) ∷ later_rounds

started : failure daemon (ran (pos 1)) ≡ none
unfolding failure
started = refl

run_roles_example :
    ((background (pos 0) true (failure daemon (ran (pos 1))) 0).0 ≡ exited 1)
    × (run daemon (pos 0) (ran (pos 1)) rounds ≡ exits 0)
    × ((i : ℕ) → (background (pos 1) false none (i + 1)).0 ≡ command (i + 2))
    × (run daemon (pos 1) (ran (pos 1)) rounds ≢ breaks)
    × ((n : ℕ) → run daemon (pos (n + 2)) (ran (pos 1)) rounds ≡ breaks)
run_roles_example = run_roles daemon 3 (ran (pos 1)) (ran (pos 1)) later_rounds refl refl started

run-Streak_example : (run daemon (pos 1) (ran (pos 1)) rounds ≡ exits 1) ↔ Streak daemon 4 rounds
run-Streak_example = run-Streak daemon 3 refl refl (ran (pos 1)) rounds

abbrev no_error : Option Text
no_error = none

abbrev token_form : TokenForm
token_form = record {
  symbol = codes "T";
  contract = codes "0xt";
  code = codes "T";
  decimal = codes "6";
  type = codes "1";
  public = codes "0";
}

token_form-numbers : token_numbers token_form ≡ some (pos 6, pos 1, pos 0)
unfolding token_numbers parsed int64 set_string
token_form-numbers = refl

add_token_handler_inverted_example :
    ((m : Text) × (no_error ≡ some m)
      × (add_token_handler no_error token_form empty ≡ (message fine, empty)))
    ⊎ ((r' : Registry) × (no_error ≡ none)
        × (add_token_handler no_error token_form empty ≡ (message params_error, r'))
        × (get_coin r' (codes "0xt") ≡ some (coin_of token_form (pos 6, pos 1, pos 0))))
add_token_handler_inverted_example =
    add_token_handler_inverted no_error token_form (pos 6, pos 1, pos 0) empty refl
      token_form-numbers

abbrev pool_form : PoolForm
pool_form = record {
  contract = codes "0xp";
  version = codes "3";
  token0 = codes "0xa158A39d00C79019A01A6E86c56E96C461334Eb0";
  token1 = codes "0xa4f8C7C1018b9dD3be5835bF00f335D9910aF6Bd";
  fee_rate = codes "500";
}

pool_form-fine : is_wrong pool_form ≡ false
unfolding parse_int set_string
pool_form-fine = refl

abbrev nothing_kept : State
nothing_kept = record {
  registry = empty;
  globals = record { utc0_reserves = []; curr_reserves = []; volumes_24h = [] };
}

abbrev arrival : Arrival
arrival = record {
  now = 90000;
  later = 90000;
  stat = record {
    address = codes "0xp";
    tx = codes "0x1";
    reserve0 = pos 5;
    reserve1 = pos 5;
    volume0 = pos 1;
    volume1 = pos 0;
    tick = pos 10;
    ts = 90000;
  };
}

add_pool_handler_panics_example :
    (s' : State) × (add_pool_handler (λ a. a) none pool_form nothing_kept ≡ (
      message fine,
      s',
      watch
            (λ a. a)
            (new_pool pool_form.contract
              (parse_int pool_form.version)
              pool_form.token0
              pool_form.token1
              (parse_int pool_form.fee_rate))
          ∷ [],
    ))
    × (deal_tick arrival
          (record { globals = s'.globals; pre_reserve0 = pos 0; pre_reserve1 = pos 0 })
        ≡ panic)
unfolding lookup
add_pool_handler_panics_example =
    add_pool_handler_panics (λ a. a) pool_form nothing_kept arrival (pos 0) (pos 0) pool_form-fine
      refl refl

-- A limiter that lets two requests through.
abbrev two_each : Rate ℕ
two_each = record { new_limiter = 0; allow = λ now n. (ltb n 2, n + 1) }

abbrev events : List Event
events =
    requests (codes "1.1.1.1") 5
    ∷ requests (codes "2.2.2.2") 5
    ∷ requests (codes "1.1.1.1") 6
    ∷ requests (codes "1.1.1.1") 6
    ∷ expires
    ∷ requests (codes "1.1.1.1") 7
    ∷ []

run-alone_example :
    (ans : List (Text × Bool)) × (Limits.run two_each events (new_ip_rate_limiter two_each)
      ≡ ok ans)
    × ((k : Text) → answers_to k ans ≡ alone two_each k events none)
unfolding lookup
run-alone_example =
    run-alone two_each events (new_ip_rate_limiter two_each)
      (nothing two_each (new_ip_rate_limiter two_each))
