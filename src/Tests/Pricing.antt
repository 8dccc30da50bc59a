-- ===== src/Tests/Pricing.antt =====
-- The walk of service/price.go and the tickers of api/gecko.go, over one pool.
use ibswap_api.Common.{
  ℕ, ◌+◌, ◌*◌, ◌/◌, ◌==◌, ◌≡◌, ◌≢◌, refl, sym, subst, inr, map, none, some, List, [], ◌∷◌, ◌++◌,
  false,
}
use ibswap_api.Common.Int.{pos}
use ibswap_api.Common.Eq.{Text, codes, text_eq_instance}
use ibswap_api.Common.Dict.{lookup}
use ibswap_api.Common.Outcome.{ok, value}
use ibswap_api.Registry
use mathlib.Core.List.{Memᴰ}
use ibswap_api.Registry.{Registry, new_pool, init_coins_and_pools}
use ibswap_api.Registry.History.{Call, adds_token, run, apply, reachable-IsValid}
use ibswap_api.Registry.Lookup.{get_coin-contract, added_pool_found}
use ibswap_api.Prices.{Float, Prices, Walk, weth, set_tokens_price_as_usd}
use ibswap_api.Prices.Links.{Setting, Reliable, IsShared}
use ibswap_api.Prices.Passage.{Keyed}
use ibswap_api.Registry.History.{adds_pool}
use ibswap_api.Registry.{get_pool}
use ibswap_api.Stats.Window.{new_volumes}
use ibswap_api.Stats.Ticks.{Globals, new_reserves}
use ibswap_api.Stats.Ticks.Description.{OfPool, At}
use ibswap_api.Stats.Overview.{Api}
use ibswap_api.Stats.Overview.Rows.{IsSteady}
use ibswap_api.Prices.Served.{
  Moments, Known, served_overviews, served_setting, served, set_tokens_price_as_usd_serves,
}
use ibswap_api.Registry.{add_token, add_coin, add_new_pool, add_pool, int8}
use ibswap_api.Common.Eq.{text_eq}
use ibswap_api.Handlers.Tickers.{Formats, Ticker, ticker_rows}
use ibswap_api.Handlers.Tickers.Listed.{listed, ticker_rows-listed}
use ibswap_api.Prices.Correct.{Settled, result, set_tokens_price_as_usd-Settled}

-- An arithmetic of whole numbers.
abbrev whole : Float ℕ
whole = record {
  nought = 0;
  one = 1;
  div = λ a b. a / b;
  mul = λ a b. a * b;
  pow10 = λ n. 1;
  pow_tick = λ n. 2;
  is_zero = λ a. a == 0;
  is_inf = λ a. false;
}

abbrev coins : List Call
coins =
    adds_token none (codes "WETH") weth (codes "WETH") (pos 18) (pos 1) (pos 0)
    ∷ adds_token none (codes "T") (codes "0xt") (codes "T") (pos 6) (pos 1) (pos 0)
    ∷ []

abbrev with_coins : Registry
with_coins = run coins (init_coins_and_pools (value []) (value []))

abbrev setting : Setting ℕ ℕ
setting = record {
  float = whole;
  source = record { overview = λ contract s. ok (some (pos 1), s + 1) };
  registry = with_coins;
  pools = new_pool (codes "0xp") (pos 3) weth (codes "0xt") (pos 500) ∷ [];
  start = record { eth = 2000; table = [] };
  tick_of = λ contract. some (pos 1);
}

abbrev steady : Reliable setting
steady = record { Good = λ s. Unit; answers = λ p s m g. (s + 1, refl, tt) }

coins_kept : Keyed setting steady
coins_kept t c h =
    get_coin-contract with_coins t c (reachable-IsValid (value []) (value []) coins) h

nothing-IsShared : IsShared setting.start
unfolding lookup
nothing-IsShared t h = cc h

set_tokens_price_as_usd-Settled_example :
    (x : Walk ℕ ℕ) × (result setting steady 0 ≡ ok (some x))
    × ((t : Text) → Settled setting steady x t)
    × (x.prices.eth ≡ 2000)
    × IsShared x.prices
set_tokens_price_as_usd-Settled_example =
    set_tokens_price_as_usd-Settled setting steady 0 coins_kept nothing-IsShared tt

abbrev with_pool : Registry
with_pool =
    run (coins ++ adds_pool none (codes "0xp") (pos 3) weth (codes "0xt") (pos 500) ∷ [])
      (init_coins_and_pools (value []) (value []))

abbrev the_pool : Registry.Pool
the_pool = new_pool (codes "0xp") (pos 3) weth (codes "0xt") (pos 500)

pool_found : get_pool with_pool (codes "0xp") ≡ some the_pool
unfolding run apply add_token add_coin init_coins_and_pools lookup
pool_found = (added_pool_found (codes "0xp") weth (codes "0xt") (pos 500) with_coins refl).1

one_pool_known : Known whole (pos 30) with_pool (the_pool ∷ [])
one_pool_known p (Memᴰ.head e) =
    subst (λ q. get_pool with_pool q.contract ≡ some q) (sym e) pool_found
one_pool_known p (Memᴰ.tail m) = elim m [ ]

abbrev held : Globals
held = record {
  utc0_reserves = (codes "0xp", new_reserves) ∷ [];
  curr_reserves = (codes "0xp", new_reserves) ∷ [];
  volumes_24h = (codes "0xp", new_volumes) ∷ [];
}

abbrev of_pool : OfPool
of_pool = record { utc0 = new_reserves; curr = new_reserves; volumes = new_volumes }

held-At : At (codes "0xp") held of_pool
unfolding lookup text_eq
held-At = record { utc0_found = refl; curr_found = refl; volumes_found = refl }

one_pool-IsSteady : (p : Registry.Pool) → Memᴰ p (the_pool ∷ []) → IsSteady held p.contract
one_pool-IsSteady p (Memᴰ.head e) =
    subst (λ q. IsSteady held q.contract) (sym e) (inr (of_pool, held-At))
one_pool-IsSteady p (Memᴰ.tail m) = elim m [ ]

abbrev moments : Moments
moments i = (λ key from. value [], (1000 + i, 1000 + i))

abbrev before : Prices ℕ
before = record { eth = 2000; table = [] }

set_tokens_price_as_usd_serves_example :
    (x : Walk ℕ (Api × Moments)) × (set_tokens_price_as_usd whole
        (served_overviews (pos 30) with_pool)
        with_pool
        (the_pool ∷ [])
        before
        (record { globals = held; pool_stats = [] }, moments)
      ≡ ok (some x))
    × ((t : Text)
        → Settled
            (served_setting whole (pos 30) with_pool (the_pool ∷ []) before held)
            (served whole (pos 30) with_pool (the_pool ∷ []) before held one_pool_known)
            x
            t)
set_tokens_price_as_usd_serves_example =
    set_tokens_price_as_usd_serves whole (pos 30) with_pool (the_pool ∷ []) before
      (record { globals = held; pool_stats = [] }) moments one_pool_known
      (reachable-IsValid (value []) (value [])
        (coins ++ adds_pool none (codes "0xp") (pos 3) weth (codes "0xt") (pos 500) ∷ []))
      nothing-IsShared one_pool-IsSteady

abbrev formats : Formats ℕ
formats = record {
  float = whole;
  from_decimal = λ s. 1;
  from_uint64 = λ n. n;
  sqrt = λ n. n;
  to_uint64 = λ n. n;
  format_float = λ n. codes "1";
  pow10_int64 = λ n. pos 1000;
}

not_zero : pos 1000 ≢ pos 0
not_zero e = cc e

ticker_rows-listed_example :
    (ts : List Ticker) × (s' : Api) × (ticker_rows formats before
        (pos 30)
        (λ key from. value [])
        (λ k. (1000, 1000))
        with_pool
        (the_pool ∷ [])
        (record { globals = held; pool_stats = [] })
      ≡ ok (ts, s'))
    × (map (λ t. t.pool_id) ts ≡ listed with_pool held.curr_reserves (the_pool ∷ []))
ticker_rows-listed_example =
    ticker_rows-listed formats before (pos 30) (λ key from. value []) (λ k. (1000, 1000)) with_pool
      (the_pool ∷ []) (record { globals = held; pool_stats = [] }) (λ t c h. not_zero)
      (pool_found, tt) (inr (of_pool, held-At), tt)
