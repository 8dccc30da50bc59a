-- ===== src/Tests/Running.antt =====
-- The routes, the service as a whole, the rounds of the prices and the race of the limits, at concrete
-- inputs.
use ibswap_api.Common.{
  ℕ, ◌+◌, ◌*◌, ◌/◌, ◌==◌, ◌≡◌, refl, true, false, none, some, List, [], ◌∷◌, length, arith, ltb,
  inl,
}
use ibswap_api.Common.Int.{pos}
use ibswap_api.Common.Eq.{Text, codes, text_eq_instance}
use ibswap_api.Common.Dict.{lookup}
use ibswap_api.Common.Outcome.{ok, Result, value, error, Returns}
use ibswap_api.Access.{Crypto}
use ibswap_api.Registry
use ibswap_api.Registry.{Coin, get_pools, init_coins_and_pools, new_pool}
use ibswap_api.Stats.Start.{Answers}
use ibswap_api.Stats.Start.Batches.{IsAnswered}
use ibswap_api.Prices.{Float, Prices, weth}
use ibswap_api.Router.{Setup, Moment, Request, Gin, Site, post, get, init_router}
use ibswap_api.Router.Handling.{route_of, serve}
use ibswap_api.Registry.History.{run, reachable-IsValid}
use ibswap_api.Registry.Lookup.{get_coin-contract}
use ibswap_api.Limits.{IpRateLimiter, Rate, new_ip_rate_limiter, add_ip}
use ibswap_api.Limits.Race.{Asking, asks, done, interleave, first_requests_race}
use ibswap_api.Prices.Links.{IsShared}
use ibswap_api.Prices.Rounds.{
  CoinBase, Client, Round, IsAnswerable, real_eth_price, last_price, real_eth_price_ends,
}
use ibswap_api.Router.Replies.{IsReady, IsReady-IsInStep, serve-Returns}
use ibswap_api.System.{Service, launch}
use ibswap_api.System.Tasks.{Sound}
use ibswap_api.System.Starting.{launch-Sound}

abbrev whole : Float ℕ
whole = record {
  nought = 0;
  one = 1;
  div = λ a b. a / b;
  mul = λ a b. a * b;
  pow10 = λ n. 1;
  pow_tick = λ n. 2;
  is_zero = λ a. a == 0;
  is_inf = λ a. false;
}

-- Addresses are texts, and no signature can be recovered.
abbrev no_signer : Crypto
no_signer = record {
  hex_to_address = λ t. t;
  address_hex = λ a. a;
  from_hex = λ t. t;
  keccak256 = λ d. d;
  sig_to_pub = λ h s. error (codes "recovery failed");
  pubkey_to_address = λ k. k;
}

abbrev pub setup : Setup ℕ
setup = record {
  crypto = no_signer;
  formats = record {
    float = whole;
    from_decimal = length;
    from_uint64 = λ n. n;
    sqrt = λ n. n;
    to_uint64 = λ n. n;
    format_float = λ n. [];
    pow10_int64 = λ n. pos 1;
  };
  stat_days = pos 30;
  admins = (codes "0xadmin", true) ∷ [];
}

-- A gin that takes every request to `POST /coins/add`, or to `GET /pools/overview`.
abbrev to_coins_add : Gin
to_coins_add = record { find = λ routes m path. some (8, λ k. []) }

abbrev pub to_overview : Gin
to_overview = record { find = λ routes m path. some (4, λ k. []) }

abbrev pub moment : Moment
moment = record {
  now = 1000;
  write_error = none;
  fee_rows = value [];
  nft_rows = value [];
  stat_table = λ k d. value [];
  times = λ k. (1000, 1000);
  day_table = λ k d. value [];
}

abbrev add_one : Request
add_one = record {
  method = post;
  path = codes "/coins/add";
  query = λ k. [];
  post_form = λ k. codes "1";
}

abbrev pub site : Site ℕ
site = record {
  registry = init_coins_and_pools (value []) (value []);
  globals = record { utc0_reserves = []; curr_reserves = []; volumes_24h = [] };
  pool_stats = [];
  prices = record { eth = 2000; table = [] };
}

abbrev pool_rows : Result Text (List (Result Text Registry.Pool))
pool_rows =
    value (value (new_pool (codes "0xp") (pos 3) (codes "0xa") (codes "0xb") (pos 500)) ∷ [])

abbrev coin_rows : Result Text (List (Result Text Coin))
coin_rows = value []

abbrev answers : Text → Answers
answers key = record {
  volumes = value (pos 90000 ∷ [], (pos 3, pos 4) ∷ []);
  utc0 = value (pos 1, pos 10, pos 600, pos 700);
  latest = value (pos 600, pos 700, pos 10);
}

answers-IsAnswered : (key : Text) → IsAnswered (answers key)
answers-IsAnswered key = ((_, _, refl, omega arith), (_, refl), (_, refl))

launch-Sound_example :
    (s : Service ℕ) × (launch setup to_overview coin_rows pool_rows
        (λ k i. 90001)
        answers
        (pos 10)
        site.prices
        90001
      ≡ ok s)
    × Sound s
unfolding init_coins_and_pools get_pools Registry.add_pool Registry.int8
launch-Sound_example =
    launch-Sound setup to_overview coin_rows pool_rows (λ k i. 90001) answers 10 site.prices 90001
      (answers-IsAnswered (codes "0xp"), tt) (refl, tt)

pub fresh-IsReady : IsReady site
unfolding init_coins_and_pools lookup
fresh-IsReady = (
  record {
    valid = unfold run in reachable-IsValid (value []) (value []) [];
    listed = record { in_map = tt };
    domain = λ k. inl refl;
  },
  λ k p h. absurd (cc h),
)

abbrev get_overview : Request
get_overview = record {
  method = get;
  path = codes "/pools/overview";
  query = λ k. [];
  post_form = λ k. [];
}

serve-Returns_example : Returns (serve setup to_overview moment get_overview site)
unfolding route_of init_router
serve-Returns_example =
    serve-Returns setup to_overview moment get_overview site (IsReady-IsInStep site fresh-IsReady)
      (inl refl)

-- A limiter that lets two requests through.
abbrev two_each : Rate ℕ
two_each = record { new_limiter = 0; allow = λ now n. (ltb n 2, n + 1) }

-- The limiters after one request, and after two.
abbrev one_limiter : IpRateLimiter ℕ
one_limiter = (add_ip two_each (codes "1.1.1.1") (new_ip_rate_limiter two_each)).1

abbrev two_limiters : IpRateLimiter ℕ
two_limiters = (add_ip two_each (codes "1.1.1.1") one_limiter).1

abbrev two_first : List Asking
two_first = asks (codes "1.1.1.1") ∷ asks (codes "1.1.1.1") ∷ []

first_requests_race_example :
    (interleave two_each (0 ∷ 1 ∷ 1 ∷ 0 ∷ []) two_first (new_ip_rate_limiter two_each)
      ≡ (done two_each (codes "1.1.1.1") 1 ∷ done two_each (codes "1.1.1.1") 0 ∷ [], two_limiters))
    × (lookup (codes "1.1.1.1") two_limiters.ips ≡ some 1)
    × (interleave two_each (0 ∷ 0 ∷ 1 ∷ []) two_first (new_ip_rate_limiter two_each)
        ≡ (done two_each (codes "1.1.1.1") 0 ∷ done two_each (codes "1.1.1.1") 0 ∷ [], one_limiter))
    × (lookup (codes "1.1.1.1") one_limiter.ips ≡ some 0)
unfolding lookup
first_requests_race_example =
    first_requests_race two_each (codes "1.1.1.1") (new_ip_rate_limiter two_each) false true refl

-- An answer without a price, and one with.
abbrev exchange : CoinBase ℕ
exchange = record { amount = λ t. value t; parse_float = λ t. value (length t) }

abbrev client : Result Text (Result Text Text) → Client
client answer = record {
  request_error = λ method url reader. none;
  send = λ method url reader headers. answer;
}

abbrev one_pool_round : Result Text (Result Text Text) → Round ℕ ℕ
one_pool_round answer = record {
  client = client answer;
  registry = init_coins_and_pools (value []) (value []);
  pools = new_pool (codes "0xp") (pos 3) weth (codes "0xt") (pos 500) ∷ [];
  source = record { overview = λ contract s. ok (some (pos 1), s + 1) };
  state = 0;
}

abbrev two_rounds : List (Round ℕ ℕ)
two_rounds =
    one_pool_round (error (codes "timeout")) ∷ one_pool_round (value (value (codes "2000"))) ∷ []

one_pool-IsAnswerable :
    (b : Result Text (Result Text Text)) → IsAnswerable exchange whole (one_pool_round b)
one_pool-IsAnswerable b = record {
  keyed = λ t c h.
      get_coin-contract (init_coins_and_pools (value []) (value [])) t c fresh-IsReady.0.valid h;
  tick_of = λ k. some (pos 1);
  Good = λ s. Unit;
  good = tt;
  answers = λ p s m g. (s + 1, refl, tt);
}

real_eth_price_ends_example :
    (ps : Prices ℕ) × (real_eth_price exchange whole 0 two_rounds ≡ ok (some ps))
    × IsShared ps
    × (ps.eth ≡ last_price exchange whole 0 two_rounds)
real_eth_price_ends_example = real_eth_price_ends exchange whole 0 two_rounds (
  one_pool-IsAnswerable (error (codes "timeout")),
  (one_pool-IsAnswerable (value (value (codes "2000"))), tt),
)
