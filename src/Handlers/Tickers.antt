-- ===== src/Handlers/Tickers.antt =====
-- api/gecko.go: `Tickers`. What it uses of float64, of `big.Float` and of `strconv` is a parameter.
pub mod Listed
pub mod Calm
pub mod Answered
pub mod Stopped
use ibswap_api.Common.{
  ℕ, zero, suc, ◌+◌, ◌*◌, ◌/◌, ◌%◌, ◌^◌, Bool, Option, none, some, List, [], ◌∷◌,
}
use ibswap_api.Common.Int.{ℤ, pos, negsuc, pos_part, neg_part}
use ibswap_api.Common.Eq.{Text}
use ibswap_api.Common.Decimal.{nat_string, set_string}
use ibswap_api.Common.Outcome.{Outcome, ok, panic, ◌>>=◌, deref, Result, value, error}
use ibswap_api.Registry
use ibswap_api.Registry.{Registry, Coin, get_coin, get_pools}
use ibswap_api.Stats.Overview.{Api, StatTable, PoolOverview, overview_pools_by_contract}
use ibswap_api.Prices.{Float, Prices, get_token_usd_price}
use ibswap_api.Handlers.{Reply, json}

-- `new(big.Float).SetString` with `Float64`, `float64` of a uint64, `math.Sqrt`, `uint64` of a float64,
-- `strconv.FormatFloat(…, 'f', -1, 64)`, and `int64(math.Pow10(…))`.
pub record Formats (W : Type 0) : Type 0 where
  pub float : Float W
  pub from_decimal : Text → W
  pub from_uint64 : ℕ → W
  pub sqrt : W → W
  pub to_uint64 : W → ℕ
  pub format_float : W → Text
  pub pow10_int64 : ℤ → ℤ

abbrev pub negated : ℕ → ℤ
negated zero = pos 0
negated (suc n) = negsuc n

-- `(*big.Int).Mul`
abbrev pub mul : ℤ → ℤ → ℤ
mul (pos a) (pos b) = pos (a * b)
mul (pos a) (negsuc b) = negated (a * (b + 1))
mul (negsuc a) (pos b) = negated ((a + 1) * b)
mul (negsuc a) (negsuc b) = pos ((a + 1) * (b + 1))

-- `(*big.Int).Div`, which rounds so that the rest is not negative, and panics for 0.
abbrev pub div : ℤ → ℤ → Outcome ℤ
div a (pos zero) = panic
div (pos a) (pos (suc d)) = ok (pos (a / (d + 1)))
div (negsuc a) (pos (suc d)) = ok (negated ((a + (d + 1)) / (d + 1)))
div (pos a) (negsuc d) = ok (negated (a / (d + 1)))
div (negsuc a) (negsuc d) = ok (pos ((a + (d + 1)) / (d + 1)))

-- `(*big.Int).Uint64`
abbrev pub low_bits : ℤ → ℕ
low_bits a = (pos_part a + neg_part a) % 2 ^ 64

-- `Ticker`
pub record Ticker : Type 0 where
  pub ticker_id : Text
  pub base_currency : Text
  pub target_currency : Text
  pub pool_id : Text
  pub last_price : Text
  pub base_volume : Text
  pub target_volume : Text
  pub liquidity_in_usd : Text
  pub bid : Text
  pub ask : Text
  pub high : Text
  pub low : Text

module _ {W : Type 0} (fm : Formats W) (prices : Prices W) where
  -- `l`, from the reserves of an overview.
  unfoldable pub liquidity : Registry.Pool → Coin → Coin → PoolOverview → Outcome ℕ
  liquidity p base target o = do
    r0 ← deref (set_string o.reserve0)
    r1 ← deref (set_string o.reserve1)
    a ← div (mul r0 r1) (fm.pow10_int64 base.decimal)
    b ← div a (fm.pow10_int64 target.decimal)
    let usd0 = get_token_usd_price fm.float prices p.token0
    let usd1 = get_token_usd_price fm.float prices p.token1
    ok (
        fm.to_uint64
          (fm.sqrt (fm.float.mul (fm.float.mul (fm.from_uint64 (low_bits b)) usd0) usd1)))

  -- The ticker of a pool with both coins and an overview.
  unfoldable pub ticker_of : Registry.Pool → Coin → Coin → PoolOverview → Outcome Ticker
  unfolding liquidity
  ticker_of p base target o = do
    l ← liquidity p base target o
    let fl = fm.float
    let volume0 = fl.div (fm.from_decimal o.volume24h0) (fl.pow10 base.decimal)
    let volume1 = fl.div (fm.from_decimal o.volume24h1) (fl.pow10 target.decimal)
    let price =
        fl.mul (fl.div (fl.pow_tick o.curr_tick) (fl.pow10 base.decimal)) (fl.pow10 target.decimal)
    ok (record {
      ticker_id = p.contract;
      base_currency = base.contract;
      target_currency = target.contract;
      pool_id = p.contract;
      last_price = fm.format_float price;
      base_volume = fm.format_float volume0;
      target_volume = fm.format_float volume1;
      liquidity_in_usd = nat_string l;
      bid = [];
      ask = [];
      high = [];
      low = [];
    })

  -- A passage of the loop: an unknown coin or an error of the overview skips the pool.
  unfoldable pub ticker_row :
      ℤ → StatTable → ℕ × ℕ → Registry → Registry.Pool → Api → Outcome (Option Ticker × Api)
  unfolding ticker_of
  ticker_row stat_days table times r p s = elim (get_coin r p.token0) [
    | none ↦ ok (none, s)
    | some base ↦ elim (get_coin r p.token1) [
      | none ↦ ok (none, s)
      | some target ↦ do
        (o, s') ← overview_pools_by_contract stat_days table times r p.contract s
        elim o [
          | error m ↦ ok (none, s')
          | value v ↦ do t ← ticker_of p base target v; ok (some t, s')
        ]
    ]
  ]

  abbrev pub add_ticker : Option Ticker → List Ticker → List Ticker
  add_ticker none ts = ts
  add_ticker (some t) ts = t ∷ ts

  unfoldable pub ticker_rows :
      ℤ
      → StatTable
      → (Text → ℕ × ℕ)
      → Registry
      → List Registry.Pool
      → Api
      → Outcome (List Ticker × Api)
  unfolding ticker_row
  ticker_rows stat_days table times r [] s = ok ([], s)
  ticker_rows stat_days table times r (p ∷ ps) s = do
    (t, s') ← ticker_row stat_days table (times p.contract) r p s
    (ts, s'') ← ticker_rows stat_days table times r ps s'
    ok (add_ticker t ts, s'')

  -- `Tickers`
  unfoldable pub tickers :
      ℤ
      → StatTable
      → (Text → ℕ × ℕ)
      → Registry
      → Api
      → Outcome (Reply (List Ticker) × (Registry × Api))
  unfolding ticker_rows
  tickers stat_days table times r s = do
    let (ps, r') = get_pools (pos 3) r
    (ts, s') ← ticker_rows stat_days table times r' ps s
    ok (json ts, (r', s'))
