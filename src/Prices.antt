-- ===== src/Prices.antt =====
-- service/price.go: `setTokensPriceAsUsd`, which walks from three tokens of known price over the pools.
-- Floating-point arithmetic is a parameter, and so is `OverviewPoolsByContract` with what it changes.
pub mod Links
pub mod Measure
pub mod Passage
pub mod First
pub mod Correct
pub mod Served
pub mod Rounds
use ibswap_api.Common.{
  ℕ, zero, suc, ◌+◌, ◌*◌, Bool, true, false, Option, none, some, List, [], ◌∷◌, ◌++◌, ◌||◌,
  if◌then◌else◌, length,
}
use ibswap_api.Common.Int.{ℤ}
use ibswap_api.Common.Eq.{Text, codes, text_eq, text_eq_instance}
use ibswap_api.Common.Dict.{Dict, lookup, insert}
use ibswap_api.Common.Outcome.{Outcome, ok, ◌>>=◌, deref}
use ibswap_api.Registry
use ibswap_api.Registry.{Registry, Coin, get_coin}

-- float64, as far as it is used: `math.Pow(1.0001, …)`, `math.Pow10`, and the tests for 0 and
-- infinity.
pub record Float (W : Type 0) : Type 0 where
  pub nought : W
  pub one : W
  pub div : W → W → W
  pub mul : W → W → W
  pub pow10 : ℤ → W
  pub pow_tick : ℤ → W
  pub is_zero : W → Bool
  pub is_inf : W → Bool

-- `OverviewPoolsByContract`, of which only the tick and whether there is an error are used.
pub record Overviews (S : Type 0) : Type 0 where
  pub overview : Text → S → Outcome (Option ℤ × S)

-- A `*TokenPrice`: `currentEthPrice`, which is shared, or one that only the map has.
pub data Price (W : Type 0) : Type 0 where
  current_eth_price : Price W
  own : W → Price W

-- `currentEthPrice` and `tokenPricesAsUsd`
pub record Prices (W : Type 0) : Type 0 where
  pub eth : W
  pub table : Dict Text (Price W)

abbrev pub weth : Text
weth = codes "0xa158A39d00C79019A01A6E86c56E96C461334Eb0"

abbrev pub usd_a : Text
usd_a = codes "0xa4f8C7C1018b9dD3be5835bF00f335D9910aF6Bd"

abbrev pub usd_b : Text
usd_b = codes "0xeCE555d37C37D55a6341b80cF35ef3BC57401d1A"

module _ {W : Type 0} where
  -- `Get` of an entry, and the entry of a token.
  abbrev pub get : W → Price W → W
  get eth current_eth_price = eth
  get eth (own w) = w

  unfoldable pub price_of : Prices W → Text → Option W
  price_of ps t = elim (lookup t ps.table) [ none ↦ none | some p ↦ some (get ps.eth p) ]

  -- A new entry where there is none, and otherwise `Set`.
  unfoldable pub put : Text → W → Prices W → Prices W
  put t w ps = elim (lookup t ps.table) [
    | some current_eth_price ↦ record ps { eth = w }
    | some (own v) ↦ record ps { table = insert t (own w) ps.table }
    | none ↦ record ps { table = insert t (own w) ps.table }
  ]

-- `GetEthPrice` and `GetTokenUsdPrice`, which is 0 for a token without an entry.
abbrev pub get_eth_price : {W : Type 0} → Prices W → W
get_eth_price ps = ps.eth

unfoldable pub get_token_usd_price : {W : Type 0} → Float W → Prices W → Text → W
unfolding price_of
get_token_usd_price fl ps t = elim (price_of ps t) [ none ↦ fl.nought | some w ↦ w ]

-- The state of the walk; the token that is expanded is still the first of the queue.
pub record Walk (W S : Type 0) : Type 0 where
  pub prices : Prices W
  pub visited : Dict Text Bool
  pub queue : List Text
  pub source : S

-- `visited[t]`
unfoldable pub seen : Dict Text Bool → Text → Bool
seen visited t = elim (lookup t visited) [ none ↦ false | some b ↦ b ]

abbrev pub tail : List Text → List Text
tail [] = []
tail (t ∷ ts) = ts

module _ {W S : Type 0} where
  -- `visited[t] = true`, `q = append(q, t)` and the new price of the coin.
  unfoldable pub visit : Text → Coin → W → Walk W S → Walk W S
  visit t c w x = record x {
    prices = put c.contract w x.prices;
    visited = insert t true x.visited;
    queue = x.queue ++ t ∷ [];
  }

module _ {W : Type 0} (fl : Float W) where
  abbrev pub down_price : W → ℤ → Coin → Coin → W
  down_price price tick c0 c1 =
      fl.div (fl.mul (fl.div price (fl.pow_tick tick)) (fl.pow10 c1.decimal)) (fl.pow10 c0.decimal)

  abbrev pub up_price : W → ℤ → Coin → Coin → W
  up_price price tick c0 c1 =
      fl.div (fl.mul (fl.mul price (fl.pow_tick tick)) (fl.pow10 c0.decimal)) (fl.pow10 c1.decimal)

  -- The test of the factor.
  abbrev pub is_lost : ℤ → Bool
  is_lost tick = fl.is_zero (fl.pow_tick tick) || fl.is_inf (fl.pow_tick tick)

  -- From the test of the factor on.
  unfoldable pub cross :
      {S : Type 0} → Text → W → Registry.Pool → Coin → Coin → ℤ → Walk W S → Walk W S
  cross t0 price p c0 c1 tick x =
      if is_lost tick
      then x
      else if text_eq p.token0 t0
      then (if seen x.visited p.token1
          then x
          else visit p.token1 c1 (down_price price tick c0 c1) x)
      else if text_eq p.token1 t0
      then (if seen x.visited p.token0 then x else visit p.token0 c0 (up_price price tick c0 c1) x)
      else x

  -- The three tokens that it starts from.
  unfoldable pub first_walk : {S : Type 0} → Prices W → S → Walk W S
  first_walk ps s = record {
    prices = record ps {
      table =
          insert usd_b (own fl.one)
            (insert usd_a (own fl.one) (insert weth current_eth_price ps.table));
    };
    visited = insert usd_b true (insert usd_a true (insert weth true []));
    queue = weth ∷ usd_a ∷ usd_b ∷ [];
    source = s;
  }

module _ {W S : Type 0} (fl : Float W) (src : Overviews S) (r : Registry) where
  -- A passage of the inner loop: an error of a coin or of the overview skips the pool.
  unfoldable pub pass : Text → W → Registry.Pool → Walk W S → Outcome (Walk W S)
  unfolding cross
  pass t0 price p x = do
    (tick, s) ← src.overview p.contract x.source
    let x' = record x { source = s }
    elim (get_coin r p.token0) [
      | none ↦ ok x'
      | some c0 ↦ elim (get_coin r p.token1) [
        | none ↦ ok x'
        | some c1 ↦ elim tick [ none ↦ ok x' | some k ↦ ok (cross fl t0 price p c0 c1 k x') ]
      ]
    ]

  unfoldable pub pass_all : Text → W → List Registry.Pool → Walk W S → Outcome (Walk W S)
  unfolding pass
  pass_all t0 price [] x = ok x
  pass_all t0 price (p ∷ ps) x = do x' ← pass t0 price p x; pass_all t0 price ps x'

  -- The outer loop on fuel; `none` says that it ran out.
  unfoldable pub walk : List Registry.Pool → ℕ → Walk W S → Outcome (Option (Walk W S))
  unfolding pass_all price_of
  walk pools zero x = elim x.queue [ [] ↦ ok (some x) | t ∷ ts ↦ ok none ]
  walk pools (suc fuel) x = elim x.queue [
    | [] ↦ ok (some x)
    | t0 ∷ ts ↦ do
      price ← deref (price_of x.prices t0)
      x' ← pass_all t0 price pools x
      walk pools fuel (record x' { queue = tail x'.queue })
  ]

  -- `setTokensPriceAsUsd`, over what `GetPools` gives. Each token of a pool is queued at most once.
  unfoldable pub set_tokens_price_as_usd :
      List Registry.Pool → Prices W → S → Outcome (Option (Walk W S))
  unfolding walk first_walk
  set_tokens_price_as_usd pools ps s = walk pools (3 + 2 * length pools) (first_walk fl ps s)
