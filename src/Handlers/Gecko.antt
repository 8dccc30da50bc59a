-- ===== src/Handlers/Gecko.antt =====
-- api/gecko.go: `Pairs` and `GetUsdPrices`.
use ibswap_api.Common.{Option, none, some, List, [], ◌∷◌, ◌++◌}
use ibswap_api.Common.Int.{pos}
use ibswap_api.Common.Eq.{Text, codes}
use ibswap_api.Registry
use ibswap_api.Registry.{
  Coin, Registry, add_token, add_new_pool, change_pool_state, change_token_public, get_coin,
  get_coins, get_pool, get_pools,
}
use ibswap_api.Prices.{Float, Prices, get_token_usd_price}
use ibswap_api.Handlers.{Reply, json}

-- `Pair`, and a passage of the loop of `Pairs`.
pub record Pair : Type 0 where
  pub ticker_id : Text
  pub base : Text
  pub target : Text
  pub pool_id : Text

unfoldable pub pair_of : Registry → Registry.Pool → Option Pair
pair_of r p = elim (get_coin r p.token0) [
  | none ↦ none
  | some base ↦ elim (get_coin r p.token1) [
    | none ↦ none
    | some target ↦ some (record {
      ticker_id = base.symbol ++ codes "_" ++ target.symbol;
      base = base.symbol ++ codes "/" ++ base.contract;
      target = target.symbol ++ codes "/" ++ target.contract;
      pool_id = p.contract;
    })
  ]
]

abbrev pub pairs_of : Registry → List Registry.Pool → List Pair
pairs_of r [] = []
pairs_of r (p ∷ ps) =
    let rest = pairs_of r ps in elim (pair_of r p) [ none ↦ rest | some q ↦ q ∷ rest ]

-- `Pairs`
unfoldable pub pairs : Registry → Reply (List Pair) × Registry
pairs r = let (ps, r') = get_pools (pos 3) r in (json (pairs_of r' ps), r')

-- `TokenUsdPrice`, and `GetUsdPrices`
pub record TokenUsdPrice (W : Type 0) : Type 0 where
  pub contract : Text
  pub symbol : Text
  pub price : W

abbrev pub usd_prices_of : {W : Type 0} → Float W → Prices W → List Coin → List (TokenUsdPrice W)
usd_prices_of fl ps [] = []
usd_prices_of fl ps (c ∷ cs) =
    record {
      contract = c.contract;
      symbol = c.symbol;
      price = get_token_usd_price fl ps c.contract;
    }
    ∷ usd_prices_of fl ps cs

unfoldable pub get_usd_prices :
    {W : Type 0} → Float W → Prices W → Registry → Reply (List (TokenUsdPrice W))
get_usd_prices fl ps r = json (usd_prices_of fl ps (get_coins r))
