-- ===== src/Router.antt =====
-- api/router.go: the routes of `InitRouter`, and how a request goes through them to the handlers of
-- api/. How gin selects a route for a path is a parameter; a panic is what `gin.Recovery` answers.
pub mod Handling
pub mod Unsigned
pub mod Quiet
pub mod Replies
pub mod Stopped
use ibswap_api.Common.{
  ℕ, Bool, true, false, Option, none, some, List, [], ◌∷◌, ◌++◌, get_elem?, map,
}
use ibswap_api.Common.Int.{ℤ, pos}
use ibswap_api.Common.Eq.{Text, codes}
use ibswap_api.Common.Dict.{Dict}
use ibswap_api.Common.Outcome.{Outcome, ok, panic, ◌>>=◌}
use ibswap_api.Access.{Crypto, Verdict, expired, sign_error, forbidden, passed, verify_signature}
use ibswap_api.Registry
use ibswap_api.Registry.{Registry, Coin, get_coins, get_pools}
use ibswap_api.Storage
use ibswap_api.Storage.{DayStat, ProtocolFee, NftRow, NftColumns}
use ibswap_api.Stats.Ticks.{Globals}
use ibswap_api.Stats.Discovery.{State, Effect}
use ibswap_api.Stats.Overview.{Api, StatTable, PoolOverview, overview_pools}
use ibswap_api.Prices.{Prices, get_eth_price}
use ibswap_api.Handlers.{
  Reply, json, TokenForm, PoolForm, add_token_handler, add_pool_handler, change_pool_state_handler,
  change_token_public_handler, protocol_fees_handler, get_token_by_contract, get_pool_by_contract,
  overview_pool_by_contract, stat_pool_by_contract, get_nft_tokens_by_user, get_volume_by_pool,
}
use ibswap_api.Handlers.Gecko.{TokenUsdPrice, get_usd_prices}
use ibswap_api.Handlers.Tickers.{Formats, Ticker, tickers}

pub data Method : Type 0 where
  get post : Method

-- The handlers that are registered, by their names in api/.
pub data Endpoint : Type 0 where
  eth_price all_tokens token_by_contract add_token : Endpoint
  all_v2_pools all_v3_pools pool_by_contract : Endpoint
  overview_all_v2 overview_all_v3 overview_by_contract stat_by_contract : Endpoint
  protocol_fees nft_tokens_by_user volume_by_pool volumes : Endpoint
  all_tickers usd_prices : Endpoint
  add_pool change_pool_state change_token_public : Endpoint

-- `middleware.VerifySignature`; the logger and `gin.Recovery` stand before every handler.
pub data Guard : Type 0 where
  verifies_signature : Guard

pub record Route : Type 0 where
  pub method : Method
  pub path : Text
  pub guards : List Guard
  pub endpoint : Endpoint

abbrev pub at_get : Text → Endpoint → Route
at_get path e = record { method = get; path = path; guards = []; endpoint = e }

abbrev pub at_post : Text → Endpoint → Route
at_post path e = record { method = post; path = path; guards = []; endpoint = e }

-- `Group`, and `Group` with `Use`.
abbrev pub group : Text → List Guard → List Route → List Route
group path guards [] = []
group path guards (r ∷ rs) =
    record r { path = path ++ r.path; guards = guards ++ r.guards } ∷ group path guards rs

-- The routes of `InitRouter`; a path of gin begins with a slash whether or not the source writes one.
unfoldable pub init_router : List Route
init_router =
    (at_get (codes "/price/eth_usd") eth_price
      ∷ at_get (codes "/pools/all") all_v3_pools
      ∷ at_get (codes "/pools/:contract") pool_by_contract
      ∷ at_get (codes "/pools/:contract/overview") overview_by_contract
      ∷ at_get (codes "/pools/overview") overview_all_v3
      ∷ at_get (codes "/pools/:contract/time-stats") stat_by_contract
      ∷ at_get (codes "/pools/time-stats") stat_by_contract
      ∷ at_get (codes "/protocolfees") protocol_fees
      ∷ [])
    ++ group (codes "/coins") [] (
        at_post (codes "/add") add_token
        ∷ at_get (codes "/all") all_tokens
        ∷ at_get (codes "/:contract") token_by_contract
        ∷ [])
    ++ group (codes "/v2") [] (
        at_get (codes "/pools/all") all_v2_pools
        ∷ at_get (codes "/pools/:contract") pool_by_contract
        ∷ at_get (codes "/pools/overview") overview_all_v2
        ∷ at_get (codes "/pools/:contract/overview") overview_by_contract
        ∷ at_get (codes "/pools/:contract/time-stats") stat_by_contract
        ∷ [])
    ++ group (codes "/v3") [] (
        at_get (codes "/pools/all") all_v3_pools
        ∷ at_get (codes "/pools/:contract") pool_by_contract
        ∷ at_get (codes "/pools/overview") overview_all_v3
        ∷ at_get (codes "/pools/:contract/overview") overview_by_contract
        ∷ at_get (codes "/pools/:contract/time-stats") stat_by_contract
        ∷ at_get (codes "/nfts/:user/:collection") nft_tokens_by_user
        ∷ at_get (codes "/volume") volume_by_pool
        ∷ at_get (codes "/volumes") volumes
        ∷ [])
    ++ group (codes "/gecko") []
        (at_get (codes "/ticker") all_tickers ∷ at_get (codes "/usdprices") usd_prices ∷ [])
    ++ group (codes "/admin") (verifies_signature ∷ []) (
        at_get (codes "/pool/add") add_pool
        ∷ at_get (codes "/pool/state") change_pool_state
        ∷ at_get (codes "/coin/public") change_token_public
        ∷ [])

-- What the process is set up with.
pub record Setup (W : Type 0) : Type 0 where
  pub crypto : Crypto
  pub formats : Formats W
  pub stat_days : ℤ
  pub admins : Dict Text Bool

-- The clock and the database during a request.
pub record Moment : Type 0 where
  pub now : ℕ
  pub write_error : Option Text
  pub fee_rows : Storage.Rows ProtocolFee
  pub nft_rows : Storage.Rows NftColumns
  pub stat_table : StatTable
  pub times : Text → ℕ × ℕ
  pub day_table : Text → ℤ → Storage.Rows (Text × Text)

-- `c.Param`, `c.Query` and `c.PostForm`, which give the empty string for what is missing.
pub record Context : Type 0 where
  pub param : Text → Text
  pub query : Text → Text
  pub post_form : Text → Text

pub record Request : Type 0 where
  pub method : Method
  pub path : Text
  pub query : Text → Text
  pub post_form : Text → Text

-- gin's choice of a route by its place in the list, with the parameters of its path.
pub record Gin : Type 0 where
  pub find : List (Method × Text) → Method → Text → Option (ℕ × (Text → Text))

-- What the handlers share: the registry, the maps of the statistics, `poolStatsM` and the prices.
pub record Site (W : Type 0) : Type 0 where
  pub registry : Registry
  pub globals : Globals
  pub pool_stats : Dict Text (List DayStat)
  pub prices : Prices W

pub data Body (W : Type 0) : Type 0 where
  text : Reply Unit → Body W
  price : W → Body W
  coins : Reply (List Coin) → Body W
  coin : Reply Coin → Body W
  pools : Reply (List Registry.Pool) → Body W
  pool : Reply Registry.Pool → Body W
  overviews : Reply (List PoolOverview) → Body W
  overview : Reply PoolOverview → Body W
  days : Reply (List DayStat) → Body W
  fees : Reply (List ProtocolFee) → Body W
  nfts : Reply (List NftRow) → Body W
  volume : Reply (ℤ × (ℤ × ℤ)) → Body W
  ticker_list : Reply (List Ticker) → Body W
  price_list : Reply (List (TokenUsdPrice W)) → Body W
  nothing : Body W

-- No route, an answer of `VerifySignature`, or what a handler wrote.
pub data Response (W : Type 0) : Type 0 where
  not_found : Response W
  refused : Verdict → Response W
  replied : Body W → Response W

abbrev pub token_form : Context → TokenForm
token_form c = record {
  symbol = c.post_form (codes "symbol");
  contract = c.post_form (codes "contract");
  code = c.post_form (codes "code");
  decimal = c.post_form (codes "decimal");
  type = c.post_form (codes "type");
  public = c.post_form (codes "public");
}

abbrev pub pool_form : Context → PoolForm
pool_form c = record {
  contract = c.post_form (codes "contract");
  version = c.post_form (codes "version");
  token0 = c.post_form (codes "token0");
  token1 = c.post_form (codes "token1");
  fee_rate = c.post_form (codes "fee_rate");
}
