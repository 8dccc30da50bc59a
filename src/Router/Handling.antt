-- ===== src/Router/Handling.antt =====
-- How a request to the routes of api/router.go is served: the middleware of its route, and its handler.
use ibswap_api.Common.{Option, none, some, List, [], ◌∷◌, get_elem?, map}
use ibswap_api.Common.Int.{ℤ, pos}
use ibswap_api.Common.Eq.{Text, codes}
use ibswap_api.Common.Outcome.{Outcome, ok, ◌>>=◌}
use ibswap_api.Access.{Verdict, expired, sign_error, forbidden, passed, verify_signature}
use ibswap_api.Registry.{Registry, get_coins, get_pools}
use ibswap_api.Stats.Discovery.{State, Effect}
use ibswap_api.Stats.Overview.{Api, overview_pools}
use ibswap_api.Prices.{get_eth_price}
use ibswap_api.Handlers.{
  json, add_token_handler, add_pool_handler, change_pool_state_handler, change_token_public_handler,
  protocol_fees_handler, get_token_by_contract, get_pool_by_contract, overview_pool_by_contract,
  stat_pool_by_contract, get_nft_tokens_by_user, get_volume_by_pool,
}
use ibswap_api.Handlers.Gecko.{get_usd_prices}
use ibswap_api.Handlers.Tickers.{tickers}
use ibswap_api.Router.{
  Endpoint, eth_price, all_tokens, token_by_contract, add_token, all_v2_pools, all_v3_pools,
  pool_by_contract, overview_all_v2, overview_all_v3, overview_by_contract, stat_by_contract,
  protocol_fees, nft_tokens_by_user, volume_by_pool, volumes, all_tickers, usd_prices, add_pool,
  change_pool_state, change_token_public, Guard, verifies_signature, Route, init_router, Setup,
  Moment, Context, Request, Gin, Site, Body, text, price, coins, coin, pools, pool, overviews,
  overview, days, fees, nfts, volume, ticker_list, price_list, nothing, Response, not_found,
  refused, replied, token_form, pool_form,
}

-- `c.Next` for a request that has passed, and `c.Abort` for any other.
abbrev pub go_on : Outcome Verdict → Verdict → Outcome Verdict
go_on rest passed = rest
go_on rest expired = ok expired
go_on rest sign_error = ok sign_error
go_on rest forbidden = ok forbidden

-- What a handler wrote and left, with the watchers that it started.
abbrev pub Handled : Type 0 → Type 0
Handled W = Body W × Site W × List Effect

module _ {W : Type 0} where
  abbrev pub api_of : Site W → Api
  api_of s = record { globals = s.globals; pool_stats = s.pool_stats }

  abbrev pub put_api : Api → Site W → Site W
  put_api a s = record s { globals = a.globals; pool_stats = a.pool_stats }

  abbrev pub state_of : Site W → State
  state_of s = record { registry = s.registry; globals = s.globals }

  abbrev pub put_state : State → Site W → Site W
  put_state t s = record s { registry = t.registry; globals = t.globals }

  -- `GetAllTokens`
  abbrev pub get_all_tokens : Site W → Handled W
  get_all_tokens s = (coins (json (get_coins s.registry)), s, [])

  -- `GetAllV2Pools` and `GetAllV3Pools`
  abbrev pub get_all_pools : ℤ → Site W → Handled W
  get_all_pools v s =
      let (ps, r) = get_pools v s.registry in (pools (json ps), record s { registry = r }, [])

  -- A handler that may change the registry.
  abbrev pub with_registry : Registry → Site W → Site W
  with_registry r s = record s { registry = r }

module _ {W : Type 0} (u : Setup W) (m : Moment) (c : Context) where
  -- `OverviewAllV2Pools` and `OverviewAllV3Pools`
  unfoldable pub overview_all : ℤ → Site W → Outcome (Handled W)
  overview_all v s = do
    let (ps, r) = get_pools v s.registry
    (rows, a) ← overview_pools u.stat_days m.stat_table m.times ps (api_of s)
    ok (overviews (json rows), put_api a (record s { registry = r }), [])

  -- The handlers, on what gin passes to them.
  unfoldable pub handle : Endpoint → Site W → Outcome (Handled W)
  unfolding overview_all
  handle eth_price s = ok (price (get_eth_price s.prices), s, [])
  handle all_tokens s = ok (get_all_tokens s)
  handle token_by_contract s =
      ok (coin (get_token_by_contract s.registry (c.param (codes "contract"))), s, [])
  handle add_token s =
      let (reply, r) = add_token_handler m.write_error (token_form c) s.registry in
      ok (text reply, with_registry r s, [])
  handle all_v2_pools s = ok (get_all_pools (pos 2) s)
  handle all_v3_pools s = ok (get_all_pools (pos 3) s)
  handle pool_by_contract s =
      ok (pool (get_pool_by_contract s.registry (c.param (codes "contract"))), s, [])
  handle overview_all_v2 s = overview_all (pos 2) s
  handle overview_all_v3 s = overview_all (pos 3) s
  handle overview_by_contract s = do
    let contract = c.param (codes "contract")
    (reply, a) ←
        overview_pool_by_contract u.stat_days m.stat_table (m.times contract) s.registry contract
          (api_of s)
    ok (overview reply, put_api a s, [])
  handle stat_by_contract s =
      let (reply, a) =
        stat_pool_by_contract u.stat_days m.stat_table m.now (c.param (codes "contract"))
          (api_of s) in
      ok (days reply, put_api a s, [])
  handle protocol_fees s = ok (fees (protocol_fees_handler s.registry m.fee_rows), s, [])
  handle nft_tokens_by_user s = ok (
    nfts
        (get_nft_tokens_by_user (c.param (codes "user")) (c.param (codes "collection")) m.nft_rows),
    s,
    [],
  )
  handle volume_by_pool s =
      let contract = c.query (codes "pool") in
      ok (
        volume (get_volume_by_pool m.now contract (c.query (codes "days")) (m.day_table contract)),
        s,
        [],
      )
  handle volumes s = ok (nothing, s, [])
  handle all_tickers s = do
    (reply, rest) ←
        tickers u.formats s.prices u.stat_days m.stat_table m.times s.registry (api_of s)
    ok (ticker_list reply, put_api rest.1 (with_registry rest.0 s), [])
  handle usd_prices s = ok (price_list (get_usd_prices u.formats.float s.prices s.registry), s, [])
  handle add_pool s =
      let (reply, t, es) =
        add_pool_handler u.crypto.hex_to_address m.write_error (pool_form c) (state_of s) in
      ok (text reply, put_state t s, es)
  handle change_pool_state s =
      let (reply, r) =
        change_pool_state_handler m.write_error (c.query (codes "contract"))
          (c.query (codes "state")) s.registry in
      ok (text reply, with_registry r s, [])
  handle change_token_public s =
      let (reply, r) =
        change_token_public_handler m.write_error (c.query (codes "contract"))
          (c.query (codes "public")) s.registry in
      ok (text reply, with_registry r s, [])

  -- What `VerifySignature` says to the request.
  abbrev pub verdict : Outcome Verdict
  verdict =
      verify_signature u.crypto u.admins m.now (c.query (codes "sign")) (c.query (codes "ts"))
        (c.query (codes "address"))

  -- The middleware of a route, of which each may end the request.
  unfoldable pub admit : List Guard → Outcome Verdict
  admit [] = ok passed
  admit (verifies_signature ∷ gs) = do let rest = admit gs; v ← verdict; go_on rest v

  -- What comes of a request to a route after its middleware.
  unfoldable pub answer : Route → Site W → Verdict → Outcome (Response W × Site W × List Effect)
  unfolding handle
  answer r s passed = do (b, s', es) ← handle r.endpoint s; ok (replied b, s', es)
  answer r s expired = ok (refused expired, s, [])
  answer r s sign_error = ok (refused sign_error, s, [])
  answer r s forbidden = ok (refused forbidden, s, [])

  -- A route's chain of handlers.
  unfoldable pub run_route : Route → Site W → Outcome (Response W × Site W × List Effect)
  unfolding admit answer
  run_route r s = do v ← admit r.guards; answer r s v

abbrev pub context : Request → (Text → Text) → Context
context q params = record { param = params; query = q.query; post_form = q.post_form }

-- gin's choice for a request.
unfoldable pub route_of : Gin → Request → Option (Route × (Text → Text))
route_of gin q = elim (gin.find (map (λ r. (r.method, r.path)) init_router) q.method q.path) [
  | none ↦ none
  | some (i, params) ↦ elim (get_elem? init_router i) [ none ↦ none | some r ↦ some (r, params) ]
]

-- A request; a panic in it is answered by `gin.Recovery`, with the status 500.
unfoldable pub serve :
    {W : Type 0}
    → Setup W
    → Gin
    → Moment
    → Request
    → Site W
    → Outcome (Response W × Site W × List Effect)
unfolding route_of run_route
serve u gin m q s = elim (route_of gin q) [
  | none ↦ ok (not_found, s, [])
  | some (r, params) ↦ run_route u m (context q params) r s
]
