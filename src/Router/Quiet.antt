-- ===== src/Router/Quiet.antt =====
-- api/router.go: a request that starts no watcher leaves what the tasks of service/ rest on.
use ibswap_api.Common.{
  ℕ, ◌≡◌, inl, inr, Option, none, some, List, [], ◌||◌, Bool-cases, Option-cases,
}
use ibswap_api.Common.Int.{ℤ, pos}
use ibswap_api.Common.Eq.{Text, codes}
use ibswap_api.Common.Outcome.{Yields, Yields-bind, Yields-then}
use ibswap_api.Access.{Verdict, expired, sign_error, forbidden, passed}
use ibswap_api.Registry.{Registry, get_pools, add_new_pool}
use ibswap_api.Registry.Steady.{
  Steady, Steady-refl, get_pools-Steady, add_token-Steady, change_pool_state-Steady,
  change_token_public-Steady,
}
use ibswap_api.Stats.Discovery.{State, Effect}
use ibswap_api.Stats.Overview.{overview_pools}
use ibswap_api.Stats.Overview.Calm.{
  Calm, Calm-refl, CalmApi, overview_pools-Calm, overview_pools_by_contract-Calm,
}
use ibswap_api.Handlers.{
  Reply, TokenForm, is_empty, parsed, token_numbers, add_token_handler, change_pool_state_handler,
  change_token_public_handler, overview_pool_by_contract, stat_pool_by_contract, PoolForm, is_wrong,
  add_pool_handler,
}
use ibswap_api.Handlers.Tickers.{tickers, ticker_rows}
use ibswap_api.Handlers.Tickers.Calm.{ticker_rows-Calm}
use ibswap_api.Stats.Overview.{overview_pools_by_contract}
use ibswap_api.Router.{
  Endpoint, eth_price, all_tokens, token_by_contract, add_token, all_v2_pools, all_v3_pools,
  pool_by_contract, overview_all_v2, overview_all_v3, overview_by_contract, stat_by_contract,
  protocol_fees, nft_tokens_by_user, volume_by_pool, volumes, all_tickers, usd_prices, add_pool,
  change_pool_state, change_token_public, Route, Setup, Moment, Context, Request, Gin, Site,
  token_form, pool_form,
}
use ibswap_api.Router.Handling.{
  api_of, state_of, handle, overview_all, admit, answer, run_route, context, route_of, serve,
}

-- A handler's reply says whether there was an error, and its registry is the same either way.
either :
    (P : Registry → Type 0) (e : Option Text) (yes_text no_text : Reply Unit) (r : Registry)
    → P r
    → P (elim e as (λ e. Reply Unit × Registry) [ none ↦ (no_text, r) | some m ↦ (yes_text, r) ]).1
either P none a b r h = h
either P (some m) a b r h = h

add_token_handler-Steady :
    (db : Option Text) (f : TokenForm) (r : Registry) → Steady r (add_token_handler db f r).1
unfolding add_token_handler
add_token_handler-Steady db f r =
    elim (Bool-cases (is_empty f.symbol || is_empty f.contract || is_empty f.code)) [
      | inl e ↦ rw (e, add_token_handler) (Steady-refl r)
      | inr e ↦ elim (Option-cases (token_numbers f)) [
        | inl n ↦ rw (e, n, add_token_handler) (Steady-refl r)
        | inr ((d, t, p), n) ↦
            rw (e, n, add_token_handler)
              (either (Steady r) _ _ _ _ (add_token-Steady db f.symbol f.contract f.code d t p r))
      ]
    ]

change_pool_state_handler-Steady :
    (db : Option Text) (k n : Text) (r : Registry) → Steady r (change_pool_state_handler db k n r).1
unfolding change_pool_state_handler
change_pool_state_handler-Steady db k n r = elim (Bool-cases (is_empty k)) [
  | inl e ↦ rw (e, change_pool_state_handler) (Steady-refl r)
  | inr e ↦ elim (Option-cases (parsed n)) [
    | inl p ↦ rw (e, p, change_pool_state_handler) (Steady-refl r)
    | inr (i, p) ↦
        rw (e, p, change_pool_state_handler)
          (either (Steady r) _ _ _ _ (change_pool_state-Steady db k i r))
  ]
]

change_token_public_handler-Steady :
    (db : Option Text) (k n : Text) (r : Registry)
    → Steady r (change_token_public_handler db k n r).1
unfolding change_token_public_handler
change_token_public_handler-Steady db k n r = elim (Bool-cases (is_empty k)) [
  | inl e ↦ rw (e, change_token_public_handler) (Steady-refl r)
  | inr e ↦ elim (Option-cases (parsed n)) [
    | inl p ↦ rw (e, p, change_token_public_handler) (Steady-refl r)
    | inr (i, p) ↦
        rw (e, p, change_token_public_handler)
          (either (Steady r) _ _ _ _ (change_token_public-Steady db k i r))
  ]
]

-- What a request that starts no watcher does.
abbrev pub Quiet : {W A : Type 0} → Site W → A × Site W × List Effect → Type 0
Quiet s (a, s', es) = es ≡ [] → Steady s.registry s'.registry × Calm s.globals s'.globals

add_pool_handler-Quiet :
    (hex : Text → List ℕ) (db : Option Text) (f : PoolForm) (t : State)
    → (add_pool_handler hex db f t).2 ≡ []
    → Steady t.registry (add_pool_handler hex db f t).1.registry
      × Calm t.globals (add_pool_handler hex db f t).1.globals
unfolding add_pool_handler add_new_pool
add_pool_handler-Quiet hex (some m) f t h = elim (Bool-cases (is_wrong f)) [
  | inl e ↦ rw (e, add_pool_handler) (Steady-refl t.registry, Calm-refl t.globals)
  | inr e ↦ rw (e, add_pool_handler) (Steady-refl t.registry, Calm-refl t.globals)
]
add_pool_handler-Quiet hex none f t h = elim (Bool-cases (is_wrong f)) [
  | inl e ↦ rw (e, add_pool_handler) (Steady-refl t.registry, Calm-refl t.globals)
  | inr e ↦ absurd (cc (rw (e, add_pool_handler) at h))
]

module _ {W : Type 0} (u : Setup W) (m : Moment) (c : Context) where
  overview_all-Quiet : (v : ℤ) (s : Site W) → Yields (Quiet s) (overview_all u m c v s)
  unfolding overview_all
  overview_all-Quiet v s =
      Yields-then _ (Quiet s)
        (overview_pools u.stat_days m.stat_table m.times (get_pools v s.registry).0 (api_of s)) _
        (overview_pools-Calm u.stat_days m.stat_table m.times (get_pools v s.registry).0 (api_of s))
        (λ x h _. (get_pools-Steady v s.registry, h))

  overview_by_contract-Quiet : (s : Site W) → Yields (Quiet s) (handle u m c overview_by_contract s)
  unfolding handle overview_pool_by_contract
  overview_by_contract-Quiet s =
      let contract = c.param (codes "contract") in
      Yields-then (CalmApi s.globals) (Quiet s)
        (overview_pool_by_contract u.stat_days m.stat_table (m.times contract) s.registry contract
          (api_of s))
        _
        (Yields-then _ (CalmApi s.globals)
          (overview_pools_by_contract u.stat_days m.stat_table (m.times contract) s.registry
            contract (api_of s))
          _
          (overview_pools_by_contract-Calm u.stat_days m.stat_table (m.times contract) s.registry
            contract (api_of s))
          (λ x h. h))
        (λ x h _. (Steady-refl s.registry, h))

  tickers-Quiet : (s : Site W) → Yields (Quiet s) (handle u m c all_tickers s)
  unfolding handle tickers
  tickers-Quiet s =
      let r = (get_pools (pos 3) s.registry).1 in
      Yields-then (λ x. Steady s.registry x.1.0 × Calm s.globals x.1.1.globals) (Quiet s)
        (tickers u.formats s.prices u.stat_days m.stat_table m.times s.registry (api_of s)) _
        (Yields-then _ _
          (ticker_rows u.formats s.prices u.stat_days m.stat_table m.times r
            (get_pools (pos 3) s.registry).0 (api_of s))
          _
          (ticker_rows-Calm u.formats s.prices u.stat_days m.stat_table m.times r
            (get_pools (pos 3) s.registry).0 (api_of s))
          (λ x h. (get_pools-Steady (pos 3) s.registry, h)))
        (λ x h _. h)

  handle-Quiet : (e : Endpoint) (s : Site W) → Yields (Quiet s) (handle u m c e s)
  unfolding handle stat_pool_by_contract
  handle-Quiet eth_price s = λ _. (Steady-refl s.registry, Calm-refl s.globals)
  handle-Quiet all_tokens s = λ _. (Steady-refl s.registry, Calm-refl s.globals)
  handle-Quiet token_by_contract s = λ _. (Steady-refl s.registry, Calm-refl s.globals)
  handle-Quiet add_token s =
      λ _. (add_token_handler-Steady m.write_error (token_form c) s.registry, Calm-refl s.globals)
  handle-Quiet all_v2_pools s = λ _. (get_pools-Steady (pos 2) s.registry, Calm-refl s.globals)
  handle-Quiet all_v3_pools s = λ _. (get_pools-Steady (pos 3) s.registry, Calm-refl s.globals)
  handle-Quiet pool_by_contract s = λ _. (Steady-refl s.registry, Calm-refl s.globals)
  handle-Quiet overview_all_v2 s = overview_all-Quiet (pos 2) s
  handle-Quiet overview_all_v3 s = overview_all-Quiet (pos 3) s
  handle-Quiet overview_by_contract s = overview_by_contract-Quiet s
  handle-Quiet stat_by_contract s = λ _. (Steady-refl s.registry, Calm-refl s.globals)
  handle-Quiet protocol_fees s = λ _. (Steady-refl s.registry, Calm-refl s.globals)
  handle-Quiet nft_tokens_by_user s = λ _. (Steady-refl s.registry, Calm-refl s.globals)
  handle-Quiet volume_by_pool s = λ _. (Steady-refl s.registry, Calm-refl s.globals)
  handle-Quiet volumes s = λ _. (Steady-refl s.registry, Calm-refl s.globals)
  handle-Quiet all_tickers s = tickers-Quiet s
  handle-Quiet usd_prices s = λ _. (Steady-refl s.registry, Calm-refl s.globals)
  handle-Quiet add_pool s =
      λ h. add_pool_handler-Quiet u.crypto.hex_to_address m.write_error (pool_form c) (state_of s) h
  handle-Quiet change_pool_state s = λ _. (
    change_pool_state_handler-Steady m.write_error (c.query (codes "contract"))
        (c.query (codes "state")) s.registry,
    Calm-refl s.globals,
  )
  handle-Quiet change_token_public s = λ _. (
    change_token_public_handler-Steady m.write_error (c.query (codes "contract"))
        (c.query (codes "public")) s.registry,
    Calm-refl s.globals,
  )

  answer-Quiet : (r : Route) (s : Site W) (v : Verdict) → Yields (Quiet s) (answer u m c r s v)
  unfolding answer
  answer-Quiet r s passed =
      Yields-then (Quiet s) (Quiet s) (handle u m c r.endpoint s) _ (handle-Quiet r.endpoint s)
        (λ x h. h)
  answer-Quiet r s expired = λ _. (Steady-refl s.registry, Calm-refl s.globals)
  answer-Quiet r s sign_error = λ _. (Steady-refl s.registry, Calm-refl s.globals)
  answer-Quiet r s forbidden = λ _. (Steady-refl s.registry, Calm-refl s.globals)

  run_route-Quiet : (r : Route) (s : Site W) → Yields (Quiet s) (run_route u m c r s)
  unfolding run_route
  run_route-Quiet r s = Yields-bind (Quiet s) (admit u m c r.guards) _ (λ v. answer-Quiet r s v)

pub serve-Quiet :
    {W : Type 0} (u : Setup W) (gin : Gin) (m : Moment) (q : Request) (s : Site W)
    → Yields (Quiet s) (serve u gin m q s)
unfolding serve
serve-Quiet u gin m q s = elim (Option-cases (route_of gin q)) [
  | inl e ↦ rw (e, serve) (λ _. (Steady-refl s.registry, Calm-refl s.globals))
  | inr ((r, params), e) ↦ rw (e, serve) (run_route-Quiet u m (context q params) r s)
]
