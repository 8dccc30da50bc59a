-- ===== src/Router/Replies.antt =====
-- api/router.go: the requests that get a response, without a panic of their handler.
use ibswap_api.Common.{
  ℕ, ◌≡◌, Bool, true, false, refl, sym, ap, ◌∙◌, ◌⊎◌, inl, inr, none, some, List, [], ◌∷◌, All,
  Memᴰ-All, Option-cases,
}
use ibswap_api.Common.Int.{ℤ, pos}
use ibswap_api.Common.Eq.{Text, codes, text_eq_instance}
use ibswap_api.Common.Dict.{lookup}
use ibswap_api.Common.Outcome.{Outcome, Returns, Returns-bind}
use ibswap_api.Access.{Verdict, expired, sign_error, forbidden, passed}
use ibswap_api.Access.Admission.{verify_signature-Signed}
use ibswap_api.Registry
use ibswap_api.Registry.{Registry, get_pool, get_pools}
use ibswap_api.Registry.Invariant.{IsValid}
use ibswap_api.Registry.Listing.{HasKey}
use ibswap_api.Stats.Discovery.Kept.{AllKept}
use ibswap_api.Stats.Discovery.Grounded.{Grounded, Grounded-Steady, IsHeld}
use ibswap_api.Stats.Overview.{StatTable, overview_pools, overview_pools_by_contract}
use ibswap_api.Stats.Overview.Rows.{
  IsSteady, overview_pools_rows, overview_pools_by_contract-key, overview_pools_by_contract-error,
}
use ibswap_api.Handlers.{overview_pool_by_contract}
use ibswap_api.Handlers.Tickers.{tickers}
use ibswap_api.Handlers.Tickers.Listed.{Divisible}
use ibswap_api.Handlers.Tickers.Answered.{IsBacked, tickers-Returns}
use ibswap_api.Registry.Steady.{get_pools-Steady}
use ibswap_api.Router.{
  Endpoint, eth_price, all_tokens, token_by_contract, add_token, all_v2_pools, all_v3_pools,
  pool_by_contract, overview_all_v2, overview_all_v3, overview_by_contract, stat_by_contract,
  protocol_fees, nft_tokens_by_user, volume_by_pool, volumes, all_tickers, usd_prices, add_pool,
  change_pool_state, change_token_public, Guard, verifies_signature, Route, Setup, Moment, Context,
  Request, Gin, Site,
}
use ibswap_api.Router.Handling.{
  api_of, state_of, handle, overview_all, go_on, verdict, admit, answer, run_route, context,
  route_of, serve,
}

-- A V3 pool of the registry is found by its contract, if only as the V2 pool of the same contract.
pub get_pool-HasKey :
    (r : Registry) (k : Text)
    → IsValid r
    → HasKey r.pool_m_v3 k
    → (p : Registry.Pool) × (get_pool r k ≡ some p) × (p.contract ≡ k)
unfolding get_pool
get_pool-HasKey r k v (i, h) = elim (Option-cases (lookup k r.pool_m_v2)) [
  | inr (j, e) ↦ let (p, f, same) = v.v2_keys k j e in (p, rw (e, get_pool) f, same.0)
  | inl e ↦ let (p, f, same) = v.v3_keys k i h in (p, rw (e, get_pool, h) f, same.0)
]

-- The registry and the maps of the statistics are in step.
abbrev pub IsReady : {W : Type 0} → Site W → Type 0
IsReady s = Grounded (state_of s) × AllKept (state_of s)

-- The registry is in step with the maps, but for pools that have no statistics yet.
abbrev pub IsInStep : {W : Type 0} → Site W → Type 0
IsInStep s = Grounded (state_of s) × IsHeld s.globals

pub IsReady-IsInStep : {W : Type 0} (s : Site W) → IsReady s → IsInStep s
IsReady-IsInStep s (g, kept) =
    (g, λ k. elim (g.domain k) [ inl e ↦ inl e | inr (p, e) ↦ inr (kept k p e) ])

-- The registry that `GetPools` leaves is in step with the maps too.
pub get_pools-IsReady :
    {W : Type 0} (v : ℤ) (s : Site W)
    → IsReady s
    → IsReady (record s { registry = (get_pools v s.registry).1 })
get_pools-IsReady v s (g, kept) =
    let steady = get_pools-Steady v s.registry in
    (
      Grounded-Steady s.registry _ s.globals steady g,
      λ k p f. kept k p (ap (lookup k) (sym steady.v3) ∙ f),
    )

ready-IsSteady : {W : Type 0} (s : Site W) (k : Text) → IsInStep s → IsBacked s.registry s.globals k
ready-IsSteady s k (g, held) = elim (held k) [
  | inl e ↦ inl e
  | inr i ↦ elim (g.domain k) [
    | inl e ↦ inl e
    | inr h ↦ inr (i, get_pool-HasKey s.registry k g.valid h)
  ]
]

overview_pools_by_contract-Returns :
    {W : Type 0} (days : ℤ) (table : StatTable) (t : ℕ × ℕ) (k : Text) (s : Site W)
    → IsInStep s
    → Returns (overview_pools_by_contract days table t s.registry k (api_of s))
overview_pools_by_contract-Returns days table t k s h = elim (ready-IsSteady s k h) [
  | inl e ↦ (_, overview_pools_by_contract-error days table t s.registry k (api_of s) e)
  | inr (kept, (p, found_pool, same)) ↦ (
    _,
    overview_pools_by_contract-key days table t s.registry p k kept.0 (api_of s) same kept.1
        found_pool,
  )
]

all-IsSteady :
    {W : Type 0} (s : Site W) (ps : List Registry.Pool)
    → IsInStep s
    → All (λ p. IsSteady s.globals p.contract) ps
all-IsSteady s ps h =
    Memᴰ-All _ ps
      (λ p m. elim (ready-IsSteady s p.contract h) [ inl e ↦ inl e | inr (i, j) ↦ inr i ])

abbrev is_tickers : Endpoint → Bool
is_tickers all_tickers = true
is_tickers e = false

get_pools-IsInStep :
    {W : Type 0} (v : ℤ) (s : Site W)
    → IsInStep s
    → IsInStep (record s { registry = (get_pools v s.registry).1 })
get_pools-IsInStep v s (g, held) =
    (Grounded-Steady s.registry _ s.globals (get_pools-Steady v s.registry) g, held)

-- The request is for `Tickers`.
abbrev pub asks_tickers : Gin → Request → Bool
asks_tickers gin q = elim (route_of gin q) [ none ↦ false | some (r, ps) ↦ is_tickers r.endpoint ]

go_on-Returns : (o : Outcome Verdict) → Returns o → (v : Verdict) → Returns (go_on o v)
go_on-Returns o h passed = h
go_on-Returns o h expired = (expired, refl)
go_on-Returns o h sign_error = (sign_error, refl)
go_on-Returns o h forbidden = (forbidden, refl)

-- `Tickers` divides by the power of 10 of each coin.
abbrev pub CanServe : {W : Type 0} → Setup W → Bool → Site W → Type 0
CanServe u for_tickers s = (for_tickers ≡ false) ⊎ Divisible u.formats s.prices s.registry

module _ {W : Type 0} (u : Setup W) (m : Moment) (c : Context) where
  overview_all-Returns : (v : ℤ) (s : Site W) → IsInStep s → Returns (overview_all u m c v s)
  unfolding overview_all
  overview_all-Returns v s h =
      let ps = (get_pools v s.registry).0 in
      let (rows, a, e, _) =
        overview_pools_rows u.stat_days m.stat_table m.times ps (api_of s) (all-IsSteady s ps h) in
      Returns-bind (overview_pools u.stat_days m.stat_table m.times ps (api_of s)) _ ((rows, a), e)
        (λ x. (_, refl))

  overview_by_contract-Returns :
      (s : Site W) → IsInStep s → Returns (handle u m c overview_by_contract s)
  unfolding handle overview_pool_by_contract
  overview_by_contract-Returns s h =
      let k = c.param (codes "contract") in
      let t = m.times k in
      Returns-bind (overview_pool_by_contract u.stat_days m.stat_table t s.registry k (api_of s)) _
        (Returns-bind
          (overview_pools_by_contract u.stat_days m.stat_table t s.registry k (api_of s)) _
          (overview_pools_by_contract-Returns u.stat_days m.stat_table t k s h) (λ x. (_, refl)))
        (λ x. (_, refl))

  all_tickers-Returns :
      (s : Site W) → CanServe u true s → IsInStep s → Returns (handle u m c all_tickers s)
  unfolding handle
  all_tickers-Returns s (inl n) h = absurd (cc n)
  all_tickers-Returns s (inr d) h =
      let r' = (get_pools (pos 3) s.registry).1 in
      Returns-bind
        (tickers u.formats s.prices u.stat_days m.stat_table m.times s.registry (api_of s)) _
        (tickers-Returns u.formats s.prices u.stat_days m.stat_table m.times s.registry (api_of s) d
          (λ k. ready-IsSteady (record s { registry = r' }) k (get_pools-IsInStep (pos 3) s h)))
        (λ x. (_, refl))

  handle-Returns :
      (e : Endpoint) (s : Site W)
      → CanServe u (is_tickers e) s
      → IsInStep s
      → Returns (handle u m c e s)
  unfolding handle
  handle-Returns eth_price s n h = (_, refl)
  handle-Returns all_tokens s n h = (_, refl)
  handle-Returns token_by_contract s n h = (_, refl)
  handle-Returns add_token s n h = (_, refl)
  handle-Returns all_v2_pools s n h = (_, refl)
  handle-Returns all_v3_pools s n h = (_, refl)
  handle-Returns pool_by_contract s n h = (_, refl)
  handle-Returns overview_all_v2 s n h = overview_all-Returns (pos 2) s h
  handle-Returns overview_all_v3 s n h = overview_all-Returns (pos 3) s h
  handle-Returns overview_by_contract s n h = overview_by_contract-Returns s h
  handle-Returns stat_by_contract s n h = (_, refl)
  handle-Returns protocol_fees s n h = (_, refl)
  handle-Returns nft_tokens_by_user s n h = (_, refl)
  handle-Returns volume_by_pool s n h = (_, refl)
  handle-Returns volumes s n h = (_, refl)
  handle-Returns all_tickers s n h = all_tickers-Returns s n h
  handle-Returns usd_prices s n h = (_, refl)
  handle-Returns add_pool s n h = (_, refl)
  handle-Returns change_pool_state s n h = (_, refl)
  handle-Returns change_token_public s n h = (_, refl)

  verdict-Returns : Returns (verdict u m c)
  verdict-Returns =
      elim (verify_signature-Signed u.crypto u.admins m.now (c.query (codes "sign"))
        (c.query (codes "ts")) (c.query (codes "address"))) [
          | inl (e, signed) ↦ (passed, e)
          | inr (v, e, n) ↦ (v, e)
        ]

  admit-Returns : (gs : List Guard) → Returns (admit u m c gs)
  unfolding admit
  admit-Returns [] = (passed, refl)
  admit-Returns (verifies_signature ∷ gs) =
      Returns-bind (verdict u m c) _ verdict-Returns (go_on-Returns _ (admit-Returns gs))

  answer-Returns :
      (r : Route) (s : Site W) (v : Verdict)
      → CanServe u (is_tickers r.endpoint) s
      → IsInStep s
      → Returns (answer u m c r s v)
  unfolding answer
  answer-Returns r s passed n h =
      Returns-bind (handle u m c r.endpoint s) _ (handle-Returns r.endpoint s n h) (λ x. (_, refl))
  answer-Returns r s expired n h = (_, refl)
  answer-Returns r s sign_error n h = (_, refl)
  answer-Returns r s forbidden n h = (_, refl)

-- When the registry's invariants hold, and what has current reserves is a V3 pool of the registry and has
-- all its statistics, every request gets a response, without a panic: there is no route for it, it is refused, or a handler answers it. For a request for `Tickers`,
-- no coin of the registry may have decimals of which the power of 10 is 0 as an int64.
pub serve-Returns :
    {W : Type 0} (u : Setup W) (gin : Gin) (m : Moment) (q : Request) (s : Site W)
    → IsInStep s
    → CanServe u (asks_tickers gin q) s
    → Returns (serve u gin m q s)
unfolding serve
serve-Returns u gin m q s h n = elim (Option-cases (route_of gin q)) [
  | inl e ↦ rw (e, serve) (_, refl)
  | inr ((r, params), e) ↦
      let c = context q params in
      rw (e, serve, run_route)
        (Returns-bind (admit u m c r.guards) _ (admit-Returns u m c r.guards)
          (λ v. answer-Returns u m c r s v (served r params e) h))
]
  where
    served :
        (r : Route) (ps : Text → Text)
        → route_of gin q ≡ some (r, ps)
        → CanServe u (is_tickers r.endpoint) s
    served r ps e = rw (e, asks_tickers) at n
