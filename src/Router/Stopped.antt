-- ===== src/Router/Stopped.antt =====
-- api/router.go: what `POST /coins/add`, which any client may send, does to `GET /gecko/ticker`.
use mathlib.Core.List.{Memᴰ}
use ibswap_api.Common.{◌≡◌, refl, sym, ap, ◌∙◌, ◌||◌, false, none, some, [], All-Memᴰ}
use ibswap_api.Common.Int.{ℤ, pos}
use ibswap_api.Common.Dict.{lookup}
use ibswap_api.Common.Eq.{text_eq_instance}
use ibswap_api.Common.Outcome.{ok, panic}
use ibswap_api.Registry
use ibswap_api.Registry.{Coin, add_coin, get_coin, get_pools}
use ibswap_api.Registry.Listing.{HasKey, get_pools-HasKey}
use ibswap_api.Registry.Steady.{add_token-Steady, get_pools-Steady}
use ibswap_api.Stats.Discovery.Grounded.{Grounded-Steady}
use ibswap_api.Handlers.{message, params_error, is_empty, token_numbers}
use ibswap_api.Handlers.Adding.{coin_of, get_coin-add_coin, add_token_handler-entered}
use ibswap_api.Handlers.Tickers.Stopped.{tickers-panic}
use ibswap_api.Router.{Setup, Moment, Context, Site, add_token, all_tickers, text, token_form}
use ibswap_api.Router.Handling.{api_of, with_registry, handle}
use ibswap_api.Router.Replies.{IsReady, get_pools-IsReady, get_pool-HasKey}

-- The site after a form for a coin.
abbrev pub with_coin : {W : Type 0} → Coin → Site W → Site W
with_coin c s = with_registry (add_coin c s.registry) s

with_coin-IsReady : {W : Type 0} (c : Coin) (s : Site W) → IsReady s → IsReady (with_coin c s)
unfolding Registry.add_token
with_coin-IsReady c s (g, kept) =
    let steady =
      add_token-Steady none c.symbol c.contract c.code c.decimal c.type c.public s.registry in
    (
      Grounded-Steady s.registry _ s.globals steady g,
      λ k p f. kept k p (ap (lookup k) (sym steady.v3) ∙ f),
    )

-- A site in step, whose `GetPools` gives a V3 pool, and whose coins are such that `Tickers` divides by 0.
ready_tickers-panic :
    {W : Type 0} (u : Setup W) (m : Moment) (c : Context) (s : Site W) (p : Registry.Pool)
    (c0 c1 : Coin)
    → IsReady s
    → Memᴰ p (get_pools (pos 3) s.registry).0
    → get_coin s.registry p.token0 ≡ some c0
    → get_coin s.registry p.token1 ≡ some c1
    → u.formats.pow10_int64 c0.decimal ≡ pos 0
    → handle u m c all_tickers s ≡ panic
unfolding handle
ready_tickers-panic u m c s p c0 c1 h on e0 e1 z =
    let r = s.registry in
    let r' = (get_pools (pos 3) r).1 in
    let (i, e) =
      All-Memᴰ (λ q. HasKey r.pool_m_v3 q.contract) (get_pools (pos 3) r).0 on
        (get_pools-HasKey r h.0.listed) in
    let named = get_pools-IsReady (pos 3) s h in
    let (p1, f, same) =
      get_pool-HasKey r' p.contract named.0.valid
        (i, ap (lookup p.contract) (get_pools-Steady (pos 3) r).v3 ∙ e) in
    rw
      (tickers-panic u.formats s.prices u.stat_days m.stat_table m.times r (api_of s) p p1 c0 c1 on
        e0 e1 z f same (h.1 p.contract i e))
      refl

-- When the registry and the maps of the statistics are in step, take a complete form for a coin with
-- decimals of which the power of 10 is 0 as an int64, and a V3 pool that `GetPools` then gives, with the
-- form's contract as its first token and its other token known. `AddToken` of the form, when the database
-- does not fail, enters the coin; and after it every request for `Tickers` ends in a panic.
pub add_token_stops_tickers :
    {W : Type 0} (u : Setup W) (m m' : Moment) (c c' : Context) (s : Site W) (n : ℤ × ℤ × ℤ)
    (p : Registry.Pool) (c1 : Coin)
    → IsReady s
    → (is_empty (token_form c).symbol
        || is_empty (token_form c).contract
        || is_empty (token_form c).code)
      ≡ false
    → token_numbers (token_form c) ≡ some n
    → u.formats.pow10_int64 n.0 ≡ pos 0
    → m.write_error ≡ none
    → Memᴰ p (get_pools (pos 3) (add_coin (coin_of (token_form c) n) s.registry)).0
    → p.token0 ≡ (token_form c).contract
    → get_coin (add_coin (coin_of (token_form c) n) s.registry) p.token1 ≡ some c1
    → (handle u m c add_token s
        ≡ ok (text (message params_error), with_coin (coin_of (token_form c) n) s, []))
      × (handle u m' c' all_tickers (with_coin (coin_of (token_form c) n) s) ≡ panic)
unfolding handle
add_token_stops_tickers u m m' c c' s n p c1 h full g z db on first e1 =
    let k = coin_of (token_form c) n in
    (
      ap (λ x. ok (text x.0, with_registry x.1 s, []))
          (add_token_handler-entered m.write_error (token_form c) n s.registry db full g),
      ready_tickers-panic u m' c' (with_coin k s) p k c1 (with_coin-IsReady k s h) on
          (ap (get_coin (add_coin k s.registry)) first ∙ get_coin-add_coin k s.registry) e1 z,
    )
