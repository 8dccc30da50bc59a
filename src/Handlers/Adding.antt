-- ===== src/Handlers/Adding.antt =====
-- api/public.go and api/admin.go: what comes of adding a token and of adding a pool.
use ibswap_api.Common.{
  ℕ, ◌≡◌, refl, ◌⊎◌, inl, inr, false, Option, none, some, List, [], ◌∷◌, ◌||◌, ◌&&◌, Bool-cases,
  length, get_elem?-append_length,
}
use ibswap_api.Common.Int.{ℤ}
use ibswap_api.Common.Eq.{Text, text_eq_instance}
use ibswap_api.Common.Dict.{lookup, lookup-insert_self}
use ibswap_api.Common.Outcome.{panic}
use ibswap_api.Access.{parse_int}
use ibswap_api.Registry.{Coin, Registry, new_pool, add_new_pool, add_token, add_coin, get_coin}
use ibswap_api.Stats.Discovery.{State, watch}
use ibswap_api.Stats.Ticks.{Loop, Arrival, tick_of, set_current, set_utc0, deal_tick, is_zero}
use ibswap_api.Handlers.{
  message, is_empty, params_error, fine, TokenForm, token_numbers, add_token_handler, PoolForm,
  is_wrong, add_pool_handler,
}

abbrev pub coin_of : TokenForm → ℤ × ℤ × ℤ → Coin
coin_of f (d, t, p) = record {
  symbol = f.symbol;
  contract = f.contract;
  code = f.code;
  decimal = d;
  type = t;
  public = p;
}

pub get_coin-add_coin : (c : Coin) (r : Registry) → get_coin (add_coin c r) c.contract ≡ some c
unfolding get_coin add_coin
get_coin-add_coin c r =
    rw (get_coin, lookup-insert_self c.contract (length r.coin_heap) r.coin_m)
      (get_elem?-append_length r.coin_heap c [])

pub add_token_handler-entered :
    (db : Option Text) (f : TokenForm) (n : ℤ × ℤ × ℤ) (r : Registry)
    → db ≡ none
    → (is_empty f.symbol || is_empty f.contract || is_empty f.code) ≡ false
    → token_numbers f ≡ some n
    → add_token_handler db f r ≡ (message params_error, add_coin (coin_of f n) r)
unfolding add_token_handler add_token
add_token_handler-entered (some m) f n r e h g = absurd (cc e)
add_token_handler-entered none f n r e h g = rw (add_token_handler, h, g) refl

-- For a complete form, `AddToken` replies "OK" when the database fails, and then nothing is entered;
-- and it replies "params error" when the database does not fail, although `GetCoin` then gives the new
-- coin for its contract.
pub add_token_handler_inverted :
    (db : Option Text) (f : TokenForm) (n : ℤ × ℤ × ℤ) (r : Registry)
    → (is_empty f.symbol || is_empty f.contract || is_empty f.code) ≡ false
    → token_numbers f ≡ some n
    → ((m : Text) × (db ≡ some m) × (add_token_handler db f r ≡ (message fine, r)))
      ⊎ ((r' : Registry) × (db ≡ none)
          × (add_token_handler db f r ≡ (message params_error, r'))
          × (get_coin r' f.contract ≡ some (coin_of f n)))
unfolding add_token_handler add_token
add_token_handler_inverted (some m) f n r h g = inl (m, refl, rw (add_token_handler, h, g) refl)
add_token_handler_inverted none f n r h g = inr (
  add_coin (coin_of f n) r,
  refl,
  add_token_handler-entered none f n r refl h g,
  get_coin-add_coin (coin_of f n) r,
)

-- A tick of an address without reserves, whatever it brings.
deal_tick_panics :
    (a : Arrival) (l : Loop)
    → lookup a.stat.address l.globals.utc0_reserves ≡ none
    → lookup a.stat.address l.globals.curr_reserves ≡ none
    → deal_tick a l ≡ panic
unfolding deal_tick
deal_tick_panics a l u c = elim (Bool-cases (is_zero a.stat.volume0 && is_zero a.stat.volume1)) [
  | inl idle ↦ rw (deal_tick, tick_of, idle, c) refl
  | inr trade ↦ elim (Bool-cases (is_zero a.stat.reserve0)) [
    | inl no_balance ↦ rw (deal_tick, tick_of, trade, set_current, no_balance, set_utc0, u) refl
    | inr balance ↦ rw (deal_tick, tick_of, trade, set_current, balance, c) refl
  ]
]

-- When an administrator adds a pool and the database does not fail, `AddPool` replies "OK" and starts a
-- watcher of the pool; but it leaves the maps of the statistics without the pool. If they had no
-- reserves for an address, the first tick of that address makes `dealTickV3` panic.
pub add_pool_handler_panics :
    (hex : Text → List ℕ) (f : PoolForm) (s : State) (a : Arrival) (pre0 pre1 : ℤ)
    → is_wrong f ≡ false
    → lookup a.stat.address s.globals.utc0_reserves ≡ none
    → lookup a.stat.address s.globals.curr_reserves ≡ none
    → let q = new_pool f.contract (parse_int f.version) f.token0 f.token1 (parse_int f.fee_rate) in
      (s' : State) × (add_pool_handler hex none f s ≡ (message fine, s', watch hex q ∷ []))
      × (deal_tick a (record { globals = s'.globals; pre_reserve0 = pre0; pre_reserve1 = pre1 })
          ≡ panic)
unfolding add_pool_handler add_new_pool
add_pool_handler_panics hex f s a pre0 pre1 h u c = (
  record s {
    registry =
        (add_new_pool none f.contract (parse_int f.version) f.token0 f.token1 (parse_int f.fee_rate)
          s.registry).1;
  },
  rw (add_pool_handler, h) refl,
  deal_tick_panics a (record { globals = s.globals; pre_reserve0 = pre0; pre_reserve1 = pre1 }) u c,
)
