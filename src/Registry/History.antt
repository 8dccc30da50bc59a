-- ===== src/Registry/History.antt =====
-- Every state that the program can reach through model/public.go, and what its lookups give.
use ibswap_api.Common.{ℕ, ◌≡◌, Option, none, some, List, [], ◌∷◌}
use ibswap_api.Common.Int.{ℤ}
use ibswap_api.Common.Eq.{Text, text_eq_instance, int_eq}
use ibswap_api.Common.Dict.{lookup}
use ibswap_api.Common.Outcome.{Result, value, error}
use ibswap_api.Registry.{
  Coin, Pool, Registry, new_pool, add_new_pool, add_token, change_pool_state, change_token_public,
  get_pools, pool_by_tokens_and_fee, scan_coins, scan_pools, load_coins, load_pools,
  init_coins_and_pools, empty, no_coins, no_pools,
}
use ibswap_api.Registry.Invariant.{IsValid}
use ibswap_api.Registry.Adding.{add_coin-IsValid, add_pool-IsValid}
use ibswap_api.Registry.Writing.{
  get_pools-IsValid, change_pool_state-IsValid, change_token_public-IsValid,
}

-- A call that changes the registry, with the database's answer where it asks for one.
pub data Call : Type 0 where
  adds_token : Option Text → Text → Text → Text → ℤ → ℤ → ℤ → Call
  adds_pool : Option Text → Text → ℤ → Text → Text → ℤ → Call
  changes_pool : Option Text → Text → ℤ → Call
  changes_token : Option Text → Text → ℤ → Call
  lists_pools : ℤ → Call

unfoldable pub apply : Call → Registry → Registry
apply (adds_token e symbol contract code decimal t public) r =
    (add_token e symbol contract code decimal t public r).1
apply (adds_pool e contract version t0 t1 fee_rate) r =
    (add_new_pool e contract version t0 t1 fee_rate r).1
apply (changes_pool e contract state) r = (change_pool_state e contract state r).1
apply (changes_token e contract public) r = (change_token_public e contract public r).1
apply (lists_pools v) r = (get_pools v r).1

unfoldable pub run : List Call → Registry → Registry
run [] r = r
run (c ∷ cs) r = run cs (apply c r)

apply-IsValid : (c : Call) (r : Registry) → IsValid r → IsValid (apply c r)
unfolding apply add_token add_new_pool
apply-IsValid (adds_token (some e) symbol contract code decimal t public) r v = v
apply-IsValid (adds_token none symbol contract code decimal t public) r v = add_coin-IsValid _ r v
apply-IsValid (adds_pool (some e) contract version t0 t1 fee_rate) r v = v
apply-IsValid (adds_pool none contract version t0 t1 fee_rate) r v =
    add_pool-IsValid (new_pool contract version t0 t1 fee_rate) r v
apply-IsValid (changes_pool e contract state) r v = change_pool_state-IsValid e contract state r v
apply-IsValid (changes_token e contract public) r v =
    change_token_public-IsValid e contract public r v
apply-IsValid (lists_pools w) r v = get_pools-IsValid w r v

pub run-IsValid : (cs : List Call) (r : Registry) → IsValid r → IsValid (run cs r)
unfolding run
run-IsValid [] r v = v
run-IsValid (c ∷ cs) r v = run-IsValid cs (apply c r) (apply-IsValid c r v)

scan_coins-IsValid :
    (rows : List (Result Text Coin)) (r : Registry) → IsValid r → IsValid (scan_coins rows r)
unfolding scan_coins
scan_coins-IsValid [] r v = v
scan_coins-IsValid (error e ∷ rows) r v = scan_coins-IsValid rows r v
scan_coins-IsValid (value c ∷ rows) r v = scan_coins-IsValid rows _ (add_coin-IsValid c r v)

scan_pools-IsValid :
    (rows : List (Result Text Pool)) (r : Registry) → IsValid r → IsValid (scan_pools rows r)
unfolding scan_pools
scan_pools-IsValid [] r v = v
scan_pools-IsValid (error e ∷ rows) r v = scan_pools-IsValid rows r v
scan_pools-IsValid (value q ∷ rows) r v = scan_pools-IsValid rows _ (add_pool-IsValid q r v)

nothing_found : (P : Text → ℕ → Type 0) (k : Text) (p : ℕ) → lookup {V = ℕ} k [] ≡ some p → P k p
unfolding lookup
nothing_found P k p e = absurd (cc)

no_coins-IsValid : (r : Registry) → IsValid r → IsValid (no_coins r)
unfolding pool_by_tokens_and_fee
no_coins-IsValid r v = record {
  coin_keys = nothing_found _;
  coin_list = tt;
  v2_keys = v.v2_keys;
  v3_keys = v.v3_keys;
  v2_list = v.v2_list;
  v3_list = v.v3_list;
  indexed = v.indexed;
}

no_pools-IsValid : (r : Registry) → IsValid r → IsValid (no_pools r)
unfolding pool_by_tokens_and_fee lookup
no_pools-IsValid r v = record {
  coin_keys = v.coin_keys;
  coin_list = v.coin_list;
  v2_keys = nothing_found _;
  v3_keys = nothing_found _;
  v2_list = tt;
  v3_list = tt;
  indexed = λ t0 t1 fee p h. absurd (cc);
}

empty-IsValid : IsValid empty
unfolding pool_by_tokens_and_fee lookup
empty-IsValid = record {
  coin_keys = nothing_found _;
  coin_list = tt;
  v2_keys = nothing_found _;
  v3_keys = nothing_found _;
  v2_list = tt;
  v3_list = tt;
  indexed = λ t0 t1 fee p h. absurd (cc);
}

load_coins-IsValid :
    (q : Result Text (List (Result Text Coin))) (r : Registry)
    → IsValid r
    → IsValid (load_coins q r)
unfolding load_coins
load_coins-IsValid (error e) r v = no_coins-IsValid r v
load_coins-IsValid (value rows) r v = scan_coins-IsValid rows _ (no_coins-IsValid r v)

load_pools-IsValid :
    (q : Result Text (List (Result Text Pool))) (r : Registry)
    → IsValid r
    → IsValid (load_pools q r)
unfolding load_pools
load_pools-IsValid (error e) r v = no_pools-IsValid r v
load_pools-IsValid (value rows) r v = scan_pools-IsValid rows _ (no_pools-IsValid r v)

-- Whatever the tables hold at the start and whatever calls follow, with any answers of the database:
-- each map's pointer is to an element with the map's key (and the map's version), each list's
-- pointer to an element, and what is found by tokens and fee has those tokens and that fee.
pub reachable-IsValid :
    (coins : Result Text (List (Result Text Coin))) (pools : Result Text (List (Result Text Pool)))
    (cs : List Call)
    → IsValid (run cs (init_coins_and_pools coins pools))
unfolding init_coins_and_pools
reachable-IsValid coins pools cs =
    run-IsValid cs _ (load_pools-IsValid pools _ (load_coins-IsValid coins empty empty-IsValid))
