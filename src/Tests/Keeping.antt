-- ===== src/Tests/Keeping.antt =====
-- The registry of model/public.go and the statistics of service/task.go and service/types.go on
-- concrete histories.
use ibswap_api.Common.{ℕ, ◌+◌, ◌≡◌, refl, none, some, List, [], ◌∷◌, map, arith, All, get_elem?}
use ibswap_api.Common.Int.{pos}
use ibswap_api.Common.Eq.{Text, codes, text_eq_instance, text_eq}
use ibswap_api.Common.Dict.{lookup, insert}
use ibswap_api.Common.Outcome.{ok, value}
use ibswap_api.Chain.Types.{PoolStat}
use ibswap_api.Registry
use ibswap_api.Registry.{
  Coin, Registry, new_pool, add_new_pool, add_pool, int8, pool_by_tokens_and_fee, change_pool_state,
  init_coins_and_pools, get_pool, get_pool_by_tokens_and_fee, empty,
}
use ibswap_api.Registry.Invariant.{IsValid}
use ibswap_api.Registry.History.{
  Call, adds_token, adds_pool, changes_pool, lists_pools, run, reachable-IsValid,
}
use ibswap_api.Stats.Window.{Volume, new_volumes, before_24h, get_24h_volume}
use ibswap_api.Stats.Window.Exact.{window, sum0, sum1}
use ibswap_api.Stats.Window.History
use ibswap_api.Stats.Window.History.{Use, trades, reads, traded, get_24h_volume_exact}
use ibswap_api.Chain.Types.{NftToken, mint}
use ibswap_api.Stats.Discovery.{CoinAnswers, Found, from_nft, State, deal_all_found}
use ibswap_api.Stats.Discovery.Kept.{AllKept, StartsKept, deal_all_found_keeps}
use ibswap_api.Stats.Ticks.{Globals, StoredVolume, Loop, Arrival, deal_ticks, new_reserves}
use ibswap_api.Stats.Ticks.Description.{OfPool, At, IsKept, own_arrivals}
use ibswap_api.Stats.Ticks.Own.{deal_ticks_own}
use ibswap_api.Stats.Ticks.Stores.{reserves_of, last_brought, deal_ticks_stores}
use ibswap_api.Stats.Start.{Answers, Batch, start}
use ibswap_api.Stats.Start.Batches.{IsAnswered, joined, entry, IsSized, start_batches}

abbrev calls : List Call
calls =
    adds_token none (codes "ETH") (codes "0xa") (codes "ETH") (pos 18) (pos 1) (pos 0)
    ∷ adds_pool none (codes "0xp") (pos 3) (codes "0xa") (codes "0xb") (pos 500)
    ∷ changes_pool none (codes "0xp") (pos 1)
    ∷ lists_pools (pos 3)
    ∷ []

reachable-IsValid_example : IsValid (run calls (init_coins_and_pools (value []) (value [])))
reachable-IsValid_example = reachable-IsValid (value []) (value []) calls

abbrev one_pool : Registry
one_pool = (add_new_pool none (codes "0xp") (pos 3) (codes "0xa") (codes "0xb") (pos 500) empty).1

one_pool_lem :
    (lookup (codes "0xp") one_pool.pool_m_v3 ≡ some 0)
    × (lookup (codes "0xp") one_pool.pool_m_v2 ≡ none)
    × (pool_by_tokens_and_fee one_pool (codes "0xa") (codes "0xb") (pos 500) ≡ some 0)
    × (get_elem? one_pool.pool_heap 0
        ≡ some (new_pool (codes "0xp") (pos 3) (codes "0xa") (codes "0xb") (pos 500)))
unfolding add_new_pool add_pool int8 lookup insert text_eq pool_by_tokens_and_fee
one_pool_lem = (refl, refl, refl, refl)

abbrev volume : ℕ → ℕ → Volume
volume amount ts = record { amount0 = pos amount; amount1 = pos (amount + 1); ts = pos ts }

-- The first trade is more than 24 hours old at the end.
abbrev uses : List Use
uses = trades 100 (volume 5 100) ∷ reads 200 ∷ trades 90000 (volume 7 90000) ∷ []

get_24h_volume_exact_example :
    let given = (get_24h_volume 90001 (History.run uses new_volumes)).0 in
    let recent = window (before_24h 90001) (traded uses) in
    (given.amount0 ≡ sum0 recent) × (given.amount1 ≡ sum1 recent)
get_24h_volume_exact_example =
    get_24h_volume_exact 50 90001 (pos 0) uses
      (omega arith, omega arith, (omega arith, (omega arith, omega arith, omega arith)))

abbrev stat : Text → ℕ → ℕ → ℕ → PoolStat
stat key reserve volume ts = record {
  address = key;
  tx = codes "0x1";
  reserve0 = pos reserve;
  reserve1 = pos reserve;
  volume0 = pos volume;
  volume1 = pos 0;
  tick = pos 10;
  ts = ts;
}

-- A swap of the first pool, then a tick of the second whose balance could not be read.
abbrev ticks : List Arrival
ticks =
    record { now = 90000; later = 90000; stat = stat (codes "a") 600 3 90000 }
    ∷ record { now = 90001; later = 90001; stat = stat (codes "b") 0 0 90001 }
    ∷ []

abbrev fresh : OfPool
fresh = record { utc0 = new_reserves; curr = new_reserves; volumes = new_volumes }

abbrev two_pools : Loop
two_pools = record {
  globals = record {
    utc0_reserves = (codes "a", new_reserves) ∷ (codes "b", new_reserves) ∷ [];
    curr_reserves = (codes "a", new_reserves) ∷ (codes "b", new_reserves) ∷ [];
    volumes_24h = (codes "a", new_volumes) ∷ (codes "b", new_volumes) ∷ [];
  };
  pre_reserve0 = pos 0;
  pre_reserve1 = pos 0;
}

a-At : At (codes "a") two_pools.globals fresh
unfolding lookup text_eq
a-At = record { utc0_found = refl; curr_found = refl; volumes_found = refl }

b-At : At (codes "b") two_pools.globals fresh
unfolding lookup text_eq
b-At = record { utc0_found = refl; curr_found = refl; volumes_found = refl }

deal_ticks_own_example :
    (l' : Loop) × (ss : List StoredVolume) × (deal_ticks ticks two_pools ≡ ok (l', ss))
    × At (codes "b") l'.globals (own_arrivals (codes "b") ticks fresh)
deal_ticks_own_example =
    deal_ticks_own ticks two_pools (codes "b") fresh ((fresh, a-At), ((fresh, b-At), tt)) b-At

deal_ticks_stores_example :
    (l' : Loop) × (ss : List StoredVolume) × (deal_ticks ticks two_pools ≡ ok (l', ss))
    × (map reserves_of ss ≡ last_brought (pos 0) (pos 0) ticks)
deal_ticks_stores_example = deal_ticks_stores ticks two_pools ((fresh, a-At), ((fresh, b-At), tt))

abbrev pool : Text → Registry.Pool
pool key = new_pool key (pos 3) (codes "0xa") (codes "0xb") (pos 500)

abbrev three_pools : List Registry.Pool
three_pools = pool (codes "a") ∷ pool (codes "b") ∷ pool (codes "c") ∷ []

abbrev answers : Text → Answers
answers key = record {
  volumes = value (pos 90000 ∷ [], (pos 3, pos 4) ∷ []);
  utc0 = value (pos 1, pos 10, pos 600, pos 700);
  latest = value (pos 600, pos 700, pos 10);
}

answers-IsAnswered : (key : Text) → IsAnswered (answers key)
answers-IsAnswered key = ((_, _, refl, omega arith), (_, refl), (_, refl))

start_batches_example :
    (g : Globals) × (bs : List Batch) × (start (λ a. a) (λ k i. 90001) answers (pos 1) three_pools
      ≡ ok (g, bs))
    × (joined bs ≡ map (entry (λ a. a)) three_pools)
    × All (IsSized 1) bs
    × All (λ p. IsKept g p.contract) three_pools
start_batches_example =
    start_batches (λ a. a) (λ k i. 90001) answers 1 three_pools
      (
        answers-IsAnswered (codes "a"),
        (answers-IsAnswered (codes "b"), (answers-IsAnswered (codes "c"), tt)),
      )

abbrev minted : NftToken
minted = record {
  collection = codes "0xn";
  token_id = codes "1";
  user = codes "0xu";
  pool = codes "0xp";
  token0 = codes "0xa";
  token1 = codes "0xb";
  fee = pos 500;
  direction = mint;
}

abbrev coin_answers : Text → CoinAnswers
coin_answers key = record {
  bind_error = none;
  decimals = value 18;
  symbol = value key;
  insert_error = none;
}

-- The same pool is found twice.
abbrev messages : List Found
messages = from_nft none coin_answers minted ∷ from_nft none coin_answers minted ∷ []

abbrev nothing_kept : State
nothing_kept = record {
  registry = empty;
  globals = record { utc0_reserves = []; curr_reserves = []; volumes_24h = [] };
}

nothing_kept-AllKept : AllKept nothing_kept
unfolding lookup
nothing_kept-AllKept k p h = cc h

deal_all_found_keeps_example :
    let after = deal_all_found (λ a. a) messages nothing_kept in
    AllKept after.0 × All (StartsKept (λ a. a) after.0.globals) after.1
deal_all_found_keeps_example =
    deal_all_found_keeps (λ a. a) messages nothing_kept nothing_kept-AllKept
