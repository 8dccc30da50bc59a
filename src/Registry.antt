-- ===== src/Registry.antt =====
-- model/public.go: the coins and the pools in memory. The maps and the lists share their elements, so
-- these stand on a heap, and a pointer is an index into it. What MySQL answers is an argument.
pub mod Invariant
pub mod Adding
pub mod Writing
pub mod History
pub mod Lookup
pub mod Naming
pub mod Listing
pub mod Steady
use ibswap_api.Common.{
  ℕ, ◌+◌, ◌-◌, ◌%◌, ◌^◌, ◌≡◌, Bool, Option, none, some, List, [], ◌∷◌, ◌++◌, ltb, if◌then◌else◌,
  length, get_elem?, set,
}
use ibswap_api.Common.Int.{ℤ, pos, negsuc, eqb_ℤ}
use ibswap_api.Common.Eq.{Text, text_eq_instance, int_eq}
use ibswap_api.Common.Dict.{Dict, lookup, insert}
use ibswap_api.Common.Outcome.{Result, value, error}
use ibswap_api.Chain.Bytes.{signed}

pub record Coin : Type 0 where
  pub symbol : Text
  pub contract : Text
  pub code : Text
  pub decimal : ℤ
  pub type : ℤ
  pub public : ℤ

pub record Pool : Type 0 where
  pub contract : Text
  pub version : ℤ
  pub symbol0 : Text
  pub symbol1 : Text
  pub token0 : Text
  pub token1 : Text
  pub fee_rate : ℤ
  pub decimal : ℤ
  pub state : ℤ

-- The package's variables, and the heap behind their pointers.
pub record Registry : Type 0 where
  pub coin_heap : List Coin
  pub coin_m : Dict Text ℕ
  pub coins : List ℕ
  pub pool_heap : List Pool
  pub pool_m_v2 : Dict Text ℕ
  pub pools_v2 : List ℕ
  pub pool_m_v3 : Dict Text ℕ
  pub pools_v3 : List ℕ
  pub pool_mmm : Dict Text (Dict Text (Dict ℤ ℕ))

-- `int8(v)`
unfoldable pub int8 : ℤ → ℤ
int8 (pos k) = signed 1 (k % 256)
int8 (negsuc k) = signed 1 (255 - k % 256)

-- The inner maps, where a missing one reads as an empty one.
abbrev pub inner : {K V : Type 0} → Option (Dict K V) → Dict K V
inner none = []
inner (some d) = d

-- `GetPoolByTokensAndFee`, as a pointer.
unfoldable pub pool_by_tokens_and_fee : Registry → Text → Text → ℤ → Option ℕ
pool_by_tokens_and_fee r t0 t1 fee = lookup fee (inner (lookup t1 (inner (lookup t0 r.pool_mmm))))

unfoldable pub get_pool_by_tokens_and_fee : Registry → Text → Text → ℤ → Option Pool
unfolding pool_by_tokens_and_fee
get_pool_by_tokens_and_fee r t0 t1 fee = elim (pool_by_tokens_and_fee r t0 t1 fee) [
  | none ↦ none
  | some p ↦ get_elem? r.pool_heap p
]

-- The last three statements of `addPool`.
abbrev index_pool : Pool → ℕ → Registry → Registry
index_pool q p r = record r {
  pool_mmm =
      let level1 = inner (lookup q.token0 r.pool_mmm) in
      let level2 = inner (lookup q.token1 level1) in
      insert q.token0 (insert q.token1 (insert q.fee_rate p level2) level1) r.pool_mmm;
}

-- `addPool`, on a pool that has been allocated.
unfoldable pub add_pool : Pool → Registry → Registry
add_pool q r =
    let p = length r.pool_heap in
    let r' = record r { pool_heap = r.pool_heap ++ q ∷ [] } in
    index_pool q p (
      if eqb_ℤ q.version (pos 2)
      then record r' {
        pool_m_v2 = insert q.contract p r.pool_m_v2;
        pools_v2 = r.pools_v2 ++ p ∷ [];
      }
      else if eqb_ℤ q.version (pos 3)
      then record r' {
        pool_m_v3 = insert q.contract p r.pool_m_v3;
        pools_v3 = r.pools_v3 ++ p ∷ [];
      }
      else r')

-- The pool that `AddPool` makes.
abbrev pub new_pool : Text → ℤ → Text → Text → ℤ → Pool
new_pool contract version t0 t1 fee_rate = record {
  contract = contract;
  version = int8 version;
  symbol0 = [];
  symbol1 = [];
  token0 = t0;
  token1 = t1;
  fee_rate = fee_rate;
  decimal = pos 18;
  state = pos 0;
}

-- `AddPool`; the first argument is the error of the insertion into the database, if any.
unfoldable pub add_new_pool :
    Option Text → Text → ℤ → Text → Text → ℤ → Registry → Result Text Pool × Registry
unfolding add_pool
add_new_pool (some e) contract version t0 t1 fee_rate r = (error e, r)
add_new_pool none contract version t0 t1 fee_rate r =
    let q = new_pool contract version t0 t1 fee_rate in (value q, add_pool q r)

-- What `AddToken` and `getCoins` do with a coin.
unfoldable pub add_coin : Coin → Registry → Registry
add_coin c r =
    let p = length r.coin_heap in
    record r {
      coin_heap = r.coin_heap ++ c ∷ [];
      coin_m = insert c.contract p r.coin_m;
      coins = r.coins ++ p ∷ [];
    }

-- `AddToken`
unfoldable pub add_token :
    Option Text → Text → Text → Text → ℤ → ℤ → ℤ → Registry → Option Text × Registry
unfolding add_coin
add_token (some e) symbol contract code decimal t public r = (some e, r)
add_token none symbol contract code decimal t public r = (
  none,
  add_coin
      (record {
        symbol = symbol;
        contract = contract;
        code = code;
        decimal = decimal;
        type = t;
        public = public;
      })
      r,
)

-- A write through a pointer.
abbrev pub write_state : ℤ → List Pool → ℕ → List Pool
write_state state heap p = elim (get_elem? heap p) [
  | none ↦ heap
  | some q ↦ set heap p (record q { state = state })
]

abbrev pub write_public : ℤ → List Coin → ℕ → List Coin
write_public public heap p = elim (get_elem? heap p) [
  | none ↦ heap
  | some c ↦ set heap p (record c { public = public })
]

-- `ChangePoolState`: in memory only a V3 pool changes.
unfoldable pub change_pool_state : Option Text → Text → ℤ → Registry → Option Text × Registry
change_pool_state (some e) contract state r = (some e, r)
change_pool_state none contract state r = elim (lookup contract r.pool_m_v3) [
  | none ↦ (none, r)
  | some p ↦ (none, record r { pool_heap = write_state state r.pool_heap p })
]

-- `ChangeTokenPublic`
unfoldable pub change_token_public : Option Text → Text → ℤ → Registry → Option Text × Registry
change_token_public (some e) contract public r = (some e, r)
change_token_public none contract public r = elim (lookup contract r.coin_m) [
  | none ↦ (none, r)
  | some p ↦ (none, record r { coin_heap = write_public public r.coin_heap p })
]

-- `GetCoin`, where `none` is the error that there is no such coin.
unfoldable pub get_coin : Registry → Text → Option Coin
get_coin r contract = elim (lookup contract r.coin_m) [
  | none ↦ none
  | some p ↦ get_elem? r.coin_heap p
]

-- What a list of pointers points to.
abbrev pub load_all : {A : Type 0} → List A → List ℕ → List A
load_all heap [] = []
load_all heap (p ∷ ps) = elim (get_elem? heap p) [
  | none ↦ load_all heap ps
  | some a ↦ a ∷ load_all heap ps
]

-- `GetCoins`
unfoldable pub get_coins : Registry → List Coin
get_coins r = load_all r.coin_heap r.coins

-- `GetPool`: a V2 pool comes first; `none` is the pair of nils.
unfoldable pub get_pool : Registry → Text → Option Pool
get_pool r contract = elim (lookup contract r.pool_m_v2) [
  | some p ↦ get_elem? r.pool_heap p
  | none ↦ elim (lookup contract r.pool_m_v3) [ none ↦ none | some p ↦ get_elem? r.pool_heap p ]
]

-- The symbol of a coin that is known, and otherwise what was there.
abbrev pub symbol_or : Option Coin → Text → Text
symbol_or none old = old
symbol_or (some c) old = c.symbol

-- One round of the loop of `GetPools`: it writes through the pointer.
name_pool : Registry → List Pool → ℕ → List Pool
name_pool r heap p = elim (get_elem? heap p) [
  | none ↦ heap
  | some q ↦ set heap p (record q {
    symbol0 = symbol_or (get_coin r q.token0) q.symbol0;
    symbol1 = symbol_or (get_coin r q.token1) q.symbol1;
  })
]

pub name_pools : Registry → List Pool → List ℕ → List Pool
unfolding name_pool
name_pools r heap [] = heap
name_pools r heap (p ∷ ps) = name_pools r (name_pool r heap p) ps

abbrev pub pools_of : ℤ → Registry → List ℕ
pools_of v r = if eqb_ℤ v (pos 2) then r.pools_v2 else r.pools_v3

-- `GetPools`, with the registry that it leaves. Any version but 2 is read as 3.
unfoldable pub get_pools : ℤ → Registry → List Pool × Registry
unfolding name_pools
get_pools v r =
    let heap = name_pools r r.pool_heap (pools_of v r) in
    (load_all heap (pools_of v r), record r { pool_heap = heap })

abbrev pub no_coins : Registry → Registry
no_coins r = record r { coin_m = []; coins = [] }

abbrev pub no_pools : Registry → Registry
no_pools r = record r {
  pool_m_v2 = [];
  pools_v2 = [];
  pool_m_v3 = [];
  pools_v3 = [];
  pool_mmm = [];
}

-- The rows of a query, each of which may fail to scan: such a row is skipped.
scan_coins : List (Result Text Coin) → Registry → Registry
scan_coins [] r = r
scan_coins (error e ∷ rows) r = scan_coins rows r
scan_coins (value c ∷ rows) r = scan_coins rows (add_coin c r)

scan_pools : List (Result Text Pool) → Registry → Registry
scan_pools [] r = r
scan_pools (error e ∷ rows) r = scan_pools rows r
scan_pools (value q ∷ rows) r = scan_pools rows (add_pool q r)

-- `getCoins` and `getPools`, on the answer to their query.
unfoldable pub load_coins : Result Text (List (Result Text Coin)) → Registry → Registry
unfolding scan_coins
load_coins (error e) r = no_coins r
load_coins (value rows) r = scan_coins rows (no_coins r)

unfoldable pub load_pools : Result Text (List (Result Text Pool)) → Registry → Registry
unfolding scan_pools
load_pools (error e) r = no_pools r
load_pools (value rows) r = scan_pools rows (no_pools r)

-- Before `ConnectToMysql`.
abbrev pub empty : Registry
empty = record {
  coin_heap = [];
  coin_m = [];
  coins = [];
  pool_heap = [];
  pool_m_v2 = [];
  pools_v2 = [];
  pool_m_v3 = [];
  pools_v3 = [];
  pool_mmm = [];
}

-- `initCoinsAndPools`
unfoldable pub init_coins_and_pools :
    Result Text (List (Result Text Coin)) → Result Text (List (Result Text Pool)) → Registry
unfolding load_coins load_pools
init_coins_and_pools coins pools = load_pools pools (load_coins coins empty)
