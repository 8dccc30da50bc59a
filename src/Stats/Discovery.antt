-- ===== src/Stats/Discovery.antt =====
-- service/task.go: `dealNft`, `dealFactory` and `addCoin`, which enter new pools and coins and start
-- their watchers. What the database and the token contracts answer is an argument.
pub mod Kept
pub mod Grounded
pub mod Calls
pub mod Pending
pub mod Others
use ibswap_api.Common.{
  ℕ, Bool, true, false, Option, none, some, List, [], ◌∷◌, ◌++◌, ◌||◌, if◌then◌else◌,
}
use ibswap_api.Common.Int.{ℤ, pos}
use ibswap_api.Common.Eq.{Text, text_eq}
use ibswap_api.Common.Outcome.{Result, value, error}
use ibswap_api.Chain.Types
use ibswap_api.Chain.Types.{NftToken, mint, burn, transfer}
use ibswap_api.Registry
use ibswap_api.Registry.{
  Coin, Registry, add_token, add_new_pool, get_coins, get_pool_by_tokens_and_fee,
}
use ibswap_api.Stats.Ticks.{Globals}
use ibswap_api.Stats.Start.{init_pool_stat_real, Batch}

-- `NewERC20`, `Decimals`, `Symbol` and the insertion into the database, for a token.
pub record CoinAnswers : Type 0 where
  pub bind_error : Option Text
  pub decimals : Result Text ℕ
  pub symbol : Result Text Text
  pub insert_error : Option Text

unfoldable pub has_coin : Text → List Coin → Bool
has_coin contract [] = false
has_coin contract (c ∷ cs) = text_eq c.contract contract || has_coin contract cs

-- `addCoin`
unfoldable pub add_coin_of : CoinAnswers → Text → Registry → Registry
unfolding has_coin
add_coin_of a contract r = if has_coin contract (get_coins r) then r else elim a.bind_error [
  | some e ↦ r
  | none ↦ elim a.decimals [
    | error e ↦ r
    | value d ↦ elim a.symbol [
      | error e ↦ r
      | value s ↦ (add_token a.insert_error s contract s (pos d) (pos 1) (pos 0) r).1
    ]
  ]
]

-- What a task has the database do, and the watchers that it starts.
pub data Effect : Type 0 where
  deleted : Text → Text → Effect
  moved : Text → Text → Text → Effect
  stored : Text → Text → Text → Text → Text → Text → ℤ → Effect
  started : Batch → Effect

-- A message to one of the tasks, with the database's answer to the insertion of the
-- pool and what is answered for a token.
pub data Found : Type 0 where
  from_nft : Option Text → (Text → CoinAnswers) → NftToken → Found
  from_factory : Option Text → (Text → CoinAnswers) → Types.Pool → Found

pub record State : Type 0 where
  pub registry : Registry
  pub globals : Globals

module _ (hex_to_address : Text → List ℕ) where
  -- The arguments of `StartPool` for a pool.
  abbrev pub watch : Registry.Pool → Effect
  watch p =
      started ((hex_to_address p.contract, hex_to_address p.token0, hex_to_address p.token1) ∷ [])

  abbrev pub add_coins : (Text → CoinAnswers) → Text → Text → State → State
  add_coins coins t0 t1 s = record s {
    registry = add_coin_of (coins t1) t1 (add_coin_of (coins t0) t0 s.registry);
  }

  -- The pool of a minted NFT, if it is not known.
  unfoldable pub enter_pool : Option Text → NftToken → State → State × List Effect
  enter_pool insert_error n s =
      elim (get_pool_by_tokens_and_fee s.registry n.token0 n.token1 n.fee) [
        | some p ↦ (s, [])
        | none ↦
            let added =
              add_new_pool insert_error n.pool (pos 3) n.token0 n.token1 n.fee s.registry in
            elim added.0 [
              | error e ↦ (record s { registry = added.1 }, [])
              | value p ↦ (
                record { registry = added.1; globals = init_pool_stat_real p.contract s.globals },
                watch p ∷ [],
              )
            ]
      ]

  -- The body of the loop of `dealNft`, for a token from the watcher of NFTs.
  unfoldable pub deal_nft :
      Option Text → (Text → CoinAnswers) → NftToken → State → State × List Effect
  unfolding enter_pool
  deal_nft insert_error coins n s = elim n.direction [
    | burn ↦ (s, deleted n.token_id n.collection ∷ [])
    | transfer ↦ (s, moved n.token_id n.collection n.user ∷ [])
    | mint ↦
        let entered = enter_pool insert_error n s in
        (
          add_coins coins n.token0 n.token1 entered.0,
          entered.1 ++ stored n.token_id n.collection n.user n.pool n.token0 n.token1 n.fee ∷ [],
        )
  ]

  -- The body of the loop of `dealFactory`, for a pool from the watcher of the factory.
  unfoldable pub deal_factory :
      Option Text → (Text → CoinAnswers) → Types.Pool → State → State × List Effect
  deal_factory insert_error coins c s =
      let added =
        add_new_pool insert_error c.contract (pos 3) c.token0 c.token1 c.fee_rate s.registry in
      elim added.0 [
        | error e ↦ (record s { registry = added.1 }, [])
        | value p ↦
            let s' = add_coins coins p.token0 p.token1 (record s { registry = added.1 }) in
            (record s' { globals = init_pool_stat_real p.contract s'.globals }, watch p ∷ [])
      ]

  unfoldable pub deal_found : Found → State → State × List Effect
  unfolding deal_nft deal_factory
  deal_found (from_nft e coins n) s = deal_nft e coins n s
  deal_found (from_factory e coins c) s = deal_factory e coins c s

  -- The tasks' loops over the messages that have come, in any order.
  unfoldable pub deal_all_found : List Found → State → State × List Effect
  unfolding deal_found
  deal_all_found [] s = (s, [])
  deal_all_found (m ∷ ms) s =
      let first = deal_found m s in
      let rest = deal_all_found ms first.0 in (rest.0, first.1 ++ rest.1)
