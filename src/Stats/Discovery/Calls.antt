-- ===== src/Stats/Discovery/Calls.antt =====
-- service/task.go: `dealNft` and `dealFactory` call by call, since other goroutines run in between.
use ibswap_api.Common.{
  ℕ, ◌≡◌, refl, inl, inr, Option, none, some, List, [], ◌∷◌, ◌++◌, Option-cases,
}
use ibswap_api.Common.Int.{pos}
use ibswap_api.Common.Eq.{Text, text_eq_instance}
use ibswap_api.Common.Outcome.{error, value}
use ibswap_api.Chain.Types
use ibswap_api.Chain.Types.{NftToken, mint, burn, transfer}
use ibswap_api.Registry
use ibswap_api.Registry.{add_new_pool, add_pool, new_pool, int8, get_pool_by_tokens_and_fee}
use ibswap_api.Stats.Start.{init_pool_stat_real}
use ibswap_api.Stats.Discovery.{
  CoinAnswers, add_coin_of, Effect, deleted, moved, stored, State, Found, from_nft, from_factory,
  watch, enter_pool, deal_nft, deal_factory, deal_found,
}

-- A call that is left of a message: `addCoin`, `initPoolStatReal` with `StartPool` after it, or one of
-- the database.
pub data TaskCall : Type 0 where
  learns : CoinAnswers → Text → TaskCall
  opens : Registry.Pool → TaskCall
  does : Effect → TaskCall

module _ (hex_to_address : Text → List ℕ) where
  -- A token from the watcher of NFTs, up to `AddPool`, and what is left then.
  unfoldable pub enter_nft :
      Option Text → (Text → CoinAnswers) → NftToken → State → State × List TaskCall
  enter_nft insert_error coins n s =
      let rest =
        does (stored n.token_id n.collection n.user n.pool n.token0 n.token1 n.fee)
        ∷ learns (coins n.token0) n.token0
        ∷ learns (coins n.token1) n.token1
        ∷ [] in
      elim n.direction [
        | burn ↦ (s, does (deleted n.token_id n.collection) ∷ [])
        | transfer ↦ (s, does (moved n.token_id n.collection n.user) ∷ [])
        | mint ↦ elim (get_pool_by_tokens_and_fee s.registry n.token0 n.token1 n.fee) [
          | some p ↦ (s, rest)
          | none ↦
              let added =
                add_new_pool insert_error n.pool (pos 3) n.token0 n.token1 n.fee s.registry in
              elim added.0 [
                | error e ↦ (record s { registry = added.1 }, rest)
                | value p ↦ (record s { registry = added.1 }, opens p ∷ rest)
              ]
        ]
      ]

  -- A pool from the watcher of the factory, up to `AddPool`, and what is left then.
  unfoldable pub enter_factory :
      Option Text → (Text → CoinAnswers) → Types.Pool → State → State × List TaskCall
  enter_factory insert_error coins c s =
      let added =
        add_new_pool insert_error c.contract (pos 3) c.token0 c.token1 c.fee_rate s.registry in
      elim added.0 [
        | error e ↦ (record s { registry = added.1 }, [])
        | value p ↦ (
          record s { registry = added.1 },
          learns (coins p.token0) p.token0 ∷ learns (coins p.token1) p.token1 ∷ opens p ∷ [],
        )
      ]

  unfoldable pub enter : Found → State → State × List TaskCall
  unfolding enter_nft enter_factory
  enter (from_nft e coins n) s = enter_nft e coins n s
  enter (from_factory e coins c) s = enter_factory e coins c s

  -- One call.
  unfoldable pub perform : TaskCall → State → State × List Effect
  perform (learns a t) s = (record s { registry = add_coin_of a t s.registry }, [])
  perform (opens p) s =
      (record s { globals = init_pool_stat_real p.contract s.globals }, watch hex_to_address p ∷ [])
  perform (does e) s = (s, e ∷ [])

  unfoldable pub perform_all : List TaskCall → State → State × List Effect
  unfolding perform
  perform_all [] s = (s, [])
  perform_all (c ∷ cs) s =
      let first = perform c s in let rest = perform_all cs first.0 in (rest.0, first.1 ++ rest.1)

  nft_in_a_row :
      (i : Option Text) (coins : Text → CoinAnswers) (n : NftToken) (way : Types.Direction)
      (s : State)
      → n.direction ≡ way
      → let (s1, cs) = enter_nft i coins n s in
        perform_all cs s1 ≡ deal_nft hex_to_address i coins n s
  unfolding enter_nft perform_all deal_nft enter_pool add_new_pool
  nft_in_a_row i coins n burn s d = rw d refl
  nft_in_a_row i coins n transfer s d = rw d refl
  nft_in_a_row (some m) coins n mint s d =
      elim (Option-cases (get_pool_by_tokens_and_fee s.registry n.token0 n.token1 n.fee)) [
        | inr (p, e) ↦ rw (d, e, enter_pool, enter_nft) refl
        | inl e ↦ rw (d, e, enter_pool, enter_nft) refl
      ]
  nft_in_a_row none coins n mint s d =
      elim (Option-cases (get_pool_by_tokens_and_fee s.registry n.token0 n.token1 n.fee)) [
        | inr (p, e) ↦ rw (d, e, enter_pool, enter_nft) refl
        | inl e ↦ rw (d, e, enter_pool, enter_nft) refl
      ]

  factory_in_a_row :
      (i : Option Text) (coins : Text → CoinAnswers) (c : Types.Pool) (s : State)
      → let (s1, cs) = enter_factory i coins c s in
        perform_all cs s1 ≡ deal_factory hex_to_address i coins c s
  unfolding enter_factory perform_all deal_factory add_new_pool
  factory_in_a_row (some e) coins c s = refl
  factory_in_a_row none coins c s = refl

  -- When nothing comes in between, the calls of a message, one after the other, leave what `deal_found`
  -- leaves, with the same calls of the database and the same watchers started.
  pub in_a_row :
      (m : Found) (s : State)
      → perform_all (enter m s).1 (enter m s).0 ≡ deal_found hex_to_address m s
  unfolding enter deal_found
  in_a_row (from_nft i coins n) s = nft_in_a_row i coins n n.direction s refl
  in_a_row (from_factory i coins c) s = factory_in_a_row i coins c s
