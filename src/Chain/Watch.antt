-- ===== src/Chain/Watch.antt =====
-- service/evm.go: the watchers of pools, of position NFTs and of the factory, by polling (`scan…`) or
-- over a subscription (`listen…`), each with its handler; and the `StartListen…` functions.
pub mod Equivalence
use ibswap_api.Common.{ℕ, ◌≡◌, Bool, Option, none, some, List, [], ◌∷◌, ◌++◌, ◌==◌, if◌then◌else◌}
use ibswap_api.Common.Int.{ℤ, pos, eqb_ℤ}
use ibswap_api.Common.Eq.{Text, text_eq_instance}
use ibswap_api.Common.Dict.{Dict, lookup, insert}
use ibswap_api.Common.Outcome.{Outcome, ok, panic, ◌>>=◌, Result, value, error}
use ibswap_api.Chain.Types.{
  Ethereum, EventLog, PoolStat, NftToken, Pool, Token, Position, Sent, logged, block_number_error,
  filter_logs_error, redial_error, subscribe_error, subscription_error,
}
use ibswap_api.Chain.ErrorText.{cut_error_string}
use ibswap_api.Chain.Scan
use ibswap_api.Chain.Scan.{
  Round, Step, waited, scanned, scan, scan_round, scan_v2_round, start_height,
}
use ibswap_api.Chain.Logs.{deal_pool_v2_log, deal_pool_v3_log, deal_nft_log, deal_factory_log}

-- A log with the time at which its handler runs.
abbrev pub Timed : Type 0
Timed = ℕ × EventLog

-- A log with a number for the moment at which its handler asks the contracts, which may answer
-- otherwise at another moment.
abbrev pub Seen : Type 0 → Type 0
Seen L = ℕ × L

module _ {L S : Type 0} (deal : L → Outcome (List (Sent S))) where
  -- `for i := range logs { deal(&logs[i]) }`
  unfoldable pub deal_all : List L → Outcome (List (Sent S))
  deal_all [] = ok []
  deal_all (l ∷ ls) = do out ← deal l; rest ← deal_all ls; ok (out ++ rest)

  -- What a polling round sends. An error of `BlockNumber` is cut to its title.
  unfoldable pub deal_step : Step L → Outcome (List (Sent S))
  unfolding deal_all
  deal_step waited = ok []
  deal_step (Scan.block_number_error m) = do
    title ← cut_error_string m
    ok (logged (block_number_error title) ∷ [])
  deal_step (Scan.filter_logs_error m) = ok (logged (filter_logs_error m) ∷ [])
  deal_step (scanned lo hi logs) = deal_all logs

  unfoldable pub deal_steps : List (Step L) → Outcome (List (Sent S))
  unfolding deal_step
  deal_steps [] = ok []
  deal_steps (s ∷ ss) = do out ← deal_step s; rest ← deal_steps ss; ok (out ++ rest)

-- One pass from `StartFilter:` to the next `goto`: the dial fails, the subscription fails, or logs
-- come in until it breaks.
pub data Session (L : Type 0) : Type 0 where
  dial_failed : Text → Session L
  subscribe_failed : Text → Session L
  ran : List L → Text → Session L

-- The `listen…` loops, which differ in the handler.
module _ {L S : Type 0} (deal : L → Outcome (List (Sent S))) where
  unfoldable pub deal_session : Session L → Outcome (List (Sent S))
  deal_session (dial_failed m) = ok (logged (redial_error m) ∷ [])
  deal_session (subscribe_failed m) = ok (logged (subscribe_error m) ∷ [])
  deal_session (ran logs m) = do
    out ← deal_all deal logs
    ok (out ++ logged (subscription_error m) ∷ [])

  -- The `listen…` loops, which differ in the handler.
  unfoldable pub listen : List (Session L) → Outcome (List (Sent S))
  unfolding deal_session
  listen [] = ok []
  listen (s ∷ ss) = do out ← deal_session s; rest ← listen ss; ok (out ++ rest)

-- What the node has in store for a watcher, either way of watching: the sessions of a subscription,
-- or the rounds of polling and, before them, the first `BlockNumber` (an error stands for one of it or of
-- the `Dial` before it).
pub record Feed (L : Type 0) : Type 0 where
  pub sessions : List (Session L)
  pub head : Result Text ℕ
  pub rounds : List (Round L)

-- The height that polling begins from. The goroutine panics on an error.
abbrev pub first_height : Result Text ℕ → Outcome ℕ
first_height (value h) = ok h
first_height (error m) = panic

module _ (e : Ethereum) where
  -- `scanPoolsV2`
  unfoldable pub scan_pools_v2 : Result Text ℕ → List (Round Timed) → Outcome (List (Sent PoolStat))
  scan_pools_v2 head rs = do
    h ← first_height head
    deal_steps (λ l. deal_pool_v2_log e l.0 l.1) (scan scan_v2_round h rs).1

  -- `listenPoolsV2`
  unfoldable pub listen_pools_v2 : List (Session Timed) → Outcome (List (Sent PoolStat))
  listen_pools_v2 = listen λ l. deal_pool_v2_log e l.0 l.1

  -- `StartListenV2`
  unfoldable pub start_listen_v2 : ℤ → Feed Timed → Outcome (List (Sent PoolStat))
  start_listen_v2 listen_type f =
      if eqb_ℤ listen_type (pos 0)
      then listen_pools_v2 f.sessions
      else scan_pools_v2 f.head f.rounds

  -- The bound tokens of each pool, by its spelled address: what they answer at each moment.
  abbrev pub Tokens : Type 0
  Tokens = Dict Text ((ℕ → Token) × (ℕ → Token))

  -- The handler as the V3 loops call it: an address that is not a key has nil tokens.
  unfoldable pub deal_v3 : Tokens → Seen Timed → Outcome (List (Sent PoolStat))
  deal_v3 tokens (moment, (now, log)) = elim (lookup (e.address_hex log.address) tokens) [
    | none ↦ deal_pool_v3_log e none none now log
    | some (t0, t1) ↦ deal_pool_v3_log e (some (t0 moment)) (some (t1 moment)) now log
  ]

  -- `scanPoolsV3`
  unfoldable pub scan_pools_v3 :
      Tokens → ℕ → Result Text ℕ → List (Round (Seen Timed)) → Outcome (List (Sent PoolStat))
  scan_pools_v3 tokens max_scan_height head rs = do
    h ← first_height head
    deal_steps (deal_v3 tokens) (scan (scan_round max_scan_height) (start_height h) rs).1

  -- `listenPoolsV3`
  unfoldable pub listen_pools_v3 :
      Tokens → List (Session (Seen Timed)) → Outcome (List (Sent PoolStat))
  listen_pools_v3 tokens = listen (deal_v3 tokens)

  -- The loop of `StartListenV3` that binds the tokens: both token lists are read at the pool's index.
  unfoldable pub erc20_tokens :
      (List ℕ → Result Text (ℕ → Token))
      → List (List ℕ)
      → List (List ℕ)
      → List (List ℕ)
      → Tokens
      → Outcome Tokens
  erc20_tokens new_erc20 [] t0s t1s m = ok m
  erc20_tokens new_erc20 (p ∷ ps) [] t1s m = panic
  erc20_tokens new_erc20 (p ∷ ps) (t0 ∷ t0s) [] m = panic
  erc20_tokens new_erc20 (p ∷ ps) (t0 ∷ t0s) (t1 ∷ t1s) m =
      let rest = λ (a b : ℕ → Token).
        erc20_tokens new_erc20 ps t0s t1s (insert (e.address_hex p) (a, b) m) in
      elim (new_erc20 t0) [
        | error x ↦ panic
        | value a ↦ elim (new_erc20 t1) [ error x ↦ panic | value b ↦ rest a b ]
      ]

  -- `StartListenV3`; a fault is an error of `Dial`.
  unfoldable pub start_listen_v3 :
      Option Text
      → (List ℕ → Result Text (ℕ → Token))
      → ℤ
      → ℕ
      → List (List ℕ)
      → List (List ℕ)
      → List (List ℕ)
      → Feed (Seen Timed)
      → Outcome (List (Sent PoolStat))
  start_listen_v3 (some fault) new_erc20 listen_type max_scan_height pools t0s t1s f = panic
  start_listen_v3 none new_erc20 listen_type max_scan_height pools t0s t1s f = do
    tokens ← erc20_tokens new_erc20 pools t0s t1s []
    if eqb_ℤ listen_type (pos 0)
        then listen_pools_v3 tokens f.sessions
        else scan_pools_v3 tokens max_scan_height f.head f.rounds

  module _ (factory init_code : List ℕ) (positions : ℕ → ℤ → Result Text Position) where
    -- The handler as the loops call it, with the position manager as it answers at the moment.
    abbrev pub deal_nft_at : Seen EventLog → Outcome (List (Sent NftToken))
    deal_nft_at (moment, log) = deal_nft_log e factory init_code (positions moment) log

    -- `scanNft`
    unfoldable pub scan_nft :
        ℕ → Result Text ℕ → List (Round (Seen EventLog)) → Outcome (List (Sent NftToken))
    scan_nft max_scan_height head rs = do
      h ← first_height head
      deal_steps deal_nft_at (scan (scan_round max_scan_height) (start_height h) rs).1

    -- `listenNft`
    unfoldable pub listen_nft : List (Session (Seen EventLog)) → Outcome (List (Sent NftToken))
    listen_nft = listen deal_nft_at

    -- `StartListenNft`; a fault is an error of `Dial` or of `NewINonfungiblePositionManager`.
    unfoldable pub start_listen_nft :
        Option Text → ℤ → ℕ → Feed (Seen EventLog) → Outcome (List (Sent NftToken))
    start_listen_nft (some fault) listen_type max_scan_height f = panic
    start_listen_nft none listen_type max_scan_height f =
        if eqb_ℤ listen_type (pos 0)
        then listen_nft f.sessions
        else scan_nft max_scan_height f.head f.rounds

  -- `scanFactory`, which starts at the head itself.
  unfoldable pub scan_factory :
      ℕ → Result Text ℕ → List (Round EventLog) → Outcome (List (Sent Pool))
  scan_factory max_scan_height head rs = do
    h ← first_height head
    deal_steps (deal_factory_log e) (scan (scan_round max_scan_height) h rs).1

  -- `listenFactory`
  unfoldable pub listen_factory : List (Session EventLog) → Outcome (List (Sent Pool))
  listen_factory = listen (deal_factory_log e)

  -- `StartListenFactory`
  unfoldable pub start_listen_factory : ℤ → ℕ → Feed EventLog → Outcome (List (Sent Pool))
  start_listen_factory listen_type max_scan_height f =
      if eqb_ℤ listen_type (pos 0)
      then listen_factory f.sessions
      else scan_factory max_scan_height f.head f.rounds
