-- ===== src/Chain/Scan.antt =====
-- service/evm.go: the polling loops `scanPoolsV2`, `scanPoolsV3`, `scanNft` and `scanFactory`.
pub mod Delivery
pub mod Progress
use ibswap_api.Common.{
  ℕ, ◌+◌, ◌-◌, ◌%◌, ◌^◌, ◌≡◌, Bool, Option, none, some, List, [], ◌∷◌, ◌++◌, ltb, if◌then◌else◌,
}
use ibswap_api.Common.Eq.{Text}
use ibswap_api.Common.Outcome.{Result, value, error}

-- What the node answers in one round: `BlockNumber`, and `FilterLogs` for a range of heights.
pub record Round (L : Type 0) : Type 0 where
  pub head : Result Text ℕ
  pub filter_logs : ℕ → ℕ → Result Text (List L)

-- What a round does: it sleeps on, reports an error on `chLog`, or hands over the logs of a range.
pub data Step (L : Type 0) : Type 0 where
  waited : Step L
  block_number_error : Text → Step L
  filter_logs_error : Text → Step L
  scanned : ℕ → ℕ → List L → Step L

-- uint64 addition.
abbrev pub add64 : ℕ → ℕ → ℕ
add64 a b = (a + b) % 2 ^ 64

module _ {L : Type 0} where
  -- From the query on: its range is `from` to `to`, and the next round begins above `to`.
  query : ℕ → ℕ → Round L → ℕ × Step L
  query from to r = elim (r.filter_logs from to) [
    | value logs ↦ (add64 to 1, scanned from to logs)
    | error m ↦ (from, filter_logs_error m)
  ]

  -- One round of `scanPoolsV3`, `scanNft` or `scanFactory`, which differ in the handler that they
  -- pass the logs to. The difference of the heights is taken after the test that it is not negative.
  unfoldable pub scan_round : ℕ → ℕ → Round L → ℕ × Step L
  unfolding query
  scan_round max_scan_height from r = elim r.head [
    | error m ↦ (from, block_number_error m)
    | value to ↦
        if ltb to from
        then (from, waited)
        else if ltb max_scan_height (to - from)
        then query from (add64 from max_scan_height) r
        else query from to r
  ]

  -- One round of `scanPoolsV2`.
  unfoldable pub scan_v2_round : ℕ → Round L → ℕ × Step L
  unfolding query
  scan_v2_round from r = elim r.head [
    | error m ↦ (from, block_number_error m)
    | value to ↦
        if ltb to from
        then (from, waited)
        else if ltb 10000 (to - from)
        then query from (add64 from 9999) r
        else query from to r
  ]

  -- The loop, over the rounds that it has run: where the next round begins, and what was done.
  unfoldable pub scan : (ℕ → Round L → ℕ × Step L) → ℕ → List (Round L) → ℕ × List (Step L)
  scan round from [] = (from, [])
  scan round from (r ∷ rs) =
      let (next, step) = round from r in
      let (end, steps) = scan round next rs in (end, step ∷ steps)

-- The height that `scanPoolsV3` and `scanNft` begin at: 400 below the head, in uint64.
unfoldable pub start_height : ℕ → ℕ
start_height head = (head + 2 ^ 64 - 400) % 2 ^ 64
