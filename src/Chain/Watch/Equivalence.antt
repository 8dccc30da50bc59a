-- ===== src/Chain/Watch/Equivalence.antt =====
-- The polling watchers of service/evm.go against a plain walk over the chain's blocks.
use mathlib.Core.List.{append_assoc}
use ibswap_api.Common.{ℕ, ◌-◌, ◌≡◌, refl, sym, ap, ◌∙◌, List, [], ◌∷◌, ◌++◌, All}
use ibswap_api.Common.Int.{ℤ}
use ibswap_api.Common.Eq.{Text}
use ibswap_api.Common.Outcome.{Outcome, ok, panic, ◌>>=◌, Result, value, error}
use ibswap_api.Chain.Types.{
  Ethereum, EventLog, Sent, sent, logged, block_number_error, filter_logs_error, Position,
}
use ibswap_api.Chain.ErrorText.Title.{cut_error_string-ok}
use ibswap_api.Chain.Logs.Paths.{values}
use ibswap_api.Chain.Logs.{deal_factory_log}
use ibswap_api.Chain.Scan
use ibswap_api.Chain.Scan.{
  Round, Step, waited, scanned, scan, scan_round, scan_v2_round, start_height,
}
use ibswap_api.Chain.Scan.Delivery.{delivered, logs_of, IsFaithful, Covers, scan_round-Covers}
use ibswap_api.Chain.Watch.{
  Seen, first_height, deal_nft_at, Timed, Tokens, deal_all, deal_step, deal_steps, deal_v3,
  scan_pools_v3, scan_nft, scan_factory,
}

-- The values of a call that does not panic.
abbrev pub values_of : {S : Type 0} → Outcome (List (Sent S)) → Outcome (List S)
values_of (ok out) = ok (values out)
values_of panic = panic

values-append : {S : Type 0} (xs ys : List (Sent S)) → values (xs ++ ys) ≡ values xs ++ values ys
values-append [] ys = refl
values-append (sent s ∷ xs) ys = ap (◌∷◌ s) (values-append xs ys)
values-append (logged m ∷ xs) ys = values-append xs ys

-- Two calls in a row.
abbrev after :
    {S : Type 0} → Outcome (List (Sent S)) → Outcome (List (Sent S)) → Outcome (List (Sent S))
after m n = m >>= λ out. n >>= λ rest. ok (out ++ rest)

values_of-after :
    {S : Type 0} (m n n' : Outcome (List (Sent S)))
    → values_of n ≡ values_of n'
    → values_of (after m n) ≡ values_of (after m n')
values_of-after panic n n' e = refl
values_of-after (ok out) panic panic e = refl
values_of-after (ok out) panic (ok y) e = cc
values_of-after (ok out) (ok x) panic e = cc
values_of-after (ok out) (ok x) (ok y) e =
    ap ok (values-append out x ∙ ap (◌++◌ (values out)) (cc) ∙ sym (values-append out y))

module _ {S : Type 0} where
  after_assoc : (a b c : Outcome (List (Sent S))) → after (after a b) c ≡ after a (after b c)
  after_assoc panic b c = refl
  after_assoc (ok x) panic c = refl
  after_assoc (ok x) (ok y) panic = refl
  after_assoc (ok x) (ok y) (ok z) = ap ok (append_assoc x y z)

  after_nothing : (m : Outcome (List (Sent S))) → after (ok []) m ≡ m
  after_nothing panic = refl
  after_nothing (ok x) = refl

module _ {L S : Type 0} (deal : L → Outcome (List (Sent S))) where
  deal_all-append :
      (xs ys : List L) → deal_all deal (xs ++ ys) ≡ after (deal_all deal xs) (deal_all deal ys)
  unfolding deal_all
  deal_all-append [] ys = sym (after_nothing (deal_all deal ys))
  deal_all-append (x ∷ xs) ys =
      ap (after (deal x)) (deal_all-append xs ys)
      ∙ sym (after_assoc (deal x) (deal_all deal xs) (deal_all deal ys))

  -- A round that hands nothing over sends no value.
  quiet :
      (m r : Outcome (List (Sent S))) (out : List (Sent S)) (ls : List L)
      → m ≡ ok out
      → values out ≡ []
      → values_of r ≡ values_of (deal_all deal ls)
      → values_of (after m r) ≡ values_of (deal_all deal ls)
  quiet m panic out ls e none_sent h = rw e h
  quiet m (ok rest) out ls e none_sent h =
      rw e (ap ok (values-append out rest ∙ ap (λ (v : List S). v ++ values rest) none_sent) ∙ h)

  values_of-deal_steps :
      (steps : List (Step L))
      → values_of (deal_steps deal steps) ≡ values_of (deal_all deal (delivered steps))
  unfolding deal_steps deal_all
  values_of-deal_steps [] = refl
  values_of-deal_steps (waited ∷ ss) =
      quiet (ok []) (deal_steps deal ss) [] (delivered ss) refl refl (values_of-deal_steps ss)
  values_of-deal_steps (Scan.block_number_error m ∷ ss) =
      let (title, e, _) = cut_error_string-ok m in
      quiet (deal_step deal (Scan.block_number_error m)) (deal_steps deal ss)
        (logged (block_number_error title) ∷ []) (delivered ss) (unfold deal_step in rw e) refl
        (values_of-deal_steps ss)
  values_of-deal_steps (Scan.filter_logs_error m ∷ ss) =
      quiet (ok (logged (filter_logs_error m) ∷ [])) (deal_steps deal ss)
        (logged (filter_logs_error m) ∷ []) (delivered ss) refl refl (values_of-deal_steps ss)
  values_of-deal_steps (scanned lo hi logs ∷ ss) =
      values_of-after (deal_all deal logs) (deal_steps deal ss) (deal_all deal (delivered ss))
        (values_of-deal_steps ss)
      ∙ ap values_of (sym (deal_all-append logs (delivered ss)))

  -- Any of the loops: the values sent are those of the blocks walked in order.
  walk :
      (width lo : ℕ) (chain : ℕ → List L) (run : ℕ × List (Step L))
      → Covers width chain lo run
      → values_of (deal_steps deal run.1)
        ≡ values_of (deal_all deal (logs_of chain lo (run.0 - lo)))
  walk width lo chain run c =
      values_of-deal_steps run.1 ∙ ap (λ (ls : List L). values_of (deal_all deal ls)) c.exact

-- The chain's blocks from a height to the one that the rounds have reached.
abbrev pub walked :
    {L S : Type 0}
    → (L → Outcome (List (Sent S)))
    → ℕ
    → (ℕ → List L)
    → List (Round L)
    → ℕ
    → Outcome (List S)
walked deal max chain rs lo =
    values_of (deal_all deal (logs_of chain lo ((scan (scan_round max) lo rs).0 - lo)))

module _ (e : Ethereum) (max : ℕ) where
  -- When the first `BlockNumber` fails, or the `Dial` before it, `scanPoolsV3` panics. Otherwise it sends,
  -- apart from lines for `chLog`, what handling the logs of all blocks sends, from 400 blocks below that
  -- head (modulo 2^64) to the height that it has reached, in order: errors, waiting and the split into
  -- queries change nothing. It panics where that walk does. The node is taken to answer `FilterLogs` with
  -- the logs of the range; the tokens answer `BalanceOf` as they do at the moment of each log, on either
  -- side.
  pub scan_pools_v3_walks :
      (tokens : Tokens e) (head : Result Text ℕ) (chain : ℕ → List (Seen Timed))
      (rs : List (Round (Seen Timed)))
      → All (IsFaithful chain) rs
      → values_of (scan_pools_v3 e tokens max head rs)
        ≡ (first_height head >>= λ h. walked (deal_v3 e tokens) max chain rs (start_height h))
  unfolding scan_pools_v3
  scan_pools_v3_walks tokens (error m) chain rs f = refl
  scan_pools_v3_walks tokens (value h) chain rs f =
      walk (deal_v3 e tokens) max (start_height h) chain _
        (scan_round-Covers max chain rs (start_height h) f)

  -- When the first `BlockNumber` fails, or the `Dial` before it, `scanNft` panics. Otherwise it sends,
  -- apart from lines for `chLog`, what handling the logs of all blocks sends, from 400 blocks below that
  -- head (modulo 2^64) to the height that it has reached, in order, and panics where that walk does. The
  -- node is taken to answer `FilterLogs` with the logs of the range; the position manager answers as it
  -- does at the moment of each log, on either side.
  pub scan_nft_walks :
      (factory init_code : List ℕ) (positions : ℕ → ℤ → Result Text Position) (head : Result Text ℕ)
      (chain : ℕ → List (Seen EventLog)) (rs : List (Round (Seen EventLog)))
      → All (IsFaithful chain) rs
      → values_of (scan_nft e factory init_code positions max head rs) ≡ (
          first_height head >>= λ h.
          walked (deal_nft_at e factory init_code positions) max chain rs (start_height h))
  unfolding scan_nft
  scan_nft_walks factory init_code positions (error m) chain rs f = refl
  scan_nft_walks factory init_code positions (value h) chain rs f =
      walk (deal_nft_at e factory init_code positions) max (start_height h) chain _
        (scan_round-Covers max chain rs (start_height h) f)

  -- When the first `BlockNumber` fails, or the `Dial` before it, `scanFactory` panics. Otherwise it sends,
  -- apart from lines for `chLog`, what handling the logs of all blocks sends, from that head to the height
  -- that it has reached, in order, and panics where that walk does. The node is taken to answer
  -- `FilterLogs` with the logs of the range.
  pub scan_factory_walks :
      (head : Result Text ℕ) (chain : ℕ → List EventLog) (rs : List (Round EventLog))
      → All (IsFaithful chain) rs
      → values_of (scan_factory e max head rs)
        ≡ (first_height head >>= λ h. walked (deal_factory_log e) max chain rs h)
  unfolding scan_factory
  scan_factory_walks (error m) chain rs f = refl
  scan_factory_walks (value h) chain rs f =
      walk (deal_factory_log e) max h chain _ (scan_round-Covers max chain rs h f)
