-- ===== src/Tests/Watching.antt =====
-- The polling loops of service/evm.go on small chains.
use ibswap_api.Common.{
  ℕ, suc, ◌+◌, ◌-◌, ◌^◌, ◌≤◌, ◌<◌, ◌≡◌, refl, List, [], ◌∷◌, ◌++◌, replicate, arith, length, All,
  ltb, if◌then◌else◌,
}
use ibswap_api.Common.Int.{ℤ, pos, negsuc}
use ibswap_api.Common.Eq.{Text, codes}
use ibswap_api.Common.Outcome.{Result, value, error}
use ibswap_api.Chain.Bytes.{left_padded, as_address}
use ibswap_api.Chain.Types.{Ethereum, event_swap_v3, EventLog, Token, Position}
use ibswap_api.Chain.Signed.{be_bytes}
use ibswap_api.Chain.Logs.Swap.{swap_data}
use ibswap_api.Chain.Logs.Topics.{address_word}
use ibswap_api.Chain.Scan.{Round, scan, scan_round, start_height}
use ibswap_api.Chain.Scan.Delivery.{logs_of, delivered, IsFaithful, Covers, scan_round-Covers}
use ibswap_api.Chain.Scan.Progress.{Answers, scan_round_catches_up, short_chain_never_scanned}
use ibswap_api.Chain.Watch.{Seen, deal_nft_at, Timed, Tokens, deal_v3, scan_pools_v3, scan_nft}
use ibswap_api.Chain.Watch.Equivalence.{values_of, walked, scan_pools_v3_walks, scan_nft_walks}

abbrev pub toy : Ethereum
toy = record {
  keccak256 = λ d. replicate 32 (length d);
  address_hex = λ a. a;
  hash_hex = λ h. h;
  left_pad_bytes = left_padded;
  bytes_to_address = as_address;
}

abbrev pub pool_address : List ℕ
pool_address = replicate 20 7

abbrev pub swap_log : EventLog
swap_log = record {
  address = pool_address;
  topics = event_swap_v3 toy ∷ [];
  payload = swap_data (pos 500) (negsuc 41) (replicate 64 0) (negsuc 9);
  tx_hash = replicate 32 1;
}

abbrev pub token : ℤ → Token
token balance a = value balance

abbrev pub nft_log : EventLog
nft_log = record {
  address = pool_address;
  topics =
      replicate 32 9
      ∷ address_word (replicate 20 0)
      ∷ address_word (replicate 20 4)
      ∷ be_bytes 32 12
      ∷ [];
  payload = [];
  tx_hash = replicate 32 1;
}

abbrev pub factory_log : EventLog
factory_log = record {
  address = pool_address;
  topics =
      replicate 32 9
      ∷ address_word (replicate 20 3)
      ∷ address_word (replicate 20 4)
      ∷ be_bytes 32 3000
      ∷ [];
  payload = be_bytes 32 60 ++ address_word pool_address;
  tx_hash = replicate 32 1;
}

module _ {L : Type 0} where
  -- A node that knows the chain, at a height.
  abbrev honest : (ℕ → List L) → ℕ → Round L
  honest chain head = record {
    head = value head;
    filter_logs = λ lo hi. value (logs_of chain lo (suc hi - lo));
  }

  honest-IsFaithful :
      (chain : ℕ → List L) (head : ℕ) → head + 1 < 2 ^ 64 → IsFaithful chain (honest chain head)
  honest-IsFaithful chain head h = record {
    answers = λ lo hi logs k e. cc e;
    head_bound = λ n e. same n (cc e);
  }
    where
      same : (n : ℕ) → n ≡ head → n + 1 < 2 ^ 64
      same n e = omega arith

  honest-Answers :
      (chain : ℕ → List L) (h head : ℕ)
      → h ≤ head
      → head + 1 < 2 ^ 64
      → Answers h (honest chain head)
  honest-Answers chain h head k b = record {
    head = head;
    known = refl;
    reached = k;
    fits = b;
    logs = λ lo hi. (_, refl);
  }

abbrev heights : ℕ → List ℕ
heights h = h ∷ []

abbrev two_rounds : List (Round ℕ)
two_rounds = honest heights 8 ∷ honest heights 9 ∷ []

two_rounds-IsFaithful : All (IsFaithful heights) two_rounds
two_rounds-IsFaithful =
    (honest-IsFaithful heights 8 (omega arith), (honest-IsFaithful heights 9 (omega arith), tt))

scan_round-Covers_example : Covers 2 heights 5 (scan (scan_round 2) 5 two_rounds)
scan_round-Covers_example = scan_round-Covers 2 heights two_rounds 5 two_rounds-IsFaithful

two_rounds-Answers : All (Answers 8) two_rounds
two_rounds-Answers = (
  honest-Answers heights 8 8 (omega arith) (omega arith),
  (honest-Answers heights 8 9 (omega arith) (omega arith), tt),
)

scan_round_catches_up_example : 8 < (scan (scan_round 2) 5 two_rounds).0
scan_round_catches_up_example =
    scan_round_catches_up 2 8 two_rounds 5 two_rounds-Answers (omega arith)

abbrev at_head : ℕ → Result Text ℕ
at_head n = value n

head_below : (b n h : ℕ) → n < b → at_head n ≡ value h → h < b
head_below b n h k e = same (cc e)
  where
    same : n ≡ h → h < b
    same f = omega arith

short_chain_never_scanned_example :
    delivered (scan (scan_round 2) (start_height 7) two_rounds).1 ≡ []
short_chain_never_scanned_example =
    short_chain_never_scanned 2 7 two_rounds (omega arith)
      (λ h e. head_below _ 8 h (omega arith) e, (λ h e. head_below _ 9 h (omega arith) e, tt))

abbrev swaps : ℕ → List (Seen Timed)
swaps h = (h, (h, swap_log)) ∷ []

abbrev swap_rounds : List (Round (Seen Timed))
swap_rounds = honest swaps 1000 ∷ honest swaps 1001 ∷ []

abbrev tokens : Tokens toy
tokens = (pool_address, ((λ m. token (pos m)), (λ m. token (pos 40)))) ∷ []

scan_pools_v3_walks_example :
    values_of (scan_pools_v3 toy tokens 300 (value 1000) swap_rounds)
    ≡ walked (deal_v3 toy tokens) 300 swaps swap_rounds (start_height 1000)
scan_pools_v3_walks_example =
    scan_pools_v3_walks toy 300 tokens (value 1000) swaps swap_rounds
      (honest-IsFaithful swaps 1000 (omega arith), (honest-IsFaithful swaps 1001 (omega arith), tt))

abbrev transfers : ℕ → List (Seen EventLog)
transfers h = (h, nft_log) ∷ []

abbrev transfer_rounds : List (Round (Seen EventLog))
transfer_rounds = honest transfers 1000 ∷ []

abbrev pub known_position : ℤ → Result Text Position
known_position id = value (record { token0 = replicate 20 3; token1 = replicate 20 4; fee = 3000 })

-- The token is known before block 800, and burnt then.
abbrev position_at : ℕ → ℤ → Result Text Position
position_at moment id =
    if ltb moment 800 then known_position id else error (codes "Invalid token ID")

scan_nft_walks_example :
    values_of
      (scan_nft toy pool_address (replicate 32 5) position_at 300 (value 1000) transfer_rounds)
    ≡ walked
        (deal_nft_at toy pool_address (replicate 32 5) position_at)
        300
        transfers
        transfer_rounds
        (start_height 1000)
scan_nft_walks_example =
    scan_nft_walks toy 300 pool_address (replicate 32 5) position_at (value 1000) transfers
      transfer_rounds (honest-IsFaithful transfers 1000 (omega arith), tt)

abbrev creations : ℕ → List EventLog
creations h = factory_log ∷ []

abbrev creation_rounds : List (Round EventLog)
creation_rounds = honest creations 1000 ∷ honest creations 1002 ∷ []
