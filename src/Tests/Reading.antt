-- ===== src/Tests/Reading.antt =====
-- The handlers of service/evm.go and its byte-level helpers on concrete logs and slices.
use ibswap_api.Common.{
  ℕ, ◌≤◌, ◌<◌, ◌≡◌, ◌≢◌, refl, ◌⊎◌, some, List, [], ◌∷◌, replicate, length, arith,
}
use ibswap_api.Common.Int.{pos, negsuc}
use ibswap_api.Common.Eq.{Text}
use ibswap_api.Common.Decimal.{int_string}
use ibswap_api.Common.Outcome.{ok}
use ibswap_api.Chain.Bytes.{flag_bytes}
use ibswap_api.Chain.Types.{event_swap_v3, EventLog, Direction, logged, sent, swap_data_error}
use ibswap_api.Chain.Signed.{int_bytes, flag_bytes-int_bytes}
use ibswap_api.Chain.PoolAddress.{get_pool_contract}
use ibswap_api.Chain.PoolAddress.Preimage.{salt_input-injective}
use ibswap_api.Chain.Logs.{Trade, swap_trade, deal_pool_v3_log, deal_nft_log, deal_factory_log}
use ibswap_api.Chain.Logs.Paths.{SendsStat, deal_pool_v3_log-total}
use ibswap_api.Chain.Logs.Swap.{swap_decoded}
use ibswap_api.Chain.Logs.Topics.{factory_decoded, Moves, nft_decoded}
use ibswap_api.Tests.Watching.{
  toy, pool_address, swap_log, token, nft_log, factory_log, known_position,
}

-- A swap that brought 500 of the first token in and took 42 of the second out.
swap_decoded_example :
    deal_pool_v3_log toy (some (token (pos 30))) (some (token (pos 40))) 77 swap_log
    ≡ ok (
        sent (record {
          address = pool_address;
          tx = replicate 32 1;
          reserve0 = pos 30;
          reserve1 = pos 40;
          volume0 = pos 0;
          volume1 = pos 42;
          tick = negsuc 9;
          ts = 77;
        })
        ∷ [])
swap_decoded_example =
    swap_decoded toy (token (pos 30)) (token (pos 40)) 77 swap_log [] (pos 500) (negsuc 41)
      (replicate 64 0) (negsuc 9) (pos 30) (pos 40) refl refl refl (omega arith) (omega arith)
      (omega arith) refl refl

abbrev short_log : EventLog
short_log = record swap_log { payload = replicate 159 0 }

deal_pool_v3_log-total_example :
    let topic = event_swap_v3 toy in
    let r = deal_pool_v3_log toy (some (token (pos 30))) (some (token (pos 40))) 77 short_log in
    ((topic ≡ event_swap_v3 toy)
      × (length short_log.payload < 160)
      × (r ≡ ok (logged (swap_data_error short_log.payload) ∷ [])))
    ⊎ ((topic ≡ event_swap_v3 toy)
        × (160 ≤ length short_log.payload)
        × ((t : Trade) × (swap_trade short_log.payload ≡ ok t)
            × SendsStat short_log (token (pos 30)) (token (pos 40)) t r))
    ⊎ ((topic ≢ event_swap_v3 toy)
        × SendsStat short_log
            (token (pos 30))
            (token (pos 40))
            (record { amount0 = pos 0; amount1 = pos 0; tick = pos 0 })
            r)
deal_pool_v3_log-total_example =
    deal_pool_v3_log-total toy (token (pos 30)) (token (pos 40)) 77 short_log (event_swap_v3 toy) []
      refl

nft_decoded_example :
    (way : Direction) × (owner : List ℕ) × (pool : Text) × Moves
      (replicate 20 0)
      (replicate 20 4)
      way
      owner
    × (get_pool_contract toy (replicate 20 3) (replicate 20 4) pool_address 3000 (replicate 32 5)
        ≡ ok pool)
    × (deal_nft_log toy pool_address (replicate 32 5) known_position nft_log
        ≡ ok (
            sent (record {
              collection = pool_address;
              token_id = int_string (pos 12);
              user = owner;
              pool = pool;
              token0 = replicate 20 3;
              token1 = replicate 20 4;
              fee = pos 3000;
              direction = way;
            })
            ∷ []))
nft_decoded_example =
    nft_decoded toy pool_address (replicate 32 5) known_position nft_log (replicate 32 9)
      (replicate 20 0) (replicate 20 4) 12
      (record { token0 = replicate 20 3; token1 = replicate 20 4; fee = 3000 }) (λ d. refl) refl
      refl refl (omega arith) (omega arith) (λ d. refl) refl

factory_decoded_example :
    deal_factory_log toy factory_log
    ≡ ok (
        sent (record {
          contract = pool_address;
          token0 = replicate 20 3;
          token1 = replicate 20 4;
          fee_rate = pos 3000;
          tick_spacing = pos 60;
        })
        ∷ [])
factory_decoded_example =
    factory_decoded toy factory_log (replicate 32 9) (replicate 20 3) (replicate 20 4) pool_address
      3000 60 (λ d. refl) refl refl refl refl refl (omega arith) (omega arith)

flag_bytes-int_bytes_example : (flag_bytes (int_bytes 4 (negsuc 887271))).1 ≡ some (negsuc 887271)
flag_bytes-int_bytes_example = flag_bytes-int_bytes 3 (negsuc 887271) (omega arith)

abbrev token_address : ℕ → List ℕ
token_address n = replicate 20 n

abbrev fee_500 : ℕ
fee_500 = 500

salt_input-injective_example :
    (token_address 3 ≡ token_address 3) × (token_address 4 ≡ token_address 4) × (fee_500 ≡ fee_500)
salt_input-injective_example =
    salt_input-injective toy (token_address 3) (token_address 4) fee_500 (token_address 3)
      (token_address 4) fee_500 (λ d n. refl) refl refl refl refl refl
