-- ===== src/Chain/Logs.antt =====
-- service/evm.go: the handlers of one event log.
pub mod Swap
pub mod Paths
pub mod Topics
use ibswap_api.Common.{
  ℕ, ◌+◌, ◌-◌, ◌≡◌, Bool, true, false, Option, none, some, List, [], ◌∷◌, ◌++◌, length, ltb,
  if◌then◌else◌, replicate,
}
use ibswap_api.Common.Int.{ℤ, pos, negsuc, ◌+ℤ◌}
use ibswap_api.Common.Eq.{Text, text_eq}
use ibswap_api.Common.Outcome.{Outcome, ok, panic, ◌>>=◌, deref, Result, value, error}
use ibswap_api.Common.Decimal.{int_string}
use ibswap_api.Chain.Bytes.{set_bytes, abs_bytes, flag_bytes}
use ibswap_api.Chain.Types.{
  Ethereum, event_swap_v2, event_sync_v2, event_swap_v3, EventLog, PoolStat, Direction, mint, burn,
  transfer, NftToken, Pool, Token, Position, Message, swap_data_error, balance0_error,
  balance1_error, positions_error, Sent, logged, sent, slice, slice_from, at, int64,
}
use ibswap_api.Chain.PoolAddress.{get_pool_contract}

-- `new(big.Int).SetBytes(d[lo:hi])`
unsigned_at : ℕ → ℕ → List ℕ → Outcome ℤ
unsigned_at lo hi d = do word ← slice lo hi d; ok (pos (set_bytes word))

-- The four amounts of a V2 log, before it is sent.
record Amounts : Type 0 where
  reserve0 : ℤ
  reserve1 : ℤ
  amount0 : ℤ
  amount1 : ℤ

sync_amounts : List ℕ → Outcome Amounts
unfolding unsigned_at
sync_amounts d = do
  r0 ← unsigned_at 0 32 d
  r1 ← unsigned_at 32 64 d
  ok (record { reserve0 = r0; reserve1 = r1; amount0 = pos 0; amount1 = pos 0 })

swap_amounts : List ℕ → Outcome Amounts
unfolding unsigned_at
swap_amounts d = do
  a0 ← unsigned_at 0 32 d
  a1 ← unsigned_at 32 64 d
  b0 ← unsigned_at 64 96 d
  b1 ← unsigned_at 96 128 d
  ok (record { reserve0 = pos 0; reserve1 = pos 0; amount0 = a0 +ℤ b0; amount1 = a1 +ℤ b1 })

-- `dealPoolV2Log`; `now` is `time.Now().Unix()`.
unfoldable pub deal_pool_v2_log : Ethereum → ℕ → EventLog → Outcome (List (Sent PoolStat))
unfolding sync_amounts swap_amounts
deal_pool_v2_log e now log = do
  topic ← at log.topics 0
  a ←
      if text_eq topic (event_sync_v2 e)
      then sync_amounts log.payload
      else if text_eq topic (event_swap_v2 e)
      then swap_amounts log.payload
      else ok (record { reserve0 = pos 0; reserve1 = pos 0; amount0 = pos 0; amount1 = pos 0 })
  ok (
      sent (record {
        address = [];
        tx = [];
        reserve0 = a.reserve0;
        reserve1 = a.reserve1;
        volume0 = a.amount0;
        volume1 = a.amount1;
        tick = pos 0;
        ts = now;
      })
      ∷ [])

-- What a V3 log says of itself: two amounts and the tick.
pub record Trade : Type 0 where
  pub amount0 : ℤ
  pub amount1 : ℤ
  pub tick : ℤ

-- A swap's amounts and tick. The slices do not overlap, so what `absBytes` writes is not read again.
pub swap_trade : List ℕ → Outcome Trade
swap_trade d = do
  w0 ← slice 0 32 d
  a0 ← deref (abs_bytes w0).1
  w1 ← slice 32 64 d
  a1 ← deref (abs_bytes w1).1
  w2 ← slice_from 156 d
  t ← deref (flag_bytes w2).1
  ok (record { amount0 = a0; amount1 = a1; tick = int64 t })

-- A balance that cannot be read is reported, and counts as 0.
balance_or_zero : (Text → Message) → Result Text ℤ → ℤ × List (Sent PoolStat)
balance_or_zero fault (value b) = (b, [])
balance_or_zero fault (error m) = (pos 0, logged (fault m) ∷ [])

-- From the trade on: both balances, and the one value sent.
finish_v3 :
    Ethereum → Option Token → Option Token → ℕ → EventLog → Trade → Outcome (List (Sent PoolStat))
unfolding balance_or_zero
finish_v3 e token0 token1 now log t = do
  balance0 ← deref token0
  balance1 ← deref token1
  let b0 = balance_or_zero balance0_error (balance0 log.address)
  let b1 = balance_or_zero balance1_error (balance1 log.address)
  ok (
      b0.1
      ++ b1.1
      ++ sent (record {
        address = e.address_hex log.address;
        tx = e.hash_hex log.tx_hash;
        reserve0 = b0.0;
        reserve1 = b1.0;
        volume0 = t.amount0;
        volume1 = t.amount1;
        tick = t.tick;
        ts = now;
      })
        ∷ [])

-- `dealPoolV3Log`. A pool that `StartListenV3` did not register has nil tokens.
unfoldable pub deal_pool_v3_log :
    Ethereum → Option Token → Option Token → ℕ → EventLog → Outcome (List (Sent PoolStat))
unfolding swap_trade finish_v3
deal_pool_v3_log e token0 token1 now log = do
  topic ← at log.topics 0
  if text_eq topic (event_swap_v3 e)
      then (if ltb (length log.payload) 160
          then ok (logged (swap_data_error log.payload) ∷ [])
          else (do t ← swap_trade log.payload; finish_v3 e token0 token1 now log t))
      else finish_v3 e token0 token1 now log
          (record { amount0 = pos 0; amount1 = pos 0; tick = pos 0 })

-- `zeroAddress`
abbrev pub zero_address : List ℕ
zero_address = replicate 20 0

-- Which way an NFT went, and whose it is now (for a burn, whose it was).
unfoldable pub movement : List ℕ → List ℕ → Direction × List ℕ
movement from to =
    if text_eq from zero_address
    then (mint, to)
    else if text_eq to zero_address
    then (burn, from)
    else (transfer, to)

nft_token :
    Ethereum
    → List ℕ
    → List ℕ
    → EventLog
    → List ℕ
    → List ℕ
    → ℤ
    → Result Text Position
    → Outcome (List (Sent NftToken))
nft_token e factory init_code log from to token_id (error m) =
    ok (logged (positions_error (int_string token_id) m) ∷ [])
nft_token e factory init_code log from to token_id (value p) = do
  pool ← get_pool_contract e p.token0 p.token1 factory p.fee init_code
  ok (
      sent (record {
        collection = e.address_hex log.address;
        token_id = int_string token_id;
        user = e.address_hex (movement from to).1;
        pool = pool;
        token0 = e.address_hex p.token0;
        token1 = e.address_hex p.token1;
        fee = int64 (pos p.fee);
        direction = (movement from to).0;
      })
      ∷ [])

-- `dealNFTLog`; `positions` is the position manager's answer for a token id.
unfoldable pub deal_nft_log :
    Ethereum
    → List ℕ
    → List ℕ
    → (ℤ → Result Text Position)
    → EventLog
    → Outcome (List (Sent NftToken))
unfolding nft_token
deal_nft_log e factory init_code positions log = do
  t1 ← at log.topics 1
  t2 ← at log.topics 2
  t3 ← at log.topics 3
  let token_id = pos (set_bytes t3)
  nft_token e factory init_code log (e.bytes_to_address t1) (e.bytes_to_address t2) token_id
      (positions token_id)

-- `dealFactoryLog`
unfoldable pub deal_factory_log : Ethereum → EventLog → Outcome (List (Sent Pool))
deal_factory_log e log = do
  t1 ← at log.topics 1
  t2 ← at log.topics 2
  t3 ← at log.topics 3
  spacing ← slice 0 32 log.payload
  pool ← slice_from 32 log.payload
  ok (
      sent (record {
        contract = e.address_hex (e.bytes_to_address pool);
        token0 = e.address_hex (e.bytes_to_address t1);
        token1 = e.address_hex (e.bytes_to_address t2);
        fee_rate = int64 (pos (set_bytes t3));
        tick_spacing = int64 (pos (set_bytes spacing));
      })
      ∷ [])
