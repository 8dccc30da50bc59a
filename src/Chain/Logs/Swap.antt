-- ===== src/Chain/Logs/Swap.antt =====
-- `dealPoolV3Log` of service/evm.go: what it reads out of a swap, and what it sends on each path.
use mathlib.Core.List.{append_assoc}
use ibswap_api.Common.{
  ℕ, ◌+◌, ◌*◌, ◌-◌, ◌^◌, ◌≡◌, refl, ap, ◌∙◌, some, List, [], ◌∷◌, ◌++◌, arith, length, take,
  length-append,
}
use ibswap_api.Common.Int.{ℤ, pos, negsuc, neg_part}
use ibswap_api.Common.Eq.{text_eq_iff}
use ibswap_api.Common.Outcome.{ok, value}
use ibswap_api.Chain.Signed.{
  int_bytes, be_bytes, Fits, length-be_bytes, flag_bytes-int_bytes, abs_bytes-int_bytes,
}
use ibswap_api.Chain.Slices.{slice_middle, slice_end}
use ibswap_api.Chain.Types.{
  Ethereum, event_swap_v3, EventLog, Token, sent, slice, slice_from, int64,
}
use ibswap_api.Chain.Logs.{swap_trade, deal_pool_v3_log}

-- The five words of a swap's data, the tick last. Its word sign-extends an `int24`.
abbrev pub swap_data : ℤ → ℤ → List ℕ → ℤ → List ℕ
swap_data a0 a1 middle tick = int_bytes 32 a0 ++ (int_bytes 32 a1 ++ (middle ++ int_bytes 32 tick))

length-int_bytes : (n : ℕ) (z : ℤ) → length (int_bytes n z) ≡ n
length-int_bytes n (pos k) = length-be_bytes n k
length-int_bytes n (negsuc k) = length-be_bytes n (256 ^ n - 1 - k)

-- The low four bytes of a number do not see what is above them.
be_bytes_low : (w u : ℕ) → be_bytes 4 (w * 256 ^ 4 + u) ≡ be_bytes 4 u
be_bytes_low w u = ap₄ (omega arith) (omega arith) (omega arith) (omega arith)
  where
    ap₄ :
        {a b c d a' b' c' d' : ℕ}
        → a ≡ a'
        → b ≡ b'
        → c ≡ c'
        → d ≡ d'
        → a ∷ b ∷ c ∷ d ∷ [] ≡ a' ∷ b' ∷ c' ∷ d' ∷ []
    ap₄ p q r t = cc

tick_high : (v : ℕ) → be_bytes 32 v ≡ take 28 (be_bytes 32 v) ++ be_bytes 4 v
tick_high v = refl

length_tick_high : (v : ℕ) → length (take 28 (be_bytes 32 v)) ≡ 28
length_tick_high v = refl

-- The last four bytes of a sign-extended word are those of a 4-byte integer.
tick_word :
    (z : ℤ)
    → Fits 4 z
    → (high : List ℕ) × (length high ≡ 28) × (int_bytes 32 z ≡ high ++ int_bytes 4 z)
tick_word (pos k) h = (take 28 (be_bytes 32 k), length_tick_high k, tick_high k)
tick_word (negsuc k) h = (
  take 28 (be_bytes 32 w),
  length_tick_high w,
  tick_high w ∙ ap (λ (t : List ℕ). take 28 (be_bytes 32 w) ++ t) low,
)
  where
    w : ℕ
    w = 256 ^ 32 - 1 - k

    low : be_bytes 4 w ≡ be_bytes 4 (256 ^ 4 - 1 - k)
    low = ap (be_bytes 4) split ∙ be_bytes_low (256 ^ 28 - 1) (256 ^ 4 - 1 - k)
      where
        split : w ≡ (256 ^ 28 - 1) * 256 ^ 4 + (256 ^ 4 - 1 - k)
        split = omega arith

int64-Fits : (z : ℤ) → Fits 4 z → int64 z ≡ z
unfolding int64
int64-Fits (pos k) h = ground arith
int64-Fits (negsuc k) h = ground arith

Fits-wider : (z : ℤ) → Fits 4 z → Fits 32 z
Fits-wider (pos k) h = omega arith
Fits-wider (negsuc k) h = omega arith

module _ (a0 a1 : ℤ) (middle : List ℕ) (tick : ℤ) (sized : length middle ≡ 64) where
  first_word : slice 0 32 (swap_data a0 a1 middle tick) ≡ ok (int_bytes 32 a0)
  first_word =
      slice_middle 0 32 [] (int_bytes 32 a0) (int_bytes 32 a1 ++ (middle ++ int_bytes 32 tick)) refl
        (length-int_bytes 32 a0) (omega arith)

  second_word : slice 32 64 (swap_data a0 a1 middle tick) ≡ ok (int_bytes 32 a1)
  second_word =
      slice_middle 32 64 (int_bytes 32 a0) (int_bytes 32 a1) (middle ++ int_bytes 32 tick)
        (length-int_bytes 32 a0) (length-int_bytes 32 a1) (omega arith)

  last_bytes : Fits 4 tick → slice_from 156 (swap_data a0 a1 middle tick) ≡ ok (int_bytes 4 tick)
  last_bytes h = ap (slice_from 156) regroup ∙ slice_end 156 front (int_bytes 4 tick) size
    where
      w : (high : List ℕ) × (length high ≡ 28) × (int_bytes 32 tick ≡ high ++ int_bytes 4 tick)
      w = tick_word tick h

      front : List ℕ
      front = int_bytes 32 a0 ++ (int_bytes 32 a1 ++ (middle ++ w.0))

      regroup : swap_data a0 a1 middle tick ≡ front ++ int_bytes 4 tick
      regroup = rw w.2 (simp append_assoc)

      size : length front ≡ 156
      size = omega (
        arith,
        length-append (int_bytes 32 a0) (int_bytes 32 a1 ++ (middle ++ w.0)),
        length-append (int_bytes 32 a1) (middle ++ w.0),
        length-append middle w.0,
        length-int_bytes 32 a0,
        length-int_bytes 32 a1,
        w.1,
      )

  length-swap_data : length (swap_data a0 a1 middle tick) ≡ 160
  length-swap_data = omega (
    arith,
    length-append (int_bytes 32 a0) (int_bytes 32 a1 ++ (middle ++ int_bytes 32 tick)),
    length-append (int_bytes 32 a1) (middle ++ int_bytes 32 tick),
    length-append middle (int_bytes 32 tick),
    length-int_bytes 32 a0,
    length-int_bytes 32 a1,
    length-int_bytes 32 tick,
  )

  swap_trade-swap_data :
      Fits 32 a0
      → Fits 32 a1
      → Fits 4 tick
      → swap_trade (swap_data a0 a1 middle tick)
        ≡ ok (record { amount0 = pos (neg_part a0); amount1 = pos (neg_part a1); tick = tick })
  unfolding swap_trade
  swap_trade-swap_data h0 h1 ht = rw (
    first_word,
    abs_bytes-int_bytes 31 a0 h0,
    second_word,
    abs_bytes-int_bytes 31 a1 h1,
    last_bytes ht,
    flag_bytes-int_bytes 3 tick ht,
    int64-Fits tick ht,
  )

-- A swap log of a registered pool, encoded by the ABI (two int256 amounts, 64 bytes, a tick of which
-- four bytes are enough), whose balances can be read, is sent with both balances, with the tick, and
-- with the amounts that left the pool: an amount that came in (not negative) counts as 0.
pub swap_decoded :
    (e : Ethereum) (t0 t1 : Token) (now : ℕ) (log : EventLog) (others : List (List ℕ)) (a0 a1 : ℤ)
    (middle : List ℕ) (tick r0 r1 : ℤ)
    → log.topics ≡ event_swap_v3 e ∷ others
    → log.payload ≡ swap_data a0 a1 middle tick
    → length middle ≡ 64
    → Fits 32 a0
    → Fits 32 a1
    → Fits 4 tick
    → t0 log.address ≡ value r0
    → t1 log.address ≡ value r1
    → deal_pool_v3_log e (some t0) (some t1) now log
      ≡ ok (
          sent (record {
            address = e.address_hex log.address;
            tx = e.hash_hex log.tx_hash;
            reserve0 = r0;
            reserve1 = r1;
            volume0 = pos (neg_part a0);
            volume1 = pos (neg_part a1);
            tick = tick;
            ts = now;
          })
          ∷ [])
unfolding deal_pool_v3_log
swap_decoded e t0 t1 now log others a0 a1 middle tick r0 r1 topic payload sized h0 h1 ht b0 b1 =
    rw (
      topic,
      (text_eq_iff (event_swap_v3 e) (event_swap_v3 e)).1 refl,
      payload,
      length-swap_data a0 a1 middle tick sized,
      swap_trade-swap_data a0 a1 middle tick sized h0 h1 ht,
      b0,
      b1,
    )
