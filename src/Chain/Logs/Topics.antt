-- ===== src/Chain/Logs/Topics.antt =====
-- `dealNFTLog` and `dealFactoryLog` of service/evm.go on the logs that their contracts emit.
use native.Mathlib.Nat.{mod-eq_of_lt}
use ibswap_api.Common.{
  ℕ, ◌^◌, ◌<◌, ◌≡◌, ◌≢◌, refl, ◌∙◌, inl, inr, false, List, [], ◌∷◌, ◌++◌, arith, le→leb, length,
  drop, replicate, Bool-cases,
}
use ibswap_api.Common.Int.{ℤ, pos}
use ibswap_api.Common.Eq.{Text, text_eq, text_eq_iff}
use ibswap_api.Common.Decimal.{int_string}
use ibswap_api.Common.Outcome.{ok, Result, value}
use ibswap_api.Chain.Bytes.{set_bytes, set_bytes-value, as_address}
use ibswap_api.Chain.Signed.{be_bytes, length-be_bytes, value-be_bytes}
use ibswap_api.Chain.Slices.{slice_middle, slice_end}
use ibswap_api.Chain.PoolAddress.{create2_input, get_pool_contract}
use ibswap_api.Chain.Types.{
  CropsLeft, Ethereum, EventLog, Direction, mint, burn, transfer, Position, sent, slice, slice_from,
  int64,
}
use ibswap_api.Chain.Logs.{zero_address, movement, deal_nft_log, deal_factory_log}

-- An address as a 32-byte word.
abbrev pub address_word : List ℕ → List ℕ
address_word a = replicate 12 0 ++ a

-- `common.BytesToAddress` takes the address out of its word.
bytes_to_address-address_word :
    (e : Ethereum) (a : List ℕ)
    → CropsLeft e
    → length a ≡ 20
    → e.bytes_to_address (address_word a) ≡ a
unfolding as_address
bytes_to_address-address_word e a crops h = rw (crops (address_word a), h)

set_bytes-be_bytes : (v : ℕ) → v < 2 ^ 256 → set_bytes (be_bytes 32 v) ≡ v
set_bytes-be_bytes v h =
    set_bytes-value (be_bytes 32 v) ∙ value-be_bytes 32 v ∙ mod-eq_of_lt (omega arith)

int64-pos : (v : ℕ) → v < 2 ^ 63 → int64 (pos v) ≡ pos v
unfolding int64
int64-pos v h = ground arith

-- With 32-byte hashes the last 20 bytes can be cut off.
get_pool_contract-ok :
    (e : Ethereum) (t0 t1 factory : List ℕ) (fee : ℕ) (init_code : List ℕ)
    → ((d : List ℕ) → length (e.keccak256 d) ≡ 32)
    → (pool : Text) × (get_pool_contract e t0 t1 factory fee init_code ≡ ok pool)
get_pool_contract-ok e t0 t1 factory fee init_code hash =
    (e.address_hex (e.bytes_to_address (drop 12 h)), unfold get_pool_contract in rw low refl)
  where
    h : List ℕ
    h = e.keccak256 (create2_input e t0 t1 factory fee init_code)

    low : slice_from 12 h ≡ ok (drop 12 h)
    low =
        unfold slice_from in
        rw
          (le→leb 12 (length h) (omega (arith, hash (create2_input e t0 t1 factory fee init_code))))

-- A `PoolCreated` log, encoded by the ABI from 20-byte addresses, a 24-bit fee and a spacing below
-- 2^23, gives back what was emitted: both tokens, the fee, the spacing and the pool. `BytesToAddress`
-- is taken to crop from the left.
pub factory_decoded :
    (e : Ethereum) (log : EventLog) (event t0 t1 pool : List ℕ) (fee spacing : ℕ)
    → CropsLeft e
    → log.topics ≡ event ∷ address_word t0 ∷ address_word t1 ∷ be_bytes 32 fee ∷ []
    → log.payload ≡ be_bytes 32 spacing ++ address_word pool
    → length t0 ≡ 20
    → length t1 ≡ 20
    → length pool ≡ 20
    → fee < 2 ^ 24
    → spacing < 2 ^ 23
    → deal_factory_log e log
      ≡ ok (
          sent (record {
            contract = e.address_hex pool;
            token0 = e.address_hex t0;
            token1 = e.address_hex t1;
            fee_rate = pos fee;
            tick_spacing = pos spacing;
          })
          ∷ [])
unfolding deal_factory_log
factory_decoded e log event t0 t1 pool fee spacing crops topic payload h0 h1 hp hf hs = rw (
  topic,
  payload,
  first,
  slice_end 32 (be_bytes 32 spacing) (address_word pool) (length-be_bytes 32 spacing),
  bytes_to_address-address_word e t0 crops h0,
  bytes_to_address-address_word e t1 crops h1,
  bytes_to_address-address_word e pool crops hp,
  set_bytes-be_bytes fee (omega arith),
  set_bytes-be_bytes spacing (omega arith),
  int64-pos fee (omega arith),
  int64-pos spacing (omega arith),
)
  where
    first : slice 0 32 (be_bytes 32 spacing ++ address_word pool) ≡ ok (be_bytes 32 spacing)
    first =
        slice_middle 0 32 [] (be_bytes 32 spacing) (address_word pool) refl
          (length-be_bytes 32 spacing) (omega arith)

-- A transfer out of the zero address is a mint, one into it a burn; `owner` is the other side, or
-- for a transfer between two users the receiver.
pub data Moves (from to : List ℕ) : Direction → List ℕ → Type 0 where
  minted : from ≡ zero_address → Moves from to mint to
  burnt : from ≢ zero_address → to ≡ zero_address → Moves from to burn from
  passed : from ≢ zero_address → to ≢ zero_address → Moves from to transfer to

differs : (xs ys : List ℕ) → text_eq xs ys ≡ false → xs ≢ ys
differs xs ys o p = cc ((text_eq_iff xs ys).1 p)

movement-Moves : (from to : List ℕ) → Moves from to (movement from to).0 (movement from to).1
unfolding movement
movement-Moves from to = elim (Bool-cases (text_eq from zero_address)) [
  | inl m ↦ rw m (minted ((text_eq_iff from zero_address).0 m))
  | inr o ↦ elim (Bool-cases (text_eq to zero_address)) [
    | inl b ↦ rw (o, b) (burnt (differs _ _ o) ((text_eq_iff to zero_address).0 b))
    | inr q ↦ rw (o, q) (passed (differs _ _ o) (differs _ _ q))
  ]
]

-- A transfer of a position NFT that the manager knows is sent with the direction and the owner that
-- its two addresses determine, and with the pool that `getPoolContract` computes. The addresses are
-- 20 bytes, the id has 256 bits and the fee 24, a hash is taken to be 32 bytes
-- long, and `BytesToAddress` to crop from the left.
pub nft_decoded :
    (e : Ethereum) (factory init_code : List ℕ) (positions : ℤ → Result Text Position)
    (log : EventLog) (event from to : List ℕ) (id : ℕ) (p : Position)
    → CropsLeft e
    → log.topics ≡ event ∷ address_word from ∷ address_word to ∷ be_bytes 32 id ∷ []
    → length from ≡ 20
    → length to ≡ 20
    → id < 2 ^ 256
    → p.fee < 2 ^ 24
    → ((d : List ℕ) → length (e.keccak256 d) ≡ 32)
    → positions (pos id) ≡ value p
    → (way : Direction) × (owner : List ℕ) × (pool : Text) × Moves from to way owner
      × (get_pool_contract e p.token0 p.token1 factory p.fee init_code ≡ ok pool)
      × (deal_nft_log e factory init_code positions log
          ≡ ok (
              sent (record {
                collection = e.address_hex log.address;
                token_id = int_string (pos id);
                user = e.address_hex owner;
                pool = pool;
                token0 = e.address_hex p.token0;
                token1 = e.address_hex p.token1;
                fee = pos p.fee;
                direction = way;
              })
              ∷ []))
unfolding deal_nft_log
nft_decoded e factory init_code positions log event from to id p crops topic hf ht small fee hash
      known =
    (
      _,
      _,
      named.0,
      movement-Moves from to,
      named.1,
      rw (
        topic,
        bytes_to_address-address_word e from crops hf,
        bytes_to_address-address_word e to crops ht,
        set_bytes-be_bytes id small,
        known,
        named.1,
        int64-pos p.fee (omega arith),
      ),
    )
  where
    named :
        (pool : Text) × (get_pool_contract e p.token0 p.token1 factory p.fee init_code ≡ ok pool)
    named = get_pool_contract-ok e p.token0 p.token1 factory p.fee init_code hash
