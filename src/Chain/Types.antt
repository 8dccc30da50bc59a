-- ===== src/Chain/Types.antt =====
-- The records and the event topics of service/evm.go, and the packages outside the repository that
-- it calls on (go-ethereum): keccak256, the checksummed spelling of addresses and hashes, and the
-- helpers that bring byte slices to a length.
use ibswap_api.Common.{
  ◌≡◌, ℕ, ◌+◌, ◌-◌, ◌%◌, ◌^◌, List, length, leb, ◌&&◌, take, drop, if◌then◌else◌, get_elem?,
}
use ibswap_api.Common.Int.{ℤ, pos, negsuc}
use ibswap_api.Common.Eq.{Text, codes}
use ibswap_api.Common.Outcome.{Outcome, ok, panic, deref, Result}
use ibswap_api.Chain.Bytes.{signed, left_padded, as_address}

-- go-ethereum's pure functions.
pub record Ethereum : Type 0 where
  pub keccak256 : List ℕ → List ℕ
  pub address_hex : List ℕ → Text
  pub hash_hex : List ℕ → Text
  pub left_pad_bytes : List ℕ → ℕ → List ℕ
  pub bytes_to_address : List ℕ → List ℕ

-- What go-ethereum documents of `LeftPadBytes` ("zero-pads slice to the left up to length l") and of
-- `BytesToAddress` (the address with the value of the bytes; longer ones are cropped from the left).
abbrev pub PadsLeft : Ethereum → Type 0
PadsLeft e = (d : List ℕ) (n : ℕ) → e.left_pad_bytes d n ≡ left_padded d n

abbrev pub CropsLeft : Ethereum → Type 0
CropsLeft e = (d : List ℕ) → e.bytes_to_address d ≡ as_address d

module _ (e : Ethereum) where
  unfoldable pub event_swap_v2 : List ℕ
  event_swap_v2 = e.keccak256 (codes "Swap(address,uint256,uint256,uint256,uint256,address)")

  unfoldable pub event_sync_v2 : List ℕ
  event_sync_v2 = e.keccak256 (codes "Sync(uint112,uint112)")

  unfoldable pub event_swap_v3 : List ℕ
  event_swap_v3 = e.keccak256 (codes "Swap(address,address,int256,int256,uint160,uint128,int24)")

-- `types.Log`
pub record EventLog : Type 0 where
  pub address : List ℕ
  pub topics : List (List ℕ)
  pub payload : List ℕ
  pub tx_hash : List ℕ

-- `service.PoolStat`
pub record PoolStat : Type 0 where
  pub address : Text
  pub tx : Text
  pub reserve0 : ℤ
  pub reserve1 : ℤ
  pub volume0 : ℤ
  pub volume1 : ℤ
  pub tick : ℤ
  pub ts : ℕ

-- `service.NftToken.direction`: 1, -1 and 0.
pub data Direction : Type 0 where
  mint burn transfer : Direction

-- `service.NftToken`
pub record NftToken : Type 0 where
  pub collection : Text
  pub token_id : Text
  pub user : Text
  pub pool : Text
  pub token0 : Text
  pub token1 : Text
  pub fee : ℤ
  pub direction : Direction

-- `service.Pool`
pub record Pool : Type 0 where
  pub contract : Text
  pub token0 : Text
  pub token1 : Text
  pub fee_rate : ℤ
  pub tick_spacing : ℤ

-- What the bound ERC20 contract answers to `BalanceOf`.
abbrev pub Token : Type 0
Token = List ℕ → Result Text ℤ

-- What the position manager answers to `Positions`, as far as it is read.
pub record Position : Type 0 where
  pub token0 : List ℕ
  pub token1 : List ℕ
  pub fee : ℕ

-- What a handler sends: a line to `chLog`, or a value to its other channel.
pub data Message : Type 0 where
  swap_data_error : List ℕ → Message
  balance0_error : Text → Message
  balance1_error : Text → Message
  positions_error : Text → Text → Message
  block_number_error : Text → Message
  filter_logs_error : Text → Message
  redial_error : Text → Message
  subscribe_error : Text → Message
  subscription_error : Text → Message

pub data Sent (S : Type 0) : Type 0 where
  logged : Message → Sent S
  sent : S → Sent S

-- `d[lo:hi]` and `d[i]`, which panic out of range. The capacity of a slice is taken for its length.
unfoldable pub slice : ℕ → ℕ → List ℕ → Outcome (List ℕ)
slice lo hi d = if leb lo hi && leb hi (length d) then ok (take (hi - lo) (drop lo d)) else panic

unfoldable pub slice_from : ℕ → List ℕ → Outcome (List ℕ)
slice_from lo d = if leb lo (length d) then ok (drop lo d) else panic

abbrev pub at {ℓ} : {A : Type ℓ} → List A → ℕ → Outcome A
at xs i = deref (get_elem? xs i)

-- `(*big.Int).Int64`: the low 64 bits of the absolute value, with the sign.
unfoldable pub int64 : ℤ → ℤ
int64 (pos k) = signed 8 (k % 2 ^ 64)
int64 (negsuc k) = signed 8 ((2 ^ 64 - (k + 1) % 2 ^ 64) % 2 ^ 64)
