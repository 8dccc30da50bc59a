-- ===== src/Chain/PoolAddress.antt =====
-- service/evm.go: `getPoolContract`, which main.go's `ComputerAddress` repeats.
pub mod Preimage
use native.Mathlib.Nat.{pow-suc, one-le-pow}
use ibswap_api.Common.{
  ℕ, zero, suc, ◌+◌, ◌-◌, ◌*◌, ◌/◌, ◌%◌, ◌^◌, ◌<◌, ◌≤◌, ◌≡◌, refl, sym, ap, ◌∙◌, inl, inr, true,
  false, List, [], ◌∷◌, ◌++◌, drop, length, length-append, length-replicate, replicate, arith, ◌==◌,
  leb, if◌then◌else◌, Bool-cases, All,
}
use ibswap_api.Common.Eq.{Text}
use ibswap_api.Common.Outcome.{Outcome, ok, ◌>>=◌}
use ibswap_api.Chain.Bytes.{value, value-lt, IsByte}
use ibswap_api.Chain.Types.{Ethereum, slice_from}

-- `(*big.Int).Bytes` of a number that is not negative: no leading zeros. Fuel above `n` is enough.
bytes_onto : ℕ → ℕ → List ℕ → List ℕ
bytes_onto zero n acc = acc
bytes_onto (suc fuel) n acc = elim (n == 0) [
  | true ↦ acc
  | false ↦ bytes_onto fuel (n / 256) ((n % 256) ∷ acc)
]

unfoldable pub nat_bytes : ℕ → List ℕ
unfolding bytes_onto
nat_bytes n = bytes_onto (n + 1) n []

-- `abi.encode(token0, token1, fee)`
unfoldable pub salt_input : Ethereum → List ℕ → List ℕ → ℕ → List ℕ
salt_input e t0 t1 fee =
    e.left_pad_bytes t0 32 ++ e.left_pad_bytes t1 32 ++ e.left_pad_bytes (nat_bytes fee) 32

-- The bytes that the pool's address is the hash of: 15 + 15<<4 is 0xff.
unfoldable pub create2_input : Ethereum → List ℕ → List ℕ → List ℕ → ℕ → List ℕ → List ℕ
unfolding salt_input
create2_input e t0 t1 factory fee init_code =
    (15 + 15 * 2 ^ 4) ∷ factory ++ e.keccak256 (salt_input e t0 t1 fee) ++ init_code

-- `getPoolContract`
unfoldable pub get_pool_contract : Ethereum → List ℕ → List ℕ → List ℕ → ℕ → List ℕ → Outcome Text
unfolding create2_input
get_pool_contract e t0 t1 factory fee init_code = do
  low ← slice_from 12 (e.keccak256 (create2_input e t0 t1 factory fee init_code))
  ok (e.address_hex (e.bytes_to_address low))
