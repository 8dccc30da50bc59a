-- ===== src/Access.antt =====
-- api/middleware/verify.go: who may call the handlers of the administrators. go-ethereum's functions
-- are parameters, and the clock is an argument.
pub mod Admission
use ibswap_api.Common.{
  ℕ, ◌+◌, ◌-◌, ◌^◌, Bool, true, false, Option, none, some, List, [], ◌∷◌, ◌++◌, ◌==◌, ◌||◌, ltb,
  leb, if◌then◌else◌, length, set,
}
use ibswap_api.Common.Int.{ℤ, pos, negsuc, ◌+ℤ◌, ltb_ℤ}
use ibswap_api.Common.Eq.{Text, codes, text_eq, text_eq_instance}
use ibswap_api.Common.Dict.{Dict, lookup, insert}
use ibswap_api.Common.Decimal.{nat_string, set_string}
use ibswap_api.Common.Outcome.{Outcome, ok, panic, ◌>>=◌, Result, value, error}
use ibswap_api.Chain.Types.{at, int64}

pub record Crypto : Type 0 where
  pub hex_to_address : Text → List ℕ
  pub address_hex : List ℕ → Text
  pub from_hex : Text → List ℕ
  pub keccak256 : List ℕ → List ℕ
  pub sig_to_pub : List ℕ → List ℕ → Result Text (List ℕ)
  pub pubkey_to_address : List ℕ → List ℕ

-- The value that `strconv.ParseInt(s, 10, 64)` gives next to its error: 0 for what is no number, and
-- the nearest bound for what does not fit.
unfoldable pub parse_int : Text → ℤ
parse_int s = elim (set_string s) [
  | none ↦ pos 0
  | some (pos n) ↦ if ltb n (2 ^ 63) then pos n else pos (2 ^ 63 - 1)
  | some (negsuc n) ↦ if ltb n (2 ^ 63) then negsuc n else negsuc (2 ^ 63 - 1)
]

pub data Verdict : Type 0 where
  expired sign_error forbidden passed : Verdict

-- `AddAdmins`
unfoldable pub add_admins : List Text → Dict Text Bool → Dict Text Bool
add_admins [] admins = admins
add_admins (a ∷ rest) admins = add_admins rest (insert a true admins)

-- The recovery id, from 27 or from 0 on.
unfoldable pub normalize : List ℕ → Outcome (Option (List ℕ))
normalize signature = do
  v ← at signature 64
  if ltb v 27
      then (if v == 0 || v == 1 then ok (some signature) else ok none)
      else ok (some (set signature 64 (v - 27)))

-- What the signature is of.
unfoldable pub signed_message : Text → List ℕ
signed_message ts = (25 ∷ codes "Ethereum Signed Message:") ++ 10 ∷ (nat_string (length ts) ++ ts)

-- A missing entry of the map reads as `false`.
unfoldable pub is_admin : Dict Text Bool → Text → Bool
is_admin admins a = elim (lookup a admins) [ none ↦ false | some b ↦ b ]

module _ (c : Crypto) where
  -- `verifyEthAddress`; `true` stands for no error.
  unfoldable pub verify_eth_address : List ℕ → List ℕ → List ℕ → Outcome Bool
  unfolding normalize
  verify_eth_address address signature hash = if ltb (length signature) 65 then ok false else do
    s ← normalize signature
    elim s [
      | none ↦ ok false
      | some s' ↦ elim (c.sig_to_pub hash s') [
        | error m ↦ ok false
        | value key ↦ ok (text_eq address (c.pubkey_to_address key))
      ]
    ]

  -- `VerifySignature`, up to the answer that it writes.
  unfoldable pub verify_signature : Dict Text Bool → ℕ → Text → Text → Text → Outcome Verdict
  unfolding verify_eth_address signed_message is_admin
  verify_signature admins now sign ts address_text =
      let address = c.hex_to_address address_text in
      if ltb_ℤ (int64 (parse_int ts +ℤ pos 600)) (pos now) then ok expired else do
        fine ← verify_eth_address address (c.from_hex sign) (c.keccak256 (signed_message ts))
        if fine
            then (if is_admin admins (c.address_hex address) then ok passed else ok forbidden)
            else ok sign_error
