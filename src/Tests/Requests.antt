-- ===== src/Tests/Requests.antt =====
-- The signatures of api/middleware/verify.go on a concrete request.
use ibswap_api.Common.{◌≡◌, ◌≢◌, ◌⊎◌, Bool, [], ◌∷◌, ◌++◌, replicate, length}
use ibswap_api.Common.Eq.{Text, codes, text_eq_instance}
use ibswap_api.Common.Dict.{Dict}
use ibswap_api.Common.Outcome.{ok, value}
use ibswap_api.Access.{Crypto, Verdict, passed, add_admins, verify_signature}
use ibswap_api.Access.Admission.{Signed, verify_signature-Signed}

-- Every signature is by the key 9, whose address is 9.
abbrev toy_crypto : Crypto
toy_crypto = record {
  hex_to_address = λ t. t;
  address_hex = λ a. a;
  from_hex = λ t. t;
  keccak256 = λ d. replicate 32 (length d);
  sig_to_pub = λ h s. value (9 ∷ []);
  pubkey_to_address = λ k. k;
}

abbrev admins : Dict Text Bool
admins = add_admins ((9 ∷ []) ∷ []) []

verify_signature-Signed_example :
    let r =
      verify_signature toy_crypto admins 1000 (replicate 64 1 ++ 28 ∷ []) (codes "900") (9 ∷ []) in
    ((r ≡ ok passed)
      × Signed toy_crypto admins 1000 (replicate 64 1 ++ 28 ∷ []) (codes "900") (9 ∷ []))
    ⊎ ((v : Verdict) × (r ≡ ok v) × (v ≢ passed))
verify_signature-Signed_example =
    verify_signature-Signed toy_crypto admins 1000 (replicate 64 1 ++ 28 ∷ []) (codes "900")
      (9 ∷ [])
