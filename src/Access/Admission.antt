-- ===== src/Access/Admission.antt =====
-- Which requests `VerifySignature` of api/middleware/verify.go lets through.
use ibswap_api.Common.{
  ℕ, zero, suc, ◌==◌, ==_iff, ◌≢◌, ◌+◌, ◌-◌, ◌≤◌, ◌<◌, ◌≡◌, refl, sym, ap, ◌∙◌, ◌⊎◌, inl, inr, Bool,
  true, false, none, some, List, [], ◌∷◌, ltb, arith, length, set, get_elem?, Bool-cases,
  Option-cases,
}
use ibswap_api.Common.Int.{pos, ◌+ℤ◌, ltb_ℤ, ◌≤ℤ◌}
use ibswap_api.Common.Eq.{Text, text_eq, text_eq_iff, text_eq_instance}
use ibswap_api.Common.Dict.{Dict, lookup}
use ibswap_api.Common.Outcome.{ok, value, Result-cases}
use ibswap_api.Chain.Types.{int64}
use ibswap_api.Access.{
  Crypto, parse_int, Verdict, expired, sign_error, forbidden, passed, normalize, verify_eth_address,
  signed_message, is_admin, verify_signature,
}

-- The signature with its recovery id counted from 0.
abbrev pub Counted : List ℕ → List ℕ → Type 0
Counted s s' =
    ((get_elem? s 64 ≡ some 0) × (s' ≡ s))
    ⊎ ((get_elem? s 64 ≡ some 1) × (s' ≡ s))
    ⊎ ((v : ℕ) × (get_elem? s 64 ≡ some (v + 27)) × (s' ≡ set s 64 v))

-- A request that an administrator has signed.
pub record Signed (c : Crypto) (admins : Dict Text Bool) (now : ℕ) (sign ts address : Text)
    : Type 0 where
  pub fresh : pos now ≤ℤ int64 (parse_int ts +ℤ pos 600)
  pub signature : List ℕ
  pub key : List ℕ
  pub counted : Counted (c.from_hex sign) signature
  pub recovered : c.sig_to_pub (c.keccak256 (signed_message ts)) signature ≡ value key
  pub owner : c.pubkey_to_address key ≡ c.hex_to_address address
  pub admin : lookup (c.address_hex (c.hex_to_address address)) admins ≡ some true

present : (s : List ℕ) (i : ℕ) → i < length s → (v : ℕ) × (get_elem? s i ≡ some v)
present [] i h = absurd (omega arith)
present (x ∷ s) zero h = (x, refl)
present (x ∷ s) (suc i) h = present s i (omega arith)

normalize-cases :
    (s : List ℕ)
    → 65 ≤ length s
    → (normalize s ≡ ok none) ⊎ ((s' : List ℕ) × (normalize s ≡ ok (some s')) × Counted s s')
unfolding normalize
normalize-cases s h = let (v, e) = present s 64 (omega arith) in normalize_at s v e
  where
    normalize_at :
        (s : List ℕ) (v : ℕ)
        → get_elem? s 64 ≡ some v
        → (normalize s ≡ ok none) ⊎ ((s' : List ℕ) × (normalize s ≡ ok (some s')) × Counted s s')
    normalize_at s v e = elim (Bool-cases (ltb v 27)) [
      | inr high ↦
          rw (e, high)
            (inr (set s 64 (v - 27), refl, inr (inr (v - 27, ap some (ground arith), refl))))
      | inl low ↦ elim (Bool-cases (v == 0)) [
        | inl z ↦ rw (e, low, z) (inr (s, refl, inl (ap some ((==_iff v 0).0 z), refl)))
        | inr nz ↦ elim (Bool-cases (v == 1)) [
          | inl o ↦ rw (e, low, nz, o) (inr (s, refl, inr (inl (ap some ((==_iff v 1).0 o), refl))))
          | inr no_id ↦ rw (e, low, nz, no_id) (inl refl)
        ]
      ]
    ]

verify_eth_address-cases :
    (c : Crypto) (address signature hash : List ℕ)
    → (verify_eth_address c address signature hash ≡ ok false)
      ⊎ ((verify_eth_address c address signature hash ≡ ok true)
          × ((s' : List ℕ) × (key : List ℕ) × Counted signature s'
              × (c.sig_to_pub hash s' ≡ value key)
              × (c.pubkey_to_address key ≡ address)))
unfolding verify_eth_address
verify_eth_address-cases c address signature hash = elim (Bool-cases (ltb (length signature) 65)) [
  | inl short ↦ rw short (inl refl)
  | inr long ↦ elim (normalize-cases signature (ground arith)) [
    | inl e ↦ rw (long, e) (inl refl)
    | inr (s', e, counted) ↦ elim (Result-cases (c.sig_to_pub hash s')) [
      | inl (m, f) ↦ rw (long, e, f) (inl refl)
      | inr (key, f) ↦ elim (Bool-cases (text_eq address (c.pubkey_to_address key))) [
        | inr other ↦ rw (long, e, f, other) (inl refl)
        | inl same ↦
            rw (long, e, f, same)
              (inr (refl, (s', key, counted, f, sym ((text_eq_iff _ _).0 same))))
      ]
    ]
  ]
]

is_admin-lookup :
    (admins : Dict Text Bool) (a : Text) → is_admin admins a ≡ true → lookup a admins ≡ some true
unfolding is_admin
is_admin-lookup admins a h = elim (Option-cases (lookup a admins)) [
  | inl e ↦ absurd (no_bool (sym (rw (e, is_admin) refl) ∙ h))
  | inr (b, e) ↦ e ∙ ap some (sym (rw (e, is_admin) refl) ∙ h)
]
  where
    no_bool : false ≡ true → ⊥
    no_bool p = cc p

-- Whatever a request holds, `VerifySignature` answers it. It lets it through only when the time that
-- was signed is at most 600 seconds old (in int64 arithmetic), the signature, with its recovery id
-- counted from 0, recovers to a key of the address that is given, for the message with that time,
-- and the address is an administrator's; otherwise it gives another answer.
pub verify_signature-Signed :
    (c : Crypto) (admins : Dict Text Bool) (now : ℕ) (sign ts address : Text)
    → let r = verify_signature c admins now sign ts address in
      ((r ≡ ok passed) × Signed c admins now sign ts address)
      ⊎ ((v : Verdict) × (r ≡ ok v) × (v ≢ passed))
unfolding verify_signature
verify_signature-Signed c admins now sign ts address =
    elim (Bool-cases (ltb_ℤ (int64 (parse_int ts +ℤ pos 600)) (pos now))) [
      | inl old ↦ rw old (inr (expired, refl, λ p. cc p))
      | inr young ↦
          elim (verify_eth_address-cases c (c.hex_to_address address) (c.from_hex sign)
            (c.keccak256 (signed_message ts))) [
              | inl e ↦ rw (young, e) (inr (sign_error, refl, λ p. cc p))
              | inr (e, (s', key, counted, f, same)) ↦
                  elim (Bool-cases (is_admin admins (c.address_hex (c.hex_to_address address)))) [
                    | inr other ↦ rw (young, e, other) (inr (forbidden, refl, λ p. cc p))
                    | inl a ↦
                        rw (young, e, a)
                          (inl (
                            refl,
                            record {
                              fresh = ground arith;
                              signature = s';
                              key = key;
                              counted = counted;
                              recovered = f;
                              owner = same;
                              admin = is_admin-lookup admins _ a;
                            },
                          ))
                  ]
            ]
    ]
