-- ===== src/Chain/PoolAddress/Preimage.antt =====
-- What is hashed for a pool's address (`getPoolContract` of service/evm.go).
use native.Mathlib.Nat.{pow-suc}
use ibswap_api.Common.{
  ℕ, zero, suc, ◌+◌, ◌-◌, ◌*◌, ◌/◌, ◌%◌, ◌^◌, ◌<◌, ◌≤◌, ◌≡◌, refl, sym, ap, ◌∙◌, inl, inr, List, [],
  ◌∷◌, ◌++◌, length, length-append, length-replicate, replicate, arith, ◌==◌, leb, Bool-cases,
}
use ibswap_api.Chain.Bytes.{left_padded, value}
use ibswap_api.Chain.PoolAddress.{bytes_onto, nat_bytes, salt_input, create2_input}
use ibswap_api.Chain.Types.{PadsLeft, Ethereum}

bytes_onto_more :
    (fuel n : ℕ) (acc : List ℕ)
    → 0 < n
    → bytes_onto (suc fuel) n acc ≡ bytes_onto fuel (n / 256) ((n % 256) ∷ acc)
unfolding bytes_onto
bytes_onto_more fuel n acc h = ground arith

bytes_onto_done : (fuel n : ℕ) (acc : List ℕ) → n ≡ 0 → bytes_onto (suc fuel) n acc ≡ acc
unfolding bytes_onto
bytes_onto_done fuel n acc h = ground arith

-- With `w` the weight of a digit.
digit_weight : (n w v : ℕ) → n / 256 * (w * 256) + (n % 256 * w + v) ≡ n * w + v
digit_weight n w v = omega (arith, ap (λ (t : ℕ). t * w) whole)
  where
    whole : n ≡ n / 256 * 256 + n % 256
    whole = omega arith

value-bytes_onto :
    (fuel n : ℕ) (acc : List ℕ)
    → n < fuel
    → value (bytes_onto fuel n acc) ≡ n * 256 ^ length acc + value acc
value-bytes_onto zero n acc h = elim h [ ]
value-bytes_onto (suc fuel) n acc h = elim (Bool-cases (n == 0)) [
  | inl e ↦
      let nil : n ≡ 0 = ground arith in
      rw (bytes_onto_done fuel n acc nil) (omega (arith, ap (λ (t : ℕ). t * 256 ^ length acc) nil))
  | inr e ↦ rw (bytes_onto_more fuel n acc (ground arith)) (
      value-bytes_onto fuel (n / 256) ((n % 256) ∷ acc) (ground arith)
      ∙ rw (pow-suc 256 (length acc)) (digit_weight n (256 ^ length acc) (value acc)))
]

-- `SetBytes` reads back what `Bytes` writes.
pub value-nat_bytes : (n : ℕ) → value (nat_bytes n) ≡ n
unfolding nat_bytes
value-nat_bytes n = omega (arith, value-bytes_onto (n + 1) n [] (omega arith))

div_weight : (n w : ℕ) → n < w * 256 → n / 256 < w
div_weight n w h = omega arith

length-bytes_onto-le :
    (fuel n k : ℕ) (acc : List ℕ) → n < 256 ^ k → length (bytes_onto fuel n acc) ≤ k + length acc
unfolding bytes_onto
length-bytes_onto-le zero n k acc h = omega arith
length-bytes_onto-le (suc fuel) n zero acc h =
    rw (bytes_onto_done fuel n acc (omega arith)) (omega arith)
length-bytes_onto-le (suc fuel) n (suc k) acc h = elim (Bool-cases (n == 0)) [
  | inl e ↦ rw (bytes_onto_done fuel n acc (ground arith)) (omega arith)
  | inr e ↦ rw (bytes_onto_more fuel n acc (ground arith)) (
      omega (
        arith,
        length-bytes_onto-le fuel (n / 256) k ((n % 256) ∷ acc)
            (div_weight n (256 ^ k) (rw (pow-suc 256 k) at h)),
      ))
]

length-nat_bytes-le : (n : ℕ) → n < 256 ^ 32 → length (nat_bytes n) ≤ 32
unfolding nat_bytes
length-nat_bytes-le n h = omega (arith, length-bytes_onto-le (n + 1) n 32 [] h)

length-left_padded : (d : List ℕ) (n : ℕ) → length d ≤ n → length (left_padded d n) ≡ n
unfolding left_padded
length-left_padded d n h = elim (Bool-cases (leb n (length d))) [
  | inl e ↦ rw e (ground arith)
  | inr e ↦ rw e (
      omega (
        arith,
        length-append (replicate (n - length d) 0) d,
        length-replicate {A = ℕ} (n - length d) 0,
      ))
]

value_zeros : (n : ℕ) (d : List ℕ) → value (replicate n 0 ++ d) ≡ value d
value_zeros zero d = refl
value_zeros (suc n) d = omega (arith, value_zeros n d)

value-left_padded : (d : List ℕ) (n : ℕ) → value (left_padded d n) ≡ value d
unfolding left_padded
value-left_padded d n = elim (Bool-cases (leb n (length d))) [
  | inl e ↦ rw e refl
  | inr e ↦ rw e (value_zeros (n - length d) d)
]

append-injective {ℓ} :
    {A : Type ℓ} (xs xs' : List A) (ys ys' : List A)
    → length xs ≡ length xs'
    → xs ++ ys ≡ xs' ++ ys'
    → (xs ≡ xs') × (ys ≡ ys')
append-injective [] [] ys ys' h e = (refl, e)
append-injective [] (x ∷ xs') ys ys' h e = absurd (omega arith)
append-injective (x ∷ xs) [] ys ys' h e = absurd (omega arith)
append-injective (x ∷ xs) (x' ∷ xs') ys ys' h e =
    joined (append-injective xs xs' ys ys' (omega arith) (cc))
  where
    joined : (xs ≡ xs') × (ys ≡ ys') → (x ∷ xs ≡ x' ∷ xs') × (ys ≡ ys')
    joined p = (cc p.0, p.1)

zeros-injective : (n : ℕ) (d d' : List ℕ) → replicate n 0 ++ d ≡ replicate n 0 ++ d' → d ≡ d'
zeros-injective n d d' e = (append-injective (replicate n 0) (replicate n 0) d d' refl e).1

left_pad_address : (d : List ℕ) → length d ≡ 20 → left_padded d 32 ≡ replicate 12 0 ++ d
unfolding left_padded
left_pad_address d h = elim (Bool-cases (leb 32 (length d))) [
  | inl e ↦ absurd (ground arith)
  | inr e ↦ rw e (ap (λ (n : ℕ). replicate (32 - n) 0 ++ d) h)
]

address_words :
    (d d' : List ℕ) → length d ≡ 20 → length d' ≡ 20 → left_padded d 32 ≡ left_padded d' 32 → d ≡ d'
address_words d d' h h' e =
    zeros-injective 12 d d' (sym (left_pad_address d h) ∙ e ∙ left_pad_address d' h')

fee_words :
    (fee fee' : ℕ) → left_padded (nat_bytes fee) 32 ≡ left_padded (nat_bytes fee') 32 → fee ≡ fee'
fee_words fee fee' e = omega (
  arith,
  ap value e,
  value-left_padded (nat_bytes fee) 32,
  value-left_padded (nat_bytes fee') 32,
  value-nat_bytes fee,
  value-nat_bytes fee',
)

length_word : (d : List ℕ) → length d ≡ 20 → length (left_padded d 32) ≡ 32
length_word d h = length-left_padded d 32 (omega arith)

salt_input-left_padded :
    (e : Ethereum) (t0 t1 : List ℕ) (fee : ℕ)
    → PadsLeft e
    → salt_input e t0 t1 fee
      ≡ left_padded t0 32 ++ left_padded t1 32 ++ left_padded (nat_bytes fee) 32
unfolding salt_input
salt_input-left_padded e t0 t1 fee pads = rw (pads t0 32, pads t1 32, pads (nat_bytes fee) 32) refl

-- Two pools, with 20-byte token addresses, whose salts are hashed from the same bytes have the same
-- tokens, in the same order, and the same fee. `LeftPadBytes` is taken to pad with zeros on the left.
pub salt_input-injective :
    (e : Ethereum) (t0 t1 : List ℕ) (fee : ℕ) (u0 u1 : List ℕ) (fee' : ℕ)
    → PadsLeft e
    → length t0 ≡ 20
    → length t1 ≡ 20
    → length u0 ≡ 20
    → length u1 ≡ 20
    → salt_input e t0 t1 fee ≡ salt_input e u0 u1 fee'
    → (t0 ≡ u0) × (t1 ≡ u1) × (fee ≡ fee')
salt_input-injective e t0 t1 fee u0 u1 fee' pads ht0 ht1 hu0 hu1 same = (
  address_words t0 u0 ht0 hu0 tokens.0,
  address_words t1 u1 ht1 hu1 tokens.1,
  fee_words fee fee' outer.1,
)
  where
    W : List ℕ → List ℕ
    W d = left_padded d 32

    size : length (W t0 ++ W t1) ≡ length (W u0 ++ W u1)
    size = omega (
      arith,
      length-append (W t0) (W t1),
      length-append (W u0) (W u1),
      length_word t0 ht0,
      length_word t1 ht1,
      length_word u0 hu0,
      length_word u1 hu1,
    )

    outer : (W t0 ++ W t1 ≡ W u0 ++ W u1) × (W (nat_bytes fee) ≡ W (nat_bytes fee'))
    outer = append-injective (W t0 ++ W t1) (W u0 ++ W u1) _ _ size (
        sym (salt_input-left_padded e t0 t1 fee pads)
        ∙ same
        ∙ salt_input-left_padded e u0 u1 fee' pads)

    tokens : (W t0 ≡ W u0) × (W t1 ≡ W u1)
    tokens =
        append-injective (W t0) (W u0) _ _ (omega (arith, length_word t0 ht0, length_word u0 hu0))
          outer.0

-- The pool's address is the hash of 85 bytes, of which the salt is the hash of 96: the widths that
-- the factory's CREATE2 uses. The addresses are 20 bytes, the fee has 24 bits, and the salt and the
-- hash of the pool's code are taken to be 32 bytes, and `LeftPadBytes` to pad with zeros on the left.
pub create2_input_widths :
    (e : Ethereum) (t0 t1 factory : List ℕ) (fee : ℕ) (init_code : List ℕ)
    → PadsLeft e
    → length t0 ≡ 20
    → length t1 ≡ 20
    → length factory ≡ 20
    → fee < 2 ^ 24
    → length init_code ≡ 32
    → length (e.keccak256 (salt_input e t0 t1 fee)) ≡ 32
    → (length (salt_input e t0 t1 fee) ≡ 96)
      × (length (create2_input e t0 t1 factory fee init_code) ≡ 85)
unfolding create2_input
create2_input_widths e t0 t1 factory fee init_code pads h0 h1 hf small hi hk = (
  ap (λ (d : List ℕ). length d) (salt_input-left_padded e t0 t1 fee pads) ∙ salt,
  omega (
    arith,
    length-append (factory ++ e.keccak256 (salt_input e t0 t1 fee)) init_code,
    length-append factory (e.keccak256 (salt_input e t0 t1 fee)),
  ),
)
  where
    W : List ℕ → List ℕ
    W d = left_padded d 32

    salt : length (W t0 ++ W t1 ++ W (nat_bytes fee)) ≡ 96
    salt = omega (
      arith,
      length-append (W t0 ++ W t1) (W (nat_bytes fee)),
      length-append (W t0) (W t1),
      length_word t0 h0,
      length_word t1 h1,
      length-left_padded (nat_bytes fee) 32 (length-nat_bytes-le fee (omega arith)),
    )
