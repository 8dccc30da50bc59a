-- ===== src/Chain/Signed.antt =====
-- `absBytes` and `flagBytes` against two's complement.
use native.Mathlib.Nat.{
  pow-suc, div-add-mod, mod-lt, mod-eq_of_lt, add-mul-mod_self_left, one-le-pow,
}
use ibswap_api.Common.{
  ℕ, zero, suc, ◌+◌, ◌-◌, ◌*◌, ◌/◌, ◌%◌, ◌^◌, ◌≤◌, ◌<◌, ◌≡◌, refl, sym, ap, ◌∙◌, inl, inr, some,
  List, [], ◌∷◌, map, arith, length, All,
}
use ibswap_api.Common.Int.{ℤ, pos, negsuc, neg_part}
use ibswap_api.Chain.Bytes.{
  IsByte, complement, set_bytes, abs_bytes, flag_bytes, value, value-complement, set_bytes-value,
  value_cons, high_bit_cases, signed, sign_of_high, sign_of_low,
}

-- `flagBytes` reads a slice of bytes of any length but 0 as the integer that it stands for in two's
-- complement, big-endian.
pub flag_bytes-signed :
    (b : ℕ) (d : List ℕ)
    → All IsByte (b ∷ d)
    → (flag_bytes (b ∷ d)).1 ≡ some (signed (length (b ∷ d)) (set_bytes (b ∷ d)))
unfolding flag_bytes
flag_bytes-signed b d h = elim (high_bit_cases b h.0) [
  | inl (e, big) ↦
      rw (e, set_bytes-value (b ∷ d), set_bytes-value (map complement (b ∷ d)))
        (ground (arith, sign_of_high b d h big, value-complement (b ∷ d) h))
  | inr (e, small) ↦ rw (e, set_bytes-value (b ∷ d)) (ground (arith, sign_of_low b d h small))
]

-- Of a slice of bytes of any length but 0, read in two's complement, `absBytes` gives the absolute
-- value if that is negative, and 0 if it is not.
pub abs_bytes-signed :
    (b : ℕ) (d : List ℕ)
    → All IsByte (b ∷ d)
    → (abs_bytes (b ∷ d)).1 ≡ some (pos (neg_part (signed (length (b ∷ d)) (set_bytes (b ∷ d)))))
unfolding abs_bytes
abs_bytes-signed b d h = elim (high_bit_cases b h.0) [
  | inl (e, big) ↦
      rw (e, set_bytes-value (b ∷ d), set_bytes-value (map complement (b ∷ d)))
        (ground (arith, sign_of_high b d h big, value-complement (b ∷ d) h))
  | inr (e, small) ↦ rw (e, set_bytes-value (b ∷ d)) (ground (arith, sign_of_low b d h small))
]

-- The low `n` bytes of a number, big-endian.
abbrev pub be_bytes : ℕ → ℕ → List ℕ
be_bytes zero v = []
be_bytes (suc n) v = (v / 256 ^ n % 256) ∷ be_bytes n v

pub length-be_bytes : (n v : ℕ) → length (be_bytes n v) ≡ n
length-be_bytes zero v = refl
length-be_bytes (suc n) v = ap suc (length-be_bytes n v)

pub be_bytes-IsByte : (n v : ℕ) → All IsByte (be_bytes n v)
be_bytes-IsByte zero v = tt
be_bytes-IsByte (suc n) v = (omega arith, be_bytes-IsByte n v)

mod_split : (w v : ℕ) → 0 < w → v / w % 256 * w + v % w ≡ v % (w * 256)
mod_split w v h = sym (
    ap (λ (t : ℕ). t % (w * 256)) whole
    ∙ add-mul-mod_self_left low (w * 256) top
    ∙ mod-eq_of_lt small)
  where
    top : ℕ
    top = v / w / 256

    low : ℕ
    low = v / w % 256 * w + v % w

    whole : v ≡ low + w * 256 * top
    whole = omega (arith, div-add-mod v w, ap (λ (t : ℕ). t * w) (div-add-mod (v / w) 256))

    small : low < w * 256
    small = value_cons (v / w % 256) w (v % w) (omega arith) (mod-lt v h)

pub value-be_bytes : (n v : ℕ) → value (be_bytes n v) ≡ v % 256 ^ n
value-be_bytes zero v = omega arith
value-be_bytes (suc n) v =
    rw (length-be_bytes n v, value-be_bytes n v, pow-suc 256 n)
      (mod_split (256 ^ n) v (omega (arith, one-le-pow n 256 (omega arith))))

-- The `n` bytes of an integer in two's complement, as the ABI encodes an `intN` word.
abbrev pub int_bytes : ℕ → ℤ → List ℕ
int_bytes n (pos k) = be_bytes n k
int_bytes n (negsuc k) = be_bytes n (256 ^ n - 1 - k)

-- An integer that `n` bytes can hold.
abbrev pub Fits : ℕ → ℤ → Type 0
Fits n (pos k) = 2 * k < 256 ^ n
Fits n (negsuc k) = 2 * k + 2 ≤ 256 ^ n

-- The unsigned word of an integer.
abbrev word : ℕ → ℤ → ℕ
word n (pos k) = k
word n (negsuc k) = 256 ^ n - 1 - k

int_bytes-word : (n : ℕ) (z : ℤ) → int_bytes n z ≡ be_bytes n (word n z)
int_bytes-word n (pos k) = refl
int_bytes-word n (negsuc k) = refl

signed-word : (n : ℕ) (z : ℤ) → Fits n z → signed n (word n z) ≡ z
signed-word n (pos k) h = ground arith
signed-word n (negsuc k) h = ground arith

word-lt : (n : ℕ) (z : ℤ) → Fits n z → word n z < 256 ^ n
word-lt n (pos k) h = omega arith
word-lt n (negsuc k) h = omega arith

signed-be_bytes :
    (n : ℕ) (z : ℤ)
    → Fits n z
    → signed (length (be_bytes n (word n z))) (set_bytes (be_bytes n (word n z))) ≡ z
signed-be_bytes n z h =
    rw
      (
        set_bytes-value (be_bytes n (word n z)),
        length-be_bytes n (word n z),
        value-be_bytes n (word n z),
        mod-eq_of_lt (word-lt n z h),
      )
      (signed-word n z h)

-- What is encoded in two's complement in `n + 1` bytes, big-endian, `flagBytes` decodes, if the
-- integer fits.
pub flag_bytes-int_bytes :
    (n : ℕ) (z : ℤ) → Fits (suc n) z → (flag_bytes (int_bytes (suc n) z)).1 ≡ some z
flag_bytes-int_bytes n z h = rw (int_bytes-word (suc n) z) (
    flag_bytes-signed _ (be_bytes n (word (suc n) z)) (be_bytes-IsByte (suc n) (word (suc n) z))
    ∙ ap some (signed-be_bytes (suc n) z h))

-- `absBytes` of such a word is the amount by which the integer lies below 0.
pub abs_bytes-int_bytes :
    (n : ℕ) (z : ℤ) → Fits (suc n) z → (abs_bytes (int_bytes (suc n) z)).1 ≡ some (pos (neg_part z))
abs_bytes-int_bytes n z h = rw (int_bytes-word (suc n) z) (
    abs_bytes-signed _ (be_bytes n (word (suc n) z)) (be_bytes-IsByte (suc n) (word (suc n) z))
    ∙ ap (λ (i : ℤ). some (pos (neg_part i))) (signed-be_bytes (suc n) z h))
