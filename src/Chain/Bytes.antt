-- ===== src/Chain/Bytes.antt =====
-- service/evm.go: `absBytes` and `flagBytes`; and what they and the handlers use of the standard
-- library on byte slices.
use Prim.Native.Nat.{bit_and}
use native.Mathlib.Nat.{pow-suc}
use ibswap_api.Common.{
  ℕ, suc, ◌+◌, ◌-◌, ◌*◌, ◌^◌, ◌≤◌, ◌<◌, ◌≡◌, refl, ap, ◌∙◌, ◌⊎◌, inl, inr, Bool, true, false,
  Option, none, some, List, [], ◌∷◌, ◌++◌, map, arith, ltb, leb, if◌then◌else◌, length, All, drop,
  replicate, Bool-cases, every_below, every_below-lookup,
}
use ibswap_api.Common.Int.{ℤ, pos, negsuc}

-- A byte.
abbrev pub IsByte : ℕ → Type 0
IsByte b = b < 256

-- `new(big.Int).SetBytes`: big-endian.
abbrev set_from : ℕ → List ℕ → ℕ
set_from acc [] = acc
set_from acc (b ∷ bs) = set_from (acc * 256 + b) bs

unfoldable pub set_bytes : List ℕ → ℕ
set_bytes d = set_from 0 d

-- `^b` on a byte.
abbrev pub complement : ℕ → ℕ
complement b = 255 - b

-- `d[0]&0x80 > 0`
unfoldable pub high_bit : ℕ → Bool
high_bit b = ltb 0 (bit_and b 0x80)

-- The number that `SetBytes` reads from the complemented bytes, plus 1.
abbrev negated : List ℕ → ℕ
negated d = set_bytes (map complement d) + 1

-- `absBytes`: what the slice holds afterwards, and the result, where `none` is `nil`. The bytes of a
-- negative number are complemented in place.
unfoldable pub abs_bytes : List ℕ → List ℕ × Option ℤ
abs_bytes [] = ([], none)
abs_bytes (b ∷ d) =
    if high_bit b
    then (map complement (b ∷ d), some (pos (negated (b ∷ d))))
    else (b ∷ d, some (pos 0))

-- `flagBytes`, likewise.
unfoldable pub flag_bytes : List ℕ → List ℕ × Option ℤ
flag_bytes [] = ([], none)
flag_bytes (b ∷ d) =
    if high_bit b
    then (map complement (b ∷ d), some (negsuc (set_bytes (map complement (b ∷ d)))))
    else (b ∷ d, some (pos (set_bytes (b ∷ d))))

-- Padded with zeros on the left up to a length.
unfoldable pub left_padded : List ℕ → ℕ → List ℕ
left_padded d n = if leb n (length d) then d else replicate (n - length d) 0 ++ d

-- The last 20 bytes, or as many with zeros before them.
unfoldable pub as_address : List ℕ → List ℕ
unfolding left_padded
as_address d = if ltb 20 (length d) then drop (length d - 20) d else left_padded d 20

-- The big-endian value by recursion from the left.
abbrev pub value : List ℕ → ℕ
value [] = 0
value (b ∷ bs) = b * 256 ^ length bs + value bs

pub value_cons : (b w v : ℕ) → b < 256 → v < w → b * w + v < w * 256
value_cons b w v h k = grind arith

value_regroup : (acc b w v : ℕ) → (acc * 256 + b) * w + v ≡ acc * (w * 256) + (b * w + v)
value_regroup acc b w v = omega arith

value_pair : (b w u v : ℕ) → b < 256 → u + v + 1 ≡ w → (255 - b) * w + u + (b * w + v) + 1 ≡ w * 256
value_pair b w u v h k = omega (arith, ap (λ (t : ℕ). t * w) whole)
  where
    whole : (255 - b) + b ≡ 255
    whole = omega arith

set_from-value : (acc : ℕ) (d : List ℕ) → set_from acc d ≡ acc * 256 ^ length d + value d
set_from-value acc [] = omega arith
set_from-value acc (b ∷ d) =
    set_from-value (acc * 256 + b) d
    ∙ rw (pow-suc 256 (length d)) (value_regroup acc b (256 ^ length d) (value d))

pub set_bytes-value : (d : List ℕ) → set_bytes d ≡ value d
unfolding set_bytes
set_bytes-value d = omega (arith, set_from-value 0 d)

pub value-lt : (d : List ℕ) → All IsByte d → value d < 256 ^ length d
value-lt [] h = omega arith
value-lt (b ∷ d) h =
    rw (pow-suc 256 (length d)) (value_cons b (256 ^ length d) (value d) h.0 (value-lt d h.1))

pub length-complement : (d : List ℕ) → length (map complement d) ≡ length d
length-complement [] = refl
length-complement (b ∷ d) = ap suc (length-complement d)

-- Complementing every byte gives what is missing to the top of the range.
pub value-complement :
    (d : List ℕ) → All IsByte d → value (map complement d) + value d + 1 ≡ 256 ^ length d
value-complement [] h = refl
value-complement (b ∷ d) h =
    rw (length-complement d, pow-suc 256 (length d))
      (value_pair b (256 ^ length d) (value (map complement d)) (value d) h.0
        (value-complement d h.1))

high_bit_table : every_below 256 (λ b. if high_bit b then leb 128 b else ltb b 128) ≡ true
unfolding every_below high_bit
high_bit_table = refl

-- The top bit of a byte is set from 128 on.
pub high_bit_cases :
    (b : ℕ) → b < 256 → ((high_bit b ≡ true) × (128 ≤ b)) ⊎ ((high_bit b ≡ false) × (b < 128))
high_bit_cases b h = elim (Bool-cases (high_bit b)) [
  | inl e ↦ inl (e, ground (arith, fact))
  | inr e ↦ inr (e, ground (arith, fact))
]
  where
    fact : (if high_bit b then leb 128 b else ltb b 128) ≡ true
    fact =
        every_below-lookup 256 (λ x. if high_bit x then leb 128 x else ltb x 128) b high_bit_table h

-- Two's complement: what `n` bytes with the unsigned value `v` stand for.
abbrev pub signed : ℕ → ℕ → ℤ
signed n v = if ltb (2 * v) (256 ^ n) then pos v else negsuc (256 ^ n - v - 1)

sign_high : (b w v : ℕ) → 128 ≤ b → w * 256 ≤ 2 * (b * w + v)
sign_high b w v h = grind arith

sign_low : (b w v : ℕ) → b < 128 → v < w → 2 * (b * w + v) < w * 256
sign_low b w v h k = grind arith

module _ (b : ℕ) (d : List ℕ) (bytes : All IsByte (b ∷ d)) where
  pub sign_of_high : 128 ≤ b → 256 ^ length (b ∷ d) ≤ 2 * value (b ∷ d)
  sign_of_high h = rw (pow-suc 256 (length d)) (sign_high b (256 ^ length d) (value d) h)

  pub sign_of_low : b < 128 → 2 * value (b ∷ d) < 256 ^ length (b ∷ d)
  sign_of_low h =
      rw (pow-suc 256 (length d)) (sign_low b (256 ^ length d) (value d) h (value-lt d bytes.1))
