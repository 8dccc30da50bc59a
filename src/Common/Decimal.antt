-- ===== src/Common/Decimal.antt =====
-- math/big on decimal texts: `(*big.Int).String` and `new(big.Int).SetString(s, 10)`.
use ibswap_api.Common.{
  ℕ, zero, suc, ◌+◌, ◌-◌, ◌*◌, ◌/◌, ◌%◌, ◌≤◌, ◌<◌, ◌≡◌, refl, ap, ◌∙◌, inl, inr, true, false, ◌&&◌,
  Option, none, some, [], ◌∷◌, arith, ltb, leb, ◌==◌, if◌then◌else◌, Bool-cases,
}
use ibswap_api.Common.Int.{ℤ, pos, negsuc, sub_ℕ}
use ibswap_api.Common.Eq.{Text}

-- The digits of `n`, most significant first, before those in `acc`. Fuel above `n` is enough.
digits_onto : ℕ → ℕ → Text → Text
digits_onto zero n acc = acc
digits_onto (suc fuel) n acc = elim (ltb n 10) [
  | true ↦ (n + 48) ∷ acc
  | false ↦ digits_onto fuel (n / 10) ((n % 10 + 48) ∷ acc)
]

unfoldable pub nat_string : ℕ → Text
unfolding digits_onto
nat_string n = digits_onto (n + 1) n []

-- `String`
unfoldable pub int_string : ℤ → Text
unfolding nat_string
int_string (pos n) = nat_string n
int_string (negsuc n) = b'-' ∷ nat_string (n + 1)

-- The value of a run of digits after `acc`, if there is nothing else in it.
unfoldable pub scan_digits : ℕ → Text → Option ℕ
scan_digits acc [] = some acc
scan_digits acc (c ∷ cs) = elim (leb 48 c && leb c 57) [
  | true ↦ scan_digits (acc * 10 + (c - 48)) cs
  | false ↦ none
]

-- An unsigned number has one digit at least.
unfoldable pub scan_nat : Text → Option ℕ
unfolding scan_digits
scan_nat [] = none
scan_nat (c ∷ cs) = scan_digits 0 (c ∷ cs)

abbrev negate : Option ℕ → Option ℤ
negate none = none
negate (some n) = some (sub_ℕ 0 n)

abbrev positive : Option ℕ → Option ℤ
positive none = none
positive (some n) = some (pos n)

-- `SetString(s, 10)`, where `none` is `ok == false`.
unfoldable pub set_string : Text → Option ℤ
unfolding scan_nat
set_string [] = none
set_string (c ∷ cs) =
    if c == b'-'
    then negate (scan_nat cs)
    else if c == b'+'
    then positive (scan_nat cs)
    else positive (scan_nat (c ∷ cs))

scan_digit :
    (acc d : ℕ) (cs : Text)
    → d < 10
    → scan_digits acc ((d + 48) ∷ cs) ≡ scan_digits (acc * 10 + d) cs
unfolding scan_digits
scan_digit acc d cs h = ground (arith, back)
  where
    back : d + 48 - 48 ≡ d
    back = omega arith

digits_onto_last :
    (fuel n : ℕ) (acc : Text) → n < 10 → digits_onto (suc fuel) n acc ≡ (n + 48) ∷ acc
unfolding digits_onto
digits_onto_last fuel n acc h = ground arith

digits_onto_more :
    (fuel n : ℕ) (acc : Text)
    → 10 ≤ n
    → digits_onto (suc fuel) n acc ≡ digits_onto fuel (n / 10) ((n % 10 + 48) ∷ acc)
unfolding digits_onto
digits_onto_more fuel n acc h = ground arith

-- Reading back the digits of `n`, then whatever was in `acc`.
scan-digits_onto :
    (fuel n : ℕ) (acc : Text)
    → n < fuel
    → scan_digits 0 (digits_onto fuel n acc) ≡ scan_digits n acc
scan-digits_onto zero n acc h = elim h [ ]
scan-digits_onto (suc fuel) n acc h = elim (Bool-cases (ltb n 10)) [
  | inl e ↦
      rw (digits_onto_last fuel n acc (ground arith))
        (scan_digit 0 n acc (ground arith) ∙ ap (λ (k : ℕ). scan_digits k acc) (omega arith))
  | inr e ↦ rw (digits_onto_more fuel n acc (ground arith)) (
      scan-digits_onto fuel (n / 10) ((n % 10 + 48) ∷ acc) (ground arith)
      ∙ scan_digit (n / 10) (n % 10) acc (omega arith)
      ∙ ap (λ (k : ℕ). scan_digits k acc) (omega arith))
]

-- A text that begins with a digit.
abbrev StartsWithDigit : Text → Type 0
StartsWithDigit [] = ⊥
StartsWithDigit (c ∷ cs) = (48 ≤ c) × (c < 58)

digits_onto-StartsWithDigit :
    (fuel n : ℕ) (acc : Text) → n < fuel → StartsWithDigit (digits_onto fuel n acc)
digits_onto-StartsWithDigit zero n acc h = elim h [ ]
digits_onto-StartsWithDigit (suc fuel) n acc h = elim (Bool-cases (ltb n 10)) [
  | inl e ↦ rw (digits_onto_last fuel n acc (ground arith)) (ground arith, ground arith)
  | inr e ↦
      rw (digits_onto_more fuel n acc (ground arith))
        (digits_onto-StartsWithDigit fuel (n / 10) ((n % 10 + 48) ∷ acc) (ground arith))
]

scan_nat-digits : (t : Text) → StartsWithDigit t → scan_nat t ≡ scan_digits 0 t
unfolding scan_nat
scan_nat-digits [] h = elim h [ ]
scan_nat-digits (c ∷ cs) h = refl

scan_nat-nat_string : (n : ℕ) → scan_nat (nat_string n) ≡ some n
unfolding nat_string
scan_nat-nat_string n =
    scan_nat-digits _ (digits_onto-StartsWithDigit (n + 1) n [] (omega arith))
    ∙ scan-digits_onto (n + 1) n [] (omega arith)
    ∙ scan_nothing n
  where
    scan_nothing : (k : ℕ) → scan_digits k [] ≡ some k
    scan_nothing k = unfold scan_digits in refl

set_string-digits : (t : Text) → StartsWithDigit t → set_string t ≡ positive (scan_nat t)
unfolding set_string
set_string-digits [] h = elim h [ ]
set_string-digits (c ∷ cs) h = ground arith

-- `SetString` reads back what `String` writes, for every integer.
pub set_string-int_string : (z : ℤ) → set_string (int_string z) ≡ some z
unfolding int_string
set_string-int_string (pos n) =
    set_string-digits (nat_string n) starts ∙ ap positive (scan_nat-nat_string n)
  where
    starts : StartsWithDigit (nat_string n)
    starts = unfold nat_string in digits_onto-StartsWithDigit (n + 1) n [] (omega arith)
set_string-int_string (negsuc n) =
    minus (nat_string (n + 1)) ∙ ap negate (scan_nat-nat_string (n + 1)) ∙ whole
  where
    minus : (t : Text) → set_string (b'-' ∷ t) ≡ negate (scan_nat t)
    minus t = unfold set_string in refl

    whole : negate (some (n + 1)) ≡ some (negsuc n)
    whole = ground arith
