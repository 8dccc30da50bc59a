-- ===== src/Chain/Slices.antt =====
-- Cutting a byte slice where it was put together.
use ibswap_api.Common.{
  ℕ, ◌-◌, ◌≤◌, ◌≡◌, refl, sym, ap, ◌∙◌, List, [], ◌∷◌, ◌++◌, arith, le→leb, length, length-append,
  take, drop,
}
use ibswap_api.Common.Outcome.{ok}
use ibswap_api.Chain.Types.{slice, slice_from}

drop-append {ℓ} : {A : Type ℓ} (xs ys : List A) → drop (length xs) (xs ++ ys) ≡ ys
drop-append [] ys = refl
drop-append (x ∷ xs) ys = drop-append xs ys

take-append {ℓ} : {A : Type ℓ} (xs ys : List A) → take (length xs) (xs ++ ys) ≡ xs
take-append [] ys = refl
take-append (x ∷ xs) ys = ap (◌∷◌ x) (take-append xs ys)

-- `d[lo:hi]` of three parts, where the bounds are those of the middle one.
pub slice_middle :
    (lo hi : ℕ) (xs ys zs : List ℕ)
    → length xs ≡ lo
    → length ys ≡ hi - lo
    → lo ≤ hi
    → slice lo hi (xs ++ (ys ++ zs)) ≡ ok ys
unfolding slice
slice_middle lo hi xs ys zs hx hy h =
    rw (le→leb lo hi h, le→leb hi (length (xs ++ (ys ++ zs))) fits)
      (ap ok (
        ap (λ (n : ℕ). take n (drop lo (xs ++ (ys ++ zs)))) (sym hy)
        ∙ ap (λ (n : ℕ). take (length ys) (drop n (xs ++ (ys ++ zs)))) (sym hx)
        ∙ ap (take (length ys)) (drop-append xs (ys ++ zs))
        ∙ take-append ys zs))
  where
    fits : hi ≤ length (xs ++ (ys ++ zs))
    fits = omega (arith, length-append xs (ys ++ zs), length-append ys zs)

-- `d[lo:]`
pub slice_end : (lo : ℕ) (xs ys : List ℕ) → length xs ≡ lo → slice_from lo (xs ++ ys) ≡ ok ys
unfolding slice_from
slice_end lo xs ys hx =
    rw (le→leb lo (length (xs ++ ys)) (omega (arith, length-append xs ys)))
      (ap ok (ap (λ (n : ℕ). drop n (xs ++ ys)) (sym hx) ∙ drop-append xs ys))
