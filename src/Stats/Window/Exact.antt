-- ===== src/Stats/Window/Exact.antt =====
-- `Volumes` of service/types.go against the whole history of trades.
use ibswap_api.Common.{
  ◌≡◌, refl, ap, inl, inr, List, [], ◌∷◌, ◌++◌, arith, if◌then◌else◌, Bool-cases,
}
use ibswap_api.Common.Int.{ℤ, pos, pos_part, neg_part, ◌+ℤ◌, ◌-ℤ◌, ◌≤ℤ◌, ltb_ℤ, int_laws}
use ibswap_api.Stats.Window.{Volume, evict}

-- The trades that are not older than a time, and the sums of a list of trades.
abbrev pub window : ℤ → List Volume → List Volume
window before [] = []
window before (v ∷ vs) = let rest = window before vs in if ltb_ℤ v.ts before then rest else v ∷ rest

abbrev pub sum0 : List Volume → ℤ
sum0 [] = pos 0
sum0 (v ∷ vs) = v.amount0 +ℤ sum0 vs

abbrev pub sum1 : List Volume → ℤ
sum1 [] = pos 0
sum1 (v ∷ vs) = v.amount1 +ℤ sum1 vs

-- In the order of their times, none before `lo`.
abbrev pub SortedFrom : ℤ → List Volume → Type 0
SortedFrom lo [] = Unit
SortedFrom lo (v ∷ vs) = (lo ≤ℤ v.ts) × SortedFrom v.ts vs

window_all :
    (before lo : ℤ) (vs : List Volume) → before ≤ℤ lo → SortedFrom lo vs → window before vs ≡ vs
window_all before lo [] h s = refl
window_all before lo (v ∷ vs) h s = ground (arith, window_all before v.ts vs (omega arith) s.1)

put_back : (k s t x w : ℤ) → k +ℤ s ≡ (t -ℤ x) +ℤ w → k +ℤ (x +ℤ s) ≡ t +ℤ w
put_back k s t x w e = put_back_parts k s t x w (ap pos_part e) (ap neg_part e)
  where
    put_back_parts :
        (k s t x w : ℤ)
        → pos_part (k +ℤ s) ≡ pos_part ((t -ℤ x) +ℤ w)
        → neg_part (k +ℤ s) ≡ neg_part ((t -ℤ x) +ℤ w)
        → k +ℤ (x +ℤ s) ≡ t +ℤ w
    put_back_parts k s t x w e f = omega int_laws

-- What the loop leaves of sorted rows, and what it takes off the sums.
pub evict-window :
    (before lo : ℤ) (vs : List Volume) (total : Volume)
    → SortedFrom lo vs
    → let kept = evict before vs total in
      (kept.0 ≡ window before vs)
      × (kept.1.amount0 +ℤ sum0 vs ≡ total.amount0 +ℤ sum0 (window before vs))
      × (kept.1.amount1 +ℤ sum1 vs ≡ total.amount1 +ℤ sum1 (window before vs))
unfolding evict
evict-window before lo [] total s = (refl, refl, refl)
evict-window before lo (v ∷ vs) total s = elim (Bool-cases (ltb_ℤ v.ts before)) [
  | inl old ↦
      let (k, a, b) =
        evict-window before v.ts vs
          (record total {
            amount0 = total.amount0 -ℤ v.amount0;
            amount1 = total.amount1 -ℤ v.amount1;
          })
          s.1 in
      rw old (k, put_back _ _ _ _ _ a, put_back _ _ _ _ _ b)
  | inr young ↦ rw (young, window_all before v.ts vs (ground arith) s.1) (refl, refl, refl)
]

pub window-append : (b : ℤ) (xs ys : List Volume) → window b (xs ++ ys) ≡ window b xs ++ window b ys
window-append b [] ys = refl
window-append b (x ∷ xs) ys = ground (arith, window-append b xs ys)

pub window-window : (b c : ℤ) (xs : List Volume) → b ≤ℤ c → window c (window b xs) ≡ window c xs
window-window b c [] h = refl
window-window b c (x ∷ xs) h = ground (arith, window-window b c xs h)

pub sum0-append : (xs ys : List Volume) → sum0 (xs ++ ys) ≡ sum0 xs +ℤ sum0 ys
sum0-append [] ys = omega int_laws
sum0-append (x ∷ xs) ys = rw (sum0-append xs ys) (omega int_laws)

pub sum1-append : (xs ys : List Volume) → sum1 (xs ++ ys) ≡ sum1 xs +ℤ sum1 ys
sum1-append [] ys = omega int_laws
sum1-append (x ∷ xs) ys = rw (sum1-append xs ys) (omega int_laws)

SortedFrom-lower :
    (lo lo' : ℤ) (vs : List Volume) → lo' ≤ℤ lo → SortedFrom lo vs → SortedFrom lo' vs
SortedFrom-lower lo lo' [] h s = tt
SortedFrom-lower lo lo' (v ∷ vs) h s = (omega arith, s.1)

pub SortedFrom-window :
    (b lo : ℤ) (vs : List Volume) → SortedFrom lo vs → SortedFrom lo (window b vs)
SortedFrom-window b lo [] s = tt
SortedFrom-window b lo (v ∷ vs) s = elim (Bool-cases (ltb_ℤ v.ts b)) [
  | inl e ↦ rw e (SortedFrom-lower v.ts lo (window b vs) s.0 (SortedFrom-window b v.ts vs s.1))
  | inr e ↦ rw e (s.0, SortedFrom-window b v.ts vs s.1)
]

-- All rows are at most `hi`.
abbrev pub UpTo : ℤ → List Volume → Type 0
UpTo hi [] = Unit
UpTo hi (v ∷ vs) = (v.ts ≤ℤ hi) × UpTo hi vs

pub UpTo-window : (b hi : ℤ) (vs : List Volume) → UpTo hi vs → UpTo hi (window b vs)
UpTo-window b hi [] u = tt
UpTo-window b hi (v ∷ vs) u = elim (Bool-cases (ltb_ℤ v.ts b)) [
  | inl e ↦ rw e (UpTo-window b hi vs u.1)
  | inr e ↦ rw e (u.0, UpTo-window b hi vs u.1)
]

pub SortedFrom-snoc :
    (lo : ℤ) (vs : List Volume) (v : Volume)
    → SortedFrom lo vs
    → lo ≤ℤ v.ts
    → UpTo v.ts vs
    → SortedFrom lo (vs ++ v ∷ [])
SortedFrom-snoc lo [] v s h u = (h, tt)
SortedFrom-snoc lo (x ∷ vs) v s h u = (s.0, SortedFrom-snoc x.ts vs v s.1 u.0 u.1)

pub UpTo-snoc :
    (hi hi' : ℤ) (vs : List Volume) (v : Volume)
    → hi ≤ℤ hi'
    → UpTo hi vs
    → v.ts ≤ℤ hi'
    → UpTo hi' (vs ++ v ∷ [])
UpTo-snoc hi hi' [] v h u k = (k, tt)
UpTo-snoc hi hi' (x ∷ vs) v h u k = (omega arith, UpTo-snoc hi hi' vs v h u.1 k)
