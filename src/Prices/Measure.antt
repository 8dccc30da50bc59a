-- ===== src/Prices/Measure.antt =====
-- service/price.go: the tokens of the pools that the walk of `setTokensPriceAsUsd` has not seen yet.
use mathlib.Core.List.{Memᴰ}
use ibswap_api.Common.{
  ℕ, suc, ◌*◌, ◌<◌, ◌≤◌, ◌≡◌, sym, ap, Bool, true, false, List, [], ◌∷◌, if◌then◌else◌, length,
  arith,
}
use ibswap_api.Common.Eq.{Text, text_eq_iff, text_eq_instance}
use ibswap_api.Common.Dict.{Dict, insert}
use ibswap_api.Registry
use ibswap_api.Prices.{seen}
use ibswap_api.Prices.Links.{seen-insert}

abbrev pub unseen : Dict Text Bool → List Text → ℕ
unseen v [] = 0
unseen v (t ∷ ts) = let rest = unseen v ts in if seen v t then rest else suc rest

-- The tokens of the pools.
abbrev pub tokens : List Registry.Pool → List Text
tokens [] = []
tokens (p ∷ ps) = p.token0 ∷ p.token1 ∷ tokens ps

pub unseen-length : (v : Dict Text Bool) (ts : List Text) → unseen v ts ≤ length ts
unseen-length v [] = omega arith
unseen-length v (t ∷ ts) = ground (arith, unseen-length v ts)

pub length-tokens : (ps : List Registry.Pool) → length (tokens ps) ≡ 2 * length ps
length-tokens [] = omega arith
length-tokens (p ∷ ps) = omega (arith, length-tokens ps)

pub unseen-insert_le :
    (b : Text) (v : Dict Text Bool) (ts : List Text) → unseen (insert b true v) ts ≤ unseen v ts
unseen-insert_le b v [] = omega arith
unseen-insert_le b v (t ∷ ts) = ground (arith, unseen-insert_le b v ts, seen-insert t b v)

pub unseen-insert :
    (b : Text) (v : Dict Text Bool) (ts : List Text)
    → Memᴰ b ts
    → seen v b ≡ false
    → unseen (insert b true v) ts < unseen v ts
unseen-insert b v [] m h = elim m [ ]
unseen-insert b v (t ∷ ts) (Memᴰ.head e) h =
    ground
      (arith, unseen-insert_le b v ts, seen-insert t b v, text_eq_iff t b, sym e, ap (seen v) e)
unseen-insert b v (t ∷ ts) (Memᴰ.tail m) h =
    ground (arith, unseen-insert b v ts m h, seen-insert t b v)

pub token0_of :
    (p : Registry.Pool) (ps : List Registry.Pool) → Memᴰ p ps → Memᴰ p.token0 (tokens ps)
token0_of p [] m = elim m [ ]
token0_of p (q ∷ ps) (Memᴰ.head e) = Memᴰ.head (ap (λ r. r.token0) e)
token0_of p (q ∷ ps) (Memᴰ.tail m) = Memᴰ.tail (Memᴰ.tail (token0_of p ps m))

pub token1_of :
    (p : Registry.Pool) (ps : List Registry.Pool) → Memᴰ p ps → Memᴰ p.token1 (tokens ps)
token1_of p [] m = elim m [ ]
token1_of p (q ∷ ps) (Memᴰ.head e) = Memᴰ.tail (Memᴰ.head (ap (λ r. r.token1) e))
token1_of p (q ∷ ps) (Memᴰ.tail m) = Memᴰ.tail (Memᴰ.tail (token1_of p ps m))
