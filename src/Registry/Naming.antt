-- ===== src/Registry/Naming.antt =====
-- What `GetPools` and `AddToken` of model/public.go leave as it was.
use mathlib.Core.List.{append-nil}
use ibswap_api.Common.{
  ℕ, zero, suc, ◌≡◌, refl, sym, ap, ◌∙◌, inl, inr, Option, none, some, List, [], ◌∷◌, ◌++◌, map,
  get_elem?, set, Option-cases,
}
use ibswap_api.Common.Eq.{Text}
use ibswap_api.Common.Int.{ℤ}
use ibswap_api.Registry.{
  Pool, Coin, Registry, name_pool, name_pools, pools_of, get_pools, add_token, add_coin,
}

-- A pool without its symbols.
abbrev pub unnamed : Pool → Pool
unnamed q = record q { symbol0 = []; symbol1 = [] }

map-set {ℓ κ} :
    {A : Type ℓ} {B : Type κ} (f : A → B) (xs : List A) (i : ℕ) (a b : A)
    → get_elem? xs i ≡ some a
    → f b ≡ f a
    → map f (set xs i b) ≡ map f xs
map-set f [] i a b h e = refl
map-set f (x ∷ xs) zero a b h e = ap (λ y. y ∷ map f xs) (cc (h, e))
map-set f (x ∷ xs) (suc i) a b h e = ap (◌∷◌ (f x)) (map-set f xs i a b h e)

name_pool-unnamed :
    (r : Registry) (heap : List Pool) (p : ℕ) → map unnamed (name_pool r heap p) ≡ map unnamed heap
unfolding name_pool
name_pool-unnamed r heap p = elim (Option-cases (get_elem? heap p)) [
  | inl e ↦ rw (e, name_pool) refl
  | inr (q, e) ↦ rw (e, name_pool) (map-set unnamed heap p q _ e refl)
]

name_pools-unnamed :
    (r : Registry) (heap : List Pool) (ps : List ℕ)
    → map unnamed (name_pools r heap ps) ≡ map unnamed heap
unfolding name_pools
name_pools-unnamed r heap [] = refl
name_pools-unnamed r heap (p ∷ ps) =
    name_pools-unnamed r (name_pool r heap p) ps ∙ name_pool-unnamed r heap p

pub get_pools-unnamed :
    (v : ℤ) (r : Registry) → map unnamed (get_pools v r).1.pool_heap ≡ map unnamed r.pool_heap
unfolding get_pools
get_pools-unnamed v r = name_pools-unnamed r r.pool_heap (pools_of v r)

-- The pools are the same but for their symbols, and coins have only been added.
pub record Untouched (r r' : Registry) : Type 0 where
  pub v2 : r'.pool_m_v2 ≡ r.pool_m_v2
  pub v2_list : r'.pools_v2 ≡ r.pools_v2
  pub v3 : r'.pool_m_v3 ≡ r.pool_m_v3
  pub v3_list : r'.pools_v3 ≡ r.pools_v3
  pub by_tokens : r'.pool_mmm ≡ r.pool_mmm
  pub pools : map unnamed r'.pool_heap ≡ map unnamed r.pool_heap
  pub more : List Coin
  pub coins : r'.coin_heap ≡ r.coin_heap ++ more

pub Untouched-refl : (r : Registry) → Untouched r r
Untouched-refl r = record {
  v2 = refl;
  v2_list = refl;
  v3 = refl;
  v3_list = refl;
  by_tokens = refl;
  pools = refl;
  more = [];
  coins = sym (append-nil r.coin_heap);
}

pub get_pools-Untouched : (v : ℤ) (r : Registry) → Untouched r (get_pools v r).1
unfolding get_pools
get_pools-Untouched v r = record {
  v2 = refl;
  v2_list = refl;
  v3 = refl;
  v3_list = refl;
  by_tokens = refl;
  pools = get_pools-unnamed v r;
  more = [];
  coins = sym (append-nil r.coin_heap);
}

pub add_token-Untouched :
    (e : Option Text) (s c k : Text) (d t p : ℤ) (r : Registry)
    → Untouched r (add_token e s c k d t p r).1
unfolding add_token add_coin
add_token-Untouched (some e) s c k d t p r = Untouched-refl r
add_token-Untouched none s c k d t p r = record {
  v2 = refl;
  v2_list = refl;
  v3 = refl;
  v3_list = refl;
  by_tokens = refl;
  pools = refl;
  more = _;
  coins = refl;
}
