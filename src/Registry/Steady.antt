-- ===== src/Registry/Steady.antt =====
-- Which calls of model/public.go leave what the tasks of service/ rest on.
use ibswap_api.Common.{◌≡◌, refl, ◌∙◌, inl, inr, Option, none, some, Option-cases}
use ibswap_api.Common.Int.{ℤ}
use ibswap_api.Common.Eq.{Text, text_eq_instance}
use ibswap_api.Common.Dict.{lookup}
use ibswap_api.Registry.{
  Registry, get_pools, add_token, change_pool_state, change_token_public, add_coin,
}
use ibswap_api.Registry.Invariant.{IsValid}
use ibswap_api.Registry.Adding.{add_coin-IsValid}
use ibswap_api.Registry.Writing.{
  get_pools-IsValid, change_pool_state-IsValid, change_token_public-IsValid,
}
use ibswap_api.Registry.Listing.{
  IsListed, get_pools-IsListed, add_token-IsListed, change_pool_state-IsListed,
  change_token_public-IsListed,
}

-- The registry's invariants hold again, and the map of V3 pools is the same.
pub record Steady (r r' : Registry) : Type 0 where
  pub valid : IsValid r → IsValid r'
  pub listed : IsListed r → IsListed r'
  pub v3 : r'.pool_m_v3 ≡ r.pool_m_v3

pub Steady-refl : (r : Registry) → Steady r r
Steady-refl r = record { valid = λ h. h; listed = λ h. h; v3 = refl }

pub Steady-trans : (r r' r'' : Registry) → Steady r r' → Steady r' r'' → Steady r r''
Steady-trans r r' r'' a b = record {
  valid = λ h. b.valid (a.valid h);
  listed = λ h. b.listed (a.listed h);
  v3 = b.v3 ∙ a.v3;
}

pub get_pools-Steady : (v : ℤ) (r : Registry) → Steady r (get_pools v r).1
unfolding get_pools
get_pools-Steady v r = record {
  valid = get_pools-IsValid v r;
  listed = get_pools-IsListed v r;
  v3 = refl;
}

pub add_token-Steady :
    (e : Option Text) (s c k : Text) (d t p : ℤ) (r : Registry)
    → Steady r (add_token e s c k d t p r).1
unfolding add_token
add_token-Steady (some e) s c k d t p r = Steady-refl r
add_token-Steady none s c k d t p r = record {
  valid = add_coin-IsValid _ r;
  listed = add_token-IsListed none s c k d t p r;
  v3 = unfold add_coin in refl;
}

v3-change_pool_state :
    (e : Option Text) (k : Text) (n : ℤ) (r : Registry)
    → (change_pool_state e k n r).1.pool_m_v3 ≡ r.pool_m_v3
unfolding change_pool_state
v3-change_pool_state (some e) k n r = refl
v3-change_pool_state none k n r = elim (Option-cases (lookup k r.pool_m_v3)) [
  | inl e ↦ rw (e, change_pool_state) refl
  | inr (p, e) ↦ rw (e, change_pool_state) refl
]

pub change_pool_state-Steady :
    (e : Option Text) (k : Text) (n : ℤ) (r : Registry) → Steady r (change_pool_state e k n r).1
change_pool_state-Steady e k n r = record {
  valid = change_pool_state-IsValid e k n r;
  listed = change_pool_state-IsListed e k n r;
  v3 = v3-change_pool_state e k n r;
}

v3-change_token_public :
    (e : Option Text) (k : Text) (n : ℤ) (r : Registry)
    → (change_token_public e k n r).1.pool_m_v3 ≡ r.pool_m_v3
unfolding change_token_public
v3-change_token_public (some e) k n r = refl
v3-change_token_public none k n r = elim (Option-cases (lookup k r.coin_m)) [
  | inl e ↦ rw (e, change_token_public) refl
  | inr (p, e) ↦ rw (e, change_token_public) refl
]

pub change_token_public-Steady :
    (e : Option Text) (k : Text) (n : ℤ) (r : Registry) → Steady r (change_token_public e k n r).1
change_token_public-Steady e k n r = record {
  valid = change_token_public-IsValid e k n r;
  listed = change_token_public-IsListed e k n r;
  v3 = v3-change_token_public e k n r;
}
