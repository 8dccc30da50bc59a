-- ===== src/Registry/Writing.antt =====
-- The writes through pointers of model/public.go (`ChangePoolState`, `ChangeTokenPublic`, `GetPools`)
-- keep the registry's invariant.
use native.Mathlib.Decide.{ℕ_discrete}
use ibswap_api.Common.{
  ℕ, ◌≡◌, refl, sym, ap, ◌∙◌, subst, inl, inr, Option, none, some, List, [], ◌∷◌, get_elem?, set,
  All-weaken, Option-cases, get_elem?-set_self, get_elem?-set_ne,
}
use ibswap_api.Common.Int.{ℤ}
use ibswap_api.Common.Eq.{Text, text_eq_instance, int_eq}
use ibswap_api.Common.Dict.{lookup}
use ibswap_api.Registry.{
  Coin, Pool, Registry, pool_by_tokens_and_fee, write_state, write_public, change_pool_state,
  change_token_public, get_coin, symbol_or, name_pool, name_pools, pools_of, get_pools,
}
use ibswap_api.Registry.Invariant.{Holds, IsValid, get_elem?-lt}

-- The heap has the same cells, and each is related to what it was.
abbrev pub Rewritten : {A : Type 0} → (A → A → Type 0) → List A → List A → Type 0
Rewritten {A} R heap heap' = (p : ℕ) (a : A) → get_elem? heap p ≡ some a → Holds heap' (R a) p

pub set-Rewritten :
    {A : Type 0} (R : A → A → Type 0) (heap : List A) (i : ℕ) (a b : A)
    → ((c : A) → R c c)
    → get_elem? heap i ≡ some a
    → R a b
    → Rewritten R heap (set heap i b)
set-Rewritten {A} R heap i a b same e h p c f = elim (ℕ_discrete i p) [
  | yes q ↦ (
    b,
    ap (get_elem? (set heap i b)) (sym q) ∙ get_elem?-set_self heap i b (get_elem?-lt heap i a e),
    here q,
  )
  | no q ↦ (c, get_elem?-set_ne heap i p b q ∙ f, same c)
]
  where
    here : i ≡ p → R c b
    here q = subst (λ x. R x b) (some_eq (sym e ∙ ap (get_elem? heap) q ∙ f)) h
      where
        some_eq : {x y : A} → some x ≡ some y → x ≡ y
        some_eq p = cc

pub Rewritten-Holds :
    {A : Type 0} {R : A → A → Type 0} {P : A → Type 0} (heap heap' : List A)
    → ((a b : A) → R a b → P a → P b)
    → Rewritten R heap heap'
    → (p : ℕ) → Holds heap P p
    → Holds heap' P p
Rewritten-Holds heap heap' keep w p (a, e, h) = let (b, f, r) = w p a e in (b, f, keep a b r h)

-- What identifies a pool, and a coin.
pub record SamePool (q q' : Pool) : Type 0 where
  pub contract : q'.contract ≡ q.contract
  pub version : q'.version ≡ q.version
  pub token0 : q'.token0 ≡ q.token0
  pub token1 : q'.token1 ≡ q.token1
  pub fee_rate : q'.fee_rate ≡ q.fee_rate

abbrev pub same_pool : (q : Pool) → SamePool q q
same_pool q = record {
  contract = refl;
  version = refl;
  token0 = refl;
  token1 = refl;
  fee_rate = refl;
}

abbrev pub SameCoin : Coin → Coin → Type 0
SameCoin c c' = c'.contract ≡ c.contract

pub pools-Rewritten-IsValid :
    (r : Registry) (heap : List Pool)
    → Rewritten SamePool r.pool_heap heap
    → IsValid r
    → IsValid (record r { pool_heap = heap })
unfolding pool_by_tokens_and_fee
pools-Rewritten-IsValid r heap w v = record {
  coin_keys = v.coin_keys;
  coin_list = v.coin_list;
  v2_keys = λ k p h.
      Rewritten-Holds r.pool_heap heap (λ a b s x. (s.contract ∙ x.0, s.version ∙ x.1)) w p
        (v.v2_keys k p h);
  v3_keys = λ k p h.
      Rewritten-Holds r.pool_heap heap (λ a b s x. (s.contract ∙ x.0, s.version ∙ x.1)) w p
        (v.v3_keys k p h);
  v2_list =
      All-weaken r.pools_v2
        (λ p h. Rewritten-Holds r.pool_heap heap (λ a b s x. s.version ∙ x) w p h) v.v2_list;
  v3_list =
      All-weaken r.pools_v3
        (λ p h. Rewritten-Holds r.pool_heap heap (λ a b s x. s.version ∙ x) w p h) v.v3_list;
  indexed = λ t0 t1 fee p h.
      Rewritten-Holds r.pool_heap heap
        (λ a b s x. (s.token0 ∙ x.0, s.token1 ∙ x.1, s.fee_rate ∙ x.2)) w p
        (v.indexed t0 t1 fee p h);
}

pub coins-Rewritten-IsValid :
    (r : Registry) (heap : List Coin)
    → Rewritten SameCoin r.coin_heap heap
    → IsValid r
    → IsValid (record r { coin_heap = heap })
unfolding pool_by_tokens_and_fee
coins-Rewritten-IsValid r heap w v = record {
  coin_keys = λ k p h. Rewritten-Holds r.coin_heap heap (λ a b s x. s ∙ x) w p (v.coin_keys k p h);
  coin_list =
      All-weaken r.coins (λ p h. Rewritten-Holds r.coin_heap heap (λ a b s x. tt) w p h)
        v.coin_list;
  v2_keys = v.v2_keys;
  v3_keys = v.v3_keys;
  v2_list = v.v2_list;
  v3_list = v.v3_list;
  indexed = v.indexed;
}

pub write_state-Rewritten :
    (state : ℤ) (heap : List Pool) (p : ℕ) → Rewritten SamePool heap (write_state state heap p)
write_state-Rewritten state heap p = elim (Option-cases (get_elem? heap p)) [
  | inl e ↦ rw (e, write_state) (λ i a h. (a, h, same_pool a))
  | inr (q, e) ↦
      rw (e, write_state)
        (set-Rewritten SamePool heap p q (record q { state = state }) same_pool e
          (record {
            contract = refl;
            version = refl;
            token0 = refl;
            token1 = refl;
            fee_rate = refl;
          }))
]

pub write_public-Rewritten :
    (public : ℤ) (heap : List Coin) (p : ℕ) → Rewritten SameCoin heap (write_public public heap p)
write_public-Rewritten public heap p = elim (Option-cases (get_elem? heap p)) [
  | inl e ↦ rw (e, write_public) (λ i a h. (a, h, refl))
  | inr (c, e) ↦
      rw (e, write_public)
        (set-Rewritten SameCoin heap p c (record c { public = public }) (λ _. refl) e refl)
]

name_pool-Rewritten :
    (r : Registry) (heap : List Pool) (p : ℕ) → Rewritten SamePool heap (name_pool r heap p)
unfolding name_pool
name_pool-Rewritten r heap p = elim (Option-cases (get_elem? heap p)) [
  | inl e ↦ rw (e, name_pool) (λ i a h. (a, h, same_pool a))
  | inr (q, e) ↦
      rw (e, name_pool)
        (set-Rewritten SamePool heap p q
          (record q {
            symbol0 = symbol_or (get_coin r q.token0) q.symbol0;
            symbol1 = symbol_or (get_coin r q.token1) q.symbol1;
          })
          same_pool e
          (record {
            contract = refl;
            version = refl;
            token0 = refl;
            token1 = refl;
            fee_rate = refl;
          }))
]

pub name_pools-Rewritten :
    (r : Registry) (heap : List Pool) (ps : List ℕ) → Rewritten SamePool heap (name_pools r heap ps)
unfolding name_pools
name_pools-Rewritten r heap [] i a h = (a, h, same_pool a)
name_pools-Rewritten r heap (p ∷ ps) i a h =
    let (b, e, s) = name_pool-Rewritten r heap p i a h in
    let (c, f, t) = name_pools-Rewritten r (name_pool r heap p) ps i b e in
    (
      c,
      f,
      record {
        contract = t.contract ∙ s.contract;
        version = t.version ∙ s.version;
        token0 = t.token0 ∙ s.token0;
        token1 = t.token1 ∙ s.token1;
        fee_rate = t.fee_rate ∙ s.fee_rate;
      },
    )

pub get_pools-IsValid : (v : ℤ) (r : Registry) → IsValid r → IsValid (get_pools v r).1
unfolding get_pools
get_pools-IsValid v r h =
    pools-Rewritten-IsValid r _ (name_pools-Rewritten r r.pool_heap (pools_of v r)) h

pub change_pool_state-IsValid :
    (e : Option Text) (contract : Text) (state : ℤ) (r : Registry)
    → IsValid r
    → IsValid (change_pool_state e contract state r).1
unfolding change_pool_state
change_pool_state-IsValid (some e) contract state r h = h
change_pool_state-IsValid none contract state r h =
    elim (Option-cases (lookup contract r.pool_m_v3)) [
      | inl e ↦ rw (e, change_pool_state) h
      | inr (p, e) ↦
          rw (e, change_pool_state)
            (pools-Rewritten-IsValid r _ (write_state-Rewritten state r.pool_heap p) h)
    ]

pub change_token_public-IsValid :
    (e : Option Text) (contract : Text) (public : ℤ) (r : Registry)
    → IsValid r
    → IsValid (change_token_public e contract public r).1
unfolding change_token_public
change_token_public-IsValid (some e) contract public r h = h
change_token_public-IsValid none contract public r h =
    elim (Option-cases (lookup contract r.coin_m)) [
      | inl e ↦ rw (e, change_token_public) h
      | inr (p, e) ↦
          rw (e, change_token_public)
            (coins-Rewritten-IsValid r _ (write_public-Rewritten public r.coin_heap p) h)
    ]
