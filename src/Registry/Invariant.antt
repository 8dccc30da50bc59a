-- ===== src/Registry/Invariant.antt =====
-- The registry of model/public.go: its maps, lists and pointers stay in step.
use ibswap_api.Common.{
  ℕ, zero, suc, ◌<◌, ◌≡◌, ◌∙◌, ◌⊎◌, inl, inr, true, some, List, [], ◌∷◌, ◌++◌, arith, length,
  get_elem?, All, Bool-cases, get_elem?-append_left, get_elem?-append_length,
}
use ibswap_api.Common.Int.{ℤ, pos}
use ibswap_api.Common.Eq.{Text, text_eq, text_eq_iff, text_eq_instance, int_eq}
use ibswap_api.Common.Dict.{Dict, lookup, insert, lookup-insert, insert-cases}
use ibswap_api.Registry.{Pool, Registry, inner, index_pool, pool_by_tokens_and_fee}

-- A pointer into a heap, to something of which `P` holds.
abbrev pub Holds : {A : Type 0} → List A → (A → Type 0) → ℕ → Type 0
Holds {A} heap P p = (a : A) × (get_elem? heap p ≡ some a) × P a

pub record IsValid (r : Registry) : Type 0 where
  pub coin_keys :
      (k : Text) (p : ℕ) → lookup k r.coin_m ≡ some p → Holds r.coin_heap (λ c. c.contract ≡ k) p
  pub coin_list : All (Holds r.coin_heap (λ c. Unit {0})) r.coins
  pub v2_keys :
      (k : Text) (p : ℕ)
      → lookup k r.pool_m_v2 ≡ some p
      → Holds r.pool_heap (λ q. (q.contract ≡ k) × (q.version ≡ pos 2)) p
  pub v3_keys :
      (k : Text) (p : ℕ)
      → lookup k r.pool_m_v3 ≡ some p
      → Holds r.pool_heap (λ q. (q.contract ≡ k) × (q.version ≡ pos 3)) p
  pub v2_list : All (Holds r.pool_heap (λ q. q.version ≡ pos 2)) r.pools_v2
  pub v3_list : All (Holds r.pool_heap (λ q. q.version ≡ pos 3)) r.pools_v3
  pub indexed :
      (t0 t1 : Text) (fee : ℤ) (p : ℕ)
      → pool_by_tokens_and_fee r t0 t1 fee ≡ some p
      → Holds r.pool_heap (λ q. (q.token0 ≡ t0) × (q.token1 ≡ t1) × (q.fee_rate ≡ fee)) p

pub get_elem?-lt :
    {A : Type 0} (xs : List A) (i : ℕ) (a : A) → get_elem? xs i ≡ some a → i < length xs
get_elem?-lt [] i a e = cc
get_elem?-lt (x ∷ xs) zero a e = omega arith
get_elem?-lt (x ∷ xs) (suc i) a e = omega (arith, get_elem?-lt xs i a e)

pub Holds-append :
    {A : Type 0} {P : A → Type 0} (heap : List A) (b : A) (p : ℕ)
    → Holds heap P p
    → Holds (heap ++ b ∷ []) P p
Holds-append heap b p (a, e, h) =
    (a, get_elem?-append_left heap (b ∷ []) p (get_elem?-lt heap p a e) ∙ e, h)

pub Holds-new :
    {A : Type 0} {P : A → Type 0} (heap : List A) (b : A)
    → P b
    → Holds (heap ++ b ∷ []) P (length heap)
Holds-new heap b h = (b, get_elem?-append_length heap b [], h)

-- A lookup in an inner map that a missing entry does not have.
inner-insert :
    {V : Type 0} (t j : Text) (x : Dict ℤ V) (fee : ℤ) (d : Dict Text (Dict ℤ V)) (w : V)
    → lookup fee (inner (lookup t (insert j x d))) ≡ some w
    → ((t ≡ j) × (lookup fee x ≡ some w)) ⊎ (lookup fee (inner (lookup t d)) ≡ some w)
inner-insert t j x fee d w h = elim (Bool-cases (text_eq t j)) [
  | inl e ↦ inl ((text_eq_iff t j).0 e, ground (arith, lookup-insert t j x d))
  | inr e ↦ inr (ground (arith, lookup-insert t j x d))
]

-- What `addPool` finds by tokens and fee: the new pool, or one that was there.
pub index_pool-cases :
    (q : Pool) (p : ℕ) (r : Registry) (t0 t1 : Text) (fee : ℤ) (w : ℕ)
    → pool_by_tokens_and_fee (index_pool q p r) t0 t1 fee ≡ some w
    → ((t0 ≡ q.token0) × (t1 ≡ q.token1) × (fee ≡ q.fee_rate) × (w ≡ p))
      ⊎ (pool_by_tokens_and_fee r t0 t1 fee ≡ some w)
unfolding pool_by_tokens_and_fee
index_pool-cases q p r t0 t1 fee w h = elim (Bool-cases (text_eq t0 q.token0)) [
  | inl e ↦ elim (inner-insert t1 q.token1 (insert q.fee_rate p level2) fee level1 w (found e)) [
    | inl (e1, f) ↦ elim (insert-cases fee q.fee_rate p w level2 f) [
      | inl (ef, ew) ↦ inl ((text_eq_iff t0 q.token0).0 e, e1, ef, ew)
      | inr (nf, old) ↦ inr (was e (at_token1 e1 old))
    ]
    | inr old ↦ inr (was e old)
  ]
  | inr e ↦ inr (
      ground (
        arith,
        lookup-insert t0 q.token0 (insert q.token1 (insert q.fee_rate p level2) level1) r.pool_mmm,
      ))
]
  where
    level1 : Dict Text (Dict ℤ ℕ)
    level1 = inner (lookup q.token0 r.pool_mmm)

    level2 : Dict ℤ ℕ
    level2 = inner (lookup q.token1 level1)

    found :
        text_eq t0 q.token0 ≡ true
        → lookup fee (inner (lookup t1 (insert q.token1 (insert q.fee_rate p level2) level1)))
          ≡ some w
    found e = ground (
      arith,
      lookup-insert t0 q.token0 (insert q.token1 (insert q.fee_rate p level2) level1) r.pool_mmm,
    )

    at_token1 :
        t1 ≡ q.token1 → lookup fee level2 ≡ some w → lookup fee (inner (lookup t1 level1)) ≡ some w
    at_token1 e1 old = cc

    was :
        text_eq t0 q.token0 ≡ true
        → lookup fee (inner (lookup t1 level1)) ≡ some w
        → lookup fee (inner (lookup t1 (inner (lookup t0 r.pool_mmm)))) ≡ some w
    was e old = cc ((text_eq_iff t0 q.token0).0 e)
