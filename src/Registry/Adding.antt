-- ===== src/Registry/Adding.antt =====
-- `addPool` and the coin part of `AddToken` keep the registry's invariant (model/public.go).
use ibswap_api.Common.{
  ℕ, ◌≡◌, refl, sym, inl, inr, some, List, [], ◌∷◌, ◌++◌, length, All, All-append, All-weaken,
  Bool-cases,
}
use ibswap_api.Common.Int.{ℤ, pos, eqb_ℤ}
use ibswap_api.Common.Eq.{Text, text_eq_instance, int_eq, eqb_ℤ_iff}
use ibswap_api.Common.Dict.{Dict, lookup, insert, insert-cases}
use ibswap_api.Registry.{
  Coin, Pool, Registry, index_pool, pool_by_tokens_and_fee, add_pool, add_coin,
}
use ibswap_api.Registry.Invariant.{Holds, IsValid, Holds-append, Holds-new, index_pool-cases}

module _ {A : Type 0} (heap : List A) (b : A) where
  -- A map over the heap after an insertion of the new element.
  keys_grown :
      (P : Text → A → Type 0) (d : Dict Text ℕ) (key : Text)
      → P key b
      → ((k : Text) (p : ℕ) → lookup k d ≡ some p → Holds heap (P k) p)
      → (k : Text) (p : ℕ) → lookup k (insert key (length heap) d) ≡ some p
      → Holds (heap ++ b ∷ []) (P k) p
  keys_grown P d key new old k p h = elim (insert-cases k key (length heap) p d h) [
    | inl (ek, ep) ↦ rw (ek, ep) (Holds-new heap b new)
    | inr (_, found) ↦ Holds-append heap b p (old k p found)
  ]

  keys_kept :
      (P : Text → A → Type 0) (d : Dict Text ℕ)
      → ((k : Text) (p : ℕ) → lookup k d ≡ some p → Holds heap (P k) p)
      → (k : Text) (p : ℕ) → lookup k d ≡ some p
      → Holds (heap ++ b ∷ []) (P k) p
  keys_kept P d old k p h = Holds-append heap b p (old k p h)

  list_kept :
      (P : A → Type 0) (ps : List ℕ) → All (Holds heap P) ps → All (Holds (heap ++ b ∷ []) P) ps
  list_kept P ps h = All-weaken ps (Holds-append heap b) h

  list_grown :
      (P : A → Type 0) (ps : List ℕ)
      → P b
      → All (Holds heap P) ps
      → All (Holds (heap ++ b ∷ []) P) (ps ++ length heap ∷ [])
  list_grown P ps new h =
      All-append (Holds (heap ++ b ∷ []) P) ps (length heap ∷ []) (list_kept P ps h)
        (Holds-new heap b new, tt)

pub add_coin-IsValid : (c : Coin) (r : Registry) → IsValid r → IsValid (add_coin c r)
unfolding add_coin pool_by_tokens_and_fee
add_coin-IsValid c r v = record {
  coin_keys = keys_grown r.coin_heap c (λ k x. x.contract ≡ k) r.coin_m c.contract refl v.coin_keys;
  coin_list = list_grown r.coin_heap c (λ x. Unit) r.coins tt v.coin_list;
  v2_keys = v.v2_keys;
  v3_keys = v.v3_keys;
  v2_list = v.v2_list;
  v3_list = v.v3_list;
  indexed = v.indexed;
}

module _ (q : Pool) (r : Registry) (v : IsValid r) where
  abbrev P2 : Text → Pool → Type 0
  P2 k x = (x.contract ≡ k) × (x.version ≡ pos 2)

  abbrev P3 : Text → Pool → Type 0
  P3 k x = (x.contract ≡ k) × (x.version ≡ pos 3)

  index_grown :
      (t0 t1 : Text) (fee : ℤ) (p : ℕ)
      → pool_by_tokens_and_fee (index_pool q (length r.pool_heap) r) t0 t1 fee ≡ some p
      → Holds
          (r.pool_heap ++ q ∷ [])
          (λ x. (x.token0 ≡ t0) × (x.token1 ≡ t1) × (x.fee_rate ≡ fee))
          p
  index_grown t0 t1 fee p h = elim (index_pool-cases q (length r.pool_heap) r t0 t1 fee p h) [
    | inl (e0, e1, ef, ep) ↦ rw ep (Holds-new r.pool_heap q (sym e0, sym e1, sym ef))
    | inr old ↦ Holds-append r.pool_heap q p (v.indexed t0 t1 fee p old)
  ]

  pub add_pool-IsValid : IsValid (add_pool q r)
  unfolding add_pool pool_by_tokens_and_fee
  add_pool-IsValid = elim (Bool-cases (eqb_ℤ q.version (pos 2))) [
    | inl two ↦ rw two (record {
      coin_keys = v.coin_keys;
      coin_list = v.coin_list;
      v2_keys =
          keys_grown r.pool_heap q P2 r.pool_m_v2 q.contract (refl, (eqb_ℤ_iff _ _).0 two)
            v.v2_keys;
      v3_keys = keys_kept r.pool_heap q P3 r.pool_m_v3 v.v3_keys;
      v2_list = list_grown r.pool_heap q _ r.pools_v2 ((eqb_ℤ_iff _ _).0 two) v.v2_list;
      v3_list = list_kept r.pool_heap q _ r.pools_v3 v.v3_list;
      indexed = index_grown;
    })
    | inr not_two ↦ rw not_two (elim (Bool-cases (eqb_ℤ q.version (pos 3))) [
      | inl three ↦ rw three (record {
        coin_keys = v.coin_keys;
        coin_list = v.coin_list;
        v2_keys = keys_kept r.pool_heap q P2 r.pool_m_v2 v.v2_keys;
        v3_keys =
            keys_grown r.pool_heap q P3 r.pool_m_v3 q.contract (refl, (eqb_ℤ_iff _ _).0 three)
              v.v3_keys;
        v2_list = list_kept r.pool_heap q _ r.pools_v2 v.v2_list;
        v3_list = list_grown r.pool_heap q _ r.pools_v3 ((eqb_ℤ_iff _ _).0 three) v.v3_list;
        indexed = index_grown;
      })
      | inr other ↦ rw other (record {
        coin_keys = v.coin_keys;
        coin_list = v.coin_list;
        v2_keys = keys_kept r.pool_heap q P2 r.pool_m_v2 v.v2_keys;
        v3_keys = keys_kept r.pool_heap q P3 r.pool_m_v3 v.v3_keys;
        v2_list = list_kept r.pool_heap q _ r.pools_v2 v.v2_list;
        v3_list = list_kept r.pool_heap q _ r.pools_v3 v.v3_list;
        indexed = index_grown;
      })
    ])
  ]
