-- ===== src/Registry/Lookup.antt =====
-- What the lookups of model/public.go find after `AddPool` and after `ChangePoolState`.
use ibswap_api.Common.{
  ℕ, ◌≡◌, inl, inr, Option-cases, ◌≢◌, none, some, List, [], length, get_elem?, set,
  get_elem?-append_length, get_elem?-set_self, get_elem?-set_ne,
}
use ibswap_api.Common.Int.{ℤ, pos}
use ibswap_api.Common.Eq.{Text, text_eq_instance, int_eq}
use ibswap_api.Common.Dict.{lookup, insert, lookup-insert_self}
use ibswap_api.Registry.{
  Pool, Coin, get_coin, Registry, index_pool, new_pool, add_new_pool, change_pool_state, get_pool,
  int8, get_pool_by_tokens_and_fee, pool_by_tokens_and_fee, write_state,
}
use ibswap_api.Registry.Invariant.{IsValid, get_elem?-lt}

index_pool-found :
    (q : Pool) (p : ℕ) (r : Registry)
    → pool_by_tokens_and_fee (index_pool q p r) q.token0 q.token1 q.fee_rate ≡ some p
unfolding pool_by_tokens_and_fee
index_pool-found q p r = simp lookup-insert_self

-- When no V2 pool has its contract, a V3 pool that `AddPool` stored (as the watchers of NFTs and of
-- the factory do) is found by its tokens and fee, and by its contract.
pub added_pool_found :
    (contract t0 t1 : Text) (fee_rate : ℤ) (r : Registry)
    → lookup contract r.pool_m_v2 ≡ none
    → let r' = (add_new_pool none contract (pos 3) t0 t1 fee_rate r).1 in
      (get_pool_by_tokens_and_fee r' t0 t1 fee_rate
        ≡ some (new_pool contract (pos 3) t0 t1 fee_rate))
      × (get_pool r' contract ≡ some (new_pool contract (pos 3) t0 t1 fee_rate))
unfolding add_new_pool get_pool get_pool_by_tokens_and_fee int8 lookup insert
added_pool_found contract t0 t1 fee_rate r absent = (
  rw (index_pool-found q (length r.pool_heap) r) (get_elem?-append_length r.pool_heap q []),
  rw (absent, lookup-insert_self contract (length r.pool_heap) r.pool_m_v3)
      (get_elem?-append_length r.pool_heap q []),
)
  where
    q : Pool
    q = new_pool contract (pos 3) t0 t1 fee_rate

-- `ChangePoolState` of a V3 pool, when the database answers without error, no V2 pool has the
-- contract and the lookup by tokens and fee has the same pointer as the one by contract: both
-- lookups give the pool with the new state and nothing else changed, and the pool behind any other
-- pointer `i` is what it was.
pub changed_state_seen :
    (contract t0 t1 : Text) (fee state : ℤ) (p i : ℕ) (q : Pool) (r : Registry)
    → lookup contract r.pool_m_v3 ≡ some p
    → lookup contract r.pool_m_v2 ≡ none
    → pool_by_tokens_and_fee r t0 t1 fee ≡ some p
    → get_elem? r.pool_heap p ≡ some q
    → p ≢ i
    → let r' = (change_pool_state none contract state r).1 in
      (get_pool r' contract ≡ some (record q { state = state }))
      × (get_pool_by_tokens_and_fee r' t0 t1 fee ≡ some (record q { state = state }))
      × (get_elem? r'.pool_heap i ≡ get_elem? r.pool_heap i)
unfolding change_pool_state get_pool get_pool_by_tokens_and_fee
changed_state_seen contract t0 t1 fee state p i q r v3 v2 by_tokens held ne =
    rw (v3, change_pool_state, held, write_state)
      (rw (v2, v3, get_pool) stored, seen, get_elem?-set_ne r.pool_heap p i _ ne)
  where
    heap : List Pool
    heap = set r.pool_heap p (record q { state = state })

    stored : get_elem? heap p ≡ some (record q { state = state })
    stored = get_elem?-set_self r.pool_heap p _ (get_elem?-lt r.pool_heap p q held)

    pointer : pool_by_tokens_and_fee (record r { pool_heap = heap }) t0 t1 fee ≡ some p
    pointer = unfold pool_by_tokens_and_fee in by_tokens

    seen :
        get_pool_by_tokens_and_fee (record r { pool_heap = heap }) t0 t1 fee
        ≡ some (record q { state = state })
    seen = rw (pointer, get_pool_by_tokens_and_fee) stored

-- In a valid registry, what `GetCoin` finds has the contract that it was asked for.
pub get_coin-contract :
    (r : Registry) (t : Text) (c : Coin) → IsValid r → get_coin r t ≡ some c → c.contract ≡ t
unfolding get_coin
get_coin-contract r t c v h = elim (Option-cases (lookup t r.coin_m)) [
  | inl e ↦ cc (rw (e, get_coin) at h)
  | inr (p, e) ↦ let (a, f, same) = v.coin_keys t p e in cc (rw (e, get_coin, f) at h, same)
]
