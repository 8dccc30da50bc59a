-- ===== src/Registry/Listing.antt =====
-- The list and the map of V3 pools of model/public.go: every pool of the list is in the map.
use mathlib.Core.List.{Memᴰ}
use mathlib.Core.List.Memᴰ
use ibswap_api.Common.{
  get_elem?, sym, ℕ, true, ◌≡◌, refl, ◌∙◌, ap, inl, inr, Option, none, some, List, [], ◌∷◌, ◌++◌,
  length, All, All-append, All-weaken, Bool-cases, Option-cases,
}
use ibswap_api.Common.Int.{ℤ, pos, eqb_ℤ}
use ibswap_api.Common.Eq.{Text, text_eq, text_eq_instance}
use ibswap_api.Common.Dict.{Dict, lookup, insert, lookup-insert, lookup-insert_self, insert-cases}
use ibswap_api.Common.Outcome.{Result, value, error}
use ibswap_api.Registry.{
  Pool, Coin, scan_pools, load_pools, init_coins_and_pools, Registry, add_pool, add_token, add_coin,
  change_pool_state, change_token_public, get_pools, load_all, pools_of,
}
use ibswap_api.Registry.Invariant.{IsValid, Holds, Holds-append, Holds-new}
use ibswap_api.Registry.Writing.{
  Rewritten, Rewritten-Holds, SamePool, get_pools-IsValid, name_pools-Rewritten,
  write_state-Rewritten,
}

abbrev pub HasKey : Dict Text ℕ → Text → Type 0
HasKey d k = (p : ℕ) × (lookup k d ≡ some p)

-- Every pool of the list is in the map.
pub record IsListed (r : Registry) : Type 0 where
  pub in_map : All (Holds r.pool_heap (λ q. HasKey r.pool_m_v3 q.contract)) r.pools_v3

pub HasKey-insert : (k c : Text) (p : ℕ) (d : Dict Text ℕ) → HasKey d k → HasKey (insert c p d) k
HasKey-insert k c p d (i, h) = elim (Bool-cases (text_eq k c)) [
  | inl e ↦ (p, lookup-insert k c p d ∙ rw e refl)
  | inr e ↦ (i, lookup-insert k c p d ∙ rw e h)
]

pub HasKey-insert_same :
    (k c : Text) (p : ℕ) (d : Dict Text ℕ) → text_eq k c ≡ true → HasKey (insert c p d) k
HasKey-insert_same k c p d e = (p, lookup-insert k c p d ∙ rw e refl)

pools-Rewritten-IsListed :
    (r : Registry) (heap : List Pool)
    → Rewritten SamePool r.pool_heap heap
    → IsListed r
    → IsListed (record r { pool_heap = heap })
pools-Rewritten-IsListed r heap w h = record {
  in_map =
      All-weaken r.pools_v3
        (λ p i.
          Rewritten-Holds r.pool_heap heap
            (λ a b s (j, f). (j, ap (λ t. lookup t r.pool_m_v3) s.contract ∙ f)) w p i)
        h.in_map;
}

pub get_pools-IsListed : (v : ℤ) (r : Registry) → IsListed r → IsListed (get_pools v r).1
unfolding get_pools
get_pools-IsListed v r h =
    pools-Rewritten-IsListed r _ (name_pools-Rewritten r r.pool_heap (pools_of v r)) h

pub change_pool_state-IsListed :
    (e : Option Text) (contract : Text) (state : ℤ) (r : Registry)
    → IsListed r
    → IsListed (change_pool_state e contract state r).1
unfolding change_pool_state
change_pool_state-IsListed (some e) contract state r h = h
change_pool_state-IsListed none contract state r h =
    elim (Option-cases (lookup contract r.pool_m_v3)) [
      | inl e ↦ rw (e, change_pool_state) h
      | inr (p, e) ↦
          rw (e, change_pool_state)
            (pools-Rewritten-IsListed r _ (write_state-Rewritten state r.pool_heap p) h)
    ]

pub change_token_public-IsListed :
    (e : Option Text) (contract : Text) (public : ℤ) (r : Registry)
    → IsListed r
    → IsListed (change_token_public e contract public r).1
unfolding change_token_public
change_token_public-IsListed (some e) contract public r h = h
change_token_public-IsListed none contract public r h =
    elim (Option-cases (lookup contract r.coin_m)) [
      | inl e ↦ rw (e, change_token_public) h
      | inr (p, e) ↦ rw (e, change_token_public) (record { in_map = h.in_map })
    ]

pub add_token-IsListed :
    (e : Option Text) (s c k : Text) (d t p : ℤ) (r : Registry)
    → IsListed r
    → IsListed (add_token e s c k d t p r).1
unfolding add_token add_coin
add_token-IsListed (some e) s c k d t p r h = h
add_token-IsListed none s c k d t p r h = record { in_map = h.in_map }

pub add_pool-IsListed : (q : Pool) (r : Registry) → IsListed r → IsListed (add_pool q r)
unfolding add_pool
add_pool-IsListed q r h = elim (Bool-cases (eqb_ℤ q.version (pos 2))) [
  | inl two ↦ rw two (record { in_map = kept })
  | inr not_two ↦ rw not_two (elim (Bool-cases (eqb_ℤ q.version (pos 3))) [
    | inl three ↦ rw three (record {
      in_map =
          All-append _ r.pools_v3 _
            (All-weaken r.pools_v3
              (λ p (a, e, i).
                (a, e, HasKey-insert a.contract q.contract (length r.pool_heap) r.pool_m_v3 i))
              kept)
            (
              Holds-new r.pool_heap q
                  (length r.pool_heap, lookup-insert_self q.contract _ r.pool_m_v3),
              tt,
            );
    })
    | inr other ↦ rw other (record { in_map = kept })
  ])
]
  where
    kept : All (Holds (r.pool_heap ++ q ∷ []) (λ x. HasKey r.pool_m_v3 x.contract)) r.pools_v3
    kept = All-weaken r.pools_v3 (Holds-append r.pool_heap q) h.in_map

load_all-All :
    {A : Type 0} (P : A → Type 0) (heap : List A) (ps : List ℕ)
    → All (Holds heap P) ps
    → All P (load_all heap ps)
load_all-All P heap [] h = tt
load_all-All P heap (p ∷ ps) ((a, e, i), h) = rw (e, All, load_all) (i, load_all-All P heap ps h)

-- The pools that `GetPools` gives have their contracts in the map.
pub get_pools-HasKey :
    (r : Registry) → IsListed r → All (λ q. HasKey r.pool_m_v3 q.contract) (get_pools (pos 3) r).0
unfolding get_pools
get_pools-HasKey r h = load_all-All _ _ r.pools_v3 (get_pools-IsListed (pos 3) r h).in_map

-- Every pool of the map is in the list.
pub record IsComplete (r : Registry) : Type 0 where
  pub in_list : (k : Text) (p : ℕ) → lookup k r.pool_m_v3 ≡ some p → Memᴰ p r.pools_v3

add_pool-IsComplete : (q : Pool) (r : Registry) → IsComplete r → IsComplete (add_pool q r)
unfolding add_pool
add_pool-IsComplete q r h = elim (Bool-cases (eqb_ℤ q.version (pos 2))) [
  | inl two ↦ rw two (record { in_list = h.in_list })
  | inr not_two ↦ rw not_two (elim (Bool-cases (eqb_ℤ q.version (pos 3))) [
    | inl three ↦ rw three (record {
      in_list = λ k p e. elim (insert-cases k q.contract (length r.pool_heap) p r.pool_m_v3 e) [
        | inl (_, same) ↦ Memᴰ.append_right r.pools_v3 (Memᴰ.head same)
        | inr (_, old) ↦ Memᴰ.append_left (length r.pool_heap ∷ []) (h.in_list k p old)
      ];
    })
    | inr other ↦ rw other (record { in_list = h.in_list })
  ])
]

scan_pools-Complete :
    (rows : List (Result Text Pool)) (r : Registry)
    → IsListed r × IsComplete r
    → IsListed (scan_pools rows r) × IsComplete (scan_pools rows r)
unfolding scan_pools
scan_pools-Complete [] r h = h
scan_pools-Complete (error e ∷ rows) r h = scan_pools-Complete rows r h
scan_pools-Complete (value q ∷ rows) r (h, i) =
    scan_pools-Complete rows _ (add_pool-IsListed q r h, add_pool-IsComplete q r i)

nothing_in : (k : Text) (p : ℕ) → lookup k [] ≡ some p → Memᴰ p []
unfolding lookup
nothing_in k p h = absurd (cc h)

-- The registry as it is loaded from the database.
pub init_coins_and_pools-Complete :
    (coins : Result Text (List (Result Text Coin))) (pools : Result Text (List (Result Text Pool)))
    → let r = init_coins_and_pools coins pools in IsListed r × IsComplete r
unfolding init_coins_and_pools load_pools
init_coins_and_pools-Complete coins (error e) =
    (record { in_map = tt }, record { in_list = λ k p h. nothing_in k p h })
init_coins_and_pools-Complete coins (value rows) =
    scan_pools-Complete rows _
      (record { in_map = tt }, record { in_list = λ k p h. nothing_in k p h })

load_all-Memᴰ :
    {A : Type 0} (heap : List A) (ps : List ℕ) (p : ℕ) (a : A)
    → Memᴰ p ps
    → get_elem? heap p ≡ some a
    → Memᴰ a (load_all heap ps)
load_all-Memᴰ heap [] p a m e = elim m [ ]
load_all-Memᴰ heap (q ∷ ps) p a (Memᴰ.head same) e =
    rw (ap (get_elem? heap) (sym same) ∙ e, load_all) (Memᴰ.head refl)
load_all-Memᴰ heap (q ∷ ps) p a (Memᴰ.tail m) e = elim (Option-cases (get_elem? heap q)) [
  | inl f ↦ rw (f, load_all) (load_all-Memᴰ heap ps p a m e)
  | inr (b, f) ↦ rw (f, load_all) (Memᴰ.tail (load_all-Memᴰ heap ps p a m e))
]

-- Every V3 pool of the map is among those that `GetPools` gives.
pub get_pools-Complete :
    (r : Registry) (k : Text)
    → IsValid r
    → IsComplete r
    → HasKey r.pool_m_v3 k
    → (q : Pool) × Memᴰ q (get_pools (pos 3) r).0 × (q.contract ≡ k)
unfolding get_pools
get_pools-Complete r k v h (p, e) =
    let (q, f, same) = (get_pools-IsValid (pos 3) r v).v3_keys k p e in
    (q, load_all-Memᴰ _ r.pools_v3 p q (h.in_list k p e) f, same.0)
