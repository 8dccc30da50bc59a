-- ===== src/Stats/Discovery/Grounded.antt =====
-- service/task.go: what the tasks that find pools keep between the registry and the statistics, and
-- which watcher a message starts.
use ibswap_api.Common.{
  false, ℕ, ◌≡◌, refl, ap, ◌∙◌, ◌⊎◌, inl, inr, Option, none, some, List, [], ◌∷◌, All, All-append,
  Bool-cases, Option-cases,
}
use ibswap_api.Common.Int.{ℤ, pos}
use ibswap_api.Common.Eq.{Text, text_eq, text_eq_instance}
use ibswap_api.Common.Dict.{lookup, lookup-insert}
use ibswap_api.Common.Outcome.{Result-cases}
use ibswap_api.Chain.Types
use ibswap_api.Chain.Types.{NftToken, mint, burn, transfer}
use ibswap_api.Registry
use ibswap_api.Registry.{
  Registry, add_new_pool, add_pool, new_pool, get_coins, get_pool_by_tokens_and_fee, int8,
}
use ibswap_api.Registry.Invariant.{IsValid}
use ibswap_api.Registry.Adding.{add_pool-IsValid}
use ibswap_api.Registry.Listing.{
  IsListed, HasKey, HasKey-insert, HasKey-insert_same, add_pool-IsListed,
}
use ibswap_api.Registry.Steady.{Steady, Steady-refl, Steady-trans, add_token-Steady}
use ibswap_api.Stats.Ticks.{Globals, new_reserves}
use ibswap_api.Stats.Ticks.Description.{OfPool, At, IsKept}
use ibswap_api.Stats.Window.{new_volumes}
use ibswap_api.Stats.Start.{init_pool_stat_real}
use ibswap_api.Stats.Start.Batches.{entry}
use ibswap_api.Stats.Discovery.{
  CoinAnswers, has_coin, add_coin_of, Effect, deleted, moved, stored, started, State, Found,
  from_nft, from_factory, enter_pool, deal_nft, deal_factory, deal_found, add_coins,
}
use ibswap_api.Stats.Discovery.Kept.{init_pool_stat_real-IsKept}

-- The registry's invariants, and what has current reserves is a V3 pool of the registry.
pub record Grounded (s : State) : Type 0 where
  pub valid : IsValid s.registry
  pub listed : IsListed s.registry
  pub domain :
      (k : Text) → (lookup k s.globals.curr_reserves ≡ none) ⊎ HasKey s.registry.pool_m_v3 k

-- What has current reserves has all its statistics.
abbrev pub IsHeld : Globals → Type 0
IsHeld g = (k : Text) → (lookup k g.curr_reserves ≡ none) ⊎ IsKept g k

pub add_coin_of-Steady : (a : CoinAnswers) (c : Text) (r : Registry) → Steady r (add_coin_of a c r)
unfolding add_coin_of
add_coin_of-Steady a c r = elim (Bool-cases (has_coin c (get_coins r))) [
  | inl known ↦ rw known (Steady-refl r)
  | inr fresh ↦ elim (Option-cases a.bind_error) [
    | inr (m, e) ↦ rw (fresh, e) (Steady-refl r)
    | inl e ↦ elim (Result-cases a.decimals) [
      | inl (m, f) ↦ rw (fresh, e, f) (Steady-refl r)
      | inr (d, f) ↦ elim (Result-cases a.symbol) [
        | inl (m, g) ↦ rw (fresh, e, f, g) (Steady-refl r)
        | inr (s, g) ↦
            rw (fresh, e, f, g) (add_token-Steady a.insert_error s c s (pos d) (pos 1) (pos 0) r)
      ]
    ]
  ]
]

pub Grounded-Steady :
    (r r' : Registry) (g : Globals)
    → Steady r r'
    → Grounded (record { registry = r; globals = g })
    → Grounded (record { registry = r'; globals = g })
Grounded-Steady r r' g h s = record {
  valid = h.valid s.valid;
  listed = h.listed s.listed;
  domain = λ k. elim (s.domain k) [ inl e ↦ inl e | inr (p, e) ↦ inr (p, ap (lookup k) h.v3 ∙ e) ];
}

-- A V3 pool that is entered, with its statistics.
added-Grounded :
    (s : State) (contract t0 t1 : Text) (fee : ℤ)
    → Grounded s
    → Grounded (record {
      registry = (add_new_pool none contract (pos 3) t0 t1 fee s.registry).1;
      globals = init_pool_stat_real contract s.globals;
    })
unfolding add_new_pool init_pool_stat_real
added-Grounded s contract t0 t1 fee h = record {
  valid = add_pool-IsValid (new_pool contract (pos 3) t0 t1 fee) s.registry h.valid;
  listed = add_pool-IsListed (new_pool contract (pos 3) t0 t1 fee) s.registry h.listed;
  domain = λ k.
      unfold add_pool in
      unfold int8 in
      elim (Bool-cases (text_eq k contract)) [
        | inl e ↦ inr (HasKey-insert_same k contract _ s.registry.pool_m_v3 e)
        | inr e ↦ elim (h.domain k) [
          | inl f ↦ inl (lookup-insert k contract new_reserves s.globals.curr_reserves ∙ rw e f)
          | inr i ↦ inr (HasKey-insert k contract _ s.registry.pool_m_v3 i)
        ]
      ];
}

pub added-others :
    (j c : Text) (q : OfPool) (g : Globals)
    → text_eq j c ≡ false
    → At j g q
    → At j (init_pool_stat_real c g) q
unfolding init_pool_stat_real
added-others j c q g n h = record {
  utc0_found = lookup-insert j c new_reserves g.utc0_reserves ∙ rw n h.utc0_found;
  curr_found = lookup-insert j c new_reserves g.curr_reserves ∙ rw n h.curr_found;
  volumes_found = lookup-insert j c new_volumes g.volumes_24h ∙ rw n h.volumes_found;
}

-- A message starts only the watcher of its own pool, which has its statistics.
abbrev pub StartsOwn : (Text → List ℕ) → Text → Globals → Effect → Type 0
StartsOwn hex k g (started b) =
    (q : Registry.Pool) × (b ≡ entry hex q ∷ []) × (q.contract ≡ k) × IsKept g k
StartsOwn hex k g (deleted i c) = Unit
StartsOwn hex k g (moved i c u) = Unit
StartsOwn hex k g (stored i c u p t0 t1 f) = Unit

-- The pool of a message.
abbrev pub pool_of : Found → Text
pool_of (from_nft e coins n) = n.pool
pool_of (from_factory e coins c) = c.contract

module _ (hex : Text → List ℕ) where
  add_coins-Grounded :
      (coins : Text → CoinAnswers) (t0 t1 : Text) (s : State)
      → Grounded s
      → Grounded (add_coins hex coins t0 t1 s)
  add_coins-Grounded coins t0 t1 s = Grounded-Steady s.registry _ s.globals (
      Steady-trans _ _ _ (add_coin_of-Steady (coins t0) t0 s.registry)
        (add_coin_of-Steady (coins t1) t1 (add_coin_of (coins t0) t0 s.registry)))

  -- What a message does, for its pool `k`.
  pub record Enters (k : Text) (s s' : State) (es : List Effect) : Type 0 where
    pub grounded : Grounded s → Grounded s'
    pub starts : All (StartsOwn hex k s'.globals) es
    pub others :
        (j : Text) (q : OfPool) → text_eq j k ≡ false → At j s.globals q → At j s'.globals q

  nothing-Enters : (k : Text) (s : State) → Enters k s s []
  nothing-Enters k s = record { grounded = λ h. h; starts = tt; others = λ j q n h. h }

  -- The pool is entered, and its watcher started.
  entered-Enters :
      (s : State) (contract t0 t1 : Text) (fee : ℤ)
      → Enters contract s
          (record {
            registry = (add_new_pool none contract (pos 3) t0 t1 fee s.registry).1;
            globals = init_pool_stat_real contract s.globals;
          })
          (started (entry hex (new_pool contract (pos 3) t0 t1 fee) ∷ []) ∷ [])
  entered-Enters s contract t0 t1 fee = record {
    grounded = added-Grounded s contract t0 t1 fee;
    starts = (
      (
        new_pool contract (pos 3) t0 t1 fee,
        refl,
        refl,
        init_pool_stat_real-IsKept contract s.globals,
      ),
      tt,
    );
    others = λ j q n h. added-others j contract q s.globals n h;
  }

  deal_factory-Enters :
      (i : Option Text) (coins : Text → CoinAnswers) (c : Types.Pool) (s : State)
      → let after = deal_factory hex i coins c s in Enters c.contract s after.0 after.1
  unfolding deal_factory add_new_pool
  deal_factory-Enters (some e) coins c s = nothing-Enters c.contract s
  deal_factory-Enters none coins c s =
      let e = entered-Enters s c.contract c.token0 c.token1 c.fee_rate in
      record {
        grounded = λ h. add_coins-Grounded coins c.token0 c.token1 _ (e.grounded h);
        starts = e.starts;
        others = e.others;
      }

  enter_pool-Enters :
      (i : Option Text) (n : NftToken) (s : State)
      → let after = enter_pool hex i n s in Enters n.pool s after.0 after.1
  unfolding enter_pool add_new_pool
  enter_pool-Enters (some m) n s =
      elim (Option-cases (get_pool_by_tokens_and_fee s.registry n.token0 n.token1 n.fee)) [
        | inr (p, e) ↦ rw (e, enter_pool) (nothing-Enters n.pool s)
        | inl e ↦ rw (e, enter_pool) (nothing-Enters n.pool s)
      ]
  enter_pool-Enters none n s =
      elim (Option-cases (get_pool_by_tokens_and_fee s.registry n.token0 n.token1 n.fee)) [
        | inr (p, e) ↦ rw (e, enter_pool) (nothing-Enters n.pool s)
        | inl e ↦ rw (e, enter_pool) (entered-Enters s n.pool n.token0 n.token1 n.fee)
      ]

  deal_nft-Enters :
      (i : Option Text) (coins : Text → CoinAnswers) (n : NftToken) (way : Types.Direction)
      (s : State)
      → n.direction ≡ way
      → let after = deal_nft hex i coins n s in Enters n.pool s after.0 after.1
  unfolding deal_nft
  deal_nft-Enters i coins n burn s d =
      rw d (record { grounded = λ h. h; starts = (tt, tt); others = λ j q n h. h })
  deal_nft-Enters i coins n transfer s d =
      rw d (record { grounded = λ h. h; starts = (tt, tt); others = λ j q n h. h })
  deal_nft-Enters i coins n mint s d =
      let e = enter_pool-Enters i n s in
      rw d (record {
        grounded = λ h. add_coins-Grounded coins n.token0 n.token1 _ (e.grounded h);
        starts = All-append (StartsOwn hex n.pool _) _ _ e.starts (tt, tt);
        others = e.others;
      })

  pub deal_found-Enters :
      (m : Found) (s : State)
      → let after = deal_found hex m s in Enters (pool_of m) s after.0 after.1
  unfolding deal_found
  deal_found-Enters (from_nft i coins n) s = deal_nft-Enters i coins n n.direction s refl
  deal_found-Enters (from_factory i coins c) s = deal_factory-Enters i coins c s
