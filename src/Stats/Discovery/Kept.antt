-- ===== src/Stats/Discovery/Kept.antt =====
-- The tasks of service/task.go that find pools never start a watcher that would panic.
use ibswap_api.Common.{
  ℕ, ◌≡◌, refl, sym, ap, subst, ◌∙◌, inl, inr, Option, none, some, List, [], ◌∷◌, All, All-append,
  All-weaken, Bool-cases, Option-cases,
}
use ibswap_api.Common.Int.{ℤ, pos}
use ibswap_api.Common.Eq.{Text, text_eq, text_eq_iff, text_eq_instance}
use ibswap_api.Common.Dict.{Dict, lookup, lookup-insert, lookup-insert_self}
use ibswap_api.Common.Outcome.{Result-cases}
use ibswap_api.Chain.Types
use ibswap_api.Chain.Types.{NftToken, mint, burn, transfer}
use ibswap_api.Registry
use ibswap_api.Registry.{
  Registry, add_token, add_new_pool, add_pool, new_pool, add_coin, get_coins, int8,
  get_pool_by_tokens_and_fee,
}
use ibswap_api.Stats.Ticks.{Globals, new_reserves}
use ibswap_api.Stats.Ticks.Description.{IsKept}
use ibswap_api.Stats.Window.{new_volumes}
use ibswap_api.Stats.Start.{init_pool_stat_real}
use ibswap_api.Stats.Start.Batches.{IsKept-keep, entry}
use ibswap_api.Stats.Discovery.{
  CoinAnswers, has_coin, add_coin_of, Effect, deleted, moved, stored, started, State, Found,
  from_nft, from_factory, enter_pool, deal_nft, deal_factory, deal_found, deal_all_found, add_coins,
}

-- Every V3 pool of the registry has its statistics.
abbrev pub AllKept : State → Type 0
AllKept s = (k : Text) (p : ℕ) → lookup k s.registry.pool_m_v3 ≡ some p → IsKept s.globals k

-- A watcher is of one pool, which has its statistics.
abbrev pub StartsKept : (Text → List ℕ) → Globals → Effect → Type 0
StartsKept hex g (started b) = (q : Registry.Pool) × (b ≡ entry hex q ∷ []) × IsKept g q.contract
StartsKept hex g (deleted i c) = Unit
StartsKept hex g (moved i c u) = Unit
StartsKept hex g (stored i c u p t0 t1 f) = Unit

pub init_pool_stat_real-IsKept : (c : Text) (g : Globals) → IsKept (init_pool_stat_real c g) c
unfolding init_pool_stat_real
init_pool_stat_real-IsKept c g = (
  _,
  record {
    utc0_found = lookup-insert_self c new_reserves g.utc0_reserves;
    curr_found = lookup-insert_self c new_reserves g.curr_reserves;
    volumes_found = lookup-insert_self c new_volumes g.volumes_24h;
  },
)

pub init_pool_stat_real_keeps :
    (c k : Text) (g : Globals) → IsKept g k → IsKept (init_pool_stat_real c g) k
unfolding init_pool_stat_real
init_pool_stat_real_keeps c k g h = IsKept-keep c k new_reserves new_reserves new_volumes g h

pool_m_v3-add_token :
    (i : Option Text) (s c code : Text) (d t public : ℤ) (r : Registry)
    → (add_token i s c code d t public r).1.pool_m_v3 ≡ r.pool_m_v3
unfolding add_token add_coin
pool_m_v3-add_token none s c code d t public r = refl
pool_m_v3-add_token (some e) s c code d t public r = refl

pool_m_v3-add_coin_of :
    (a : CoinAnswers) (c : Text) (r : Registry) → (add_coin_of a c r).pool_m_v3 ≡ r.pool_m_v3
unfolding add_coin_of
pool_m_v3-add_coin_of a c r = elim (Bool-cases (has_coin c (get_coins r))) [
  | inl known ↦ rw known refl
  | inr fresh ↦ elim (Option-cases a.bind_error) [
    | inr (m, e) ↦ rw (fresh, e) refl
    | inl e ↦ elim (Result-cases a.decimals) [
      | inl (m, f) ↦ rw (fresh, e, f) refl
      | inr (d, f) ↦ elim (Result-cases a.symbol) [
        | inl (m, g) ↦ rw (fresh, e, f, g) refl
        | inr (s, g) ↦
            rw (fresh, e, f, g) (pool_m_v3-add_token a.insert_error s c s (pos d) (pos 1) (pos 0) r)
      ]
    ]
  ]
]

-- A pool that is added, with its statistics.
added-AllKept :
    (s : State) (contract t0 t1 : Text) (fee : ℤ)
    → AllKept s
    → AllKept (record {
      registry = (add_new_pool none contract (pos 3) t0 t1 fee s.registry).1;
      globals = init_pool_stat_real contract s.globals;
    })
unfolding add_new_pool add_pool int8
added-AllKept s contract t0 t1 fee all k p h = elim (Bool-cases (text_eq k contract)) [
  | inl e ↦
      subst (λ j. IsKept (init_pool_stat_real contract s.globals) j)
        (sym ((text_eq_iff k contract).0 e)) (init_pool_stat_real-IsKept contract s.globals)
  | inr e ↦
      init_pool_stat_real_keeps contract k s.globals
        (all k p (sym (lookup-insert k contract _ s.registry.pool_m_v3 ∙ rw e refl) ∙ h))
]

module _ (hex : Text → List ℕ) where
  -- What a message does to the state: nothing is lost, and what is started has its statistics.
  pub record Moves (s s' : State) (es : List Effect) : Type 0 where
    pub all : AllKept s → AllKept s'
    pub kept : (k : Text) → IsKept s.globals k → IsKept s'.globals k
    pub starts : All (StartsKept hex s'.globals) es

  add_coins-AllKept :
      (coins : Text → CoinAnswers) (t0 t1 : Text) (s : State)
      → AllKept s
      → AllKept (add_coins hex coins t0 t1 s)
  add_coins-AllKept coins t0 t1 s all k p h = all k p (
      sym (
        ap (λ (d : Dict Text ℕ). lookup k d)
          (pool_m_v3-add_coin_of (coins t1) t1 (add_coin_of (coins t0) t0 s.registry)
            ∙ pool_m_v3-add_coin_of (coins t0) t0 s.registry))
      ∙ h)

  stays : (s : State) → Moves s s []
  stays s = record { all = λ a. a; kept = λ k h. h; starts = tt }

  deal_factory-Moves :
      (i : Option Text) (coins : Text → CoinAnswers) (c : Types.Pool) (s : State)
      → let after = deal_factory hex i coins c s in Moves s after.0 after.1
  unfolding deal_factory add_new_pool
  deal_factory-Moves (some e) coins c s = stays s
  deal_factory-Moves none coins c s = record {
    all = λ a.
        add_coins-AllKept coins c.token0 c.token1 _
          (added-AllKept s c.contract c.token0 c.token1 c.fee_rate a);
    kept = λ k h. init_pool_stat_real_keeps c.contract k s.globals h;
    starts = (
      (
        new_pool c.contract (pos 3) c.token0 c.token1 c.fee_rate,
        refl,
        init_pool_stat_real-IsKept c.contract s.globals,
      ),
      tt,
    );
  }

  enter_pool-Moves :
      (i : Option Text) (n : NftToken) (s : State)
      → let after = enter_pool hex i n s in Moves s after.0 after.1
  unfolding enter_pool add_new_pool
  enter_pool-Moves (some m) n s =
      elim (Option-cases (get_pool_by_tokens_and_fee s.registry n.token0 n.token1 n.fee)) [
        | inr (p, e) ↦ rw (e, enter_pool) (stays s)
        | inl e ↦ rw (e, enter_pool) (stays s)
      ]
  enter_pool-Moves none n s =
      elim (Option-cases (get_pool_by_tokens_and_fee s.registry n.token0 n.token1 n.fee)) [
        | inr (p, e) ↦ rw (e, enter_pool) (stays s)
        | inl e ↦
            rw (e, enter_pool)
              (record {
                all = λ a. added-AllKept s n.pool n.token0 n.token1 n.fee a;
                kept = λ k h. init_pool_stat_real_keeps n.pool k s.globals h;
                starts = (
                  (
                    new_pool n.pool (pos 3) n.token0 n.token1 n.fee,
                    refl,
                    init_pool_stat_real-IsKept n.pool s.globals,
                  ),
                  tt,
                );
              })
      ]

  deal_nft-Moves :
      (i : Option Text) (coins : Text → CoinAnswers) (n : NftToken) (way : Types.Direction)
      (s : State)
      → n.direction ≡ way
      → let after = deal_nft hex i coins n s in Moves s after.0 after.1
  unfolding deal_nft
  deal_nft-Moves i coins n burn s d =
      rw d (record { all = λ a. a; kept = λ k h. h; starts = (tt, tt) })
  deal_nft-Moves i coins n transfer s d =
      rw d (record { all = λ a. a; kept = λ k h. h; starts = (tt, tt) })
  deal_nft-Moves i coins n mint s d =
      let m = enter_pool-Moves i n s in
      rw d (record {
        all = λ a. add_coins-AllKept coins n.token0 n.token1 _ (m.all a);
        kept = m.kept;
        starts = All-append (StartsKept hex _) _ _ m.starts (tt, tt);
      })

  pub deal_found-Moves :
      (m : Found) (s : State) → let after = deal_found hex m s in Moves s after.0 after.1
  unfolding deal_found
  deal_found-Moves (from_nft i coins n) s = deal_nft-Moves i coins n n.direction s refl
  deal_found-Moves (from_factory i coins c) s = deal_factory-Moves i coins c s

  StartsKept-later :
      (g g' : Globals) (e : Effect)
      → ((k : Text) → IsKept g k → IsKept g' k)
      → StartsKept hex g e
      → StartsKept hex g' e
  StartsKept-later g g' (started b) up (q, e, h) = (q, e, up q.contract h)
  StartsKept-later g g' (deleted i c) up h = tt
  StartsKept-later g g' (moved i c u) up h = tt
  StartsKept-later g g' (stored i c u p t0 t1 f) up h = tt

  deal_all_found-Moves :
      (ms : List Found) (s : State) → let after = deal_all_found hex ms s in Moves s after.0 after.1
  unfolding deal_all_found
  deal_all_found-Moves [] s = stays s
  deal_all_found-Moves (m ∷ ms) s =
      let first = deal_found-Moves m s in
      let rest = deal_all_found-Moves ms (deal_found hex m s).0 in
      record {
        all = λ a. rest.all (first.all a);
        kept = λ k h. rest.kept k (first.kept k h);
        starts =
            All-append (StartsKept hex _) _ _
              (All-weaken _ (λ e h. StartsKept-later _ _ e rest.kept h) first.starts) rest.starts;
      }

  -- When every V3 pool of the registry has its statistics (the three maps have an entry for it), then
  -- after any messages to the tasks of NFTs and of the factory, with any answers of the database and
  -- of the token contracts, this is so again, and each watcher that they have started is of one
  -- pool, which has its statistics.
  pub deal_all_found_keeps :
      (ms : List Found) (s : State)
      → AllKept s
      → let after = deal_all_found hex ms s in
        AllKept after.0 × All (StartsKept hex after.0.globals) after.1
  deal_all_found_keeps ms s a = let m = deal_all_found-Moves ms s in (m.all a, m.starts)
