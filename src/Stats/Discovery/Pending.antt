-- ===== src/Stats/Discovery/Pending.antt =====
-- service/task.go: what holds between the calls of a message, when a pool may be in the registry that
-- has no statistics yet.
use ibswap_api.Common.{
  ℕ, ◌≡◌, refl, ap, subst, sym, ◌∙◌, ◌⊎◌, inl, inr, true, false, Option, none, some, List, [], ◌∷◌,
  All, All-weaken, Bool-cases, Option-cases,
}
use ibswap_api.Common.Int.{ℤ, pos}
use ibswap_api.Common.Eq.{Text, text_eq, text_eq_iff, text_eq_instance}
use ibswap_api.Common.Dict.{Dict, lookup, lookup-insert}
use ibswap_api.Chain.Types
use ibswap_api.Chain.Types.{NftToken, mint, burn, transfer}
use ibswap_api.Registry
use ibswap_api.Registry.{
  Registry, add_new_pool, add_pool, new_pool, int8, get_pool_by_tokens_and_fee,
}
use ibswap_api.Registry.Adding.{add_pool-IsValid}
use ibswap_api.Registry.Listing.{HasKey, HasKey-insert, HasKey-insert_same, add_pool-IsListed}
use ibswap_api.Registry.Steady.{Steady}
use ibswap_api.Stats.Ticks.{Globals, new_reserves}
use ibswap_api.Stats.Ticks.Description.{IsKept}
use ibswap_api.Stats.Start.{init_pool_stat_real}
use ibswap_api.Stats.Discovery.{
  CoinAnswers, deleted, moved, stored, started, State, Found, from_nft, from_factory,
}
use ibswap_api.Stats.Discovery.Kept.{AllKept, init_pool_stat_real-IsKept, init_pool_stat_real_keeps}
use ibswap_api.Stats.Discovery.Grounded.{Grounded, Grounded-Steady, IsHeld, add_coin_of-Steady}
use ibswap_api.Stats.Discovery.Calls.{
  TaskCall, learns, opens, does, enter_nft, enter_factory, enter, perform,
}

-- The pool is still to get its statistics.
abbrev pub IsPending : Text → List TaskCall → Type 0
IsPending k [] = ⊥
IsPending k (opens p ∷ cs) = (text_eq k p.contract ≡ true) ⊎ IsPending k cs
IsPending k (learns a t ∷ cs) = IsPending k cs
IsPending k (does e ∷ cs) = IsPending k cs

-- A pool that is to get its statistics is a V3 pool of the registry; no watcher is started without them.
abbrev pub IsEntered : Registry → TaskCall → Type 0
IsEntered r (opens p) = HasKey r.pool_m_v3 p.contract
IsEntered r (learns a t) = Unit
IsEntered r (does (started b)) = ⊥
IsEntered r (does (deleted i c)) = Unit
IsEntered r (does (moved i c u)) = Unit
IsEntered r (does (stored i c u p t0 t1 f)) = Unit

-- Between the calls: a V3 pool without statistics is one that is still to get them.
pub record InHand (s : State) (cs : List TaskCall) : Type 0 where
  pub grounded : Grounded s
  pub held : IsHeld s.globals
  pub kept :
      (k : Text) (p : ℕ)
      → lookup k s.registry.pool_m_v3 ≡ some p
      → IsKept s.globals k ⊎ IsPending k cs
  pub entered : All (IsEntered s.registry) cs

-- Between two messages.
pub AllKept-InHand : (s : State) → Grounded s → AllKept s → InHand s []
AllKept-InHand s g kept = record {
  grounded = g;
  held = λ k. elim (g.domain k) [ inl e ↦ inl e | inr (p, e) ↦ inr (kept k p e) ];
  kept = λ k p f. inl (kept k p f);
  entered = tt;
}

entered_same :
    (r r' : Registry) (cs : List TaskCall)
    → r'.pool_m_v3 ≡ r.pool_m_v3
    → All (IsEntered r) cs
    → All (IsEntered r') cs
entered_same r r' cs e h = All-weaken cs each h
  where
    each : (c : TaskCall) → IsEntered r c → IsEntered r' c
    each (opens p) h = subst (λ (d : Dict Text ℕ). HasKey d p.contract) (sym e) h
    each (learns a t) h = tt
    each (does (started b)) h = h
    each (does (deleted i c)) h = tt
    each (does (moved i c u)) h = tt
    each (does (stored i c u p t0 t1 f)) h = tt

-- The registry is `Steady`, and the maps keep what they had.
pub InHand-later :
    (s s' : State) (cs : List TaskCall)
    → Steady s.registry s'.registry
    → ((k : Text) → IsKept s.globals k → IsKept s'.globals k)
    → Grounded s'
    → IsHeld s'.globals
    → InHand s cs
    → InHand s' cs
InHand-later s s' cs steady up g held h = record {
  grounded = g;
  held = held;
  kept = λ k p f. elim (h.kept k p (ap (lookup k) (sym steady.v3) ∙ f)) [
    | inl i ↦ inl (up k i)
    | inr w ↦ inr w
  ];
  entered = entered_same s.registry s'.registry cs steady.v3 h.entered;
}

-- Calls that leave what there is.
waiting :
    (s : State) (cs : List TaskCall) → All (IsEntered s.registry) cs → InHand s [] → InHand s cs
waiting s cs e h = record {
  grounded = h.grounded;
  held = h.held;
  kept = λ k p f. elim (h.kept k p f) [ inl i ↦ inl i | inr w ↦ absurd w ];
  entered = e;
}

-- The state after `AddPool`.
abbrev with_pool : Text → Text → Text → ℤ → State → State
with_pool contract t0 t1 fee s = record s {
  registry = (add_new_pool none contract (pos 3) t0 t1 fee s.registry).1;
}

with_pool-HasKey :
    (contract t0 t1 : Text) (fee : ℤ) (s : State)
    → HasKey (with_pool contract t0 t1 fee s).registry.pool_m_v3 contract
unfolding add_new_pool add_pool int8
with_pool-HasKey contract t0 t1 fee s =
    HasKey-insert_same contract contract _ s.registry.pool_m_v3
      ((text_eq_iff contract contract).1 refl)

found_before :
    (contract t0 t1 : Text) (fee : ℤ) (s : State) (k : Text) (p : ℕ)
    → text_eq k contract ≡ false
    → lookup k (with_pool contract t0 t1 fee s).registry.pool_m_v3 ≡ some p
    → lookup k s.registry.pool_m_v3 ≡ some p
unfolding add_new_pool add_pool int8
found_before contract t0 t1 fee s k p other f =
    sym (lookup-insert k contract _ s.registry.pool_m_v3 ∙ rw other refl) ∙ f

with_pool-InHand :
    (contract t0 t1 : Text) (fee : ℤ) (s : State) (cs : List TaskCall)
    → ((k : Text) → text_eq k contract ≡ true → IsPending k cs)
    → All (IsEntered (with_pool contract t0 t1 fee s).registry) cs
    → InHand s []
    → InHand (with_pool contract t0 t1 fee s) cs
unfolding add_new_pool
with_pool-InHand contract t0 t1 fee s cs pends e h = record {
  grounded = record {
    valid = add_pool-IsValid (new_pool contract (pos 3) t0 t1 fee) s.registry h.grounded.valid;
    listed = add_pool-IsListed (new_pool contract (pos 3) t0 t1 fee) s.registry h.grounded.listed;
    domain = λ k.
        unfold add_pool in
        unfold int8 in
        elim (h.grounded.domain k) [
          | inl f ↦ inl f
          | inr i ↦ inr (HasKey-insert k contract _ s.registry.pool_m_v3 i)
        ];
  };
  held = h.held;
  kept = λ k p f. elim (Bool-cases (text_eq k contract)) [
    | inl same ↦ inr (pends k same)
    | inr other ↦ elim (h.kept k p (found_before contract t0 t1 fee s k p other f)) [
      | inl i ↦ inl i
      | inr w ↦ absurd w
    ]
  ];
  entered = e;
}

none_still :
    (c k : Text) (g : Globals)
    → text_eq k c ≡ false
    → lookup k g.curr_reserves ≡ none
    → lookup k (init_pool_stat_real c g).curr_reserves ≡ none
unfolding init_pool_stat_real
none_still c k g e f = lookup-insert k c new_reserves g.curr_reserves ∙ rw e f

module _ (hex : Text → List ℕ) where
  enter_nft-InHand :
      (i : Option Text) (coins : Text → CoinAnswers) (n : NftToken) (way : Types.Direction)
      (s : State)
      → n.direction ≡ way
      → InHand s []
      → let (s', cs) = enter_nft hex i coins n s in InHand s' cs
  unfolding enter_nft
  enter_nft-InHand i coins n burn s d h = rw (d, enter_nft) (waiting s _ (tt, tt) h)
  enter_nft-InHand i coins n transfer s d h = rw (d, enter_nft) (waiting s _ (tt, tt) h)
  enter_nft-InHand (some m) coins n mint s d h =
      unfold add_new_pool in
      elim (Option-cases (get_pool_by_tokens_and_fee s.registry n.token0 n.token1 n.fee)) [
        | inr (p, e) ↦ rw (d, e, enter_nft) (waiting s _ (tt, (tt, (tt, tt))) h)
        | inl e ↦ rw (d, e, enter_nft) (waiting s _ (tt, (tt, (tt, tt))) h)
      ]
  enter_nft-InHand none coins n mint s d h =
      elim (Option-cases (get_pool_by_tokens_and_fee s.registry n.token0 n.token1 n.fee)) [
        | inr (p, e) ↦ rw (d, e, enter_nft) (waiting s _ (tt, (tt, (tt, tt))) h)
        | inl e ↦
            unfold add_new_pool in
            rw (d, e, enter_nft)
              (with_pool-InHand n.pool n.token0 n.token1 n.fee s _ (λ k same. inl same)
                (with_pool-HasKey n.pool n.token0 n.token1 n.fee s, (tt, (tt, (tt, tt)))) h)
      ]

  enter_factory-InHand :
      (i : Option Text) (coins : Text → CoinAnswers) (c : Types.Pool) (s : State)
      → InHand s []
      → let (s', cs) = enter_factory hex i coins c s in InHand s' cs
  unfolding enter_factory add_new_pool
  enter_factory-InHand (some e) coins c s h = waiting s [] tt h
  enter_factory-InHand none coins c s h =
      with_pool-InHand c.contract c.token0 c.token1 c.fee_rate s _ (λ k same. inl same)
        (tt, (tt, (with_pool-HasKey c.contract c.token0 c.token1 c.fee_rate s, tt))) h

  -- The first call of a message, when none is left of the message before.
  pub enter-InHand :
      (m : Found) (s : State) → InHand s [] → let (s', cs) = enter hex m s in InHand s' cs
  unfolding enter
  enter-InHand (from_nft i coins n) s h = enter_nft-InHand i coins n n.direction s refl h
  enter-InHand (from_factory i coins c) s h = enter_factory-InHand i coins c s h

  -- A pool that is opened has its statistics.
  opens-InHand :
      (p : Registry.Pool) (cs : List TaskCall) (s : State)
      → InHand s (opens p ∷ cs)
      → InHand (record s { globals = init_pool_stat_real p.contract s.globals }) cs
  opens-InHand p cs s h =
      let k0 = p.contract in
      let g' = init_pool_stat_real k0 s.globals in
      let own = λ (k : Text) (e : text_eq k k0 ≡ true).
        subst (IsKept g') (sym ((text_eq_iff k k0).0 e))
          (init_pool_stat_real-IsKept k0 s.globals) in
      record {
        grounded = record {
          valid = h.grounded.valid;
          listed = h.grounded.listed;
          domain = λ k. elim (Bool-cases (text_eq k k0)) [
            | inl e ↦
                inr (subst (HasKey s.registry.pool_m_v3) (sym ((text_eq_iff k k0).0 e)) h.entered.0)
            | inr e ↦ elim (h.grounded.domain k) [
              | inl f ↦ inl (none_still k0 k s.globals e f)
              | inr i ↦ inr i
            ]
          ];
        };
        held = λ k. elim (Bool-cases (text_eq k k0)) [
          | inl e ↦ inr (own k e)
          | inr e ↦ elim (h.held k) [
            | inl f ↦ inl (none_still k0 k s.globals e f)
            | inr i ↦ inr (init_pool_stat_real_keeps k0 k s.globals i)
          ]
        ];
        kept = λ k j f. elim (h.kept k j f) [
          | inl i ↦ inl (init_pool_stat_real_keeps k0 k s.globals i)
          | inr (inl e) ↦ inl (own k e)
          | inr (inr w) ↦ inr w
        ];
        entered = h.entered.1;
      }

  pub perform-InHand :
      (c : TaskCall) (cs : List TaskCall) (s : State)
      → InHand s (c ∷ cs)
      → InHand (perform hex c s).0 cs
  unfolding perform
  perform-InHand (opens p) cs s h = opens-InHand p cs s h
  perform-InHand (does e) cs s h = record {
    grounded = h.grounded;
    held = h.held;
    kept = h.kept;
    entered = h.entered.1;
  }
  perform-InHand (learns a t) cs s h =
      let steady = add_coin_of-Steady a t s.registry in
      InHand-later s _ cs steady (λ k i. i)
        (Grounded-Steady s.registry _ s.globals steady h.grounded) h.held
        (record { grounded = h.grounded; held = h.held; kept = h.kept; entered = h.entered.1 })
