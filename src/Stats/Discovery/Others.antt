-- ===== src/Stats/Discovery/Others.antt =====
-- service/task.go: what the calls of a message leave of the maps, and of the other pools.
use ibswap_api.Common.{
  ℕ, ◌≡◌, refl, inl, inr, false, Option, none, some, List, ◌∷◌, Bool-cases, Option-cases,
}
use ibswap_api.Common.Eq.{Text, text_eq, text_eq_instance}
use ibswap_api.Chain.Types
use ibswap_api.Chain.Types.{NftToken, mint, burn, transfer}
use ibswap_api.Registry.{add_new_pool, get_pool_by_tokens_and_fee}
use ibswap_api.Stats.Ticks.Description.{OfPool, At}
use ibswap_api.Stats.Discovery.{CoinAnswers, State, Found, from_nft, from_factory}
use ibswap_api.Stats.Discovery.Grounded.{pool_of, added-others}
use ibswap_api.Stats.Discovery.Calls.{
  TaskCall, learns, opens, does, enter_nft, enter_factory, enter, perform,
}
use ibswap_api.Stats.Discovery.Pending.{IsPending}

module _ (hex : Text → List ℕ) where
  nft_globals :
      (i : Option Text) (coins : Text → CoinAnswers) (n : NftToken) (way : Types.Direction)
      (s : State)
      → n.direction ≡ way
      → (enter_nft hex i coins n s).0.globals ≡ s.globals
  unfolding enter_nft add_new_pool
  nft_globals i coins n burn s d = rw (d, enter_nft) refl
  nft_globals i coins n transfer s d = rw (d, enter_nft) refl
  nft_globals (some m) coins n mint s d =
      elim (Option-cases (get_pool_by_tokens_and_fee s.registry n.token0 n.token1 n.fee)) [
        | inr (p, e) ↦ rw (d, e, enter_nft) refl
        | inl e ↦ rw (d, e, enter_nft) refl
      ]
  nft_globals none coins n mint s d =
      elim (Option-cases (get_pool_by_tokens_and_fee s.registry n.token0 n.token1 n.fee)) [
        | inr (p, e) ↦ rw (d, e, enter_nft) refl
        | inl e ↦ rw (d, e, enter_nft) refl
      ]

  factory_globals :
      (i : Option Text) (coins : Text → CoinAnswers) (c : Types.Pool) (s : State)
      → (enter_factory hex i coins c s).0.globals ≡ s.globals
  unfolding enter_factory add_new_pool
  factory_globals (some e) coins c s = refl
  factory_globals none coins c s = refl

  -- A call is not about a pool that is not pending.
  pub perform-others :
      (c : TaskCall) (cs : List TaskCall) (s : State) (k : Text) (q : OfPool)
      → (IsPending k (c ∷ cs) → ⊥)
      → At k s.globals q
      → At k (perform hex c s).0.globals q × (IsPending k cs → ⊥)
  unfolding perform
  perform-others (learns a t) cs s k q n at = (at, n)
  perform-others (does e) cs s k q n at = (at, n)
  perform-others (opens p) cs s k q n at = elim (Bool-cases (text_eq k p.contract)) [
    | inl e ↦ absurd (n (inl e))
    | inr e ↦ (added-others k p.contract q s.globals e at, λ w. n (inr w))
  ]

  nft-others :
      (i : Option Text) (coins : Text → CoinAnswers) (n : NftToken) (way : Types.Direction)
      (s : State) (k : Text) (q : OfPool)
      → n.direction ≡ way
      → text_eq k n.pool ≡ false
      → At k s.globals q
      → let (s', cs) = enter_nft hex i coins n s in At k s'.globals q × (IsPending k cs → ⊥)
  unfolding enter_nft add_new_pool
  nft-others i coins n burn s k q d e at = rw (d, enter_nft) (at, λ w. w)
  nft-others i coins n transfer s k q d e at = rw (d, enter_nft) (at, λ w. w)
  nft-others (some m) coins n mint s k q d e at =
      elim (Option-cases (get_pool_by_tokens_and_fee s.registry n.token0 n.token1 n.fee)) [
        | inr (p, f) ↦ rw (d, f, enter_nft) (at, λ w. w)
        | inl f ↦ rw (d, f, enter_nft) (at, λ w. w)
      ]
  nft-others none coins n mint s k q d e at =
      elim (Option-cases (get_pool_by_tokens_and_fee s.registry n.token0 n.token1 n.fee)) [
        | inr (p, f) ↦ rw (d, f, enter_nft) (at, λ w. w)
        | inl f ↦ rw (d, f, enter_nft) (at, λ w. elim w [ inl y ↦ cc (y, e) | inr z ↦ z ])
      ]

  factory-others :
      (i : Option Text) (coins : Text → CoinAnswers) (c : Types.Pool) (s : State) (k : Text)
      (q : OfPool)
      → text_eq k c.contract ≡ false
      → At k s.globals q
      → let (s', cs) = enter_factory hex i coins c s in At k s'.globals q × (IsPending k cs → ⊥)
  unfolding enter_factory add_new_pool
  factory-others (some x) coins c s k q e at = (at, λ w. w)
  factory-others none coins c s k q e at = (at, λ w. elim w [ inl y ↦ cc (y, e) | inr z ↦ z ])

  pub enter-others :
      (m : Found) (s : State) (k : Text) (q : OfPool)
      → text_eq k (pool_of m) ≡ false
      → At k s.globals q
      → let (s', cs) = enter hex m s in At k s'.globals q × (IsPending k cs → ⊥)
  unfolding enter
  enter-others (from_nft i coins n) s k q e at = nft-others i coins n n.direction s k q refl e at
  enter-others (from_factory i coins c) s k q e at = factory-others i coins c s k q e at

  -- `AddPool` leaves the maps.
  pub enter_lem : (m : Found) (s : State) → (enter hex m s).0.globals ≡ s.globals
  unfolding enter
  enter_lem (from_nft i coins n) s = nft_globals i coins n n.direction s refl
  enter_lem (from_factory i coins c) s = factory_globals i coins c s
