-- ===== src/System/Starting.antt =====
-- The service from its start: what `Start` of service/task.go sets up is sound.
use mathlib.Core.List.{Memᴰ}
use ibswap_api.Common.{
  ℕ, ◌≡◌, refl, sym, subst, ◌∙◌, ◌⊎◌, inl, inr, none, List, [], ◌∷◌, ◌++◌, map, All, All-weaken,
  All-Memᴰ, Memᴰ-All, Bool-cases,
}
use ibswap_api.Common.Int.{ℤ, pos}
use ibswap_api.Common.Eq.{Text, text_eq, text_eq_iff, text_eq_instance}
use ibswap_api.Common.Dict.{lookup, lookup-insert}
use ibswap_api.Common.Outcome.{ok, Result, Yields, Yields-bind, Yields-then}
use ibswap_api.Registry
use ibswap_api.Registry.{Coin, Registry, get_pools, init_coins_and_pools}
use ibswap_api.Registry.Invariant.{IsValid}
use ibswap_api.Registry.History.{run, reachable-IsValid}
use ibswap_api.Registry.Listing.{
  HasKey, get_pools-IsListed, get_pools-HasKey, init_coins_and_pools-Complete, get_pools-Complete,
}
use ibswap_api.Registry.Writing.{get_pools-IsValid}
use ibswap_api.Stats.Ticks.{Globals, Reserves}
use ibswap_api.Stats.Ticks.Description.{IsKept}
use ibswap_api.Stats.Start.{
  Batch, Answers, init_pool_stat, initial_volumes, initial_utc0, initial_current, start_from, start,
}
use ibswap_api.Stats.Start.Batches.{IsAnswered, joined, entry, start_batches}
use ibswap_api.Stats.Discovery.Pending.{AllKept-InHand}
use ibswap_api.Prices.{Prices}
use ibswap_api.Router.{Setup, Gin}
use ibswap_api.System.{Service, watcher_of, launch}
use ibswap_api.System.Tasks.{Sound, IsWatched, IsPrinted}

-- What has current reserves is one of the pools that have been initialised.
abbrev Within : (Text → Type 0) → Globals → Type 0
Within D g = (k : Text) → (lookup k g.curr_reserves ≡ none) ⊎ D k

module _ (D : Text → Type 0) where
  init_pool_stat-Within :
      (clock : ℕ → ℕ) (a : Answers) (c : Text) (g : Globals)
      → D c
      → Within D g
      → Yields (Within D) (init_pool_stat clock a c g)
  unfolding init_pool_stat
  init_pool_stat-Within clock a c g d h = Yields-bind _ (initial_volumes clock a.volumes) _ (λ v.
      Yields-bind _ (initial_utc0 a.utc0) _ (λ u. Yields-bind _ (initial_current a.latest) _ (λ r k.
        elim (Bool-cases (text_eq k c)) [
          | inl e ↦ inr (subst D (sym ((text_eq_iff k c).0 e)) d)
          | inr e ↦ elim (h k) [
            | inl f ↦ inl (lookup-insert k c r g.curr_reserves ∙ rw e f)
            | inr i ↦ inr i
          ]
        ])))

  start_from-Within :
      (hex : Text → List ℕ) (clock : Text → ℕ → ℕ) (answers : Text → Answers) (limit : ℤ)
      (pools : List Registry.Pool) (ps : Batch) (count : ℕ) (g : Globals)
      → All (λ p. D p.contract) pools
      → Within D g
      → Yields (λ x. Within D x.0) (start_from hex clock answers limit pools ps count g)
  unfolding start_from
  start_from-Within hex clock answers limit [] ps count g d h = h
  start_from-Within hex clock answers limit (p ∷ rest) ps count g d h =
      Yields-then (Within D) (λ x. Within D x.0)
        (init_pool_stat (clock p.contract) (answers p.contract) p.contract g) _
        (init_pool_stat-Within (clock p.contract) (answers p.contract) p.contract g d.0 h)
        (λ g' i.
          Yields-then (λ x. Within D x.0) (λ x. Within D x.0)
            (start_from hex clock answers limit rest _ _ g') _
            (start_from-Within hex clock answers limit rest _ _ g' d.1 i) (λ x j. j))

nowhere : (k : Text) → lookup {V = Reserves} k [] ≡ none
unfolding lookup
nowhere k = refl

All-map :
    {A B : Type 0} (P : B → Type 0) (f : A → B) (xs : List A)
    → All (λ x. P (f x)) xs
    → All P (map f xs)
All-map P f [] h = tt
All-map P f (x ∷ xs) h = (h.0, All-map P f xs h.1)

All-split : {A : Type 0} (P : A → Type 0) (xs ys : List A) → All P (xs ++ ys) → All P xs × All P ys
All-split P [] ys h = (tt, h)
All-split P (x ∷ xs) ys (p, h) = let (a, b) = All-split P xs ys h in ((p, a), b)

All-joined :
    (P : List ℕ × List ℕ × List ℕ → Type 0) (bs : List Batch)
    → All P (joined bs)
    → All (λ b. All P b) bs
All-joined P [] h = tt
All-joined P (b ∷ bs) h = let (x, y) = All-split P b (joined bs) h in (x, All-joined P bs y)

module _ {W : Type 0} (u : Setup W) (gin : Gin) (coins : Result Text (List (Result Text Coin)))
    (pools : Result Text (List (Result Text Registry.Pool))) where
  -- The registry and the pools with which `start` begins.
  abbrev pub first_registry : Registry
  first_registry = (get_pools (pos 3) (init_coins_and_pools coins pools)).1

  abbrev pub first_pools : List Registry.Pool
  first_pools = (get_pools (pos 3) (init_coins_and_pools coins pools)).0

  first-IsValid : IsValid (init_coins_and_pools coins pools)
  first-IsValid = unfold run in reachable-IsValid coins pools []

  -- When the database answers for every V3 pool that it lists, and writes their addresses as `Hex` does,
  -- `start(3)` ends without a panic, and what it leaves is sound.
  pub launch-Sound :
      (clock : Text → ℕ → ℕ) (answers : Text → Answers) (n : ℕ) (prices : Prices W) (now : ℕ)
      → All (λ p. IsAnswered (answers p.contract)) first_pools
      → All (λ p. IsPrinted u gin p.contract) first_pools
      → (s : Service W) × (launch u gin coins pools clock answers (pos n) prices now ≡ ok s)
        × Sound s
  unfolding launch start get_pools
  launch-Sound clock answers n prices now answered printed =
      let hex = u.crypto.hex_to_address in
      let r0 = init_coins_and_pools coins pools in
      let (listed, complete) = init_coins_and_pools-Complete coins pools in
      let (g, bs, e, j, _, kept) = start_batches hex clock answers n first_pools answered in
      let domain = subst (Yields (λ x. Within (HasKey first_registry.pool_m_v3) x.0)) e (
        start_from-Within (HasKey first_registry.pool_m_v3) hex clock answers (pos n) first_pools []
          0 _ (get_pools-HasKey r0 listed) (λ k. inl (nowhere k))) in
      let own = λ (p : Registry.Pool) (m : Memᴰ p first_pools).
        All-Memᴰ (λ x. IsKept g x.contract) first_pools m kept in
      let printed_too : All (λ p. IsKept g (u.crypto.address_hex (hex p.contract))) first_pools =
        Memᴰ-All _ first_pools (λ p m.
          subst (IsKept g) (sym (All-Memᴰ (λ x. IsPrinted u gin x.contract) first_pools m printed))
            (own p m)) in
      let P = λ (e : List ℕ × List ℕ × List ℕ). IsKept g (u.crypto.address_hex e.0) in
      rw (e, launch)
        (
          _,
          refl,
          record {
            in_hand =
                AllKept-InHand _
                  (record {
                    valid = get_pools-IsValid (pos 3) r0 first-IsValid;
                    listed = get_pools-IsListed (pos 3) r0 listed;
                    domain = domain;
                  })
                  (λ k p f.
                    let (q, m, same) = get_pools-Complete r0 k first-IsValid complete (p, f) in
                    subst (IsKept g) same (own q m));
            watched = All-map (IsWatched g) (watcher_of u gin) bs (
                All-weaken bs (λ b h. All-map (IsKept g) (λ e. u.crypto.address_hex e.0) b h)
                  (All-joined P bs
                    (subst (All P) (sym j) (All-map P (entry hex) first_pools printed_too))));
          },
        )
