-- ===== src/Common/Dict.antt =====
-- Go maps as association lists.
use mathlib.Core.Path.{◌≡◌, refl}
use mathlib.Core.Logic.{◌≢◌, ◌⊎◌, inl, inr}
use mathlib.Core.Option.{Option, none, some}
use mathlib.Core.List.{List, [], ◌∷◌}
use native.Mathlib.Omega.{arith}
use ibswap_api.Common.Tests.{if◌then◌else◌, Bool-cases}
use ibswap_api.Common.Eq.{Eq}

abbrev pub Dict : Type 0 → Type 0 → Type 0
Dict K V = List (K × V)

module _ {K V : Type 0} ⦃e : Eq K⦄ where
  unfoldable pub lookup : K → Dict K V → Option V
  lookup k [] = none
  lookup k (b ∷ d) = if e.beq k b.0 then some b.1 else lookup k d

  -- `d[k] = v`
  unfoldable pub insert : K → V → Dict K V → Dict K V
  insert k v [] = (k, v) ∷ []
  insert k v (b ∷ d) = if e.beq k b.0 then (k, v) ∷ d else b ∷ insert k v d

  pub lookup-insert_self : (k : K) (v : V) (d : Dict K V) → lookup k (insert k v d) ≡ some v
  unfolding lookup insert
  lookup-insert_self k v [] = ground (arith, e.beq_iff k k)
  lookup-insert_self k v (b ∷ d) = ground (arith, e.beq_iff k k, lookup-insert_self k v d)

  pub lookup-insert_ne :
      (j k : K) (v : V) (d : Dict K V) → j ≢ k → lookup j (insert k v d) ≡ lookup j d
  unfolding lookup insert
  lookup-insert_ne j k v [] h = ground (arith, e.beq_iff j k)
  lookup-insert_ne j k v (b ∷ d) h =
      ground (arith, e.beq_iff j k, e.beq_iff k b.0, e.beq_iff j b.0, lookup-insert_ne j k v d h)

  pub lookup-insert :
      (j k : K) (v : V) (d : Dict K V)
      → lookup j (insert k v d) ≡ (if e.beq j k then some v else lookup j d)
  unfolding lookup insert
  lookup-insert j k v [] = refl
  lookup-insert j k v (b ∷ d) =
      ground (arith, e.beq_iff j k, e.beq_iff k b.0, e.beq_iff j b.0, lookup-insert j k v d)

  -- What is found after an insertion is the new entry, or was there before.
  pub insert-cases :
      (k j : K) (v w : V) (d : Dict K V)
      → lookup k (insert j v d) ≡ some w
      → ((k ≡ j) × (w ≡ v)) ⊎ ((k ≢ j) × (lookup k d ≡ some w))
  insert-cases k j v w d h = elim (Bool-cases (e.beq k j)) [
    | inl same ↦ inl ((e.beq_iff k j).0 same, ground (arith, lookup-insert k j v d))
    | inr other ↦ inr (λ p. cc ((e.beq_iff k j).1 p), ground (arith, lookup-insert k j v d))
  ]
