-- ===== src/Prices/Correct.antt =====
-- service/price.go: `setTokensPriceAsUsd` ends, and the prices that it leaves are those that follow from
-- the three known ones over the pools.
use mathlib.Core.List.{Memᴰ}
use mathlib.Core.List.Memᴰ
use ibswap_api.Common.{
  All-Memᴰ, Memᴰ-All, ℕ, zero, suc, ◌+◌, ◌*◌, ◌≤◌, ◌≡◌, refl, ap, subst, ◌∙◌, ◌⊎◌, inl, inr, true,
  Option, some, List, [], ◌∷◌, ◌++◌, length, arith, All, List-cases, Bool-cases,
}
use ibswap_api.Common.Eq.{Text, text_eq_instance}
use ibswap_api.Common.Dict.{lookup}
use ibswap_api.Common.Outcome.{Outcome, ok}
use ibswap_api.Prices.{
  Walk, seen, tail, price_of, pass_all, walk, first_walk, set_tokens_price_as_usd,
}
use ibswap_api.Prices.Links.{Setting, Reliable, Leads, Priced, IsShared}
use ibswap_api.Prices.First.{first_walk-Holds}
use ibswap_api.Prices.Measure.{unseen-length, tokens, length-tokens}
use ibswap_api.Prices.Passage.{Holds, Arrives, Keyed, work, pass_all-Holds}

module _ {W S : Type 0} (k : Setting W S) (rel : Reliable k) where
  Holds-tail :
      (t0 : Text) (rest : List Text) (x : Walk W S)
      → x.queue ≡ t0 ∷ rest
      → All (λ p. Arrives k p t0 x) k.pools
      → Holds k rel x
      → Holds k rel (record x { queue = tail x.queue })
  Holds-tail t0 rest x e arrives h = record {
    sound = record {
      eth = h.sound.eth;
      seed_eth = h.sound.seed_eth;
      seed_a = h.sound.seed_a;
      seed_b = h.sound.seed_b;
      shared = h.sound.shared;
      priced = h.sound.priced;
      kept = h.sound.kept;
      queued = rw e (rw e at h.sound.queued).1;
    };
    closed = λ p a b m l d s. elim (h.closed p a b m l d s) [
      | inr old ↦ inr old
      | inl q ↦ elim (Memᴰ.cases_cons (rw e at q)) [
        | inl first ↦ inr (
            All-Memᴰ (λ q. Arrives k q t0 x) k.pools m arrives b l
              (subst (λ u. Leads k p u b) first d))
        | inr later ↦ inl (rw e later)
      ]
    ];
    good = h.good;
  }

  abbrev Drained : ℕ → Walk W S → Type 0
  Drained fuel x =
      (x' : Walk W S) × (walk k.float k.source k.registry k.pools fuel x ≡ ok (some x'))
      × Holds k rel x'
      × (x'.queue ≡ [])

  walk_step :
      (fuel : ℕ) (x y z : Walk W S) (t0 : Text) (rest : List Text) (price : W)
      → x.queue ≡ t0 ∷ rest
      → price_of x.prices t0 ≡ some price
      → pass_all k.float k.source k.registry t0 price k.pools x ≡ ok y
      → walk k.float k.source k.registry k.pools fuel (record y { queue = tail y.queue })
        ≡ ok (some z)
      → walk k.float k.source k.registry k.pools (suc fuel) x ≡ ok (some z)
  unfolding walk
  walk_step fuel x y z t0 rest price e f g i = simp (e, walk, f, g, i)

  walk_ends :
      (fuel : ℕ) (x : Walk W S) → Keyed k rel → Holds k rel x → work k x ≤ fuel → Drained fuel x
  unfolding walk
  walk_ends zero x keyed h enough = elim (List-cases x.queue) [
    | inl e ↦ (x, simp (e, walk), h, e)
    | inr (t0, rest, e) ↦ absurd (omega (arith, ap length e))
  ]
  walk_ends (suc fuel) x keyed h enough = elim (List-cases x.queue) [
    | inl e ↦ (x, simp (e, walk), h, e)
    | inr (t0, rest, e) ↦
        let s0 = (rw e at h.sound.queued).0 in
        let (price, f, follows) = h.sound.priced t0 s0 in
        let (y, g, h1, l, a) =
          pass_all-Holds k rel k.pools t0 price x keyed
            (Memᴰ-All (λ p. Memᴰ p k.pools) k.pools (λ p m. m)) h s0 follows in
        let longer : y.queue ≡ t0 ∷ (rest ++ l.more) = l.longer ∙ ap (λ q. q ++ l.more) e in
        let (z, i, h2, done) =
          walk_ends fuel (record y { queue = tail y.queue }) keyed
            (Holds-tail t0 (rest ++ l.more) y longer a h1)
            (omega (arith, l.bounded, ap length longer, ap (λ q. length (tail q)) longer)) in
        (z, walk_step fuel x y z t0 rest price e f g i, h2, done)
  ]

  -- At the end, each token that a price follows for is seen.
  Priced-seen :
      (x : Walk W S)
      → Holds k rel x
      → x.queue ≡ []
      → (t : Text) (w : W) → Priced k t w
      → seen x.visited t ≡ true
  Priced-seen x h e t w Priced.from_eth = h.sound.seed_eth
  Priced-seen x h e t w Priced.from_usd_a = h.sound.seed_a
  Priced-seen x h e t w Priced.from_usd_b = h.sound.seed_b
  Priced-seen x h e t w (Priced.down {p = p} {w = v} m l q) =
      elim (h.closed p p.token0 p.token1 m (_, _, _, l) (inl (refl, refl))
        (Priced-seen x h e p.token0 v q)) [
          | inl queued ↦ absurd (Memᴰ.not-nil (rw e at queued))
          | inr old ↦ old
        ]
  Priced-seen x h e t w (Priced.up {p = p} {w = v} m l q) =
      elim (h.closed p p.token1 p.token0 m (_, _, _, l) (inr (refl, refl))
        (Priced-seen x h e p.token1 v q)) [
          | inl queued ↦ absurd (Memᴰ.not-nil (rw e at queued))
          | inr old ↦ old
        ]

  -- The price that a token is left with follows over the pools, or none does, and its entry is as it was.
  abbrev pub Settled : Walk W S → Text → Type 0
  Settled x t =
      ((w : W) × (price_of x.prices t ≡ some w) × Priced k t w)
      ⊎ (((w : W) → Priced k t w → ⊥) × (lookup t x.prices.table ≡ lookup t k.start.table))

  Holds-Settled : (x : Walk W S) → Holds k rel x → x.queue ≡ [] → (t : Text) → Settled x t
  Holds-Settled x h e t = elim (Bool-cases (seen x.visited t)) [
    | inl old ↦ inl (h.sound.priced t old)
    | inr new ↦ inr (λ w q. cc (new, Priced-seen x h e t w q), h.sound.kept t new)
  ]

  abbrev pub result : S → Outcome (Option (Walk W S))
  result s = set_tokens_price_as_usd k.float k.source k.registry k.pools k.start s

  first_bound : (s : S) → work k (first_walk k.float k.start s) ≤ 3 + 2 * length k.pools
  unfolding first_walk
  first_bound s = omega (arith, unseen-length _ (tokens k.pools), length-tokens k.pools)

  first_ends :
      (s : S)
      → Keyed k rel
      → IsShared k.start
      → rel.Good s
      → Drained (3 + 2 * length k.pools) (first_walk k.float k.start s)
  first_ends s keyed shared good =
      walk_ends _ _ keyed (first_walk-Holds k rel s shared good) (first_bound s)

  -- When the overviews of the pools do not panic and give the same ticks all along, each coin is kept
  -- under its contract, and only WETH has the shared entry, `setTokensPriceAsUsd` ends, without a nil
  -- entry. It leaves each token either with a price that follows from the three known ones, from pool to
  -- pool over those with both coins, a tick, and a factor that
  -- is neither 0 nor infinite; or, exactly when no price follows for it, with the entry that it had.
  -- The price of ETH is as it was, and still only WETH has the shared entry.
  pub set_tokens_price_as_usd-Settled :
      (s : S)
      → Keyed k rel
      → IsShared k.start
      → rel.Good s
      → (x : Walk W S) × (result s ≡ ok (some x))
        × ((t : Text) → Settled x t)
        × (x.prices.eth ≡ k.start.eth)
        × IsShared x.prices
  unfolding set_tokens_price_as_usd
  set_tokens_price_as_usd-Settled s keyed shared good =
      let (x, e, h, done) = first_ends s keyed shared good in
      (x, e, Holds-Settled x h done, h.sound.eth, h.sound.shared)
