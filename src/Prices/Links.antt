-- ===== src/Prices/Links.antt =====
-- service/price.go: which prices a pool carries from one of its tokens to the other, and what the
-- walk of `setTokensPriceAsUsd` keeps while it takes them.
use mathlib.Core.List.{Memᴰ}
use mathlib.Core.List.Memᴰ
use ibswap_api.Common.{
  ◌≡◌, ◌≢◌, refl, sym, ap, subst, ◌∙◌, ◌⊎◌, inl, inr, Bool, true, false, Option, some, List, [],
  ◌∷◌, if◌then◌else◌, arith, All, All-append, All-weaken, Bool-cases, Option-cases,
}
use ibswap_api.Common.Int.{ℤ}
use ibswap_api.Common.Eq.{Text, text_eq, text_eq_iff, text_eq_instance}
use ibswap_api.Common.Dict.{Dict, lookup, insert, lookup-insert, insert-cases}
use ibswap_api.Common.Outcome.{ok}
use ibswap_api.Registry
use ibswap_api.Registry.{Registry, Coin, get_coin}
use ibswap_api.Prices.{
  Float, Overviews, current_eth_price, own, Prices, weth, usd_a, usd_b, price_of, put, Walk, seen,
  visit, down_price, up_price, is_lost,
}

-- What the walk is over: the coins, the pools, the map before it, and the ticks of the overviews.
pub record Setting (W S : Type 0) : Type 0 where
  pub float : Float W
  pub source : Overviews S
  pub registry : Registry
  pub pools : List Registry.Pool
  pub start : Prices W
  pub tick_of : Text → Option ℤ

-- The overviews of the pools do not panic, and give the same ticks all along.
pub record Reliable {W S : Type 0} (k : Setting W S) : Type 1 where
  pub Good : S → Type 0
  pub answers :
      (p : Registry.Pool) (s : S)
      → Memᴰ p k.pools
      → Good s
      → (s' : S) × (k.source.overview p.contract s ≡ ok (k.tick_of p.contract, s')) × Good s'

pub seen-insert :
    (t b : Text) (v : Dict Text Bool)
    → seen (insert b true v) t ≡ (if text_eq t b then true else seen v t)
unfolding seen
seen-insert t b v = elim (Bool-cases (text_eq t b)) [
  | inl e ↦ rw (seen, lookup-insert t b true v, e) refl
  | inr e ↦ rw (seen, lookup-insert t b true v, e) refl
]

pub seen-insert_self : (b : Text) (v : Dict Text Bool) → seen (insert b true v) b ≡ true
seen-insert_self b v = ground (arith, seen-insert b b v, text_eq_iff b b)

pub seen-insert_mono :
    (t b : Text) (v : Dict Text Bool) → seen v t ≡ true → seen (insert b true v) t ≡ true
seen-insert_mono t b v h = ground (arith, seen-insert t b v)

-- What is seen after an insertion is the new token, or was seen before.
pub seen-insert_cases :
    (t b : Text) (v : Dict Text Bool)
    → seen (insert b true v) t ≡ true
    → (t ≡ b) ⊎ ((text_eq t b ≡ false) × (seen v t ≡ true))
seen-insert_cases t b v h = elim (Bool-cases (text_eq t b)) [
  | inl e ↦ inl ((text_eq_iff t b).0 e)
  | inr e ↦ inr (e, ground (arith, seen-insert t b v))
]

pub seen-insert_not :
    (t b : Text) (v : Dict Text Bool)
    → seen (insert b true v) t ≡ false
    → (text_eq t b ≡ false) × (seen v t ≡ false)
seen-insert_not t b v h = elim (Bool-cases (text_eq t b)) [
  | inl e ↦ ground (arith, seen-insert t b v)
  | inr e ↦ (e, ground (arith, seen-insert t b v))
]

module _ {W : Type 0} where
  -- The shared entry is that of WETH only.
  abbrev pub IsShared : Prices W → Type 0
  IsShared ps = (t : Text) → lookup t ps.table ≡ some current_eth_price → t ≡ weth

  -- A token that does not have the shared entry gets one of its own.
  pub put-own :
      (t : Text) (w : W) (ps : Prices W)
      → lookup t ps.table ≢ some current_eth_price
      → put t w ps ≡ record ps { table = insert t (own w) ps.table }
  unfolding put
  put-own t w ps h = elim (Option-cases (lookup t ps.table)) [
    | inl e ↦ rw (e, put) refl
    | inr (own v, e) ↦ rw (e, put) refl
    | inr (current_eth_price, e) ↦ absurd (h e)
  ]

  pub price_of-insert :
      (t b : Text) (w : W) (ps : Prices W)
      → price_of (record ps { table = insert b (own w) ps.table }) t
        ≡ (if text_eq t b then some w else price_of ps t)
  unfolding price_of
  price_of-insert t b w ps = elim (Bool-cases (text_eq t b)) [
    | inl e ↦ rw (price_of, lookup-insert t b (own w) ps.table, e) refl
    | inr e ↦ rw (price_of, lookup-insert t b (own w) ps.table, e) refl
  ]

module _ {W S : Type 0} (k : Setting W S) where
  -- A pool over which a price can be taken, with its coins and its tick.
  pub record Link (p : Registry.Pool) (c0 c1 : Coin) (n : ℤ) : Type 0 where
    pub found0 : get_coin k.registry p.token0 ≡ some c0
    pub found1 : get_coin k.registry p.token1 ≡ some c1
    pub tick : k.tick_of p.contract ≡ some n
    pub kept : is_lost k.float n ≡ false

  -- The prices that follow from the three known ones, pool by pool.
  pub data Priced : Text → W → Type 0 where
    from_eth : Priced weth k.start.eth
    from_usd_a : Priced usd_a k.float.one
    from_usd_b : Priced usd_b k.float.one
    down :
        {p : Registry.Pool} {c0 c1 : Coin} {n : ℤ} {w : W}
        → Memᴰ p k.pools
        → Link p c0 c1 n
        → Priced p.token0 w
        → Priced p.token1 (down_price k.float w n c0 c1)
    up :
        {p : Registry.Pool} {c0 c1 : Coin} {n : ℤ} {w : W}
        → Memᴰ p k.pools
        → Link p c0 c1 n
        → Priced p.token1 w
        → Priced p.token0 (up_price k.float w n c0 c1)

  abbrev pub Linked : Registry.Pool → Type 0
  Linked p = (c0 : Coin) × (c1 : Coin) × (n : ℤ) × Link p c0 c1 n

  -- The two ways over a pool.
  abbrev pub Leads : Registry.Pool → Text → Text → Type 0
  Leads p a b = ((a ≡ p.token0) × (b ≡ p.token1)) ⊎ ((a ≡ p.token1) × (b ≡ p.token0))

  -- Each token that is seen has a price that follows, and the others have the entry they had.
  pub record IsSound (x : Walk W S) : Type 0 where
    pub eth : x.prices.eth ≡ k.start.eth
    pub seed_eth : seen x.visited weth ≡ true
    pub seed_a : seen x.visited usd_a ≡ true
    pub seed_b : seen x.visited usd_b ≡ true
    pub shared : (t : Text) → lookup t x.prices.table ≡ some current_eth_price → t ≡ weth
    pub priced :
        (t : Text) → seen x.visited t ≡ true → (w : W) × (price_of x.prices t ≡ some w) × Priced t w
    pub kept :
        (t : Text) → seen x.visited t ≡ false → lookup t x.prices.table ≡ lookup t k.start.table
    pub queued : All (λ t. seen x.visited t ≡ true) x.queue

  -- Over a pool, a token that is seen and no longer queued leads to a token that is seen.
  abbrev pub Closed : Walk W S → Type 0
  Closed x =
      (p : Registry.Pool) (a b : Text)
      → Memᴰ p k.pools
      → Linked p
      → Leads p a b
      → seen x.visited a ≡ true
      → Memᴰ a x.queue ⊎ (seen x.visited b ≡ true)

  pub IsSound-visit :
      (b : Text) (c : Coin) (w : W) (x : Walk W S)
      → IsSound x
      → seen x.visited b ≡ false
      → c.contract ≡ b
      → Priced b w
      → IsSound (visit b c w x)
  unfolding visit
  IsSound-visit b c w x i new same follows =
      let alone =
        λ (e : lookup b x.prices.table ≡ some current_eth_price). unseen_seed (i.shared b e) in
      rw (same, visit, put-own b w x.prices alone)
        (record {
          eth = i.eth;
          seed_eth = seen-insert_mono weth b x.visited i.seed_eth;
          seed_a = seen-insert_mono usd_a b x.visited i.seed_a;
          seed_b = seen-insert_mono usd_b b x.visited i.seed_b;
          shared = λ t e. elim (insert-cases t b (own w) current_eth_price x.prices.table e) [
            | inl (_, f) ↦ absurd (not_own f)
            | inr (_, old) ↦ i.shared t old
          ];
          priced = λ t h. elim (seen-insert_cases t b x.visited h) [
            | inl e ↦ (
              w,
              price_of-insert t b w x.prices ∙ rw ((text_eq_iff t b).1 e) refl,
              subst (λ u. Priced u w) (sym e) follows,
            )
            | inr (other, old) ↦
                let (v, f, g) = i.priced t old in
                (v, price_of-insert t b w x.prices ∙ rw other f, g)
          ];
          kept = λ t h.
              let (other, old) = seen-insert_not t b x.visited h in
              lookup-insert t b (own w) x.prices.table ∙ rw other (i.kept t old);
          queued =
              All-append _ x.queue (b ∷ [])
                (All-weaken x.queue (λ t. seen-insert_mono t b x.visited) i.queued)
                (seen-insert_self b x.visited, tt);
        })
    where
      unseen_seed : b ≡ weth → ⊥
      unseen_seed e = cc (new, ap (seen x.visited) e, i.seed_eth)

      not_own : current_eth_price ≡ own w → ⊥
      not_own e = cc e

  pub IsSound-source : (s : S) (x : Walk W S) → IsSound x → IsSound (record x { source = s })
  IsSound-source s x i = record {
    eth = i.eth;
    seed_eth = i.seed_eth;
    seed_a = i.seed_a;
    seed_b = i.seed_b;
    shared = i.shared;
    priced = i.priced;
    kept = i.kept;
    queued = i.queued;
  }

  pub Closed-visit :
      (b : Text) (c : Coin) (w : W) (x : Walk W S) → Closed x → Closed (visit b c w x)
  unfolding visit
  Closed-visit b c w x h p a b' m l leads s = elim (seen-insert_cases a b x.visited s) [
    | inl e ↦ inl (Memᴰ.append_right x.queue (Memᴰ.head e))
    | inr (_, old) ↦ elim (h p a b' m l leads old) [
      | inl q ↦ inl (Memᴰ.append_left (b ∷ []) q)
      | inr t ↦ inr (seen-insert_mono b' b x.visited t)
    ]
  ]
