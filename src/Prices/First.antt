-- ===== src/Prices/First.antt =====
-- service/price.go: where the walk of `setTokensPriceAsUsd` starts.
use mathlib.Core.List.{Memᴰ}
use ibswap_api.Common.{◌≡◌, refl, sym, subst, ◌∙◌, ◌⊎◌, inl, inr, Bool, true, false, some, []}
use ibswap_api.Common.Eq.{Text, text_eq, text_eq_iff, text_eq_instance}
use ibswap_api.Common.Dict.{Dict, lookup, insert, lookup-insert, lookup-insert_self, insert-cases}
use ibswap_api.Prices.{
  current_eth_price, own, Prices, weth, usd_a, usd_b, price_of, seen, first_walk,
}
use ibswap_api.Prices.Links.{
  Setting, Reliable, Priced, IsShared, seen-insert_mono, seen-insert_self, seen-insert_cases,
  seen-insert_not, price_of-insert,
}
use ibswap_api.Prices.Passage.{Holds}

abbrev first_visited : Dict Text Bool
first_visited = insert usd_b true (insert usd_a true (insert weth true []))

first_eth : seen first_visited weth ≡ true
first_eth = seen-insert_mono weth usd_b _ (seen-insert_mono weth usd_a _ (seen-insert_self weth []))

first_a : seen first_visited usd_a ≡ true
first_a = seen-insert_mono usd_a usd_b _ (seen-insert_self usd_a _)

first_b : seen first_visited usd_b ≡ true
first_b = seen-insert_self usd_b _

nothing_seen : (t : Text) → seen [] t ≡ true → ⊥
unfolding seen lookup
nothing_seen t p = cc p

first_cases :
    (t : Text)
    → seen first_visited t ≡ true
    → (t ≡ usd_b)
      ⊎ ((text_eq t usd_b ≡ false) × ((t ≡ usd_a) ⊎ ((text_eq t usd_a ≡ false) × (t ≡ weth))))
first_cases t h = elim (seen-insert_cases t usd_b _ h) [
  | inl e ↦ inl e
  | inr (f, h1) ↦ elim (seen-insert_cases t usd_a _ h1) [
    | inl e ↦ inr (f, inl e)
    | inr (g, h2) ↦ elim (seen-insert_cases t weth [] h2) [
      | inl e ↦ inr (f, inr (g, e))
      | inr (_, h3) ↦ absurd (nothing_seen t h3)
    ]
  ]
]

module _ {W : Type 0} where
  first_price :
      (ps : Prices W) (t : Text)
      → t ≡ weth
      → price_of (record ps { table = insert weth current_eth_price ps.table }) t ≡ some ps.eth
  unfolding price_of
  first_price ps t e = rw (e, price_of, lookup-insert_self weth current_eth_price ps.table) refl

module _ {W S : Type 0} (k : Setting W S) (rel : Reliable k) where
  first-IsShared : (s : S) → IsShared k.start → IsShared (first_walk k.float k.start s).prices
  unfolding first_walk
  first-IsShared s shared t h =
      elim (insert-cases t usd_b (own k.float.one) current_eth_price _ h) [
        | inl (_, f) ↦ absurd (not_own f)
        | inr (_, h1) ↦ elim (insert-cases t usd_a (own k.float.one) current_eth_price _ h1) [
          | inl (_, f) ↦ absurd (not_own f)
          | inr (_, h2) ↦ elim (insert-cases t weth current_eth_price current_eth_price _ h2) [
            | inl (e, _) ↦ e
            | inr (_, h3) ↦ shared t h3
          ]
        ]
      ]
    where
      not_own : current_eth_price ≡ own k.float.one → ⊥
      not_own e = cc e

  first-Priced :
      (s : S) (t : Text)
      → seen first_visited t ≡ true
      → (w : W) × (price_of (first_walk k.float k.start s).prices t ≡ some w) × Priced k t w
  unfolding first_walk
  first-Priced s t h = elim (first_cases t h) [
    | inl e ↦ (
      k.float.one,
      price_of-insert t usd_b _ _ ∙ rw ((text_eq_iff t usd_b).1 e) refl,
      subst (λ u. Priced k u k.float.one) (sym e) Priced.from_usd_b,
    )
    | inr (f, inl e) ↦ (
      k.float.one,
      price_of-insert t usd_b _ _
          ∙ rw f (price_of-insert t usd_a _ _ ∙ rw ((text_eq_iff t usd_a).1 e) refl),
      subst (λ u. Priced k u k.float.one) (sym e) Priced.from_usd_a,
    )
    | inr (f, inr (g, e)) ↦ (
      k.start.eth,
      price_of-insert t usd_b _ _
          ∙ rw f (price_of-insert t usd_a _ _ ∙ rw g (first_price k.start t e)),
      subst (λ u. Priced k u k.start.eth) (sym e) Priced.from_eth,
    )
  ]

  first_kept :
      (s : S) (t : Text)
      → seen first_visited t ≡ false
      → lookup t (first_walk k.float k.start s).prices.table ≡ lookup t k.start.table
  unfolding first_walk
  first_kept s t h =
      let (f, h1) = seen-insert_not t usd_b _ h in
      let (g, h2) = seen-insert_not t usd_a _ h1 in
      let (i, _) = seen-insert_not t weth [] h2 in
      lookup-insert t usd_b _ _
      ∙ rw f (lookup-insert t usd_a _ _ ∙ rw g (lookup-insert t weth _ _ ∙ rw i refl))

  pub first_walk-Holds :
      (s : S) → IsShared k.start → rel.Good s → Holds k rel (first_walk k.float k.start s)
  unfolding first_walk
  first_walk-Holds s shared good = record {
    sound = record {
      eth = refl;
      seed_eth = first_eth;
      seed_a = first_a;
      seed_b = first_b;
      shared = first-IsShared s shared;
      priced = first-Priced s;
      kept = first_kept s;
      queued = (first_eth, (first_a, (first_b, tt)));
    };
    closed = λ p a b m l d h. inl (elim (first_cases a h) [
      | inl e ↦ Memᴰ.tail (Memᴰ.tail (Memᴰ.head e))
      | inr (f, inl e) ↦ Memᴰ.tail (Memᴰ.head e)
      | inr (f, inr (g, e)) ↦ Memᴰ.head e
    ]);
    good = good;
  }
