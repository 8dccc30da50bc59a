-- ===== src/Prices/Passage.antt =====
-- service/price.go: the inner loop of `setTokensPriceAsUsd` keeps what the walk has so far, and sees
-- every token next to the one that it expands.
use mathlib.Core.List.{Memᴰ}
use ibswap_api.Common.{
  ℕ, ◌+◌, ◌≤◌, ◌≡◌, refl, sym, ap, subst, ◌∙◌, inl, inr, true, false, Option, none, some, List, [],
  ◌∷◌, ◌++◌, length, length-append, arith, All, Bool-cases, Option-cases,
}
use ibswap_api.Common.Int.{ℤ}
use ibswap_api.Common.Eq.{Text, text_eq, text_eq_iff, text_eq_instance}
use ibswap_api.Common.Outcome.{ok}
use ibswap_api.Registry
use ibswap_api.Registry.{Registry, Coin, get_coin}
use ibswap_api.Prices.{Walk, seen, visit, cross, pass, pass_all, is_lost, down_price, up_price}
use ibswap_api.Prices.Links.{
  Setting, Reliable, Link, Linked, Leads, Priced, IsSound, Closed, IsSound-visit, IsSound-source,
  Closed-visit, seen-insert_mono, seen-insert_self,
}
use ibswap_api.Prices.Measure.{unseen, unseen-insert, tokens, token0_of, token1_of}
use mathlib.Core.List.{append_assoc, append-nil}

module _ {W S : Type 0} (k : Setting W S) where
  pub record Holds (rel : Reliable k) (x : Walk W S) : Type 0 where
    pub sound : IsSound k x
    pub closed : Closed k x
    pub good : rel.Good x.source

  abbrev pub work : Walk W S → ℕ
  work x = unseen x.visited (tokens k.pools) + length x.queue

  -- What a part of the inner loop does to the tokens that are seen and to the queue.
  pub record Later (x x' : Walk W S) : Type 0 where
    pub grows : (t : Text) → seen x.visited t ≡ true → seen x'.visited t ≡ true
    pub more : List Text
    pub longer : x'.queue ≡ x.queue ++ more
    pub bounded : work x' ≤ work x

  abbrev pub Arrives : Registry.Pool → Text → Walk W S → Type 0
  Arrives p t0 x = (b : Text) → Linked k p → Leads k p t0 b → seen x.visited b ≡ true

  Later-source : (s : S) (x : Walk W S) → Later x (record x { source = s })
  Later-source s x = record {
    grows = λ t h. h;
    more = [];
    longer = sym (append-nil x.queue);
    bounded = omega arith;
  }

  Later-trans : (x y z : Walk W S) → Later x y → Later y z → Later x z
  Later-trans x y z f g = record {
    grows = λ t h. g.grows t (f.grows t h);
    more = f.more ++ g.more;
    longer = g.longer ∙ ap (λ q. q ++ g.more) f.longer ∙ append_assoc x.queue f.more g.more;
    bounded = omega (arith, f.bounded, g.bounded);
  }

  Later-visit :
      (b : Text) (c : Coin) (w : W) (x : Walk W S)
      → seen x.visited b ≡ false
      → Memᴰ b (tokens k.pools)
      → Later x (visit b c w x)
  unfolding visit
  Later-visit b c w x new m = record {
    grows = λ t. seen-insert_mono t b x.visited;
    more = b ∷ [];
    longer = refl;
    bounded =
        omega
          (arith, length-append x.queue (b ∷ []), unseen-insert b x.visited (tokens k.pools) m new);
  }

  module _ (rel : Reliable k) where
    -- The walk after a part of the inner loop.
    abbrev pub Passed : Registry.Pool → Text → Walk W S → Walk W S → Type 0
    Passed p t0 x x' = Holds rel x' × Later x x' × Arrives p t0 x'

    stay :
        (p : Registry.Pool) (t0 : Text) (x : Walk W S)
        → Holds rel x
        → Arrives p t0 x
        → Passed p t0 x x
    stay p t0 x h a = (h, Later-source x.source x, a)

    go :
        (p : Registry.Pool) (t0 b : Text) (c : Coin) (w : W) (x : Walk W S)
        → Holds rel x
        → seen x.visited b ≡ false
        → Memᴰ b (tokens k.pools)
        → c.contract ≡ b
        → Priced k b w
        → Arrives p t0 (visit b c w x)
        → Passed p t0 x (visit b c w x)
    unfolding visit
    go p t0 b c w x h new m same follows a = (
      record {
        sound = IsSound-visit k b c w x h.sound new same follows;
        closed = Closed-visit k b c w x h.closed;
        good = h.good;
      },
      Later-visit b c w x new m,
      a,
    )

    arrive_down :
        (p : Registry.Pool) (t0 : Text) (x : Walk W S)
        → p.token0 ≡ t0
        → seen x.visited t0 ≡ true
        → seen x.visited p.token1 ≡ true
        → Arrives p t0 x
    arrive_down p t0 x same h0 h1 b l (inl (_, e)) = ap (seen x.visited) e ∙ h1
    arrive_down p t0 x same h0 h1 b l (inr (_, e)) = ap (seen x.visited) (e ∙ same) ∙ h0

    arrive_up :
        (p : Registry.Pool) (t0 : Text) (x : Walk W S)
        → text_eq p.token0 t0 ≡ false
        → seen x.visited p.token0 ≡ true
        → Arrives p t0 x
    arrive_up p t0 x other h1 b l (inl (e, _)) =
        absurd (cc (other, (text_eq_iff p.token0 t0).1 (sym e)))
    arrive_up p t0 x other h1 b l (inr (_, e)) = ap (seen x.visited) e ∙ h1

    apart :
        (p : Registry.Pool) (t0 : Text) (x : Walk W S)
        → text_eq p.token0 t0 ≡ false
        → text_eq p.token1 t0 ≡ false
        → Arrives p t0 x
    apart p t0 x f g b l (inl (e, _)) = absurd (cc (f, (text_eq_iff p.token0 t0).1 (sym e)))
    apart p t0 x f g b l (inr (e, _)) = absurd (cc (g, (text_eq_iff p.token1 t0).1 (sym e)))

    cross-Passed :
        (p : Registry.Pool) (t0 : Text) (price : W) (c0 c1 : Coin) (n : ℤ) (x : Walk W S)
        → Memᴰ p k.pools
        → Holds rel x
        → seen x.visited t0 ≡ true
        → Priced k t0 price
        → c0.contract ≡ p.token0
        → c1.contract ≡ p.token1
        → ((is_lost k.float n ≡ false) → Link k p c0 c1 n)
        → (Linked k p → is_lost k.float n ≡ false)
        → Passed p t0 x (cross k.float t0 price p c0 c1 n x)
    unfolding cross visit
    cross-Passed p t0 price c0 c1 n x m h s0 follows same0 same1 link kept =
        elim (Bool-cases (is_lost k.float n)) [
          | inl lost ↦ rw (cross, lost) (stay p t0 x h (λ b l _. absurd (cc (lost, kept l))))
          | inr usable ↦ elim (Bool-cases (text_eq p.token0 t0)) [
            | inl e ↦
                let at0 = (text_eq_iff p.token0 t0).0 e in
                elim (Bool-cases (seen x.visited p.token1)) [
                  | inl old ↦
                      rw (cross, usable, e, old) (stay p t0 x h (arrive_down p t0 x at0 s0 old))
                  | inr new ↦
                      rw (cross, usable, e, new)
                        (go p t0 p.token1 c1 (down_price k.float price n c0 c1) x h new
                          (token1_of p k.pools m) same1
                          (Priced.down m (link usable)
                            (subst (λ t. Priced k t price) (sym at0) follows))
                          (arrive_down p t0 (visit p.token1 c1 (down_price k.float price n c0 c1) x)
                            at0 (seen-insert_mono t0 p.token1 x.visited s0)
                            (seen-insert_self p.token1 x.visited)))
                ]
            | inr other ↦ elim (Bool-cases (text_eq p.token1 t0)) [
              | inl e ↦
                  let at1 = (text_eq_iff p.token1 t0).0 e in
                  elim (Bool-cases (seen x.visited p.token0)) [
                    | inl old ↦
                        rw (cross, usable, other, e, old)
                          (stay p t0 x h (arrive_up p t0 x other old))
                    | inr new ↦
                        rw (cross, usable, other, e, new)
                          (go p t0 p.token0 c0 (up_price k.float price n c0 c1) x h new
                            (token0_of p k.pools m) same0
                            (Priced.up m (link usable)
                              (subst (λ t. Priced k t price) (sym at1) follows))
                            (arrive_up p t0 (visit p.token0 c0 (up_price k.float price n c0 c1) x)
                              other (seen-insert_self p.token0 x.visited)))
                  ]
              | inr neither ↦
                  rw (cross, usable, other, neither) (stay p t0 x h (apart p t0 x other neither))
            ]
          ]
        ]

    -- A token's coin has the token as its contract.
    abbrev pub Keyed : Type 0
    Keyed = (t : Text) (c : Coin) → get_coin k.registry t ≡ some c → c.contract ≡ t

    skipped :
        (p : Registry.Pool) (t0 : Text) (s : S) (x : Walk W S)
        → Holds rel (record x { source = s })
        → (Linked k p → ⊥)
        → Passed p t0 x (record x { source = s })
    skipped p t0 s x h f = (h, Later-source s x, λ b l _. absurd (f l))

    resumed :
        (p : Registry.Pool) (t0 : Text) (s : S) (x x' : Walk W S)
        → Passed p t0 (record x { source = s }) x'
        → Passed p t0 x x'
    resumed p t0 s x x' (h, l, a) =
        (h, Later-trans x (record x { source = s }) x' (Later-source s x) l, a)

    pass-Passed :
        (p : Registry.Pool) (t0 : Text) (price : W) (x : Walk W S)
        → Keyed
        → Memᴰ p k.pools
        → Holds rel x
        → seen x.visited t0 ≡ true
        → Priced k t0 price
        → (x' : Walk W S) × (pass k.float k.source k.registry t0 price p x ≡ ok x')
          × Passed p t0 x x'
    unfolding pass
    pass-Passed p t0 price x keyed m h s0 follows =
        let (s, e, g) = rel.answers p x.source m h.good in
        let x1 = record x { source = s } in
        let h1 : Holds rel x1 = record {
          sound = IsSound-source k s x h.sound;
          closed = h.closed;
          good = g;
        } in
        let skip = λ (f : Linked k p → ⊥). skipped p t0 s x h1 f in
        elim (Option-cases (get_coin k.registry p.token0)) [
          | inl e0 ↦ (x1, rw (e, pass, e0) refl, skip (λ l. unlike (l.3.found0) e0))
          | inr (c0, e0) ↦ elim (Option-cases (get_coin k.registry p.token1)) [
            | inl e1 ↦ (x1, rw (e, pass, e0, e1) refl, skip (λ l. unlike (l.3.found1) e1))
            | inr (c1, e1) ↦ elim (Option-cases (k.tick_of p.contract)) [
              | inl e2 ↦ (x1, rw (e, pass, e0, e1, e2) refl, skip (λ l. unlike (l.3.tick) e2))
              | inr (n, e2) ↦ (
                cross k.float t0 price p c0 c1 n x1,
                rw (e, pass, e0, e1, e2) refl,
                resumed p t0 s x _ (
                    cross-Passed p t0 price c0 c1 n x1 m h1 s0 follows (keyed p.token0 c0 e0)
                      (keyed p.token1 c1 e1)
                      (λ usable. record { found0 = e0; found1 = e1; tick = e2; kept = usable })
                      (λ l. cc (l.3.kept, l.3.tick, e2))),
              )
            ]
          ]
        ]
      where
        unlike : {A : Type 0} {o : Option A} {a : A} → o ≡ some a → o ≡ none → ⊥
        unlike f g = cc (f, g)

    pub pass_all-Holds :
        (ps : List Registry.Pool) (t0 : Text) (price : W) (x : Walk W S)
        → Keyed
        → All (λ p. Memᴰ p k.pools) ps
        → Holds rel x
        → seen x.visited t0 ≡ true
        → Priced k t0 price
        → (x' : Walk W S) × (pass_all k.float k.source k.registry t0 price ps x ≡ ok x')
          × Holds rel x'
          × Later x x'
          × All (λ p. Arrives p t0 x') ps
    unfolding pass_all
    pass_all-Holds [] t0 price x keyed m h s0 follows = (x, refl, h, Later-source x.source x, tt)
    pass_all-Holds (p ∷ ps) t0 price x keyed m h s0 follows =
        let (y, e, (h1, l1, a)) = pass-Passed p t0 price x keyed m.0 h s0 follows in
        let (z, f, h2, l2, as2) =
          pass_all-Holds ps t0 price y keyed m.1 h1 (l1.grows t0 s0) follows in
        (
          z,
          rw (e, pass_all, f) refl,
          h2,
          Later-trans x y z l1 l2,
          (λ b l d. l2.grows b (a b l d), as2),
        )
