-- ===== src/Limits/Own.antt =====
-- api/middleware/limiter.go: what an address is answered depends on its own requests only.
use ibswap_api.Common.{
  ℕ, zero, suc, ◌<◌, ◌≡◌, ◌≢◌, refl, sym, ap, subst, ◌∙◌, inl, inr, Bool, true, false, Option, none,
  some, List, [], ◌∷◌, arith, length, length-append, length-set, get_elem?, set, get_elem?-set_self,
  get_elem?-set_ne, get_elem?-append_left, get_elem?-append_length, if◌then◌else◌, Bool-cases,
  Option-cases,
}
use ibswap_api.Common.Eq.{Text, text_eq, text_eq_iff, text_eq_instance}
use ibswap_api.Common.Dict.{lookup, lookup-insert_self, lookup-insert_ne, insert-cases}
use ibswap_api.Common.Outcome.{ok}
use ibswap_api.Limits.{
  Rate, IpRateLimiter, Event, requests, expires, add_ip, get_limiter, limiter_ware, run,
}

-- The answers that are for an address.
abbrev pub answers_to : Text → List (Text × Bool) → List Bool
answers_to k [] = []
answers_to k (a ∷ as') = let rest = answers_to k as' in if text_eq a.0 k then a.1 ∷ rest else rest

get_elem?-found :
    {A : Type 0} (xs : List A) (p : ℕ) → p < length xs → (x : A) × (get_elem? xs p ≡ some x)
get_elem?-found [] p h = elim h [ ]
get_elem?-found (x ∷ xs) zero h = (x, refl)
get_elem?-found (x ∷ xs) (suc p) h = get_elem?-found xs p (omega arith)

module _ {L : Type 0} (rate : Rate L) where
  abbrev pub or_new : Option L → L
  or_new none = rate.new_limiter
  or_new (some l) = l

  -- One limiter for the requests of one address, made anew for the first of them after a tick.
  abbrev pub alone : Text → List Event → Option L → List Bool
  alone k [] o = []
  alone k (requests ip now ∷ es) o = elim (text_eq ip k) [
    | true ↦ (rate.allow now (or_new o)).0 ∷ alone k es (some (rate.allow now (or_new o)).1)
    | false ↦ alone k es o
  ]
  alone k (expires ∷ es) o = alone k es none

  -- Each address has a limiter of its own.
  pub record IsSeparate (i : IpRateLimiter L) : Type 0 where
    pub held : (k : Text) (p : ℕ) → lookup k i.ips ≡ some p → p < length i.heap
    pub apart : (j k : Text) (p : ℕ) → lookup j i.ips ≡ some p → lookup k i.ips ≡ some p → j ≡ k

  -- The limiter that an address has.
  abbrev pub has : IpRateLimiter L → Text → Option L
  has i k = elim (lookup k i.ips) [ none ↦ none | some p ↦ get_elem? i.heap p ]

  add_ip-IsSeparate :
      (ip : Text) (i : IpRateLimiter L)
      → lookup ip i.ips ≡ none
      → IsSeparate i
      → IsSeparate (add_ip rate ip i).1
  unfolding add_ip
  add_ip-IsSeparate ip i new s = record {
    held = λ k p h. elim (insert-cases k ip (length i.heap) p i.ips h) [
      | inl (_, e) ↦ omega (arith, e, length-append i.heap (rate.new_limiter ∷ []))
      | inr (_, old) ↦ omega (arith, s.held k p old, length-append i.heap (rate.new_limiter ∷ []))
    ];
    apart = λ j k p f g. elim (insert-cases j ip (length i.heap) p i.ips f) [
      | inl (e, at) ↦ elim (insert-cases k ip (length i.heap) p i.ips g) [
        | inl (e', _) ↦ e ∙ sym e'
        | inr (_, old) ↦ absurd (omega (arith, s.held k p old, at))
      ]
      | inr (_, old) ↦ elim (insert-cases k ip (length i.heap) p i.ips g) [
        | inl (_, at) ↦ absurd (omega (arith, s.held j p old, at))
        | inr (_, old') ↦ s.apart j k p old old'
      ]
    ];
  }

  -- After `GetLimiter`, the pointer is that of the address, and no address has lost its limiter.
  pub record Got (ip : Text) (i : IpRateLimiter L) (p : ℕ) (i' : IpRateLimiter L) : Type 0 where
    pub separate : IsSeparate i'
    pub at : lookup ip i'.ips ≡ some p
    pub limiter : get_elem? i'.heap p ≡ some (or_new (has i ip))
    pub others : (k : Text) → k ≢ ip → has i' k ≡ has i k

  added_others :
      (ip : Text) (i : IpRateLimiter L) (k : Text)
      → IsSeparate i
      → k ≢ ip
      → has (add_ip rate ip i).1 k ≡ has i k
  unfolding add_ip
  added_others ip i k s other = elim (Option-cases (lookup k i.ips)) [
    | inl e ↦ rw (has, add_ip, lookup-insert_ne k ip (length i.heap) i.ips other, e) refl
    | inr (q, e) ↦
        rw (has, add_ip, lookup-insert_ne k ip (length i.heap) i.ips other, e)
          (get_elem?-append_left i.heap (rate.new_limiter ∷ []) q (s.held k q e))
  ]

  get_limiter-Got :
      (ip : Text) (i : IpRateLimiter L)
      → IsSeparate i
      → Got ip i (get_limiter rate ip i).0 (get_limiter rate ip i).1
  unfolding get_limiter
  get_limiter-Got ip i s = elim (Option-cases (lookup ip i.ips)) [
    | inl e ↦
        rw (get_limiter, e)
          (record {
            separate = add_ip-IsSeparate ip i e s;
            at = lookup-insert_self ip (length i.heap) i.ips;
            limiter = rw (or_new, has, e) (get_elem?-append_length i.heap rate.new_limiter []);
            others = λ k other. added_others ip i k s other;
          })
    | inr (p, e) ↦
        rw (get_limiter, e)
          (record {
            separate = s;
            at = e;
            limiter =
                let (l, f) = get_elem?-found i.heap p (s.held ip p e) in
                f ∙ rw (or_new, has, e, f) refl;
            others = λ k other. refl;
          })
  ]

  -- What a request is answered, and what it leaves.
  record Served (ip : Text) (now : ℕ) (i i' : IpRateLimiter L) : Type 0 where
    answer : limiter_ware rate ip now i ≡ ok ((rate.allow now (or_new (has i ip))).0, i')
    separate : IsSeparate i'
    spent : has i' ip ≡ some (rate.allow now (or_new (has i ip))).1
    others : (k : Text) → k ≢ ip → has i' k ≡ has i k

  set_others :
      (ip k : Text) (p : ℕ) (l : L) (i : IpRateLimiter L)
      → IsSeparate i
      → lookup ip i.ips ≡ some p
      → k ≢ ip
      → has (record i { heap = set i.heap p l }) k ≡ has i k
  set_others ip k p l i s at other = elim (Option-cases (lookup k i.ips)) [
    | inl e ↦ rw (has, e) refl
    | inr (q, e) ↦
        rw (has, e)
          (get_elem?-set_ne i.heap p q l
            (λ same. other (s.apart k ip p (e ∙ ap some (sym same)) at)))
  ]

  limiter_ware-Served :
      (ip : Text) (now : ℕ) (i : IpRateLimiter L)
      → IsSeparate i
      → (i' : IpRateLimiter L) × Served ip now i i'
  unfolding limiter_ware
  limiter_ware-Served ip now i s =
      let g = get_limiter-Got ip i s in
      let p = (get_limiter rate ip i).0 in
      let i1 = (get_limiter rate ip i).1 in
      let l' = (rate.allow now (or_new (has i ip))).1 in
      (
        record i1 { heap = set i1.heap p l' },
        record {
          answer = rw (limiter_ware, g.limiter) refl;
          separate = record {
            held = λ k q h. omega (arith, g.separate.held k q h, length-set i1.heap p l');
            apart = g.separate.apart;
          };
          spent = rw (has, g.at) (get_elem?-set_self i1.heap p l' (g.separate.held ip p g.at));
          others = λ k other. set_others ip k p l' i1 g.separate g.at other ∙ g.others k other;
        },
      )

  pub nothing : (i : IpRateLimiter L) → IsSeparate (record i { ips = [] })
  unfolding lookup
  nothing i = record { held = λ k p h. cc h; apart = λ j k p f g. cc f }

  to_each :
      (ip : Text) (now : ℕ) (es : List Event) (i i' : IpRateLimiter L) (ans : List (Text × Bool))
      → Served ip now i i'
      → ((k : Text) → answers_to k ans ≡ alone k es (has i' k))
      → (k : Text)
      → answers_to k ((ip, (rate.allow now (or_new (has i ip))).0) ∷ ans)
        ≡ alone k (requests ip now ∷ es) (has i k)
  to_each ip now es i i' ans h f k = elim (Bool-cases (text_eq ip k)) [
    | inl same ↦
        subst
          (λ j.
            answers_to j ((ip, (rate.allow now (or_new (has i ip))).0) ∷ ans)
            ≡ alone j (requests ip now ∷ es) (has i j))
          ((text_eq_iff ip k).0 same)
          (rw (answers_to, alone, (text_eq_iff ip ip).1 refl)
            (ap (◌∷◌ (rate.allow now (or_new (has i ip))).0) (f ip ∙ ap (alone ip es) h.spent)))
    | inr other ↦
        rw (answers_to, alone, other)
          (f k ∙ ap (alone k es) (h.others k (λ p. cc (other, (text_eq_iff ip k).1 (sym p)))))
  ]

  -- When each request's `GetLimiter` and `Allow` end before those of the next request begin (so that
  -- nothing comes between the two critical sections of `GetLimiter`), then in any order of the requests of
  -- the addresses and the ticks of `expired`, no request panics, and each address is answered as by one
  -- limiter that serves its own requests only, and that is made anew for the first of them after a tick.
  pub run-alone :
      (es : List Event) (i : IpRateLimiter L)
      → IsSeparate i
      → (ans : List (Text × Bool)) × (run rate es i ≡ ok ans)
        × ((k : Text) → answers_to k ans ≡ alone k es (has i k))
  unfolding run lookup
  run-alone [] i s = ([], refl, λ k. refl)
  run-alone (requests ip now ∷ es) i s =
      let (i', h) = limiter_ware-Served ip now i s in
      let (ans, e, f) = run-alone es i' h.separate in
      (
        (ip, (rate.allow now (or_new (has i ip))).0) ∷ ans,
        rw (run, h.answer, e) refl,
        λ k. to_each ip now es i i' ans h f k,
      )
  run-alone (expires ∷ es) i s =
      let (ans, e, f) = run-alone es (record i { ips = [] }) (nothing i) in
      (ans, rw (run, e) refl, f)
