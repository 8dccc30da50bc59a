-- ===== src/Limits/Race.antt =====
-- api/middleware/limiter.go: `GetLimiter` by requests at the same time. It unlocks between its lookup
-- and the `Lock` of `AddIP`, so that another request can come in between.
use ibswap_api.Common.{
  Bool, true, false, sym, inl, inr, Option-cases, ℕ, ◌+◌, ◌≡◌, refl, ap, ap₂, ◌∙◌, none, some, List,
  [], ◌∷◌, length, length-append, get_elem?, set,
}
use ibswap_api.Common.Eq.{Text, text_eq_instance}
use ibswap_api.Common.Dict.{lookup, lookup-insert_self}
use ibswap_api.Limits.{Rate, IpRateLimiter, add_ip, get_limiter}

-- How far a request is in `GetLimiter`: before its lookup, after one that found nothing, or at the end.
pub data Phase : Type 0 where
  looks : Phase
  adds : Phase
  holds : ℕ → Phase

pub record Asking : Type 0 where
  pub ip : Text
  pub phase : Phase

abbrev pub asks : Text → Asking
asks ip = record { ip = ip; phase = looks }

module _ {L : Type 0} (rate : Rate L) where
  -- The next critical section of a request.
  unfoldable pub advance : Asking → IpRateLimiter L → Asking × IpRateLimiter L
  advance a i = elim a.phase [
    | looks ↦ elim (lookup a.ip i.ips) [
      | none ↦ (record a { phase = adds }, i)
      | some p ↦ (record a { phase = holds p }, i)
    ]
    | adds ↦ let (p, i') = add_ip rate a.ip i in (record a { phase = holds p }, i')
    | holds p ↦ (a, i)
  ]

  -- Critical sections in the order of a schedule, which names the requests by their numbers.
  unfoldable pub interleave : List ℕ → List Asking → IpRateLimiter L → List Asking × IpRateLimiter L
  unfolding advance
  interleave [] as_is i = (as_is, i)
  interleave (n ∷ ns) as_is i = elim (get_elem? as_is n) [
    | none ↦ interleave ns as_is i
    | some a ↦ let (a', i') = advance a i in interleave ns (set as_is n a') i'
  ]

  advance-absent :
      (ip : Text) (i : IpRateLimiter L)
      → lookup ip i.ips ≡ none
      → advance (asks ip) i ≡ (record { ip = ip; phase = adds }, i)
  unfolding advance
  advance-absent ip i e = rw (e, advance) refl

  advance-present :
      (ip : Text) (p : ℕ) (i : IpRateLimiter L)
      → lookup ip i.ips ≡ some p
      → advance (asks ip) i ≡ (record { ip = ip; phase = holds p }, i)
  unfolding advance
  advance-present ip p i e = rw (e, advance) refl

  interleave-step :
      (n : ℕ) (ns : List ℕ) (as_is : List Asking) (i i' : IpRateLimiter L) (a a' : Asking)
      → get_elem? as_is n ≡ some a
      → advance a i ≡ (a', i')
      → interleave (n ∷ ns) as_is i ≡ interleave ns (set as_is n a') i'
  unfolding interleave
  interleave-step n ns as_is i i' a a' e f = rw (e, interleave, f) refl

  abbrev pub done : Text → ℕ → Asking
  done ip p = record { ip = ip; phase = holds p }

  abbrev missed : Text → Asking
  missed ip = record { ip = ip; phase = adds }

  advance-adds :
      (ip : Text) (i : IpRateLimiter L)
      → advance (missed ip) i ≡ (done ip (add_ip rate ip i).0, (add_ip rate ip i).1)
  unfolding advance
  advance-adds ip i = refl

  interleave-none : (as_is : List Asking) (i : IpRateLimiter L) → interleave [] as_is i ≡ (as_is, i)
  unfolding interleave
  interleave-none as_is i = refl

  added_length :
      (ip : Text) (i : IpRateLimiter L)
      → (add_ip rate ip (add_ip rate ip i).1).0 ≡ length i.heap + 1
  unfolding add_ip
  added_length ip i = length-append i.heap (rate.new_limiter ∷ [])

  added-found :
      (ip : Text) (i : IpRateLimiter L) → lookup ip (add_ip rate ip i).1.ips ≡ some (length i.heap)
  unfolding add_ip
  added-found ip i = lookup-insert_self ip (length i.heap) i.ips

  -- Two requests, the one that is first named by a Bool.
  abbrev pub before : Bool → ℕ
  before false = 0
  before true = 1

  abbrev pub later : Bool → ℕ
  later false = 1
  later true = 0

  -- Two requests that have added their limiters, in this order.
  abbrev pub two_holders : Text → Bool → ℕ → List Asking
  two_holders ip false n = done ip n ∷ done ip (n + 1) ∷ []
  two_holders ip true n = done ip (n + 1) ∷ done ip n ∷ []

  both_missed :
      (ip : Text) (i : IpRateLimiter L) (x : Bool) (ns : List ℕ)
      → lookup ip i.ips ≡ none
      → interleave (before x ∷ later x ∷ ns) (asks ip ∷ asks ip ∷ []) i
        ≡ interleave ns (missed ip ∷ missed ip ∷ []) i
  both_missed ip i false ns e =
      interleave-step 0 _ _ i i (asks ip) (missed ip) refl (advance-absent ip i e)
      ∙ interleave-step 1 _ _ i i (asks ip) (missed ip) refl (advance-absent ip i e)
  both_missed ip i true ns e =
      interleave-step 1 _ _ i i (asks ip) (missed ip) refl (advance-absent ip i e)
      ∙ interleave-step 0 _ _ i i (asks ip) (missed ip) refl (advance-absent ip i e)

  first_added : (ip : Text) (i : IpRateLimiter L) → (add_ip rate ip i).0 ≡ length i.heap
  unfolding add_ip
  first_added ip i = refl

  both_added :
      (ip : Text) (i : IpRateLimiter L) (x : Bool)
      → let i1 = (add_ip rate ip i).1 in
        interleave (before x ∷ later x ∷ []) (missed ip ∷ missed ip ∷ []) i
        ≡ (two_holders ip x (length i.heap), (add_ip rate ip i1).1)
  both_added ip i false =
      let i1 = (add_ip rate ip i).1 in
      interleave-step 0 _ _ i i1 (missed ip) _ refl (advance-adds ip i)
      ∙ interleave-step 1 _ _ i1 (add_ip rate ip i1).1 (missed ip) _ refl (advance-adds ip i1)
      ∙ interleave-none _ _
      ∙ ap₂ (λ a b. (done ip a ∷ done ip b ∷ [], (add_ip rate ip i1).1)) (first_added ip i)
          (added_length ip i)
  both_added ip i true =
      let i1 = (add_ip rate ip i).1 in
      interleave-step 1 _ _ i i1 (missed ip) _ refl (advance-adds ip i)
      ∙ interleave-step 0 _ _ i1 (add_ip rate ip i1).1 (missed ip) _ refl (advance-adds ip i1)
      ∙ interleave-none _ _
      ∙ ap₂ (λ a b. (done ip b ∷ done ip a ∷ [], (add_ip rate ip i1).1)) (first_added ip i)
          (added_length ip i)

  one_after_the_other :
      (ip : Text) (i : IpRateLimiter L) (x : Bool)
      → lookup ip i.ips ≡ none
      → let n = length i.heap in
        interleave (before x ∷ before x ∷ later x ∷ []) (asks ip ∷ asks ip ∷ []) i
        ≡ (done ip n ∷ done ip n ∷ [], (add_ip rate ip i).1)
  one_after_the_other ip i false e =
      let i1 = (add_ip rate ip i).1 in
      interleave-step 0 _ _ i i (asks ip) (missed ip) refl (advance-absent ip i e)
      ∙ interleave-step 0 _ _ i i1 (missed ip) _ refl (advance-adds ip i)
      ∙ interleave-step 1 _ _ i1 i1 (asks ip) (done ip (length i.heap)) refl
          (advance-present ip (length i.heap) i1 (added-found ip i))
      ∙ interleave-none _ _
      ∙ ap (λ a. (done ip a ∷ done ip (length i.heap) ∷ [], i1)) (first_added ip i)
  one_after_the_other ip i true e =
      let i1 = (add_ip rate ip i).1 in
      interleave-step 1 _ _ i i (asks ip) (missed ip) refl (advance-absent ip i e)
      ∙ interleave-step 1 _ _ i i1 (missed ip) _ refl (advance-adds ip i)
      ∙ interleave-step 0 _ _ i1 i1 (asks ip) (done ip (length i.heap)) refl
          (advance-present ip (length i.heap) i1 (added-found ip i))
      ∙ interleave-none _ _
      ∙ ap (λ a. (done ip (length i.heap) ∷ done ip a ∷ [], i1)) (first_added ip i)

  twice_found :
      (ip : Text) (i : IpRateLimiter L)
      → lookup ip (add_ip rate ip (add_ip rate ip i).1).1.ips ≡ some (length i.heap + 1)
  twice_found ip i =
      added-found ip (add_ip rate ip i).1
      ∙ ap some (sym (first_added ip (add_ip rate ip i).1) ∙ added_length ip i)

  -- For two first requests of an address, by the order of their critical sections. When both look before
  -- either adds, then whichever looks first and whichever adds first, they hold two limiters, the one
  -- that adds first the first of them, and `ips` keeps only the limiter of the one that adds later. When
  -- either is done before the other looks, both hold the same limiter, which `ips` keeps.
  pub first_requests_race :
      (ip : Text) (i : IpRateLimiter L) (looker adder : Bool)
      → lookup ip i.ips ≡ none
      → let n = length i.heap in
        let both = asks ip ∷ asks ip ∷ [] in
        let i1 = (add_ip rate ip i).1 in
        let i2 = (add_ip rate ip i1).1 in
        (interleave (before looker ∷ later looker ∷ before adder ∷ later adder ∷ []) both i
          ≡ (two_holders ip adder n, i2))
        × (lookup ip i2.ips ≡ some (n + 1))
        × (interleave (before looker ∷ before looker ∷ later looker ∷ []) both i
            ≡ (done ip n ∷ done ip n ∷ [], i1))
        × (lookup ip i1.ips ≡ some n)
  first_requests_race ip i looker adder e = (
    both_missed ip i looker _ e ∙ both_added ip i adder,
    twice_found ip i,
    one_after_the_other ip i looker e,
    added-found ip i,
  )

  get_limiter-absent :
      (ip : Text) (i : IpRateLimiter L)
      → lookup ip i.ips ≡ none
      → get_limiter rate ip i ≡ add_ip rate ip i
  unfolding get_limiter
  get_limiter-absent ip i e = rw (e, get_limiter) refl

  get_limiter-present :
      (ip : Text) (p : ℕ) (i : IpRateLimiter L)
      → lookup ip i.ips ≡ some p
      → get_limiter rate ip i ≡ (p, i)
  unfolding get_limiter
  get_limiter-present ip p i e = rw (e, get_limiter) refl

  advance-done : (ip : Text) (p : ℕ) (i : IpRateLimiter L) → advance (done ip p) i ≡ (done ip p, i)
  unfolding advance
  advance-done ip p i = refl

  -- The critical sections of one request with nothing in between.
  pub uninterrupted :
      (ip : Text) (i : IpRateLimiter L)
      → interleave (0 ∷ 0 ∷ []) (asks ip ∷ []) i
        ≡ (done ip (get_limiter rate ip i).0 ∷ [], (get_limiter rate ip i).1)
  uninterrupted ip i =
      let answer : ℕ × IpRateLimiter L → List Asking × IpRateLimiter L =
        λ x. (done ip x.0 ∷ [], x.1) in
      elim (Option-cases (lookup ip i.ips)) [
        | inl e ↦
            interleave-step 0 _ _ i i (asks ip) (missed ip) refl (advance-absent ip i e)
            ∙ interleave-step 0 _ _ i (add_ip rate ip i).1 (missed ip) _ refl (advance-adds ip i)
            ∙ interleave-none _ _
            ∙ ap answer (sym (get_limiter-absent ip i e))
        | inr (p, e) ↦
            interleave-step 0 _ _ i i (asks ip) (done ip p) refl (advance-present ip p i e)
            ∙ interleave-step 0 _ _ i i (done ip p) (done ip p) refl (advance-done ip p i)
            ∙ interleave-none _ _
            ∙ ap answer (sym (get_limiter-present ip p i e))
      ]
