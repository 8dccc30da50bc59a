-- ===== src/Limits.antt =====
-- api/middleware/limiter.go: a limiter for each address. The limiter itself, of golang.org/x/time/rate,
-- is a parameter. Here each call ends before the next begins; as `GetLimiter` unlocks before `AddIP`
-- locks, other calls can come in between, for which Limits.Race has its critical sections.
pub mod Own
pub mod Race
use ibswap_api.Common.{ℕ, Bool, Option, none, some, List, [], ◌∷◌, ◌++◌, length, get_elem?, set}
use ibswap_api.Common.Eq.{Text, text_eq_instance}
use ibswap_api.Common.Dict.{Dict, lookup, insert}
use ibswap_api.Common.Outcome.{Outcome, ok, panic, ◌>>=◌, deref}

-- `rate.NewLimiter` at the rate and the burst of an `IPRateLimiter`, and `Allow` at a time.
pub record Rate (L : Type 0) : Type 0 where
  pub new_limiter : L
  pub allow : ℕ → L → Bool × L

-- `IPRateLimiter`: `ips` holds pointers into the heap of limiters.
pub record IpRateLimiter (L : Type 0) : Type 0 where
  pub heap : List L
  pub ips : Dict Text ℕ

-- A request of an address at a time, or a tick of `expired`.
pub data Event : Type 0 where
  requests : Text → ℕ → Event
  expires : Event

module _ {L : Type 0} (rate : Rate L) where
  -- `NewIPRateLimiter`
  abbrev pub new_ip_rate_limiter : IpRateLimiter L
  new_ip_rate_limiter = record { heap = []; ips = [] }

  -- `AddIP`
  unfoldable pub add_ip : Text → IpRateLimiter L → ℕ × IpRateLimiter L
  add_ip ip i =
      let p = length i.heap in
      (p, record { heap = i.heap ++ rate.new_limiter ∷ []; ips = insert ip p i.ips })

  -- `GetLimiter`, when nothing comes between its two critical sections, the lookup and `AddIP`.
  unfoldable pub get_limiter : Text → IpRateLimiter L → ℕ × IpRateLimiter L
  unfolding add_ip
  get_limiter ip i = elim (lookup ip i.ips) [ none ↦ add_ip ip i | some p ↦ (p, i) ]

  -- `SignIpRateLimiterWare` and `PublicIpRateLimiterWare`: whether the request goes on.
  unfoldable pub limiter_ware : Text → ℕ → IpRateLimiter L → Outcome (Bool × IpRateLimiter L)
  unfolding get_limiter
  limiter_ware ip now i = do
    let (p, i') = get_limiter ip i
    l ← deref (get_elem? i'.heap p)
    let (fine, l') = rate.allow now l
    ok (fine, record i' { heap = set i'.heap p l' })

  -- A sequence of events, one after the other, with the address and the answer of each request.
  unfoldable pub run : List Event → IpRateLimiter L → Outcome (List (Text × Bool))
  unfolding limiter_ware
  run [] i = ok []
  run (requests ip now ∷ es) i = do
    (fine, i') ← limiter_ware ip now i
    rest ← run es i'
    ok ((ip, fine) ∷ rest)
  run (expires ∷ es) i = run es (record i { ips = [] })
