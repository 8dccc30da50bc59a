-- ===== src/Chain/Scan/Progress.antt =====
-- The polling loops of service/evm.go: how soon they reach the head, and where they start.
use ibswap_api.Common.{
  ℕ, ◌+◌, ◌-◌, ◌*◌, ◌^◌, ◌≤◌, ◌<◌, ◌≡◌, refl, ap, ◌∙◌, ◌⊎◌, inl, inr, true, List, [], ◌∷◌, arith,
  ltb, lt→ltb, All, All-weaken, Bool-cases, length,
}
use ibswap_api.Common.Outcome.{value, Result-cases}
use ibswap_api.Chain.Scan.{Round, Step, add64, query, scan_round, scan_v2_round, scan, start_height}
use ibswap_api.Chain.Scan.Delivery.{delivered}

module _ {L : Type 0} where
  -- A round in which the node answers, with a head that is not below `h`.
  pub record Answers (h : ℕ) (r : Round L) : Type 0 where
    pub head : ℕ
    pub known : r.head ≡ value head
    pub reached : h ≤ head
    pub fits : head + 1 < 2 ^ 64
    pub logs : (lo hi : ℕ) → (ls : List L) × (r.filter_logs lo hi ≡ value ls)

  query-next :
      (lo hi : ℕ) (r : Round L) (ls : List L)
      → hi + 1 < 2 ^ 64
      → r.filter_logs lo hi ≡ value ls
      → (query lo hi r).0 ≡ hi + 1
  unfolding query
  query-next lo hi r ls b e = rw (e, query) (omega arith)

  scan_round_progress :
      (max h lo : ℕ) (r : Round L)
      → Answers h r
      → let next = (scan_round max lo r).0 in (lo ≤ next) × ((h < next) ⊎ (lo + max < next))
  unfolding scan_round
  scan_round_progress max h lo r a =
      rw (a.known, scan_round)
        (elim (Bool-cases (ltb a.head lo)) [
          | inl below ↦ rw below (omega arith, inl (ground (arith, a.reached)))
          | inr above ↦ rw above (elim (Bool-cases (ltb max (a.head - lo))) [
            | inl far ↦
                let gap : max < a.head - lo = ground arith in
                let (ls, e) = a.logs lo (add64 lo max) in
                let n : (query lo (add64 lo max) r).0 ≡ add64 lo max + 1 =
                  query-next lo (add64 lo max) r ls (omega (arith, a.fits)) e in
                rw (far, n) (omega (arith, a.fits), inr (omega (arith, a.fits)))
            | inr near ↦
                let (ls, e) = a.logs lo a.head in
                let n : (query lo a.head r).0 ≡ a.head + 1 = query-next lo a.head r ls a.fits e in
                rw (near, n) (ground arith, inl (omega (arith, a.reached)))
          ])
        ])

  scan_v2_round_progress :
      (h lo : ℕ) (r : Round L)
      → Answers h r
      → let next = (scan_v2_round lo r).0 in (lo ≤ next) × ((h < next) ⊎ (lo + 9999 < next))
  unfolding scan_v2_round
  scan_v2_round_progress h lo r a =
      rw (a.known, scan_v2_round)
        (elim (Bool-cases (ltb a.head lo)) [
          | inl below ↦ rw below (omega arith, inl (ground (arith, a.reached)))
          | inr above ↦ rw above (elim (Bool-cases (ltb 10000 (a.head - lo))) [
            | inl far ↦
                let gap : 10000 < a.head - lo = ground arith in
                let (ls, e) = a.logs lo (add64 lo 9999) in
                let n : (query lo (add64 lo 9999) r).0 ≡ add64 lo 9999 + 1 =
                  query-next lo (add64 lo 9999) r ls (omega (arith, a.fits)) e in
                rw (far, n) (omega (arith, a.fits), inr (omega (arith, a.fits)))
            | inr near ↦
                let (ls, e) = a.logs lo a.head in
                let n : (query lo a.head r).0 ≡ a.head + 1 = query-next lo a.head r ls a.fits e in
                rw (near, n) (ground arith, inl (omega (arith, a.reached)))
          ])
        ])

  -- A loop whose rounds pass `h` or go up by `width + 1` passes `h` when there are enough of them.
  catches_up :
      (width h : ℕ) (round : ℕ → Round L → ℕ × Step L)
      → ((lo : ℕ) (r : Round L)
          → Answers h r
          → (lo ≤ (round lo r).0) × ((h < (round lo r).0) ⊎ (lo + width < (round lo r).0)))
      → (rs : List (Round L)) (lo : ℕ) → All (Answers h) rs
      → (lo ≤ (scan round lo rs).0)
        × ((h < (scan round lo rs).0) ⊎ (lo + length rs * (width + 1) ≤ (scan round lo rs).0))
  unfolding scan
  catches_up width h round step [] lo a = (omega arith, inr (omega arith))
  catches_up width h round step (r ∷ rs) lo a =
      omega (arith, step lo r a.0, catches_up width h round step rs (round lo r).0 a.1)

  -- While every round is answered, by a head that is not below `h`, the loop of `scanPoolsV3`,
  -- `scanNft` and `scanFactory` is past height `h` after as many rounds as it takes to cover the
  -- distance in steps of `max + 1`.
  pub scan_round_catches_up :
      (max h : ℕ) (rs : List (Round L)) (lo : ℕ)
      → All (Answers h) rs
      → h < lo + length rs * (max + 1)
      → h < (scan (scan_round max) lo rs).0
  scan_round_catches_up max h rs lo a enough =
      omega (arith, catches_up max h (scan_round max) (scan_round_progress max h) rs lo a)

  -- While every round is answered, by a head that is not below `h`, the loop of `scanPoolsV2` is past
  -- height `h` after as many rounds as it takes to cover the distance in steps of 10000.
  scan_v2_round_catches_up :
      (h : ℕ) (rs : List (Round L)) (lo : ℕ)
      → All (Answers h) rs
      → h < lo + length rs * 10000
      → h < (scan scan_v2_round lo rs).0
  scan_v2_round_catches_up h rs lo a enough =
      omega (arith, catches_up 9999 h scan_v2_round (scan_v2_round_progress h) rs lo a)

  -- A head that is far below the top of uint64.
  abbrev pub HeadBelow : ℕ → Round L → Type 0
  HeadBelow b r = (head : ℕ) → r.head ≡ value head → head < b

  scan_round_waits :
      (max lo : ℕ) (r : Round L) (steps : List (Step L))
      → HeadBelow lo r
      → ((scan_round max lo r).0 ≡ lo)
        × (delivered ((scan_round max lo r).1 ∷ steps) ≡ delivered steps)
  unfolding scan_round
  scan_round_waits max lo r steps b = elim (Result-cases r.head) [
    | inl (m, e) ↦ rw (e, scan_round) (refl, refl)
    | inr (h, e) ↦
        let below : ltb h lo ≡ true = lt→ltb h lo (b h e) in
        rw (e, scan_round) (rw below (refl, refl))
  ]

  scan_waits :
      (max lo : ℕ) (rs : List (Round L))
      → All (HeadBelow lo) rs
      → ((scan (scan_round max) lo rs).0 ≡ lo) × (delivered (scan (scan_round max) lo rs).1 ≡ [])
  unfolding scan
  scan_waits max lo [] b = (refl, refl)
  scan_waits max lo (r ∷ rs) b = (
    ap (λ (k : ℕ). (scan (scan_round max) k rs).0) here.0 ∙ (scan_waits max lo rs b.1).0,
    here.1
        ∙ ap (λ (k : ℕ). delivered (scan (scan_round max) k rs).1) here.0
        ∙ (scan_waits max lo rs b.1).1,
  )
    where
      later : List (Step L)
      later = (scan (scan_round max) (scan_round max lo r).0 rs).1

      here :
          ((scan_round max lo r).0 ≡ lo)
          × (delivered ((scan_round max lo r).1 ∷ later) ≡ delivered later)
      here = scan_round_waits max lo r later b.0

  -- A loop that is started while the chain has fewer than 400 blocks hands nothing over, in any
  -- number of rounds whose heads stay below 2^64 - 400: the start wraps round to a height above them.
  pub short_chain_never_scanned :
      (max head : ℕ) (rs : List (Round L))
      → head < 400
      → All (HeadBelow (2 ^ 64 - 400)) rs
      → delivered (scan (scan_round max) (start_height head) rs).1 ≡ []
  unfolding start_height
  short_chain_never_scanned max head rs h b =
      (scan_waits max _ rs (All-weaken rs (λ r f k e. omega (arith, f k e)) b)).1
