-- ===== src/Chain/Scan/Delivery.antt =====
-- The polling loops of service/evm.go: every block's logs are handed over once and in order.
use ibswap_api.Common.{
  ℕ, zero, suc, ◌+◌, ◌-◌, ◌^◌, ◌≤◌, ◌<◌, ◌≡◌, refl, ap, ap₂, ◌∙◌, inl, inr, List, [], ◌∷◌, ◌++◌,
  arith, ltb, All, Bool-cases,
}
use mathlib.Core.List.{append_assoc}
use ibswap_api.Common.Outcome.{value, Result-cases}
use ibswap_api.Chain.Scan.{
  Round, Step, waited, block_number_error, filter_logs_error, scanned, add64, query, scan_round,
  scan_v2_round, scan,
}

module _ {L : Type 0} where
  -- The logs of `n` blocks from height `lo` on.
  abbrev pub logs_of : (ℕ → List L) → ℕ → ℕ → List L
  logs_of chain lo zero = []
  logs_of chain lo (suc n) = chain lo ++ logs_of chain (suc lo) n

  -- The logs that were handed over, in order.
  abbrev pub delivered : List (Step L) → List L
  delivered [] = []
  delivered (scanned lo hi logs ∷ steps) = logs ++ delivered steps
  delivered (waited ∷ steps) = delivered steps
  delivered (block_number_error m ∷ steps) = delivered steps
  delivered (filter_logs_error m ∷ steps) = delivered steps

  -- No query spans more than `width` heights above its first.
  abbrev pub IsNarrow : ℕ → Step L → Type 0
  IsNarrow width (scanned lo hi logs) = (lo ≤ hi) × (hi - lo ≤ width)
  IsNarrow width waited = Unit
  IsNarrow width (block_number_error m) = Unit
  IsNarrow width (filter_logs_error m) = Unit

  -- What the node promises of `FilterLogs`: the logs of the blocks of the range, both ends included.
  -- The head is a height that has a successor in uint64.
  pub record IsFaithful (chain : ℕ → List L) (r : Round L) : Type 0 where
    pub answers :
        (lo hi : ℕ) (logs : List L)
        → lo ≤ hi
        → r.filter_logs lo hi ≡ value logs
        → logs ≡ logs_of chain lo (suc hi - lo)
    pub head_bound : (head : ℕ) → r.head ≡ value head → head + 1 < 2 ^ 64

  -- What one round may do from `lo`: nothing is handed over and the height stays, or a range is.
  abbrev Advances : ℕ → (ℕ → List L) → ℕ → ℕ × Step L → Type 0
  Advances width chain lo (next, scanned a b logs) =
      (a ≡ lo)
      × (lo ≤ b)
      × (b - lo ≤ width)
      × (next ≡ suc b)
      × (logs ≡ logs_of chain lo (suc b - lo))
  Advances width chain lo (next, waited) = next ≡ lo
  Advances width chain lo (next, block_number_error m) = next ≡ lo
  Advances width chain lo (next, filter_logs_error m) = next ≡ lo

  query-Advances :
      (width : ℕ) (chain : ℕ → List L) (lo hi : ℕ) (r : Round L)
      → IsFaithful chain r
      → lo ≤ hi
      → hi - lo ≤ width
      → hi + 1 < 2 ^ 64
      → Advances width chain lo (query lo hi r)
  unfolding query
  query-Advances width chain lo hi r f h w b = elim (Result-cases (r.filter_logs lo hi)) [
    | inl (m, e) ↦ rw (e, query) refl
    | inr (logs, e) ↦ rw (e, query) (refl, h, w, omega arith, f.answers lo hi logs h e)
  ]

  scan_round-Advances :
      (max : ℕ) (chain : ℕ → List L) (lo : ℕ) (r : Round L)
      → IsFaithful chain r
      → Advances max chain lo (scan_round max lo r)
  unfolding scan_round
  scan_round-Advances max chain lo r f = elim (Result-cases r.head) [
    | inl (m, e) ↦ rw (e, scan_round) refl
    | inr (h, e) ↦
        rw (e, scan_round)
          (elim (Bool-cases (ltb h lo)) [
            | inl below ↦ rw below refl
            | inr above ↦ rw above (elim (Bool-cases (ltb max (h - lo))) [
              | inl far ↦
                  let fits : h + 1 < 2 ^ 64 = f.head_bound h e in
                  let gap : max < h - lo = ground arith in
                  rw far (
                    query-Advances max chain lo (add64 lo max) r f (omega arith) (omega arith)
                      (omega arith))
              | inr near ↦ rw near (
                  query-Advances max chain lo h r f (ground arith) (ground arith)
                    (f.head_bound h e))
            ])
          ])
  ]

  scan_v2_round-Advances :
      (chain : ℕ → List L) (lo : ℕ) (r : Round L)
      → IsFaithful chain r
      → Advances 10000 chain lo (scan_v2_round lo r)
  unfolding scan_v2_round
  scan_v2_round-Advances chain lo r f = elim (Result-cases r.head) [
    | inl (m, e) ↦ rw (e, scan_v2_round) refl
    | inr (h, e) ↦
        rw (e, scan_v2_round)
          (elim (Bool-cases (ltb h lo)) [
            | inl below ↦ rw below refl
            | inr above ↦ rw above (elim (Bool-cases (ltb 10000 (h - lo))) [
              | inl far ↦
                  let fits : h + 1 < 2 ^ 64 = f.head_bound h e in
                  let gap : 10000 < h - lo = ground arith in
                  rw far (
                    query-Advances 10000 chain lo (add64 lo 9999) r f (omega arith) (omega arith)
                      (omega arith))
              | inr near ↦ rw near (
                  query-Advances 10000 chain lo h r f (ground arith) (ground arith)
                    (f.head_bound h e))
            ])
          ])
  ]

  logs_of-append :
      (chain : ℕ → List L) (m n lo mid len : ℕ)
      → lo + m ≡ mid
      → m + n ≡ len
      → logs_of chain lo m ++ logs_of chain mid n ≡ logs_of chain lo len
  logs_of-append chain zero n lo mid len p q = ap₂ (logs_of chain) (omega arith) (omega arith)
  logs_of-append chain (suc m) n lo mid len p q =
      append_assoc (chain lo) (logs_of chain (suc lo) m) (logs_of chain mid n)
      ∙ ap (◌++◌ (chain lo)) (logs_of-append chain m n (suc lo) mid (m + n) (omega arith) refl)
      ∙ ap (logs_of chain lo) step
    where
      step : suc (m + n) ≡ len
      step = omega arith

  -- What a whole run from `lo` has done.
  pub record Covers (width : ℕ) (chain : ℕ → List L) (lo : ℕ) (run : ℕ × List (Step L))
      : Type 0 where
    pub forward : lo ≤ run.0
    pub exact : delivered run.1 ≡ logs_of chain lo (run.0 - lo)
    pub narrow : All (IsNarrow width) run.1

  Covers-waiting :
      (width : ℕ) (chain : ℕ → List L) (lo next end : ℕ) (steps : List (Step L)) (s : Step L)
      → next ≡ lo
      → delivered (s ∷ steps) ≡ delivered steps
      → IsNarrow width s
      → Covers width chain next (end, steps)
      → Covers width chain lo (end, s ∷ steps)
  Covers-waiting width chain lo next end steps s e quiet narrow c = record {
    forward = omega (arith, c.forward);
    exact = quiet ∙ c.exact ∙ ap (λ (n : ℕ). logs_of chain n (end - n)) e;
    narrow = (narrow, c.narrow);
  }

  Covers-step :
      (width : ℕ) (chain : ℕ → List L) (lo next end : ℕ) (steps : List (Step L)) (s : Step L)
      → Advances width chain lo (next, s)
      → Covers width chain next (end, steps)
      → Covers width chain lo (end, s ∷ steps)
  Covers-step width chain lo next end steps waited a c =
      Covers-waiting width chain lo next end steps waited a refl tt c
  Covers-step width chain lo next end steps (block_number_error m) a c =
      Covers-waiting width chain lo next end steps (block_number_error m) a refl tt c
  Covers-step width chain lo next end steps (filter_logs_error m) a c =
      Covers-waiting width chain lo next end steps (filter_logs_error m) a refl tt c
  Covers-step width chain lo next end steps (scanned b d logs) (eb, le, wide, en, el) c = record {
    forward = omega (arith, c.forward);
    exact =
        ap₂ ◌++◌ el c.exact
        ∙ logs_of-append chain (suc d - lo) (end - next) lo next (end - lo) (omega arith)
            (omega (arith, c.forward));
    narrow = ((omega arith, omega arith), c.narrow);
  }

  scan-Covers :
      (width : ℕ) (chain : ℕ → List L) (round : ℕ → Round L → ℕ × Step L)
      → ((lo : ℕ) (r : Round L) → IsFaithful chain r → Advances width chain lo (round lo r))
      → (rs : List (Round L)) (lo : ℕ) → All (IsFaithful chain) rs
      → Covers width chain lo (scan round lo rs)
  unfolding scan
  scan-Covers width chain round advances [] lo f = record {
    forward = omega arith;
    exact = let none_yet : 0 ≡ lo - lo = omega arith in ap (logs_of chain lo) none_yet;
    narrow = tt;
  }
  scan-Covers width chain round advances (r ∷ rs) lo f =
      Covers-step width chain lo (round lo r).0 _ _ (round lo r).1 (advances lo r f.0)
        (scan-Covers width chain round advances rs (round lo r).0 f.1)

  -- `scanPoolsV3`, `scanNft` and `scanFactory` over any run of rounds, with errors and waiting among
  -- them: what was handed over is the logs of all blocks from the first height to the one reached,
  -- each block once and in order, by queries whose last height is at most `max` above the
  -- first. The node is taken to answer `FilterLogs` with the logs of the range.
  pub scan_round-Covers :
      (max : ℕ) (chain : ℕ → List L) (rs : List (Round L)) (lo : ℕ)
      → All (IsFaithful chain) rs
      → Covers max chain lo (scan (scan_round max) lo rs)
  scan_round-Covers max chain =
      scan-Covers max chain (scan_round max) (scan_round-Advances max chain)

  -- `scanPoolsV2` over any run of rounds, with errors and waiting among them: what was handed over
  -- is the logs of all blocks from the first height to the one reached, each block once and in
  -- order, by queries whose last height is at most 10000 above the first. The node is taken to answer
  -- `FilterLogs` with the logs of the range.
  pub scan_v2_round-Covers :
      (chain : ℕ → List L) (rs : List (Round L)) (lo : ℕ)
      → All (IsFaithful chain) rs
      → Covers 10000 chain lo (scan scan_v2_round lo rs)
  scan_v2_round-Covers chain = scan-Covers 10000 chain scan_v2_round (scan_v2_round-Advances chain)
