-- ===== src/Daemon/Restarts.antt =====
-- daemon/daemon.go: when the loop of `Run` gives the restarts up.
use ibswap_api.Common.{
  Option-cases, some, none, ℕ, ◌+◌, ◌≤◌, ◌<◌, ◌≡◌, ◌↔◌, refl, sym, ap, subst, ◌∙◌, ◌⊎◌, inl, inr,
  Bool, true, false, List, [], ◌∷◌, ◌++◌, arith, length, All, Bool-cases,
}
use ibswap_api.Common.Int.{pos, ltb_ℤ}
use ibswap_api.Daemon.{failure, Daemon, Watch, Turn, goes_on, exits, Answer, judge, run_loop, run}
use ibswap_api.Daemon.Roles.{next, above, first_watch, run_round-goes_on, run-run_loop}

-- The process could not be started, or ended too soon.
unfoldable pub is_bad : Daemon → Answer → Bool
is_bad d a = elim (failure d a) [ some m ↦ true | none ↦ ltb_ℤ a.dat d.min_exit_time ]

abbrev pub AllBad : Daemon → List Answer → Type 0
AllBad d = All (λ a. is_bad d a ≡ true)

-- `m` bad passages one after the other, and one after them.
pub record Streak (d : Daemon) (m : ℕ) (answers : List Answer) : Type 0 where
  pub before : List Answer
  pub bads : List Answer
  pub last : Answer
  pub after : List Answer
  pub split : answers ≡ before ++ bads ++ last ∷ after
  pub all_bad : AllBad d bads
  pub size : length bads ≡ m

-- Bad passages from the first on, which make `m` with the `n` before them.
record Early (d : Daemon) (m n : ℕ) (answers : List Answer) : Type 0 where
  bads : List Answer
  last : Answer
  after : List Answer
  split : answers ≡ bads ++ last ∷ after
  all_bad : AllBad d bads
  size : n + length bads ≡ m

judge-cases :
    (d : Daemon) (a : Answer) (n : ℕ)
    → ((is_bad d a ≡ true) × (judge d a n ≡ n + 1)) ⊎ (judge d a n ≡ 0)
unfolding judge is_bad
judge-cases d a n = elim (Option-cases (failure d a)) [
  | inr (m, e) ↦ inl (rw (is_bad, e) refl, rw (judge, e) refl)
  | inl e ↦ elim (Bool-cases (ltb_ℤ a.dat d.min_exit_time)) [
    | inl f ↦ inl (rw (is_bad, e) f, rw (judge, e, f) refl)
    | inr f ↦ inr (rw (judge, e, f) refl)
  ]
]

judge-is_bad : (d : Daemon) (a : Answer) (n : ℕ) → is_bad d a ≡ true → judge d a n ≡ n + 1
unfolding judge is_bad
judge-is_bad d a n h = elim (Option-cases (failure d a)) [
  | inr (m, e) ↦ rw (judge, e) refl
  | inl e ↦ rw (judge, e, (rw (is_bad, e) at h)) refl
]

Streak-cons :
    (d : Daemon) (m : ℕ) (a : Answer) (rest : List Answer) → Streak d m rest → Streak d m (a ∷ rest)
Streak-cons d m a rest s = record {
  before = a ∷ s.before;
  bads = s.bads;
  last = s.last;
  after = s.after;
  split = ap (◌∷◌ a) s.split;
  all_bad = s.all_bad;
  size = s.size;
}

Early-Streak : (d : Daemon) (m : ℕ) (rest : List Answer) → Early d m 0 rest → Streak d m rest
Early-Streak d m rest e = record {
  before = [];
  bads = e.bads;
  last = e.last;
  after = e.after;
  split = e.split;
  all_bad = e.all_bad;
  size = omega (arith, e.size);
}

Early-cons :
    (d : Daemon) (m n : ℕ) (a : Answer) (rest : List Answer)
    → is_bad d a ≡ true
    → Early d m (n + 1) rest
    → Early d m n (a ∷ rest)
Early-cons d m n a rest h e = record {
  bads = a ∷ e.bads;
  last = e.last;
  after = e.after;
  split = ap (◌∷◌ a) e.split;
  all_bad = (h, e.all_bad);
  size = omega (arith, e.size);
}

module _ (d : Daemon) (m : ℕ) (unlimited : d.max_count ≡ pos 0) (most : d.max_error ≡ pos m) where
  over-lt : (n : ℕ) → ltb_ℤ d.max_error (pos n) ≡ true → m < n
  over-lt n h = lt (subst (λ x. ltb_ℤ x (pos n) ≡ true) most h)
    where
      lt : ltb_ℤ (pos m) (pos n) ≡ true → m < n
      lt h = ground arith

  under-le : (n : ℕ) → ltb_ℤ d.max_error (pos n) ≡ false → n ≤ m
  under-le n h = le (subst (λ x. ltb_ℤ x (pos n) ≡ false) most h)
    where
      le : ltb_ℤ (pos m) (pos n) ≡ false → n ≤ m
      le h = ground arith

  -- The loop of the process with the index 1.
  abbrev looped : List Answer → Watch → Turn
  looped = run_loop d (pos 1)

  looped-over :
      (a : Answer) (rest : List Answer) (s : Watch)
      → 1 ≤ s.run_idx
      → ltb_ℤ d.max_error (pos s.err_num) ≡ true
      → looped (a ∷ rest) s ≡ exits 1
  unfolding run_loop
  looped-over a rest s h over =
      rw (looped, run_loop, run_round-goes_on d (pos 1) a s unlimited (above s.run_idx h), over)
        refl

  looped-under :
      (a : Answer) (rest : List Answer) (s : Watch)
      → 1 ≤ s.run_idx
      → ltb_ℤ d.max_error (pos s.err_num) ≡ false
      → looped (a ∷ rest) s ≡ looped rest (next d a s)
  unfolding run_loop
  looped-under a rest s h under =
      rw (looped, run_loop, run_round-goes_on d (pos 1) a s unlimited (above s.run_idx h), under)
        refl

  looped-Streak :
      (answers : List Answer) (s : Watch)
      → 1 ≤ s.run_idx
      → s.err_num ≤ m + 1
      → looped answers s ≡ exits 1
      → Early d (m + 1) s.err_num answers ⊎ Streak d (m + 1) answers
  unfolding run_loop
  looped-Streak [] s h n e = absurd (apart e)
    where
      apart : goes_on s ≡ exits 1 → ⊥
      apart p = cc p
  looped-Streak (a ∷ rest) s h n e = elim (Bool-cases (ltb_ℤ d.max_error (pos s.err_num))) [
    | inl over ↦ inl (record {
      bads = [];
      last = a;
      after = rest;
      split = refl;
      all_bad = tt;
      size = omega (arith, over-lt s.err_num over);
    })
    | inr under ↦
        let e' = sym (looped-under a rest s h under) ∙ e in
        let small = under-le s.err_num under in
        elim (judge-cases d a s.err_num) [
          | inl (bad, j) ↦
              elim (looped-Streak rest (next d a s) (omega arith) (omega (arith, j)) e') [
                | inl early ↦ inl (
                    Early-cons d (m + 1) s.err_num a rest bad
                      (subst (λ k. Early d (m + 1) k rest) j early))
                | inr late ↦ inr (Streak-cons d (m + 1) a rest late)
              ]
          | inr j ↦ inr (
              Streak-cons d (m + 1) a rest
                (elim (looped-Streak rest (next d a s) (omega arith) (omega (arith, j)) e') [
                  | inl early ↦
                      Early-Streak d (m + 1) rest (subst (λ k. Early d (m + 1) k rest) j early)
                  | inr late ↦ late
                ]))
        ]
  ]

  -- Enough bad passages, whatever came before them.
  looped-bads :
      (bads : List Answer) (a : Answer) (after : List Answer) (s : Watch)
      → 1 ≤ s.run_idx
      → AllBad d bads
      → m + 1 ≤ s.err_num + length bads
      → looped (bads ++ a ∷ after) s ≡ exits 1
  looped-bads [] a after s h b n = looped-over a after s h (enough s.err_num (omega arith))
    where
      enough : (k : ℕ) → m < k → ltb_ℤ d.max_error (pos k) ≡ true
      enough k g = subst (λ x. ltb_ℤ x (pos k) ≡ true) (sym most) (gt k g)
        where
          gt : (k : ℕ) → m < k → ltb_ℤ (pos m) (pos k) ≡ true
          gt k g = ground arith
  looped-bads (b ∷ bads) a after s h (bad, rest) n =
      elim (Bool-cases (ltb_ℤ d.max_error (pos s.err_num))) [
        | inl over ↦ looped-over b (bads ++ a ∷ after) s h over
        | inr under ↦
            looped-under b (bads ++ a ∷ after) s h under
            ∙ looped-bads bads a after (next d b s) (omega arith) rest
                (omega (arith, judge-is_bad d b s.err_num bad))
      ]

  looped-before :
      (before bads : List Answer) (a : Answer) (after : List Answer) (s : Watch)
      → 1 ≤ s.run_idx
      → AllBad d bads
      → length bads ≡ m + 1
      → looped (before ++ bads ++ a ∷ after) s ≡ exits 1
  looped-before [] bads a after s h b n = looped-bads bads a after s h b (omega (arith, n))
  looped-before (x ∷ before) bads a after s h b n =
      elim (Bool-cases (ltb_ℤ d.max_error (pos s.err_num))) [
        | inl over ↦ looped-over x (before ++ bads ++ a ∷ after) s h over
        | inr under ↦
            looped-under x (before ++ bads ++ a ∷ after) s h under
            ∙ looped-before before bads a after (next d x s) (omega arith) b n
      ]

  -- When MaxCount is 0 and MaxError a number `m`, the process that watches exits with 1 exactly when
  -- there have been `m + 1` passages one after the other in which the process could not be started or
  -- ran for less than MinExitTime, and the next passage has begun.
  pub run-Streak :
      (first : Answer) (answers : List Answer)
      → (run d (pos 1) first answers ≡ exits 1) ↔ Streak d (m + 1) answers
  run-Streak first answers =
      let same = run-run_loop d (pos 1) first answers (ground arith) in
      (
        λ e. elim (looped-Streak answers first_watch (omega arith) (omega arith) (sym same ∙ e)) [
          | inl early ↦ Early-Streak d (m + 1) answers early
          | inr late ↦ late
        ],
        λ k.
            same
            ∙ ap (λ xs. looped xs first_watch) k.split
            ∙ looped-before k.before k.bads k.last k.after first_watch (omega arith) k.all_bad
                k.size,
      )
