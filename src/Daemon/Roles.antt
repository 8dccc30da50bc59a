-- ===== src/Daemon/Roles.antt =====
-- daemon/daemon.go: which part of `Run` a process has, from its index in the environment.
use ibswap_api.Common.{
  Option-cases, inl, inr, ◌≤◌, ℕ, ◌+◌, ◌≡◌, ◌≢◌, refl, sym, ap, ◌∙◌, inl, inr, Bool, true, false,
  Option, none, some, List, [], ◌∷◌, if◌then◌else◌, arith, Bool-cases,
}
use ibswap_api.Common.Int.{ℤ, pos, ltb_ℤ}
use ibswap_api.Common.Eq.{Text}
use ibswap_api.Daemon.{
  failure, Daemon, in_sub, failed, exited, command, background, Watch, goes_on, exits, breaks,
  Answer, judge, run_round, run_loop, run,
}

-- After a passage whose process was started, or could not be.
abbrev pub next : Daemon → Answer → Watch → Watch
next d a s = record { run_idx = s.run_idx + 1; count = s.count + 1; err_num = judge d a s.err_num }

background-in_sub :
    (env : ℤ) (b : Bool) (e : Option Text) (r : ℕ)
    → ltb_ℤ env (pos (r + 1)) ≡ false
    → background env b e r ≡ (in_sub, r + 1)
unfolding background
background-in_sub env b e r h = rw (h, background) refl

background-failed :
    (env : ℤ) (b : Bool) (m : Text) (r : ℕ)
    → ltb_ℤ env (pos (r + 1)) ≡ true
    → background env b (some m) r ≡ (failed m, r + 1)
unfolding background
background-failed env b m r h = rw (h, background) refl

background-command :
    (env : ℤ) (r : ℕ)
    → ltb_ℤ env (pos (r + 1)) ≡ true
    → background env false none r ≡ (command (r + 1), r + 1)
unfolding background
background-command env r h = rw (h, background) refl

background-count :
    (env : ℤ) (e : Option Text) (r : ℕ)
    → ltb_ℤ env (pos (r + 1)) ≡ true
    → (background env false e r).1 ≡ r + 1
background-count env none r h = ap (λ c. c.1) (background-command env r h)
background-count env (some m) r h = ap (λ c. c.1) (background-failed env false m r h)

not_limited : (x : ℤ) → x ≡ pos 0 → ltb_ℤ (pos 0) x ≡ false
not_limited x h = rw h refl

pub run_round-goes_on :
    (d : Daemon) (env : ℤ) (a : Answer) (s : Watch)
    → d.max_count ≡ pos 0
    → ltb_ℤ env (pos (s.run_idx + 1)) ≡ true
    → run_round d env a s
      ≡ (if ltb_ℤ d.max_error (pos s.err_num) then exits 1 else goes_on (next d a s))
unfolding run_round
run_round-goes_on d env a s h g = elim (Option-cases (failure d a)) [
  | inl e ↦
      rw
        (
          run_round,
          not_limited d.max_count h,
          e,
          background-command env s.run_idx g,
          background-count env (failure d a) s.run_idx g,
          next,
        )
        refl
  | inr (m, e) ↦
      rw
        (
          run_round,
          not_limited d.max_count h,
          e,
          background-failed env false m s.run_idx g,
          background-count env (failure d a) s.run_idx g,
          next,
        )
        refl
]

run_loop-breaks :
    (d : Daemon) (env : ℤ) (a : Answer) (rest : List Answer) (s : Watch)
    → d.max_count ≡ pos 0
    → ltb_ℤ d.max_error (pos s.err_num) ≡ false
    → ltb_ℤ env (pos (s.run_idx + 1)) ≡ false
    → run_loop d env (a ∷ rest) s ≡ breaks
unfolding run_loop run_round
run_loop-breaks d env a rest s h g i =
    rw
      (
        run_loop,
        run_round,
        g,
        not_limited d.max_count h,
        background-in_sub env false (failure d a) s.run_idx i,
      )
      refl

pub above : (r : ℕ) → 1 ≤ r → ltb_ℤ (pos 1) (pos (r + 1)) ≡ true
above r h = ground arith

below : (n r : ℕ) → r ≤ 1 → ltb_ℤ (pos (n + 2)) (pos (r + 1)) ≡ false
below n r h = ground arith

no_errors : (m : ℕ) (x : ℤ) → x ≡ pos m → ltb_ℤ x (pos 0) ≡ false
no_errors m x h = rw h (ground arith)

-- The state in which the loop of the process with the index 1, or of a later one, begins.
abbrev pub first_watch : Watch
first_watch = record { run_idx = 1; count = 1; err_num = 0 }

pub run-run_loop :
    (d : Daemon) (env : ℤ) (first : Answer) (answers : List Answer)
    → ltb_ℤ env (pos 1) ≡ false
    → run d env first answers ≡ run_loop d env answers first_watch
unfolding run
run-run_loop d env first answers h =
    rw
      (
        run,
        background-in_sub env true (failure d first) 0 h,
        ap (λ c. c.1) (background-in_sub env true (failure d first) 0 h),
      )
      refl

run_loop_never_breaks :
    (d : Daemon) (answers : List Answer) (s : Watch)
    → d.max_count ≡ pos 0
    → 1 ≤ s.run_idx
    → run_loop d (pos 1) answers s ≢ breaks
unfolding run_loop
run_loop_never_breaks d [] s h g e = cc e
run_loop_never_breaks d (a ∷ rest) s h g e =
    let turn = run_round-goes_on d (pos 1) a s h (above s.run_idx g) in
    elim (Bool-cases (ltb_ℤ d.max_error (pos s.err_num))) [
      | inl over ↦ apart (rw (run_loop, turn, over) at e)
      | inr under ↦
          run_loop_never_breaks d rest (next d a s) h (omega arith)
            (rw (run_loop, turn, under) at e)
    ]
  where
    apart : exits 1 ≡ breaks → ⊥
    apart p = cc p

-- When the process that is first started can start one, it exits, and that one has the index 1. Of the
-- process with the index 1, the loop never breaks: it starts processes with the indices from 2 on. Each
-- of those breaks out of the loop in the first passage, and so goes on to do the work. This is when
-- MaxCount is 0, as `NewDaemon` sets it, and MaxError is not negative.
pub run_roles :
    (d : Daemon) (m : ℕ) (first : Answer) (a : Answer) (rest : List Answer)
    → d.max_count ≡ pos 0
    → d.max_error ≡ pos m
    → failure d first ≡ none
    → ((background (pos 0) true (failure d first) 0).0 ≡ exited 1)
      × (run d (pos 0) first (a ∷ rest) ≡ exits 0)
      × ((i : ℕ) → (background (pos 1) false none (i + 1)).0 ≡ command (i + 2))
      × (run d (pos 1) first (a ∷ rest) ≢ breaks)
      × ((n : ℕ) → run d (pos (n + 2)) first (a ∷ rest) ≡ breaks)
unfolding run background
run_roles d m first a rest h g started = (
  rw started refl,
  rw (run, started) refl,
  λ i.
      ap (λ c. c.0) (background-command (pos 1) (i + 1) (above (i + 1) (omega arith)))
      ∙ ap command (omega arith),
  λ e.
      run_loop_never_breaks d (a ∷ rest) first_watch h (omega arith)
        (sym (run-run_loop d (pos 1) first (a ∷ rest) (ground arith)) ∙ e),
  λ n. run-run_loop d (pos (n + 2)) first (a ∷ rest) (below n 0 (omega arith)) ∙ broken n,
)
  where
    broken : (n : ℕ) → run_loop d (pos (n + 2)) (a ∷ rest) first_watch ≡ breaks
    broken n =
        run_loop-breaks d (pos (n + 2)) a rest first_watch h (no_errors m d.max_error g)
          (below n 1 (omega arith))
