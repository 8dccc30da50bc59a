-- ===== src/Daemon.antt =====
-- daemon/daemon.go: a process that starts another one and starts it again when it ends. What the
-- operating system answers is an argument: the environment, errors, and how long a process runs.
pub mod Roles
pub mod Restarts
use ibswap_api.Common.{
  ℕ, ◌+◌, Bool, true, false, Option, none, some, List, [], ◌∷◌, ◌&&◌, not, if◌then◌else◌,
}
use ibswap_api.Common.Int.{ℤ, pos, ltb_ℤ}
use ibswap_api.Common.Eq.{Text}
use ibswap_api.Common.Outcome.{Result, value, error}

-- `Daemon`
pub record Daemon : Type 0 where
  pub log_file : Text
  pub max_count : ℤ
  pub max_error : ℤ
  pub min_exit_time : ℤ

unfoldable pub new_daemon : Text → Daemon
new_daemon log_file = record {
  log_file = log_file;
  max_count = pos 0;
  max_error = pos 3;
  min_exit_time = pos 10;
}

-- The error of `startProc`, from those of opening the log file and of `cmd.Start`.
unfoldable pub start_proc : Text → Option Text → Option Text → Option Text
start_proc [] open_error start_error = start_error
start_proc (x ∷ xs) none start_error = start_error
start_proc (x ∷ xs) (some m) start_error = some m

-- `envIdx`, from what `Atoi` makes of the variable.
abbrev pub env_idx : Option ℤ → ℤ
env_idx none = pos 0
env_idx (some n) = n

-- How `Background` ends: with two nils in the sub process, an error, the end of this process, or the
-- command, which has the index in its environment.
pub data Called : Type 0 where
  in_sub : Called
  failed : Text → Called
  exited : ℕ → Called
  command : ℕ → Called

-- `Background`, after `runIdx` calls of it, which it adds to.
unfoldable pub background : ℤ → Bool → Option Text → ℕ → Called × ℕ
background env is_exit start_error run_idx =
    let n = run_idx + 1 in
    if not (ltb_ℤ env (pos n)) then (in_sub, n) else elim start_error [
      | some m ↦ (failed m, n)
      | none ↦ if is_exit then (exited n, n) else (command n, n)
    ]

-- What the loop of `Run` keeps, with `runIdx`.
pub record Watch : Type 0 where
  pub run_idx : ℕ
  pub count : ℕ
  pub err_num : ℕ

-- How a passage of it ends: with the next, with `os.Exit`, or with the `break` of the sub process.
pub data Turn : Type 0 where
  goes_on : Watch → Turn
  exits : ℕ → Turn
  breaks : Turn

-- What the operating system answers to a call of `Background` that starts a process: the errors of
-- opening the log file and of starting it, and, when there is none, the seconds until it has ended.
pub record Answer : Type 0 where
  pub open_error : Option Text
  pub start_error : Option Text
  pub dat : ℤ

unfoldable pub failure : Daemon → Answer → Option Text
unfolding start_proc
failure d a = start_proc d.log_file a.open_error a.start_error

-- `errNum` after it.
unfoldable pub judge : Daemon → Answer → ℕ → ℕ
judge d a err_num = elim (failure d a) [
  | some m ↦ err_num + 1
  | none ↦ if ltb_ℤ a.dat d.min_exit_time then err_num + 1 else 0
]

-- A passage of the loop of `Run`.
unfoldable pub run_round : Daemon → ℤ → Answer → Watch → Turn
unfolding background
run_round d env a s =
    if ltb_ℤ d.max_error (pos s.err_num)
    then exits 1
    else if ltb_ℤ (pos 0) d.max_count && ltb_ℤ d.max_count (pos s.count)
    then exits 0
    else (let (called, n) = background env false (failure d a) s.run_idx in
        elim called [
          | in_sub ↦ breaks
          | exited i ↦ exits 0
          | failed m ↦
              goes_on (record { run_idx = n; count = s.count + 1; err_num = judge d a s.err_num })
          | command i ↦
              goes_on (record { run_idx = n; count = s.count + 1; err_num = judge d a s.err_num })
        ])

-- The loop over the passages that it has had.
unfoldable pub run_loop : Daemon → ℤ → List Answer → Watch → Turn
unfolding run_round
run_loop d env [] s = goes_on s
run_loop d env (a ∷ rest) s = elim (run_round d env a s) [
  | goes_on s' ↦ run_loop d env rest s'
  | exits c ↦ exits c
  | breaks ↦ breaks
]

-- `Run`, with the answer to its first `Background`, whose error is dropped.
unfoldable pub run : Daemon → ℤ → Answer → List Answer → Turn
unfolding run_loop background
run d env first answers =
    let (called, n) = background env true (failure d first) 0 in
    elim called [
      | exited i ↦ exits 0
      | in_sub ↦ run_loop d env answers (record { run_idx = n; count = 1; err_num = 0 })
      | failed m ↦ run_loop d env answers (record { run_idx = n; count = 1; err_num = 0 })
      | command i ↦ run_loop d env answers (record { run_idx = n; count = 1; err_num = 0 })
    ]
