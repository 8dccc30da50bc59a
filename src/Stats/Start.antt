-- ===== src/Stats/Start.antt =====
-- service/task.go: `start`, which initialises the pools and starts a watcher for each batch of
-- them, with `initPoolStat` and `initPoolStatReal`. The answers of the database and
-- `common.HexToAddress` (go-ethereum) are arguments.
pub mod Batches
use ibswap_api.Common.{
  ℕ, zero, suc, ◌+◌, ◌≡◌, Bool, Option, none, some, List, [], ◌∷◌, ◌++◌, if◌then◌else◌, length,
  get_elem?,
}
use ibswap_api.Common.Int.{ℤ, pos, ltb_ℤ}
use ibswap_api.Common.Eq.{Text, text_eq_instance}
use ibswap_api.Common.Dict.{Dict, lookup, insert}
use ibswap_api.Common.Outcome.{Outcome, ok, panic, ◌>>=◌, deref, Result, value, error}
use ibswap_api.Registry
use ibswap_api.Stats.Window.{Volume, Volumes, new_volumes, append}
use ibswap_api.Stats.Ticks.{Reserves, new_reserves, set_reserves, Globals}

-- What the database answers for a pool: `Get24hVolumes`, `GetLatestUtc0Reserves` and
-- `GetLatestReserves`.
pub record Answers : Type 0 where
  pub volumes : Result Text (List ℤ × List (ℤ × ℤ))
  pub utc0 : Result Text (ℤ × ℤ × ℤ × ℤ)
  pub latest : Result Text (ℤ × ℤ × ℤ)

-- `for i := len(vols) - 1; i >= 0; i--`, with the time of each `append`.
unfoldable pub append_from : (ℕ → ℕ) → List ℤ → List (ℤ × ℤ) → ℕ → Volumes → Outcome Volumes
append_from clock tss vols zero v = ok v
append_from clock tss vols (suc i) v = do
  amounts ← deref (get_elem? vols i)
  ts ← deref (get_elem? tss i)
  append_from clock tss vols i
      (append (clock i) (record { amount0 = amounts.0; amount1 = amounts.1; ts = ts }) v)

unfoldable pub initial_volumes : (ℕ → ℕ) → Result Text (List ℤ × List (ℤ × ℤ)) → Outcome Volumes
unfolding append_from
initial_volumes clock (error m) = panic
initial_volumes clock (value a) = append_from clock a.0 a.1 (length a.1) new_volumes

unfoldable pub initial_utc0 : Result Text (ℤ × ℤ × ℤ × ℤ) → Outcome Reserves
initial_utc0 (error m) = panic
initial_utc0 (value (day, tick, r0, r1)) =
    ok (record (set_reserves r0 r1 tick new_reserves) { day = day })

unfoldable pub initial_current : Result Text (ℤ × ℤ × ℤ) → Outcome Reserves
initial_current (error m) = panic
initial_current (value (r0, r1, tick)) = ok (set_reserves r0 r1 tick new_reserves)

abbrev pub keep : Text → Reserves → Reserves → Volumes → Globals → Globals
keep c utc0 curr volumes g = record {
  utc0_reserves = insert c utc0 g.utc0_reserves;
  curr_reserves = insert c curr g.curr_reserves;
  volumes_24h = insert c volumes g.volumes_24h;
}

-- `initPoolStat`: an error of the database is a panic.
unfoldable pub init_pool_stat : (ℕ → ℕ) → Answers → Text → Globals → Outcome Globals
unfolding initial_volumes initial_utc0 initial_current
init_pool_stat clock a c g = do
  v ← initial_volumes clock a.volumes
  u ← initial_utc0 a.utc0
  r ← initial_current a.latest
  ok (keep c u r v g)

-- `initPoolStatReal`
unfoldable pub init_pool_stat_real : Text → Globals → Globals
init_pool_stat_real c g = keep c new_reserves new_reserves new_volumes g

-- The arguments of `StartPool`, pool by pool: its address and those of its tokens.
abbrev pub Batch : Type 0
Batch = List (List ℕ × List ℕ × List ℕ)

module _ (hex_to_address : Text → List ℕ) (clock : Text → ℕ → ℕ) (answers : Text → Answers)
    (limit : ℤ) where
  -- The loop of `start` from a pool on, with the batch so far (`count` is its length).
  unfoldable pub start_from :
      List Registry.Pool → Batch → ℕ → Globals → Outcome (Globals × List Batch)
  unfolding init_pool_stat
  start_from [] ps count g = ok (g, if ltb_ℤ (pos 0) (pos count) then ps ∷ [] else [])
  start_from (p ∷ rest) ps count g = do
    g' ← init_pool_stat (clock p.contract) (answers p.contract) p.contract g
    let ps' =
        ps ++ (hex_to_address p.contract, hex_to_address p.token0, hex_to_address p.token1) ∷ []
    let full = ltb_ℤ limit (pos (count + 1))
    (g'', batches) ← start_from rest (if full then [] else ps') (if full then 0 else count + 1) g'
    ok (g'', if full then ps' ∷ batches else batches)

  -- `start`, with the pools that `GetPools` gives and the batches it passes to `StartPool`.
  unfoldable pub start : List Registry.Pool → Outcome (Globals × List Batch)
  unfolding start_from
  start pools =
      start_from pools [] 0 (record { utc0_reserves = []; curr_reserves = []; volumes_24h = [] })
