-- ===== src/Tests/Storing.antt =====
-- The stored statistics of model/pool.go and service/api.go on concrete rows.
use ibswap_api.Common.{
  ℕ, if◌then◌else◌, ◌≡◌, ◌⊎◌, refl, none, some, Option, inl, inr, List, [], ◌∷◌, map, arith,
}
use ibswap_api.Common.Int.{ℤ, pos, ◌-ℤ◌}
use ibswap_api.Common.Eq.{Text, codes, text_eq_instance, text_eq}
use ibswap_api.Common.Dict.{lookup, insert}
use ibswap_api.Common.Decimal.{int_string}
use ibswap_api.Common.Outcome.{ok, Result, value}
use ibswap_api.Chain.Types.{int64}
use ibswap_api.Registry
use ibswap_api.Registry.{Registry, new_pool, add_new_pool, add_pool, get_pool, int8, empty}
use ibswap_api.Storage.{
  VolumeRow, DayStat, found, get_24h_volumes, get_latest_reserves, get_latest_utc0_reserves,
}
use ibswap_api.Storage.Reload.{init_pool_stat-reloads}
use ibswap_api.Stats.Window.{Volume, new_volumes, before_24h, get_24h_volume}
use ibswap_api.Stats.Window.Exact.{window, sum0, sum1}
use ibswap_api.Stats.Ticks.{Globals, new_reserves}
use ibswap_api.Stats.Ticks.Description.{OfPool, At}
use ibswap_api.Stats.Start.{Answers, init_pool_stat}
use ibswap_api.Stats.Overview.{
  Api, StatTable, PoolOverview, last, day_of, overview_pool, overview_pools,
  overview_pools_by_contract,
}
use ibswap_api.Stats.Overview.Cache.{
  Request, Given, cache_after, served, fresh, stat_pool_volumes_fresh,
}
use ibswap_api.Stats.Overview.Rows.{watched, overview_pools_by_contract_agrees, overview_pools_rows}
use ibswap_api.Stats.Daily.{StoredStat, Tick, count_volumes}
use ibswap_api.Stats.Daily.Once.{IsOnce, count_volumes-IsOnce}

abbrev no_stats : Globals
no_stats = record { utc0_reserves = []; curr_reserves = []; volumes_24h = [] }

-- Two trades, the older of which is older than 24 hours at the restart.
abbrev stored_volumes : List Volume
stored_volumes =
    record { amount0 = pos 7; amount1 = pos 8; ts = pos 90000 }
    ∷ record { amount0 = pos 5; amount1 = pos 6; ts = pos 100 }
    ∷ []

abbrev time : Text → Option ℤ
time s = if text_eq s (codes "1") then some (pos 90000) else some (pos 100)

abbrev stored_rows : List (Result Text VolumeRow)
stored_rows =
    value (record { vol0 = int_string (pos 7); vol1 = int_string (pos 8); ts = codes "1" })
    ∷ value (record { vol0 = int_string (pos 5); vol1 = int_string (pos 6); ts = codes "0" })
    ∷ []

time-first : time (codes "1") ≡ some (pos 90000)
unfolding text_eq
time-first = refl

time-second : time (codes "0") ≡ some (pos 100)
unfolding text_eq
time-second = refl

abbrev stored_answers : Answers
stored_answers = record {
  volumes = get_24h_volumes time (value stored_rows);
  utc0 =
      get_latest_utc0_reserves (found (pos 0, pos 10, int_string (pos 600), int_string (pos 700)));
  latest = get_latest_reserves (found (int_string (pos 500), int_string (pos 800), pos 20));
}

init_pool_stat-reloads_example :
    (g' : Globals) × (p : OfPool) × (init_pool_stat
        (λ i. 90001)
        stored_answers
        (codes "0xp")
        no_stats
      ≡ ok g')
    × At (codes "0xp") g' p
    × (p.curr ≡ record { day = pos 0; reserve0 = pos 500; reserve1 = pos 800; tick = pos 20 })
    × (p.utc0 ≡ record { day = pos 1; reserve0 = pos 600; reserve1 = pos 700; tick = pos 10 })
    × ((get_24h_volume 90001 p.volumes).0.amount0 ≡ sum0 (window (before_24h 90001) stored_volumes))
    × ((get_24h_volume 90001 p.volumes).0.amount1 ≡ sum1 (window (before_24h 90001) stored_volumes))
init_pool_stat-reloads_example =
    init_pool_stat-reloads time (λ i. 90001) 0 90001 (pos 0) (codes "0xp") no_stats stored_volumes
      stored_rows (pos 500) (pos 800) (pos 20) (pos 600) (pos 700) (pos 10) 0
      ((codes "1", time-first, refl), ((codes "0", time-second, refl), tt))
      (omega arith, omega arith, (omega arith, omega arith, omega arith)) (unfold int64 in refl)

abbrev day_row : ℤ → DayStat
day_row day = record {
  id = day;
  contract = codes "";
  tick = pos 10;
  reserve0 = codes "600";
  reserve1 = codes "700";
  vol01d = codes "3";
  vol11d = codes "4";
  vol07d = codes "30";
  vol17d = codes "40";
}

-- The table ends with the day before the second day.
abbrev one_day : StatTable
one_day key from = value (value (day_row (pos 1)) ∷ [])

abbrev request : ℕ → Request
request now = record { now = now; key = codes "0xp"; table = one_day }

stat_pool_volumes_fresh_example :
    (served (pos 30) (request 172801) (cache_after (pos 30) (request 172800 ∷ []))
      ≡ fresh (pos 30) (request 172801))
    ⊎ ((ps : List DayStat) × (s : DayStat) × (served
            (pos 30)
            (request 172801)
            (cache_after (pos 30) (request 172800 ∷ []))
          ≡ value ps)
        × Given (pos 30) (codes "0xp") ps (request 172800 ∷ [])
        × (last ps ≡ some s)
        × (s.id ≡ day_of 172801 -ℤ pos 1))
stat_pool_volumes_fresh_example =
    stat_pool_volumes_fresh (pos 30) (request 172800 ∷ []) (request 172801)

abbrev known : Registry.Pool
known = new_pool (codes "0xp") (pos 3) (codes "0xa") (codes "0xb") (pos 500)

abbrev unknown : Registry.Pool
unknown = new_pool (codes "0xq") (pos 3) (codes "0xa") (codes "0xb") (pos 500)

abbrev registered : Registry
registered = (add_new_pool none (codes "0xp") (pos 3) (codes "0xa") (codes "0xb") (pos 500) empty).1

registered_lem : get_pool registered (codes "0xp") ≡ some known
unfolding add_new_pool add_pool int8 lookup insert text_eq get_pool
registered_lem = refl

abbrev of_pool : OfPool
of_pool = record { utc0 = new_reserves; curr = new_reserves; volumes = new_volumes }

abbrev held : Globals
held = record {
  utc0_reserves = (codes "0xp", new_reserves) ∷ [];
  curr_reserves = (codes "0xp", new_reserves) ∷ [];
  volumes_24h = (codes "0xp", new_volumes) ∷ [];
}

held-At : At (codes "0xp") held of_pool
unfolding lookup text_eq
held-At = record { utc0_found = refl; curr_found = refl; volumes_found = refl }

not_held : lookup (codes "0xq") held.curr_reserves ≡ none
unfolding lookup text_eq
not_held = refl

abbrev api : Api
api = record { globals = held; pool_stats = [] }

overview_pools_by_contract_agrees_example :
    (o : PoolOverview) × (s' : Api) × (overview_pool (pos 30) one_day (172800, 172801) known api
      ≡ ok (some o, s'))
    × (overview_pools_by_contract (pos 30) one_day (172800, 172801) registered (codes "0xp") api
        ≡ ok (value o, s'))
    × (o.contract ≡ codes "0xp")
    × (o.token0 ≡ codes "0xa")
    × (o.token1 ≡ codes "0xb")
    × (o.reserve0 ≡ int_string (pos 0))
    × (o.reserve1 ≡ int_string (pos 0))
    × (o.curr_tick ≡ of_pool.curr.tick)
    × (o.utc0_reserve0 ≡ int_string (pos 0))
    × (o.utc0_reserve1 ≡ int_string (pos 0))
    × (o.utc0_tick ≡ of_pool.utc0.tick)
    × (o.volume24h0 ≡ int_string (get_24h_volume 172800 new_volumes).0.amount0)
    × (o.volume24h1 ≡ int_string (get_24h_volume 172800 new_volumes).0.amount1)
unfolding new_reserves
overview_pools_by_contract_agrees_example =
    overview_pools_by_contract_agrees (pos 30) one_day (172800, 172801) registered known of_pool api
      held-At registered_lem

-- The second pool has no statistics yet.
overview_pools_rows_example :
    (rows : List PoolOverview) × (s' : Api) × (overview_pools
        (pos 30)
        one_day
        (λ k. (172800, 172801))
        (known ∷ unknown ∷ [])
        api
      ≡ ok (rows, s'))
    × (map (λ o. o.contract) rows ≡ watched held (known ∷ unknown ∷ []))
overview_pools_rows_example =
    overview_pools_rows (pos 30) one_day (λ k. (172800, 172801)) (known ∷ unknown ∷ []) api
      (inr (of_pool, held-At), (inl not_held, tt))

abbrev tick : ℕ → Tick
tick now = record {
  now = now;
  pools = known ∷ [];
  table = λ key from. value (value (codes "3", codes "4") ∷ []);
}

-- The second tick is of the day of the first.
count_volumes-IsOnce_example :
    (passes : List (List StoredStat)) × (s : ℕ × Globals) × (count_volumes
        (tick 172800 ∷ tick 180000 ∷ tick 259300 ∷ [])
        (1, held)
      ≡ ok (passes, s))
    × IsOnce 1 (tick 172800 ∷ tick 180000 ∷ tick 259300 ∷ []) passes
count_volumes-IsOnce_example =
    count_volumes-IsOnce (tick 172800 ∷ tick 180000 ∷ tick 259300 ∷ []) 1 held
      (omega arith, (omega arith, (omega arith, tt)))
      (((of_pool, held-At), tt), (((of_pool, held-At), tt), (((of_pool, held-At), tt), tt)))
