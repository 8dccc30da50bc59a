-- ===== src/Storage.antt =====
-- model/pool.go and model/nft.go: what is read from the tables of the statistics and of the NFTs,
-- and what is made of the database's errors. What MySQL answers, and the time that a text of the
-- database stands for, are arguments.
pub mod Reload
use ibswap_api.Common.{ℕ, Bool, Option, none, some, List, [], ◌∷◌, ◌++◌, if◌then◌else◌}
use ibswap_api.Common.Int.{ℤ, pos, ◌+ℤ◌}
use ibswap_api.Common.Eq.{Text, codes}
use ibswap_api.Common.Decimal.{set_string}
use ibswap_api.Common.Outcome.{Result, value, error}
use ibswap_api.Common.Errors.{◌>>=◌}
use ibswap_api.Chain.Types.{int64}
use ibswap_api.Chain.ErrorText.{has_prefix}
use ibswap_api.Registry
use ibswap_api.Registry.{Registry, get_pool, get_coin}
use ibswap_api.Stats.Ticks.{default_tick}

-- `db.Query` with the rows that `rows.Next` goes through, each as `rows.Scan` reads it.
abbrev pub Rows : Type 0 → Type 0
Rows A = Result Text (List (Result Text A))

-- `db.QueryRow`: `sql.ErrNoRows`, another error, or a row.
pub data Row (A : Type 0) : Type 0 where
  no_rows : Row A
  failed : Text → Row A
  found : A → Row A

-- A separator of the error texts.
abbrev colon : Text
colon = codes " : "

-- `Error 1062` is a duplicate key, which counts as success.
unfoldable pub store_error : Option Text → Option Text
store_error none = none
store_error (some m) = if has_prefix m (codes "Error 1062") then none else some m

-- `SetString` of two decimals, with the error that stands for either failing.
unfoldable pub decimals : Text → Text → Text → Result Text (ℤ × ℤ)
decimals fault s0 s1 = elim (set_string s0) [
  | none ↦ error fault
  | some a ↦ elim (set_string s1) [ none ↦ error fault | some b ↦ value (a, b) ]
]

pub record VolumeRow : Type 0 where
  pub vol0 : Text
  pub vol1 : Text
  pub ts : Text

abbrev bad_volume : VolumeRow → Text
bad_volume r =
    codes "scan 24h volumes from db error. " ++ (r.vol0 ++ (colon ++ (r.vol1 ++ (colon ++ r.ts))))

-- A row of `Get24hVolumes`.
unfoldable pub read_volume : (Text → Option ℤ) → Result Text VolumeRow → Result Text (ℤ × (ℤ × ℤ))
unfolding decimals
read_volume parse (error m) = error (codes "scan 24h volumes from db error. " ++ m)
read_volume parse (value r) = do
  amounts ← decimals (bad_volume r) r.vol0 r.vol1
  elim (parse r.ts) [ none ↦ error (bad_volume r) | some t ↦ value (t, amounts) ]

-- The loop of `Get24hVolumes`: the times and the amounts, row by row.
unfoldable pub read_volumes :
    (Text → Option ℤ) → List (Result Text VolumeRow) → Result Text (List ℤ × List (ℤ × ℤ))
unfolding read_volume
read_volumes parse [] = value ([], [])
read_volumes parse (r ∷ rows) = do
  v ← read_volume parse r
  rest ← read_volumes parse rows
  value (v.0 ∷ rest.0, v.1 ∷ rest.1)

-- `Get24hVolumes`
unfoldable pub get_24h_volumes :
    (Text → Option ℤ) → Rows VolumeRow → Result Text (List ℤ × List (ℤ × ℤ))
unfolding read_volumes
get_24h_volumes parse (error m) = error (codes "get 24h volumes from db error. " ++ m)
get_24h_volumes parse (value rows) = read_volumes parse rows

-- The loops that add amounts up.
abbrev pub add_amounts : ℤ × ℤ → List (ℤ × ℤ) → ℤ × ℤ
add_amounts total [] = total
add_amounts total (v ∷ vs) = add_amounts (total.0 +ℤ v.0, total.1 +ℤ v.1) vs

-- `Get1DayVolumes`, when it gives no error.
unfoldable pub get_1day_volumes : (Text → Option ℤ) → Rows VolumeRow → Result Text (ℤ × ℤ)
unfolding get_24h_volumes
get_1day_volumes parse rows = do
  vols ← get_24h_volumes parse rows
  value (add_amounts (pos 0, pos 0) vols.1)

-- `GetLatestReserves`, with the columns `reserve0`, `reserve1` and `tick`.
unfoldable pub get_latest_reserves : Row (Text × Text × ℤ) → Result Text (ℤ × ℤ × ℤ)
unfolding decimals
get_latest_reserves no_rows = value (pos 0, pos 0, default_tick)
get_latest_reserves (failed m) = error (codes "scan LatestReserves from db error. " ++ m)
get_latest_reserves (found (r0, r1, tick)) = do
  rs ← decimals (codes "scan Utc0Reserves from db error. " ++ (r0 ++ (colon ++ r1))) r0 r1
  value (rs.0, rs.1, tick)

-- `GetLatestUtc0Reserves`, with the columns `id`, `tick`, `reserve0` and `reserve1`; the result is
-- the day, the tick and the reserves.
unfoldable pub get_latest_utc0_reserves : Row (ℤ × ℤ × Text × Text) → Result Text (ℤ × ℤ × ℤ × ℤ)
unfolding decimals
get_latest_utc0_reserves no_rows = value (pos 0, default_tick, pos 0, pos 0)
get_latest_utc0_reserves (failed m) = error (codes "scan Utc0Reserves from db error. " ++ m)
get_latest_utc0_reserves (found (id, tick, r0, r1)) = do
  rs ← decimals (codes "scan Utc0Reserves from db error. " ++ (r0 ++ (colon ++ r1))) r0 r1
  value (int64 (id +ℤ pos 1), tick, rs.0, rs.1)

-- The loop of `GetNDaysVolumes`, over the columns `vol01d` and `vol11d`.
unfoldable pub add_days : ℤ × ℤ → List (Result Text (Text × Text)) → Result Text (ℤ × ℤ)
unfolding decimals
add_days total [] = value total
add_days total (error m ∷ rows) = error (codes "scan n days volumes from db error. " ++ m)
add_days total (value (s0, s1) ∷ rows) = do
  v ← decimals (codes "scan n days volumes from db error. " ++ (s0 ++ (colon ++ s1))) s0 s1
  add_days (total.0 +ℤ v.0, total.1 +ℤ v.1) rows

-- `GetNDaysVolumes`, when it gives no error.
unfoldable pub get_n_days_volumes : Rows (Text × Text) → Result Text (ℤ × ℤ)
unfolding add_days
get_n_days_volumes (error m) = error (codes "get n days volumes from db error. " ++ m)
get_n_days_volumes (value rows) = add_days (pos 0, pos 0) rows

-- `model.PoolStat`; no query sets `contract`.
pub record DayStat : Type 0 where
  pub id : ℤ
  pub contract : Text
  pub tick : ℤ
  pub reserve0 : Text
  pub reserve1 : Text
  pub vol01d : Text
  pub vol11d : Text
  pub vol07d : Text
  pub vol17d : Text

-- The loops that read rows as they are: the first row that cannot be read ends them.
unfoldable pub read_rows : {A : Type 0} → Text → List (Result Text A) → Result Text (List A)
read_rows fault [] = value []
read_rows fault (error m ∷ rows) = error (fault ++ m)
read_rows fault (value a ∷ rows) = do rest ← read_rows fault rows; value (a ∷ rest)

-- `GetPoolStatistic`
unfoldable pub get_pool_statistic : Rows DayStat → Result Text (List DayStat)
unfolding read_rows
get_pool_statistic (error m) = error (codes "get pool stat from db error. " ++ m)
get_pool_statistic (value rows) = read_rows (codes "scan pool stat from db error. ") rows

-- `model.ProtocolFee`
pub record ProtocolFee : Type 0 where
  pub pool : Text
  pub t0 : Text
  pub d0 : ℤ
  pub a0 : Text
  pub t1 : Text
  pub d1 : ℤ
  pub a1 : Text
  pub ts : Text

-- The decimals of a coin, if it is known.
unfoldable pub decimal_of : Registry → Text → ℤ → ℤ
decimal_of r token d = elim (get_coin r token) [ none ↦ d | some c ↦ c.decimal ]

unfoldable pub fill_decimals : Registry → ProtocolFee → ProtocolFee
unfolding decimal_of
fill_decimals r f = elim (get_pool r f.pool) [
  | none ↦ f
  | some p ↦ record f { d0 = decimal_of r p.token0 f.d0; d1 = decimal_of r p.token1 f.d1 }
]

unfoldable pub fill_all : Registry → List ProtocolFee → List ProtocolFee
unfolding fill_decimals
fill_all r [] = []
fill_all r (f ∷ fs) = fill_decimals r f ∷ fill_all r fs

-- `GetProtocolFees`, of rows as they are scanned: without decimals.
unfoldable pub get_protocol_fees : Registry → Rows ProtocolFee → Result Text (List ProtocolFee)
unfolding fill_all read_rows
get_protocol_fees r (error m) = error (codes "get protocol fees from db error. " ++ m)
get_protocol_fees r (value rows) = do
  fs ← read_rows (codes "scan pool stat from db error. ") rows
  value (fill_all r fs)

-- `model.NftToken`, and the columns that `GetNftTokens` asks for.
pub record NftRow : Type 0 where
  pub token_id : Text
  pub collection : Text
  pub user : Text
  pub pool : Text
  pub token0 : Text
  pub token1 : Text
  pub fee : ℤ

pub record NftColumns : Type 0 where
  pub token_id : Text
  pub pool : Text
  pub token0 : Text
  pub token1 : Text
  pub fee : ℤ

unfoldable pub own_rows : Text → Text → List NftColumns → List NftRow
own_rows user collection [] = []
own_rows user collection (c ∷ cs) =
    record {
      token_id = c.token_id;
      collection = collection;
      user = user;
      pool = c.pool;
      token0 = c.token0;
      token1 = c.token1;
      fee = c.fee;
    }
    ∷ own_rows user collection cs

-- `GetNftTokens`
unfoldable pub get_nft_tokens : Text → Text → Rows NftColumns → Result Text (List NftRow)
unfolding own_rows read_rows
get_nft_tokens user collection (error m) =
    error (codes "get user's nft tokens from db error. " ++ m)
get_nft_tokens user collection (value rows) = do
  cs ← read_rows (codes "scan user's nft tokens from db error. ") rows
  value (own_rows user collection cs)
