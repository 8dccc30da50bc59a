-- ===== src/Handlers.antt =====
-- api/public.go and api/admin.go: the handlers of the HTTP requests, as functions of the
-- parameters, of what the database answers and of the program's state, to a reply.
pub mod Adding
pub mod Gecko
pub mod Tickers
use ibswap_api.Common.{
  ℕ, ◌+◌, ◌/◌, ◌==◌, Bool, true, false, Option, none, some, List, [], ◌∷◌, ◌++◌, ◌||◌, not,
  if◌then◌else◌, length,
}
use ibswap_api.Common.Int.{ℤ, pos, ◌-ℤ◌, eqb_ℤ}
use ibswap_api.Common.Eq.{Text, codes}
use ibswap_api.Common.Decimal.{set_string}
use ibswap_api.Common.Outcome.{Outcome, ok, ◌>>=◌, Result, value, error}
use ibswap_api.Chain.Types.{int64}
use ibswap_api.Access.{parse_int}
use ibswap_api.Registry
use ibswap_api.Registry.{
  Coin, Registry, add_token, add_new_pool, change_pool_state, change_token_public, get_coin,
  get_coins, get_pool, get_pools,
}
use ibswap_api.Storage
use ibswap_api.Storage.{
  DayStat, ProtocolFee, NftRow, NftColumns, get_n_days_volumes, get_nft_tokens, get_protocol_fees,
}
use ibswap_api.Stats.Discovery
use ibswap_api.Stats.Discovery.{State, Effect, watch}
use ibswap_api.Stats.Overview.{
  Api, StatTable, PoolOverview, overview_pools_by_contract, stat_pool_volumes,
}
use ibswap_api.Prices.{Float, Prices, get_token_usd_price}

-- `c.JSON` of a value, `c.JSON` of an error text, or `c.String`; the status is 200 in each.
pub data Reply (A : Type 0) : Type 0 where
  json : A → Reply A
  fault : Text → Reply A
  message : Text → Reply A

abbrev pub is_empty : Text → Bool
is_empty [] = true
is_empty (x ∷ xs) = false

-- `ParseInt(s, 10, 64)` and `Atoi`, where `none` is an error.
unfoldable pub parsed : Text → Option ℤ
parsed s = elim (set_string s) [ none ↦ none | some n ↦ if eqb_ℤ (int64 n) n then some n else none ]

abbrev pub params_error : Text
params_error = codes "params error"

abbrev pub fine : Text
fine = codes "OK"

pub record TokenForm : Type 0 where
  pub symbol : Text
  pub contract : Text
  pub code : Text
  pub decimal : Text
  pub type : Text
  pub public : Text

-- The three numbers of the form, when all of them can be read.
unfoldable pub token_numbers : TokenForm → Option (ℤ × ℤ × ℤ)
unfolding parsed
token_numbers f = elim (parsed f.decimal) [
  | none ↦ none
  | some d ↦ elim (parsed f.type) [
    | none ↦ none
    | some t ↦ elim (parsed f.public) [ none ↦ none | some p ↦ some (d, t, p) ]
  ]
]

-- `AddToken`: the reply is as the source has it.
unfoldable pub add_token_handler : Option Text → TokenForm → Registry → Reply Unit × Registry
unfolding token_numbers
add_token_handler db f r =
    if is_empty f.symbol || is_empty f.contract || is_empty f.code
    then (message params_error, r)
    else elim (token_numbers f) [
      | none ↦ (message params_error, r)
      | some (d, t, p) ↦
          let (e, r') = add_token db f.symbol f.contract f.code d t p r in
          elim e [ some m ↦ (message fine, r') | none ↦ (message params_error, r') ]
    ]

pub record PoolForm : Type 0 where
  pub contract : Text
  pub version : Text
  pub token0 : Text
  pub token1 : Text
  pub fee_rate : Text

-- A parameter of the form is missing, or is not of the length of an address.
abbrev pub is_wrong : PoolForm → Bool
is_wrong f =
    is_empty f.contract
    || eqb_ℤ (parse_int f.version) (pos 0)
    || not (length f.token0 == 42)
    || not (length f.token1 == 42)
    || eqb_ℤ (parse_int f.fee_rate) (pos 0)

-- `AddPool`, with the watcher that it starts.
unfoldable pub add_pool_handler :
    (Text → List ℕ) → Option Text → PoolForm → State → Reply Unit × State × List Effect
add_pool_handler hex_to_address db f s =
    if is_wrong f
    then (message params_error, s, [])
    else (let (e, r) =
          add_new_pool db f.contract (parse_int f.version) f.token0 f.token1 (parse_int f.fee_rate)
            s.registry in
        elim e [
          | error m ↦ (message params_error, record s { registry = r }, [])
          | value p ↦ (message fine, record s { registry = r }, watch hex_to_address p ∷ [])
        ])

-- `ChangePoolState`
unfoldable pub change_pool_state_handler :
    Option Text → Text → Text → Registry → Reply Unit × Registry
change_pool_state_handler db contract state r =
    if is_empty contract then (message params_error, r) else elim (parsed state) [
      | none ↦ (message params_error, r)
      | some n ↦
          let (e, r') = change_pool_state db contract n r in
          elim e [
            | some m ↦ (message (codes "pool maybe not exist"), r')
            | none ↦ (message fine, r')
          ]
    ]

-- `ChangeTokenPublic`
unfoldable pub change_token_public_handler :
    Option Text → Text → Text → Registry → Reply Unit × Registry
change_token_public_handler db contract public r =
    if is_empty contract then (message params_error, r) else elim (parsed public) [
      | none ↦ (message params_error, r)
      | some n ↦
          let (e, r') = change_token_public db contract n r in
          elim e [
            | some m ↦ (message (codes "token maybe not exist"), r')
            | none ↦ (message fine, r')
          ]
    ]

-- The handlers that reply with a value, or with an error and a text.
abbrev pub reply : {A : Type 0} → Text → Result Text A → Reply A
reply text (error m) = fault text
reply text (value a) = json a

-- `ProtocolFees`
unfoldable pub protocol_fees_handler :
    Registry → Storage.Rows ProtocolFee → Reply (List ProtocolFee)
protocol_fees_handler r rows = elim (get_protocol_fees r rows) [
  | error m ↦ message (codes "system error")
  | value fs ↦ json fs
]

-- `GetTokenByContract`
unfoldable pub get_token_by_contract : Registry → Text → Reply Coin
get_token_by_contract r contract = elim (get_coin r contract) [
  | none ↦ fault (codes "token is not exist :  : " ++ contract)
  | some c ↦ json c
]

-- `GetPoolByContract`
unfoldable pub get_pool_by_contract : Registry → Text → Reply Registry.Pool
get_pool_by_contract r contract = elim (get_pool r contract) [
  | none ↦ fault (codes "Get Pool :  : " ++ contract)
  | some p ↦ json p
]

-- `OverviewPoolByContract`
unfoldable pub overview_pool_by_contract :
    ℤ → StatTable → ℕ × ℕ → Registry → Text → Api → Outcome (Reply PoolOverview × Api)
overview_pool_by_contract stat_days table times r contract s = do
  (o, s') ← overview_pools_by_contract stat_days table times r contract s
  ok (reply (codes "Overview Pool is not exist:  : " ++ contract) o, s')

-- `StatPoolByContract`
unfoldable pub stat_pool_by_contract : ℤ → StatTable → ℕ → Text → Api → Reply (List DayStat) × Api
stat_pool_by_contract stat_days table now contract s =
    let (ps, cache) = stat_pool_volumes stat_days table now contract s.pool_stats in
    (
      reply (codes "Statistic Pool is not exist:  : " ++ contract) ps,
      record s { pool_stats = cache },
    )

-- `GetNftTokensByUser`
unfoldable pub get_nft_tokens_by_user : Text → Text → Storage.Rows NftColumns → Reply (List NftRow)
get_nft_tokens_by_user user collection rows =
    reply (codes "There is no NftToken: " ++ user ++ codes " : " ++ collection)
      (get_nft_tokens user collection rows)

-- `GetVolumeByPool`: the first day and the two volumes.
unfoldable pub get_volume_by_pool :
    ℕ → Text → Text → (ℤ → Storage.Rows (Text × Text)) → Reply (ℤ × (ℤ × ℤ))
get_volume_by_pool now contract days table =
    let fault_text = codes "params : " ++ contract ++ codes " : " ++ days in
    let id = int64 (pos (now / 86400) -ℤ parse_int days) in
    if is_empty contract || eqb_ℤ (parse_int days) (pos 0)
    then fault fault_text
    else elim (get_n_days_volumes (table id)) [
      | error m ↦ fault fault_text
      | value vols ↦ json (id, vols)
    ]
