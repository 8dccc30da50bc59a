-- ===== src/Startup.antt =====
-- How the process comes up: config/config.go, model/mysql.go, gl/global.go, api/router.go and main.go. The
-- files, the database driver and the HTTP server are arguments: what they answer.
use ibswap_api.Common.{ℕ, Bool, Option, none, some, List, [], ◌∷◌, ◌++◌, ◌+◌, ◌*◌, ◌^◌, ◌≡◌, refl}
use ibswap_api.Common.Int.{ℤ}
use ibswap_api.Common.Eq.{Text, codes}
use ibswap_api.Common.Dict.{Dict}
use ibswap_api.Common.Outcome.{Outcome, ok, panic, ◌>>=◌, Result, value, error}
use ibswap_api.Access.{add_admins}
use ibswap_api.Registry.{Coin, Pool, Registry, init_coins_and_pools}
use ibswap_api.Chain.PoolAddress.{nat_bytes, salt_input, create2_input, get_pool_contract}
use ibswap_api.Chain.Types.{Ethereum, slice_from}

-- `db` and `evmNode`
pub record Db : Type 0 where
  pub host : Text
  pub port : Text
  pub db_name : Text
  pub usr : Text
  pub pwd : Text

pub record EvmConfig : Type 0 where
  pub rpc : Text
  pub wss : Text
  pub max_scan_height : ℕ
  pub listen_type : ℤ
  pub listen_pool_count : ℤ
  pub nft : Text
  pub factory : Text
  pub init_code : Text

-- The variables of the package config.
pub record Config : Type 0 where
  pub http_port : ℤ
  pub db : Db
  pub evm_node : EvmConfig
  pub scan_time : ℤ
  pub stat_days : ℤ
  pub admin_addresses : List Text

-- `init`: the file is opened, and decoded.
unfoldable pub load_config : Result Text Text → (Text → Result Text Config) → Outcome Config
load_config (error m) decode = panic
load_config (value file) decode = elim (decode file) [ error m ↦ panic | value c ↦ ok c ]

-- The data source name of `ConnectToMysql`.
unfoldable pub data_source : Db → Text
data_source d =
    d.usr
    ++ codes ":"
    ++ d.pwd
    ++ codes "@tcp("
    ++ d.host
    ++ codes ":"
    ++ d.port
    ++ codes ")/"
    ++ d.db_name

-- The driver: `Open` on a data source name, `Ping`, and the queries of `initCoinsAndPools`.
pub record Driver : Type 0 where
  pub open_error : Text → Option Text
  pub ping_error : Option Text
  pub coin_rows : Result Text (List (Result Text Coin))
  pub pool_rows : Result Text (List (Result Text Pool))

-- `ConnectToMysql`
unfoldable pub connect_to_mysql : Driver → Db → Outcome Registry
unfolding data_source
connect_to_mysql d c = elim (d.open_error (data_source c)) [
  | some m ↦ panic
  | none ↦ elim d.ping_error [
    | some m ↦ panic
    | none ↦ ok (init_coins_and_pools d.coin_rows d.pool_rows)
  ]
]

-- `Ping`, before or after the database has been opened.
unfoldable pub ping : Option Driver → Option Text
ping none = some (codes "mysql connection is nil")
ping (some d) = elim d.ping_error [
  | none ↦ none
  | some m ↦ some (codes "connect to Mysql error : " ++ m)
]

-- `CreateLogFiles`, from the errors of the directory and of the file.
unfoldable pub create_log_files : Option Text → Option Text → Outcome (Unit {0})
create_log_files (some m) file_error = panic
create_log_files none (some m) = panic
create_log_files none none = ok tt

-- What `ListenAndServe` ends with: no error, that of a `Shutdown`, or another.
pub data Listening : Type 0 where
  no_error server_closed other_error : Listening

-- The goroutine of `StartHttpServer`, after `ListenAndServe`.
unfoldable pub after_listen : Listening → Outcome (Unit {0})
after_listen no_error = ok tt
after_listen server_closed = panic
after_listen other_error = ok tt

-- What `main` has set up when it calls `service.Start`.
unfoldable pub main_setup :
    Result Text Text
    → (Text → Result Text Config)
    → Option Text
    → Option Text
    → Driver
    → Outcome (Config × Registry × Dict Text Bool)
unfolding load_config create_log_files connect_to_mysql
main_setup file decode dir_error log_error driver = do
  c ← load_config file decode
  done ← create_log_files dir_error log_error
  r ← connect_to_mysql driver c.db
  ok (c, r, add_admins c.admin_addresses [])

-- `ComputerAddress` after its constants, up to what it prints.
unfoldable pub address_for : Ethereum → List ℕ → List ℕ → List ℕ → ℕ → List ℕ → Outcome Text
address_for e t0 t1 factory fee init_code = do
  let padded =
      (e.left_pad_bytes t0 32 ++ e.left_pad_bytes t1 32) ++ e.left_pad_bytes (nat_bytes fee) 32
  let s1 = e.keccak256 padded
  let d = (((15 + 15 * 2 ^ 4) ∷ factory) ++ s1) ++ init_code
  low ← slice_from 12 (e.keccak256 d)
  ok (e.address_hex (e.bytes_to_address low))

unfoldable pub computer_address : Ethereum → (Text → List ℕ) → (Text → List ℕ) → Outcome Text
unfolding address_for
computer_address e hex_to_address decode_hex =
    address_for e (hex_to_address (codes "0xc9f3a2C8a5C05FDbE086549de9DD9954ACA7BD22"))
      (hex_to_address (codes "0xdcC4E969F081C3E967581Aa9175EF6F0a337Ae88"))
      (hex_to_address (codes "0xf5505F34D30eCd03811DAFC8326874e74900Ee76")) 10000
      (decode_hex (codes "8e9fe382501507411f52f566085a224b4f7955fab4a5dec1aedf007cb94dffb8"))

-- What `ComputerAddress` computes from two tokens, a factory, a fee and an init code is what
-- `getPoolContract` gives for them.
pub address_for-get_pool_contract :
    (e : Ethereum) (t0 t1 factory : List ℕ) (fee : ℕ) (init_code : List ℕ)
    → address_for e t0 t1 factory fee init_code ≡ get_pool_contract e t0 t1 factory fee init_code
unfolding address_for get_pool_contract create2_input salt_input
address_for-get_pool_contract e t0 t1 factory fee init_code = refl
