-- ===== src/Prices/Rounds.antt =====
-- service/price.go: the rounds of `RealEthPrice`, each with the price that the exchange gives, and
-- tools/unit.go: `HttpRequest`. The client of net/http, `json.Unmarshal` and `strconv.ParseFloat` are
-- parameters.
use mathlib.Core.List.{Memᴰ}
use ibswap_api.Common.{◌≡◌, refl, ap, ◌∙◌, inl, inr, Option, none, some, List, [], ◌∷◌, ◌++◌, All}
use ibswap_api.Common.Int.{ℤ}
use ibswap_api.Common.Eq.{Text, codes, text_eq_instance}
use ibswap_api.Common.Dict.{Dict, lookup}
use ibswap_api.Common.Outcome.{Outcome, ok, ◌>>=◌, Result, value, error, Result-cases}
use ibswap_api.Registry
use ibswap_api.Registry.{Registry, Coin, get_coin}
use ibswap_api.Prices.{Float, Overviews, Prices, set_tokens_price_as_usd}
use ibswap_api.Prices.Links.{Setting, Reliable, IsShared}
use ibswap_api.Prices.Correct.{set_tokens_price_as_usd-Settled}

-- The amount in a `CoinBasePrice`, or the error of `Unmarshal`; and `ParseFloat(s, 64)`.
pub record CoinBase (W : Type 0) : Type 0 where
  pub amount : Text → Result Text Text
  pub parse_float : Text → Result Text W

-- net/http: an error of `NewRequest`; and for a request with its header what `Do` gives, which is an error
-- or a response, of which `ReadAll` gives the body or an error.
pub record Client : Type 0 where
  pub request_error : Text → Text → Option Text → Option Text
  pub send : Text → Text → Option Text → Dict Text Text → Result Text (Result Text Text)

-- `HttpRequest`; headers that are nil are `none`.
abbrev pub reader_of : Text → Option Text
reader_of [] = none
reader_of (x ∷ xs) = some (x ∷ xs)

abbrev pub headers_of : Text → Option (Dict Text Text) → Dict Text Text
headers_of params (some h) = h
headers_of [] none = []
headers_of (x ∷ xs) none = (codes "Content-Type", codes "application/x-www-form-urlencoded") ∷ []

unfoldable pub http_request :
    Client → Text → Text → Text → Option (Dict Text Text) → Result Text Text
http_request c url method params headers = elim (c.request_error method url (reader_of params)) [
  | some m ↦ error (codes "NewRequest error. " ++ m)
  | none ↦ elim (c.send method url (reader_of params) (headers_of params headers)) [
    | error m ↦ error (codes "do the request error. " ++ m)
    | value response ↦ elim response [
      | error m ↦ error (codes "ReadAll response.Body error. " ++ m)
      | value body ↦ value body
    ]
  ]
]

-- A round: the client, and the coins, pools and overviews as they are then.
pub record Round (W S : Type 0) : Type 0 where
  pub client : Client
  pub registry : Registry
  pub pools : List Registry.Pool
  pub source : Overviews S
  pub state : S

module _ {W : Type 0} (cb : CoinBase W) where
  -- `GetEthPriceFromCoinBash`
  unfoldable pub get_eth_price_from_coin_bash : Client → Result Text W
  unfolding http_request
  get_eth_price_from_coin_bash c =
      elim (http_request c (codes "https://api.coinbase.com/v2/prices/ETH-USD/spot") (codes "GET")
        [] none) [
          | error m ↦ error m
          | value body ↦ elim (cb.amount body) [
            | error m ↦ error m
            | value amount ↦ elim (cb.parse_float amount) [ error m ↦ error m | value p ↦ value p ]
          ]
        ]

  module _ {S : Type 0} (fl : Float W) where
    -- `f`, where `none` says that the walk ran out of fuel.
    unfoldable pub price_round : Round W S → Prices W → Outcome (Option (Prices W))
    unfolding get_eth_price_from_coin_bash
    price_round r ps = elim (get_eth_price_from_coin_bash r.client) [
      | error m ↦ ok (some ps)
      | value p ↦ do
        x ← set_tokens_price_as_usd fl r.source r.registry r.pools (record ps { eth = p }) r.state
        ok (elim x [ none ↦ none | some w ↦ some w.prices ])
    ]

    unfoldable pub price_rounds : List (Round W S) → Prices W → Outcome (Option (Prices W))
    unfolding price_round
    price_rounds [] ps = ok (some ps)
    price_rounds (r ∷ rs) ps = do
      p ← price_round r ps
      elim p [ none ↦ ok none | some ps' ↦ price_rounds rs ps' ]

    -- `RealEthPrice`, over the rounds that it has had: the table is made anew.
    unfoldable pub real_eth_price : W → List (Round W S) → Outcome (Option (Prices W))
    unfolding price_rounds
    real_eth_price eth rounds = price_rounds rounds (record { eth = eth; table = [] })

    -- The price after a round, and the last price that the exchange gave.
    abbrev pub price_after : W → Round W S → W
    price_after eth r = elim (get_eth_price_from_coin_bash r.client) [ error m ↦ eth | value p ↦ p ]

    abbrev pub last_price : W → List (Round W S) → W
    last_price eth [] = eth
    last_price eth (r ∷ rs) = last_price (price_after eth r) rs

    -- In a round, coins are kept under their contracts, and the overviews do not panic and give the same
    -- ticks all along.
    pub record IsAnswerable (r : Round W S) : Type 1 where
      pub keyed : (t : Text) (c : Coin) → get_coin r.registry t ≡ some c → c.contract ≡ t
      pub tick_of : Text → Option ℤ
      pub Good : S → Type 0
      pub good : Good r.state
      pub answers :
          (p : Registry.Pool) (s : S)
          → Memᴰ p r.pools
          → Good s
          → (s' : S) × (r.source.overview p.contract s ≡ ok (tick_of p.contract, s')) × Good s'

    price_round-IsShared :
        (r : Round W S) (ps : Prices W)
        → IsAnswerable r
        → IsShared ps
        → (ps' : Prices W) × (price_round r ps ≡ ok (some ps'))
          × IsShared ps'
          × (ps'.eth ≡ price_after ps.eth r)
    unfolding price_round
    price_round-IsShared r ps a h = elim (Result-cases (get_eth_price_from_coin_bash r.client)) [
      | inl (m, e) ↦ (ps, rw (e, price_round) refl, h, rw (e, price_after) refl)
      | inr (p, e) ↦
          let k : Setting W S = record {
            float = fl;
            source = r.source;
            registry = r.registry;
            pools = r.pools;
            start = record ps { eth = p };
            tick_of = a.tick_of;
          } in
          let rel : Reliable k = record { Good = a.Good; answers = a.answers } in
          let (x, f, _, eth, shared) =
            set_tokens_price_as_usd-Settled k rel r.state a.keyed h a.good in
          (x.prices, rw (e, price_round, f) refl, shared, rw (e, price_after) eth)
    ]

    price_rounds-IsShared :
        (rounds : List (Round W S)) (ps : Prices W)
        → All IsAnswerable rounds
        → IsShared ps
        → (ps' : Prices W) × (price_rounds rounds ps ≡ ok (some ps'))
          × IsShared ps'
          × (ps'.eth ≡ last_price ps.eth rounds)
    unfolding price_rounds
    price_rounds-IsShared [] ps a h = (ps, refl, h, refl)
    price_rounds-IsShared (r ∷ rs) ps a h =
        let (ps1, e, h1, eth1) = price_round-IsShared r ps a.0 h in
        let (ps2, f, h2, eth2) = price_rounds-IsShared rs ps1 a.1 h1 in
        (ps2, rw (e, price_rounds, f) refl, h2, eth2 ∙ ap (λ w. last_price w rs) eth1)

    -- Whatever the exchange answers, round by round, errors included, `RealEthPrice` does not end in a
    -- panic, and every round of it ends: it leaves the last price that the exchange gave, and only WETH
    -- with the shared entry. This is for rounds in which coins are kept under their contracts, and the
    -- overviews of the pools do not panic and give the same ticks all along.
    pub real_eth_price_ends :
        (eth : W) (rounds : List (Round W S))
        → All IsAnswerable rounds
        → (ps : Prices W) × (real_eth_price eth rounds ≡ ok (some ps))
          × IsShared ps
          × (ps.eth ≡ last_price eth rounds)
    unfolding real_eth_price lookup
    real_eth_price_ends eth rounds a =
        price_rounds-IsShared rounds (record { eth = eth; table = [] }) a (λ t e. absurd (cc e))
