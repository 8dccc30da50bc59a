-- ===== src/Router/Unsigned.antt =====
-- api/router.go: what a request without the signature of an administrator can change.
use ibswap_api.Common.{◌≡◌, Bool, true, false, List, [], ◌∷◌, ◌||◌, ◌&&◌}
use ibswap_api.Registry
use ibswap_api.Registry.{Registry, Coin}
use ibswap_api.Registry.Naming.{Untouched}
use ibswap_api.Stats.Discovery.{Effect}
use ibswap_api.Router.{
  Endpoint, add_pool, change_pool_state, change_token_public, Guard, Route, Site,
}

-- The handlers that are not behind `VerifySignature`.
abbrev pub is_public : Endpoint → Bool
is_public add_pool = false
is_public change_pool_state = false
is_public change_token_public = false
is_public e = true

abbrev is_guarded : List Guard → Bool
is_guarded [] = false
is_guarded (g ∷ gs) = true

abbrev is_covered : Route → Bool
is_covered r = is_public r.endpoint || is_guarded r.guards

abbrev all_covered : List Route → Bool
all_covered [] = true
all_covered (r ∷ rs) = is_covered r && all_covered rs

module _ {W : Type 0} where
  -- What a request without a signature leaves: no watcher is started, and the registry is `Untouched`.
  abbrev pub Harmless : {A : Type 0} → Site W → A × Site W × List Effect → Type 0
  Harmless s (a, s', es) = Untouched s.registry s'.registry × (es ≡ [])
