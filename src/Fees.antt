-- ===== src/Fees.antt =====
-- service/protocol.go: `RealProtocolFees`, which stores the fees that the pools owe to the protocol. What
-- the chain answers for each pool is an argument; what is stored is a list.
use ibswap_api.Common.{ℕ, List, [], ◌∷◌}
use ibswap_api.Common.Int.{pos}
use ibswap_api.Common.Eq.{Text}
use ibswap_api.Common.Decimal.{int_string}
use ibswap_api.Common.Outcome.{Result, value, error}
use ibswap_api.Registry
use ibswap_api.Registry.{Registry, get_pools}

-- The arguments of `StoreProtocolFees`.
pub record StoredFees : Type 0 where
  pub pool : Text
  pub t0 : Text
  pub a0 : Text
  pub t1 : Text
  pub a1 : Text

-- The loop of `f`: a pool whose fees cannot be asked for is left out.
unfoldable pub fees_of : (Text → Result Text (ℕ × ℕ)) → List Registry.Pool → List StoredFees
fees_of chain [] = []
fees_of chain (p ∷ ps) =
    let rest = fees_of chain ps in
    elim (chain p.contract) [
      | error m ↦ rest
      | value fees ↦
          record {
            pool = p.contract;
            t0 = p.symbol0;
            a0 = int_string (pos fees.0);
            t1 = p.symbol1;
            a1 = int_string (pos fees.1);
          }
          ∷ rest
    ]

-- `f`, over the pools that `GetPools` gives, which have the symbols of their coins.
unfoldable pub real_protocol_fees :
    (Text → Result Text (ℕ × ℕ)) → Registry → List StoredFees × Registry
unfolding fees_of
real_protocol_fees chain r = let (ps, r') = get_pools (pos 3) r in (fees_of chain ps, r')
