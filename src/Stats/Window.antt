-- ===== src/Stats/Window.antt =====
-- service/types.go: `Volumes`, the trades of the last 24 hours with their sums. The clock is an
-- argument.
pub mod Exact
pub mod History
use ibswap_api.Common.{ℕ, List, [], ◌∷◌, ◌++◌, if◌then◌else◌}
use ibswap_api.Common.Int.{ℤ, pos, ◌+ℤ◌, ◌-ℤ◌, ltb_ℤ}

pub record Volume : Type 0 where
  pub amount0 : ℤ
  pub amount1 : ℤ
  pub ts : ℤ

-- `rows` is the source's `data`.
pub record Volumes : Type 0 where
  pub rows : List Volume
  pub vol24h : Volume

-- `NewVolumes`
unfoldable pub new_volumes : Volumes
new_volumes = record { rows = []; vol24h = record { amount0 = pos 0; amount1 = pos 0; ts = pos 0 } }

-- The loop of `get24HVolume`: rows from the front, while they are too old.
unfoldable pub evict : ℤ → List Volume → Volume → List Volume × Volume
evict before [] total = ([], total)
evict before (v ∷ vs) total =
    if ltb_ℤ v.ts before
    then evict before vs (record total {
      amount0 = total.amount0 -ℤ v.amount0;
      amount1 = total.amount1 -ℤ v.amount1;
    })
    else (v ∷ vs, total)

abbrev pub before_24h : ℕ → ℤ
before_24h now = pos now -ℤ pos 86400

-- `get24HVolume`, with the receiver that it leaves.
unfoldable pub get_24h_volume : ℕ → Volumes → Volume × Volumes
unfolding evict
get_24h_volume now v =
    let kept = evict (before_24h now) v.rows v.vol24h in
    let total = record kept.1 { ts = before_24h now } in
    (total, record { rows = kept.0; vol24h = total })

-- `append`
unfoldable pub append : ℕ → Volume → Volumes → Volumes
unfolding get_24h_volume
append now vol v =
    let v' = (get_24h_volume now v).1 in
    record {
      rows = v'.rows ++ vol ∷ [];
      vol24h = record v'.vol24h {
        amount0 = v'.vol24h.amount0 +ℤ vol.amount0;
        amount1 = v'.vol24h.amount1 +ℤ vol.amount1;
      };
    }
