-- ===== src/Stats/Start/Batches.antt =====
-- `start` of service/task.go: every pool is initialised, and watched in one batch.
use ibswap_api.Common.{
  ℕ, zero, suc, ◌+◌, ◌≤◌, ◌<◌, ◌≡◌, refl, sym, ap, ◌∙◌, inl, inr, some, List, [], ◌∷◌, ◌++◌, arith,
  length, get_elem?, All, map, Bool-cases, length-append,
}
use mathlib.Core.List.{append_assoc, append-nil}
use ibswap_api.Common.Int.{ℤ, pos, ltb_ℤ}
use ibswap_api.Common.Eq.{Text, text_eq, text_eq_instance}
use ibswap_api.Common.Dict.{lookup-insert, lookup-insert_self}
use ibswap_api.Common.Outcome.{ok, value}
use ibswap_api.Registry
use ibswap_api.Stats.Window.{Volumes, new_volumes}
use ibswap_api.Stats.Ticks.{Reserves, Globals}
use ibswap_api.Stats.Ticks.Description.{IsKept}
use ibswap_api.Stats.Start.{
  Answers, append_from, initial_volumes, initial_utc0, initial_current, keep, init_pool_stat, Batch,
  start_from, start,
}

-- The database answered, with as many times as amounts.
abbrev pub IsAnswered : Answers → Type 0
IsAnswered a =
    ((tss : List ℤ) × (vols : List (ℤ × ℤ)) × (a.volumes ≡ value (tss, vols))
      × (length vols ≤ length tss))
    × ((u : ℤ × ℤ × ℤ × ℤ) × (a.utc0 ≡ value u))
    × ((r : ℤ × ℤ × ℤ) × (a.latest ≡ value r))

abbrev pub joined : List Batch → Batch
joined [] = []
joined (b ∷ bs) = b ++ joined bs

found : {A : Type 0} (xs : List A) (i : ℕ) → i < length xs → (a : A) × (get_elem? xs i ≡ some a)
found [] i h = absurd (omega arith)
found (x ∷ xs) zero h = (x, refl)
found (x ∷ xs) (suc i) h = found xs i (omega arith)

append_from-ok :
    (clock : ℕ → ℕ) (tss : List ℤ) (vols : List (ℤ × ℤ)) (i : ℕ) (v : Volumes)
    → i ≤ length vols
    → length vols ≤ length tss
    → (v' : Volumes) × (append_from clock tss vols i v ≡ ok v')
unfolding append_from
append_from-ok clock tss vols zero v h k = (v, refl)
append_from-ok clock tss vols (suc i) v h k =
    let (a, e) = found vols i (omega arith) in
    let (t, f) = found tss i (omega arith) in
    rw (e, f) (append_from-ok clock tss vols i _ (omega arith) k)

pub IsKept-keep :
    (c k : Text) (u r : Reserves) (v : Volumes) (g : Globals)
    → IsKept g k
    → IsKept (keep c u r v g) k
IsKept-keep c k u r v g (p, h) = elim (Bool-cases (text_eq k c)) [
  | inl e ↦ (
    record { utc0 = u; curr = r; volumes = v },
    record {
      utc0_found = lookup-insert k c u g.utc0_reserves ∙ rw e refl;
      curr_found = lookup-insert k c r g.curr_reserves ∙ rw e refl;
      volumes_found = lookup-insert k c v g.volumes_24h ∙ rw e refl;
    },
  )
  | inr e ↦ (
    p,
    record {
      utc0_found = lookup-insert k c u g.utc0_reserves ∙ rw e h.utc0_found;
      curr_found = lookup-insert k c r g.curr_reserves ∙ rw e h.curr_found;
      volumes_found = lookup-insert k c v g.volumes_24h ∙ rw e h.volumes_found;
    },
  )
]

init_pool_stat-ok :
    (clock : ℕ → ℕ) (a : Answers) (c : Text) (g : Globals)
    → IsAnswered a
    → (g' : Globals) × (init_pool_stat clock a c g ≡ ok g')
      × IsKept g' c
      × ((k : Text) → IsKept g k → IsKept g' k)
unfolding init_pool_stat initial_volumes initial_utc0 initial_current
init_pool_stat-ok clock a c g ((tss, vols, e, n), (u, f), (r, d)) =
    let (v, w) = append_from-ok clock tss vols (length vols) new_volumes (omega arith) n in
    rw (e, f, d, w)
      (
        _,
        refl,
        (
          _,
          record {
            utc0_found = lookup-insert_self c _ g.utc0_reserves;
            curr_found = lookup-insert_self c _ g.curr_reserves;
            volumes_found = lookup-insert_self c v g.volumes_24h;
          },
        ),
        λ k h. IsKept-keep c k _ _ v g h,
      )

abbrev pub entry : (Text → List ℕ) → Registry.Pool → List ℕ × List ℕ × List ℕ
entry hex p = (hex p.contract, hex p.token0, hex p.token1)

-- A batch that `StartPool` gets has a pool, and at most one more than `ListenPoolCount`.
abbrev pub IsSized : ℕ → Batch → Type 0
IsSized n b = (1 ≤ length b) × (length b ≤ n + 1)

module _ (hex : Text → List ℕ) (clock : Text → ℕ → ℕ) (answers : Text → Answers) (n : ℕ) where
  start_from_lem :
      (pools : List Registry.Pool) (ps : Batch) (g : Globals)
      → All (λ p. IsAnswered (answers p.contract)) pools
      → length ps ≤ n
      → (g' : Globals) × (bs : List Batch) × (start_from hex clock answers
            (pos n)
            pools
            ps
            (length ps)
            g
          ≡ ok (g', bs))
        × (joined bs ≡ ps ++ map (entry hex) pools)
        × All (IsSized n) bs
        × All (λ p. IsKept g' p.contract) pools
        × ((k : Text) → IsKept g k → IsKept g' k)
  unfolding start_from
  start_from_lem [] [] g h s = (g, [], refl, refl, tt, tt, λ k i. i)
  start_from_lem [] (p ∷ ps) g h s = (
    g,
    (p ∷ ps) ∷ [],
    ground arith,
    sym (append-nil _) ∙ append-nil _,
    ((omega arith, omega arith), tt),
    tt,
    λ k i. i,
  )
  start_from_lem (p ∷ rest) ps g h s =
      let (g1, e, k, m) =
        init_pool_stat-ok (clock p.contract) (answers p.contract) p.contract g h.0 in
      let ps' = ps ++ entry hex p ∷ [] in
      let size = length-append ps (entry hex p ∷ []) in
      elim (Bool-cases (ltb_ℤ (pos n) (pos (length ps + 1)))) [
        | inl full ↦
            let (g2, bs, f, j, z, ks, m') = start_from_lem rest [] g1 h.1 (omega arith) in
            rw (e, full, f)
              (
                g2,
                ps' ∷ bs,
                refl,
                ap (λ x. ps' ++ x) j ∙ append_assoc ps _ _,
                ((omega (arith, size), omega (arith, size)), z),
                (m' _ k, ks),
                λ q i. m' q (m q i),
              )
        | inr room ↦
            let (g2, bs, f, j, z, ks, m') = start_from_lem rest ps' g1 h.1 (ground (arith, size)) in
            rw (e, room, sym size, f)
              (g2, bs, refl, j ∙ append_assoc ps _ _, z, (m' _ k, ks), λ q i. m' q (m q i))
      ]

  -- When the database answers for every pool and `ListenPoolCount` is `n`, `start` does not panic.
  -- It passes each pool, with its tokens, to `StartPool` once, in the order of `GetPools`, in
  -- batches of at least one and at most `n + 1` pools, and initialises every pool.
  pub start_batches :
      (pools : List Registry.Pool)
      → All (λ p. IsAnswered (answers p.contract)) pools
      → (g : Globals) × (bs : List Batch) × (start hex clock answers (pos n) pools ≡ ok (g, bs))
        × (joined bs ≡ map (entry hex) pools)
        × All (IsSized n) bs
        × All (λ p. IsKept g p.contract) pools
  unfolding start
  start_batches pools h =
      let (g, bs, e, j, z, k, _) = start_from_lem pools [] _ h (omega arith) in (g, bs, e, j, z, k)
