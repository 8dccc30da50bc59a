-- ===== src/Storage/Reload.antt =====
-- A restart: what `dealTickV3` and `countVolumes` stored (service/task.go, service/api.go), read back
-- by model/pool.go and `initPoolStat`.
use ibswap_api.Common.{
  ℕ, zero, suc, ◌+◌, ◌≤◌, ◌≡◌, refl, ap, ◌∙◌, inl, inr, Option, some, List, [], ◌∷◌, ◌++◌, map,
  arith, length, get_elem?, Bool-cases,
}
use ibswap_api.Common.Int.{ℤ, pos, ◌+ℤ◌, ltb_ℤ, int_laws}
use ibswap_api.Common.Eq.{Text, text_eq_instance}
use ibswap_api.Common.Decimal.{int_string, set_string-int_string}
use ibswap_api.Common.Dict.{lookup-insert_self}
use ibswap_api.Common.Outcome
use ibswap_api.Common.Outcome.{Outcome, ok, panic, deref, Result, value, error}
use ibswap_api.Chain.Types.{int64}
use ibswap_api.Storage.{
  VolumeRow, read_volume, read_volumes, get_24h_volumes, decimals, found, get_latest_reserves,
  get_latest_utc0_reserves,
}
use ibswap_api.Stats.Window.{Volume, Volumes, new_volumes, append, get_24h_volume, before_24h}
use ibswap_api.Stats.Window.Exact.{window, sum0, sum1, window-append, sum0-append, sum1-append}
use ibswap_api.Stats.Window.History.{
  Use, trades, reads, apply, run, traded, Timely, get_24h_volume_exact,
}
use ibswap_api.Stats.Ticks.{Globals, set_reserves, new_reserves}
use ibswap_api.Stats.Ticks.Description.{OfPool, At}
use ibswap_api.Stats.Start.{
  Answers, append_from, initial_volumes, initial_utc0, initial_current, init_pool_stat,
}

-- A row with the printed amounts of a trade, and a time of the database that stands for the trade's.
abbrev pub Written : (Text → Option ℤ) → Volume → Result Text VolumeRow → Type 0
Written parse v r =
    (s : Text) × (parse s ≡ some v.ts)
    × (r ≡ value (record { vol0 = int_string v.amount0; vol1 = int_string v.amount1; ts = s }))

abbrev pub AllWritten : (Text → Option ℤ) → List Volume → List (Result Text VolumeRow) → Type 0
AllWritten parse [] [] = Unit
AllWritten parse [] (r ∷ rows) = ⊥
AllWritten parse (v ∷ vs) [] = ⊥
AllWritten parse (v ∷ vs) (r ∷ rows) = Written parse v r × AllWritten parse vs rows

decimals-int_string :
    (fault : Text) (a b : ℤ) → decimals fault (int_string a) (int_string b) ≡ value (a, b)
unfolding decimals
decimals-int_string fault a b = rw (set_string-int_string a, decimals, set_string-int_string b) refl

read_volume-Written :
    (parse : Text → Option ℤ) (v : Volume) (r : Result Text VolumeRow)
    → Written parse v r
    → read_volume parse r ≡ value (v.ts, (v.amount0, v.amount1))
unfolding read_volume
read_volume-Written parse v r (s, p, e) = rw (e, decimals-int_string _ v.amount0 v.amount1, p) refl

abbrev times : List Volume → List ℤ
times vs = map (λ v. v.ts) vs

abbrev amounts : List Volume → List (ℤ × ℤ)
amounts vs = map (λ v. (v.amount0, v.amount1)) vs

read_volumes-Written :
    (parse : Text → Option ℤ) (vs : List Volume) (rows : List (Result Text VolumeRow))
    → AllWritten parse vs rows
    → read_volumes parse rows ≡ value (times vs, amounts vs)
unfolding read_volumes
read_volumes-Written parse [] [] h = refl
read_volumes-Written parse [] (r ∷ rows) h = elim h [ ]
read_volumes-Written parse (v ∷ vs) [] h = elim h [ ]
read_volumes-Written parse (v ∷ vs) (r ∷ rows) h =
    rw (read_volume-Written parse v r h.0, read_volumes-Written parse vs rows h.1) refl

-- The calls that the loop of `initPoolStat` makes: from the last row back to the first.
abbrev pub reloads : (ℕ → ℕ) → List Volume → List Use
reloads clock [] = []
reloads clock (v ∷ vs) = reloads (λ i. clock (suc i)) vs ++ trades (clock 0) v ∷ []

both_found :
    (vs : List Volume) (i : ℕ)
    → suc i ≤ length vs
    → (y : Volume) × (get_elem? (times vs) i ≡ some y.ts)
      × (get_elem? (amounts vs) i ≡ some (y.amount0, y.amount1))
both_found [] i h = absurd (omega arith)
both_found (v ∷ vs) zero h = (v, refl, refl)
both_found (v ∷ vs) (suc i) h = both_found vs i (omega arith)

append_from-cons :
    (clock : ℕ → ℕ) (x : Volume) (xs : List Volume) (i : ℕ) (v : Volumes)
    → i ≤ length xs
    → append_from clock (times (x ∷ xs)) (amounts (x ∷ xs)) (suc i) v
      ≡ Outcome.◌>>=◌
          (append_from (λ k. clock (suc k)) (times xs) (amounts xs) i v)
          (λ w. ok (append (clock 0) x w))
unfolding append_from
append_from-cons clock x xs zero v h = refl
append_from-cons clock x xs (suc i) v h =
    let (y, t, a) = both_found xs i h in
    rw (t, a) (append_from-cons clock x xs i (append (clock (suc i)) y v) (omega arith))

run-snoc : (us : List Use) (u : Use) (v : Volumes) → run (us ++ u ∷ []) v ≡ apply u (run us v)
unfolding run
run-snoc [] u v = refl
run-snoc (w ∷ us) u v = run-snoc us u (apply w v)

append_from-run :
    (clock : ℕ → ℕ) (vs : List Volume) (v : Volumes)
    → append_from clock (times vs) (amounts vs) (length (amounts vs)) v
      ≡ ok (run (reloads clock vs) v)
unfolding apply append
append_from-run clock [] v = unfold append_from in unfold run in refl
append_from-run clock (x ∷ xs) v =
    append_from-cons clock x xs (length (amounts xs)) v (omega (arith, length-amounts xs))
    ∙ rw
        (
          append_from-run (λ k. clock (suc k)) xs v,
          run-snoc (reloads (λ k. clock (suc k)) xs) (trades (clock 0) x) v,
          apply,
        )
        refl
  where
    length-amounts : (vs : List Volume) → length (amounts vs) ≡ length vs
    length-amounts [] = refl
    length-amounts (y ∷ ys) = ap suc (length-amounts ys)

traded-snoc :
    (us : List Use) (c : ℕ) (x : Volume) → traded (us ++ trades c x ∷ []) ≡ traded us ++ x ∷ []
traded-snoc [] c x = refl
traded-snoc (trades d y ∷ us) c x = ap (◌∷◌ y) (traded-snoc us c x)
traded-snoc (reads d ∷ us) c x = traded-snoc us c x

swap_last : (s a : ℤ) → s +ℤ (a +ℤ pos 0) ≡ a +ℤ s
swap_last s a = omega int_laws

no_change : (s : ℤ) → s +ℤ pos 0 ≡ s
no_change s = omega int_laws

-- The order of the rows does not matter for the sums of a window.
sums-reloads :
    (clock : ℕ → ℕ) (b : ℤ) (vs : List Volume)
    → (sum0 (window b (traded (reloads clock vs))) ≡ sum0 (window b vs))
      × (sum1 (window b (traded (reloads clock vs))) ≡ sum1 (window b vs))
sums-reloads clock b [] = (refl, refl)
sums-reloads clock b (x ∷ xs) =
    let us = reloads (λ k. clock (suc k)) xs in
    let (e0, e1) = sums-reloads (λ k. clock (suc k)) b xs in
    let split = ap (window b) (traded-snoc us (clock 0) x) ∙ window-append b (traded us) (x ∷ []) in
    elim (Bool-cases (ltb_ℤ x.ts b)) [
      | inl old ↦ (
        ap sum0 split
            ∙ sum0-append (window b (traded us)) (window b (x ∷ []))
            ∙ rw (old, e0) (no_change _),
        ap sum1 split
            ∙ sum1-append (window b (traded us)) (window b (x ∷ []))
            ∙ rw (old, e1) (no_change _),
      )
      | inr young ↦ (
        ap sum0 split
            ∙ sum0-append (window b (traded us)) (window b (x ∷ []))
            ∙ rw (young, e0) (swap_last _ _),
        ap sum1 split
            ∙ sum1-append (window b (traded us)) (window b (x ∷ []))
            ∙ rw (young, e1) (swap_last _ _),
      )
    ]

volumes_reload :
    (parse : Text → Option ℤ) (clock : ℕ → ℕ) (vs : List Volume)
    (rows : List (Result Text VolumeRow))
    → AllWritten parse vs rows
    → initial_volumes clock (get_24h_volumes parse (value rows))
      ≡ ok (run (reloads clock vs) new_volumes)
unfolding initial_volumes get_24h_volumes
volumes_reload parse clock vs rows w =
    rw (read_volumes-Written parse vs rows w) (append_from-run clock vs new_volumes)

utc0_reload :
    (day : ℕ) (tick u0 u1 : ℤ)
    → int64 (pos (day + 1)) ≡ pos (day + 1)
    → initial_utc0 (get_latest_utc0_reserves (found (pos day, tick, int_string u0, int_string u1)))
      ≡ ok (record { day = pos (day + 1); reserve0 = u0; reserve1 = u1; tick = tick })
unfolding get_latest_utc0_reserves initial_utc0 set_reserves
utc0_reload day tick u0 u1 fits = rw (decimals-int_string _ u0 u1, next day, fits) refl
  where
    next : (d : ℕ) → pos d +ℤ pos 1 ≡ pos (d + 1)
    next d = omega int_laws

current_reload :
    (r0 r1 tick : ℤ)
    → initial_current (get_latest_reserves (found (int_string r0, int_string r1, tick)))
      ≡ ok (record { day = pos 0; reserve0 = r0; reserve1 = r1; tick = tick })
unfolding get_latest_reserves initial_current set_reserves new_reserves
current_reload r0 r1 tick = rw (decimals-int_string _ r0 r1) refl

-- After a restart, a pool has what was stored of it last. The table `volume` holds rows, newest
-- first, with the printed amounts of trades and times that parse to theirs; the latest of them has
-- the printed reserves and a tick; the latest of `pool_stat` has the day, the tick and the printed
-- reserves of the last change of day. The clock does not go back, the rows are in the order of their
-- times, and the day fits. Then `initPoolStat` does not panic, the current reserves and those of the
-- day after are as stored, and the volume of 24 hours is the sum of the trades that are not older.
pub init_pool_stat-reloads :
    (parse : Text → Option ℤ) (clock : ℕ → ℕ) (c now : ℕ) (t : ℤ) (key : Text) (g : Globals)
    (vs : List Volume) (rows : List (Result Text VolumeRow)) (r0 r1 tick u0 u1 utick : ℤ) (day : ℕ)
    → AllWritten parse vs rows
    → Timely c t now (reloads clock vs)
    → int64 (pos (day + 1)) ≡ pos (day + 1)
    → let a : Answers = record {
      volumes = get_24h_volumes parse (value rows);
      utc0 = get_latest_utc0_reserves (found (pos day, utick, int_string u0, int_string u1));
      latest = get_latest_reserves (found (int_string r0, int_string r1, tick));
    } in
      (g' : Globals) × (p : OfPool) × (init_pool_stat clock a key g ≡ ok g')
      × At key g' p
      × (p.curr ≡ record { day = pos 0; reserve0 = r0; reserve1 = r1; tick = tick })
      × (p.utc0 ≡ record { day = pos (day + 1); reserve0 = u0; reserve1 = u1; tick = utick })
      × ((get_24h_volume now p.volumes).0.amount0 ≡ sum0 (window (before_24h now) vs))
      × ((get_24h_volume now p.volumes).0.amount1 ≡ sum1 (window (before_24h now) vs))
unfolding init_pool_stat
init_pool_stat-reloads parse clock c now t key g vs rows r0 r1 tick u0 u1 utick day w h fits =
    let v = run (reloads clock vs) new_volumes in
    let exact = get_24h_volume_exact c now t (reloads clock vs) h in
    let sums = sums-reloads clock (before_24h now) vs in
    rw
      (
        volumes_reload parse clock vs rows w,
        utc0_reload day utick u0 u1 fits,
        current_reload r0 r1 tick,
      )
      (
        _,
        record {
          utc0 = record { day = pos (day + 1); reserve0 = u0; reserve1 = u1; tick = utick };
          curr = record { day = pos 0; reserve0 = r0; reserve1 = r1; tick = tick };
          volumes = v;
        },
        refl,
        record {
          utc0_found = lookup-insert_self key _ g.utc0_reserves;
          curr_found = lookup-insert_self key _ g.curr_reserves;
          volumes_found = lookup-insert_self key v g.volumes_24h;
        },
        refl,
        refl,
        exact.0 ∙ sums.0,
        exact.1 ∙ sums.1,
      )
