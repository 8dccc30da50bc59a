-- ===== src/Stats/Window/History.antt =====
-- `Volumes` of service/types.go after any sequence of its calls.
use mathlib.Core.List.{append-nil, append_assoc}
use ibswap_api.Common.{ℕ, ◌≤◌, ◌≡◌, refl, sym, ap, ◌∙◌, List, [], ◌∷◌, ◌++◌, arith}
use ibswap_api.Common.Int.{ℤ, pos_part, neg_part, ◌+ℤ◌, ◌≤ℤ◌, int_laws}
use ibswap_api.Stats.Window.{Volume, Volumes, new_volumes, before_24h, get_24h_volume, append}
use ibswap_api.Stats.Window.Exact.{
  window, sum0, sum1, SortedFrom, UpTo, evict-window, window-append, window-window, sum0-append,
  sum1-append, SortedFrom-window, SortedFrom-snoc, UpTo-window, UpTo-snoc,
}

-- A call at the time that the clock shows.
pub data Use : Type 0 where
  trades : ℕ → Volume → Use
  reads : ℕ → Use

unfoldable pub apply : Use → Volumes → Volumes
apply (trades now vol) v = append now vol v
apply (reads now) v = (get_24h_volume now v).1

unfoldable pub run : List Use → Volumes → Volumes
run [] v = v
run (u ∷ us) v = run us (apply u v)

abbrev pub traded : List Use → List Volume
traded [] = []
traded (trades now vol ∷ us) = vol ∷ traded us
traded (reads now ∷ us) = traded us

-- The clock does not go back between `c` and `now`, and the trades come in the order of their
-- times, none before `t`.
abbrev pub Timely : ℕ → ℤ → ℕ → List Use → Type 0
Timely c t now [] = c ≤ now
Timely c t now (trades c' vol ∷ us) = (c ≤ c') × (t ≤ℤ vol.ts) × Timely c' vol.ts now us
Timely c t now (reads c' ∷ us) = (c ≤ c') × Timely c' t now us

-- The rows stand for the trades `past` from the cutoff `b` on, and the sums are theirs.
pub record Tracks (lo hi b : ℤ) (past : List Volume) (v : Volumes) : Type 0 where
  pub bounds : lo ≤ℤ hi
  pub sorted : SortedFrom lo v.rows
  pub up_to : UpTo hi v.rows
  pub same : (c : ℤ) → b ≤ℤ c → window c v.rows ≡ window c past
  pub total0 : v.vol24h.amount0 ≡ sum0 v.rows
  pub total1 : v.vol24h.amount1 ≡ sum1 v.rows

take_back : (k s t w : ℤ) → k +ℤ s ≡ t +ℤ w → t ≡ s → k ≡ w
take_back k s t w e f =
    take_back_parts k s t w (ap pos_part e) (ap neg_part e) (ap pos_part f) (ap neg_part f)
  where
    take_back_parts :
        (k s t w : ℤ)
        → pos_part (k +ℤ s) ≡ pos_part (t +ℤ w)
        → neg_part (k +ℤ s) ≡ neg_part (t +ℤ w)
        → pos_part t ≡ pos_part s
        → neg_part t ≡ neg_part s
        → k ≡ w
    take_back_parts k s t w e f g h = omega int_laws

get_24h_volume-Tracks :
    (lo hi b : ℤ) (now : ℕ) (past : List Volume) (v : Volumes)
    → b ≤ℤ before_24h now
    → Tracks lo hi b past v
    → Tracks lo hi (before_24h now) past (get_24h_volume now v).1
unfolding get_24h_volume
get_24h_volume-Tracks lo hi b now past v h t =
    let (k, a0, a1) = evict-window (before_24h now) lo v.rows v.vol24h t.sorted in
    record {
      bounds = t.bounds;
      sorted = rw k (SortedFrom-window (before_24h now) lo v.rows t.sorted);
      up_to = rw k (UpTo-window (before_24h now) hi v.rows t.up_to);
      same = λ c g. rw k (window-window (before_24h now) c v.rows g ∙ t.same c (omega arith));
      total0 = rw k (take_back _ _ _ _ a0 t.total0);
      total1 = rw k (take_back _ _ _ _ a1 t.total1);
    }

UpTo-raise : (hi hi' : ℤ) (vs : List Volume) → hi ≤ℤ hi' → UpTo hi vs → UpTo hi' vs
UpTo-raise hi hi' [] h u = tt
UpTo-raise hi hi' (x ∷ vs) h u = (omega arith, UpTo-raise hi hi' vs h u.1)

sum0-snoc : (vs : List Volume) (v : Volume) → sum0 vs +ℤ v.amount0 ≡ sum0 (vs ++ v ∷ [])
sum0-snoc vs v = rw (sum0-append vs (v ∷ [])) (omega int_laws)

sum1-snoc : (vs : List Volume) (v : Volume) → sum1 vs +ℤ v.amount1 ≡ sum1 (vs ++ v ∷ [])
sum1-snoc vs v = rw (sum1-append vs (v ∷ [])) (omega int_laws)

append-Tracks :
    (lo hi b : ℤ) (now : ℕ) (past : List Volume) (vol : Volume) (v : Volumes)
    → b ≤ℤ before_24h now
    → hi ≤ℤ vol.ts
    → Tracks lo hi b past v
    → Tracks lo vol.ts (before_24h now) (past ++ vol ∷ []) (append now vol v)
unfolding append
append-Tracks lo hi b now past vol v h g t =
    let u = get_24h_volume-Tracks lo hi b now past v h t in
    let kept = (get_24h_volume now v).1.rows in
    let up = UpTo-raise hi vol.ts kept g u.up_to in
    let low = raise lo hi vol.ts t.bounds g in
    record {
      bounds = low;
      sorted = SortedFrom-snoc lo kept vol u.sorted low up;
      up_to = UpTo-snoc vol.ts vol.ts kept vol (below vol.ts) up (below vol.ts);
      same = λ c k.
          window-append c kept (vol ∷ [])
          ∙ ap (λ r. r ++ window c (vol ∷ [])) (u.same c k)
          ∙ sym (window-append c past (vol ∷ []));
      total0 = ap (λ s. s +ℤ vol.amount0) u.total0 ∙ sum0-snoc kept vol;
      total1 = ap (λ s. s +ℤ vol.amount1) u.total1 ∙ sum1-snoc kept vol;
    }
  where
    raise : (a b c : ℤ) → a ≤ℤ b → b ≤ℤ c → a ≤ℤ c
    raise a b c h g = omega arith

    below : (a : ℤ) → a ≤ℤ a
    below a = omega arith

cutoff_mono : (c d : ℕ) → c ≤ d → before_24h c ≤ℤ before_24h d
cutoff_mono c d h = omega int_laws

run-Tracks :
    (lo t : ℤ) (c now : ℕ) (us : List Use) (past : List Volume) (v : Volumes)
    → Timely c t now us
    → Tracks lo t (before_24h c) past v
    → let v' = run us v in
      (v'.vol24h.amount0 ≡ sum0 v'.rows)
      × (v'.vol24h.amount1 ≡ sum1 v'.rows)
      × SortedFrom lo v'.rows
      × (window (before_24h now) v'.rows ≡ window (before_24h now) (past ++ traded us))
unfolding run apply
run-Tracks lo t c now [] past v h s =
    rw (append-nil past)
      (s.total0, s.total1, s.sorted, s.same (before_24h now) (cutoff_mono c now h))
run-Tracks lo t c now (trades c' vol ∷ us) past v h s =
    let r =
      run-Tracks lo vol.ts c' now us (past ++ vol ∷ []) (append c' vol v) h.2
        (append-Tracks lo t (before_24h c) c' past vol v (cutoff_mono c c' h.0) h.1 s) in
    (r.0, r.1, r.2, r.3 ∙ ap (window (before_24h now)) (append_assoc past (vol ∷ []) (traded us)))
run-Tracks lo t c now (reads c' ∷ us) past v h s =
    run-Tracks lo t c' now us past (get_24h_volume c' v).1 h.1
      (get_24h_volume-Tracks lo t (before_24h c) c' past v (cutoff_mono c c' h.0) s)

-- After any sequence of `append` and `get24HVolume` on a new `Volumes`, at times that do not go back
-- and with the trades in the order of their timestamps, `get24HVolume` gives the sums of the amounts
-- of all the trades of the sequence that are at most 24 hours old, and of no other.
pub get_24h_volume_exact :
    (c now : ℕ) (t : ℤ) (us : List Use)
    → Timely c t now us
    → let given = (get_24h_volume now (run us new_volumes)).0 in
      let recent = window (before_24h now) (traded us) in
      (given.amount0 ≡ sum0 recent) × (given.amount1 ≡ sum1 recent)
unfolding get_24h_volume new_volumes
get_24h_volume_exact c now t us h =
    let v = run us new_volumes in
    let (e0, e1, s, w) = run-Tracks t t c now us [] new_volumes h (record {
      bounds = below t;
      sorted = tt;
      up_to = tt;
      same = λ b k. refl;
      total0 = refl;
      total1 = refl;
    }) in
    let (k, a0, a1) = evict-window (before_24h now) t v.rows v.vol24h s in
    rw (sym w) (take_back _ _ _ _ a0 e0, take_back _ _ _ _ a1 e1)
  where
    below : (a : ℤ) → a ≤ℤ a
    below a = omega arith
