-- ===== src/Stats/Ticks/Passage.antt =====
-- A passage of the loop of `dealTickV3` of service/task.go: it does to the tick's pool what the
-- description says, and nothing to another.
use ibswap_api.Common.{ℕ, ◌/◌, ◌≡◌, ◌≢◌, refl, ◌∙◌, inl, inr, ◌&&◌, ◌||◌, Bool-cases}
use ibswap_api.Common.Int.{pos, eqb_ℤ}
use ibswap_api.Common.Eq.{Text, text_eq_instance}
use ibswap_api.Common.Dict.{lookup, lookup-insert_self, lookup-insert_ne}
use ibswap_api.Common.Decimal.{int_string}
use ibswap_api.Common.Outcome.{ok}
use ibswap_api.Chain.Types.{PoolStat}
use ibswap_api.Stats.Ticks.{
  Globals, StoredVolume, Loop, Arrival, is_zero, is_positive, tick_of, set_current, set_utc0,
  add_volume, deal_tick,
}
use ibswap_api.Stats.Ticks.Description.{
  OfPool, At, own_tick, own_current, own_utc0, own_volume, own_arrival, seen0, seen1,
}

-- The maps change at `key`, to `p`, and nowhere else.
pub record Becomes (key : Text) (p : OfPool) (g g' : Globals) : Type 0 where
  pub here : At key g' p
  pub elsewhere : (k : Text) (q : OfPool) → k ≢ key → At k g q → At k g' q
  pub others : (k : Text) → k ≢ key → lookup k g'.curr_reserves ≡ lookup k g.curr_reserves

stays : (key : Text) (p : OfPool) (g : Globals) → At key g p → Becomes key p g g
stays key p g h = record { here = h; elsewhere = λ k q n i. i; others = λ k n. refl }

Becomes-trans :
    (key : Text) (p p' : OfPool) (g g' g'' : Globals)
    → Becomes key p g g'
    → Becomes key p' g' g''
    → Becomes key p' g g''
Becomes-trans key p p' g g' g'' b c = record {
  here = c.here;
  elsewhere = λ k q n i. c.elsewhere k q n (b.elsewhere k q n i);
  others = λ k n. c.others k n ∙ b.others k n;
}

tick_of_lem :
    (g : Globals) (s : PoolStat) (p : OfPool) → At s.address g p → tick_of g s ≡ ok (own_tick s p)
unfolding tick_of
tick_of_lem g s p h = elim (Bool-cases (is_zero s.volume0 && is_zero s.volume1)) [
  | inl e ↦ rw (e, h.curr_found) refl
  | inr e ↦ rw e refl
]

set_current_lem :
    (s : PoolStat) (l : Loop) (p : OfPool)
    → At s.address l.globals p
    → (l' : Loop) × (set_current s (own_tick s p) l ≡ ok l')
      × Becomes s.address (own_current s p) l.globals l'.globals
      × (l'.pre_reserve0 ≡ seen0 s l.pre_reserve0)
      × (l'.pre_reserve1 ≡ seen1 s l.pre_reserve1)
unfolding set_current
set_current_lem s l p h = elim (Bool-cases (is_zero s.reserve0)) [
  | inl e ↦ rw e (l, refl, stays s.address p l.globals h, refl, refl)
  | inr e ↦
      rw (e, h.curr_found)
        (
          _,
          refl,
          record {
            here = record {
              utc0_found = h.utc0_found;
              curr_found = lookup-insert_self s.address _ l.globals.curr_reserves;
              volumes_found = h.volumes_found;
            };
            elsewhere = λ k q n i. record {
              utc0_found = i.utc0_found;
              curr_found = lookup-insert_ne k s.address _ l.globals.curr_reserves n ∙ i.curr_found;
              volumes_found = i.volumes_found;
            };
            others = λ k n. lookup-insert_ne k s.address _ l.globals.curr_reserves n;
          },
          refl,
          refl,
        )
]

set_utc0_lem :
    (now : ℕ) (key : Text) (g : Globals) (p : OfPool)
    → At key g p
    → (g' : Globals) × (set_utc0 now key g ≡ ok g') × Becomes key (own_utc0 now p) g g'
unfolding set_utc0
set_utc0_lem now key g p h = elim (Bool-cases (eqb_ℤ p.utc0.day (pos (now / 86400)))) [
  | inl e ↦ rw (h.utc0_found, e) (g, refl, stays key p g h)
  | inr e ↦
      rw (h.utc0_found, e, h.curr_found)
        (
          _,
          refl,
          record {
            here = record {
              utc0_found = lookup-insert_self key _ g.utc0_reserves;
              curr_found = h.curr_found;
              volumes_found = h.volumes_found;
            };
            elsewhere = λ k q n i. record {
              utc0_found = lookup-insert_ne k key _ g.utc0_reserves n ∙ i.utc0_found;
              curr_found = i.curr_found;
              volumes_found = i.volumes_found;
            };
            others = λ k n. refl;
          },
        )
]

add_volume_lem :
    (later : ℕ) (s : PoolStat) (g : Globals) (p : OfPool)
    → At s.address g p
    → (g' : Globals) × (add_volume later s g ≡ ok g')
      × Becomes s.address (own_volume later s p) g g'
unfolding add_volume
add_volume_lem later s g p h = elim (Bool-cases (is_positive s.volume0 || is_positive s.volume1)) [
  | inl e ↦
      rw (e, h.volumes_found)
        (
          _,
          refl,
          record {
            here = record {
              utc0_found = h.utc0_found;
              curr_found = h.curr_found;
              volumes_found = lookup-insert_self s.address _ g.volumes_24h;
            };
            elsewhere = λ k q n i. record {
              utc0_found = i.utc0_found;
              curr_found = i.curr_found;
              volumes_found = lookup-insert_ne k s.address _ g.volumes_24h n ∙ i.volumes_found;
            };
            others = λ k n. refl;
          },
        )
  | inr e ↦ rw e (g, refl, stays s.address p g h)
]

pub deal_tick_lem :
    (a : Arrival) (l : Loop) (p : OfPool)
    → At a.stat.address l.globals p
    → (l' : Loop) × (s : StoredVolume) × (deal_tick a l ≡ ok (l', s))
      × Becomes a.stat.address (own_arrival a p) l.globals l'.globals
      × (l'.pre_reserve0 ≡ seen0 a.stat l.pre_reserve0)
      × (l'.pre_reserve1 ≡ seen1 a.stat l.pre_reserve1)
      × (s.r0 ≡ int_string l'.pre_reserve0)
      × (s.r1 ≡ int_string l'.pre_reserve1)
      × (s.contract ≡ a.stat.address)
      × (s.tick ≡ own_tick a.stat p)
unfolding deal_tick
deal_tick_lem a l p h =
    let (l1, e1, b1, c0, c1) = set_current_lem a.stat l p h in
    let (g2, e2, b2) =
      set_utc0_lem a.now a.stat.address l1.globals (own_current a.stat p) b1.here in
    let (g3, e3, b3) =
      add_volume_lem a.later a.stat g2 (own_utc0 a.now (own_current a.stat p)) b2.here in
    rw (tick_of_lem l.globals a.stat p h, e1, e2, e3)
      (
        _,
        _,
        refl,
        Becomes-trans _ _ _ _ _ _ b1 (Becomes-trans _ _ _ _ _ _ b2 b3),
        c0,
        c1,
        refl,
        refl,
        refl,
        refl,
      )
