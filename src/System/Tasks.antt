-- ===== src/System/Tasks.antt =====
-- What the ticks of the watchers and the calls of the task that finds pools keep: the registry is in
-- step with itself and with the maps of the statistics, but for a pool that is to get its statistics, and
-- every watcher is of pools that have theirs.
use mathlib.Core.List.{Memᴰ, append-nil}
use ibswap_api.Common.{
  ℕ, true, ◌≡◌, refl, sym, ap, subst, ◌∙◌, inl, inr, some, List, [], ◌∷◌, ◌++◌, get_elem?, All,
  All-append, All-weaken, All-set, All-get_elem?, All-Memᴰ, Bool-cases, none, Option-cases,
}
use ibswap_api.Common.Eq.{Text, text_eq, text_eq_iff, text_eq_instance}
use ibswap_api.Common.Dict.{lookup}
use ibswap_api.Common.Outcome.{ok}
use ibswap_api.Registry.{Registry}
use ibswap_api.Registry.Steady.{Steady, Steady-refl}
use ibswap_api.Stats.Ticks.{Globals, Loop, Arrival}
use ibswap_api.Stats.Ticks.Description.{OfPool, At, IsKept}
use ibswap_api.Stats.Ticks.Passage.{Becomes, deal_tick_lem}
use ibswap_api.Stats.Ticks.Own.{arrival-At}
use ibswap_api.Stats.Discovery.{deleted, moved, stored, started, Found}
use ibswap_api.Stats.Discovery.Kept.{init_pool_stat_real-IsKept, init_pool_stat_real_keeps}
use ibswap_api.Stats.Discovery.Grounded.{Grounded, IsHeld}
use ibswap_api.Stats.Overview.Calm.{Calm}
use ibswap_api.Router.{Setup, Gin}
use ibswap_api.Router.Handling.{state_of}
use ibswap_api.Stats.Start.{init_pool_stat_real}
use ibswap_api.Stats.Discovery.Calls.{TaskCall, learns, opens, does, perform}
use ibswap_api.Stats.Discovery.Pending.{InHand, InHand-later, enter-InHand, perform-InHand}
use ibswap_api.Stats.Discovery.Others.{enter_lem}
use ibswap_api.System.{work_step, listen_step, Watcher, Service, new_watchers, tick_step, find_step}

abbrev pub IsWatched : Globals → Watcher → Type 0
IsWatched g w = All (IsKept g) w.pools

pub record Sound {W : Type 0} (s : Service W) : Type 0 where
  pub in_hand : InHand (state_of s.site) s.todo
  pub watched : All (IsWatched s.site.globals) s.watchers

IsWatched-later :
    (g g' : Globals)
    → ((k : Text) → IsKept g k → IsKept g' k)
    → (ws : List Watcher) → All (IsWatched g) ws
    → All (IsWatched g') ws
IsWatched-later g g' up ws h = All-weaken ws (λ w. All-weaken w.pools up) h

-- What a tick leaves: its own pool's statistics change, and no reserves appear or go.
after_tick :
    (a : Arrival) (q : OfPool) (r : Registry) (g g' : Globals) (p : OfPool)
    → At a.stat.address g q
    → Becomes a.stat.address p g g'
    → ((k : Text) → IsKept g k → IsKept g' k)
    → Grounded (record { registry = r; globals = g })
    → Grounded (record { registry = r; globals = g' })
after_tick a q r g g' p at b up h = record {
  valid = h.valid;
  listed = h.listed;
  domain = λ k. elim (Bool-cases (text_eq k a.stat.address)) [
    | inl e ↦ elim (h.domain k) [
      | inr i ↦ inr i
      | inl f ↦ absurd (cc (f, at.curr_found, (text_eq_iff k a.stat.address).0 e))
    ]
    | inr e ↦ elim (h.domain k) [
      | inr i ↦ inr i
      | inl f ↦ inl (b.others k (λ s. cc ((text_eq_iff k a.stat.address).1 s, e)) ∙ f)
    ]
  ];
}

after_tick-IsHeld :
    (a : Arrival) (q : OfPool) (g g' : Globals) (p : OfPool)
    → At a.stat.address g q
    → Becomes a.stat.address p g g'
    → ((k : Text) → IsKept g k → IsKept g' k)
    → IsHeld g
    → IsHeld g'
after_tick-IsHeld a q g g' p at b up h k = elim (h k) [
  | inr i ↦ inr (up k i)
  | inl f ↦ elim (Bool-cases (text_eq k a.stat.address)) [
    | inl e ↦ absurd (cc (f, at.curr_found, (text_eq_iff k a.stat.address).0 e))
    | inr e ↦ inl (b.others k (λ s. cc ((text_eq_iff k a.stat.address).1 s, e)) ∙ f)
  ]
]

-- The registry is `Steady`, the maps are `Calm`, and the watchers and what is left to do are the same.
pub Calm-Sound :
    {W : Type 0} (s s' : Service W)
    → Steady s.site.registry s'.site.registry
    → Calm s.site.globals s'.site.globals
    → s'.watchers ≡ s.watchers
    → s'.todo ≡ s.todo
    → Sound s
    → Sound s'
Calm-Sound s s' r c e f h = record {
  in_hand = subst (InHand (state_of s'.site)) (sym f) (
      InHand-later (state_of s.site) (state_of s'.site) s.todo r c.kept
        (record {
          valid = r.valid h.in_hand.grounded.valid;
          listed = r.listed h.in_hand.grounded.listed;
          domain = λ k. elim (h.in_hand.grounded.domain k) [
            | inl g ↦ inl (ap (lookup k) c.curr ∙ g)
            | inr (p, g) ↦ inr (p, ap (lookup k) r.v3 ∙ g)
          ];
        })
        (λ k. elim (h.in_hand.held k) [
          | inl g ↦ inl (ap (lookup k) c.curr ∙ g)
          | inr i ↦ inr (c.kept k i)
        ])
        h.in_hand);
  watched =
      subst (All (IsWatched s'.site.globals)) (sym e)
        (IsWatched-later s.site.globals s'.site.globals c.kept s.watchers h.watched);
}

module _ {W : Type 0} (u : Setup W) (gin : Gin) where
  -- A tick is for a watcher that listens, of one of its pools.
  abbrev pub IsOwn : ℕ → Arrival → Service W → Type 0
  IsOwn i a s =
      (w : Watcher) × (get_elem? s.watchers i ≡ some w)
      × (w.is_listening ≡ true)
      × Memᴰ a.stat.address w.pools

  -- The address of a pool that is found is written as go-ethereum's `Hex` writes it.
  abbrev pub IsPrinted : Text → Type 0
  IsPrinted k = u.crypto.address_hex (u.crypto.hex_to_address k) ≡ k

  pub tick_step-Sound :
      (i : ℕ) (a : Arrival) (s : Service W)
      → IsOwn i a s
      → Sound s
      → (s' : Service W) × (tick_step u gin i a s ≡ ok s') × Sound s'
  unfolding tick_step
  tick_step-Sound i a s (w, e, on, m) h =
      let own = All-get_elem? (IsWatched s.site.globals) s.watchers i w h.watched e in
      let (q, at) = All-Memᴰ (IsKept s.site.globals) w.pools m own in
      let l : Loop = record {
        globals = s.site.globals;
        pre_reserve0 = w.pre_reserve0;
        pre_reserve1 = w.pre_reserve1;
      } in
      let (l', v, f, b, _, _, _, _, _, _) = deal_tick_lem a l q at in
      let up : (k : Text) → IsKept s.site.globals k → IsKept l'.globals k =
        λ k x. (_, arrival-At k q x.0 s.site.globals l'.globals a at b x.1) in
      rw (e, tick_step, on, f)
        (
          _,
          refl,
          record {
            in_hand =
                InHand-later (state_of s.site) _ s.todo (Steady-refl s.site.registry) up
                  (after_tick a q s.site.registry s.site.globals l'.globals _ at b up
                    h.in_hand.grounded)
                  (after_tick-IsHeld a q s.site.globals l'.globals _ at b up h.in_hand.held)
                  h.in_hand;
            watched =
                All-set (IsWatched l'.globals) s.watchers i _
                  (IsWatched-later s.site.globals l'.globals up s.watchers h.watched)
                  (All-weaken w.pools up own);
          },
        )

  pub listen_step-Sound :
      (i : ℕ) (s : Service W)
      → Sound s
      → (s' : Service W) × (listen_step u gin i none s ≡ ok s')
        × Sound s'
        × (s'.site ≡ s.site)
        × (s'.todo ≡ s.todo)
  unfolding listen_step
  listen_step-Sound i s h = elim (Option-cases (get_elem? s.watchers i)) [
    | inl e ↦ rw (e, listen_step) (s, refl, h, refl, refl)
    | inr (w, e) ↦
        rw (e, listen_step)
          (
            _,
            refl,
            record {
              in_hand = h.in_hand;
              watched =
                  All-set (IsWatched s.site.globals) s.watchers i _ h.watched
                    (All-get_elem? (IsWatched s.site.globals) s.watchers i w h.watched e);
            },
            refl,
            refl,
          )
  ]

  -- A pool that gets its statistics has an address that is written as `Hex` writes it.
  abbrev pub OpensPrinted : List TaskCall → Type 0
  OpensPrinted [] = Unit
  OpensPrinted (opens p ∷ cs) = IsPrinted p.contract
  OpensPrinted (learns a t ∷ cs) = Unit
  OpensPrinted (does e ∷ cs) = Unit

  performed-IsWatched :
      (c : TaskCall) (cs : List TaskCall) (s : Service W)
      → OpensPrinted (c ∷ cs)
      → InHand (state_of s.site) (c ∷ cs)
      → All (IsWatched s.site.globals) s.watchers
      → let (t, es) = perform u.crypto.hex_to_address c (state_of s.site) in
        All (IsWatched t.globals) (s.watchers ++ new_watchers u gin es)
  unfolding perform
  performed-IsWatched (learns a t) cs s p h w =
      subst (All (IsWatched s.site.globals)) (sym (append-nil s.watchers)) w
  performed-IsWatched (does (started b)) cs s p h w = absurd (h.entered.0)
  performed-IsWatched (does (deleted i c)) cs s p h w =
      subst (All (IsWatched s.site.globals)) (sym (append-nil s.watchers)) w
  performed-IsWatched (does (moved i c v)) cs s p h w =
      subst (All (IsWatched s.site.globals)) (sym (append-nil s.watchers)) w
  performed-IsWatched (does (stored i c v q t0 t1 f)) cs s p h w =
      subst (All (IsWatched s.site.globals)) (sym (append-nil s.watchers)) w
  performed-IsWatched (opens q) cs s p h w =
      let g' = init_pool_stat_real q.contract s.site.globals in
      All-append (IsWatched g') s.watchers _
        (IsWatched-later s.site.globals g'
          (λ k. init_pool_stat_real_keeps q.contract k s.site.globals) s.watchers w)
        ((subst (IsKept g') (sym p) (init_pool_stat_real-IsKept q.contract s.site.globals), tt), tt)

  -- What the task does, by the calls that it has left.
  pub found-Sound :
      (m : Found) (s : Service W) (cs : List TaskCall)
      → s.todo ≡ cs
      → Sound s
      → Sound (find_step u gin m s)
  unfolding find_step
  found-Sound m s (c ∷ cs) e h = rw (e, find_step) h
  found-Sound m s [] e h =
      let hex = u.crypto.hex_to_address in
      rw (e, find_step)
        (record {
          in_hand =
              enter-InHand hex m (state_of s.site) (subst (InHand (state_of s.site)) e h.in_hand);
          watched =
              subst (λ g. All (IsWatched g) s.watchers) (sym (enter_lem hex m (state_of s.site)))
                h.watched;
        })

  pub worked-Sound :
      (s : Service W) (cs : List TaskCall)
      → s.todo ≡ cs
      → OpensPrinted cs
      → Sound s
      → Sound (work_step u gin s)
  unfolding work_step
  worked-Sound s [] e p h = rw (e, work_step) h
  worked-Sound s (c ∷ cs) e p h =
      let t = state_of s.site in
      let in_hand = subst (InHand t) e h.in_hand in
      rw (e, work_step)
        (record {
          in_hand = perform-InHand u.crypto.hex_to_address c cs t in_hand;
          watched = performed-IsWatched c cs s p in_hand h.watched;
        })
