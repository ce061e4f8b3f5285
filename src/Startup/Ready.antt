-- ===== src/Startup/Ready.antt =====
-- The wait of `iop_awaitAppReady` for the modem's notice that it is ready.
use cr_lte_modem.Base.{
  ℕ, zero, suc, ◌+◌, ◌^◌, ◌≤◌, ◌<◌, ◌≡◌, refl, sym, ap, ◌∙◌, inl, inr, true, false, List, [], ◌∷◌,
  arith, ltb, Bool-cases, length,
}
use mathlib.Core.Path.{subst}
use cr_lte_modem.Device.{Event, Ltem, Outcome, ret, stop, hung, ready_app_ready, notify_app}
use cr_lte_modem.Iop.Frame.{IsReal}
use cr_lte_modem.Host.{millis, yield}
use cr_lte_modem.Command.Wait.{Yielded, Yields, yield-Yields}
use cr_lte_modem.Command.Wait
use cr_lte_modem.Startup.{
  notif_hw_init_failed, appready_millismax, overdue, app_ready_rounds, await_app_ready,
}

-- the milliseconds that a schedule takes
abbrev pub total : List Event → ℕ
total [] = 0
total (e ∷ es) = e.elapsed + total es

-- A wait that ends for a reason of the code's own, with the modem ready where it returns.
abbrev pub Readied : Outcome (Unit {0}) → Type 0
Readied (ret _ t) = ready_app_ready ≤ t.qbg_ready_state
Readied (stop w) = IsReal w

-- what a round does behind its yield
abbrev pub after_yield : ℕ → ℕ → Outcome (Unit {0}) → Outcome (Unit {0})
after_yield fuel start (stop w) = stop w
after_yield fuel start (ret _ t) = elim (overdue start t) [
  | false ↦ app_ready_rounds fuel start t
  | true ↦ stop hung
]

pub app_ready_rounds_done :
    (fuel start : ℕ) (s : Ltem)
    → ltb s.qbg_ready_state ready_app_ready ≡ false
    → app_ready_rounds fuel start s ≡ ret tt s
unfolding app_ready_rounds
app_ready_rounds_done zero start s h = rw (h, app_ready_rounds) refl
app_ready_rounds_done (suc f) start s h = rw (h, app_ready_rounds) refl

behind_yield :
    (fuel start : ℕ) (o : Outcome (Unit {0}))
    → (elim o [
      | stop w ↦ stop w
      | ret _ t ↦ elim (overdue start t) [
        | false ↦ app_ready_rounds fuel start t
        | true ↦ elim (notify_app notif_hw_init_failed t) [
          | stop w ↦ stop w
          | ret _ u ↦ app_ready_rounds fuel start u
        ]
      ]
    ])
      ≡ after_yield fuel start o
unfolding notify_app
behind_yield fuel start (stop w) = refl
behind_yield fuel start (ret _ t) = refl

pub app_ready_rounds_next :
    (fuel start : ℕ) (s : Ltem)
    → ltb s.qbg_ready_state ready_app_ready ≡ true
    → app_ready_rounds (suc fuel) start s ≡ after_yield fuel start (yield s)
unfolding app_ready_rounds
app_ready_rounds_next fuel start s h = rw (h, app_ready_rounds) (behind_yield fuel start (yield s))

-- a clock that does not wrap up to the end of the wait
overdue-late :
    (start : ℕ) (t : Ltem)
    → start + appready_millismax < 2 ^ 32
    → t.now < 2 ^ 32
    → overdue start t ≡ false
    → t.now ≤ start + appready_millismax
overdue-late start t h k e = ground arith

-- A round: the modem is ready, or the wait goes on behind the yield with the time not up.
step-Readied :
    (fuel start : ℕ) (s : Ltem)
    → ((t : Ltem) → Yielded s t → overdue start t ≡ false → Readied (app_ready_rounds fuel start t))
    → Readied (app_ready_rounds (suc fuel) start s)
step-Readied fuel start s next = elim (Bool-cases (ltb s.qbg_ready_state ready_app_ready)) [
  | inr n ↦ subst Readied (sym (app_ready_rounds_done (suc fuel) start s n)) (ground arith)
  | inl y ↦
      subst Readied (sym (app_ready_rounds_next fuel start s y)) (after (yield s) (yield-Yields s))
]
  where
    after : (o : Outcome (Unit {0})) → Yields s o → Readied (after_yield fuel start o)
    after (stop w) k = k
    after (ret u t) k = elim (Bool-cases (overdue start t)) [
      | inl y ↦ rw (y, Readied) tt
      | inr n ↦ rw (n, Readied) (next t k n)
    ]

-- Behind the last event the clock goes on by one each round, so the time runs out.
quiet-Readied :
    (fuel start : ℕ) (s : Ltem)
    → s.schedule ≡ []
    → start + appready_millismax + 1 < 2 ^ 32
    → s.now ≤ start + appready_millismax
    → start + appready_millismax + 1 ≤ fuel + s.now
    → Readied (app_ready_rounds fuel start s)
quiet-Readied zero start s e h late f = absurd (omega arith)
quiet-Readied (suc fuel) start s e h late f = step-Readied fuel start s (λ t k n.
    let on : t.now ≡ s.now + 1 = k.now ∙ ap (λ l. s.now + Wait.lapse l) e in
    quiet-Readied fuel start t (k.schedule ∙ ap Wait.rest e) h
      (overdue-late start t (omega arith) (omega arith) n) (omega arith))

-- the wait with the events of a schedule
events-Readied :
    (es : List Event) (fuel start : ℕ) (s : Ltem)
    → s.schedule ≡ es
    → start + appready_millismax + 1 < 2 ^ 32
    → s.now + total es < 2 ^ 32
    → start ≤ s.now
    → s.now ≤ start + appready_millismax
    → length es + appready_millismax + 1 ≤ fuel
    → Readied (app_ready_rounds fuel start s)
events-Readied [] fuel start s e h wrap before late f =
    quiet-Readied fuel start s e h late (omega arith)
events-Readied (x ∷ es) zero start s e h wrap before late f = absurd (omega arith)
events-Readied (x ∷ es) (suc fuel) start s e h wrap before late f =
    step-Readied fuel start s (λ t k n.
      let on : t.now ≡ s.now + x.elapsed = k.now ∙ ap (λ l. s.now + Wait.lapse l) e in
      events-Readied es fuel start t (k.schedule ∙ ap Wait.rest e) h (omega arith) (omega arith)
        (overdue-late start t (omega arith) (omega arith) n) (omega arith))

-- With a round of fuel for each event of the schedule and each of the 5000 milliseconds, and one more,
-- on a clock that does not wrap meanwhile, iop_awaitAppReady never lacks fuel: it returns with the
-- modem ready, or stops where the code hangs (as it does when the time is up) or is undefined.
pub await_app_ready-Readied :
    (fuel : ℕ) (s : Ltem)
    → s.now + appready_millismax + 1 < 2 ^ 32
    → s.now + total s.schedule < 2 ^ 32
    → length s.schedule + appready_millismax + 1 ≤ fuel
    → Readied (await_app_ready fuel s)
unfolding await_app_ready
await_app_ready-Readied fuel s h wrap f =
    events-Readied s.schedule fuel (millis s) s refl (omega arith) wrap (omega arith) (omega arith)
      f
