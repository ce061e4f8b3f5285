-- ===== src/Command/Wait.antt =====
-- The wait of `atcmd_awaitResult`.
use cr_lte_modem.Base.{
  ℕ, zero, suc, ◌+◌, ◌^◌, ◌≤◌, ◌<◌, ◌≡◌, refl, sym, ap, ap₂, ◌∙◌, ◌≢◌, Bool, false, Option, none,
  some, List, [], ◌∷◌, arith, ◌==◌, ◌||◌, if◌then◌else◌, ==_iff, if-elim, length, u32, sub32,
}
use mathlib.Core.Bool.{false≢true}
use mathlib.Core.Path.{subst}
use cr_lte_modem.Parser.{result_pending, result_cancelled}
use cr_lte_modem.Device.{Ltem, Atcmd, Event, Outcome, ret, stop}
use cr_lte_modem.Iop.Isr.{isr}
use cr_lte_modem.Iop.Frame.{IsReal, Keeps}
use cr_lte_modem.Iop.Service.{isr-Keeps}
use cr_lte_modem.Host.{millis, timer_expired, happen, next_event, yield}
use cr_lte_modem.Command.Poll.{AtcmdResult, get_result, finish_round, await_round, await_result}
use cr_lte_modem.Command.Result.{Got, Gets, get_result-Gets}

-- what a yield does with the schedule and the clock
abbrev pub rest : List Event → List Event
rest [] = []
rest (e ∷ es) = es

abbrev pub lapse : List Event → ℕ
lapse [] = 1
lapse (e ∷ es) = e.elapsed

pub record Yielded (s t : Ltem) : Type 0 where
  pub atcmd : t.atcmd ≡ s.atcmd
  pub schedule : t.schedule ≡ rest s.schedule
  pub now : t.now ≡ s.now + lapse s.schedule

abbrev pub Yields : Ltem → Outcome (Unit {0}) → Type 0
Yields s (ret u t) = Yielded s t
Yields s (stop w) = IsReal w

happen-Yields :
    (s : Ltem) (e : Event) (es : List Event)
    → s.schedule ≡ e ∷ es
    → Yields s (happen e (record s { schedule = es }))
unfolding happen
happen-Yields s e es h = after (isr e.passes _) (isr-Keeps e.passes _)
  where
    after :
        (o : Outcome (Unit {0}))
        → Keeps
            (record s {
              schedule = es;
              now = s.now + e.elapsed;
              cancellation_request = e.cancels || s.cancellation_request;
            })
            o
        → Yields s o
    after (stop w) k = k
    after (ret u t) k = record {
      atcmd = k.atcmd;
      schedule = k.schedule ∙ ap rest (sym h);
      now = k.now ∙ ap (λ l. s.now + lapse l) (sym h);
    }

next_event-Yields : (es : List Event) (s : Ltem) → s.schedule ≡ es → Yields s (next_event es s)
unfolding next_event
next_event-Yields [] s h = record {
  atcmd = refl;
  schedule = h ∙ ap rest (sym h);
  now = ap (λ l. s.now + lapse l) (sym h);
}
next_event-Yields (e ∷ es) s h = happen-Yields s e es h

pub yield-Yields : (s : Ltem) → Yields s (yield s)
unfolding yield
yield-Yields s = next_event-Yields s.schedule s refl

-- the milliseconds since the command was sent, as the code computes them
abbrev waited : Ltem → ℕ
waited s = sub32 (millis s) s.atcmd.invoked_at

running-waited :
    (s : Ltem)
    → s.atcmd.invoked_at ≢ 0
    → timer_expired s.atcmd.invoked_at s.atcmd.timeout_millis s ≡ false
    → waited s ≤ s.atcmd.timeout_millis
unfolding timer_expired
running-waited s ne h = ground arith

-- A round that goes on leaves the timer as it was, still running, and time goes by.
record Continues (s t : Ltem) : Type 0 where
  invoked : t.atcmd.invoked_at ≡ s.atcmd.invoked_at
  timeout : t.atcmd.timeout_millis ≡ s.atcmd.timeout_millis
  schedule : t.schedule ≡ rest s.schedule
  now : t.now ≡ s.now + lapse s.schedule
  running : timer_expired s.atcmd.invoked_at s.atcmd.timeout_millis s ≡ false

abbrev Rounds : Ltem → Outcome (Option AtcmdResult) → Type 0
Rounds s (ret none t) = Continues s t
Rounds s (ret (some r) t) = r.status_code ≢ result_pending
Rounds s (stop w) = IsReal w

cancelled-ne-pending : result_cancelled ≢ result_pending
cancelled-ne-pending = omega arith

after_yield :
    (s s' : Ltem) (r : AtcmdResult) (o : Outcome (Unit {0}))
    → Got s r s'
    → Yields s' o
    → Rounds s (elim o [
      | ret _ t ↦ ret (if r.status_code == result_pending then none else some r) t
      | stop w ↦ stop w
    ])
after_yield s s' r (stop w) g y = y
after_yield s s' r (ret u t) g y =
    if-elim (λ (c : Option AtcmdResult). Rounds s (ret c t)) (r.status_code == result_pending)
      (λ p. record {
        invoked = ap (λ (a : Atcmd). a.invoked_at) y.atcmd ∙ g.invoked;
        timeout = ap (λ (a : Atcmd). a.timeout_millis) y.atcmd ∙ g.timeout;
        schedule = y.schedule ∙ ap rest g.schedule;
        now = y.now ∙ ap₂ ◌+◌ g.now (ap lapse g.schedule);
        running = g.running ((==_iff _ _).0 p);
      })
      (λ n e. absurd (false≢true (sym n ∙ (==_iff _ _).1 e)))

await_round-Rounds : (c : Bool) (s : Ltem) → Rounds s (await_round c s)
unfolding await_round finish_round
await_round-Rounds c s = by_result (get_result c s) (get_result-Gets c s)
  where
    by_result :
        (o : Outcome AtcmdResult)
        → Gets s o
        → Rounds s (elim o [ ret r t ↦ finish_round r t | stop w ↦ stop w ])
    by_result (stop w) g = g
    by_result (ret r t) g =
        if-elim (Rounds s) t.cancellation_request (λ _. cancelled-ne-pending)
          (λ _. after_yield s t r (yield t) g (yield-Yields t))

-- A wait that ends for a reason of the code's own, with a result that is not pending where it returns.
abbrev pub Settled : Outcome AtcmdResult → Type 0
Settled (ret r t) = r.status_code ≢ result_pending
Settled (stop w) = IsReal w

-- The conditions of a wait: a running timer, and a clock that does not jump over its end.
pub record Timed (s : Ltem) : Type 0 where
  pub running : s.atcmd.invoked_at ≢ 0
  pub stamp : s.atcmd.invoked_at < 2 ^ 32
  pub timeout : s.atcmd.timeout_millis < 65536

Continues-Timed : {s t : Ltem} → Continues s t → Timed s → Timed t
Continues-Timed k d = record {
  running = λ e. d.running (sym k.invoked ∙ e);
  stamp = subst (λ x. x < 2 ^ 32) (sym k.invoked) d.stamp;
  timeout = subst (λ x. x < 65536) (sym k.timeout) d.timeout;
}

-- the arithmetic of a quiet round
later :
    (n i : ℕ) → i < 2 ^ 32 → sub32 (u32 n) i < 65536 → sub32 (u32 (n + 1)) i ≡ sub32 (u32 n) i + 1
later n i lt small = omega arith

Continues-waited :
    (s t : Ltem) → Continues s t → Timed s → s.schedule ≡ [] → waited t ≡ waited s + 1
Continues-waited s t k d e =
    ap₂ (λ n i. sub32 (u32 n) i) (k.now ∙ ap (λ l. s.now + lapse l) e) k.invoked
    ∙ later s.now s.atcmd.invoked_at d.stamp
        (below (running-waited s d.running k.running) d.timeout)
  where
    below : {a b : ℕ} → a ≤ b → b < 65536 → a < 65536
    below p q = omega arith

by_round :
    (fuel : ℕ) (c : Bool) (s : Ltem) (o : Outcome (Option AtcmdResult))
    → Rounds s o
    → ((t : Ltem) → Continues s t → Settled (await_result fuel c t))
    → Settled
        (elim o [ ret (some r) t ↦ ret r t | ret none t ↦ await_result fuel c t | stop w ↦ stop w ])
by_round fuel c s (stop w) k rec = k
by_round fuel c s (ret (some r) t) k rec = k
by_round fuel c s (ret none t) k rec = rec t k

less_fuel : (f m w v : ℕ) → m + 2 ≤ suc f + w → v ≡ w + 1 → m + 2 ≤ f + v
less_fuel f m w v h e = omega arith

fuel_left : (f m w : ℕ) → m + 2 ≤ suc f + w → w ≤ m → 0 < f
fuel_left f m w h le = omega arith

-- Behind the last event the clock goes on by one each round, so the timer runs out.
await_quiet :
    (fuel : ℕ) (c : Bool) (s : Ltem)
    → s.schedule ≡ []
    → Timed s
    → s.atcmd.timeout_millis + 2 ≤ fuel + waited s
    → 0 < fuel
    → Settled (await_result fuel c s)
unfolding await_result
await_quiet zero c s e d h pos = absurd (omega arith)
await_quiet (suc f) c s e d h pos =
    by_round f c s (await_round c s) (await_round-Rounds c s) (λ t k.
      await_quiet f c t (k.schedule ∙ ap rest e) (Continues-Timed k d)
        (subst (λ m. m + 2 ≤ f + waited t) (sym k.timeout)
          (less_fuel f s.atcmd.timeout_millis (waited s) (waited t) h (Continues-waited s t k d e)))
        (fuel_left f s.atcmd.timeout_millis (waited s) h (running-waited s d.running k.running)))

-- With a round of fuel for each event of the schedule and for each millisecond of the timeout, and
-- two more, a wait for a command whose timer runs never is without fuel: it returns a result that is
-- not pending, or stops where the code hangs or is undefined.
pub await_result-Settled :
    (es : List Event) (fuel : ℕ) (c : Bool) (s : Ltem)
    → s.schedule ≡ es
    → Timed s
    → length es + s.atcmd.timeout_millis + 2 ≤ fuel
    → Settled (await_result fuel c s)
unfolding await_result
await_result-Settled [] fuel c s e d h = await_quiet fuel c s e d (omega arith) (omega arith)
await_result-Settled (x ∷ es) zero c s e d h = absurd (omega arith)
await_result-Settled (x ∷ es) (suc f) c s e d h =
    by_round f c s (await_round c s) (await_round-Rounds c s) (λ t k.
      await_result-Settled es f c t (k.schedule ∙ ap rest e) (Continues-Timed k d)
        (subst (λ m. length es + m + 2 ≤ f) (sym k.timeout) (omega arith)))
