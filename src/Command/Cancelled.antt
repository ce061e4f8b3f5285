-- ===== src/Command/Cancelled.antt =====
-- A request to cancel while `atcmd_awaitResult` waits.
use cr_lte_modem.Base.{
  ℕ, zero, suc, ◌+◌, ◌^◌, ◌≤◌, ◌<◌, ◌≡◌, refl, sym, ap, ◌∙◌, Bool, true, false, Option, none, some,
  List, [], ◌∷◌, arith, if◌then◌else◌, length, drop,
}
use mathlib.Core.Path.{subst}
use cr_lte_modem.CString.{c_str}
use cr_lte_modem.Parser.{at, null, result_pending}
use cr_lte_modem.Device.{Event, Ltem, Outcome, ret, stop}
use cr_lte_modem.Iop.Isr.{isr}
use cr_lte_modem.Host.{next_event, happen, yield}
use cr_lte_modem.Host.Arrival.{silences, sum, later, yield-silence}
use cr_lte_modem.Command.Poll.{AtcmdResult, get_result, finish_round, await_round, await_result}
use cr_lte_modem.Command.Round.{still_pending, get_result-silent, await_result-silent}
use cr_lte_modem.Command.Answered.{waited, text_at_tail, timer_expired-not, elapse}

-- a wait that is open, with nothing to parse yet
pub record Waits (s : Ltem) : Type 0 where
  pub pending : s.atcmd.result_code ≡ result_pending
  pub uncancelled : s.cancellation_request ≡ false
  pub parsed : s.iop.rx_cmd_buf.tail ≡ at s.iop.rx_cmd_buf.head
  pub empty : c_str (drop s.iop.rx_cmd_buf.head s.iop.rx_cmd_buf.mem) ≡ []
  pub stamp : s.atcmd.invoked_at < 2 ^ 32

later-Waits : {s : Ltem} (d : ℕ) (es : List Event) → Waits s → Waits (later d es s)
later-Waits d es a = record {
  pending = a.pending;
  uncancelled = a.uncancelled;
  parsed = a.parsed;
  empty = a.empty;
  stamp = a.stamp;
}

-- time that goes by with a request to cancel at its end
abbrev pub request : ℕ → Event
request d = record { elapsed = d; cancels = true; passes = [] }

-- the device when the request has been made
abbrev pub requested : ℕ → List Event → Ltem → Ltem
requested d es s = record (later d es s) { cancellation_request = true }

yield-request :
    (d : ℕ) (es : List Event) (s : Ltem)
    → s.schedule ≡ request d ∷ es
    → yield s ≡ ret tt (requested d es s)
unfolding yield next_event happen isr
yield-request d es s h = ap (λ l. next_event l s) h

-- the result that a cancelled wait has
abbrev pub cancelled : AtcmdResult
cancelled = record { status_code = 499; response = null }

-- The round that finds the request.
cancelled_round :
    (fuel : ℕ) (c : Bool) (s : Ltem)
    → get_result c s ≡ ret still_pending s
    → s.cancellation_request ≡ true
    → await_result (suc fuel) c s ≡ ret cancelled s
unfolding await_result await_round finish_round
cancelled_round fuel c s g u =
    ap (λ (o : Outcome AtcmdResult). next (elim o [ ret r v ↦ finish_round r v | stop w ↦ stop w ]))
      g
    ∙ ap
        (λ (b : Bool). next (
          if b
          then ret (some cancelled) s
          else elim (yield s) [ ret _ v ↦ ret none v | stop w ↦ stop w ]))
        u
  where
    next : Outcome (Option AtcmdResult) → Outcome AtcmdResult
    next o = elim o [
      | ret (some r) v ↦ ret r v
      | ret none v ↦ await_result fuel c v
      | stop w ↦ stop w
    ]

-- a round in which nothing is there yet
silent :
    (c : Bool) (s : Ltem)
    → Waits s
    → waited s ≤ s.atcmd.timeout_millis
    → get_result c s ≡ ret still_pending s
silent c s a h =
    get_result-silent c s (text_at_tail s _ a.parsed ∙ a.empty) a.pending (timer_expired-not s h)

-- On a device with an open wait and nothing to parse yet, where nothing but time goes by until, within the
-- timeout, the application requests to cancel: atcmd_awaitResult returns the code 499 with a NULL response
-- at that event. But for the clock, the schedule and the request the device is as it was: so the command
-- stays open, also where the wait was to close it. Two rounds of fuel more than there are events before
-- are enough.
pub await_result-cancelled :
    (ds : List ℕ) (fuel : ℕ) (c : Bool) (d : ℕ) (es : List Event) (s : Ltem)
    → s.schedule ≡ silences ds (request d ∷ es)
    → Waits s
    → waited s + (sum ds + d) ≤ s.atcmd.timeout_millis
    → s.atcmd.timeout_millis < 65536
    → length ds + 2 ≤ fuel
    → await_result fuel c s ≡ ret cancelled (requested (sum ds + d) es s)
await_result-cancelled ds zero c d es s h a t small f = absurd (omega arith)
await_result-cancelled [] (suc zero) c d es s h a t small f = absurd (omega arith)
await_result-cancelled [] (suc (suc fuel)) c d es s h a t small f =
    await_result-silent (suc fuel) c s (requested d es s) (silent c s a (omega (arith, t)))
      a.uncancelled (yield-request d es s h)
    ∙ cancelled_round fuel c (requested d es s)
        (get_result-silent c (requested d es s)
          (text_at_tail (requested d es s) _ a.parsed ∙ a.empty) a.pending
          (timer_expired-not (requested d es s) (
            subst (λ w. w ≤ s.atcmd.timeout_millis)
              (sym (
                elapse s.now s.atcmd.invoked_at d s.atcmd.timeout_millis a.stamp (omega (arith, t))
                  small))
              (omega (arith, t)))))
        refl
    ∙ ap (λ n. ret cancelled (requested n es s)) none_before
  where
    none_before : d ≡ 0 + d
    none_before = omega arith
await_result-cancelled (y ∷ ds) (suc fuel) c d es s h a t small f =
    await_result-silent fuel c s (later y rest s) (silent c s a (omega (arith, t))) a.uncancelled
      (yield-silence y rest s h)
    ∙ await_result-cancelled ds fuel c d es (later y rest s) refl (later-Waits y rest a)
        (subst (λ w. w + (sum ds + d) ≤ s.atcmd.timeout_millis)
          (sym (
            elapse s.now s.atcmd.invoked_at y s.atcmd.timeout_millis a.stamp (omega (arith, t))
              small))
          (omega (arith, t)))
        small (omega arith)
    ∙ ap (λ n. ret cancelled (record s { now = n; schedule = es; cancellation_request = true }))
        sooner
  where
    rest : List Event
    rest = silences ds (request d ∷ es)

    sooner : s.now + y + (sum ds + d) ≡ s.now + (y + sum ds + d)
    sooner = omega arith
