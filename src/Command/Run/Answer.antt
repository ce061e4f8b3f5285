-- ===== src/Command/Run/Answer.antt =====
-- The answers of a service that runs a command.
use cr_lte_modem.Base.{
  ℕ, ◌+◌, ◌^◌, ◌≤◌, ◌<◌, ◌≡◌, refl, sym, ap, ◌∙◌, ◌≢◌, Bool, true, false, Option, arith, length,
}
use mathlib.Core.Path.{subst}
use cr_lte_modem.CString.{Bytes}
use cr_lte_modem.Parser.{Parser, result_conflict, result_pending}
use cr_lte_modem.Device.{Ltem, Outcome, ret, stop}
use cr_lte_modem.Host.{millis}
use cr_lte_modem.Iop.Tx.Stream.{TxValid, room}
use cr_lte_modem.Iop.Tx.Stream.Progress.{Drains}
use cr_lte_modem.Iop.Frame.{IsReal}
use cr_lte_modem.Command.{invoke_locked, try_invoke_adv, action_lockretries}
use cr_lte_modem.Command.Poll.{AtcmdResult, await_result}
use cr_lte_modem.Command.Lock.{
  behind, delays, Untouched, behind-Untouched, delays-Untouched, acquire_lock-open,
}
use cr_lte_modem.Command.Invoke.{try_invoke_adv-Invoked}
use cr_lte_modem.Command.Wait.{Settled, await_result-Settled}
use cr_lte_modem.Command.Run.{run_command}

-- A refusal: the two delays of the retries and then a conflict, the other command as it was.
abbrev pub Refuses : Ltem → Outcome ℕ → Type 0
Refuses s o = (o ≡ behind result_conflict (delays 2 s)) × Untouched s o

-- An answer: a result that is not pending.
abbrev pub Answers : Outcome ℕ → Type 0
Answers (ret code t) = code ≢ result_pending
Answers (stop w) = IsReal w

-- the end of a service behind the start of its command
unfoldable pub answer : ℕ → Outcome Bool → Outcome ℕ
answer fuel (stop w) = stop w
answer fuel (ret false t) = ret result_conflict t
answer fuel (ret true t) = elim (await_result fuel true t) [
  | stop w ↦ stop w
  | ret r u ↦ ret r.status_code u
]

-- Where a command is open, a service does nothing but wait, and then answers with a conflict: its whole
-- outcome is that of two delays of 50 ms with the conflict behind them, so that it stops only where the
-- interrupt of one of them does; the open command is as it was.
pub run_command-Refuses :
    (fuel timeout : ℕ) (p : Option Parser) (cmd : Bytes) (s : Ltem)
    → s.atcmd.is_open ≡ true
    → Refuses s (run_command fuel timeout p cmd s)
unfolding run_command try_invoke_adv
run_command-Refuses fuel timeout p cmd s y =
    let e : run_command fuel timeout p cmd s ≡ behind result_conflict (delays 2 s) =
      ap refusal (acquire_lock-open cmd action_lockretries s y) ∙ passed (delays 2 s) in
    (
      e,
      subst (Untouched s) (sym e)
          (behind-Untouched result_conflict s (delays 2 s) (delays-Untouched 2 s)),
    )
  where
    started : Outcome Bool → Outcome Bool
    started o = elim o [
      | ret true t ↦ invoke_locked cmd timeout p t
      | ret false t ↦ ret false t
      | stop w ↦ stop w
    ]

    refusal : Outcome Bool → Outcome ℕ
    refusal o = elim (started o) [
      | stop w ↦ stop w
      | ret false t ↦ ret result_conflict t
      | ret true t ↦ elim (await_result fuel true t) [
        | stop w ↦ stop w
        | ret r u ↦ ret r.status_code u
      ]
    ]

    passed : (o : Outcome (Unit {0})) → refusal (behind false o) ≡ behind result_conflict o
    passed (ret _ t) = refl
    passed (stop w) = refl

settled :
    (o : Outcome AtcmdResult)
    → Settled o
    → Answers (elim o [ stop w ↦ stop w | ret r u ↦ ret r.status_code u ])
settled (stop w) k = k
settled (ret r u) k = k

-- With no command open, room for the text, a FIFO that drains (no poll of TXLVL reports more than its 64
-- bytes, and in the end it reports space), a clock that is not at 0 and a round of fuel for each event
-- of the schedule and each millisecond of the timeout, and two more, a service answers with a result
-- that is not pending, or stops where the code hangs or is undefined.
pub run_command-Answers :
    (fuel timeout : ℕ) (p : Option Parser) (cmd : Bytes) (s : Ltem)
    → s.atcmd.is_open ≡ false
    → TxValid s.iop
    → Drains s.tx_levels s.tx_space
    → length cmd < 65536
    → length cmd + 1 ≤ room s.iop
    → millis s ≢ 0
    → timeout < 65536
    → length s.schedule + timeout + 2 ≤ fuel
    → Answers (run_command fuel timeout p cmd s)
unfolding run_command answer
run_command-Answers fuel timeout p cmd s closed v levels small h running t e =
    let (u, invoked, k) = try_invoke_adv-Invoked cmd timeout p s closed v levels small h in
    subst (λ o. Answers (answer fuel o)) (sym invoked)
      (settled (await_result fuel true u) (
        await_result-Settled u.schedule fuel true u refl
          (record {
            running = λ z. running (sym k.timer ∙ z);
            stamp = subst (λ n. n < 2 ^ 32) (sym k.timer) (omega arith);
            timeout = subst (λ n. n < 65536) (sym k.timeout_set) t;
          })
          (omega (arith, e, ap length k.schedule, k.timeout_set))))
