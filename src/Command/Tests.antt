-- ===== src/Command/Tests.antt =====
-- The command processor on the sample device: its properties at concrete inputs.
use cr_lte_modem.Base.{◌≡◌, refl, true, false, none, some, [], ◌∷◌, arith, replicate}
use cr_lte_modem.CString.{codes}
use cr_lte_modem.Device.{Ltem, ret}
use cr_lte_modem.Iop.Tx.Stream.{TxValid}
use cr_lte_modem.Iop.Tx.Stream.Progress.{Drains}
use cr_lte_modem.Command.{acquire_lock, try_invoke_adv}
use cr_lte_modem.Command.Poll.{get_result, await_result}
use cr_lte_modem.Command.Result.{Gets, get_result-Gets}
use cr_lte_modem.Command.Lock.{Locks, acquire_lock-Locks}
use cr_lte_modem.Command.Invoke.{Invoked, try_invoke_adv-Invoked}
use cr_lte_modem.Command.Wait.{Settled, Timed, await_result-Settled}
use cr_lte_modem.Parser.{low, ok_result_parser}
use cr_lte_modem.Parser.Default.{ok_result_parser_done}
use cr_lte_modem.CString.{c_str, strchr, strstr, starts_with}
use cr_lte_modem.Host.{yield}
use cr_lte_modem.Host.Arrival.{silence, arrival, later, with_chunk}
use cr_lte_modem.Command.Round.{completed, handing_over}
use cr_lte_modem.Command.Answered.{Awaits, await_result-answered}
use cr_lte_modem.Command.Cancelled.{cancelled, request, requested, await_result-cancelled}
use cr_lte_modem.Command.Run.{run_command}
use cr_lte_modem.Command.Run.Success.{Answerable, Succeeds, run_command-Succeeds}
use cr_lte_modem.Command.Run.Answer.{Refuses, Answers, run_command-Refuses, run_command-Answers}
use cr_lte_modem.Bench.{sample_iop, sample_atcmd, sample}

-- three events are still to come, and the timer runs
abbrev busy : Ltem
busy = record sample {
  schedule =
      record { elapsed = 1; cancels = false; passes = [] }
      ∷ record {
        elapsed = 2;
        cancels = false;
        passes = record { source = 2; rx = codes "\r\nOK\r\n"; tx_level = 0 } ∷ [];
      }
      ∷ [];
}

busy-Timed : Timed busy
busy-Timed = record { running = λ e. omega (arith, e); stamp = omega arith; timeout = omega arith }

await_result-Settled_example : Settled (await_result 9 true busy)
await_result-Settled_example =
    await_result-Settled busy.schedule 9 true busy refl busy-Timed (omega arith)

get_result-Gets_example : Gets sample (get_result true sample)
get_result-Gets_example = get_result-Gets true sample

acquire_lock-Locks_example : Locks (codes "ATI") 3 sample (acquire_lock (codes "ATI") 3 sample)
acquire_lock-Locks_example = acquire_lock-Locks (codes "ATI") 3 sample

-- a closed command, and an empty transmit buffer of eight bytes
abbrev quiet : Ltem
quiet = record sample {
  iop = record sample_iop {
    tx_buf = record { buffer = replicate 8 0; head = 0; tail = 0; maxlen = 8 };
    tx_pend = 0;
  };
  atcmd = record sample_atcmd { is_open = false };
}

quiet-TxValid : TxValid quiet.iop
quiet-TxValid = record {
  valid = record {
    storage = omega arith;
    small = omega arith;
    head_in = omega arith;
    tail_in = omega arith;
  };
  small = omega arith;
  pend = refl;
}

quiet-Drains : Drains quiet.tx_levels quiet.tx_space
quiet-Drains = record { sizes = tt; some_space = omega arith; size = omega arith }

try_invoke_adv-Invoked_example :
    (t : Ltem) × (try_invoke_adv (codes "ATI") 500 none quiet ≡ ret true t)
    × Invoked (codes "ATI") 500 none quiet t
try_invoke_adv-Invoked_example =
    try_invoke_adv-Invoked (codes "ATI") 500 none quiet refl quiet-TxValid quiet-Drains
      (omega arith) (omega arith)

-- the service of a command that is short for the buffer
run_command-Answers_example : Answers (run_command 503 500 none (codes "ATI") quiet)
run_command-Answers_example =
    run_command-Answers 503 500 none (codes "ATI") quiet refl quiet-TxValid quiet-Drains
      (omega arith) (omega arith) (λ e. omega (arith, e)) (omega arith) (omega arith)

run_command-Refuses_example : Refuses sample (run_command 9 500 none (codes "ATI") sample)
run_command-Refuses_example = run_command-Refuses 9 500 none (codes "ATI") sample refl

-- the modem answers after some milliseconds
abbrev answering : Ltem
answering = record sample {
  schedule = silence 1 ∷ silence 2 ∷ arrival 9 (codes "\r\nOK\r\n") 0 ∷ [];
}

answering-Awaits : Awaits (codes "\r\nOK\r\n") (ok_result_parser []) answering
unfolding c_str strchr
answering-Awaits = record {
  parser = refl;
  pending = refl;
  uncancelled = refl;
  parsed = refl;
  empty = refl;
  receives = record { peer = refl; room = omega arith };
  text = refl;
  plain = refl;
  ready = refl;
  stamp = omega arith;
}

await_result-answered_example :
    await_result 4 true answering
    ≡ handing_over
        (yield (completed true 6 (with_chunk (codes "\r\nOK\r\n") (later 12 [] answering))))
unfolding c_str strstr starts_with
await_result-answered_example =
    await_result-answered (1 ∷ 2 ∷ []) 4 true 9 0 13 (codes "\nOK\r\n") [] (ok_result_parser [])
      answering refl answering-Awaits
      (ok_result_parser_done [] (codes "\r\nOK\r\n") (low 0) 2 refl refl) (omega arith)
      (omega arith) (omega arith)

-- the same, from the start of the command on
abbrev asked : Ltem
asked = record quiet { schedule = silence 1 ∷ silence 2 ∷ arrival 9 (codes "\r\nOK\r\n") 0 ∷ [] }

asked-Drains : Drains asked.tx_levels asked.tx_space
asked-Drains = record { sizes = tt; some_space = omega arith; size = omega arith }

asked-Answerable : Answerable (codes "\r\nOK\r\n") asked
asked-Answerable = record {
  closed = refl;
  valid = quiet-TxValid;
  levels = asked-Drains;
  head_in = omega arith;
  clean = refl;
  peer = refl;
  ready = refl;
  uncancelled = refl;
  no_zero = omega arith;
  no_plus = omega arith;
  fits = omega arith;
}

run_command-Succeeds_example :
    Succeeds
      (codes "ATI")
      12
      []
      asked
      (run_command 4 500 (some (ok_result_parser [])) (codes "ATI") asked)
unfolding c_str strstr starts_with
run_command-Succeeds_example =
    run_command-Succeeds (1 ∷ 2 ∷ []) 4 500 (ok_result_parser []) (codes "ATI") 9 0 13
      (codes "\nOK\r\n") [] asked asked-Answerable (omega arith) (omega arith) refl
      (ok_result_parser_done [] (codes "\r\nOK\r\n") (low 0) 2 refl refl) (omega arith)
      (omega arith) (omega arith)

-- the application loses patience
abbrev cancelling : Ltem
cancelling = record sample { schedule = silence 1 ∷ request 2 ∷ [] }

await_result-cancelled_example :
    await_result 3 true cancelling ≡ ret cancelled (requested 3 [] cancelling)
unfolding c_str
await_result-cancelled_example =
    await_result-cancelled (1 ∷ []) 3 true 2 [] cancelling refl
      (record {
        pending = refl;
        uncancelled = refl;
        parsed = refl;
        empty = refl;
        stamp = omega arith;
      })
      (omega arith) (omega arith) (omega arith)
