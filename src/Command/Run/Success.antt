-- ===== src/Command/Run/Success.antt =====
-- A command from its start to the modem's answer.
use cr_lte_modem.Base.{
  ℕ, ◌+◌, ◌-◌, ◌≤◌, ◌<◌, ◌≡◌, refl, sym, ap, ap₂, ◌∙◌, true, false, some, List, [], ◌∷◌, ◌++◌,
  arith, length, take, drop, length-replicate, u32, sub32,
}
use mathlib.Core.Path.{subst}
use cr_lte_modem.CString.{Bytes, codes, c_str, strchr}
use cr_lte_modem.CString.Pieces.{
  Avoids, Avoids-append, Avoids-take, Avoids-replicate, strchr-Avoids-none, c_str-Avoids,
}
use cr_lte_modem.Parser.{Parser, at, null, result_success}
use cr_lte_modem.Device.{RxBuf, Atcmd, Event, Ltem, Outcome, ret, stop, peer_none, ready_app_ready}
use cr_lte_modem.Iop.Rx.{rx_buf_reset, rx_buf_create, reset_cmd_buffer}
use cr_lte_modem.Iop.Rx.Store.{Clean, zeros, drop-zeros, rx_buf_reset-fresh}
use cr_lte_modem.Iop.Tx.Only.{tx_side}
use cr_lte_modem.Iop.Tx.Stream.{TxValid, stream, room}
use cr_lte_modem.Iop.Tx.Stream.Progress.{Drains, Writes}
use cr_lte_modem.Host.Arrival.{silences, sum, arrival, later, with_chunk}
use cr_lte_modem.Command.{atcmd_init}
use cr_lte_modem.Command.Invoke.{started, try_invoke_adv-started}
use cr_lte_modem.Command.Round.{completed, handing_over}
use cr_lte_modem.Command.Answered.{Awaits, waited, await_result-answered}
use cr_lte_modem.Command.Wait.{Yields, yield-Yields}
use cr_lte_modem.Command.Lock.{behind}
use cr_lte_modem.Host.{yield}
use cr_lte_modem.Command.Poll.{AtcmdResult}
use cr_lte_modem.Command.Run.{run_command}
use cr_lte_modem.Command.Run.Answer.{answer}

-- A device on which no command is open, ready to take the answer to one: zeros behind what the command
-- buffer holds, and room in it for the chunk, which has neither a zero nor a plus in it.
pub record Answerable (chunk : Bytes) (s : Ltem) : Type 0 where
  pub closed : s.atcmd.is_open ≡ false
  pub valid : TxValid s.iop
  pub levels : Drains s.tx_levels s.tx_space
  pub head_in : s.iop.rx_cmd_buf.head ≤ length s.iop.rx_cmd_buf.mem
  pub clean : Clean s.iop.rx_cmd_buf
  pub peer : s.iop.rx_data_peer ≡ peer_none
  pub ready : s.qbg_ready_state ≡ ready_app_ready
  pub uncancelled : s.cancellation_request ≡ false
  pub no_zero : Avoids 0 chunk
  pub no_plus : Avoids b'+' chunk
  pub fits : length chunk ≤ length s.iop.rx_cmd_buf.mem

-- the memory of the command buffer when the command has been started
reset_memory :
    (b : RxBuf) → b.head ≤ length b.mem → Clean b → (rx_buf_reset b).mem ≡ zeros (length b.mem)
unfolding rx_buf_create
reset_memory b h c = ap (λ (r : RxBuf). r.mem) (rx_buf_reset-fresh b h c)

-- what lies behind a chunk at the start of zeros
behind_chunk :
    (chunk mem : Bytes) (n : ℕ)
    → mem ≡ zeros n
    → chunk ++ drop (0 + length chunk) mem ≡ chunk ++ zeros (n - (0 + length chunk))
behind_chunk chunk mem n e =
    ap (λ m. chunk ++ drop (0 + length chunk) m) e
    ∙ ap (λ r. chunk ++ r) (drop-zeros (0 + length chunk) n)

started-Awaits :
    (cmd : Bytes) (timeout : ℕ) (p : Parser) (chunk : Bytes) (s t : Ltem)
    → Answerable chunk s
    → Awaits chunk p (tx_side (started cmd timeout (some p) s) t)
unfolding atcmd_init reset_cmd_buffer rx_buf_reset
started-Awaits cmd timeout p chunk s t a = record {
  parser = refl;
  pending = refl;
  uncancelled = a.uncancelled;
  parsed = refl;
  empty = ap c_str e ∙ c_str-Avoids [] n tt;
  receives = record {
    peer = a.peer;
    room = omega (arith, a.fits, ap length e, length-replicate {A = ℕ} n 0);
  };
  text = ap c_str (behind_chunk chunk mem n e) ∙ c_str-Avoids chunk _ a.no_zero;
  plain =
      ap (λ m. strchr (take 6 m) b'+') (behind_chunk chunk mem n e)
      ∙ strchr-Avoids-none b'+' _ (
          Avoids-take b'+' 6 _ (
            Avoids-append b'+' chunk _ a.no_plus
              (Avoids-replicate b'+' 0 _ (λ z. omega (arith, z)))));
  ready = a.ready;
  stamp = omega arith;
}
  where
    n : ℕ
    n = length s.iop.rx_cmd_buf.mem

    mem : Bytes
    mem = (rx_buf_reset s.iop.rx_cmd_buf).mem

    e : mem ≡ zeros n
    e = reset_memory s.iop.rx_cmd_buf a.head_in a.clean

-- a command that is closed, where there is a device left
abbrev Closed : Outcome ℕ → Type 0
Closed (ret _ t) = t.atcmd.is_open ≡ false
Closed (stop w) = Unit

-- The success of a command: the device in which it is over, its text written or waiting, some of it
-- written, the time that went by and the events that are left; and the outcome, which is that of one
-- yield in this device with the code of a success behind it.
pub record Succeeds (cmd : Bytes) (time : ℕ) (es : List Event) (s : Ltem) (o : Outcome ℕ)
    : Type 0 where
  pub over : Ltem
  pub outcome : o ≡ behind 200 (yield over)
  pub command_closed : over.atcmd.is_open ≡ false
  pub result : over.atcmd.result_code ≡ 200
  pub sends : stream over ≡ stream s ++ (cmd ++ codes "\r")
  pub transmits : Writes s over
  pub clock : over.now ≡ s.now + time
  pub left : over.schedule ≡ es
  pub stays_closed : Closed o

handed-Closed :
    (u : Ltem) (o : Outcome (Unit {0}))
    → u.atcmd.is_open ≡ false
    → Yields u o
    → Closed (behind 200 o)
handed-Closed u (stop w) h y = tt
handed-Closed u (ret _ v) h y = ap (λ (a : Atcmd). a.is_open) y.atcmd ∙ h

handed :
    (o : Outcome (Unit {0}))
    → elim (handing_over o) as (λ _. Outcome ℕ) [ stop w ↦ stop w | ret r v ↦ ret r.status_code v ]
      ≡ behind 200 o
handed (stop w) = refl
handed (ret _ v) = refl

no_time : (n : ℕ) → sub32 (u32 n) (u32 n) ≡ 0
no_time n = omega arith

-- A service that invokes a command with a parser p, on a device on which no command is open and which
-- is ready to take the answer (a valid transmit buffer with room for the text and its carriage return, a
-- command buffer with zeros behind what it holds, no data peer, the modem ready, no request to cancel),
-- where nothing but time goes by until, within the timeout, an interrupt comes with a chunk for which p
-- answers success at its end and which fits the buffer and has neither a zero nor a plus in it. Then all
-- that is left to do at this event is one yield: the outcome of the service is that of this yield with the
-- success, 200, behind it, so it stops only where the interrupt of this yield does. Before the yield
-- exactly the time up to the event has gone by, the bytes written to the bridge with those that wait are
-- those of before, the text and a carriage return, of which at least one byte has been written, and the
-- command is closed, which it also is when the service returns. Two rounds of fuel more than there are
-- events before are enough. (The FIFO drains: no poll of TXLVL reports more than its 64
-- bytes, and in the end it reports space.)
pub run_command-Succeeds :
    (ds : List ℕ) (fuel timeout : ℕ) (p : Parser) (cmd : Bytes) (d level x : ℕ) (xs : Bytes)
    (es : List Event) (s : Ltem)
    → Answerable (x ∷ xs) s
    → length cmd < 65536
    → length cmd + 1 ≤ room s.iop
    → s.schedule ≡ silences ds (arrival d (x ∷ xs) level ∷ es)
    → p (x ∷ xs) null ≡ (result_success, at (length (x ∷ xs)))
    → sum ds ≤ timeout
    → timeout < 65536
    → length ds + 2 ≤ fuel
    → Succeeds cmd (sum ds + d) es s (run_command fuel timeout (some p) cmd s)
unfolding run_command answer atcmd_init reset_cmd_buffer
run_command-Succeeds ds fuel timeout p cmd d level x xs es s a small h scheduled done in_time t f =
    let (u, invoked, k, only) =
      try_invoke_adv-started cmd timeout (some p) s a.closed a.valid a.levels small h in
    let awaits : Awaits (x ∷ xs) p u =
      subst (Awaits (x ∷ xs) p) (sym only) (started-Awaits cmd timeout p (x ∷ xs) s u a) in
    let no_wait : waited u ≡ 0 =
      ap₂ (λ n i. sub32 (u32 n) i) (ap (λ (v : Ltem). v.now) only) k.timer ∙ no_time s.now in
    let answered =
      await_result-answered ds fuel true d level x xs es p u (k.schedule ∙ scheduled) awaits done
        (omega (arith, no_wait, k.timeout_set, in_time)) (omega (arith, k.timeout_set, t)) f in
    let over : Ltem =
      completed true (u.iop.rx_cmd_buf.head + length (x ∷ xs))
        (with_chunk (x ∷ xs) (later (sum ds + d) es u)) in
    let outcome : run_command fuel timeout (some p) cmd s ≡ behind 200 (yield over) =
      ap (answer fuel) invoked
      ∙ ap
          (λ (o : Outcome AtcmdResult). elim o as (λ _. Outcome ℕ) [
            | stop w ↦ stop w
            | ret r v ↦ ret r.status_code v
          ])
          answered
      ∙ handed (yield over) in
    record {
      over = over;
      outcome = outcome;
      command_closed = refl;
      result = refl;
      sends = k.sends;
      transmits = k.transmits;
      clock = ap (λ (v : Ltem). v.now + (sum ds + d)) only;
      left = refl;
      stays_closed =
          subst Closed (sym outcome) (handed-Closed over (yield over) refl (yield-Yields over));
    }
