-- ===== src/Command/Result.antt =====
-- `atcmd_getResult` against the clock, the timer and the code of the command.
use cr_lte_modem.Base.{
  ℕ, ◌≡◌, refl, sym, ap, ◌∙◌, ◌≢◌, Bool, false, not, ◌||◌, Option, none, some, [], ◌∷◌, arith, leb,
  ◌==◌, ==_iff, if-elim,
}
use mathlib.Core.Bool.{false≢true}
use cr_lte_modem.CString.{Bytes}
use cr_lte_modem.Parser.{Ptr, Parser, null, result_pending, result_timeout}
use cr_lte_modem.Device.{Ltem, Atcmd, Outcome, ret, stop, notify_app}
use cr_lte_modem.Iop.Urc.{rx_parse_immediate}
use cr_lte_modem.Iop.Frame.{IsReal, Frame, Frame-refl, Keeps, Keeps-from}
use cr_lte_modem.Iop.Receive.{rx_parse_immediate-Keeps}
use cr_lte_modem.Host.{timer_expired}
use cr_lte_modem.Command.{result_successmax, with_atcmd}
use cr_lte_modem.Command.Poll.{
  AtcmdResult, cmd_text, before_head, copy_to_diagnostics, time_out, conclude, complete, settle,
  call_parser, parse_text, get_result,
}

-- What `atcmd_getResult` leaves when it returns `r`: the clock, the schedule and the request to cancel
-- are as they were; a pending answer keeps the timer, which has not run out; any other is recorded in
-- the command.
pub record Got (s : Ltem) (r : AtcmdResult) (t : Ltem) : Type 0 where
  pub now : t.now ≡ s.now
  pub schedule : t.schedule ≡ s.schedule
  pub cancellation : t.cancellation_request ≡ s.cancellation_request
  pub invoked : t.atcmd.invoked_at ≡ s.atcmd.invoked_at
  pub timeout : t.atcmd.timeout_millis ≡ s.atcmd.timeout_millis
  pub code : t.atcmd.result_code ≡ r.status_code
  pub running :
      r.status_code ≡ result_pending
      → timer_expired s.atcmd.invoked_at s.atcmd.timeout_millis s ≡ false

abbrev pub Gets : Ltem → Outcome AtcmdResult → Type 0
Gets s (ret r t) = Got s r t
Gets s (stop w) = IsReal w

-- a call that ends the command with a code, and touches neither clock nor timer
Got-done :
    {s : Ltem} (r : AtcmdResult) (t : Ltem)
    → r.status_code ≢ result_pending
    → Frame s (record t { atcmd = s.atcmd })
    → t.atcmd.invoked_at ≡ s.atcmd.invoked_at
    → t.atcmd.timeout_millis ≡ s.atcmd.timeout_millis
    → t.atcmd.result_code ≡ r.status_code
    → Got s r t
Got-done r t ne f i m c = record {
  now = f.now;
  schedule = f.schedule;
  cancellation = f.cancellation;
  invoked = i;
  timeout = m;
  code = c;
  running = λ e. absurd (ne e);
}

timeout-ne-pending : result_timeout ≢ result_pending
timeout-ne-pending = omega arith

timer_expired-Frame :
    {s t : Ltem}
    → Frame s t
    → timer_expired s.atcmd.invoked_at s.atcmd.timeout_millis s
      ≡ timer_expired t.atcmd.invoked_at t.atcmd.timeout_millis t
unfolding timer_expired
timer_expired-Frame f = rw (f.atcmd, f.now)

with_tail :
    (s : Ltem) (p : Ptr)
    → Frame s
        (record s { iop = record (s.iop) { rx_cmd_buf = record (s.iop.rx_cmd_buf) { tail = p } } })
with_tail s p = record {
  atcmd = refl;
  now = refl;
  schedule = refl;
  cancellation = refl;
  low_mem = refl;
  hw_ready = refl;
  comm_ready = refl;
}

time_out-Gets : (s : Ltem) → Gets s (time_out s)
unfolding time_out copy_to_diagnostics notify_app
time_out-Gets s =
    if-elim (Gets s) (not s.hw_ready || not s.comm_ready) (λ _. tt)
      (λ _. Got-done _ _ timeout-ne-pending (Frame-refl s) refl refl refl)

conclude-Gets : (c : Bool) (s : Ltem) → s.atcmd.result_code ≢ result_pending → Gets s (conclude c s)
unfolding conclude copy_to_diagnostics
conclude-Gets c s ne =
    if-elim (Gets s) (leb s.atcmd.result_code result_successmax)
      (λ _.
        if-elim (Gets s) c (λ _. Got-done _ _ ne (Frame-refl s) refl refl refl)
          (λ _. Got-done _ _ ne (Frame-refl s) refl refl refl))
      (λ _. Got-done _ _ ne (Frame-refl s) refl refl refl)

Gets-from : {s t : Ltem} (o : Outcome AtcmdResult) → Frame s t → Gets t o → Gets s o
Gets-from (stop w) f h = h
Gets-from {s} {t} (ret r u) f h = record {
  now = h.now ∙ f.now;
  schedule = h.schedule ∙ f.schedule;
  cancellation = h.cancellation ∙ f.cancellation;
  invoked = h.invoked ∙ ap (λ (a : Atcmd). a.invoked_at) f.atcmd;
  timeout = h.timeout ∙ ap (λ (a : Atcmd). a.timeout_millis) f.atcmd;
  code = h.code;
  running = λ e. timer_expired-Frame f ∙ h.running e;
}

then_conclude :
    (s : Ltem) (c : Bool) (o : Outcome (Unit {0}))
    → s.atcmd.result_code ≢ result_pending
    → Keeps s o
    → Gets s (elim o [ ret _ t ↦ conclude c t | stop w ↦ stop w ])
then_conclude s c (stop w) ne k = k
then_conclude s c (ret u t) ne k =
    Gets-from _ k
      (conclude-Gets c t (λ e. ne (ap (λ (a : Atcmd). a.result_code) (sym k.atcmd) ∙ e)))

complete-Gets :
    (c : Bool) (endptr : Ptr) (s : Ltem)
    → s.atcmd.result_code ≢ result_pending
    → Gets s (complete c endptr s)
unfolding complete
complete-Gets c endptr s ne =
    if-elim (Gets s) (before_head endptr s.iop.rx_cmd_buf.head)
      (λ _.
        then_conclude s c (rx_parse_immediate _) ne
          (Keeps-from _ (with_tail s endptr) (rx_parse_immediate-Keeps _)))
      (λ _. Gets-from _ (with_tail s endptr) (conclude-Gets c _ ne))

settle-Gets : (c : Bool) (endptr : Ptr) (s : Ltem) → Gets s (settle c endptr s)
unfolding settle
settle-Gets c endptr s =
    if-elim (Gets s) (s.atcmd.result_code == result_pending)
      (λ e.
        if-elim (Gets s) (timer_expired s.atcmd.invoked_at s.atcmd.timeout_millis s)
          (λ _. time_out-Gets s)
          (λ still. record {
            now = refl;
            schedule = refl;
            cancellation = refl;
            invoked = refl;
            timeout = refl;
            code = (==_iff _ _).0 e;
            running = λ _. still;
          }))
      (λ n. complete-Gets c endptr s (λ e. absurd (false≢true (sym n ∙ (==_iff _ _).1 e))))

-- a code recorded before the rest
Gets-coded :
    (code : ℕ) (s : Ltem) (o : Outcome AtcmdResult)
    → Gets (with_atcmd (λ a. record a { result_code = code }) s) o
    → Gets s o
unfolding timer_expired
Gets-coded code s (stop w) h = h
Gets-coded code s (ret r t) h = record {
  now = h.now;
  schedule = h.schedule;
  cancellation = h.cancellation;
  invoked = h.invoked;
  timeout = h.timeout;
  code = h.code;
  running = h.running;
}

call_parser-Gets :
    (c : Bool) (text : Bytes) (p : Option Parser) (s : Ltem) → Gets s (call_parser c text p s)
unfolding call_parser
call_parser-Gets c text none s = tt
call_parser-Gets c text (some p) s = Gets-coded _ s _ (settle-Gets c _ _)

parse_text-Gets : (c : Bool) (text : Bytes) (s : Ltem) → Gets s (parse_text c text s)
unfolding parse_text
parse_text-Gets c [] s = settle-Gets c null s
parse_text-Gets c (x ∷ xs) s = call_parser-Gets c (x ∷ xs) s.atcmd.parser s

-- `atcmd_getResult` keeps clock, schedule and timer; it answers pending only while the timer runs.
pub get_result-Gets : (c : Bool) (s : Ltem) → Gets s (get_result c s)
unfolding get_result
get_result-Gets c s = parse_text-Gets c (cmd_text s) s
