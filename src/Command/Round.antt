-- ===== src/Command/Round.antt =====
-- One round of `atcmd_awaitResult`, where nothing has come yet, and where the answer has come.
use cr_lte_modem.Base.{
  ℕ, suc, ◌+◌, ◌≡◌, refl, ap, ◌∙◌, Bool, true, false, Option, none, some, [], ◌∷◌, arith, ltb, ◌==◌,
  if◌then◌else◌, length,
}
use cr_lte_modem.CString.{Bytes}
use cr_lte_modem.Parser.{Ptr, at, null, Parser, result_pending, result_success}
use cr_lte_modem.Device.{Ltem, Outcome, ret, stop, ◌>>=◌}
use cr_lte_modem.Iop.Urc.{rx_parse_immediate}
use cr_lte_modem.Host.{timer_expired, yield}
use cr_lte_modem.Command.{with_atcmd}
use cr_lte_modem.Command.Poll.{
  AtcmdResult, cmd_text, rebase, time_out, conclude, complete, settle, call_parser, parse_text,
  get_result, finish_round, await_round, await_result,
}

-- the result of a command that still is pending
abbrev pub still_pending : AtcmdResult
still_pending = record { status_code = result_pending; response = at 0 }

abbrev pub succeeded : AtcmdResult
succeeded = record { status_code = result_success; response = at 0 }

pub get_result-silent :
    (c : Bool) (s : Ltem)
    → cmd_text s ≡ []
    → s.atcmd.result_code ≡ result_pending
    → timer_expired s.atcmd.invoked_at s.atcmd.timeout_millis s ≡ false
    → get_result c s ≡ ret still_pending s
unfolding get_result parse_text settle
get_result-silent c s e p t =
    ap (λ text. parse_text c text s) e
    ∙ ap
        (λ (k : ℕ).
          if k == result_pending
          then (if timer_expired s.atcmd.invoked_at s.atcmd.timeout_millis s
              then time_out s
              else ret still_pending s)
          else complete c null s)
        p
    ∙ ap (λ (y : Bool). if y then time_out s else ret still_pending s) t

-- A round of the wait in which nothing is there to be parsed.
pub await_result-silent :
    (fuel : ℕ) (c : Bool) (s t : Ltem)
    → get_result c s ≡ ret still_pending s
    → s.cancellation_request ≡ false
    → yield s ≡ ret tt t
    → await_result (suc fuel) c s ≡ await_result fuel c t
unfolding await_result await_round finish_round
await_result-silent fuel c s t g u y = ap next (
    ap (λ (o : Outcome AtcmdResult). elim o [ ret r v ↦ finish_round r v | stop w ↦ stop w ]) g
    ∙ ap
        (λ (b : Bool).
          if b
          then ret (some (record { status_code = 499; response = null })) s
          else elim (yield s) [ ret _ v ↦ ret none v | stop w ↦ stop w ])
        u
    ∙ ap (λ (o : Outcome (Unit {0})). elim o [ ret _ v ↦ ret none v | stop w ↦ stop w ]) y)
  where
    next : Outcome (Option AtcmdResult) → Outcome AtcmdResult
    next o = elim o [
      | ret (some r) v ↦ ret r v
      | ret none v ↦ await_result fuel c v
      | stop w ↦ stop w
    ]

-- the device behind a success that the parser found at the end of the text
abbrev pub completed : Bool → ℕ → Ltem → Ltem
completed c end s =
    with_atcmd
      (λ a. record a { result_code = result_success; is_open = if c then false else a.is_open })
      (record s {
        iop = record (s.iop) { rx_cmd_buf = record (s.iop.rx_cmd_buf) { tail = at end } };
      })

abbrev succeeding : Ltem → Ltem
succeeding s = with_atcmd (λ a. record a { result_code = result_success }) s

abbrev with_tail : ℕ → Ltem → Ltem
with_tail end s = record s {
  iop = record (s.iop) { rx_cmd_buf = record (s.iop.rx_cmd_buf) { tail = at end } };
}

conclude-success :
    (c : Bool) (end : ℕ) (s : Ltem)
    → conclude c (with_tail end (succeeding s)) ≡ ret succeeded (completed c end s)
unfolding conclude
conclude-success true end s = refl
conclude-success false end s = refl

not_before : (end head : ℕ) → head ≡ end → ltb end head ≡ false
not_before end head h = ground arith

complete-success :
    (c : Bool) (end : ℕ) (s : Ltem)
    → s.iop.rx_cmd_buf.head ≡ end
    → complete c (at end) (succeeding s) ≡ ret succeeded (completed c end s)
unfolding complete
complete-success c end s h =
    ap
      (λ (y : Bool).
        if y
        then (rx_parse_immediate >>= λ _. conclude c) (with_tail end (succeeding s))
        else conclude c (with_tail end (succeeding s)))
      (not_before end s.iop.rx_cmd_buf.head h)
    ∙ conclude-success c end s

-- the result where the text in the buffer is one that the parser takes for complete, up to its end
pub get_result-done :
    (c : Bool) (s : Ltem) (x : ℕ) (xs : Bytes) (p : Parser) (from : ℕ)
    → cmd_text s ≡ x ∷ xs
    → s.atcmd.parser ≡ some p
    → s.iop.rx_cmd_buf.tail ≡ at from
    → s.iop.rx_cmd_buf.head ≡ from + length (x ∷ xs)
    → p (x ∷ xs) null ≡ (result_success, at (length (x ∷ xs)))
    → get_result c s ≡ ret succeeded (completed c (from + length (x ∷ xs)) s)
unfolding get_result parse_text call_parser settle
get_result-done c s x xs p from text parser tail head done =
    ap (λ t. parse_text c t s) text
    ∙ ap (λ q. call_parser c (x ∷ xs) q s) parser
    ∙ ap
        (λ (r : ℕ × Ptr).
          settle c (rebase s.iop.rx_cmd_buf.tail r.1)
            (with_atcmd (λ a. record a { result_code = r.0 }) s))
        done
    ∙ ap
        (λ (q : Ptr).
          complete c (rebase q (at (length (x ∷ xs))))
            (with_atcmd (λ a. record a { result_code = result_success }) s))
        tail
    ∙ complete-success c (from + length (x ∷ xs)) s head

-- the end of the wait: the platform has its turn once more
abbrev pub handing_over : Outcome (Unit {0}) → Outcome AtcmdResult
handing_over (ret _ t) = ret succeeded t
handing_over (stop w) = stop w

pub await_result-done :
    (fuel : ℕ) (c : Bool) (s t : Ltem)
    → get_result c s ≡ ret succeeded t
    → t.cancellation_request ≡ false
    → await_result (suc fuel) c s ≡ handing_over (yield t)
unfolding await_result await_round finish_round
await_result-done fuel c s t g u =
    ap (λ (o : Outcome AtcmdResult). next (elim o [ ret r v ↦ finish_round r v | stop w ↦ stop w ]))
      g
    ∙ ap
        (λ (b : Bool). next (
          if b
          then ret (some (record { status_code = 499; response = null })) t
          else elim (yield t) [ ret _ v ↦ ret (some succeeded) v | stop w ↦ stop w ]))
        u
    ∙ over (yield t)
  where
    next : Outcome (Option AtcmdResult) → Outcome AtcmdResult
    next o = elim o [
      | ret (some r) v ↦ ret r v
      | ret none v ↦ await_result fuel c v
      | stop w ↦ stop w
    ]

    over :
        (o : Outcome (Unit {0}))
        → next (elim o [ ret _ v ↦ ret (some succeeded) v | stop w ↦ stop w ]) ≡ handing_over o
    over (ret _ v) = refl
    over (stop w) = refl
