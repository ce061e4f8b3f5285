-- ===== src/Command.antt =====
-- src/ltemc-atcmd.c: the AT command processor. One command is open at a time: its lock, and the send of
-- its text. `Poll` is the wait for its result.
pub mod Poll
pub mod Result
pub mod Wait
mod Tests
pub mod Invoke
pub mod Round
pub mod Answered
pub mod Cancelled
pub mod Run
pub mod Lock
use cr_lte_modem.Base.{
  ℕ, zero, suc, ◌+◌, ◌-◌, ◌*◌, ◌/◌, ◌%◌, ◌^◌, ◌≤◌, ◌<◌, min, ◌≡◌, refl, sym, ap, ap₂, ◌∙◌, ◌≢◌, ◌↔◌,
  ◌⊎◌, inl, inr, Bool, true, false, not, ◌&&◌, ◌||◌, Option, none, some, List, [], ◌∷◌, ◌++◌, map,
  append-nil, append_assoc, arith, ltb, leb, ◌==◌, if◌then◌else◌, ltb→lt, lt→ltb, leb→le, ==_iff,
  Bool-cases, Option-cases, length, get_elem?, get_or, set, take, drop, replicate, length-append,
  length-set, length-take, length-drop, length-replicate, take-append-drop, take-append,
  drop-append, drop-append_le, drop-add, drop-append_add, get_elem?-eq-get_or, get_or-set_self,
  get_or-set_ne, take-nil, u8, u16, u32, sub16, sub32,
}
use cr_lte_modem.CString.{Bytes, codes, c_str}
use cr_lte_modem.Parser.{
  Ptr, at, low, null, advance, Parser, ok_result_parser, result_success, result_pending,
  result_timeout, result_cancelled,
}
use cr_lte_modem.Device.{
  RxBuf, Iop, Atcmd, AtcmdHistory, Ltem, M, Outcome, ret, stop, undefined, out_of_fuel, ◌>>=◌, ◌>>◌,
  pure, get, modify, tx_buffer_sz, notif_hw_not_ready, notify_app,
}
use cr_lte_modem.Iop.Tx.{tx_send}
use cr_lte_modem.Iop.Rx.{reset_cmd_buffer}
use cr_lte_modem.Iop.Urc.{rx_parse_immediate}
use cr_lte_modem.Host.{millis, timer_expired, yield, delay}

abbrev pub action_timeout : ℕ
action_timeout = 500

abbrev pub action_lockretries : ℕ
action_lockretries = 3

abbrev pub lockretry_interval : ℕ
lockretry_interval = 50

abbrev pub histrespbuf_sz : ℕ
histrespbuf_sz = 240

abbrev pub result_successmax : ℕ
result_successmax = 299

abbrev pub with_atcmd : (Atcmd → Atcmd) → Ltem → Ltem
with_atcmd f s = record s { atcmd = f s.atcmd }

-- `atcmd_close`
unfoldable pub close : M (Unit {0})
close s = ret tt (with_atcmd (λ a. record a { is_open = false }) s)

-- `s_atcmdInit`; strncpy copies at most the size of the array, and no terminator then.
unfoldable pub atcmd_init : Bytes → Ltem → Ltem
atcmd_init cmd s = reset_cmd_buffer (
    with_atcmd
      (λ a. record a {
        is_open = true;
        cmd_str = take tx_buffer_sz cmd;
        timeout_millis = 0;
        result_code = result_pending;
        invoked_at = 0;
        parser = none;
      })
      s)

-- The loop of `atcmd__acquireLock` while the command is open: `retries` counts down before each wait.
unfoldable pub await_lock : ℕ → M Bool
await_lock zero s = ret false s
await_lock (suc retries) s =
    if s.atcmd.is_open
    then elim retries [
      | zero ↦ ret false s
      | suc k ↦ elim (delay lockretry_interval s) [
        | ret _ s' ↦ await_lock retries s'
        | stop w ↦ stop w
      ]
    ]
    else ret true s

-- `atcmd__acquireLock`
unfoldable pub acquire_lock : Bytes → ℕ → M Bool
acquire_lock cmd retries s =
    if s.atcmd.is_open
    then elim (await_lock retries s) [
      | ret true s' ↦ ret true (atcmd_init cmd s')
      | ret false s' ↦ ret false s'
      | stop w ↦ stop w
    ]
    else ret true (atcmd_init cmd s)

-- `taskCompleteParser == NULL ? atcmd_okResultParser : taskCompleteParser`
abbrev pub or_ok : Ltem → Option Parser → Option Parser
or_ok s none = some (ok_result_parser s.low_mem)
or_ok s (some p) = some p

-- the part of `atcmd_tryInvokeAdv` behind the lock: timer, parser, and the text with its CR
unfoldable pub invoke_locked : Bytes → ℕ → Option Parser → M Bool
invoke_locked cmd timeout p s =
    let s' =
      with_atcmd
        (λ a. record a { timeout_millis = timeout; invoked_at = millis s; parser = or_ok s p }) s in
    (do tx_send cmd (u16 (length cmd)) false; tx_send (codes "\r") 1 true; pure true) s'

-- `atcmd_tryInvokeAdv`
unfoldable pub try_invoke_adv : Bytes → ℕ → Option Parser → M Bool
try_invoke_adv cmd timeout p s = elim (acquire_lock cmd action_lockretries s) [
  | ret true s' ↦ invoke_locked cmd timeout p s'
  | ret false s' ↦ ret false s'
  | stop w ↦ stop w
]

-- `atcmd_tryInvoke`
unfoldable pub try_invoke : Bytes → M Bool
try_invoke cmd s = try_invoke_adv cmd action_timeout (some (ok_result_parser s.low_mem)) s

-- the settings that `atcmd_sendRaw` and `atcmd_sendRawWithEOTs` make: a timeout of 0 keeps the old one
abbrev pub raw_settings : ℕ → Option Parser → Ltem → Ltem
raw_settings timeout p s =
    with_atcmd
      (λ a. record a {
        timeout_millis = if ltb 0 timeout then timeout else a.timeout_millis;
        parser = or_ok s p;
      })
      s

-- `atcmd_sendRaw`
unfoldable pub send_raw : Bytes → ℕ → ℕ → Option Parser → M ℕ
send_raw bytes sz timeout p s = tx_send bytes sz true (raw_settings timeout p s)

-- `atcmd_sendRawWithEOTs`
unfoldable pub send_raw_with_eots : Bytes → ℕ → Bytes → ℕ → Option Parser → M ℕ
send_raw_with_eots bytes sz eot timeout p s =
    (do tx_send bytes sz false; tx_send eot (u16 (length eot)) true) (raw_settings timeout p s)

-- `atcmd_exitTextMode`
unfoldable pub exit_text_mode : M ℕ
exit_text_mode = tx_send (codes "\u{1b}") 1 true

-- `atcmd_exitDataMode`: of the three `+` it hands over one.
unfoldable pub exit_data_mode : M (Unit {0})
exit_data_mode = do delay 1000; tx_send (codes "+++") 1 true; delay 1000
