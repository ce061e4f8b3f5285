-- ===== src/Command/Poll.antt =====
-- `atcmd_getResult` and `atcmd_awaitResult` of src/ltemc-atcmd.c: the result of a command, and the record
-- of the last error.
use cr_lte_modem.Base.{
  ℕ, zero, suc, ◌-◌, Bool, true, false, not, ◌||◌, Option, none, some, [], ◌∷◌, ltb, leb, ◌==◌,
  if◌then◌else◌, take, drop, sub32,
}
use cr_lte_modem.CString.{Bytes, c_str}
use cr_lte_modem.Parser.{
  Ptr, at, low, null, advance, deref, Parser, result_pending, result_timeout, result_cancelled,
}
use cr_lte_modem.Device.{
  Ltem, M, ret, stop, undefined, out_of_fuel, ◌>>=◌, pure, notif_hw_not_ready, notify_app,
}
use cr_lte_modem.Iop.Urc.{rx_parse_immediate}
use cr_lte_modem.Host.{millis, timer_expired, yield}
use cr_lte_modem.Command.{histrespbuf_sz, result_successmax, with_atcmd}

-- `s_copyToDiagnostics`; the response is read through a pointer that stays NULL.
unfoldable pub copy_to_diagnostics : Ltem → Ltem
copy_to_diagnostics s =
    with_atcmd
      (λ a. record a {
        last_action_error = record {
          cmd_str = take (histrespbuf_sz - 1) a.cmd_str;
          response = take (histrespbuf_sz - 1) (c_str s.low_mem);
          duration = sub32 (millis s) a.invoked_at;
          status_code = a.result_code;
        };
      })
      s

-- `atcmdResult_t`; `response` points into the command buffer, or is NULL. (`responseCode` is not set.)
pub record AtcmdResult : Type 0 where
  pub status_code : ℕ
  pub response : Ptr

-- what `tail` reads
abbrev pub cmd_text : Ltem → Bytes
cmd_text s = elim s.iop.rx_cmd_buf.tail [
  | at k ↦ c_str (drop k s.iop.rx_cmd_buf.mem)
  | low k ↦ c_str (drop k s.low_mem)
]

-- the text that `response` of a result points to
abbrev pub response_text : Ptr → Ltem → Bytes
response_text p s = c_str (deref s.low_mem s.iop.rx_cmd_buf.mem p)

-- the memory that `response` of a result points to
abbrev pub response_mem : Ptr → Ltem → Bytes
response_mem (at k) s = drop k s.iop.rx_cmd_buf.mem
response_mem (low k) s = drop k s.low_mem

-- A parser's end pointer counts from the text that it was given.
abbrev pub rebase : Ptr → Ptr → Ptr
rebase tail (at k) = advance tail k
rebase tail (low k) = low k

-- `tail < head`; addresses near 0 lie below the buffer.
abbrev pub before_head : Ptr → ℕ → Bool
before_head (at k) head = ltb k head
before_head (low k) head = true

-- the timeout branch of `atcmd_getResult`
unfoldable pub time_out : M AtcmdResult
time_out s =
    let s' =
      copy_to_diagnostics
        (with_atcmd (λ a. record a { result_code = result_timeout; is_open = false }) s) in
    let result : AtcmdResult = record { status_code = result_timeout; response = at 0 } in
    if not s.hw_ready || not s.comm_ready
    then (notify_app notif_hw_not_ready >>= λ _. pure result) s'
    else ret result s'

-- the end of `atcmd_getResult` behind the parser's completion: success, or an error
unfoldable pub conclude : Bool → M AtcmdResult
conclude close_action s =
    let result : AtcmdResult = record { status_code = s.atcmd.result_code; response = at 0 } in
    if leb s.atcmd.result_code result_successmax
    then if close_action
      then ret result (with_atcmd (λ a. record a { is_open = false }) s)
      else ret result s
    else ret result (copy_to_diagnostics (with_atcmd (λ a. record a { is_open = false }) s))

-- `tail = endptr`, and what lies behind it is parsed as if it had just arrived
unfoldable pub complete : Bool → Ptr → M AtcmdResult
complete close_action endptr s =
    let s' = record s {
      iop = record (s.iop) { rx_cmd_buf = record (s.iop.rx_cmd_buf) { tail = endptr } };
    } in
    if before_head endptr s.iop.rx_cmd_buf.head
    then (rx_parse_immediate >>= λ _. conclude close_action) s'
    else conclude close_action s'

-- behind the parser, by the result code: pending, or complete
unfoldable pub settle : Bool → Ptr → M AtcmdResult
settle close_action endptr s =
    if s.atcmd.result_code == result_pending
    then if timer_expired s.atcmd.invoked_at s.atcmd.timeout_millis s
      then time_out s
      else ret (record { status_code = result_pending; response = at 0 }) s
    else complete close_action endptr s

-- the parser called on a text, and what follows
unfoldable pub call_parser : Bool → Bytes → Option Parser → M AtcmdResult
call_parser close_action text none s = stop undefined
call_parser close_action text (some p) s =
    let (code, endptr) = p text null in
    settle close_action (rebase s.iop.rx_cmd_buf.tail endptr)
      (with_atcmd (λ a. record a { result_code = code }) s)

-- The parser runs where the text at `tail` is not empty.
unfoldable pub parse_text : Bool → Bytes → M AtcmdResult
parse_text close_action [] s = settle close_action null s
parse_text close_action (x ∷ xs) s = call_parser close_action (x ∷ xs) s.atcmd.parser s

-- `atcmd_getResult`
unfoldable pub get_result : Bool → M AtcmdResult
get_result close_action s = parse_text close_action (cmd_text s) s

-- The end of a round of the wait: a request to cancel ends it; else the platform has its turn, and a
-- result that is not pending ends it.
unfoldable pub finish_round : AtcmdResult → M (Option AtcmdResult)
finish_round r s =
    if s.cancellation_request
    then ret (some (record { status_code = result_cancelled; response = null })) s
    else elim (yield s) [
      | ret _ t ↦ ret (if r.status_code == result_pending then none else some r) t
      | stop w ↦ stop w
    ]

-- one round of the loop of `atcmd_awaitResult`: the result to return, if it is the last
unfoldable pub await_round : Bool → M (Option AtcmdResult)
await_round close_action s = elim (get_result close_action s) [
  | ret r t ↦ finish_round r t
  | stop w ↦ stop w
]

-- `atcmd_awaitResult`, with fuel for its rounds
unfoldable pub await_result : ℕ → Bool → M AtcmdResult
await_result zero close_action s = stop out_of_fuel
await_result (suc fuel) close_action s = elim (await_round close_action s) [
  | ret (some r) t ↦ ret r t
  | ret none t ↦ await_result fuel close_action t
  | stop w ↦ stop w
]
