-- ===== src/Sockets/Transfer.antt =====
-- `s_requestIrdData`, `sckt_flush`, `sckt_getState` and `sckt_send` of src/ltemc-sockets.c.
use cr_lte_modem.Base.{
  ℕ, Bool, true, false, not, ◌||◌, some, ◌++◌, ltb, ◌==◌, if◌then◌else◌, length, u16,
}
use cr_lte_modem.CString.{Bytes, codes, decimal, snprintf}
use cr_lte_modem.Parser.{result_success, result_badrequest, result_conflict, tx_data_prompt_parser}
use cr_lte_modem.Device.{SocketCtrl, Ltem, M, ret, stop, ◌>>=◌, ◌>>◌, pure}
use cr_lte_modem.Host.{millis}
use cr_lte_modem.Iop.Tx.{tx_send}
use cr_lte_modem.Command.{action_timeout, acquire_lock, try_invoke_adv, send_raw}
use cr_lte_modem.Command.Poll.{await_result}
use cr_lte_modem.Sockets.{
  dflt_atbufsz, get_ctrl, ird_req_sz, ird_retries, protocol_any_ip, protocol_ssl, protocol_void,
  socket_send_complete_parser, socket_status_parser,
}

-- `s_requestIrdData`
unfoldable pub ird_cmd : ℕ → SocketCtrl → Bytes
ird_cmd peer c = snprintf 24 (
    (if c.protocol == protocol_ssl then codes "AT+QSSLRECV=" else codes "AT+QIRD=")
    ++ decimal peer
    ++ codes ","
    ++ decimal ird_req_sz)

-- the request sent, with the peer set for what the modem answers
unfoldable pub send_ird : ℕ → Bytes → M Bool
send_ird peer cmd s =
    (do tx_send cmd (u16 (length cmd)) false; tx_send (codes "\r") 1 true; pure true)
      (record s { iop = record (s.iop) { rx_data_peer = peer } })

unfoldable pub request_ird : ℕ → SocketCtrl → Bool → M Bool
request_ird peer c apply_lock s =
    if apply_lock
    then elim (acquire_lock (ird_cmd peer c) ird_retries s) [
      | stop w ↦ stop w
      | ret false s' ↦ ret false s'
      | ret true s' ↦ send_ird peer (ird_cmd peer c) s'
    ]
    else send_ird peer (ird_cmd peer c) s

unfoldable pub request_ird_data : ℕ → Bool → M Bool
request_ird_data peer apply_lock = get_ctrl peer >>= λ c. request_ird peer c apply_lock

-- `irdReqstAt = lMillis()`
abbrev pub note_request : Ltem → Ltem
note_request s = record s { ird_reqst_at = millis s }

-- `sckt_flush`; where the socket is not open it returns no value, which no caller looks at: false
unfoldable pub sckt_flush : ℕ → M Bool
sckt_flush id s = elim (get_ctrl id s) [
  | stop w ↦ stop w
  | ret c s' ↦
      if c.protocol == protocol_void then ret false s' else elim (request_ird id c true s') [
        | stop w ↦ stop w
        | ret done t ↦ ret done (if done then note_request t else t)
      ]
]

-- `sckt_getState`: the conflict code of a command that is not invoked reads as true
unfoldable pub sckt_get_state : ℕ → ℕ → M Bool
sckt_get_state fuel id s =
    elim (try_invoke_adv (snprintf dflt_atbufsz (codes "AT+QISTATE=1," ++ decimal id))
      action_timeout (some (socket_status_parser s.low_mem)) s) [
        | stop w ↦ stop w
        | ret false s' ↦ ret true s'
        | ret true s' ↦ elim (await_result fuel true s') [
          | stop w ↦ stop w
          | ret r t ↦ ret (r.status_code == result_success) t
        ]
      ]

-- the data behind the prompt of the modem
unfoldable pub send_data : ℕ → Bytes → ℕ → M ℕ
send_data fuel bytes sz s = elim (await_result fuel false s) [
  | stop w ↦ stop w
  | ret r t ↦
      if r.status_code == result_success
      then elim (send_raw bytes sz 0 (some socket_send_complete_parser) t) [
        | stop w ↦ stop w
        | ret n t' ↦ elim (await_result fuel true t') [
          | stop w ↦ stop w
          | ret r' u ↦ ret (r'.status_code) u
        ]
      ]
      else ret (r.status_code) t
]

-- `sckt_send`
unfoldable pub sckt_send : ℕ → ℕ → Bytes → ℕ → M ℕ
sckt_send fuel id bytes sz s = elim (get_ctrl id s) [
  | stop w ↦ stop w
  | ret c s' ↦
      if ltb protocol_any_ip c.protocol || not c.open_flag
      then ret result_badrequest s'
      else elim (try_invoke_adv
          (snprintf dflt_atbufsz (codes "AT+QISEND=" ++ decimal id ++ codes "," ++ decimal sz))
          action_timeout (some tx_data_prompt_parser) s') [
            | stop w ↦ stop w
            | ret false t ↦ ret result_conflict t
            | ret true t ↦ send_data fuel bytes sz t
          ]
]
