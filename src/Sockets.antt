-- ===== src/Sockets.antt =====
-- src/ltemc-sockets.c: the TCP, UDP and SSL sockets. Here the parsers, the control of a socket and the
-- pieces of `sckt_open`; `Shut` is `sckt_close`, `Transfer` flush, state and send, `Work` the background
-- work and `sckt_open`.
pub mod Transfer
pub mod Shut
pub mod Work
pub mod Ird
pub mod Maps
pub mod Steps
pub mod Delivery
pub mod Quiet
pub mod Round
mod Tests
use cr_lte_modem.Base.{
  ℕ, zero, suc, ◌+◌, ◌-◌, ◌*◌, ◌/◌, ◌%◌, ◌^◌, ◌≤◌, ◌<◌, min, ◌≡◌, refl, sym, ap, ap₂, ◌∙◌, ◌≢◌, ◌↔◌,
  ◌⊎◌, inl, inr, Bool, true, false, not, ◌&&◌, ◌||◌, Option, none, some, List, [], ◌∷◌, ◌++◌, map,
  append-nil, append_assoc, arith, ltb, leb, ◌==◌, if◌then◌else◌, ltb→lt, lt→ltb, leb→le, ==_iff,
  if-elim, Bool-cases, Option-cases, length, get_elem?, get_or, set, take, drop, replicate,
  length-append, length-set, length-take, length-drop, length-replicate, take-append-drop,
  take-append, drop-append, drop-append_le, drop-add, drop-append_add, get_elem?-eq-get_or,
  get_or-set_self, get_or-set_ne, take-nil, List-cases, bits_or, bits_and, bits_and_not, u8, u16,
  u32, sub16, sub32,
}
use cr_lte_modem.CString.{Bytes, codes, decimal, snprintf}
use cr_lte_modem.Parser.{
  Parser, result_success, result_badrequest, result_conflict, result_unavailable,
  default_result_parser, service_response_parser, tx_data_prompt_parser,
}
use cr_lte_modem.Device.{
  PeerTypeMap, Iop, SocketCtrl, Ltem, M, Outcome, ret, stop, undefined, ◌>>=◌, ◌>>◌, pure, modify,
  no_buffer, socket_cnt,
}
use cr_lte_modem.Host.{millis}
use cr_lte_modem.Iop.Tx.{tx_send}
use cr_lte_modem.Command.{action_timeout, acquire_lock, try_invoke, try_invoke_adv, send_raw}
use cr_lte_modem.Command.Poll.{AtcmdResult, await_result}

-- `protocol_t`
abbrev pub protocol_tcp : ℕ
protocol_tcp = 0

abbrev pub protocol_udp : ℕ
protocol_udp = 1

abbrev pub protocol_ssl : ℕ
protocol_ssl = 2

abbrev pub protocol_any_ip : ℕ
protocol_any_ip = 2

abbrev pub protocol_void : ℕ
protocol_void = 255

abbrev pub sockets_cmdbuf_sz : ℕ
sockets_cmdbuf_sz = 80

abbrev pub dflt_atbufsz : ℕ
dflt_atbufsz = 40

abbrev pub socket_result_prevopen : ℕ
socket_result_prevopen = 563

-- MIN(IRD_REQ_MAXSZ, IOP_RX_DATABUF_SZ)
abbrev pub ird_req_sz : ℕ
ird_req_sz = min 1500 2048

abbrev pub ird_retries : ℕ
ird_retries = 10

-- `sckt_create`: the array of controls from `calloc`, and what the loop sets in each
unfoldable pub sckt_create : M (Unit {0})
sckt_create s =
    let ctrl : SocketCtrl = record {
      protocol = protocol_void;
      socket_id = 0;
      open_flag = false;
      flushing = false;
      data_pending = false;
      data_buffer_indx = no_buffer;
      pdp_context_id = s.data_context;
      receiver_func = none;
    } in
    ret tt (record s { sockets = some (replicate socket_cnt ctrl) })

-- `s_tcpudpOpenCompleteParser`, `s_sslOpenCompleteParser`, `s_socketSendCompleteParser`
unfoldable pub tcpudp_open_complete_parser : Bytes → Parser
tcpudp_open_complete_parser low_mem = service_response_parser low_mem (codes "+QIOPEN: ") 1

unfoldable pub ssl_open_complete_parser : Bytes → Parser
ssl_open_complete_parser low_mem = service_response_parser low_mem (codes "+QSSLOPEN: ") 1

unfoldable pub socket_send_complete_parser : Parser
socket_send_complete_parser = default_result_parser [] false 0 (some (codes "SEND OK\r\n"))

abbrev pub socket_status : Bytes → Parser
socket_status low_mem = service_response_parser low_mem (codes "+QISTATE: ") 5

-- `s_socketStatusParser`: a response that is still pending is unavailable, too.
unfoldable pub socket_status_parser : Bytes → Parser
socket_status_parser low_mem response endptr =
    let (code, end) = socket_status low_mem response endptr in
    (if code == 202 then result_success else result_unavailable, end)

-- `scktPtr->socketCtrls[i]` changed; an index past the array is undefined
unfoldable pub with_ctrl : ℕ → (SocketCtrl → SocketCtrl) → M (Unit {0})
with_ctrl i f s = elim s.sockets [
  | none ↦ stop undefined
  | some ctrls ↦ elim (get_elem? ctrls i) [
    | none ↦ stop undefined
    | some c ↦ ret tt (record s { sockets = some (set ctrls i (f c)) })
  ]
]

-- `scktPtr->socketCtrls[i]` read
unfoldable pub get_ctrl : ℕ → M SocketCtrl
get_ctrl i s = elim s.sockets [
  | none ↦ stop undefined
  | some ctrls ↦ elim (get_elem? ctrls i) [ none ↦ stop undefined | some c ↦ ret c s ]
]

abbrev pub with_map : (PeerTypeMap → PeerTypeMap) → Ltem → Ltem
with_map f s = record s { iop = record (s.iop) { peer_type_map = f s.iop.peer_type_map } }

-- `0x01 << socketId`, in a `uint8_t`
abbrev pub socket_bit_map : ℕ → ℕ
socket_bit_map id = u8 (2 ^ id)

-- the open command: `AT+QIOPEN` or `AT+QSSLOPEN` with context, socket, protocol, host and port
unfoldable pub open_cmd : Bytes → Bytes → ℕ → ℕ → Bytes → ℕ → Bytes
open_cmd verb proto_name context id host rmt_port = snprintf sockets_cmdbuf_sz (
    verb
    ++ decimal context
    ++ codes ","
    ++ decimal id
    ++ codes ",\""
    ++ proto_name
    ++ codes "\",\""
    ++ host
    ++ codes "\","
    ++ decimal rmt_port)

-- the bit of the socket set in the map of its kind
unfoldable pub mark_tcpudp : ℕ → Ltem → Ltem
mark_tcpudp id =
    with_map (λ m. record m { tcpudp_socket = bits_or 8 m.tcpudp_socket (socket_bit_map id) })

unfoldable pub mark_ssl : ℕ → Ltem → Ltem
mark_ssl id = with_map (λ m. record m { ssl_socket = bits_or 8 m.ssl_socket (socket_bit_map id) })

-- the `switch` of `sckt_open`; whether the command was invoked is not looked at
unfoldable pub start_open : ℕ → ℕ → Bytes → ℕ → M Bool
start_open id protocol host rmt_port s =
    if protocol == protocol_udp
    then try_invoke_adv
        (open_cmd (codes "AT+QIOPEN=") (codes "UDP") s.data_context id host rmt_port) action_timeout
        (some (tcpudp_open_complete_parser s.low_mem)) (mark_tcpudp id s)
    else if protocol == protocol_tcp
    then try_invoke_adv
        (open_cmd (codes "AT+QIOPEN=") (codes "TCP") s.data_context id host rmt_port) action_timeout
        (some (tcpudp_open_complete_parser s.low_mem)) (mark_tcpudp id s)
    else if protocol == protocol_ssl
    then try_invoke_adv
        (open_cmd (codes "AT+QSSLOPEN=") (codes "SSL") s.data_context id host rmt_port)
        action_timeout (some (ssl_open_complete_parser s.low_mem)) (mark_ssl id s)
    else ret true s

-- A failed open: the mask is a variable of an inner block that is initialised with itself shifted.
unfoldable pub unmark_failed : ℕ → Ltem → Ltem
unmark_failed id s =
    let mask = u8 (s.garbage * 2 ^ id) in
    with_map
      (λ m. record m {
        tcpudp_socket = bits_and_not 8 m.tcpudp_socket mask;
        ssl_socket = bits_and_not 8 m.ssl_socket mask;
      })
      s

-- the control after a successful open, or the maps after one that failed
unfoldable pub finish_open : ℕ → ℕ → ℕ → ℕ → M (Unit {0})
finish_open id protocol receiver code s =
    if code == result_success || code == socket_result_prevopen
    then with_ctrl id
        (λ c. record c {
          protocol = protocol;
          socket_id = id;
          open_flag = true;
          receiver_func = some receiver;
        })
        s
    else ret tt (unmark_failed id s)

-- the early return of `sckt_open`, behind a read of the control where the socket is one of the six
unfoldable pub open_refused : ℕ → ℕ → Option ℕ → M Bool
open_refused id protocol receiver s =
    if leb socket_cnt id then ret true s else elim (get_ctrl id s) [
      | stop w ↦ stop w
      | ret c s' ↦
          ret
            (not (c.protocol == protocol_void)
              || ltb protocol_any_ip protocol
              || elim receiver [ none ↦ true | some r ↦ false ])
            s'
    ]
