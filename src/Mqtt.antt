-- ===== src/Mqtt.antt =====
-- src/ltemc-mqtt.c: the MQTT client. Here the service, its parsers and `mqtt_close`; `Open` has the status
-- and the opening of a connection, `Connect` its authentication, `Topics` subscriptions and publishing,
-- `Work` the delivery of messages.
pub mod Connect
pub mod Open
pub mod Topics
pub mod Work
pub mod Decode
pub mod Fuel
pub mod Close
pub mod Table
mod Tests
use cr_lte_modem.Base.{
  ℕ, zero, suc, ◌+◌, ◌-◌, ◌*◌, ◌/◌, ◌%◌, ◌^◌, ◌≤◌, ◌<◌, min, ◌≡◌, refl, sym, ap, ap₂, ◌∙◌, ◌≢◌, ◌↔◌,
  ◌⊎◌, inl, inr, Bool, true, false, not, ◌&&◌, ◌||◌, Option, none, some, List, [], ◌∷◌, ◌++◌, map,
  append-nil, append_assoc, arith, ltb, leb, ◌==◌, if◌then◌else◌, ltb→lt, lt→ltb, leb→le, ==_iff,
  if-elim, Bool-cases, Option-cases, length, get_elem?, get_or, set, take, drop, replicate,
  length-append, length-set, length-take, length-drop, length-replicate, take-append-drop,
  take-append, drop-append, drop-append_le, drop-add, drop-append_add, get_elem?-eq-get_or,
  get_or-set_self, get_or-set_ne, take-nil, List-cases, bits_or, bits_and, bits_and_not, u8, u16,
  u32, sub16, sub32,
}
use cr_lte_modem.CString.{Bytes, codes, c_str, strchr, strncmp_eq, decimal, snprintf}
use cr_lte_modem.Parser.{
  Ptr, at, low, deref, Parser, result_success, result_badrequest, result_notfound, result_conflict,
  result_error, result_unavailable, result_pending, service_response_parser,
}
use cr_lte_modem.Device.{
  RxBuf, PeerTypeMap, Iop, Subscription, Mqtt, Ltem, M, Outcome, ret, stop, undefined, ◌>>=◌, ◌>>◌,
  pure, get, no_buffer, peer_none, peer_mqtt,
}
use cr_lte_modem.Command.{try_invoke, try_invoke_adv}
use cr_lte_modem.Command.Poll.{AtcmdResult, await_result}

abbrev pub mqtt_socket_id : ℕ
mqtt_socket_id = 5

abbrev pub mqtt_topic_maxcnt : ℕ
mqtt_topic_maxcnt = 2

abbrev pub mqtt_action_cmd_sz : ℕ
mqtt_action_cmd_sz = 81

abbrev pub mqtt_connect_cmd_sz : ℕ
mqtt_connect_cmd_sz = 300

abbrev pub result_forbidden : ℕ
result_forbidden = 403

abbrev pub result_gone : ℕ
result_gone = 410

-- `mqttStatus_t`
abbrev pub status_closed : ℕ
status_closed = 0

abbrev pub status_open : ℕ
status_open = 1

abbrev pub status_connected : ℕ
status_connected = 2

abbrev pub ssl_version_none : ℕ
ssl_version_none = 255

abbrev pub mqtt_version_311 : ℕ
mqtt_version_311 = 4

-- `mqtt_create`
unfoldable pub mqtt_create : M (Unit {0})
mqtt_create s =
    let empty : Subscription = record { topic_name = []; wildcard = 0; receiver_func = none } in
    ret tt (record s {
      mqtt = some (record {
        state = status_closed;
        msg_id = 1;
        subscriptions = replicate mqtt_topic_maxcnt empty;
        first_chunk_begin = 0;
        first_chunk_sz = 0;
        data_buffer_indx = no_buffer;
      });
    })

-- `s_mqttOpenStatusParser`, `s_mqttOpenCompleteParser`, `s_mqttConnectCompleteParser`,
-- `s_mqttSubscribeCompleteParser`, `s_mqttPublishCompleteParser`
unfoldable pub open_status_parser : Bytes → Parser
open_status_parser low_mem = service_response_parser low_mem (codes "+QMTOPEN: ") 0

unfoldable pub open_complete_parser : Bytes → Parser
open_complete_parser low_mem = service_response_parser low_mem (codes "+QMTOPEN: ") 1

unfoldable pub connect_complete_parser : Bytes → Parser
connect_complete_parser low_mem = service_response_parser low_mem (codes "+QMTCONN: ") 2

unfoldable pub subscribe_complete_parser : Bytes → Parser
subscribe_complete_parser low_mem = service_response_parser low_mem (codes "+QMTSUB: ") 2

unfoldable pub publish_complete_parser : Bytes → Parser
publish_complete_parser low_mem = service_response_parser low_mem (codes "+QMTPUB: ") 2

-- `s_mqttConnectStatusParser`: status 3 stands for connected
unfoldable pub connect_status_parser : Bytes → Parser
connect_status_parser low_mem response endptr =
    let (code, end) = service_response_parser low_mem (codes "+QMTCONN: ") 1 response endptr in
    (
      if code == result_pending
          then result_pending
          else if code == 203
          then result_success
          else result_unavailable,
      end,
    )

-- `mqttPtr->...` changed, and read; without `mqtt_create` it is a use of NULL
unfoldable pub update_mqtt : (Mqtt → Mqtt) → Option Mqtt → M (Unit {0})
update_mqtt f none s = stop undefined
update_mqtt f (some m) s = ret tt (record s { mqtt = some (f m) })

unfoldable pub with_mqtt : (Mqtt → Mqtt) → M (Unit {0})
with_mqtt f s = update_mqtt f s.mqtt s

unfoldable pub get_mqtt : M Mqtt
get_mqtt s = elim s.mqtt [ none ↦ stop undefined | some m ↦ ret m s ]

abbrev pub set_state : ℕ → M (Unit {0})
set_state n = with_mqtt (λ m. record m { state = n })

abbrev pub set_connection : ℕ → Ltem → Ltem
set_connection n s = record s {
  iop = record (s.iop) { peer_type_map = record (s.iop.peer_type_map) { mqtt_connection = n } };
}

-- the data buffers of MQTT released; a slot that holds NULL is dereferenced all the same
unfoldable pub release_buffers : List (Option RxBuf) → Option (List (Option RxBuf))
release_buffers [] = some []
release_buffers (none ∷ bufs) = none
release_buffers (some b ∷ bufs) = elim (release_buffers bufs) [
  | none ↦ none
  | some rest ↦
      some
        (some (if b.data_peer == peer_mqtt then record b { data_peer = peer_none } else b) ∷ rest)
]

abbrev pub clear_subscription : Subscription → Subscription
clear_subscription u = record u { topic_name = []; receiver_func = none }

-- the close command, which is sent where the state says open
unfoldable pub send_close : ℕ → M (Unit {0})
send_close fuel s =
    elim (try_invoke (snprintf 80 (codes "AT+QMTCLOSE=" ++ decimal mqtt_socket_id)) s) [
      | stop w ↦ stop w
      | ret false t ↦ ret tt t
      | ret true t ↦ elim (await_result fuel true t) [ stop w ↦ stop w | ret r u ↦ ret tt u ]
    ]

unfoldable pub close_if_open : ℕ → Mqtt → M (Unit {0})
close_if_open fuel m s = if leb status_open m.state then send_close fuel s else ret tt s

-- the state of IOP at a close
unfoldable pub put_buffers : Option (List (Option RxBuf)) → M (Unit {0})
put_buffers none s = stop undefined
put_buffers (some bufs) s =
    let s' = set_connection 0 s in
    ret tt (record s' { iop = record (s'.iop) { rx_data_bufs = bufs } })

unfoldable pub close_iop : M (Unit {0})
close_iop s = put_buffers (release_buffers s.iop.rx_data_bufs) s

-- the table emptied
unfoldable pub clear_table : M (Unit {0})
clear_table = with_mqtt (λ m. record m { subscriptions = map clear_subscription m.subscriptions })

-- what `mqtt_close` does once the state says closed
unfoldable pub finish_close : ℕ → M (Unit {0})
finish_close fuel = do close_iop; clear_table; get_mqtt >>= λ m. close_if_open fuel m

-- `mqtt_close`: its last line compares instead of assigning
unfoldable pub mqtt_close : ℕ → M (Unit {0})
mqtt_close fuel = do set_state status_closed; finish_close fuel
