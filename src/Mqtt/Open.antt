-- ===== src/Mqtt/Open.antt =====
-- `mqtt_status` and `mqtt_open` of src/ltemc-mqtt.c.
use cr_lte_modem.Base.{
  ℕ, ◌+◌, Bool, true, false, not, ◌||◌, none, some, List, [], ◌∷◌, ◌++◌, leb, ◌==◌, if◌then◌else◌,
  length, drop, u16,
}
use cr_lte_modem.CString.{Bytes, codes, strchr, strncmp_eq, decimal, snprintf}
use cr_lte_modem.Parser.{
  Ptr, result_success, result_badrequest, result_notfound, result_conflict, result_error,
}
use cr_lte_modem.Device.{Mqtt, M, ret, stop, ◌>>=◌, ◌>>◌, pure}
use cr_lte_modem.Command.{try_invoke, try_invoke_adv}
use cr_lte_modem.Command.Poll.{response_text, await_result}
use cr_lte_modem.Mqtt.{
  connect_status_parser, get_mqtt, mqtt_action_cmd_sz, mqtt_socket_id, mqtt_version_311,
  open_complete_parser, open_status_parser, result_gone, set_connection, set_state,
  ssl_version_none, status_closed, status_connected, status_open,
}

-- whether the response names the host behind its first double quote
unfoldable pub host_matches : Bytes → Bytes → Bool
host_matches host text = elim (strchr text b'"') [
  | none ↦ false
  | some i ↦ strncmp_eq (drop (i + 1) text) host (length host)
]

-- behind a successful answer to the open query
unfoldable pub check_host : Bytes → Ptr → M (Unit {0})
check_host [] p s = set_state status_open s
check_host (h ∷ host) p s =
    set_state (if host_matches (h ∷ host) (response_text p s) then status_open else status_closed) s

-- the first query of `mqtt_status`: whether the client is connected
unfoldable pub query_connect : ℕ → M (Unit {0})
query_connect fuel s =
    elim (try_invoke_adv (codes "AT+QMTCONN?") 5000 (some (connect_status_parser s.low_mem)) s) [
      | stop w ↦ stop w
      | ret false t ↦ ret tt t
      | ret true t ↦ elim (await_result fuel true t) [
        | stop w ↦ stop w
        | ret r u ↦
            if r.status_code == result_success then set_state status_connected u else ret tt u
      ]
    ]

-- the wait of the second one
unfoldable pub await_open : ℕ → Bytes → M (Unit {0})
await_open fuel host s = elim (await_result fuel true s) [
  | stop w ↦ stop w
  | ret r t ↦ if r.status_code == result_success then check_host host r.response t else ret tt t
]

-- The second query. Where the client is not connected the condition is decided before its command is
-- invoked, and the wait is for a result of what was sent before.
unfoldable pub query_open : ℕ → Bytes → Mqtt → M (Unit {0})
query_open fuel host m s =
    if not (m.state == status_connected) then await_open fuel host s else elim host [
      | [] ↦ ret tt s
      | h ∷ hs ↦
          elim (try_invoke_adv (codes "AT+QMTOPEN?") 5000 (some (open_status_parser s.low_mem)) s) [
            | stop w ↦ stop w
            | ret false t ↦ ret tt t
            | ret true t ↦ await_open fuel (h ∷ hs) t
          ]
    ]

unfoldable pub refresh_status : ℕ → Bytes → M ℕ
refresh_status fuel host = do
  set_state status_closed
  query_connect fuel
  get_mqtt >>= λ m. query_open fuel host m
  get_mqtt >>= λ m. pure m.state

-- `mqtt_status`
unfoldable pub mqtt_status : ℕ → Bytes → Bool → M ℕ
mqtt_status fuel host force =
    if force
    then refresh_status fuel host
    else elim host [ [] ↦ get_mqtt >>= λ m. pure m.state | h ∷ hs ↦ refresh_status fuel (h ∷ hs) ]

-- a setting command: false where it was invoked and failed
unfoldable pub configure : ℕ → Bytes → M Bool
configure fuel cmd s = elim (try_invoke (snprintf mqtt_action_cmd_sz cmd) s) [
  | stop w ↦ stop w
  | ret false t ↦ ret true t
  | ret true t ↦ elim (await_result fuel true t) [
    | stop w ↦ stop w
    | ret r u ↦ ret (r.status_code == result_success) u
  ]
]

-- one setting after another, up to the first that fails
unfoldable pub configure_all : ℕ → List Bytes → M Bool
configure_all fuel [] s = ret true s
configure_all fuel (cmd ∷ cmds) s = elim (configure fuel cmd s) [
  | stop w ↦ stop w
  | ret false t ↦ ret false t
  | ret true t ↦ configure_all fuel cmds t
]

-- the settings of `mqtt_open` for an SSL and an MQTT version
unfoldable pub open_settings : ℕ → ℕ → List Bytes
open_settings ssl version =
    (if ssl == ssl_version_none
      then []
      else (codes "AT+QSSLCFG=\"sslversion\","
          ++ decimal mqtt_socket_id
          ++ codes ","
          ++ decimal ssl)
        ∷ (codes "AT+QMTCFG=\"ssl\","
            ++ decimal mqtt_socket_id
            ++ codes ",1,"
            ++ decimal mqtt_socket_id)
        ∷ [])
    ++ (if version == mqtt_version_311
        then (codes "AT+QMTCFG=\"version\"," ++ decimal mqtt_socket_id ++ codes ",4") ∷ []
        else [])

-- the `switch` of `mqtt_open`, but for success
unfoldable pub open_code : ℕ → ℕ
open_code code =
    if code == 899 || code == 903 || code == 905
    then result_gone
    else if code == 901
    then result_badrequest
    else if code == 902
    then result_conflict
    else if code == 904
    then result_notfound
    else result_error

-- the open command; where it is not invoked the function ends without a value
unfoldable pub send_open : ℕ → Bytes → ℕ → M ℕ
send_open fuel host port s =
    elim (try_invoke_adv
      (snprintf mqtt_action_cmd_sz (
        codes "AT+QMTOPEN="
        ++ decimal mqtt_socket_id
        ++ codes ",\""
        ++ host
        ++ codes "\","
        ++ decimal port))
      45000 (some (open_complete_parser s.low_mem)) s) [
        | stop w ↦ stop w
        | ret false t ↦ ret (u16 t.garbage) t
        | ret true t ↦ elim (await_result fuel true t) [
          | stop w ↦ stop w
          | ret r u ↦
              if r.status_code == result_success
              then (do set_state status_open; pure result_success) (set_connection 1 u)
              else ret (open_code r.status_code) u
        ]
      ]

-- `mqtt_open`
unfoldable pub mqtt_open : ℕ → Bytes → ℕ → ℕ → ℕ → M ℕ
mqtt_open fuel host port ssl version s = elim (mqtt_status fuel host true s) [
  | stop w ↦ stop w
  | ret state t ↦
      if leb status_open state
      then ret result_success t
      else elim (configure_all fuel (open_settings ssl version) t) [
        | stop w ↦ stop w
        | ret false u ↦ ret result_error u
        | ret true u ↦ send_open fuel host port u
      ]
]
