-- ===== src/Mqtt/Connect.antt =====
-- `mqtt_connect` of src/ltemc-mqtt.c.
use cr_lte_modem.Mqtt.Open.{configure}
use cr_lte_modem.Base.{ℕ, true, false, ◌||◌, some, ◌++◌, ◌==◌, if◌then◌else◌}
use cr_lte_modem.CString.{Bytes, codes, decimal, snprintf}
use cr_lte_modem.Parser.{result_success, result_badrequest, result_error, result_unavailable}
use cr_lte_modem.Device.{M, ret, stop, ◌>>◌, pure}
use cr_lte_modem.Command.{try_invoke_adv}
use cr_lte_modem.Command.Poll.{await_result}
use cr_lte_modem.Mqtt.{
  connect_complete_parser, get_mqtt, mqtt_connect_cmd_sz, mqtt_socket_id, result_forbidden,
  set_connection, set_state, status_connected,
}

-- the `switch` of `mqtt_connect`, but for success
unfoldable pub connect_code : ℕ → ℕ
connect_code code =
    if code == 901 || code == 902 || code == 904
    then result_badrequest
    else if code == 903
    then result_unavailable
    else if code == 905
    then result_forbidden
    else result_error

unfoldable pub send_connect : ℕ → Bytes → Bytes → Bytes → M ℕ
send_connect fuel client user password s =
    elim (try_invoke_adv
      (snprintf mqtt_connect_cmd_sz (
        codes "AT+QMTCONN="
        ++ decimal mqtt_socket_id
        ++ codes ",\""
        ++ client
        ++ codes "\",\""
        ++ user
        ++ codes "\",\""
        ++ password
        ++ codes "\""))
      60000 (some (connect_complete_parser s.low_mem)) s) [
        | stop w ↦ stop w
        | ret false t ↦ ret result_badrequest t
        | ret true t ↦ elim (await_result fuel true t) [
          | stop w ↦ stop w
          | ret r u ↦
              if r.status_code == result_success
              then (do set_state status_connected; pure result_success) (set_connection 2 u)
              else ret (connect_code r.status_code) u
        ]
      ]

-- `mqtt_connect`
unfoldable pub mqtt_connect : ℕ → Bytes → Bytes → Bytes → ℕ → M ℕ
mqtt_connect fuel client user password clean s = elim (get_mqtt s) [
  | stop w ↦ stop w
  | ret m t ↦
      if m.state == status_connected
      then ret result_success t
      else elim (configure fuel
          (codes "AT+QMTCFG=\"session\"," ++ decimal mqtt_socket_id ++ codes "," ++ decimal clean)
          t) [
            | stop w ↦ stop w
            | ret false u ↦ ret result_error u
            | ret true u ↦ send_connect fuel client user password u
          ]
]
