-- ===== src/Mqtt/Topics.antt =====
-- `mqtt_subscribe`, `mqtt_unsubscribe` and `mqtt_publish` of src/ltemc-mqtt.c.
use cr_lte_modem.Base.{
  ℕ, ◌+◌, ◌-◌, ◌^◌, Bool, true, false, not, Option, none, some, List, [], ◌∷◌, ◌++◌, leb, ◌==◌,
  if◌then◌else◌, length, get_elem?, get_or, set, take, bits_or, bits_and_not, u8, u16,
}
use cr_lte_modem.CString.{Bytes, codes, strcmp_eq, strncmp_eq, decimal, snprintf}
use cr_lte_modem.Parser.{result_success, result_badrequest, result_conflict, tx_data_prompt_parser}
use cr_lte_modem.Device.{Subscription, Mqtt, Ltem, M, ret, stop, undefined, ◌>>◌, pure}
use cr_lte_modem.Command.{
  action_timeout, try_invoke, try_invoke_adv, send_raw_with_eots, exit_text_mode,
}
use cr_lte_modem.Command.Poll.{await_result}
use cr_lte_modem.Mqtt.{
  mqtt_socket_id, mqtt_action_cmd_sz, with_mqtt, get_mqtt, clear_subscription,
  subscribe_complete_parser, publish_complete_parser,
}

abbrev pub mqtt_topic_name_sz : ℕ
mqtt_topic_name_sz = 90

abbrev pub mqtt_topic_pubcmd_ovrhd_sz : ℕ
mqtt_topic_pubcmd_ovrhd_sz = 27

abbrev pub mqtt_topic_pubbuf_sz : ℕ
mqtt_topic_pubbuf_sz = 437

abbrev pub mqtt_publish_timeout : ℕ
mqtt_publish_timeout = 2500

abbrev pub no_slot : ℕ
no_slot = 255

-- the last byte of a topic
abbrev pub last_byte : Bytes → ℕ
last_byte topic = get_or topic (length topic - 1) 0

-- the name that the table keeps: the topic without a wildcard at its end
unfoldable pub entry_name : Bytes → Bytes
entry_name topic = if last_byte topic == b'#' then take (length topic - 1) topic else topic

-- the loops over the table: the first entry with a name, and the first that is free
unfoldable pub find_topic : Bytes → List Subscription → ℕ → ℕ
find_topic name [] i = no_slot
find_topic name (u ∷ subs) i =
    let rest = find_topic name subs (i + 1) in if strcmp_eq u.topic_name name then i else rest

-- the free entry filled, and its index
unfoldable pub add_topic : Bytes → Bool → ℕ → List Subscription → ℕ → List Subscription × ℕ
add_topic name wild receiver [] i = ([], no_slot)
add_topic name wild receiver (u ∷ subs) i =
    let rest = add_topic name wild receiver subs (i + 1) in
    elim u.topic_name [
      | [] ↦ (
        record u {
          topic_name = name;
          wildcard = if wild then b'#' else u.wildcard;
          receiver_func = some receiver;
        }
            ∷ subs,
        i,
      )
      | c ∷ cs ↦ (u ∷ rest.0, rest.1)
    ]

-- the entry of a topic, present or added, and the table after
unfoldable pub claim_topic : Bytes → ℕ → List Subscription → List Subscription × ℕ
claim_topic topic receiver subs =
    let name = entry_name topic in
    let found = find_topic name subs 0 in
    if found == no_slot
    then add_topic name (last_byte topic == b'#') receiver subs 0
    else (subs, found)

abbrev pub give_back : ℕ → Mqtt → Mqtt
give_back slot m = record m {
  subscriptions = elim (get_elem? m.subscriptions slot) [
    | none ↦ m.subscriptions
    | some u ↦ set m.subscriptions slot (record u { topic_name = [] })
  ];
}

abbrev pub with_subscribe : (ℕ → ℕ) → Ltem → Ltem
with_subscribe f s = record s {
  iop = record (s.iop) {
    peer_type_map = record (s.iop.peer_type_map) {
      mqtt_subscribe = f s.iop.peer_type_map.mqtt_subscribe;
    };
  };
}

-- the subscribe command for an entry
unfoldable pub send_subscribe : ℕ → Bytes → ℕ → ℕ → ℕ → M ℕ
send_subscribe fuel topic qos slot msg_id s =
    elim (try_invoke_adv
      (snprintf mqtt_action_cmd_sz (
        codes "AT+QMTSUB="
        ++ decimal mqtt_socket_id
        ++ codes ","
        ++ decimal msg_id
        ++ codes ",\""
        ++ topic
        ++ codes "\","
        ++ decimal qos))
      15000 (some (subscribe_complete_parser s.low_mem)) s) [
        | stop w ↦ stop w
        | ret false t ↦ ret result_badrequest t
        | ret true t ↦ elim (await_result fuel true t) [
          | stop w ↦ stop w
          | ret r u ↦
              if r.status_code == result_success
              then ret (r.status_code) (with_subscribe (λ x. bits_or 8 x (u8 (2 ^ slot))) u)
              else (do with_mqtt (give_back slot); pure result_badrequest) u
        ]
      ]

-- the table and the message id of a subscription, and its command
unfoldable pub subscribe_at : ℕ → Bytes → ℕ → ℕ → Mqtt → M ℕ
subscribe_at fuel topic qos receiver m s =
    let (subs, slot) = claim_topic topic receiver m.subscriptions in
    let id = u16 (m.msg_id + 1) in
    if slot == no_slot
    then ret result_conflict s
    else send_subscribe fuel topic qos slot id
        (record s { mqtt = some (record m { subscriptions = subs; msg_id = id }) })

-- `mqtt_subscribe`; of an empty topic the byte before it is read
unfoldable pub mqtt_subscribe : ℕ → Bytes → ℕ → Option ℕ → M ℕ
mqtt_subscribe fuel topic qos none s = ret result_badrequest s
mqtt_subscribe fuel [] qos (some f) s = stop undefined
mqtt_subscribe fuel (c ∷ topic) qos (some f) s =
    if leb mqtt_topic_name_sz (u16 (length (c ∷ topic)))
    then ret result_badrequest s
    else elim (get_mqtt s) [ stop w ↦ stop w | ret m t ↦ subscribe_at fuel (c ∷ topic) qos f m t ]

-- The loop of `mqtt_unsubscribe`: the first entry whose name begins with the topic is cleared. (The
-- test for a wildcard compares a byte with the address of a string, and never holds.)
unfoldable pub drop_topic : Bytes → List Subscription → ℕ → List Subscription × ℕ
drop_topic topic [] i = ([], no_slot)
drop_topic topic (u ∷ subs) i =
    let rest = drop_topic topic subs (i + 1) in
    if strncmp_eq u.topic_name topic (u16 (length topic))
    then (clear_subscription u ∷ subs, i)
    else (u ∷ rest.0, rest.1)

unfoldable pub unsubscribe_text : ℕ → Bytes
unsubscribe_text msg_id =
    codes "AT+QMTUNS="
    ++ decimal mqtt_socket_id
    ++ codes ","
    ++ decimal msg_id
    ++ codes ",\"<topic1>\""

-- The command, written with a bound of 300 to an array of 27 bytes; a shift by 255 is undefined.
unfoldable pub send_unsubscribe : ℕ → ℕ → ℕ → M ℕ
send_unsubscribe fuel slot msg_id s =
    if leb mqtt_topic_pubcmd_ovrhd_sz (length (unsubscribe_text msg_id))
    then stop undefined
    else elim (try_invoke (unsubscribe_text msg_id) s) [
      | stop w ↦ stop w
      | ret false t ↦ ret result_badrequest t
      | ret true t ↦ elim (await_result fuel true t) [
        | stop w ↦ stop w
        | ret r u ↦
            if not (r.status_code == result_success)
            then ret (r.status_code) u
            else if slot == no_slot
            then stop undefined
            else ret (r.status_code) (with_subscribe (λ x. bits_and_not 8 x (2 ^ slot)) u)
      ]
    ]

-- `mqtt_unsubscribe`
unfoldable pub mqtt_unsubscribe : ℕ → Bytes → M ℕ
mqtt_unsubscribe fuel topic s = elim (get_mqtt s) [
  | stop w ↦ stop w
  | ret m t ↦
      let (subs, slot) = drop_topic topic m.subscriptions 0 in
      let id = u16 (m.msg_id + 1) in
      send_unsubscribe fuel slot id
        (record t { mqtt = some (record m { subscriptions = subs; msg_id = id }) })
]

-- the message behind the prompt, ended by a Ctrl-Z; any failure leaves text mode
unfoldable pub send_message : ℕ → Bytes → M ℕ
send_message fuel message s =
    elim (send_raw_with_eots message (u16 (length message)) (codes "\u{1a}") mqtt_publish_timeout
      (some (publish_complete_parser s.low_mem)) s) [
        | stop w ↦ stop w
        | ret n t ↦ elim (await_result fuel true t) [
          | stop w ↦ stop w
          | ret r u ↦ ret (r.status_code) u
        ]
      ]

unfoldable pub leave_text_mode : ℕ → M ℕ
leave_text_mode code s =
    if code == result_success
    then ret code s
    else elim (exit_text_mode s) [ stop w ↦ stop w | ret n t ↦ ret code t ]

unfoldable pub publish_message : ℕ → Bytes → M ℕ
publish_message fuel message s = elim (await_result fuel false s) [
  | stop w ↦ stop w
  | ret r t ↦
      if r.status_code == result_success
      then elim (send_message fuel message t) [
        | stop w ↦ stop w
        | ret code u ↦ leave_text_mode code u
      ]
      else leave_text_mode r.status_code t
]

-- the message id of a publish: none for quality 0
unfoldable pub publish_id : ℕ → Mqtt → ℕ × Mqtt
publish_id qos m =
    if u8 qos == 0 then (0, m) else (u16 (m.msg_id + 1), record m { msg_id = u16 (m.msg_id + 1) })

-- `mqtt_publish`
unfoldable pub mqtt_publish : ℕ → Bytes → ℕ → Bytes → M ℕ
mqtt_publish fuel topic qos message s = elim (get_mqtt s) [
  | stop w ↦ stop w
  | ret m t ↦
      let (id, m') = publish_id qos m in
      elim (try_invoke_adv
        (snprintf mqtt_topic_pubbuf_sz (
          codes "AT+QMTPUB="
          ++ decimal mqtt_socket_id
          ++ codes ","
          ++ decimal id
          ++ codes ","
          ++ decimal qos
          ++ codes ",0,\""
          ++ topic
          ++ codes "\""))
        action_timeout (some tx_data_prompt_parser) (record t { mqtt = some m' })) [
          | stop w ↦ stop w
          | ret false u ↦ ret result_badrequest u
          | ret true u ↦ publish_message fuel message u
        ]
]
