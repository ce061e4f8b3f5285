-- ===== src/Mqtt/Work.antt =====
-- `mqtt_doWork` and `s_urlDecode` of src/ltemc-mqtt.c: a received message is handed to the receiver of
-- its topic.
use cr_lte_modem.Base.{
  ℕ, zero, suc, ◌+◌, ◌-◌, ◌&&◌, ◌||◌, Option, none, some, List, [], ◌∷◌, ◌++◌, ltb, leb, ◌==◌,
  if◌then◌else◌, length, get_or, set, take, drop, u16,
}
use cr_lte_modem.CString.{Bytes, codes, c_str, strchr, strncmp_eq}
use cr_lte_modem.Device.{
  RxBuf, Subscription, Mqtt, mqtt_message, Ltem, M, ret, stop, undefined, databuf_sz, no_buffer,
}
use cr_lte_modem.Iop.Rx.{slot, reset_data_buffer}

abbrev pub mqtt_topic_offset_max : ℕ
mqtt_topic_offset_max = 24

-- the character that the second digit behind a `%` stands for; the first digit is not looked at
unfoldable pub sub_key : ℕ → Option ℕ
sub_key c =
    if leb 0x30 c && leb c 0x39
    then some (c - 0x30)
    else if leb 0x41 c && leb c 0x46
    then some (c - 0x37)
    else if leb 0x61 c && leb c 0x66
    then some (c - 0x57)
    else none

abbrev pub sub_table : Bytes
sub_table = codes " !\"#$%&'()*+,-./"

-- A round of the loop of `s_urlDecode`: how far `i` goes on, and the storage with the byte at `dest`. A
-- `%` with no digit two bytes on leaves the byte at `dest` as it is. (Bytes behind the storage read 0.)
unfoldable pub url_step : ℕ → ℕ → Bytes → ℕ × Bytes
url_step i dest mem =
    let c = get_or mem i 0 in
    if c == b'%'
    then elim (sub_key (get_or mem (i + 2) 0)) [
      | none ↦ (1, mem)
      | some k ↦ (3, set mem dest (get_or sub_table k 0))
    ]
    else (1, set mem dest c)

-- The loop, in place: `i` reads, `dest` writes. The fuel is the number of rounds, of which there are at
-- most `len`.
unfoldable pub url_loop : ℕ → ℕ → ℕ → ℕ → Bytes → Bytes × ℕ
url_loop zero len i dest mem = (mem, dest)
url_loop (suc n) len i dest mem =
    let (by, mem') = url_step i dest mem in
    let rest = url_loop n len (i + by) (dest + 1) mem' in
    if leb len i || get_or mem i 0 == 0 then (mem, dest) else rest

-- `s_urlDecode`: a zero goes one byte behind the end of the text; none where that is past the storage
unfoldable pub url_decode : Bytes → ℕ → Option Bytes
url_decode mem len =
    let (mem', dest) = url_loop len len 0 0 mem in
    if ltb (dest + 1) (length mem') then some (set mem' (dest + 1) 0) else none

-- the first subscription whose name begins the topic
unfoldable pub match_topic : Bytes → List Subscription → Option Subscription
match_topic topic [] = none
match_topic topic (u ∷ subs) =
    let rest = match_topic topic subs in
    if strncmp_eq u.topic_name topic (u16 (length u.topic_name)) then some u else rest

-- the receiver called, if a subscription matches; a call through NULL is undefined
unfoldable pub call_subscriber : Bytes → Bytes → Option Subscription → M (Unit {0})
call_subscriber topic message none s = ret tt s
call_subscriber topic message (some u) s = elim u.receiver_func [
  | none ↦ stop undefined
  | some f ↦ ret tt (record s {
    deliveries =
        s.deliveries ++ mqtt_message f u.topic_name (drop (length u.topic_name) topic) message ∷ [];
  })
]

-- `memchr` from an offset on, over a number of bytes
abbrev pub find_from : Bytes → ℕ → ℕ → ℕ → Option ℕ
find_from mem from len c = elim (strchr (take len (drop from mem)) c) [
  | none ↦ none
  | some i ↦ some (from + i)
]

-- The topic and the message in a buffer, as strings (none where it is malformed), and the storage with
-- their ends marked. The search for the end of the topic runs over a length that is computed from an
-- uninitialised variable.
unfoldable pub split_message : Bytes → ℕ → ℕ → Option (Bytes × Bytes) × Bytes
split_message mem head garbage = elim (find_from mem 0 mqtt_topic_offset_max b'"') [
  | none ↦ (none, mem)
  | some q ↦ elim (find_from mem (q + 1) garbage b'"') [
    | none ↦ (none, mem)
    | some e ↦
        let mem' = set mem e 0 in
        elim (find_from mem' (e + 3) (if ltb head e then length mem else head - e) 13) [
          | none ↦ (none, mem')
          | some r ↦
              let mem'' = set mem' (r - 1) 0 in
              (some (c_str (drop (q + 1) mem''), c_str (drop (e + 3) mem'')), mem'')
        ]
  ]
]

abbrev pub with_mem : ℕ → RxBuf → Bytes → Ltem → Ltem
with_mem i b mem s = record s {
  iop = record (s.iop) { rx_data_bufs = set s.iop.rx_data_bufs i (some (record b { mem = mem })) };
}

-- the part up to the label `discardBuffer`
unfoldable pub hand_over : Mqtt → RxBuf → M (Unit {0})
hand_over m b s = elim (url_decode b.mem databuf_sz) [
  | none ↦ stop undefined
  | some mem ↦
      let (parts, mem') = split_message mem b.head s.garbage in
      let s' = with_mem m.data_buffer_indx b mem' s in
      elim parts [
        | none ↦ ret tt s'
        | some (topic, message) ↦
            call_subscriber topic message (match_topic topic m.subscriptions) s'
      ]
]

-- behind the label
unfoldable pub discard_message : ℕ → M (Unit {0})
discard_message i s = elim s.mqtt [
  | none ↦ stop undefined
  | some m ↦
      reset_data_buffer i (record s { mqtt = some (record m { data_buffer_indx = no_buffer }) })
]

unfoldable pub work_on : Mqtt → M (Unit {0})
work_on m s =
    if m.data_buffer_indx == no_buffer
    then ret tt s
    else elim (slot s.iop.rx_data_bufs m.data_buffer_indx) [
      | none ↦ stop undefined
      | some b ↦ elim (hand_over m b s) [
        | stop w ↦ stop w
        | ret _ t ↦ discard_message m.data_buffer_indx t
      ]
    ]

-- `mqtt_doWork`
unfoldable pub mqtt_do_work : M (Unit {0})
mqtt_do_work s = elim s.mqtt [ none ↦ ret tt s | some m ↦ work_on m s ]
