-- ===== src/Mqtt/Tests.antt =====
-- The MQTT client on the sample device: its properties at concrete inputs.
use cr_lte_modem.Base.{◌≡◌, refl, some, [], ◌∷◌, ◌++◌, arith, replicate}
use cr_lte_modem.CString.{codes, strcmp_eq, c_str, strchr}
use cr_lte_modem.Device.{Mqtt, Ltem, peer_mqtt}
use cr_lte_modem.Mqtt.{mqtt_close}
use cr_lte_modem.Mqtt.Topics.{claim_topic, entry_name, find_topic, add_topic}
use cr_lte_modem.Mqtt.Work.{sub_key, url_step, url_loop, url_decode, split_message}
use cr_lte_modem.Mqtt.Decode.{Plain, url_decode-Plain}
use cr_lte_modem.Mqtt.Close.{Closes, mqtt_close-Closes}
use cr_lte_modem.Bench.{small_rx, sample_iop, sample_mqtt, no_subscription, sample}

-- `%2F` becomes a slash; the terminator goes one byte too far, so a byte of the text stays behind it.
decoded :
    url_decode (codes "a%2Fb" ++ replicate 4 0) 9
    ≡ some (codes "a/b" ++ codes "F" ++ 0 ∷ replicate 4 0)
unfolding url_decode url_loop url_step sub_key
decoded = refl

-- a message in its buffer
split : split_message (codes "+QMTRECV: 5,0,\"t/x\",\"hello\"\r\n") 29 40 ≡ (
  some (codes "t/x", codes "hello"),
  codes "+QMTRECV: 5,0,\"t/x" ++ 0 ∷ codes ",\"hello" ++ 0 ∷ codes "\r\n",
)
unfolding split_message strchr c_str
split = refl

-- a wildcard topic takes the first free entry, without its last byte
added : claim_topic (codes "t/#") 7 sample_mqtt.subscriptions ≡ (
  record { topic_name = codes "t/"; wildcard = b'#'; receiver_func = some 7 }
      ∷ no_subscription
      ∷ [],
  0,
)
unfolding claim_topic entry_name find_topic add_topic strcmp_eq
added = refl

abc-Plain : Plain (codes "abc")
abc-Plain = (
  (λ e. omega (arith, e)),
  (λ e. omega (arith, e)),
  (
    (λ e. omega (arith, e)),
    (λ e. omega (arith, e)),
    ((λ e. omega (arith, e)), (λ e. omega (arith, e)), tt),
  ),
)

url_decode-Plain_example :
    url_decode (codes "abc" ++ 0 ∷ 9 ∷ 8 ∷ []) 6 ≡ some (codes "abc" ++ 0 ∷ 0 ∷ 8 ∷ [])
url_decode-Plain_example = url_decode-Plain (codes "abc") 9 (8 ∷ []) 6 abc-Plain (omega arith)

-- an open client, and buffers of MQTT, of a socket, and of nobody
abbrev opened_mqtt : Mqtt
opened_mqtt = record sample_mqtt { state = 1 }

abbrev opened : Ltem
opened = record sample {
  mqtt = some opened_mqtt;
  iop = record sample_iop {
    rx_data_bufs =
        some (record small_rx { data_peer = peer_mqtt })
        ∷ some (record small_rx { data_peer = 2 })
        ∷ some small_rx
        ∷ [];
  };
}

mqtt_close-Closes_example : Closes opened_mqtt opened (mqtt_close 9 opened)
mqtt_close-Closes_example = mqtt_close-Closes 9 opened_mqtt opened refl
