-- ===== src/Iop/Isr.antt =====
-- `s_interruptCallbackISR` of src/ltemc-iop.c, one `Pass` for each round of its loop. The wait for the
-- interrupt register, the second reads of the registers, and the repeat while the interrupt pin stays
-- low change nothing but how many rounds there are.
use cr_lte_modem.Base.{
  ℕ, ◌+◌, ◌-◌, ◌||◌, none, some, List, [], ◌∷◌, ltb, ◌==◌, if◌then◌else◌, set, take, drop,
}
use cr_lte_modem.CString.{Bytes, write_at, strncmp_eq, codes, c_str}
use cr_lte_modem.Device.{
  Mqtt, Pass, Ltem, M, ret, stop, undefined, ◌>>◌, no_buffer, peer_none, peer_mqtt, socket_cnt,
}
use cr_lte_modem.Iop.Tx.{tx_take, bridge_write}
use cr_lte_modem.Iop.Rx.{slot, get_data_buffer, rx_store}
use cr_lte_modem.Iop.Urc.{rx_parse_immediate}

-- a chunk for the command buffer
unfoldable pub rx_cmd : Bytes → M (Unit {0})
rx_cmd chunk s = elim (rx_store chunk s.iop.rx_cmd_buf) [
  | none ↦ stop undefined
  | some b ↦ rx_parse_immediate (record s { iop = record (s.iop) { rx_cmd_buf = b } })
]

-- `rxDataBufIndx = s_getDataBuffer(rxDataPeer)` where no buffer is set
unfoldable pub claim_data_buffer : Ltem → Ltem
claim_data_buffer s =
    let (bufs, i) = get_data_buffer s.iop.rx_data_peer s.iop.rx_data_bufs in
    if s.iop.rx_data_buf_indx == no_buffer
    then record s { iop = record (s.iop) { rx_data_bufs = bufs; rx_data_buf_indx = i } }
    else s

-- the chunk put into the data buffer in use
unfoldable pub store_data : Bytes → M (Unit {0})
store_data chunk s =
    let i = s.iop.rx_data_buf_indx in
    elim (slot s.iop.rx_data_bufs i) [
      | none ↦ stop undefined
      | some b ↦ elim (rx_store chunk b) [
        | none ↦ stop undefined
        | some b' ↦ ret tt (record s {
          iop = record (s.iop) { rx_data_bufs = set s.iop.rx_data_bufs i (some b') };
        })
      ]
    ]

-- a chunk for a socket
unfoldable pub rx_socket : Bytes → M (Unit {0})
rx_socket chunk s = store_data chunk (claim_data_buffer s)

-- the first MQTT chunk claims a buffer and leaves room there for what lies in the command buffer
unfoldable pub claim_mqtt_buffer : Mqtt → M (Unit {0})
claim_mqtt_buffer m s =
    let s' = claim_data_buffer s in
    let i = s'.iop.rx_data_buf_indx in
    if s.iop.rx_data_buf_indx == no_buffer
    then elim (slot s'.iop.rx_data_bufs i) [
      | none ↦ stop undefined
      | some b ↦ ret tt (record s' {
        iop = record (s'.iop) {
          rx_data_bufs =
              set s'.iop.rx_data_bufs i (some (record b { head = b.head + m.first_chunk_sz }));
        };
      })
    ]
    else ret tt s

-- the end of a message: the last two bytes received are CR LF, the first chunk is copied to the start
-- of the buffer, and the buffer goes over to MQTT
unfoldable pub end_mqtt : Mqtt → M (Unit {0})
end_mqtt m s =
    let i = s.iop.rx_data_buf_indx in
    let first = take m.first_chunk_sz (drop m.first_chunk_begin s.iop.rx_cmd_buf.mem) in
    elim (slot s.iop.rx_data_bufs i) [
      | none ↦ stop undefined
      | some b ↦
          if strncmp_eq (codes "\r\n") (c_str (drop (b.head - 2) b.mem)) 2
          then ret tt (record s {
            mqtt = some (record m { data_buffer_indx = i });
            iop = record (s.iop) {
              rx_data_bufs =
                  set s.iop.rx_data_bufs i (some (record b { mem = write_at b.mem 0 first }));
              rx_data_buf_indx = no_buffer;
              rx_data_peer = peer_none;
            };
          })
          else ret tt s
    ]

-- a chunk of an MQTT message
unfoldable pub mqtt_chunk : Mqtt → Bytes → M (Unit {0})
mqtt_chunk m chunk = do claim_mqtt_buffer m; store_data chunk; end_mqtt m

-- The same with no MQTT service created: `mqttPtr` is NULL, which is used where a buffer is claimed and
-- where the message ends.
unfoldable pub end_without_mqtt : M (Unit {0})
end_without_mqtt s = elim (slot s.iop.rx_data_bufs s.iop.rx_data_buf_indx) [
  | none ↦ stop undefined
  | some b ↦
      if strncmp_eq (codes "\r\n") (c_str (drop (b.head - 2) b.mem)) 2
      then stop undefined
      else ret tt s
]

unfoldable pub chunk_without_mqtt : Bytes → M (Unit {0})
chunk_without_mqtt chunk s =
    if s.iop.rx_data_buf_indx == no_buffer
    then stop undefined
    else (do store_data chunk; end_without_mqtt) s

unfoldable pub rx_mqtt : Bytes → M (Unit {0})
rx_mqtt chunk s = elim s.mqtt [ none ↦ chunk_without_mqtt chunk s | some m ↦ mqtt_chunk m chunk s ]

-- the receive branch: by the data peer, where the FIFO holds something
unfoldable pub service_rx : Bytes → M (Unit {0})
service_rx [] s = ret tt s
service_rx (x ∷ xs) s =
    let peer = s.iop.rx_data_peer in
    if peer == peer_none
    then rx_cmd (x ∷ xs) s
    else if ltb peer socket_cnt
    then rx_socket (x ∷ xs) s
    else if peer == peer_mqtt
    then rx_mqtt (x ∷ xs) s
    else ret tt s

-- the transmit branch: the next chunk, if there is one
unfoldable pub service_tx : ℕ → M (Unit {0})
service_tx level s =
    let (out, iop) = tx_take level s.iop in
    elim out [
      | [] ↦ ret tt (record s { iop = iop })
      | x ∷ xs ↦ bridge_write (x ∷ xs) (record s { iop = iop })
    ]

-- one round: a line error (source 3) flushes the FIFO of the bridge, and nothing here changes
unfoldable pub service_pass : Pass → M (Unit {0})
service_pass p s =
    if p.source == 2 || p.source == 6
    then service_rx p.rx s
    else if p.source == 1
    then service_tx p.tx_level s
    else ret tt s

-- the rounds of one interrupt
unfoldable pub isr : List Pass → M (Unit {0})
isr [] s = ret tt s
isr (p ∷ ps) s = elim (service_pass p s) [ ret _ s' ↦ isr ps s' | stop w ↦ stop w ]
