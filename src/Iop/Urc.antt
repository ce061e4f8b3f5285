-- ===== src/Iop/Urc.antt =====
-- `iop_rxParseImmediate` of src/ltemc-iop.c: unsolicited messages in the chunk that has just come into
-- the command buffer.
pub mod Recv
use cr_lte_modem.Base.{
  ℕ, ◌+◌, ◌-◌, true, not, ◌&&◌, none, some, List, [], ◌∷◌, ◌==◌, if◌then◌else◌, length, get_elem?,
  set, take, drop, u8,
}
use cr_lte_modem.CString.{Bytes, codes, c_str, starts_with, strchr, strtol, to_word}
use cr_lte_modem.Device.{PdpCntxt, Ltem, M, ret, stop, undefined, peer_mqtt, ready_app_ready}

abbrev pub ssl_recv : Bytes
ssl_recv = codes "+QSSLURC: \"recv"

abbrev pub ip_recv : Bytes
ip_recv = codes "+QIURC: \"recv"

abbrev pub mqtt_recv : Bytes
mqtt_recv = codes "+QMTRECV:"

abbrev pub mqtt_stat : Bytes
mqtt_stat = codes "+QMTSTAT:"

abbrev pub pdp_deact : Bytes
pdp_deact = codes "+QIURC: \"pdpdeact"

abbrev pub app_rdy : Bytes
app_rdy = codes "\r\nAPP RDY"

-- the memory from `prevHead` on
abbrev pub chunk_at : Ltem → Bytes
chunk_at s = drop s.iop.rx_cmd_buf.prev_head s.iop.rx_cmd_buf.mem

-- `head = prevHead`: the chunk is dropped (its bytes stay in the storage).
abbrev pub discard_chunk : Ltem → Ltem
discard_chunk s = record s {
  iop = record (s.iop) {
    rx_cmd_buf = record (s.iop.rx_cmd_buf) { head = s.iop.rx_cmd_buf.prev_head };
  };
}

-- `(uint8_t)strtol(prevHead + strlen(prefix), ...)`: the number is looked for at a fixed distance
-- from the start of the chunk, not from the prefix.
unfoldable pub urc_number : Bytes → Ltem → ℕ
urc_number prefix s = to_word 256 (strtol (c_str (drop (length prefix) (chunk_at s))))

-- `socketCtrls[socketId].dataPending = true`, and the chunk dropped
unfoldable pub mark_pending : Bytes → M (Unit {0})
mark_pending prefix s = elim s.sockets [
  | none ↦ stop undefined
  | some ctrls ↦ elim (get_elem? ctrls (urc_number prefix s)) [
    | none ↦ stop undefined
    | some ctrl ↦ ret tt (
        discard_chunk (record s {
          sockets = some (set ctrls (urc_number prefix s) (record ctrl { data_pending = true }));
        }))
  ]
]

-- `+QMTRECV:` found `u` bytes into the chunk: where the message begins, and the switch to data mode
unfoldable pub begin_mqtt : ℕ → M (Unit {0})
begin_mqtt u s = elim s.mqtt [
  | none ↦ stop undefined
  | some m ↦
      let begin = s.iop.rx_cmd_buf.prev_head + u in
      ret tt (record s {
        mqtt = some (record m {
          first_chunk_begin = begin;
          first_chunk_sz = u8 (s.iop.rx_cmd_buf.head + 4294967296 - begin);
        });
        iop = record (s.iop) { rx_data_peer = peer_mqtt };
      })
]

unfoldable pub close_mqtt : M (Unit {0})
close_mqtt s = elim s.mqtt [
  | none ↦ stop undefined
  | some m ↦ ret tt (record s { mqtt = some (record m { state = 0 }) })
]

-- the loop over the PDP contexts: the first with the number is emptied
unfoldable pub drop_context : ℕ → List PdpCntxt → List PdpCntxt
drop_context n [] = []
drop_context n (c ∷ cs) =
    if c.context_id == n
    then record c { context_id = 0; ip_address = [] } ∷ cs
    else c ∷ drop_context n cs

-- the branches behind a `+` that was found `u` bytes into the chunk, for sources other than sockets
unfoldable pub service_urc : ℕ → M (Unit {0})
service_urc u s =
    let text = drop u (chunk_at s) in
    let map = s.iop.peer_type_map in
    if not (map.mqtt_subscribe == 0) && starts_with mqtt_recv text
    then begin_mqtt u s
    else if not (map.mqtt_connection == 0) && starts_with mqtt_stat text
    then close_mqtt s
    else if not (map.pdp_context == 0) && starts_with pdp_deact text
    then ret tt (
        discard_chunk
          (record s { pdp_cntxts = drop_context (urc_number pdp_deact s) s.pdp_cntxts }))
    else ret tt s

-- the branch for TCP and UDP sockets, and those behind it
unfoldable pub other_urc : ℕ → M (Unit {0})
other_urc u s =
    if not (s.iop.peer_type_map.tcpudp_socket == 0) && starts_with ip_recv (drop u (chunk_at s))
    then mark_pending ip_recv s
    else service_urc u s

-- the first branch, for SSL sockets, and those behind it
unfoldable pub dispatch_urc : ℕ → M (Unit {0})
dispatch_urc u s =
    if not (s.iop.peer_type_map.ssl_socket == 0) && starts_with ssl_recv (drop u (chunk_at s))
    then mark_pending ssl_recv s
    else other_urc u s

-- a chunk with no `+` in front: the modem is ready for applications
unfoldable pub other_notice : M (Unit {0})
other_notice s =
    if not (s.qbg_ready_state == ready_app_ready) && starts_with app_rdy (chunk_at s)
    then ret tt (discard_chunk (record s { qbg_ready_state = ready_app_ready }))
    else ret tt s

-- `iop_rxParseImmediate`; the first six bytes of the chunk are searched for a `+`.
unfoldable pub rx_parse_immediate : M (Unit {0})
rx_parse_immediate s = elim (strchr (take 6 (chunk_at s)) b'+') [
  | some u ↦ dispatch_urc u s
  | none ↦ other_notice s
]
