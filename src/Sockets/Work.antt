-- ===== src/Sockets/Work.antt =====
-- `sckt_doWork` of src/ltemc-sockets.c, and `sckt_open`, which calls it.
use cr_lte_modem.Base.{
  ℕ, zero, suc, ◌+◌, ◌%◌, Bool, true, false, not, ◌&&◌, ◌||◌, Option, none, some, [], ◌∷◌, ◌++◌,
  ltb, ◌==◌, if◌then◌else◌, set, take, drop,
}
use cr_lte_modem.CString.{Bytes, c_str, strtol, to_word}
use cr_lte_modem.Parser.{Ptr, at, low, deref, result_badrequest}
use cr_lte_modem.Device.{
  RxBuf, SocketCtrl, socket_data, Ltem, M, ret, stop, undefined, ◌>>=◌, ◌>>◌, modify, notify_app,
  no_buffer, peer_none, socket_cnt,
}
use cr_lte_modem.Host.{timer_expired}
use cr_lte_modem.Iop.Rx.{slot, reset_data_buffer}
use cr_lte_modem.Command
use cr_lte_modem.Command.{action_timeout}
use cr_lte_modem.Command.Poll.{await_result}
use cr_lte_modem.Sockets.{
  with_ctrl, get_ctrl, start_open, finish_open, open_refused, socket_result_prevopen,
}
use cr_lte_modem.Sockets.Transfer.{request_ird, note_request}

abbrev pub ird_wait_cycles : ℕ
ird_wait_cycles = 4

abbrev pub notif_sckt_error : ℕ
notif_sckt_error = 112

-- the size of the header `\r\n+QIRD: ` and of the trailer `\r\n\r\nOK\r\n`
abbrev pub ird_prefix_sz : ℕ
ird_prefix_sz = 9

abbrev pub ird_trailer_sz : ℕ
ird_trailer_sz = 8

-- `irdWait = (irdWait + (irdWait == 0 ? 0 : 1)) % IRD_WAIT_CYCLES`
unfoldable pub next_wait : ℕ → ℕ
next_wait w = (w + (if w == 0 then 0 else 1)) % ird_wait_cycles

abbrev pub with_buf : ℕ → RxBuf → Ltem → Ltem
with_buf i b s = record s {
  iop = record (s.iop) { rx_data_bufs = set s.iop.rx_data_bufs i (some b) };
}

-- IOP lets go of its data buffer and peer
abbrev pub release_peer : Ltem → Ltem
release_peer s = record s {
  iop = record (s.iop) { rx_data_buf_indx = no_buffer; rx_data_peer = peer_none };
}

-- `irdSz` and `tail` from the header of the first chunk
unfoldable pub parse_ird : RxBuf → RxBuf
parse_ird b =
    let r = strtol (c_str (drop ird_prefix_sz b.mem)) in
    record b { ird_sz = to_word 65536 r; tail = at (ird_prefix_sz + r.stop) }

-- where `tail` points, as an offset (parse_ird leaves it in the buffer)
abbrev pub tail_offset : Ptr → ℕ
tail_offset (at k) = k
tail_offset (low k) = k

-- a size was read: `tail` goes past CR LF, and the data is ready when all of it, and the trailer, has
-- come
unfoldable pub check_ready : RxBuf → RxBuf
check_ready b =
    let k = tail_offset b.tail + 2 in
    record b { tail = at k; data_ready = b.head == k + (b.ird_sz + ird_trailer_sz) }

-- sockets take the buffer over from IOP
unfoldable pub take_buffer : M (Unit {0})
take_buffer s =
    elim (with_ctrl s.iop.rx_data_peer (λ c. record c { data_buffer_indx = s.iop.rx_data_buf_indx })
      s) [
        | stop w ↦ stop w
        | ret _ t ↦ ret tt (record t { iop = record (t.iop) { rx_data_buf_indx = no_buffer } })
      ]

-- a size of 0: nothing more to read behind the notice; the buffer, the peer and the lock are released
unfoldable pub close_ird : ℕ → RxBuf → M (Unit {0})
close_ird i b s =
    (do
      with_ctrl b.data_peer
          (λ c. record c { data_buffer_indx = no_buffer; data_pending = false; flushing = false })
      reset_data_buffer i
      modify release_peer
      Command.close
      modify (λ t. record t { ird_wait = 1 }))
      (with_buf i (record b { data_ready = false }) s)

-- the first chunk of an answer, in the buffer of a slot
unfoldable pub open_flow : ℕ → RxBuf → M (Unit {0})
open_flow i b s =
    let p = parse_ird b in
    let q = check_ready p in
    if ltb 0 p.ird_sz
    then (if q.data_ready then take_buffer (with_buf i q s) else ret tt (with_buf i q s))
    else close_ird i p s

unfoldable pub parse_flow : ℕ → RxBuf → M (Unit {0})
parse_flow i b s =
    if ltb b.data_peer socket_cnt && b.ird_sz == 0 && ltb 0 b.head
    then open_flow i b s
    else ret tt s

-- the receiver of the application called; a call through NULL is undefined
unfoldable pub call_receiver : SocketCtrl → RxBuf → M (Unit {0})
call_receiver c b s = elim c.receiver_func [
  | none ↦ stop undefined
  | some f ↦ ret tt (record s {
    deliveries =
        s.deliveries
        ++ socket_data f c.socket_id (take b.ird_sz (deref s.low_mem b.mem b.tail)) ∷ [];
  })
]

-- the end of a request that gave data
unfoldable pub end_request : SocketCtrl → M (Unit {0})
end_request c s = elim (reset_data_buffer c.data_buffer_indx s) [
  | stop w ↦ stop w
  | ret _ t ↦ elim (Command.close (release_peer t)) [
    | stop w ↦ stop w
    | ret _ u ↦ ret tt (record u { ird_reqst_at = 0; ird_wait = 1 })
  ]
]

-- data that is ready, handed over
unfoldable pub deliver : RxBuf → M (Unit {0})
deliver b s = elim (get_ctrl b.data_peer s) [
  | stop w ↦ stop w
  | ret c t ↦
      if c.flushing
      then end_request c t
      else elim (call_receiver c b t) [ stop w ↦ stop w | ret _ u ↦ end_request c u ]
]

unfoldable pub deliver_ready : ℕ → M (Unit {0})
deliver_ready i s = elim (slot s.iop.rx_data_bufs i) [
  | none ↦ stop undefined
  | some b ↦ if b.data_ready then deliver b s else ret tt s
]

unfoldable pub ird_timed_out : M (Unit {0})
ird_timed_out s = (do Command.close; notify_app notif_sckt_error) (record s { ird_reqst_at = 0 })

unfoldable pub check_ird_timeout : M (Unit {0})
check_ird_timeout s =
    if timer_expired s.ird_reqst_at action_timeout s then ird_timed_out s else ret tt s

-- one buffer of the loop
unfoldable pub service_buffer : ℕ → RxBuf → M (Unit {0})
service_buffer i b = do parse_flow i b; deliver_ready i; check_ird_timeout

-- the loop over the buffers from slot `i` on, `n` of them, up to the first empty slot
unfoldable pub service_buffers : ℕ → ℕ → M (Unit {0})
service_buffers zero i s = ret tt s
service_buffers (suc n) i s = elim (slot s.iop.rx_data_bufs i) [
  | none ↦ ret tt s
  | some b ↦ elim (service_buffer i b s) [ stop w ↦ stop w | ret _ t ↦ service_buffers n (i + 1) t ]
]

-- the loop that opens a flow for the first socket with data pending, `n` sockets from `peer` on
unfoldable pub open_flows : ℕ → ℕ → M (Unit {0})
open_flows zero peer s = ret tt s
open_flows (suc n) peer s = elim (get_ctrl peer s) [
  | stop w ↦ stop w
  | ret c t ↦
      if c.data_pending && t.ird_wait == 0
      then elim (request_ird peer c true t) [
        | stop w ↦ stop w
        | ret true u ↦ ret tt (note_request u)
        | ret false u ↦ elim (notify_app notif_sckt_error u) [
          | stop w ↦ stop w
          | ret _ v ↦ open_flows n (peer + 1) v
        ]
      ]
      else open_flows n (peer + 1) t
]

abbrev pub any_socket : Ltem → Bool
any_socket s =
    not (s.iop.peer_type_map.ssl_socket == 0) || not (s.iop.peer_type_map.tcpudp_socket == 0)

unfoldable pub work_buffers : M (Unit {0})
work_buffers s = if ltb s.iop.rx_data_peer socket_cnt then service_buffers 3 0 s else ret tt s

unfoldable pub work_open : M (Unit {0})
work_open s =
    if any_socket s && s.iop.rx_data_peer == peer_none then open_flows socket_cnt 0 s else ret tt s

-- `sckt_doWork`
unfoldable pub sckt_do_work : M (Unit {0})
sckt_do_work s = (do work_buffers; work_open) (record s { ird_wait = next_wait s.ird_wait })

-- the end of `sckt_open` where the modem has the socket open already
unfoldable pub prime : ℕ → Bool → ℕ → M ℕ
prime id clean_session code s =
    if code == socket_result_prevopen
    then elim (with_ctrl id (λ c. record c { flushing = clean_session; data_pending = true }) s) [
      | stop w ↦ stop w
      | ret _ t ↦ elim (sckt_do_work t) [ stop w ↦ stop w | ret _ u ↦ ret code u ]
    ]
    else ret code s

-- `sckt_open`
unfoldable pub sckt_open : ℕ → ℕ → ℕ → Bytes → ℕ → Bool → Option ℕ → M ℕ
sckt_open fuel id protocol host rmt_port clean_session receiver s =
    elim (open_refused id protocol receiver s) [
      | stop w ↦ stop w
      | ret true t ↦ ret result_badrequest t
      | ret false t ↦ elim receiver [
        | none ↦ ret result_badrequest t
        | some f ↦
            (do
              start_open id protocol host rmt_port
              await_result fuel true >>= λ r. finish_open id protocol f r.status_code >>= λ _.
                  prime id clean_session r.status_code)
              t
      ]
    ]
