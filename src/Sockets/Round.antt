-- ===== src/Sockets/Round.antt =====
-- A call of `sckt_doWork` with an answer of the modem in one of the data buffers.
use cr_lte_modem.Base.{
  ℕ, suc, ◌+◌, ◌-◌, ◌<◌, ◌≡◌, refl, sym, ap, ◌∙◌, inl, inr, Bool, true, false, ◌&&◌, Option, none,
  some, List, arith, ltb, ◌==◌, if◌then◌else◌, lt→ltb, if-elim, Option-cases, length,
}
use mathlib.Core.Path.{subst}
use cr_lte_modem.CString.{Bytes}
use cr_lte_modem.Device.{RxBuf, SocketCtrl, Ltem, Outcome, ret, stop, peer_none, socket_cnt}
use cr_lte_modem.Host.{timer_expired}
use cr_lte_modem.Iop.Rx.{slot}
use cr_lte_modem.Command.{action_timeout}
use cr_lte_modem.Sockets.Work.{
  next_wait, service_buffer, service_buffers, any_socket, work_buffers, work_open, sckt_do_work,
}
use cr_lte_modem.Sockets.Delivery.{Arrived, Delivered, controls_cnt, service_buffer-Delivered}
use cr_lte_modem.Sockets.Quiet.{IsIdle, Quiet, skip_rest, reach, waiting_flows}

waiting_open :
    (s : Ltem) → controls_cnt s.sockets ≡ socket_cnt → s.ird_wait ≡ 1 → work_open s ≡ ret tt s
unfolding work_open
waiting_open s h w = elim (Option-cases s.sockets) [
  | inl e ↦ absurd (omega (arith, h, ap controls_cnt e))
  | inr (cs, e) ↦
      if-elim (λ o. o ≡ ret tt s) (any_socket s && s.iop.rx_data_peer == peer_none)
        (λ _. waiting_flows socket_cnt 0 cs s e (omega (arith, h, ap controls_cnt e)) w) (λ _. refl)
]

-- The buffer in use is the only one with something in it, and the modem has answered in time.
pub record Alone (ctrls : List SocketCtrl) (s : Ltem) : Type 0 where
  pub place : s.iop.rx_data_buf_indx < 3
  pub before :
      (j : ℕ)
      → j < s.iop.rx_data_buf_indx
      → (b : RxBuf) × (slot s.iop.rx_data_bufs j ≡ some b) × IsIdle b
  pub behind : (j : ℕ) → s.iop.rx_data_buf_indx < j → Quiet (slot s.iop.rx_data_bufs j)
  pub in_time : timer_expired s.ird_reqst_at action_timeout s ≡ false
  pub six : length ctrls ≡ socket_cnt

-- the device with the wait cycle counted
abbrev counted : Ltem → Ltem
counted s = record s { ird_wait = next_wait s.ird_wait }

counted-Arrived :
    {n : ℕ} {bytes rest : Bytes} {b : RxBuf} {c : SocketCtrl} {ctrls : List SocketCtrl} {f : ℕ}
    {s : Ltem}
    → Arrived n bytes rest b c ctrls f s
    → Arrived n bytes rest b c ctrls f (counted s)
counted-Arrived a = record {
  text = a.text;
  size = a.size;
  not_empty = a.not_empty;
  word = a.word;
  whole = a.whole;
  unread = a.unread;
  socket = a.socket;
  peer = a.peer;
  buffer = a.buffer;
  controls = a.controls;
  control = a.control;
  kept = a.kept;
  receiver = a.receiver;
}

counted-Delivered :
    {bytes : Bytes} {c : SocketCtrl} {f i : ℕ} {s t : Ltem}
    → Delivered bytes c f i (counted s) t
    → Delivered bytes c f i s t
counted-Delivered d = record {
  hands = d.hands;
  peer_free = d.peer_free;
  index_free = d.index_free;
  lock_free = d.lock_free;
  request_done = d.request_done;
  buffer_owner = d.buffer_owner;
  others = d.others;
  waits = d.waits;
  controls_kept = d.controls_kept;
}

-- the loop from the buffer in use on
loop_from :
    {bytes : Bytes} {c : SocketCtrl} {f : ℕ} {ctrls : List SocketCtrl} (m : ℕ) (b : RxBuf)
    (s t : Ltem)
    → Alone ctrls s
    → slot s.iop.rx_data_bufs s.iop.rx_data_buf_indx ≡ some b
    → service_buffer s.iop.rx_data_buf_indx b s ≡ ret tt t
    → Delivered bytes c f s.iop.rx_data_buf_indx s t
    → service_buffers (suc m) s.iop.rx_data_buf_indx s ≡ ret tt t
unfolding service_buffers timer_expired
loop_from m b s t a held served d =
    ap
      (λ (o : Option RxBuf). elim o [
        | none ↦ ret tt s
        | some x ↦ elim (service_buffer s.iop.rx_data_buf_indx x s) [
          | stop w ↦ stop w
          | ret _ u ↦ service_buffers m (s.iop.rx_data_buf_indx + 1) u
        ]
      ])
      held
    ∙ ap
        (λ (o : Outcome (Unit {0})). elim o [
          | stop w ↦ stop w
          | ret _ u ↦ service_buffers m (s.iop.rx_data_buf_indx + 1) u
        ])
        served
    ∙ skip_rest m (s.iop.rx_data_buf_indx + 1) t
        (λ j h.
          subst Quiet (sym (d.others j (λ e. absurd (omega (arith, e, h)))))
            (a.behind j (omega (arith, h))))
        (ap (λ k. timer_expired k action_timeout t) d.request_done)

-- the whole call, from the loop on
work-Delivered :
    {bytes : Bytes} {c : SocketCtrl} {f : ℕ} {ctrls : List SocketCtrl} (b : RxBuf) (s t : Ltem)
    → Alone ctrls s
    → ltb s.iop.rx_data_peer socket_cnt ≡ true
    → controls_cnt s.sockets ≡ socket_cnt
    → slot s.iop.rx_data_bufs s.iop.rx_data_buf_indx ≡ some b
    → service_buffer s.iop.rx_data_buf_indx b s ≡ ret tt t
    → Delivered bytes c f s.iop.rx_data_buf_indx s t
    → elim (work_buffers s) [ ret _ u ↦ work_open u | stop w ↦ stop w ] ≡ ret tt t
unfolding work_buffers
work-Delivered b s t a socket six held served d =
    ap next (ap (λ (y : Bool). if y then service_buffers 3 0 s else ret tt s) socket)
    ∙ ap (λ n. next (service_buffers n 0 s)) split
    ∙ ap next (reach i (suc m) 0 i s from_zero a.before a.in_time)
    ∙ ap next (loop_from m b s t a held served d)
    ∙ waiting_open t (d.controls_kept ∙ six) d.waits
  where
    i : ℕ
    i = s.iop.rx_data_buf_indx

    m : ℕ
    m = 2 - i

    split : 3 ≡ i + suc m
    split = omega (arith, a.place)

    from_zero : 0 + i ≡ i
    from_zero = omega arith

    next : Outcome (Unit {0}) → Outcome (Unit {0})
    next o = elim o [ ret _ u ↦ work_open u | stop w ↦ stop w ]

-- A call of sckt_doWork on a device with six sockets, where the modem's answer has arrived with all of
-- its data in the data buffer in use, one of the three, the buffers before it are idle, those behind it
-- idle or not there, and the request has not timed out: exactly these data are handed to the receiver
-- of the socket, once, buffer, peer and command lock are free again, the other buffers are as they
-- were, and no new request is opened before the wait cycles are over.
pub sckt_do_work-Delivered :
    {n : ℕ} {bytes rest : Bytes} {b : RxBuf} {c : SocketCtrl} {ctrls : List SocketCtrl} {f : ℕ}
    {s : Ltem}
    → Arrived n bytes rest b c ctrls f s
    → Alone ctrls s
    → (t : Ltem) × (sckt_do_work s ≡ ret tt t) × Delivered bytes c f s.iop.rx_data_buf_indx s t
unfolding sckt_do_work timer_expired
sckt_do_work-Delivered {b} {c} {ctrls} {f} {s} a alone =
    let (t, served, d) = service_buffer-Delivered (counted-Arrived a) in
    (
      t,
      work-Delivered b (counted s) t
          (record {
            place = alone.place;
            before = alone.before;
            behind = alone.behind;
            in_time = alone.in_time;
            six = alone.six;
          })
          (subst (λ p. ltb p socket_cnt ≡ true) (sym a.peer) (lt→ltb _ _ a.socket))
          (ap controls_cnt a.controls ∙ alone.six) a.buffer served d,
      counted-Delivered d,
    )
