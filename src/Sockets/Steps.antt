-- ===== src/Sockets/Steps.antt =====
-- The steps of `sckt_doWork` at one buffer, each with the state that it leaves.
use cr_lte_modem.Base.{
  ℕ, zero, suc, ◌≡◌, refl, ap, ◌∙◌, Bool, true, false, ◌&&◌, Option, none, some, List, [], ◌∷◌,
  ◌++◌, arith, ltb, ◌==◌, if◌then◌else◌, get_elem?, set, take,
}
use cr_lte_modem.Parser.{deref}
use cr_lte_modem.Device.{
  RxBuf, SocketCtrl, socket_data, Ltem, Outcome, ret, stop, undefined, no_buffer, socket_cnt,
}
use cr_lte_modem.Host.{timer_expired}
use cr_lte_modem.Iop.Rx.{slot, reset_data_buffer, rx_buf_reset}
use cr_lte_modem.Command
use cr_lte_modem.Command.{with_atcmd}
use cr_lte_modem.Sockets.{with_ctrl, get_ctrl}
use cr_lte_modem.Sockets.Work
use cr_lte_modem.Sockets.Work.{
  with_buf, release_peer, parse_ird, check_ready, take_buffer, open_flow, parse_flow, call_receiver,
  end_request, deliver, deliver_ready, check_ird_timeout, service_buffer, ird_trailer_sz,
}

pub with_ctrl-eq :
    (i : ℕ) (f : SocketCtrl → SocketCtrl) (s : Ltem) (ctrls : List SocketCtrl) (c : SocketCtrl)
    → s.sockets ≡ some ctrls
    → get_elem? ctrls i ≡ some c
    → with_ctrl i f s ≡ ret tt (record s { sockets = some (set ctrls i (f c)) })
unfolding with_ctrl
with_ctrl-eq i f s ctrls c h h' =
    ap
      (λ (o : Option (List SocketCtrl)). elim o [
        | none ↦ stop undefined
        | some cs ↦ elim (get_elem? cs i) [
          | none ↦ stop undefined
          | some x ↦ ret tt (record s { sockets = some (set cs i (f x)) })
        ]
      ])
      h
    ∙ ap
        (λ (o : Option SocketCtrl). elim o [
          | none ↦ stop undefined
          | some x ↦ ret tt (record s { sockets = some (set ctrls i (f x)) })
        ])
        h'

pub get_ctrl-eq :
    (i : ℕ) (s : Ltem) (ctrls : List SocketCtrl) (c : SocketCtrl)
    → s.sockets ≡ some ctrls
    → get_elem? ctrls i ≡ some c
    → get_ctrl i s ≡ ret c s
unfolding get_ctrl
get_ctrl-eq i s ctrls c h h' =
    ap
      (λ (o : Option (List SocketCtrl)). elim o [
        | none ↦ stop undefined
        | some cs ↦ elim (get_elem? cs i) [ none ↦ stop undefined | some x ↦ ret x s ]
      ])
      h
    ∙ ap (λ (o : Option SocketCtrl). elim o [ none ↦ stop undefined | some x ↦ ret x s ]) h'

pub reset_data_buffer-eq :
    (i : ℕ) (s : Ltem) (b : RxBuf)
    → slot s.iop.rx_data_bufs i ≡ some b
    → reset_data_buffer i s ≡ ret tt (with_buf i (rx_buf_reset b) s)
unfolding reset_data_buffer
reset_data_buffer-eq i s b h =
    ap
      (λ (o : Option RxBuf). elim o [
        | none ↦ stop undefined
        | some x ↦ ret tt (with_buf i (rx_buf_reset x) s)
      ])
      h

-- the state after a request that gave data
abbrev pub ended : ℕ → RxBuf → Ltem → Ltem
ended i b s =
    record (with_atcmd (λ a. record a { is_open = false })
      (release_peer (with_buf i (rx_buf_reset b) s))) { ird_reqst_at = 0; ird_wait = 1 }

pub end_request-eq :
    (c : SocketCtrl) (s : Ltem) (b : RxBuf)
    → slot s.iop.rx_data_bufs c.data_buffer_indx ≡ some b
    → end_request c s ≡ ret tt (ended c.data_buffer_indx b s)
unfolding end_request Command.close
end_request-eq c s b h =
    ap
      (λ (o : Outcome (Unit {0})). elim o [
        | stop w ↦ stop w
        | ret _ t ↦ elim (Command.close (release_peer t)) [
          | stop w ↦ stop w
          | ret _ u ↦ ret tt (record u { ird_reqst_at = 0; ird_wait = 1 })
        ]
      ])
      (reset_data_buffer-eq c.data_buffer_indx s b h)

-- the state with the data handed over
abbrev pub handed : ℕ → SocketCtrl → RxBuf → Ltem → Ltem
handed f c b s = record s {
  deliveries =
      s.deliveries ++ socket_data f c.socket_id (take b.ird_sz (deref s.low_mem b.mem b.tail)) ∷ [];
}

pub call_receiver-eq :
    (f : ℕ) (c : SocketCtrl) (b : RxBuf) (s : Ltem)
    → c.receiver_func ≡ some f
    → call_receiver c b s ≡ ret tt (handed f c b s)
unfolding call_receiver
call_receiver-eq f c b s h =
    ap (λ (o : Option ℕ). elim o [ none ↦ stop undefined | some g ↦ ret tt (handed g c b s) ]) h

pub deliver-eq :
    (b b' : RxBuf) (s : Ltem) (ctrls : List SocketCtrl) (c : SocketCtrl) (f : ℕ)
    → s.sockets ≡ some ctrls
    → get_elem? ctrls b.data_peer ≡ some c
    → c.flushing ≡ false
    → c.receiver_func ≡ some f
    → slot s.iop.rx_data_bufs c.data_buffer_indx ≡ some b'
    → deliver b s ≡ ret tt (ended c.data_buffer_indx b' (handed f c b s))
unfolding deliver
deliver-eq b b' s ctrls c f hs hc hf hr hb =
    ap
      (λ (o : Outcome SocketCtrl). elim o [
        | stop w ↦ stop w
        | ret x t ↦
            if x.flushing
            then end_request x t
            else elim (call_receiver x b t) [ stop w ↦ stop w | ret _ u ↦ end_request x u ]
      ])
      (get_ctrl-eq b.data_peer s ctrls c hs hc)
    ∙ ap
        (λ (y : Bool).
          if y
          then end_request c s
          else elim (call_receiver c b s) [ stop w ↦ stop w | ret _ u ↦ end_request c u ])
        hf
    ∙ ap (λ (o : Outcome (Unit {0})). elim o [ stop w ↦ stop w | ret _ u ↦ end_request c u ])
        (call_receiver-eq f c b s hr)
    ∙ end_request-eq c (handed f c b s) b' hb

-- the buffer taken over from IOP
abbrev pub taken : List SocketCtrl → SocketCtrl → Ltem → Ltem
taken ctrls c s = record s {
  sockets =
      some (set ctrls s.iop.rx_data_peer (record c { data_buffer_indx = s.iop.rx_data_buf_indx }));
  iop = record (s.iop) { rx_data_buf_indx = no_buffer };
}

pub take_buffer-eq :
    (s : Ltem) (ctrls : List SocketCtrl) (c : SocketCtrl)
    → s.sockets ≡ some ctrls
    → get_elem? ctrls s.iop.rx_data_peer ≡ some c
    → take_buffer s ≡ ret tt (taken ctrls c s)
unfolding take_buffer
take_buffer-eq s ctrls c h h' =
    ap
      (λ (o : Outcome (Unit {0})). elim o [
        | stop w ↦ stop w
        | ret _ t ↦ ret tt (record t { iop = record (t.iop) { rx_data_buf_indx = no_buffer } })
      ])
      (with_ctrl-eq s.iop.rx_data_peer (λ x. record x { data_buffer_indx = s.iop.rx_data_buf_indx })
        s ctrls c h h')

pub parse_flow-eq :
    (i : ℕ) (b : RxBuf) (s : Ltem)
    → (ltb b.data_peer socket_cnt && b.ird_sz == 0 && ltb 0 b.head) ≡ true
    → ltb 0 (parse_ird b).ird_sz ≡ true
    → (check_ready (parse_ird b)).data_ready ≡ true
    → parse_flow i b s ≡ take_buffer (with_buf i (check_ready (parse_ird b)) s)
unfolding parse_flow open_flow
parse_flow-eq i b s h z r =
    ap (λ (y : Bool). if y then open_flow i b s else ret tt s) h
    ∙ ap
        (λ (y : Bool).
          if y
          then (if (check_ready (parse_ird b)).data_ready
              then take_buffer (with_buf i (check_ready (parse_ird b)) s)
              else ret tt (with_buf i (check_ready (parse_ird b)) s))
          else Work.close_ird i (parse_ird b) s)
        z
    ∙ ap
        (λ (y : Bool).
          if y
          then take_buffer (with_buf i (check_ready (parse_ird b)) s)
          else ret tt (with_buf i (check_ready (parse_ird b)) s))
        r

pub deliver_ready-eq :
    (i : ℕ) (b : RxBuf) (s : Ltem)
    → slot s.iop.rx_data_bufs i ≡ some b
    → b.data_ready ≡ true
    → deliver_ready i s ≡ deliver b s
unfolding deliver_ready
deliver_ready-eq i b s h r =
    ap
      (λ (o : Option RxBuf). elim o [
        | none ↦ stop undefined
        | some x ↦ if x.data_ready then deliver x s else ret tt s
      ])
      h
    ∙ ap (λ (y : Bool). if y then deliver b s else ret tt s) r

pub no_timeout : (s : Ltem) → s.ird_reqst_at ≡ 0 → check_ird_timeout s ≡ ret tt s
unfolding check_ird_timeout timer_expired
no_timeout s h = ap (λ (n : ℕ). if timer_expired n 500 s then Work.ird_timed_out s else ret tt s) h

pub get_elem?-set :
    {A : Type 0} (xs : List A) (i : ℕ) {x : A} (y : A)
    → get_elem? xs i ≡ some x
    → get_elem? (set xs i y) i ≡ some y
get_elem?-set [] i y h = ground arith
get_elem?-set (z ∷ xs) zero y h = refl
get_elem?-set (z ∷ xs) (suc i) y h = get_elem?-set xs i y h

pub slot-set :
    (bufs : List (Option RxBuf)) (i : ℕ) {x : RxBuf} (y : RxBuf)
    → slot bufs i ≡ some x
    → slot (set bufs i (some y)) i ≡ some y
slot-set [] i y h = ground arith
slot-set (z ∷ bufs) zero y h = refl
slot-set (z ∷ bufs) (suc i) y h = slot-set bufs i y h
