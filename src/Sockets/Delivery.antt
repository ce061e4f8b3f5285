-- ===== src/Sockets/Delivery.antt =====
-- One buffer of the loop of `sckt_doWork`, with an answer of the modem in it.
use cr_lte_modem.Base.{
  ℕ, ◌+◌, ◌<◌, ◌≡◌, refl, sym, ap, ◌∙◌, ◌≢◌, true, false, ◌&&◌, Option, none, some, List, [], ◌∷◌,
  ◌++◌, arith, ltb, ◌==◌, ==_iff, length, get_elem?, set, length-set, get_or-set_ne,
}
use mathlib.Core.Path.{subst}
use cr_lte_modem.CString.{Bytes}
use cr_lte_modem.Device.{
  RxBuf, SocketCtrl, socket_data, Ltem, Outcome, ret, stop, no_buffer, peer_none, socket_cnt,
}
use cr_lte_modem.Iop.Rx.{slot, reset_data_buffer, rx_buf_reset}
use cr_lte_modem.Sockets.Work.{
  with_buf, parse_ird, check_ready, parse_flow, deliver_ready, check_ird_timeout, service_buffer,
  ird_trailer_sz,
}
use cr_lte_modem.Sockets.Ird.{answer, header_sz, Flow, check_ready-answer}
use cr_lte_modem.Sockets.Steps.{
  deliver-eq, take_buffer-eq, parse_flow-eq, deliver_ready-eq, no_timeout, get_elem?-set, slot-set,
  ended, handed, taken,
}

-- An answer with all of its data is in the data buffer of the socket that IOP receives for, and the
-- application has a receiver for it.
pub record Arrived (n : ℕ) (bytes rest : Bytes) (b : RxBuf) (c : SocketCtrl)
    (ctrls : List SocketCtrl) (f : ℕ) (s : Ltem) : Type 0 where
  pub text : b.mem ≡ answer n bytes rest
  pub size : n ≡ length bytes
  pub not_empty : 0 < n
  pub word : n < 65536
  pub whole : b.head ≡ header_sz n + (n + ird_trailer_sz)
  pub unread : b.ird_sz ≡ 0
  pub socket : b.data_peer < socket_cnt
  pub peer : s.iop.rx_data_peer ≡ b.data_peer
  pub buffer : slot s.iop.rx_data_bufs s.iop.rx_data_buf_indx ≡ some b
  pub controls : s.sockets ≡ some ctrls
  pub control : get_elem? ctrls b.data_peer ≡ some c
  pub kept : c.flushing ≡ false
  pub receiver : c.receiver_func ≡ some f

-- the number of sockets
abbrev pub controls_cnt : Option (List SocketCtrl) → ℕ
controls_cnt none = 0
controls_cnt (some cs) = length cs

-- The data were handed over, and buffer, peer and lock are free again; the other buffers are as they
-- were, there still are as many sockets, and the next request waits for its turn.
pub record Delivered (bytes : Bytes) (c : SocketCtrl) (f i : ℕ) (s t : Ltem) : Type 0 where
  pub hands : t.deliveries ≡ s.deliveries ++ socket_data f c.socket_id bytes ∷ []
  pub peer_free : t.iop.rx_data_peer ≡ peer_none
  pub index_free : t.iop.rx_data_buf_indx ≡ no_buffer
  pub lock_free : t.atcmd.is_open ≡ false
  pub request_done : t.ird_reqst_at ≡ 0
  pub buffer_owner : (b : RxBuf) × (slot t.iop.rx_data_bufs i ≡ some b) × (b.data_peer ≡ peer_none)
  pub others : (j : ℕ) → j ≢ i → slot t.iop.rx_data_bufs j ≡ slot s.iop.rx_data_bufs j
  pub waits : t.ird_wait ≡ 1
  pub controls_kept : controls_cnt t.sockets ≡ controls_cnt s.sockets

starts_flow :
    (p z h k n : ℕ)
    → p < socket_cnt
    → z ≡ 0
    → h ≡ k + 2 + (n + ird_trailer_sz)
    → (ltb p socket_cnt && z == 0 && ltb 0 h) ≡ true
starts_flow p z h k n lt e e' = ground arith

has_size : (m n : ℕ) → m ≡ n → 0 < n → ltb 0 m ≡ true
has_size m n e h = ground arith

-- A round of the loop of `sckt_doWork` at the buffer of an answer that has arrived with all of its
-- data hands exactly these data to the receiver of the socket, once, and frees the buffer, the data
-- peer and the command lock.
pub service_buffer-Delivered :
    {n : ℕ} {bytes rest : Bytes} {b : RxBuf} {c : SocketCtrl} {ctrls : List SocketCtrl} {f : ℕ}
    {s : Ltem}
    → Arrived n bytes rest b c ctrls f s
    → (t : Ltem) × (service_buffer s.iop.rx_data_buf_indx b s ≡ ret tt t)
      × Delivered bytes c f s.iop.rx_data_buf_indx s t
unfolding service_buffer check_ready parse_ird reset_data_buffer rx_buf_reset
service_buffer-Delivered {n} {bytes} {rest} {b} {c} {ctrls} {f} {s} a =
    let i : ℕ = s.iop.rx_data_buf_indx in
    let q : RxBuf = check_ready (parse_ird b) in
    let w : Flow n bytes b q = check_ready-answer n bytes rest b a.text a.word a.size in
    let s₁ : Ltem = with_buf i q s in
    let c' : SocketCtrl = record c { data_buffer_indx = i } in
    let s₂ : Ltem = taken ctrls c s₁ in
    let t : Ltem = ended i q (handed f c' q s₂) in
    let ready : q.data_ready ≡ true = w.ready ∙ (==_iff _ _).1 a.whole in
    let held : slot s₂.iop.rx_data_bufs i ≡ some q = slot-set s.iop.rx_data_bufs i q a.buffer in
    let mine : get_elem? ctrls s.iop.rx_data_peer ≡ some c =
      subst (λ k. get_elem? ctrls k ≡ some c) (sym a.peer) a.control in
    let ours : get_elem? (set ctrls s.iop.rx_data_peer c') b.data_peer ≡ some c' =
      subst (λ k. get_elem? (set ctrls s.iop.rx_data_peer c') k ≡ some c') a.peer
        (get_elem?-set ctrls s.iop.rx_data_peer c' mine) in
    let parsed : parse_flow i b s ≡ ret tt s₂ =
      parse_flow-eq i b s (starts_flow b.data_peer b.ird_sz b.head _ n a.socket a.unread a.whole)
        (has_size q.ird_sz n w.ird_sz a.not_empty) ready
      ∙ take_buffer-eq s₁ ctrls c a.controls mine in
    let passed : deliver_ready i s₂ ≡ ret tt t =
      deliver_ready-eq i q s₂ held ready
      ∙ deliver-eq q q s₂ (set ctrls s.iop.rx_data_peer c') c' f refl ours a.kept a.receiver held in
    (
      t,
      ap
            (λ (o : Outcome (Unit {0})). elim o [
              | ret _ u ↦ elim (deliver_ready i u) [
                | ret _ v ↦ check_ird_timeout v
                | stop x ↦ stop x
              ]
              | stop x ↦ stop x
            ])
            parsed
          ∙ ap
              (λ (o : Outcome (Unit {0})). elim o [
                | ret _ v ↦ check_ird_timeout v
                | stop x ↦ stop x
              ])
              passed
          ∙ no_timeout t refl,
      record {
        hands = ap (λ d. s.deliveries ++ socket_data f c.socket_id d ∷ []) (w.text s.low_mem);
        peer_free = refl;
        index_free = refl;
        lock_free = refl;
        request_done = refl;
        buffer_owner = (rx_buf_reset q, slot-set s₂.iop.rx_data_bufs i (rx_buf_reset q) held, refl);
        others = λ j ne.
            get_or-set_ne (set s.iop.rx_data_bufs i (some q)) (some (rx_buf_reset q)) none
              (λ e. ne (sym e))
            ∙ get_or-set_ne s.iop.rx_data_bufs (some q) none (λ e. ne (sym e));
        waits = refl;
        controls_kept = length-set ctrls s.iop.rx_data_peer c' ∙ ap controls_cnt (sym a.controls);
      },
    )
