-- ===== src/Iop/Tx/Stream.antt =====
-- `iop_txSend` and the stream of bytes: those written to the bridge, and those still in the buffer.
pub mod Progress
use cr_lte_modem.Base.{
  ℕ, suc, ◌+◌, ◌-◌, ◌≤◌, ◌<◌, min, ◌≡◌, sym, ap, ◌∙◌, inl, inr, Bool, true, false, List, [], ◌∷◌,
  ◌++◌, append_assoc, arith, length, take, length-take, List-cases,
}
use cr_lte_modem.CString.{Bytes}
use cr_lte_modem.Cbuf.Inv.{IsValid, count}
use cr_lte_modem.Cbuf.Refine.{contents, length-contents}
use cr_lte_modem.Device.{Iop, Ltem, ret, stop, hung, ret-injective, Outcome-cases}
use cr_lte_modem.Iop.Tx.{
  put_loop, tx_put, tx_take, bridge_write, send_loop, tx_send, fifo_buffer_sz,
}
use cr_lte_modem.Iop.Tx.Flow.{put_loop-Put, take_loop-Took}

-- The transmit state: a valid buffer of a size that a `uint16_t` counts, and `txPend` its fill.
pub record TxValid (iop : Iop) : Type 0 where
  pub valid : IsValid iop.tx_buf
  pub small : iop.tx_buf.maxlen ≤ 65536
  pub pend : iop.tx_pend ≡ count iop.tx_buf

-- all bytes accepted for the modem
abbrev pub stream : Ltem → Bytes
stream s = s.sent ++ contents s.iop.tx_buf

-- the room in the buffer
abbrev pub room : Iop → ℕ
room iop = iop.tx_buf.maxlen - 1 - count iop.tx_buf

pub record TxTook (sz : ℕ) (iop : Iop) (out : Bytes × Iop) : Type 0 where
  pub valid : TxValid out.1
  pub split : out.0 ++ contents out.1.tx_buf ≡ contents iop.tx_buf
  pub amount : length out.0 ≡ min sz (count iop.tx_buf)
  pub counts : count out.1.tx_buf + length out.0 ≡ count iop.tx_buf

-- `s_txTake` takes the bytes in front, and keeps the count of those pending.
pub tx_take-TxTook : (sz : ℕ) {iop : Iop} → TxValid iop → TxTook sz iop (tx_take sz iop)
unfolding tx_take
tx_take-TxTook sz {iop} v =
    let t = take_loop-Took sz v.valid in
    record {
      valid = record {
        valid = t.valid;
        small = omega (arith, t.size, v.small);
        pend = omega (arith, t.counts, v.pend, v.small, t.size, length-contents iop.tx_buf, fits);
      };
      split = t.split;
      amount = t.amount;
      counts = t.counts;
    }
  where
    fits : count iop.tx_buf < iop.tx_buf.maxlen
    fits = ground (arith, v.valid)

pub record TxPut (bytes : Bytes) (sz : ℕ) (iop : Iop) (out : ℕ × Iop) : Type 0 where
  pub valid : TxValid out.1
  pub taken : out.0 ≡ min (min sz (length bytes)) (room iop)
  pub holds : contents out.1.tx_buf ≡ contents iop.tx_buf ++ take out.0 (take sz bytes)
  pub counts : count out.1.tx_buf ≡ count iop.tx_buf + out.0
  pub size : out.1.tx_buf.maxlen ≡ iop.tx_buf.maxlen

-- `s_txPut` takes as many bytes as there is room for, and keeps the count of those pending.
pub tx_put-TxPut :
    (bytes : Bytes) (sz : ℕ) {iop : Iop} → TxValid iop → TxPut bytes sz iop (tx_put bytes sz iop)
unfolding tx_put
tx_put-TxPut bytes sz {iop} v =
    let p = put_loop-Put (take sz bytes) v.valid in
    record {
      valid = record {
        valid = p.valid;
        small = omega (arith, p.size, v.small);
        pend = omega (arith, p.counts, p.taken, v.pend, v.small, fits);
      };
      taken = omega (arith, p.taken, length-take sz bytes);
      holds = p.holds;
      counts = p.counts;
      size = p.size;
    }
  where
    fits : count iop.tx_buf < iop.tx_buf.maxlen
    fits = ground (arith, v.valid)

-- what a write to the bridge does with the stream
bridge_write-stream :
    (out : Bytes) (s s' : Ltem) {u : Unit {0}}
    → bridge_write out s ≡ ret u s'
    → (stream s' ≡ s.sent ++ (out ++ contents s.iop.tx_buf)) × (s'.iop ≡ s.iop)
unfolding bridge_write
bridge_write-stream out s s' h = ground (arith, append_assoc s.sent out (contents s.iop.tx_buf))

-- The send loop keeps the stream and the transmit state.
send_loop-keeps :
    (levels : List ℕ) (s s' : Ltem) {u : Unit {0}}
    → TxValid s.iop
    → send_loop levels s ≡ ret u s'
    → (stream s' ≡ stream s) × TxValid s'.iop
unfolding send_loop
send_loop-keeps [] s s' v h =
    let t = tx_take-TxTook s.tx_space v in
    elim (List-cases (tx_take s.tx_space s.iop).0) [
      | inl e ↦ absurd (ground (arith, h, e))
      | inr (x, r, e) ↦
          let (a, b) = bridge_write-stream (x ∷ r) _ s' (rw (e, send_loop) at h) in
          (a ∙ ap (λ q. s.sent ++ q) (rw e at t.split), rw b t.valid)
    ]
send_loop-keeps (l ∷ ls) s s' v h =
    let t = tx_take-TxTook l v in
    elim (List-cases (tx_take l s.iop).0) [
      | inl e ↦
          let (a, b) =
            send_loop-keeps ls (record s { iop = (tx_take l s.iop).1 }) s' t.valid
              (rw (e, send_loop) at h) in
          (a ∙ ap (λ q. s.sent ++ q) (rw e at t.split), b)
      | inr (x, r, e) ↦
          let (a, b) = bridge_write-stream (x ∷ r) _ s' (rw (e, send_loop) at h) in
          (a ∙ ap (λ q. s.sent ++ q) (rw e at t.split), rw b t.valid)
    ]

-- `iop_txSend` queues as many of the bytes as there is room for and returns their number; whether or
-- not it sends, the bytes written to the bridge with those that wait are what they were before, and
-- then exactly the bytes queued, in order; the transmit state stays valid.
pub tx_send-stream :
    (bytes : Bytes) (sz : ℕ) (ready : Bool) (s s' : Ltem) (n : ℕ)
    → TxValid s.iop
    → tx_send bytes sz ready s ≡ ret n s'
    → (n ≡ min (min sz (length bytes)) (room s.iop))
      × (stream s' ≡ stream s ++ take n (take sz bytes))
      × TxValid s'.iop
unfolding tx_send
tx_send-stream bytes sz false s s' n v h =
    let p = tx_put-TxPut bytes sz v in
    let (en, es) = ret-injective h in
    rw (← en, ← es)
      (
        p.taken,
        ap (λ q. s.sent ++ q) p.holds ∙ sym (append_assoc s.sent (contents s.iop.tx_buf) _),
        p.valid,
      )
tx_send-stream bytes sz true s s' n v h =
    let p = tx_put-TxPut bytes sz v in
    let s₁ = record s { iop = (tx_put bytes sz s.iop).1 } in
    elim (Outcome-cases (send_loop s.tx_levels s₁)) [
      | inr (w, e) ↦ absurd (cc (rw (e, tx_send) at h))
      | inl (u, s₂, e) ↦
          let (en, es) = ret-injective (rw (e, tx_send) at h) in
          let (a, b) = send_loop-keeps s.tx_levels s₁ s₂ p.valid e in
          rw (← en, ← es)
            (
              p.taken,
              a
                  ∙ ap (λ q. s.sent ++ q) p.holds
                  ∙ sym (append_assoc s.sent (contents s.iop.tx_buf) _),
              b,
            )
    ]
