-- ===== src/Iop/Tx/Only.antt =====
-- `iop_txSend` touches the transmit side of the device and nothing else.
use cr_lte_modem.Base.{
  ℕ, ◌≡◌, refl, ap, ◌∙◌, inl, inr, Bool, true, false, List, [], ◌∷◌, ltb, if-elim, length,
  List-cases,
}
use cr_lte_modem.CString.{Bytes}
use cr_lte_modem.Device.{Ltem, ret}
use cr_lte_modem.Iop.Tx.{fifo_buffer_sz, tx_put, tx_take, bridge_write, send_loop, tx_send}
use cr_lte_modem.Iop.Frame.{Keeping, Keeping-from, Keeping-then}

-- `s` with the transmit side of `t`
abbrev pub tx_side : Ltem → Ltem → Ltem
tx_side s t = record s {
  iop = record (s.iop) { tx_buf = t.iop.tx_buf; tx_pend = t.iop.tx_pend };
  sent = t.sent;
  tx_levels = t.tx_levels;
}

abbrev pub SendsOnly : Ltem → Ltem → Type 0
SendsOnly s t = t ≡ tx_side s t

pub SendsOnly-trans : (s t u : Ltem) → SendsOnly s t → SendsOnly t u → SendsOnly s u
SendsOnly-trans s t u h k = k ∙ ap (λ x. tx_side x u) h

bridge_write-SendsOnly : (out : Bytes) (s : Ltem) → Keeping SendsOnly s (bridge_write out s)
unfolding bridge_write
bridge_write-SendsOnly out s =
    if-elim (Keeping SendsOnly s) (ltb fifo_buffer_sz (length out)) (λ _. tt) (λ _. refl)

-- a chunk taken from the buffer
taken-SendsOnly :
    (n : ℕ) (levels : List ℕ) (s : Ltem)
    → SendsOnly s (record s { iop = (tx_take n s.iop).1; tx_levels = levels })
unfolding tx_take
taken-SendsOnly n levels s = refl

send_loop-SendsOnly : (levels : List ℕ) (s : Ltem) → Keeping SendsOnly s (send_loop levels s)
unfolding send_loop
send_loop-SendsOnly [] s = elim (List-cases (tx_take s.tx_space s.iop).0) [
  | inl e ↦ rw (e, send_loop) tt
  | inr (x, r, e) ↦
      rw (e, send_loop)
        (Keeping-from SendsOnly SendsOnly-trans {s = s} _ (taken-SendsOnly s.tx_space [] s)
          (bridge_write-SendsOnly (x ∷ r) _))
]
send_loop-SendsOnly (l ∷ ls) s = elim (List-cases (tx_take l s.iop).0) [
  | inl e ↦
      rw (e, send_loop)
        (Keeping-from SendsOnly SendsOnly-trans {s = s} _ (taken-SendsOnly l s.tx_levels s)
          (send_loop-SendsOnly ls _))
  | inr (x, r, e) ↦
      rw (e, send_loop)
        (Keeping-from SendsOnly SendsOnly-trans {s = s} _ (taken-SendsOnly l ls s)
          (bridge_write-SendsOnly (x ∷ r) _))
]

pub tx_send-SendsOnly :
    (bytes : Bytes) (sz : ℕ) (ready : Bool) (s : Ltem)
    → Keeping SendsOnly s (tx_send bytes sz ready s)
unfolding tx_send tx_put
tx_send-SendsOnly bytes sz false s = refl
tx_send-SendsOnly bytes sz true s = Keeping-from SendsOnly SendsOnly-trans {s = s} {t = s'} _ refl (
    Keeping-then SendsOnly SendsOnly-trans (send_loop s.tx_levels s')
      (λ _. ret (tx_put bytes sz s.iop).0) s' (send_loop-SendsOnly s.tx_levels s') (λ _ t. refl))
  where
    s' : Ltem
    s' = record s { iop = (tx_put bytes sz s.iop).1 }
