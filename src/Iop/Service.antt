-- ===== src/Iop/Service.antt =====
-- The rounds of the service routine together: what they leave alone, and the transmit stream.
use cr_lte_modem.Base.{
  ℕ, ◌≤◌, ◌≡◌, refl, sym, ap, ap₂, ◌∙◌, inl, inr, ◌||◌, List, [], ◌∷◌, ◌++◌, append_assoc, arith,
  ltb, ◌==◌, if-elim, length, List-cases,
}
use cr_lte_modem.CString.{Bytes}
use cr_lte_modem.Device.{ret, stop, Outcome, Pass, Ltem}
use cr_lte_modem.Iop.Tx.{bridge_write, tx_take}
use mathlib.Core.Path.{subst}
use cr_lte_modem.Cbuf.{Cbuf}
use cr_lte_modem.Cbuf.Inv.{IsValid, count}
use cr_lte_modem.Cbuf.Refine.{contents}
use cr_lte_modem.Iop.Tx.Stream.{TxValid, stream, tx_take-TxTook}
use cr_lte_modem.Iop.Isr.{service_rx, service_tx, service_pass, isr}
use cr_lte_modem.Iop.Frame.{
  Frame, Frame-refl, Frame-trans, Keeping, Keeping-then, Keeping-weaken, Keeps, Keeps-from,
}
use cr_lte_modem.Iop.Receive.{RxFrame, service_rx-RxKeeps, service_rx-Keeps}

pub bridge_write-Keeps : (out : Bytes) (s : Ltem) → Keeps s (bridge_write out s)
unfolding bridge_write
bridge_write-Keeps out s = ground arith

service_tx-Keeps : (level : ℕ) (s : Ltem) → Keeps s (service_tx level s)
unfolding service_tx
service_tx-Keeps level s = elim (List-cases (tx_take level s.iop).0) [
  | inl e ↦ rw (e, service_tx) (ground arith)
  | inr (x, r, e) ↦ rw (e, service_tx) (Keeps-from _ (ground arith) (bridge_write-Keeps (x ∷ r) _))
]

service_pass-Keeps : (p : Pass) (s : Ltem) → Keeps s (service_pass p s)
unfolding service_pass
service_pass-Keeps p s = ground (arith, service_rx-Keeps p.rx s, service_tx-Keeps p.tx_level s)

-- An interrupt, whatever its rounds, leaves the command in progress, the clock, the schedule and the
-- request to cancel as they were.
pub isr-Keeps : (ps : List Pass) (s : Ltem) → Keeps s (isr ps s)
unfolding isr
isr-Keeps [] s = Frame-refl s
isr-Keeps (p ∷ ps) s =
    Keeping-then Frame Frame-trans (service_pass p s) (λ _. isr ps) s (service_pass-Keeps p s)
      (λ _ t. isr-Keeps ps t)

-- The transmit state stays valid and the stream is not changed.
abbrev pub Streams : Ltem → Ltem → Type 0
Streams s t = TxValid s.iop → TxValid t.iop × (stream t ≡ stream s)

Streams-trans : (s t u : Ltem) → Streams s t → Streams t u → Streams s u
Streams-trans s t u f g v = let (vt, et) = f v in let (vu, eu) = g vt in (vu, eu ∙ et)

RxFrame-Streams : {s t : Ltem} → RxFrame s t → Streams s t
RxFrame-Streams {s} {t} f v = (
  record {
    valid = subst IsValid (sym f.tx_buf) v.valid;
    small = subst (λ (c : Cbuf). c.maxlen ≤ 65536) (sym f.tx_buf) v.small;
    pend = f.tx_pend ∙ v.pend ∙ ap count (sym f.tx_buf);
  },
  ap₂ ◌++◌ f.sent (ap contents f.tx_buf),
)

service_rx-Streams : (chunk : Bytes) (s : Ltem) → Keeping Streams s (service_rx chunk s)
service_rx-Streams chunk s =
    Keeping-weaken RxFrame Streams (service_rx chunk s) (λ _. RxFrame-Streams)
      (service_rx-RxKeeps chunk s)

service_tx-Streams : (level : ℕ) (s : Ltem) → Keeping Streams s (service_tx level s)
unfolding service_tx bridge_write
service_tx-Streams level s = elim (List-cases (tx_take level s.iop).0) [
  | inl e ↦
      rw (e, service_tx)
        (λ v. let t = tx_take-TxTook level v in (t.valid, ap (λ q. s.sent ++ q) (rw e at t.split)))
  | inr (x, r, e) ↦ rw (e, service_tx) (written x r e)
]
  where
    written :
        (x : ℕ) (r : Bytes)
        → (tx_take level s.iop).0 ≡ x ∷ r
        → Keeping Streams s (bridge_write (x ∷ r) (record s { iop = (tx_take level s.iop).1 }))
    written x r e =
        if-elim (Keeping Streams s) (ltb 64 (length (x ∷ r))) (λ _. tt)
          (λ _ v.
            let t = tx_take-TxTook level v in
            (t.valid, append_assoc s.sent (x ∷ r) _ ∙ ap (λ q. s.sent ++ q) (rw e at t.split)))

service_pass-Streams : (p : Pass) (s : Ltem) → Keeping Streams s (service_pass p s)
unfolding service_pass
service_pass-Streams p s =
    if-elim (Keeping Streams s) (p.source == 2 || p.source == 6) (λ _. service_rx-Streams p.rx s)
      (λ _.
        if-elim (Keeping Streams s) (p.source == 1) (λ _. service_tx-Streams p.tx_level s)
          (λ _ v. (v, refl)))

isr-Streams : (ps : List Pass) (s : Ltem) → Keeping Streams s (isr ps s)
unfolding isr
isr-Streams [] s = λ v. (v, refl)
isr-Streams (p ∷ ps) s =
    Keeping-then Streams Streams-trans (service_pass p s) (λ _. isr ps) s (service_pass-Streams p s)
      (λ _ t. isr-Streams ps t)

-- the stream of a state, and a valid transmit state
abbrev pub SameStream : Ltem → Ltem → Type 0
SameStream s t = TxValid t.iop × (stream t ≡ stream s)

-- However many rounds an interrupt has, and whatever they find in the registers, an interrupt that
-- comes back leaves a valid transmit state valid, and the bytes written to the bridge with those still
-- waiting are the same, in the same order. (One that does not has no lack of fuel.)
pub isr-stream : (ps : List Pass) (s : Ltem) → TxValid s.iop → Keeping SameStream s (isr ps s)
isr-stream ps s v = at_valid (isr ps s) (isr-Streams ps s)
  where
    at_valid : (o : Outcome (Unit {0})) → Keeping Streams s o → Keeping SameStream s o
    at_valid (ret u t) k = k v
    at_valid (stop w) k = k
