-- ===== src/Iop/Tx/Stream/Progress.antt =====
-- The send loop of `iop_txSend`: whether it ends.
use cr_lte_modem.Base.{
  ℕ, suc, ◌+◌, ◌≤◌, ◌<◌, min, ◌≡◌, refl, ap, inl, inr, true, List, [], ◌∷◌, ◌++◌, arith, length,
  List-cases,
}
use cr_lte_modem.CString.{Bytes}
use cr_lte_modem.Cbuf.Inv.{count}
use cr_lte_modem.Device.{Iop, Ltem, ret, stop, hung}
use cr_lte_modem.Iop.Tx.{
  put_loop, tx_put, tx_take, bridge_write, send_loop, tx_send, fifo_buffer_sz,
}
use cr_lte_modem.Iop.Tx.Stream.{TxValid, room, tx_put-TxPut, tx_take-TxTook}

-- no poll above the size of the FIFO
abbrev pub AllLevels : List ℕ → Type 0
AllLevels [] = Unit
AllLevels (l ∷ ls) = (l ≤ fifo_buffer_sz) × AllLevels ls

-- The FIFO drains: no poll is above its size, and behind those listed it reports space.
pub record Drains (levels : List ℕ) (space : ℕ) : Type 0 where
  pub sizes : AllLevels levels
  pub some_space : 0 < space
  pub size : space ≤ fifo_buffer_sz

-- at least one byte has been written to the bridge
abbrev pub Writes : Ltem → Ltem → Type 0
Writes s t = (x : ℕ) × (r : Bytes) × (t.sent ≡ s.sent ++ (x ∷ r))

bridge_write_returns :
    (out : Bytes) (s : Ltem)
    → length out ≤ fifo_buffer_sz
    → bridge_write out s ≡ ret tt (record s { sent = s.sent ++ out })
unfolding bridge_write
bridge_write_returns out s h = ground arith

abbrev delivered : Ltem → Iop → List ℕ → Bytes → Ltem
delivered s iop levels out = record s { iop = iop; tx_levels = levels; sent = s.sent ++ out }

no-min : (l sz c : ℕ) → l ≡ min sz c → l ≡ 0 → 0 < c → 0 < sz → ⊥
no-min l sz c e z h p = omega arith

min-le : (l sz c k : ℕ) → l ≡ min sz c → l ≡ k → sz ≤ fifo_buffer_sz → k ≤ fifo_buffer_sz
min-le l sz c k e z h = omega arith

left-pos : (a l c : ℕ) → a + l ≡ c → l ≡ 0 → 0 < c → 0 < a
left-pos a l c e z h = omega arith

send_loop_returns :
    (levels : List ℕ) (s : Ltem)
    → TxValid s.iop
    → 0 < count s.iop.tx_buf
    → AllLevels levels
    → 0 < s.tx_space
    → s.tx_space ≤ fifo_buffer_sz
    → (s' : Ltem) × (send_loop levels s ≡ ret tt s') × Writes s s'
unfolding send_loop
send_loop_returns [] s v pos h some small =
    let t = tx_take-TxTook s.tx_space v in
    elim (List-cases (tx_take s.tx_space s.iop).0) [
      | inl e ↦ absurd (no-min _ _ _ t.amount (ap length e) pos some)
      | inr (x, r, e) ↦ (
        delivered s (tx_take s.tx_space s.iop).1 [] (x ∷ r),
        rw (e, send_loop)
            (bridge_write_returns (x ∷ r) _ (min-le _ _ _ _ t.amount (ap length e) small)),
        (x, r, refl),
      )
    ]
send_loop_returns (l ∷ ls) s v pos h some small =
    let t = tx_take-TxTook l v in
    elim (List-cases (tx_take l s.iop).0) [
      | inl e ↦
          let (s', e', w) =
            send_loop_returns ls (record s { iop = (tx_take l s.iop).1 }) t.valid
              (left-pos _ _ _ t.counts (ap length e) pos) h.1 some small in
          (s', rw (e, send_loop) e', w)
      | inr (x, r, e) ↦ (
        delivered s (tx_take l s.iop).1 ls (x ∷ r),
        rw (e, send_loop)
            (bridge_write_returns (x ∷ r) _ (min-le _ _ _ _ t.amount (ap length e) h.0)),
        (x, r, refl),
      )
    ]

no-cons : (a l c : ℕ) {k : ℕ} → a + l ≡ c → l ≡ suc k → c ≡ 0 → ⊥
no-cons a l c e z h = omega arith

send_loop_hangs :
    (levels : List ℕ) (s : Ltem)
    → TxValid s.iop
    → count s.iop.tx_buf ≡ 0
    → send_loop levels s ≡ stop hung
unfolding send_loop
send_loop_hangs [] s v z =
    let t = tx_take-TxTook s.tx_space v in
    elim (List-cases (tx_take s.tx_space s.iop).0) [
      | inl e ↦ rw (e, send_loop)
      | inr (x, r, e) ↦ absurd (no-cons _ _ _ t.counts (ap length e) z)
    ]
send_loop_hangs (l ∷ ls) s v z =
    let t = tx_take-TxTook l v in
    elim (List-cases (tx_take l s.iop).0) [
      | inl e ↦
          rw (e, send_loop)
            (send_loop_hangs ls (record s { iop = (tx_take l s.iop).1 }) t.valid
              (none-left _ _ _ t.counts z))
      | inr (x, r, e) ↦ absurd (no-cons _ _ _ t.counts (ap length e) z)
    ]
  where
    none-left : (a l c : ℕ) → a + l ≡ c → c ≡ 0 → a ≡ 0
    none-left a l c e z = omega arith

-- `iop_txSend` returns where it has a byte to send, queued now or before, and the FIFO drains (no poll of
-- TXLVL reports more than its 64 bytes, and behind the polls listed, whatever they report, it reports some
-- space): it returns the number of the bytes queued, and has written at least one byte to the bridge.
pub tx_send_returns :
    (bytes : Bytes) (sz : ℕ) (s : Ltem)
    → TxValid s.iop
    → Drains s.tx_levels s.tx_space
    → 0 < count s.iop.tx_buf + min (min sz (length bytes)) (room s.iop)
    → (s' : Ltem) × (tx_send bytes sz true s ≡ ret (min (min sz (length bytes)) (room s.iop)) s')
      × Writes s s'
unfolding tx_send
tx_send_returns bytes sz s v d pos =
    let p = tx_put-TxPut bytes sz v in
    let (s', e, w) =
      send_loop_returns s.tx_levels (record s { iop = (tx_put bytes sz s.iop).1 }) p.valid
        (omega (arith, p.counts, p.taken, pos)) d.sizes d.some_space d.size in
    (s', rw (e, tx_send) (ap (λ n. ret n s') p.taken), w)

-- With nothing to queue and nothing waiting it never returns, whatever space the FIFO reports.
pub tx_send_hangs :
    (s : Ltem) → TxValid s.iop → count s.iop.tx_buf ≡ 0 → tx_send [] 0 true s ≡ stop hung
unfolding tx_send tx_put put_loop
tx_send_hangs s v z = rw (
  send_loop_hangs s.tx_levels (record s { iop = (tx_put [] 0 s.iop).1 }) (tx_put-TxPut [] 0 v).valid
      z,
  tx_send,
)
