-- ===== src/Iop/Tx.antt =====
-- The transmit path of src/ltemc-iop.c: `s_txPut`, `s_txTake` and `iop_txSend`.
pub mod Flow
pub mod Only
pub mod Stream
use cr_lte_modem.Base.{
  ℕ, zero, suc, ◌+◌, ◌-◌, ◌*◌, ◌/◌, ◌%◌, ◌^◌, ◌≤◌, ◌<◌, min, ◌≡◌, refl, sym, ap, ap₂, ◌∙◌, ◌≢◌, ◌↔◌,
  ◌⊎◌, inl, inr, Bool, true, false, not, ◌&&◌, ◌||◌, Option, none, some, List, [], ◌∷◌, ◌++◌, map,
  append-nil, append_assoc, arith, ltb, leb, ◌==◌, if◌then◌else◌, ltb→lt, lt→ltb, leb→le, ==_iff,
  Bool-cases, Option-cases, length, get_elem?, get_or, set, take, drop, replicate, length-append,
  length-set, length-take, length-drop, length-replicate, take-append-drop, take-append,
  drop-append, drop-append_le, drop-add, drop-append_add, get_elem?-eq-get_or, get_or-set_self,
  get_or-set_ne, take-nil, u8, u16, u32, sub16, sub32,
}
use cr_lte_modem.CString.{Bytes}
use cr_lte_modem.Cbuf
use cr_lte_modem.Cbuf.{Cbuf}
use cr_lte_modem.Device.{Iop, Ltem, M, Outcome, ret, stop, hung, undefined}

-- The loop of `s_txPut`: push until the data end or a push is refused; the count pushed.
unfoldable pub put_loop : Bytes → Cbuf → ℕ × Cbuf
put_loop [] c = (0, c)
put_loop (x ∷ xs) c =
    let (done, c') = Cbuf.push c x in
    let rest = put_loop xs c' in if done then (suc rest.0, rest.1) else (0, c')

-- `s_txPut`; `putCnt` is at most `dataSz`, a `uint16_t`, so it does not wrap.
unfoldable pub tx_put : Bytes → ℕ → Iop → ℕ × Iop
tx_put bytes sz iop =
    let (n, c) = put_loop (take sz bytes) iop.tx_buf in
    (n, record iop { tx_buf = c; tx_pend = u16 (iop.tx_pend + n) })

-- The loop of `s_txTake`: pop `sz` bytes at most; the bytes popped.
unfoldable pub take_loop : ℕ → Cbuf → Bytes × Cbuf
take_loop zero c = ([], c)
take_loop (suc n) c =
    let (done, out, c') = Cbuf.pop c in
    let rest = take_loop n c' in elim out [ some x ↦ (x ∷ rest.0, rest.1) | none ↦ ([], c') ]

-- `s_txTake`
unfoldable pub tx_take : ℕ → Iop → Bytes × Iop
tx_take sz iop =
    let (out, c) = take_loop sz iop.tx_buf in
    (out, record iop { tx_buf = c; tx_pend = sub16 iop.tx_pend (length out) })

abbrev pub fifo_buffer_sz : ℕ
fifo_buffer_sz = 64

-- `sc16is741a_write` of what a take has put into the local buffer of 64 bytes.
unfoldable pub bridge_write : Bytes → M (Unit {0})
bridge_write out s =
    if ltb fifo_buffer_sz (length out)
    then stop undefined
    else ret tt (record s { sent = s.sent ++ out })

-- The loop of `iop_txSend`, one round for each poll of TXLVL: until a chunk has been written. The polls
-- to come are listed, and behind them TXLVL reads `tx_space` for good: where that or the buffer gives
-- nothing to take, the loop spins.
unfoldable pub send_loop : List ℕ → M (Unit {0})
send_loop [] s =
    let (out, iop) = tx_take s.tx_space s.iop in
    elim out [
      | [] ↦ stop hung
      | x ∷ xs ↦ bridge_write (x ∷ xs) (record s { iop = iop; tx_levels = [] })
    ]
send_loop (level ∷ levels) s =
    let (out, iop) = tx_take level s.iop in
    elim out [
      | [] ↦ send_loop levels (record s { iop = iop })
      | x ∷ xs ↦ bridge_write (x ∷ xs) (record s { iop = iop; tx_levels = levels })
    ]

-- `iop_txSend`
unfoldable pub tx_send : Bytes → ℕ → Bool → M ℕ
tx_send bytes sz ready s =
    let (n, iop) = tx_put bytes sz s.iop in
    let s' = record s { iop = iop } in
    elim ready [
      | false ↦ ret n s'
      | true ↦ elim (send_loop s'.tx_levels s') [ ret _ s'' ↦ ret n s'' | stop w ↦ stop w ]
    ]
