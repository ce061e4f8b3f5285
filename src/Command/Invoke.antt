-- ===== src/Command/Invoke.antt =====
-- The text that `atcmd_tryInvokeAdv` sends, and the command that it opens.
use cr_lte_modem.Base.{
  ℕ, zero, suc, ◌+◌, ◌-◌, ◌≤◌, ◌<◌, min, ◌≡◌, refl, ap, ◌∙◌, inl, inr, Bool, true, false, Option,
  none, some, List, [], ◌∷◌, ◌++◌, append_assoc, arith, if◌then◌else◌, length, take, List-cases,
  u16,
}
use cr_lte_modem.Iop.Tx.Only.{SendsOnly, SendsOnly-trans, tx_send-SendsOnly}
use mathlib.Core.Path.{subst}
use cr_lte_modem.CString.{Bytes, codes}
use cr_lte_modem.Cbuf.Inv.{count}
use cr_lte_modem.Parser.{Parser, ok_result_parser, result_pending}
use cr_lte_modem.Device.{Ltem, Atcmd, Iop, Outcome, ret, stop, tx_buffer_sz}
use cr_lte_modem.Host.{millis}
use cr_lte_modem.Iop.Tx.{tx_take, tx_put, send_loop, tx_send}
use cr_lte_modem.Iop.Tx.Stream.{TxValid, tx_put-TxPut, stream, room, tx_send-stream}
use cr_lte_modem.Iop.Tx.Stream.Progress.{Drains, Writes, tx_send_returns}
use cr_lte_modem.Iop.Frame.{
  Frame, Frame-refl, Frame-trans, Keeping, Keeping-from, Keeping-then, Keeps,
}
use cr_lte_modem.Iop.Service.{bridge_write-Keeps}
use cr_lte_modem.Iop.Rx.{reset_cmd_buffer}
use cr_lte_modem.Command.{
  atcmd_init, await_lock, acquire_lock, or_ok, invoke_locked, try_invoke_adv, with_atcmd,
}

with_iop-Frame :
    (s : Ltem) (iop : Iop) (levels : List ℕ) → Frame s (record s { iop = iop; tx_levels = levels })
with_iop-Frame s iop levels = record {
  atcmd = refl;
  now = refl;
  schedule = refl;
  cancellation = refl;
  low_mem = refl;
  hw_ready = refl;
  comm_ready = refl;
}

send_loop-Keeps : (levels : List ℕ) (s : Ltem) → Keeps s (send_loop levels s)
unfolding send_loop
send_loop-Keeps [] s = elim (List-cases (tx_take s.tx_space s.iop).0) [
  | inl e ↦ rw (e, send_loop) tt
  | inr (x, r, e) ↦
      rw (e, send_loop)
        (Keeping-from Frame Frame-trans _ (with_iop-Frame s _ []) (bridge_write-Keeps (x ∷ r) _))
]
send_loop-Keeps (l ∷ ls) s = elim (List-cases (tx_take l s.iop).0) [
  | inl e ↦
      rw (e, send_loop)
        (Keeping-from Frame Frame-trans _ (with_iop-Frame s _ s.tx_levels) (send_loop-Keeps ls _))
  | inr (x, r, e) ↦
      rw (e, send_loop)
        (Keeping-from Frame Frame-trans _ (with_iop-Frame s _ ls) (bridge_write-Keeps (x ∷ r) _))
]

tx_send-Keeps :
    (bytes : Bytes) (sz : ℕ) (ready : Bool) (s : Ltem) → Keeps s (tx_send bytes sz ready s)
unfolding tx_send
tx_send-Keeps bytes sz false s = with_iop-Frame s (tx_put bytes sz s.iop).1 s.tx_levels
tx_send-Keeps bytes sz true s =
    Keeping-from Frame Frame-trans _ (with_iop-Frame s (tx_put bytes sz s.iop).1 s.tx_levels) (
      Keeping-then Frame Frame-trans (send_loop s.tx_levels s') (λ _. ret (tx_put bytes sz s.iop).0)
        s' (send_loop-Keeps s.tx_levels s') (λ _. Frame-refl))
  where
    s' : Ltem
    s' = record s { iop = (tx_put bytes sz s.iop).1 }

-- What a call that only queues leaves: the bytes behind those that wait, and less room.
record Queued (bytes : Bytes) (s t : Ltem) : Type 0 where
  returns : tx_send bytes (u16 (length bytes)) false s ≡ ret (length bytes) t
  stream : stream t ≡ stream s ++ bytes
  valid : TxValid t.iop
  left : room t.iop + length bytes ≡ room s.iop
  frame : Frame s t
  drains : Drains s.tx_levels s.tx_space → Drains t.tx_levels t.tx_space
  unsent : t.sent ≡ s.sent

all-fits : (n sz r : ℕ) → n < 65536 → n ≤ r → sz ≡ u16 n → min (min sz n) r ≡ n
all-fits n sz r lt le e = omega arith

left-room : (m c n c' m' : ℕ) → n ≤ m - 1 - c → c' ≡ c + n → m' ≡ m → m' - 1 - c' + n ≡ m - 1 - c
left-room m c n c' m' h e e' = omega arith

take_all : (n : ℕ) (xs : Bytes) → n ≡ length xs → take n xs ≡ xs
take_all zero [] h = refl
take_all zero (x ∷ xs) h = absurd (omega (arith, h))
take_all (suc n) [] h = refl
take_all (suc n) (x ∷ xs) h = ap (λ r. x ∷ r) (take_all n xs (omega (arith, h)))

tx_send-Queued :
    (bytes : Bytes) (s : Ltem)
    → TxValid s.iop
    → length bytes < 65536
    → length bytes ≤ room s.iop
    → (t : Ltem) × Queued bytes s t
unfolding tx_send
tx_send-Queued bytes s v small h =
    let sz : ℕ = u16 (length bytes) in
    let p = tx_put-TxPut bytes sz v in
    let t : Ltem = record s { iop = (tx_put bytes sz s.iop).1 } in
    let n : (tx_put bytes sz s.iop).0 ≡ length bytes =
      p.taken ∙ all-fits (length bytes) sz (room s.iop) small h refl in
    let k = tx_send-stream bytes sz false s t (tx_put bytes sz s.iop).0 v refl in
    (
      t,
      record {
        returns = ap (λ m. ret m t) n;
        stream =
            k.1
            ∙ ap (λ r. stream s ++ r)
                (ap (λ m. take m (take sz bytes)) n
                  ∙ ap (take (length bytes)) (take_all sz bytes (omega (arith, small)))
                  ∙ take_all (length bytes) bytes refl);
        valid = p.valid;
        left =
            left-room s.iop.tx_buf.maxlen (count s.iop.tx_buf) (length bytes) (count t.iop.tx_buf)
              t.iop.tx_buf.maxlen h (p.counts ∙ ap (λ m. count s.iop.tx_buf + m) n) p.size;
        frame = with_iop-Frame s t.iop s.tx_levels;
        drains = λ d. d;
        unsent = refl;
      },
    )

-- A command started: its text with a carriage return is on its way behind what was sent before, and
-- the transmission has begun; it is open and pending, its timer runs from now, and its parser is the one
-- given, or the standard one.
pub record Invoked (cmd : Bytes) (timeout : ℕ) (p : Option Parser) (s t : Ltem) : Type 0 where
  pub sends : stream t ≡ stream s ++ (cmd ++ codes "\r")
  pub transmits : Writes s t
  pub valid : TxValid t.iop
  pub is_open : t.atcmd.is_open ≡ true
  pub pending : t.atcmd.result_code ≡ result_pending
  pub timer : t.atcmd.invoked_at ≡ millis s
  pub timeout_set : t.atcmd.timeout_millis ≡ timeout
  pub parser :
      t.atcmd.parser ≡ elim p [ none ↦ some (ok_result_parser s.low_mem) | some q ↦ some q ]
  pub text : t.atcmd.cmd_str ≡ take tx_buffer_sz cmd
  pub schedule : t.schedule ≡ s.schedule

-- the state in which the text is sent
abbrev pub started : Bytes → ℕ → Option Parser → Ltem → Ltem
started cmd timeout p s =
    let s' = atcmd_init cmd s in
    with_atcmd
      (λ a. record a { timeout_millis = timeout; invoked_at = millis s'; parser = or_ok s' p }) s'

started_equation :
    (cmd : Bytes) (timeout : ℕ) (p : Option Parser) (s s₂ t : Ltem) (n m : ℕ)
    → s.atcmd.is_open ≡ false
    → tx_send cmd (u16 (length cmd)) false (started cmd timeout p s) ≡ ret n s₂
    → tx_send (codes "\r") 1 true s₂ ≡ ret m t
    → try_invoke_adv cmd timeout p s ≡ ret true t
unfolding try_invoke_adv invoke_locked acquire_lock
started_equation cmd timeout p s s₂ t n m closed e₁ e₂ =
    ap
      (λ (c : Bool).
        elim (if c
          then elim (await_lock 3 s) [
            | ret true s' ↦ ret true (atcmd_init cmd s')
            | ret false s' ↦ ret false s'
            | stop w ↦ stop w
          ]
          else ret true (atcmd_init cmd s)) [
            | ret true s' ↦ invoke_locked cmd timeout p s'
            | ret false s' ↦ ret false s'
            | stop w ↦ stop w
          ])
      closed
    ∙ ap
        (λ (o : Outcome ℕ). elim o [
          | ret _ a ↦ elim (tx_send (codes "\r") 1 true a) [
            | ret _ b ↦ ret true b
            | stop w ↦ stop w
          ]
          | stop w ↦ stop w
        ])
        e₁
    ∙ ap (λ (o : Outcome ℕ). elim o [ ret _ b ↦ ret true b | stop w ↦ stop w ]) e₂

room-pos : (r n m : ℕ) → r + n ≡ m → n + 1 ≤ m → min (min 1 1) r ≡ 1
room-pos r n m e h = omega arith

-- `atcmd_tryInvokeAdv` on a device with no command open, and room for the text and its carriage
-- return in a valid transmit buffer, succeeds as `Invoked` says; apart from the transmit side the device
-- is the one with the command started.
pub try_invoke_adv-started :
    (cmd : Bytes) (timeout : ℕ) (p : Option Parser) (s : Ltem)
    → s.atcmd.is_open ≡ false
    → TxValid s.iop
    → Drains s.tx_levels s.tx_space
    → length cmd < 65536
    → length cmd + 1 ≤ room s.iop
    → (t : Ltem) × (try_invoke_adv cmd timeout p s ≡ ret true t)
      × Invoked cmd timeout p s t
      × SendsOnly (started cmd timeout p s) t
unfolding atcmd_init reset_cmd_buffer
try_invoke_adv-started cmd timeout p s closed v levels small h =
    let s₁ : Ltem = started cmd timeout p s in
    let v' : TxValid s₁.iop = record { valid = v.valid; small = v.small; pend = v.pend } in
    let (s₂, q) = tx_send-Queued cmd s₁ v' small (omega (arith, h)) in
    let one = room-pos (room s₂.iop) (length cmd) (room s.iop) q.left h in
    let (t, e, w) =
      tx_send_returns (codes "\r") 1 s₂ q.valid (q.drains levels) (omega (arith, one)) in
    let k = tx_send-stream (codes "\r") 1 true s₂ t _ q.valid e in
    let f : Frame s₁ t =
      Frame-trans s₁ s₂ t q.frame (subst (Keeps s₂) e (tx_send-Keeps (codes "\r") 1 true s₂)) in
    (
      t,
      started_equation cmd timeout p s s₂ t _ _ closed q.returns e,
      record {
        sends =
            k.1
            ∙ ap (λ m. stream s₂ ++ take m (codes "\r")) one
            ∙ ap (λ r. r ++ codes "\r") q.stream
            ∙ append_assoc (stream s) cmd (codes "\r");
        transmits = written s₂ t w q.unsent;
        valid = k.2;
        is_open = ap (λ (a : Atcmd). a.is_open) f.atcmd;
        pending = ap (λ (a : Atcmd). a.result_code) f.atcmd;
        timer = ap (λ (a : Atcmd). a.invoked_at) f.atcmd;
        timeout_set = ap (λ (a : Atcmd). a.timeout_millis) f.atcmd;
        parser = ap (λ (a : Atcmd). a.parser) f.atcmd ∙ chosen p;
        text = ap (λ (a : Atcmd). a.cmd_str) f.atcmd;
        schedule = f.schedule;
      },
      SendsOnly-trans s₁ s₂ t
          (subst (Keeping SendsOnly s₁) q.returns
            (tx_send-SendsOnly cmd (u16 (length cmd)) false s₁))
          (subst (Keeping SendsOnly s₂) e (tx_send-SendsOnly (codes "\r") 1 true s₂)),
    )
  where
    written : (a b : Ltem) → Writes a b → a.sent ≡ s.sent → Writes s b
    written a b w e = (w.0, w.1, w.2 ∙ ap (λ sent. sent ++ (w.0 ∷ w.1)) e)

    chosen :
        (p : Option Parser)
        → or_ok s p ≡ elim p [ none ↦ some (ok_result_parser s.low_mem) | some q ↦ some q ]
    chosen none = refl
    chosen (some q) = refl

-- `atcmd_tryInvokeAdv` on a device with no command open, and room for the text and its carriage
-- return in a valid transmit buffer, succeeds: the bytes written to the bridge with those that wait in the
-- transmit buffer are what they were before, then the text and a carriage return, and at least one byte
-- has been written to the bridge, which starts the transmission that interrupts go on with; the
-- command is open and pending, its text kept (up to the size of the array), its timer runs from now with
-- the timeout given, its parser is the one given, or the standard one for NULL, and no event has taken
-- place. (The FIFO drains: no poll of TXLVL reports more than its 64 bytes, and in the end it reports
-- space.)
pub try_invoke_adv-Invoked :
    (cmd : Bytes) (timeout : ℕ) (p : Option Parser) (s : Ltem)
    → s.atcmd.is_open ≡ false
    → TxValid s.iop
    → Drains s.tx_levels s.tx_space
    → length cmd < 65536
    → length cmd + 1 ≤ room s.iop
    → (t : Ltem) × (try_invoke_adv cmd timeout p s ≡ ret true t) × Invoked cmd timeout p s t
try_invoke_adv-Invoked cmd timeout p s closed v levels small h =
    let (t, e, k, only) = try_invoke_adv-started cmd timeout p s closed v levels small h in
    (t, e, k)
