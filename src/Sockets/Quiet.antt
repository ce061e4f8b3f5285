-- ===== src/Sockets/Quiet.antt =====
-- The loops of `sckt_doWork` where they have nothing to do: idle buffers, and wait cycles.
use cr_lte_modem.Base.{
  ℕ, zero, suc, ◌+◌, ◌≤◌, ◌<◌, ◌≡◌, refl, ap, ap₂, ◌∙◌, inl, inr, Bool, true, false, ◌&&◌, Option,
  none, some, List, [], ◌∷◌, arith, ltb, ◌==◌, if◌then◌else◌, Option-cases, length, get_elem?,
}
use mathlib.Core.Path.{subst}
use cr_lte_modem.Device.{
  RxBuf, SocketCtrl, Ltem, Outcome, ret, stop, undefined, socket_cnt, notify_app,
}
use cr_lte_modem.Host.{timer_expired}
use cr_lte_modem.Iop.Rx.{slot}
use cr_lte_modem.Command.{action_timeout}
use cr_lte_modem.Sockets.Transfer.{request_ird, note_request}
use cr_lte_modem.Sockets.Work
use cr_lte_modem.Sockets.Work.{
  next_wait, parse_flow, open_flow, deliver, deliver_ready, check_ird_timeout, service_buffer,
  service_buffers, open_flows, any_socket, work_buffers, work_open, sckt_do_work, notif_sckt_error,
}
use cr_lte_modem.Sockets.Steps.{get_ctrl-eq}

-- a buffer that no socket waits for
pub record IsIdle (b : RxBuf) : Type 0 where
  pub no_socket : ltb b.data_peer socket_cnt ≡ false
  pub not_ready : b.data_ready ≡ false

idle_flow :
    (i : ℕ) (b : RxBuf) (s : Ltem)
    → ltb b.data_peer socket_cnt ≡ false
    → parse_flow i b s ≡ ret tt s
unfolding parse_flow
idle_flow i b s h =
    ap (λ (y : Bool). if y && b.ird_sz == 0 && ltb 0 b.head then open_flow i b s else ret tt s) h

idle_ready :
    (i : ℕ) (b : RxBuf) (s : Ltem)
    → slot s.iop.rx_data_bufs i ≡ some b
    → b.data_ready ≡ false
    → deliver_ready i s ≡ ret tt s
unfolding deliver_ready
idle_ready i b s h r =
    ap
      (λ (o : Option RxBuf). elim o [
        | none ↦ stop undefined
        | some x ↦ if x.data_ready then deliver x s else ret tt s
      ])
      h
    ∙ ap (λ (y : Bool). if y then deliver b s else ret tt s) r

idle_timer :
    (s : Ltem)
    → timer_expired s.ird_reqst_at action_timeout s ≡ false
    → check_ird_timeout s ≡ ret tt s
unfolding check_ird_timeout
idle_timer s h = ap (λ (y : Bool). if y then Work.ird_timed_out s else ret tt s) h

-- The loop passes over an idle buffer.
idle_step :
    (n i : ℕ) (b : RxBuf) (s : Ltem)
    → slot s.iop.rx_data_bufs i ≡ some b
    → IsIdle b
    → timer_expired s.ird_reqst_at action_timeout s ≡ false
    → service_buffers (suc n) i s ≡ service_buffers n (i + 1) s
unfolding service_buffers service_buffer
idle_step n i b s h d t =
    ap
      (λ (o : Option RxBuf). elim o [
        | none ↦ ret tt s
        | some x ↦ elim (service_buffer i x s) [
          | stop w ↦ stop w
          | ret _ u ↦ service_buffers n (i + 1) u
        ]
      ])
      h
    ∙ ap after (
        ap
          (λ (o : Outcome (Unit {0})). elim o [
            | ret _ u ↦ elim (deliver_ready i u) [ ret _ v ↦ check_ird_timeout v | stop x ↦ stop x ]
            | stop x ↦ stop x
          ])
          (idle_flow i b s d.no_socket)
        ∙ ap
            (λ (o : Outcome (Unit {0})). elim o [ ret _ v ↦ check_ird_timeout v | stop x ↦ stop x ])
            (idle_ready i b s h d.not_ready)
        ∙ idle_timer s t)
  where
    after : Outcome (Unit {0}) → Outcome (Unit {0})
    after o = elim o [ stop w ↦ stop w | ret _ u ↦ service_buffers n (i + 1) u ]

-- a slot with no buffer in it, or an idle one
abbrev pub Quiet : Option RxBuf → Type 0
Quiet none = Unit {0}
Quiet (some b) = IsIdle b

empty_step :
    (n i : ℕ) (s : Ltem) → slot s.iop.rx_data_bufs i ≡ none → service_buffers (suc n) i s ≡ ret tt s
unfolding service_buffers
empty_step n i s h =
    ap
      (λ (o : Option RxBuf). elim o [
        | none ↦ ret tt s
        | some x ↦ elim (service_buffer i x s) [
          | stop w ↦ stop w
          | ret _ u ↦ service_buffers n (i + 1) u
        ]
      ])
      h

-- The loop does nothing where all the buffers to come are quiet.
pub skip_rest :
    (n i : ℕ) (s : Ltem)
    → ((j : ℕ) → i ≤ j → Quiet (slot s.iop.rx_data_bufs j))
    → timer_expired s.ird_reqst_at action_timeout s ≡ false
    → service_buffers n i s ≡ ret tt s
unfolding service_buffers
skip_rest zero i s q t = refl
skip_rest (suc n) i s q t = elim (Option-cases (slot s.iop.rx_data_bufs i)) [
  | inl e ↦ empty_step n i s e
  | inr (b, e) ↦
      idle_step n i b s e (subst Quiet e (q i (omega arith))) t
      ∙ skip_rest n (i + 1) s (λ j h. q j (omega arith)) t
]

-- The loop passes over idle buffers to the one at `i`.
pub reach :
    (d m k i : ℕ) (s : Ltem)
    → k + d ≡ i
    → ((j : ℕ) → j < i → (b : RxBuf) × (slot s.iop.rx_data_bufs j ≡ some b) × IsIdle b)
    → timer_expired s.ird_reqst_at action_timeout s ≡ false
    → service_buffers (d + m) k s ≡ service_buffers m i s
reach zero m k i s e q t = ap₂ (λ n j. service_buffers n j s) (zero_add m) (omega (arith, e))
  where
    zero_add : (n : ℕ) → 0 + n ≡ n
    zero_add n = omega arith
reach (suc d) m k i s e q t =
    let (b, held, idle) = q k (omega arith) in
    ap (λ n. service_buffers n k s) (suc_add d m)
    ∙ idle_step (d + m) k b s held idle t
    ∙ reach d m (k + 1) i s (omega arith) q t
  where
    suc_add : (a b : ℕ) → suc a + b ≡ suc (a + b)
    suc_add a b = omega arith

and-false : (c : Bool) → (c && false) ≡ false
and-false true = refl
and-false false = refl

get_elem?-in :
    {A : Type 0} (xs : List A) (i : ℕ) → i < length xs → (x : A) × (get_elem? xs i ≡ some x)
get_elem?-in [] i h = absurd (omega arith)
get_elem?-in (x ∷ xs) zero h = (x, refl)
get_elem?-in (x ∷ xs) (suc i) h = get_elem?-in xs i (omega arith)

-- No flow is opened while the wait cycles are not over.
pub waiting_flows :
    (n peer : ℕ) (cs : List SocketCtrl) (s : Ltem)
    → s.sockets ≡ some cs
    → peer + n ≤ length cs
    → s.ird_wait ≡ 1
    → open_flows n peer s ≡ ret tt s
unfolding open_flows
waiting_flows zero peer cs s h le w = refl
waiting_flows (suc n) peer cs s h le w =
    let (c, held) = get_elem?-in cs peer (omega arith) in
    ap body (get_ctrl-eq peer s cs c h held)
    ∙ ap (λ (k : ℕ). branch c (c.data_pending && k == 0)) w
    ∙ ap (branch c) (and-false c.data_pending)
    ∙ waiting_flows n (peer + 1) cs s h (omega arith) w
  where
    opened : SocketCtrl → Ltem → Outcome (Unit {0})
    opened c t = elim (request_ird peer c true t) [
      | stop w ↦ stop w
      | ret true u ↦ ret tt (note_request u)
      | ret false u ↦ elim (notify_app notif_sckt_error u) [
        | stop w ↦ stop w
        | ret _ v ↦ open_flows n (peer + 1) v
      ]
    ]

    body : Outcome SocketCtrl → Outcome (Unit {0})
    body o = elim o [
      | stop w ↦ stop w
      | ret c t ↦
          if c.data_pending && t.ird_wait == 0 then opened c t else open_flows n (peer + 1) t
    ]

    branch : SocketCtrl → Bool → Outcome (Unit {0})
    branch c y = if y then opened c s else open_flows n (peer + 1) s
