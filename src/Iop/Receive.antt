-- ===== src/Iop/Receive.antt =====
-- The receive paths of the service routine against the frame and the transmit path.
use cr_lte_modem.Base.{
  ℕ, ◌≡◌, ◌∙◌, inl, inr, none, some, [], ◌∷◌, arith, ◌==◌, if-elim, Option-cases, take,
}
use cr_lte_modem.CString.{Bytes, strchr}
use cr_lte_modem.Device.{Mqtt, Ltem, Outcome, no_buffer}
use cr_lte_modem.Iop.Rx.{rx_store}
use cr_lte_modem.Iop.Urc
use cr_lte_modem.Iop.Urc.{
  mark_pending, begin_mqtt, close_mqtt, dispatch_urc, other_urc, service_urc, other_notice,
  rx_parse_immediate, urc_number, drop_context, chunk_at,
}
use cr_lte_modem.Iop.Isr.{
  rx_cmd, claim_data_buffer, store_data, rx_socket, claim_mqtt_buffer, end_mqtt, mqtt_chunk,
  end_without_mqtt, chunk_without_mqtt, rx_mqtt, service_rx,
}
use cr_lte_modem.Iop.Frame.{
  Frame, Frame-trans, Keeping, Keeping-from, Keeping-then, Keeping-weaken, Keeps,
}

pub record RxFrame (s t : Ltem) : Type 0 where
  pub frame : Frame s t
  pub tx_buf : t.iop.tx_buf ≡ s.iop.tx_buf
  pub tx_pend : t.iop.tx_pend ≡ s.iop.tx_pend
  pub sent : t.sent ≡ s.sent

RxFrame-refl : (s : Ltem) → RxFrame s s
RxFrame-refl s = ground arith

pub RxFrame-trans : (s t u : Ltem) → RxFrame s t → RxFrame t u → RxFrame s u
RxFrame-trans s t u f g = record {
  frame = Frame-trans s t u f.frame g.frame;
  tx_buf = g.tx_buf ∙ f.tx_buf;
  tx_pend = g.tx_pend ∙ f.tx_pend;
  sent = g.sent ∙ f.sent;
}

abbrev pub RxKeeps : {A : Type 0} → Ltem → Outcome A → Type 0
RxKeeps s o = Keeping RxFrame s o

mark_pending-RxKeeps : (p : Bytes) (s : Ltem) → RxKeeps s (mark_pending p s)
unfolding mark_pending
mark_pending-RxKeeps p s = ground arith

begin_mqtt-RxKeeps : (u : ℕ) (s : Ltem) → RxKeeps s (begin_mqtt u s)
unfolding begin_mqtt
begin_mqtt-RxKeeps u s = ground arith

close_mqtt-RxKeeps : (s : Ltem) → RxKeeps s (close_mqtt s)
unfolding close_mqtt
close_mqtt-RxKeeps s = ground arith

dispatch_urc-RxKeeps : (u : ℕ) (s : Ltem) → RxKeeps s (dispatch_urc u s)
unfolding dispatch_urc other_urc service_urc
dispatch_urc-RxKeeps u s = ground (
  arith,
  mark_pending-RxKeeps Urc.ssl_recv s,
  mark_pending-RxKeeps Urc.ip_recv s,
  begin_mqtt-RxKeeps u s,
  close_mqtt-RxKeeps s,
)

pub rx_parse_immediate-RxKeeps : (s : Ltem) → RxKeeps s (rx_parse_immediate s)
unfolding rx_parse_immediate other_notice
rx_parse_immediate-RxKeeps s = elim (Option-cases (strchr (take 6 (chunk_at s)) b'+')) [
  | inl e ↦ rw (e, rx_parse_immediate) (ground arith)
  | inr (u, e) ↦ rw (e, rx_parse_immediate) (dispatch_urc-RxKeeps u s)
]

rx_cmd-RxKeeps : (chunk : Bytes) (s : Ltem) → RxKeeps s (rx_cmd chunk s)
unfolding rx_cmd
rx_cmd-RxKeeps chunk s = elim (Option-cases (rx_store chunk s.iop.rx_cmd_buf)) [
  | inl e ↦ rw (e, rx_cmd) tt
  | inr (b, e) ↦
      rw (e, rx_cmd)
        (Keeping-from RxFrame RxFrame-trans _ (ground arith) (rx_parse_immediate-RxKeeps _))
]

claim_data_buffer-RxFrame : (s : Ltem) → RxFrame s (claim_data_buffer s)
unfolding claim_data_buffer
claim_data_buffer-RxFrame s = ground arith

store_data-RxKeeps : (chunk : Bytes) (s : Ltem) → RxKeeps s (store_data chunk s)
unfolding store_data
store_data-RxKeeps chunk s = ground arith

rx_socket-RxKeeps : (chunk : Bytes) (s : Ltem) → RxKeeps s (rx_socket chunk s)
unfolding rx_socket
rx_socket-RxKeeps chunk s =
    Keeping-from RxFrame RxFrame-trans _ (claim_data_buffer-RxFrame s)
      (store_data-RxKeeps chunk (claim_data_buffer s))

claim_mqtt_buffer-RxKeeps : (m : Mqtt) (s : Ltem) → RxKeeps s (claim_mqtt_buffer m s)
unfolding claim_mqtt_buffer
claim_mqtt_buffer-RxKeeps m s = ground (arith, claim_data_buffer-RxFrame s)

end_mqtt-RxKeeps : (m : Mqtt) (s : Ltem) → RxKeeps s (end_mqtt m s)
unfolding end_mqtt
end_mqtt-RxKeeps m s = ground arith

mqtt_chunk-RxKeeps : (m : Mqtt) (chunk : Bytes) (s : Ltem) → RxKeeps s (mqtt_chunk m chunk s)
unfolding mqtt_chunk
mqtt_chunk-RxKeeps m chunk s =
    Keeping-then RxFrame RxFrame-trans (claim_mqtt_buffer m s) _ s (claim_mqtt_buffer-RxKeeps m s)
      (λ a t.
        Keeping-then RxFrame RxFrame-trans (store_data chunk t) _ t (store_data-RxKeeps chunk t)
          (λ b u. end_mqtt-RxKeeps m u))

end_without_mqtt-RxKeeps : (s : Ltem) → RxKeeps s (end_without_mqtt s)
unfolding end_without_mqtt
end_without_mqtt-RxKeeps s = ground arith

chunk_without_mqtt-RxKeeps : (chunk : Bytes) (s : Ltem) → RxKeeps s (chunk_without_mqtt chunk s)
unfolding chunk_without_mqtt
chunk_without_mqtt-RxKeeps chunk s =
    if-elim (RxKeeps s) (s.iop.rx_data_buf_indx == no_buffer) (λ _. tt)
      (λ _.
        Keeping-then RxFrame RxFrame-trans (store_data chunk s) _ s (store_data-RxKeeps chunk s)
          (λ a t. end_without_mqtt-RxKeeps t))

rx_mqtt-RxKeeps : (chunk : Bytes) (s : Ltem) → RxKeeps s (rx_mqtt chunk s)
unfolding rx_mqtt
rx_mqtt-RxKeeps chunk s =
    elim s.mqtt
      as (λ o.
        RxKeeps s (elim o [ none ↦ chunk_without_mqtt chunk s | some m ↦ mqtt_chunk m chunk s ])) [
          | none ↦ chunk_without_mqtt-RxKeeps chunk s
          | some m ↦ mqtt_chunk-RxKeeps m chunk s
        ]

pub service_rx-RxKeeps : (chunk : Bytes) (s : Ltem) → RxKeeps s (service_rx chunk s)
unfolding service_rx
service_rx-RxKeeps [] s = RxFrame-refl s
service_rx-RxKeeps (x ∷ xs) s =
    ground
      (arith, rx_cmd-RxKeeps (x ∷ xs) s, rx_socket-RxKeeps (x ∷ xs) s, rx_mqtt-RxKeeps (x ∷ xs) s)

pub rx_parse_immediate-Keeps : (s : Ltem) → Keeps s (rx_parse_immediate s)
rx_parse_immediate-Keeps s =
    Keeping-weaken RxFrame Frame (rx_parse_immediate s) (λ _ f. f.frame)
      (rx_parse_immediate-RxKeeps s)

pub service_rx-Keeps : (chunk : Bytes) (s : Ltem) → Keeps s (service_rx chunk s)
service_rx-Keeps chunk s =
    Keeping-weaken RxFrame Frame (service_rx chunk s) (λ _ f. f.frame) (service_rx-RxKeeps chunk s)
