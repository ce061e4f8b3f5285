-- ===== src/Command/Answered.antt =====
-- A command that the modem answers while `atcmd_awaitResult` waits.
use cr_lte_modem.Base.{
  ℕ, zero, suc, ◌+◌, ◌^◌, ◌≤◌, ◌<◌, ◌≡◌, refl, sym, ap, ◌∙◌, Bool, false, not, ◌&&◌, Option, none,
  some, List, [], ◌∷◌, ◌++◌, arith, ◌==◌, if◌then◌else◌, length, take, drop, u32, sub32,
}
use mathlib.Core.Path.{subst}
use cr_lte_modem.CString.{Bytes, c_str, strchr, starts_with}
use cr_lte_modem.Parser.{Ptr, at, low, null, Parser, result_pending, result_success}
use cr_lte_modem.Device.{Event, Ltem, ret, ready_app_ready}
use cr_lte_modem.Iop.Urc.{
  chunk_at, discard_chunk, rx_parse_immediate, dispatch_urc, other_notice, app_rdy,
}
use cr_lte_modem.Host.{millis, timer_expired, yield}
use cr_lte_modem.Host.Arrival.{
  with_chunk, Receives, chunk_at-with_chunk, silences, sum, arrival, later, yield-silence,
  yield-arrival,
}
use cr_lte_modem.Command.Poll.{cmd_text, await_result}
use cr_lte_modem.Command.Round.{
  completed, handing_over, get_result-silent, await_result-silent, get_result-done,
  await_result-done,
}

-- What the wait needs of a device on which the answer comes: an open wait with nothing to parse yet, a
-- chunk without a zero for which there is room behind a buffer that was parsed up to its end, and a
-- modem that is ready; no unsolicited message begins in the first six bytes of the chunk.
pub record Awaits (chunk : Bytes) (p : Parser) (s : Ltem) : Type 0 where
  pub parser : s.atcmd.parser ≡ some p
  pub pending : s.atcmd.result_code ≡ result_pending
  pub uncancelled : s.cancellation_request ≡ false
  pub parsed : s.iop.rx_cmd_buf.tail ≡ at s.iop.rx_cmd_buf.head
  pub empty : c_str (drop s.iop.rx_cmd_buf.head s.iop.rx_cmd_buf.mem) ≡ []
  pub receives : Receives chunk s
  pub text :
      c_str (chunk ++ drop (s.iop.rx_cmd_buf.head + length chunk) s.iop.rx_cmd_buf.mem) ≡ chunk
  pub plain :
      strchr
        (take 6 (chunk ++ drop (s.iop.rx_cmd_buf.head + length chunk) s.iop.rx_cmd_buf.mem))
        b'+'
      ≡ none
  pub ready : s.qbg_ready_state ≡ ready_app_ready
  pub stamp : s.atcmd.invoked_at < 2 ^ 32

later-Awaits :
    {chunk : Bytes} {p : Parser} {s : Ltem} (d : ℕ) (es : List Event)
    → Awaits chunk p s
    → Awaits chunk p (later d es s)
later-Awaits d es a = record {
  parser = a.parser;
  pending = a.pending;
  uncancelled = a.uncancelled;
  parsed = a.parsed;
  empty = a.empty;
  receives = record { peer = a.receives.peer; room = a.receives.room };
  text = a.text;
  plain = a.plain;
  ready = a.ready;
  stamp = a.stamp;
}

pub text_at_tail :
    (s : Ltem) (k : ℕ)
    → s.iop.rx_cmd_buf.tail ≡ at k
    → cmd_text s ≡ c_str (drop k s.iop.rx_cmd_buf.mem)
text_at_tail s k h =
    ap
      (λ (q : Ptr). elim q [
        | at j ↦ c_str (drop j s.iop.rx_cmd_buf.mem)
        | low j ↦ c_str (drop j s.low_mem)
      ])
      h

-- the chunk stays in the command buffer
plain_chunk :
    (chunk : Bytes) (p : Parser) (s : Ltem)
    → Awaits chunk p s
    → rx_parse_immediate (with_chunk chunk s) ≡ ret tt (with_chunk chunk s)
unfolding rx_parse_immediate other_notice
plain_chunk chunk p s a =
    ap
      (λ (m : Bytes). elim (strchr (take 6 m) b'+') [
        | some u ↦ dispatch_urc u (with_chunk chunk s)
        | none ↦ other_notice (with_chunk chunk s)
      ])
      (chunk_at-with_chunk chunk s a.receives)
    ∙ ap
        (λ (o : Option ℕ). elim o [
          | some u ↦ dispatch_urc u (with_chunk chunk s)
          | none ↦ other_notice (with_chunk chunk s)
        ])
        a.plain
    ∙ ap
        (λ (k : ℕ).
          if not (k == ready_app_ready) && starts_with app_rdy (chunk_at (with_chunk chunk s))
          then ret tt
              (discard_chunk (record (with_chunk chunk s) { qbg_ready_state = ready_app_ready }))
          else ret tt (with_chunk chunk s))
        a.ready

-- the milliseconds since the command was sent, as the code computes them
abbrev pub waited : Ltem → ℕ
waited s = sub32 (millis s) s.atcmd.invoked_at

pub timer_expired-not :
    (s : Ltem)
    → waited s ≤ s.atcmd.timeout_millis
    → timer_expired s.atcmd.invoked_at s.atcmd.timeout_millis s ≡ false
unfolding timer_expired
timer_expired-not s h = ground (arith, h)

pub elapse :
    (n i d m : ℕ)
    → i < 2 ^ 32
    → sub32 (u32 n) i + d ≤ m
    → m < 65536
    → sub32 (u32 (n + d)) i ≡ sub32 (u32 n) i + d
elapse n i d m lt h small = omega (arith, lt, h, small)

-- a round before the chunk has come
silent_round :
    (fuel : ℕ) (c : Bool) (chunk : Bytes) (p : Parser) (s t : Ltem)
    → Awaits chunk p s
    → waited s ≤ s.atcmd.timeout_millis
    → yield s ≡ ret tt t
    → await_result (suc fuel) c s ≡ await_result fuel c t
silent_round fuel c chunk p s t a h y =
    await_result-silent fuel c s t
      (get_result-silent c s (text_at_tail s _ a.parsed ∙ a.empty) a.pending
        (timer_expired-not s h))
      a.uncancelled y

-- the round in which the parser finds the chunk
last_round :
    (fuel : ℕ) (c : Bool) (x : ℕ) (xs : Bytes) (p : Parser) (s : Ltem)
    → Awaits (x ∷ xs) p s
    → p (x ∷ xs) null ≡ (result_success, at (length (x ∷ xs)))
    → await_result (suc fuel) c (with_chunk (x ∷ xs) s)
      ≡ handing_over
          (yield (completed c (s.iop.rx_cmd_buf.head + length (x ∷ xs)) (with_chunk (x ∷ xs) s)))
last_round fuel c x xs p s a done =
    await_result-done fuel c (with_chunk (x ∷ xs) s) _
      (get_result-done c (with_chunk (x ∷ xs) s) x xs p s.iop.rx_cmd_buf.head
        (text_at_tail (with_chunk (x ∷ xs) s) _ a.parsed
          ∙ ap c_str (chunk_at-with_chunk (x ∷ xs) s a.receives)
          ∙ a.text)
        a.parser a.parsed refl done)
      a.uncancelled

-- On a device with an open wait (its command buffer parsed up to its end, with room for the chunk and
-- zeros behind, no data peer, the modem ready, no request to cancel, and no unsolicited message in the
-- first six bytes of the chunk), where nothing but time goes by until an interrupt with a chunk for which
-- the parser of the command answers with success at its end, the timer not having run out before:
-- atcmd_awaitResult returns success, unless the interrupt of one more yield behind it does not come
-- back; the chunk is marked as parsed, and the command closed if asked for. Two rounds of fuel more than
-- there are events before are enough.
pub await_result-answered :
    (ds : List ℕ) (fuel : ℕ) (c : Bool) (d level x : ℕ) (xs : Bytes) (es : List Event) (p : Parser)
    (s : Ltem)
    → s.schedule ≡ silences ds (arrival d (x ∷ xs) level ∷ es)
    → Awaits (x ∷ xs) p s
    → p (x ∷ xs) null ≡ (result_success, at (length (x ∷ xs)))
    → waited s + sum ds ≤ s.atcmd.timeout_millis
    → s.atcmd.timeout_millis < 65536
    → length ds + 2 ≤ fuel
    → await_result fuel c s
      ≡ handing_over (
          yield (
            completed c
              (s.iop.rx_cmd_buf.head + length (x ∷ xs))
              (with_chunk (x ∷ xs) (later (sum ds + d) es s))))
await_result-answered ds zero c d level x xs es p s h a done t small f = absurd (omega arith)
await_result-answered [] (suc zero) c d level x xs es p s h a done t small f = absurd (omega arith)
await_result-answered [] (suc (suc fuel)) c d level x xs es p s h a done t small f =
    silent_round (suc fuel) c (x ∷ xs) p s (with_chunk (x ∷ xs) (later d es s)) a (omega (arith, t))
      (yield-arrival d level x xs es s _ h a.receives
        (plain_chunk (x ∷ xs) p (later d es s) (later-Awaits d es a)))
    ∙ last_round fuel c x xs p (later d es s) (later-Awaits d es a) done
    ∙ ap
        (λ n. handing_over (
          yield (
            completed c (s.iop.rx_cmd_buf.head + length (x ∷ xs))
              (with_chunk (x ∷ xs) (later n es s)))))
        none_before
  where
    none_before : d ≡ 0 + d
    none_before = omega arith
await_result-answered (y ∷ ds) (suc fuel) c d level x xs es p s h a done t small f =
    silent_round fuel c (x ∷ xs) p s behind a (omega (arith, t)) (yield-silence y rest s h)
    ∙ await_result-answered ds fuel c d level x xs es p behind refl (later-Awaits y rest a) done
        (subst (λ w. w + sum ds ≤ s.atcmd.timeout_millis)
          (sym (
            elapse s.now s.atcmd.invoked_at y s.atcmd.timeout_millis a.stamp (omega (arith, t))
              small))
          (omega (arith, t)))
        small (omega arith)
    ∙ ap
        (λ n. handing_over (
          yield (
            completed c (s.iop.rx_cmd_buf.head + length (x ∷ xs))
              (with_chunk (x ∷ xs) (record s { now = n; schedule = es })))))
        sooner
  where
    rest : List Event
    rest = silences ds (arrival d (x ∷ xs) level ∷ es)

    behind : Ltem
    behind = later y rest s

    sooner : s.now + y + (sum ds + d) ≡ s.now + (y + sum ds + d)
    sooner = omega arith
