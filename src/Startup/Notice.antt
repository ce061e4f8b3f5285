-- ===== src/Startup/Notice.antt =====
-- The modem's notice that it is ready, `APP RDY`, from the interrupt to the end of `iop_awaitAppReady`.
use cr_lte_modem.Base.{
  ℕ, zero, suc, ◌+◌, ◌^◌, ◌≤◌, ◌<◌, ◌≡◌, refl, ap, ◌∙◌, Bool, true, false, not, ◌&&◌, none, some,
  List, [], ◌∷◌, ◌++◌, arith, ◌==◌, if◌then◌else◌, lt→ltb, length, take,
}
use cr_lte_modem.CString.{Bytes, write_at, strchr, starts_with}
use cr_lte_modem.Device.{RxBuf, Event, Ltem, ret, stop, hung, ready_app_ready}
use cr_lte_modem.Iop.Urc.{
  app_rdy, chunk_at, discard_chunk, rx_parse_immediate, dispatch_urc, other_notice,
}
use cr_lte_modem.Host.{millis, yield}
use cr_lte_modem.Host.Arrival.{
  with_cmd_buf, with_chunk, Receives, chunk_at-with_chunk, silences, sum, arrival, later,
  yield-silence, yield-arrival,
}
use cr_lte_modem.Startup.{appready_millismax, set_ready, overdue, app_ready_rounds, await_app_ready}
use cr_lte_modem.Startup.Ready.{app_ready_rounds_done, app_ready_rounds_next, after_yield}

-- the notice, with what comes behind it in the same chunk
abbrev pub announcement : Bytes → Bytes
announcement more = app_rdy ++ more

-- the command buffer with a chunk that was received and dropped
abbrev pub passed_over : Bytes → RxBuf → RxBuf
passed_over chunk b = record b { mem = write_at b.mem b.head chunk; prev_head = b.head }

-- the device behind the notice
abbrev pub announced : Bytes → Ltem → Ltem
announced chunk s = with_cmd_buf (passed_over chunk s.iop.rx_cmd_buf) (set_ready ready_app_ready s)

-- a chunk in the command buffer that begins with the notice
notice_parsed :
    (s : Ltem) (rest : Bytes)
    → chunk_at s ≡ announcement rest
    → (s.qbg_ready_state == ready_app_ready) ≡ false
    → rx_parse_immediate s ≡ ret tt (discard_chunk (set_ready ready_app_ready s))
unfolding rx_parse_immediate other_notice strchr starts_with
notice_parsed s rest h n =
    ap
      (λ (m : Bytes). elim (strchr (take 6 m) b'+') [
        | some u ↦ dispatch_urc u s
        | none ↦ other_notice s
      ])
      h
    ∙ ap
        (λ (m : Bytes).
          if not (s.qbg_ready_state == ready_app_ready) && starts_with app_rdy m
          then ret tt (discard_chunk (set_ready ready_app_ready s))
          else ret tt s)
        h
    ∙ ap
        (λ (y : Bool).
          if not y && true then ret tt (discard_chunk (set_ready ready_app_ready s)) else ret tt s)
        n

in_time :
    (start : ℕ) (t : Ltem)
    → start + appready_millismax < 2 ^ 32
    → t.now ≤ start + appready_millismax
    → overdue start t ≡ false
in_time start t h k = ground arith

-- what the wait needs of a device on which the notice comes
pub record Listens (more : Bytes) (s : Ltem) : Type 0 where
  pub waiting : s.qbg_ready_state < ready_app_ready
  pub receives : Receives (announcement more) s

yield-announced :
    (d level : ℕ) (more : Bytes) (es : List Event) (s : Ltem)
    → s.schedule ≡ arrival d (announcement more) level ∷ es
    → Listens more s
    → yield s ≡ ret tt (announced (announcement more) (later d es s))
yield-announced d level more es s h l = yield-arrival d level _ _ es s _ h l.receives (
    notice_parsed (with_chunk (announcement more) (later d es s)) _
      (chunk_at-with_chunk (announcement more) (later d es s)
        (record { peer = l.receives.peer; room = l.receives.room }))
      (ground (arith, l.waiting)))

go_on :
    (fuel start : ℕ) (s t : Ltem)
    → s.qbg_ready_state < ready_app_ready
    → yield s ≡ ret tt t
    → overdue start t ≡ false
    → app_ready_rounds (suc fuel) start s ≡ app_ready_rounds fuel start t
go_on fuel start s t w y n =
    app_ready_rounds_next fuel start s (lt→ltb _ _ w)
    ∙ ap (after_yield fuel start) y
    ∙ ap (λ (b : Bool). elim b [ false ↦ app_ready_rounds fuel start t | true ↦ stop hung ]) n

rounds-notice :
    (ds : List ℕ) (fuel start d level : ℕ) (more : Bytes) (es : List Event) (s : Ltem)
    → s.schedule ≡ silences ds (arrival d (announcement more) level ∷ es)
    → Listens more s
    → start + appready_millismax < 2 ^ 32
    → s.now + sum ds + d ≤ start + appready_millismax
    → length ds < fuel
    → app_ready_rounds fuel start s
      ≡ ret tt (announced (announcement more) (later (sum ds + d) es s))
rounds-notice ds zero start d level more es s h l wrap late f = absurd (omega arith)
rounds-notice [] (suc fuel) start d level more es s h l wrap late f =
    go_on fuel start s behind l.waiting (yield-announced d level more es s h l)
      (in_time start behind wrap (omega (arith, late)))
    ∙ app_ready_rounds_done fuel start behind refl
    ∙ ap (λ n. ret tt (announced (announcement more) (later n es s))) none_before
  where
    behind : Ltem
    behind = announced (announcement more) (later d es s)

    none_before : d ≡ 0 + d
    none_before = omega arith
rounds-notice (x ∷ ds) (suc fuel) start d level more es s h l wrap late f =
    go_on fuel start s behind l.waiting (yield-silence x rest s h)
      (in_time start behind wrap (omega (arith, late)))
    ∙ rounds-notice ds fuel start d level more es behind refl
        (record {
          waiting = l.waiting;
          receives = record { peer = l.receives.peer; room = l.receives.room };
        })
        wrap (omega (arith, late)) (omega arith)
    ∙ ap (λ n. ret tt (announced (announcement more) (record s { now = n; schedule = es }))) sooner
  where
    rest : List Event
    rest = silences ds (arrival d (announcement more) level ∷ es)

    behind : Ltem
    behind = later x rest s

    sooner : s.now + x + (sum ds + d) ≡ s.now + (x + sum ds + d)
    sooner = omega arith

-- Where nothing but time goes by until an interrupt with a chunk that begins with the modem's notice,
-- within 5000 milliseconds and with the clock not wrapping in them, on a device that is not ready, has no
-- data peer and room for the chunk in its command buffer, iop_awaitAppReady returns at that event: the
-- modem is ready, the clock stands at the time of the event, what is scheduled behind it is still to
-- come, and the chunk is dropped from the command buffer; a round of fuel for each event is enough.
pub await_app_ready-notice :
    (ds : List ℕ) (fuel d level : ℕ) (more : Bytes) (es : List Event) (s : Ltem)
    → s.schedule ≡ silences ds (arrival d (announcement more) level ∷ es)
    → Listens more s
    → s.now + appready_millismax < 2 ^ 32
    → sum ds + d ≤ appready_millismax
    → length ds < fuel
    → await_app_ready fuel s ≡ ret tt (announced (announcement more) (later (sum ds + d) es s))
unfolding await_app_ready
await_app_ready-notice ds fuel d level more es s h l wrap late f =
    rounds-notice ds fuel (millis s) d level more es s h l (omega arith) (omega arith) f
