-- ===== src/Host/Arrival.antt =====
-- Chunks that come into the command buffer by interrupts while the driver waits.
use cr_lte_modem.Base.{
  ℕ, ◌+◌, ◌≤◌, ◌≡◌, ap, ◌∙◌, false, Option, none, some, List, [], ◌∷◌, ◌++◌, arith, ltb, ◌==◌,
  if◌then◌else◌, length, drop,
}
use cr_lte_modem.CString.{Bytes, write_at}
use cr_lte_modem.Device.{
  RxBuf, Event, Ltem, Outcome, ret, stop, undefined, peer_none, peer_mqtt, socket_cnt,
}
use cr_lte_modem.Iop.Rx.{rx_store}
use cr_lte_modem.Iop.Rx.Store.{drop-write_at_start}
use cr_lte_modem.Iop.Urc.{chunk_at, rx_parse_immediate}
use cr_lte_modem.Iop.Isr.{rx_cmd, rx_socket, rx_mqtt, service_rx, service_pass, isr}
use cr_lte_modem.Host.{happen, next_event, yield}

abbrev pub with_cmd_buf : RxBuf → Ltem → Ltem
with_cmd_buf b s = record s { iop = record (s.iop) { rx_cmd_buf = b } }

-- a chunk in its place
abbrev pub stored : Bytes → RxBuf → RxBuf
stored chunk b = record b {
  mem = write_at b.mem b.head chunk;
  prev_head = b.head;
  head = b.head + length chunk;
}

-- the device with a chunk in its command buffer, not looked at yet
abbrev pub with_chunk : Bytes → Ltem → Ltem
with_chunk chunk s = with_cmd_buf (stored chunk s.iop.rx_cmd_buf) s

rx_store-fits :
    (chunk : Bytes) (b : RxBuf)
    → b.head + length chunk ≤ length b.mem
    → rx_store chunk b ≡ some (stored chunk b)
unfolding rx_store
rx_store-fits chunk b h = ground (arith, h)

-- a chunk for the command buffer, which has room
pub record Receives (chunk : Bytes) (s : Ltem) : Type 0 where
  pub peer : s.iop.rx_data_peer ≡ peer_none
  pub room : s.iop.rx_cmd_buf.head + length chunk ≤ length s.iop.rx_cmd_buf.mem

-- what lies behind `prevHead` then
pub chunk_at-with_chunk :
    (chunk : Bytes) (s : Ltem)
    → Receives chunk s
    → chunk_at (with_chunk chunk s)
      ≡ chunk ++ drop (s.iop.rx_cmd_buf.head + length chunk) s.iop.rx_cmd_buf.mem
chunk_at-with_chunk chunk s r =
    drop-write_at_start s.iop.rx_cmd_buf.mem s.iop.rx_cmd_buf.head chunk r.room

-- An interrupt with a chunk: what becomes of it is up to `iop_rxParseImmediate`.
pub isr-chunk :
    (x : ℕ) (xs : Bytes) (level : ℕ) (s t : Ltem)
    → Receives (x ∷ xs) s
    → rx_parse_immediate (with_chunk (x ∷ xs) s) ≡ ret tt t
    → isr (record { source = 2; rx = x ∷ xs; tx_level = level } ∷ []) s ≡ ret tt t
unfolding isr service_pass service_rx rx_cmd
isr-chunk x xs level s t r h = ap then_none (
    ap
      (λ (p : ℕ).
        if p == peer_none
        then rx_cmd (x ∷ xs) s
        else if ltb p socket_cnt
        then rx_socket (x ∷ xs) s
        else if p == peer_mqtt
        then rx_mqtt (x ∷ xs) s
        else ret tt s)
      r.peer
    ∙ ap
        (λ (o : Option RxBuf). elim o [
          | none ↦ stop undefined
          | some b ↦ rx_parse_immediate (with_cmd_buf b s)
        ])
        (rx_store-fits (x ∷ xs) s.iop.rx_cmd_buf r.room)
    ∙ h)
  where
    then_none : Outcome (Unit {0}) → Outcome (Unit {0})
    then_none o = elim o [ ret _ t ↦ ret tt t | stop w ↦ stop w ]

-- time that goes by with no interrupt
abbrev pub silence : ℕ → Event
silence d = record { elapsed = d; cancels = false; passes = [] }

abbrev pub silences : List ℕ → List Event → List Event
silences [] es = es
silences (d ∷ ds) es = silence d ∷ silences ds es

abbrev pub sum : List ℕ → ℕ
sum [] = 0
sum (d ∷ ds) = d + sum ds

-- an interrupt with a chunk
abbrev pub arrival : ℕ → Bytes → ℕ → Event
arrival d chunk level = record {
  elapsed = d;
  cancels = false;
  passes = record { source = 2; rx = chunk; tx_level = level } ∷ [];
}

abbrev pub later : ℕ → List Event → Ltem → Ltem
later d es s = record s { now = s.now + d; schedule = es }

pub yield-silence :
    (d : ℕ) (es : List Event) (s : Ltem)
    → s.schedule ≡ silence d ∷ es
    → yield s ≡ ret tt (later d es s)
unfolding yield next_event happen isr
yield-silence d es s h = ap (λ l. next_event l s) h

pub yield-arrival :
    (d level x : ℕ) (xs : Bytes) (es : List Event) (s t : Ltem)
    → s.schedule ≡ arrival d (x ∷ xs) level ∷ es
    → Receives (x ∷ xs) s
    → rx_parse_immediate (with_chunk (x ∷ xs) (later d es s)) ≡ ret tt t
    → yield s ≡ ret tt t
unfolding yield next_event happen
yield-arrival d level x xs es s t h r p =
    ap (λ l. next_event l s) h
    ∙ isr-chunk x xs level (later d es s) t (record { peer = r.peer; room = r.room }) p
