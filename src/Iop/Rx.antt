-- ===== src/Iop/Rx.antt =====
-- The receive buffers of src/ltemc-iop.c: `s_rxBufCreate`, `s_rxBufReset`, `s_getDataBuffer`, the
-- resets of the command and data buffers, and the store of a received chunk.
pub mod Owner
pub mod Store
use cr_lte_modem.Base.{
  ℕ, zero, suc, ◌+◌, ◌-◌, ◌*◌, ◌/◌, ◌%◌, ◌^◌, ◌≤◌, ◌<◌, min, ◌≡◌, refl, sym, ap, ap₂, ◌∙◌, ◌≢◌, ◌↔◌,
  ◌⊎◌, inl, inr, Bool, true, false, not, ◌&&◌, ◌||◌, Option, none, some, List, [], ◌∷◌, ◌++◌, map,
  append-nil, append_assoc, arith, ltb, leb, ◌==◌, if◌then◌else◌, ltb→lt, lt→ltb, leb→le, ==_iff,
  Bool-cases, Option-cases, length, get_elem?, get_or, set, take, drop, replicate, length-append,
  length-set, length-take, length-drop, length-replicate, take-append-drop, take-append,
  drop-append, drop-append_le, drop-add, drop-append_add, get_elem?-eq-get_or, get_or-set_self,
  get_or-set_ne, take-nil, u8, u16, u32, sub16, sub32,
}
use cr_lte_modem.CString.{Bytes, write_at}
use cr_lte_modem.Parser.{Ptr, at, low}
use cr_lte_modem.Device.{
  RxBuf, Iop, Ltem, M, Outcome, ret, stop, undefined, databuf_sz, no_buffer, peer_none,
}

-- `s_rxBufCreate`, where the allocation succeeds
unfoldable pub rx_buf_create : ℕ → RxBuf
rx_buf_create sz = record {
  mem = replicate sz 0;
  head = 0;
  prev_head = 0;
  tail = at 0;
  data_peer = peer_none;
  ird_sz = 0;
  data_ready = false;
}

-- `s_rxBufReset`: only the bytes before `head` are zeroed.
unfoldable pub rx_buf_reset : RxBuf → RxBuf
rx_buf_reset b = record {
  mem = replicate b.head 0 ++ drop b.head b.mem;
  head = 0;
  prev_head = 0;
  tail = at 0;
  data_peer = peer_none;
  ird_sz = 0;
  data_ready = false;
}

-- `iop_resetCmdBuffer`
unfoldable pub reset_cmd_buffer : Ltem → Ltem
reset_cmd_buffer s = record s {
  iop = record (s.iop) { rx_cmd_buf = rx_buf_reset s.iop.rx_cmd_buf };
}

-- the buffer in a slot: none for a slot that holds NULL, and for an index past the three slots
abbrev pub slot : List (Option RxBuf) → ℕ → Option RxBuf
slot bufs i = get_or bufs i none

-- `iop_resetDataBuffer`; an index with no buffer is a use of NULL, or of what lies behind the array.
unfoldable pub reset_data_buffer : ℕ → M (Unit {0})
reset_data_buffer i s = elim (slot s.iop.rx_data_bufs i) [
  | none ↦ stop undefined
  | some b ↦ ret tt (record s {
    iop = record (s.iop) { rx_data_bufs = set s.iop.rx_data_bufs i (some (rx_buf_reset b)) };
  })
]

-- first loop of `s_getDataBuffer`: the buffer that the peer has
unfoldable pub find_owned : ℕ → List (Option RxBuf) → ℕ → Option ℕ
find_owned peer [] i = none
find_owned peer (none ∷ bufs) i = find_owned peer bufs (i + 1)
find_owned peer (some b ∷ bufs) i =
    let rest = find_owned peer bufs (i + 1) in if b.data_peer == peer then some i else rest

-- second loop: the first slot that is free, or empty and then filled, given to the peer; the slots
-- after it, and its index
unfoldable pub claim_free : ℕ → List (Option RxBuf) → ℕ → List (Option RxBuf) × ℕ
claim_free peer [] i = ([], no_buffer)
claim_free peer (none ∷ bufs) i =
    (some (record (rx_buf_create databuf_sz) { data_peer = peer }) ∷ bufs, i)
claim_free peer (some b ∷ bufs) i =
    let rest = claim_free peer bufs (i + 1) in
    if b.data_peer == peer_none
    then (some (record b { data_peer = peer }) ∷ bufs, i)
    else (some b ∷ rest.0, rest.1)

-- `s_getDataBuffer`
unfoldable pub get_data_buffer : ℕ → List (Option RxBuf) → List (Option RxBuf) × ℕ
get_data_buffer peer bufs = elim (find_owned peer bufs 0) [
  | some i ↦ (bufs, i)
  | none ↦ claim_free peer bufs 0
]

-- What the service routine does with a received chunk: `sc16is741a_read(head, rxLevel)`, then
-- `prevHead = head` and `head += rxLevel`. The code makes no check against the end of the storage:
-- none stands for a write past it.
unfoldable pub rx_store : Bytes → RxBuf → Option RxBuf
rx_store chunk b =
    if leb (b.head + length chunk) (length b.mem)
    then some (record b {
      mem = write_at b.mem b.head chunk;
      prev_head = b.head;
      head = b.head + length chunk;
    })
    else none
