-- ===== src/Bridge.antt =====
-- src/ltemc-nxp-sc16is.c and .h: the registers of the SPI-UART bridge, and the SPI transfers of
-- src/platform/arduino-spi.cpp by which they are read and written. The bits of a register are given from
-- bit 0 on.
pub mod Layout
pub mod Frames
pub mod Modify
mod Tests
use cr_lte_modem.Base.{
  ℕ, zero, suc, ◌+◌, ◌-◌, ◌*◌, ◌/◌, ◌%◌, ◌^◌, ◌≤◌, ◌<◌, min, ◌≡◌, refl, sym, ap, ap₂, ◌∙◌, ◌≢◌, ◌↔◌,
  ◌⊎◌, inl, inr, Bool, true, false, not, ◌&&◌, ◌||◌, Option, none, some, List, [], ◌∷◌, ◌++◌, map,
  append-nil, append_assoc, arith, ltb, leb, ◌==◌, if◌then◌else◌, ltb→lt, lt→ltb, leb→le, ==_iff,
  if-elim, Bool-cases, Option-cases, length, get_elem?, get_or, set, take, drop, replicate,
  length-append, length-set, length-take, length-drop, length-replicate, take-append-drop,
  take-append, drop-append, drop-append_le, drop-add, drop-append_add, get_elem?-eq-get_or,
  get_or-set_self, get_or-set_ne, take-nil, List-cases, bit, bit-bits_or, bit-bits_and,
  bit-bits_and_not, bit-not_zero, bit-pow, bits_or, bits_and, bits_and_not, u8, u16, u32, sub16,
  sub32,
}
use cr_lte_modem.CString.{Bytes}

-- the widths of the fields of a register
abbrev pub Layout : Type 0
Layout = List ℕ

abbrev pub ier : Layout
ier = replicate 8 1

-- FIFO_EN, RX_FIFO_RST, TX_FIFO_RST, one without a name, TX_TRIGGER_LVL, RX_TRIGGER_LVL
abbrev pub fcr : Layout
fcr = 1 ∷ 1 ∷ 1 ∷ 1 ∷ 2 ∷ 2 ∷ []

-- IRQ_nPENDING, IRQ_SOURCE, FIFO_EN
abbrev pub iir : Layout
iir = 1 ∷ 5 ∷ 2 ∷ []

abbrev pub lcr : Layout
lcr = 2 ∷ replicate 6 1

abbrev pub mcr : Layout
mcr = replicate 8 1

abbrev pub lsr : Layout
lsr = replicate 8 1

abbrev pub msr : Layout
msr = 1 ∷ 3 ∷ 1 ∷ 3 ∷ []

abbrev pub spr : Layout
spr = 8 ∷ []

abbrev pub uartrst : Layout
uartrst = 3 ∷ 1 ∷ []

abbrev pub efcr : Layout
efcr = replicate 8 1

abbrev pub tlr : Layout
tlr = 4 ∷ 4 ∷ []

-- SWFLOW_CTRL, ENHANCED_FNS_EN, SPECIAL_CHAR_DETECT, AUTO_nRTS, AUTO_nCTS
abbrev pub efr : Layout
efr = 4 ∷ 1 ∷ 1 ∷ 1 ∷ 1 ∷ []

-- the first byte of a transfer: one without a name, CH0, CH1, A, RnW
abbrev pub addr_byte : Layout
addr_byte = 1 ∷ 1 ∷ 1 ∷ 4 ∷ 1 ∷ []

-- `__sc16is741a_reg_payload__`: the address byte, and the data
abbrev pub payload : Layout
payload = 8 ∷ 8 ∷ []

-- The unions of the header: the number that the fields make up, and the fields of a number.
unfoldable pub pack : Layout → List ℕ → ℕ
pack [] vs = 0
pack (w ∷ ws) [] = 2 ^ w * pack ws []
pack (w ∷ ws) (v ∷ vs) = v % 2 ^ w + 2 ^ w * pack ws vs

unfoldable pub unpack : Layout → ℕ → List ℕ
unpack [] b = []
unpack (w ∷ ws) b = b % 2 ^ w ∷ unpack ws (b / 2 ^ w)

-- a field of a number changed
unfoldable pub modify_field : Layout → ℕ → ℕ → ℕ → ℕ
unfolding pack unpack
modify_field ws i v b = pack ws (set (unpack ws b) i v)

-- register addresses and values
abbrev pub fifo_addr : ℕ
fifo_addr = 0

abbrev pub ier_addr : ℕ
ier_addr = 1

abbrev pub fcr_addr : ℕ
fcr_addr = 2

abbrev pub lcr_addr : ℕ
lcr_addr = 3

abbrev pub lsr_addr : ℕ
lsr_addr = 5

abbrev pub spr_addr : ℕ
spr_addr = 7

abbrev pub rxlvl_addr : ℕ
rxlvl_addr = 9

abbrev pub uartrst_addr : ℕ
uartrst_addr = 14

abbrev pub dll_addr : ℕ
dll_addr = 0

abbrev pub dlh_addr : ℕ
dlh_addr = 1

abbrev pub efr_addr : ℕ
efr_addr = 2

abbrev pub sw_reset_mask : ℕ
sw_reset_mask = 8

abbrev pub reg_set_general : ℕ
reg_set_general = 0

abbrev pub reg_set_special : ℕ
reg_set_special = 128

abbrev pub reg_set_enhanced : ℕ
reg_set_enhanced = 0xBF

abbrev pub fifo_buffer_sz : ℕ
fifo_buffer_sz = 64

-- FCR_REGISTER_VALUE_IOP_FIFO_ENABLE
abbrev pub fifo_enable : ℕ
fifo_enable = 0xB1

-- RnW of the first byte
abbrev pub rnw_read : ℕ
rnw_read = 1

abbrev pub rnw_write : ℕ
rnw_write = 0

-- the first byte of a transfer to an address
unfoldable pub address : ℕ → ℕ → ℕ
unfolding pack
address a rnw = pack addr_byte (0 ∷ 0 ∷ 0 ∷ a ∷ rnw ∷ [])

-- The bridge on its SPI lines, and Arduino's `SPI.transfer`, are a parameter: while the chip is
-- selected bytes go out, and as many come in.
module _ {Chip : Type 0} (exchange : Bytes → Chip → Bytes × Chip) where
  -- `spi_transferWord` with the bit order of `spi_create`, the more significant bit first: the low byte
  -- of the word goes first.
  unfoldable pub transfer_word : ℕ → Chip → ℕ × Chip
  unfolding pack unpack
  transfer_word data_word c =
      let (got, c') = exchange (unpack payload data_word) c in (pack payload got, c')

  -- `spi_transferBuffer`
  unfoldable pub transfer_buffer : ℕ → Bytes → Chip → Bytes × Chip
  transfer_buffer reg_address buf c =
      let (got, c') = exchange (reg_address ∷ buf) c in (drop 1 got, c')

  -- `sc16is741a_readReg`
  unfoldable pub read_reg : ℕ → Chip → ℕ × Chip
  unfolding transfer_word address
  read_reg reg_addr c =
      let (word, c') = transfer_word (pack payload (address reg_addr rnw_read ∷ 0 ∷ [])) c in
      (get_or (unpack payload word) 1 0, c')

  -- `sc16is741a_writeReg`
  unfoldable pub write_reg : ℕ → ℕ → Chip → Chip
  unfolding transfer_word address
  write_reg reg_addr reg_data c =
      (transfer_word (pack payload (address reg_addr rnw_write ∷ reg_data ∷ [])) c).1

  -- `sc16is741a_read` and `sc16is741a_write`; the buffer takes what comes in.
  unfoldable pub bridge_read : Bytes → Chip → Bytes × Chip
  unfolding address
  bridge_read dest c = transfer_buffer (address fifo_addr rnw_read) dest c

  unfoldable pub bridge_transmit : Bytes → Chip → Bytes × Chip
  unfolding address
  bridge_transmit src c = transfer_buffer (address fifo_addr rnw_write) src c

  -- REG_MODIFY of one field
  unfoldable pub modify_reg : Layout → ℕ → ℕ → ℕ → Chip → Chip
  unfolding modify_field
  modify_reg layout reg_addr i v c =
      let (b, c') = read_reg reg_addr c in write_reg reg_addr (modify_field layout i v b) c'

  -- `sc16is741a_start`
  unfoldable pub start : Chip → Chip
  start c =
      let c₁ = write_reg uartrst_addr sw_reset_mask c in
      let c₂ = write_reg lcr_addr reg_set_enhanced c₁ in
      let c₃ = modify_reg efr efr_addr 1 1 c₂ in
      let c₄ = write_reg lcr_addr reg_set_general c₃ in
      let c₅ = write_reg fcr_addr (pack fcr (1 ∷ 0 ∷ 0 ∷ 0 ∷ 3 ∷ 2 ∷ [])) c₄ in
      let c₆ = write_reg lcr_addr reg_set_special c₅ in
      let c₇ = write_reg dll_addr 4 c₆ in
      let c₈ = write_reg dlh_addr 0 c₇ in
      let c₉ = write_reg lcr_addr reg_set_general c₈ in write_reg lcr_addr 3 c₉

  -- `sc16is741a_enableIrqMode`
  unfoldable pub enable_irq_mode : Chip → Chip
  enable_irq_mode c = write_reg ier_addr (pack ier (1 ∷ 1 ∷ 1 ∷ [])) c

  -- `sc16is741a_chkCommReady` at a time
  unfoldable pub chk_comm_ready : ℕ → Chip → Bool × Chip
  chk_comm_ready millis c =
      let wr_val = u8 millis in
      let (b, c') = read_reg spr_addr (write_reg spr_addr wr_val c) in (b == wr_val, c')

  -- `sc16is741a_resetFifo`
  unfoldable pub reset_fifo : ℕ → Chip → Chip
  reset_fifo reset_action c = write_reg fcr_addr (bits_or 8 reset_action fifo_enable) c

  -- as many reads of a register
  unfoldable pub discard : ℕ → Chip → Chip
  discard zero c = c
  discard (suc n) c = discard n (read_reg fifo_addr c).1

  -- `sc16is741a_flushRxFifo`; the levels that it reads are not used.
  unfoldable pub flush_rx_fifo : Chip → Chip
  flush_rx_fifo c =
      let c₁ = (read_reg rxlvl_addr c).1 in
      let c₂ = (read_reg lsr_addr c₁).1 in
      let c₃ = discard fifo_buffer_sz c₂ in
      let c₄ = (read_reg rxlvl_addr c₃).1 in (read_reg lsr_addr c₄).1
