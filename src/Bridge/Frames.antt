-- ===== src/Bridge/Frames.antt =====
-- The bytes on the SPI lines when a register is read or written.
use cr_lte_modem.Base.{ℕ, ◌+◌, ◌*◌, ◌<◌, ◌≡◌, ap, ◌∙◌, [], ◌∷◌, arith, ◌==◌, get_or, u8}
use cr_lte_modem.CString.{Bytes}
use cr_lte_modem.Bridge.{
  payload, pack, unpack, address, rnw_read, rnw_write, transfer_word, read_reg, write_reg, spr_addr,
  chk_comm_ready,
}
use cr_lte_modem.Bridge.Layout.{unpack-pack}

-- the first byte: the address from bit 3 on, and bit 7 for a read
address-bits : (a rnw : ℕ) → a < 16 → rnw < 2 → address a rnw ≡ 8 * a + 128 * rnw
unfolding address pack
address-bits a rnw h k = omega arith

module _ {Chip : Type 0} (exchange : Bytes → Chip → Bytes × Chip) where
  -- A write of a register is one transfer of two bytes: the address with bit 7 clear, and the value.
  pub write_reg-frame :
      (a v : ℕ) (c : Chip)
      → a < 16
      → v < 256
      → write_reg exchange a v c ≡ (exchange (8 * a ∷ v ∷ []) c).1
  unfolding write_reg transfer_word
  write_reg-frame a v c h k =
      ap (λ bytes. (exchange bytes c).1)
        (unpack-pack payload (address a rnw_write ∷ v ∷ [])
            (omega (arith, address-bits a rnw_write h (omega arith)))
          ∙ ap (λ b. b ∷ v ∷ []) (address-bits a rnw_write h (omega arith) ∙ omega arith))

  -- A read of a register is one of the address with bit 7 set and a zero; the value is the second byte
  -- that comes in.
  pub read_reg-frame :
      (a r v : ℕ) (c c' : Chip)
      → a < 16
      → r < 256
      → v < 256
      → exchange ((8 * a + 128) ∷ 0 ∷ []) c ≡ (r ∷ v ∷ [], c')
      → read_reg exchange a c ≡ (v, c')
  unfolding read_reg transfer_word
  read_reg-frame a r v c c' h kr kv e =
      ap (λ bytes. value (exchange bytes c))
        (unpack-pack payload (address a rnw_read ∷ 0 ∷ [])
            (omega (arith, address-bits a rnw_read h (omega arith)))
          ∙ ap (λ b. b ∷ 0 ∷ []) (address-bits a rnw_read h (omega arith) ∙ omega arith))
      ∙ ap value e
      ∙ ap (λ l. (get_or l 1 0, c')) (unpack-pack payload (r ∷ v ∷ []) (omega (arith, kr, kv)))
    where
      value : Bytes × Chip → ℕ × Chip
      value got = (get_or (unpack payload (pack payload got.0)) 1 0, got.1)

  -- sc16is741a_chkCommReady writes the low byte of the clock to the scratchpad and reads it back, by
  -- these two transfers: it is ready exactly when the byte that comes in is the one written.
  pub chk_comm_ready-frames :
      (millis r v : ℕ) (c c' : Chip)
      → r < 256
      → v < 256
      → exchange (184 ∷ 0 ∷ []) (exchange (56 ∷ u8 millis ∷ []) c).1 ≡ (r ∷ v ∷ [], c')
      → chk_comm_ready exchange millis c ≡ (v == u8 millis, c')
  unfolding chk_comm_ready
  chk_comm_ready-frames millis r v c c' kr kv e =
      ap (λ (got : ℕ × Chip). (got.0 == u8 millis, got.1))
        (ap (read_reg exchange spr_addr)
            (write_reg-frame spr_addr (u8 millis) c (omega arith) (omega arith))
          ∙ read_reg-frame spr_addr r v _ c' (omega arith) kr kv e)
