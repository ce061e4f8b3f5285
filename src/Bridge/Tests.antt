-- ===== src/Bridge/Tests.antt =====
-- The bridge over a bank of registers that keeps what is written to it.
use cr_lte_modem.Base.{
  ℕ, ◌<◌, ◌≡◌, refl, ◌-◌, ◌/◌, List, [], ◌∷◌, arith, ltb, ◌==◌, if◌then◌else◌, get_or, set,
  replicate, u8,
}
use cr_lte_modem.CString.{Bytes}
use cr_lte_modem.Bridge.{
  efr, modify_reg, pack, unpack, start, enable_irq_mode, read_reg, write_reg, chk_comm_ready,
}
use cr_lte_modem.Bridge.Modify.{modify_reg-frames}
use cr_lte_modem.Bridge.Frames.{chk_comm_ready-frames}

-- sixteen registers, of which a transfer of two bytes reads or writes one
bank : Bytes → List ℕ → Bytes × List ℕ
bank (a ∷ v ∷ []) regs =
    if ltb a 128
    then (0 ∷ 0 ∷ [], set regs (a / 8) v)
    else (0 ∷ get_or regs (a / 8 - 16) 0 ∷ [], regs)
bank bytes regs = (bytes, regs)

-- After the start of the driver the line control is 8N1 and the FIFO is enabled. (The bank has no second
-- set of registers, so the divisor lies in registers 0 and 1.)
after_start :
    start bank (replicate 16 0)
    ≡ 4 ∷ 0 ∷ 0xB1 ∷ 3 ∷ 0 ∷ 0 ∷ 0 ∷ 0 ∷ 0 ∷ 0 ∷ 0 ∷ 0 ∷ 0 ∷ 0 ∷ 8 ∷ 0 ∷ []
unfolding start bank write_reg read_reg modify_reg
after_start = refl

after_enable_irq_mode : enable_irq_mode bank (replicate 2 0) ≡ 0 ∷ 7 ∷ []
unfolding enable_irq_mode bank write_reg pack
after_enable_irq_mode = refl

chk_comm_ready-frames_example :
    chk_comm_ready bank 300 (replicate 16 0) ≡ (44 == u8 300, set (replicate 16 0) 7 44)
unfolding bank
chk_comm_ready-frames_example =
    chk_comm_ready-frames bank 300 0 44 (replicate 16 0) (set (replicate 16 0) 7 44) (omega arith)
      (omega arith) refl

-- the enhanced functions switched on
modify_reg-frames_example :
    (n : ℕ) × (n < 256)
    × (unpack efr n ≡ set (unpack efr 0xC2) 1 1)
    × (modify_reg bank efr 2 1 1 (set (replicate 16 0) 2 0xC2)
        ≡ (bank (16 ∷ n ∷ []) (set (replicate 16 0) 2 0xC2)).1)
unfolding bank
modify_reg-frames_example =
    modify_reg-frames bank efr 2 1 1 0 0xC2 (set (replicate 16 0) 2 0xC2)
      (set (replicate 16 0) 2 0xC2) refl (omega arith) (omega arith) (omega arith) (omega arith)
      refl
