-- ===== src/Bridge/Modify.antt =====
-- REG_MODIFY of src/ltemc-nxp-sc16is.c on the SPI lines.
use cr_lte_modem.Base.{
  ℕ, suc, ◌+◌, ◌*◌, ◌^◌, ◌%◌, ◌≤◌, ◌<◌, ◌≡◌, ap, ◌∙◌, List, [], ◌∷◌, arith, get_or, set,
}
use mathlib.Core.Path.{subst}
use native.Mathlib.Nat.{mod-lt, mul-suc, mul-le-mul_left}
use cr_lte_modem.CString.{Bytes}
use cr_lte_modem.Bridge.{Layout, pack, unpack, modify_field, write_reg, modify_reg}
use cr_lte_modem.Bridge.Layout.{two_pow-pos, unpack-modify_field}
use cr_lte_modem.Bridge.Frames.{read_reg-frame, write_reg-frame}

-- how many values the fields of a layout have together
abbrev pub values : Layout → ℕ
values [] = 1
values (w ∷ ws) = 2 ^ w * values ws

under : (v m q n : ℕ) → v < m → m * suc q ≤ m * n → v + m * q < m * n
under v m q n h k = omega (arith, h, k, step)
  where
    step : m * suc q ≡ m * q + m
    step = mul-suc m q

pack_lt : (ws : Layout) (vs : List ℕ) → pack ws vs < values ws
unfolding pack
pack_lt [] vs = omega arith
pack_lt (w ∷ ws) [] = omega (
  arith,
  under 0 (2 ^ w) (pack ws []) (values ws) (two_pow-pos w)
      (mul-le-mul_left (2 ^ w) (pack_lt ws [])),
)
pack_lt (w ∷ ws) (v ∷ vs) =
    under (v % 2 ^ w) (2 ^ w) (pack ws vs) (values ws) (mod-lt v (two_pow-pos w))
      (mul-le-mul_left (2 ^ w) (pack_lt ws vs))

module _ {Chip : Type 0} (exchange : Bytes → Chip → Bytes × Chip) where
  -- REG_MODIFY of a register whose fields make up a byte, to a value that its field holds, is two
  -- transfers of two bytes each: a read of the register, in which the byte b comes in, and then a write of
  -- a byte n in which this field has the value and every other field the one that it has in b.
  pub modify_reg-frames :
      (ws : Layout) (a i v r b : ℕ) (c c' : Chip)
      → values ws ≡ 256
      → a < 16
      → v < 2 ^ get_or ws i 0
      → r < 256
      → b < 256
      → exchange ((8 * a + 128) ∷ 0 ∷ []) c ≡ (r ∷ b ∷ [], c')
      → (n : ℕ) × (n < 256)
        × (unpack ws n ≡ set (unpack ws b) i v)
        × (modify_reg exchange ws a i v c ≡ (exchange (8 * a ∷ n ∷ []) c').1)
  unfolding modify_reg
  modify_reg-frames ws a i v r b c c' whole small field kr kb e =
      let n : ℕ = modify_field ws i v b in
      let byte : n < 256 = subst (λ m. n < m) whole (below ws i v b) in
      (
        n,
        byte,
        unpack-modify_field ws i v b field,
        ap (λ (got : ℕ × Chip). write_reg exchange a (modify_field ws i v got.0) got.1)
              (read_reg-frame exchange a r b c c' small kr kb e)
            ∙ write_reg-frame exchange a n c' small byte,
      )
    where
      below : (ws : Layout) (i v b : ℕ) → modify_field ws i v b < values ws
      below ws i v b = unfold modify_field in pack_lt ws (set (unpack ws b) i v)
