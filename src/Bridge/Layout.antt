-- ===== src/Bridge/Layout.antt =====
-- The fields of a register and its number.
use cr_lte_modem.Base.{
  ℕ, zero, suc, ◌+◌, ◌*◌, ◌/◌, ◌%◌, ◌^◌, ◌<◌, ◌≡◌, refl, ap, ap₂, ◌∙◌, List, [], ◌∷◌, arith, get_or,
  set,
}
use native.Mathlib.Nat.{
  pow-suc, mod-lt, mod-mod, mod-eq_of_lt, div-eq_of_lt, add-mul-mod_self_left, add-mul-div_left,
}
use cr_lte_modem.Bridge.{Layout, pack, unpack, modify_field}

pub two_pow-pos : (w : ℕ) → 0 < 2 ^ w
two_pow-pos zero = omega arith
two_pow-pos (suc w) = omega (arith, pow-suc 2 w, two_pow-pos w)

-- as many fields as the layout has, each below the power of its width
abbrev pub Fits : Layout → List ℕ → Type 0
Fits [] [] = Unit {0}
Fits [] (v ∷ vs) = ⊥
Fits (w ∷ ws) [] = ⊥
Fits (w ∷ ws) (v ∷ vs) = (v < 2 ^ w) × Fits ws vs

-- A register written field by field is read back field by field.
pub unpack-pack : (ws : Layout) (vs : List ℕ) → Fits ws vs → unpack ws (pack ws vs) ≡ vs
unfolding pack unpack
unpack-pack [] [] h = refl
unpack-pack [] (v ∷ vs) h = absurd h
unpack-pack (w ∷ ws) [] h = absurd h
unpack-pack (w ∷ ws) (v ∷ vs) h =
    ap₂ (λ a b. a ∷ b) low (ap (unpack ws) high ∙ unpack-pack ws vs h.1)
  where
    m : ℕ
    m = 2 ^ w

    field : v % m ≡ v
    field = mod-eq_of_lt h.0

    low : (v % m + m * pack ws vs) % m ≡ v
    low = add-mul-mod_self_left (v % m) m (pack ws vs) ∙ mod-mod v m ∙ field

    high : (v % m + m * pack ws vs) / m ≡ pack ws vs
    high =
        add-mul-div_left (v % m) (pack ws vs) (two_pow-pos w)
        ∙ ap (λ q. q + pack ws vs) (div-eq_of_lt (mod-lt v (two_pow-pos w)))
        ∙ omega arith

Fits-unpack : (ws : Layout) (b : ℕ) → Fits ws (unpack ws b)
unfolding unpack
Fits-unpack [] b = tt
Fits-unpack (w ∷ ws) b = (mod-lt b (two_pow-pos w), Fits-unpack ws (b / 2 ^ w))

Fits-set :
    (ws : Layout) (vs : List ℕ) (i v : ℕ)
    → Fits ws vs
    → v < 2 ^ get_or ws i 0
    → Fits ws (set vs i v)
Fits-set [] [] i v h k = tt
Fits-set [] (x ∷ vs) i v h k = absurd h
Fits-set (w ∷ ws) [] i v h k = absurd h
Fits-set (w ∷ ws) (x ∷ vs) zero v h k = (k, h.1)
Fits-set (w ∷ ws) (x ∷ vs) (suc i) v h k = (h.0, Fits-set ws vs i v h.1 k)

pub unpack-modify_field :
    (ws : Layout) (i v b : ℕ)
    → v < 2 ^ get_or ws i 0
    → unpack ws (modify_field ws i v b) ≡ set (unpack ws b) i v
unfolding modify_field
unpack-modify_field ws i v b h =
    unpack-pack ws (set (unpack ws b) i v) (Fits-set ws (unpack ws b) i v (Fits-unpack ws b) h)
