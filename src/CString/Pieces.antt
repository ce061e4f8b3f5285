-- ===== src/CString/Pieces.antt =====
-- Searches in texts that are put together from pieces.
use cr_lte_modem.Base.{
  ℕ, zero, suc, ◌+◌, ◌/◌, ◌%◌, ◌≡◌, refl, ◌≢◌, inl, inr, false, none, some, [], ◌∷◌, ◌++◌, arith,
  ltb, ◌==◌, Bool-cases, length, take, drop, replicate,
}
use cr_lte_modem.CString.{
  Bytes, c_str, starts_with, strstr, strchr, is_digit, decimal_from, decimal,
}

-- a text without a byte
abbrev pub Avoids : ℕ → Bytes → Type 0
Avoids b [] = Unit {0}
Avoids b (c ∷ s) = (c ≢ b) × Avoids b s

pub Avoids-append : (b : ℕ) (s t : Bytes) → Avoids b s → Avoids b t → Avoids b (s ++ t)
Avoids-append b [] t h k = k
Avoids-append b (c ∷ s) t h k = (h.0, Avoids-append b s t h.1 k)

Avoids-decimal_from :
    (b fuel n : ℕ) (out : Bytes)
    → is_digit b ≡ false
    → Avoids b out
    → Avoids b (decimal_from fuel n out)
unfolding decimal_from
Avoids-decimal_from b zero n out h k = k
Avoids-decimal_from b (suc fuel) n out h k = elim (Bool-cases (ltb n 10)) [
  | inl small ↦ rw small (ground arith, k)
  | inr big ↦
      rw big (Avoids-decimal_from b fuel (n / 10) ((b'0' + n % 10) ∷ out) h (ground arith, k))
]

-- A number in decimal has digits only.
pub Avoids-decimal : (b n : ℕ) → is_digit b ≡ false → Avoids b (decimal n)
unfolding decimal
Avoids-decimal b n h = Avoids-decimal_from b 10 n [] h tt

-- strchr finds the byte behind a text without it.
pub strchr-Avoids : (b : ℕ) (s t : Bytes) → Avoids b s → strchr (s ++ b ∷ t) b ≡ some (length s)
unfolding strchr
strchr-Avoids b [] t h = ground arith
strchr-Avoids b (c ∷ s) t h = ground (arith, strchr-Avoids b s t h.1)

pub strchr-Avoids-none : (b : ℕ) (s : Bytes) → Avoids b s → strchr s b ≡ none
unfolding strchr
strchr-Avoids-none b [] h = refl
strchr-Avoids-none b (c ∷ s) h = ground (arith, strchr-Avoids-none b s h.1)

pub Avoids-take : (b n : ℕ) (s : Bytes) → Avoids b s → Avoids b (take n s)
Avoids-take b zero s h = tt
Avoids-take b (suc n) [] h = tt
Avoids-take b (suc n) (c ∷ s) h = (h.0, Avoids-take b n s h.1)

pub Avoids-replicate : (b c n : ℕ) → c ≢ b → Avoids b (replicate n c)
Avoids-replicate b c zero h = tt
Avoids-replicate b c (suc n) h = (h, Avoids-replicate b c n h)

-- A text without a zero, in memory with zeros behind it, is read back as a string.
pub c_str-Avoids : (s : Bytes) (n : ℕ) → Avoids 0 s → c_str (s ++ replicate n 0) ≡ s
unfolding c_str
c_str-Avoids [] zero h = refl
c_str-Avoids [] (suc n) h = refl
c_str-Avoids (c ∷ s) n h = ground (arith, c_str-Avoids s n h.1)

-- strstr skips a text without the first byte of the pattern.
pub strstr-Avoids :
    (b : ℕ) (p s t : Bytes) (i : ℕ)
    → Avoids b s
    → strstr t (b ∷ p) ≡ some i
    → strstr (s ++ t) (b ∷ p) ≡ some (length s + i)
unfolding strstr
strstr-Avoids b p [] t i h e = ground (arith, e)
strstr-Avoids b p (c ∷ s) t i h e = ground (arith, strstr-Avoids b p s t i h.1 e)

pub strstr-Avoids-none : (b : ℕ) (p s : Bytes) → Avoids b s → strstr s (b ∷ p) ≡ none
unfolding strstr
strstr-Avoids-none b p [] h = refl
strstr-Avoids-none b p (c ∷ s) h = ground (arith, strstr-Avoids-none b p s h.1)

-- Nor is a pattern found in a text without its second byte.
pub strstr-Avoids_second : (b c : ℕ) (p s : Bytes) → Avoids c s → strstr s (b ∷ c ∷ p) ≡ none
unfolding strstr starts_with
strstr-Avoids_second b c p [] h = refl
strstr-Avoids_second b c p (x ∷ []) h = ground arith
strstr-Avoids_second b c p (x ∷ y ∷ s) h =
    ground (arith, strstr-Avoids_second b c p (y ∷ s) h.1, h.1.0)

-- The string behind the first part of a string.
pub c_str-drop : (mem s t : Bytes) → c_str mem ≡ s ++ t → c_str (drop (length s) mem) ≡ t
unfolding c_str
c_str-drop mem [] t h = h
c_str-drop [] (c ∷ s) t h = absurd (cc)
c_str-drop (d ∷ mem) (c ∷ s) t h = elim (Bool-cases (d == 0)) [
  | inl z ↦ absurd (ground (arith, h))
  | inr nz ↦ c_str-drop mem s t (ground arith)
]
