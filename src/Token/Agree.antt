-- ===== src/Token/Agree.antt =====
-- The two tokenizers compared.
use cr_lte_modem.Base.{
  ℕ, zero, suc, ◌≤◌, ◌≡◌, refl, ap, inl, inr, Bool, true, none, some, ◌∷◌, ◌++◌, arith, leb,
  if◌then◌else◌, leb→le, Bool-cases, Option-cases, drop, length-replicate, u8,
}
use cr_lte_modem.CString.{Bytes, strchr}
use cr_lte_modem.Token.{zeros, memset_zero, fill, str_token, grab_token}

zeros-drop : (n m : ℕ) → n ≤ m → zeros n ++ drop n (zeros m) ≡ zeros m
zeros-drop zero m h = refl
zeros-drop (suc n) zero h = absurd (omega arith)
zeros-drop (suc n) (suc m) h = ap (λ xs. 0 ∷ xs) (zeros-drop n m (omega arith))

memset_zero-zeros : (n m : ℕ) → memset_zero n (zeros m) ≡ (if leb n m then some (zeros m) else none)
unfolding memset_zero
memset_zero-zeros n m = rw (length-replicate {A = ℕ} m 0) (elim (Bool-cases (leb n m)) [
  | inl le ↦ rw (le, zeros-drop n m (leb→le n m le)) refl
  | inr gt ↦ rw gt refl
])

-- Filling a buffer of zeros does not depend on how much of it is cleared before.
fill-zeros :
    (i size max cleared : ℕ) (source : Bytes)
    → fill i size max cleared source (zeros max)
      ≡ (if leb cleared max then fill i size max max source (zeros max) else none)
unfolding fill
fill-zeros i size max cleared source =
    ground (arith, memset_zero-zeros cleared max, memset_zero-zeros max max)

-- whether the token in front of the delimiter, by its size as a `uint8_t`, fits the buffer
abbrev pub fits : Bytes → ℕ → ℕ → Bool
fits source delimiter max = elim (strchr source delimiter) [ none ↦ true | some i ↦ leb (u8 i) max ]

-- On a buffer of zeros the tokenizers agree where the length of the token, as s_grabToken keeps it in a
-- `uint8_t` (so less a multiple of 256), is at most the size of the buffer; where this length is greater
-- s_grabToken clears past the buffer, which is undefined.
pub grab_token-str_token :
    (source : Bytes) (delimiter max : ℕ)
    → grab_token source delimiter (zeros max) max
      ≡ (if fits source delimiter max then str_token source delimiter (zeros max) max else none)
unfolding grab_token str_token
grab_token-str_token source delimiter max = elim (Option-cases (strchr source delimiter)) [
  | inl e ↦ ground arith
  | inr (i, e) ↦ ground (arith, fill-zeros i (u8 i) max (u8 i) source)
]
