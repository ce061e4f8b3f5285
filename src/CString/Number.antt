-- ===== src/CString/Number.antt =====
-- Numbers in decimal: strtol on what `%d` prints, and where strtol stops.
use cr_lte_modem.Base.{
  ◌∙◌, ap, ℕ, zero, suc, ◌+◌, ◌-◌, ◌*◌, ◌/◌, ◌%◌, ◌^◌, ◌≤◌, ◌<◌, ◌≡◌, refl, inl, inr, Bool, true,
  false, [], ◌∷◌, ◌++◌, arith, ltb, Bool-cases, length,
}
use native.Mathlib.Nat.{pow-suc}
use cr_lte_modem.CString.{
  Bytes, is_digit, scan_digits, strtol_digits, strtol_from, strtol, decimal_from, decimal,
}

decimal_from-append :
    (fuel n : ℕ) (out rest : Bytes)
    → decimal_from fuel n out ++ rest ≡ decimal_from fuel n (out ++ rest)
unfolding decimal_from
decimal_from-append zero n out rest = refl
decimal_from-append (suc f) n out rest =
    ground (arith, decimal_from-append f (n / 10) ((b'0' + n % 10) ∷ out) rest)

length-decimal_from :
    (fuel n : ℕ) (out : Bytes)
    → length (decimal_from fuel n out) ≡ length (decimal_from fuel n []) + length out
unfolding decimal_from
length-decimal_from zero n out = omega arith
length-decimal_from (suc f) n out = ground (
  arith,
  length-decimal_from f (n / 10) ((b'0' + n % 10) ∷ out),
  length-decimal_from f (n / 10) ((b'0' + n % 10) ∷ []),
)

-- The last digit read behind the others completes the number.
scan_last :
    (n : ℕ) (out : Bytes)
    → scan_digits (n / 10) ((b'0' + n % 10) ∷ out)
      ≡ ((scan_digits n out).0, suc (scan_digits n out).1)
unfolding scan_digits
scan_last n out = ground arith

scan_step :
    (n : ℕ) (out : Bytes)
    → n < 10
    → scan_digits 0 ((b'0' + n) ∷ out) ≡ ((scan_digits n out).0, suc (scan_digits n out).1)
unfolding scan_digits
scan_step n out h = ground arith

scan_digits-decimal_from :
    (fuel n : ℕ) (out : Bytes)
    → n < 10 ^ fuel
    → scan_digits 0 (decimal_from fuel n out)
      ≡ ((scan_digits n out).0, length (decimal_from fuel n []) + (scan_digits n out).1)
unfolding decimal_from
scan_digits-decimal_from zero n out h = let e : n ≡ 0 = omega arith in rw e (ground arith)
scan_digits-decimal_from (suc f) n out h = ground (
  arith,
  pow-suc 10 f,
  scan_digits-decimal_from f (n / 10) ((b'0' + n % 10) ∷ out),
  scan_last n out,
  length-decimal_from f (n / 10) ((b'0' + n % 10) ∷ []),
  scan_step n out,
)

pub starts_with_digit :
    (fuel n c : ℕ) (s : Bytes)
    → is_digit c ≡ true
    → (c' : ℕ) × (s' : Bytes) × (decimal_from fuel n (c ∷ s) ≡ c' ∷ s') × (is_digit c' ≡ true)
unfolding decimal_from
starts_with_digit zero n c s h = (c, s, refl, h)
starts_with_digit (suc f) n c s h = elim (Bool-cases (ltb n 10)) [
  | inl small ↦ (b'0' + n, c ∷ s, ground arith, ground arith)
  | inr big ↦ rw big (starts_with_digit f (n / 10) (b'0' + n % 10) (c ∷ s) (ground arith))
]

-- whether a text goes on with a digit
abbrev pub digit_next : Bytes → Bool
digit_next [] = false
digit_next (c ∷ s) = is_digit c

scan_stops : (n : ℕ) (rest : Bytes) → digit_next rest ≡ false → scan_digits n rest ≡ (n, 0)
unfolding scan_digits
scan_stops n [] h = refl
scan_stops n (c ∷ s) h = ground arith

-- With a digit in front there is nothing to skip and no sign.
strtol-digit :
    (used c : ℕ) (s : Bytes)
    → is_digit c ≡ true
    → strtol_from used (c ∷ s) ≡ strtol_digits false used (c ∷ s)
unfolding strtol_from
strtol-digit used c s h = ground arith

strtol-decimal_from :
    (used fuel n : ℕ) (rest : Bytes)
    → n < 10 ^ suc fuel
    → strtol_from used (decimal_from (suc fuel) n rest)
      ≡ strtol_digits false used (decimal_from (suc fuel) n rest)
unfolding decimal_from
strtol-decimal_from used fuel n rest h = elim (Bool-cases (ltb n 10)) [
  | inl small ↦ rw small (strtol-digit used (b'0' + n) rest (ground arith))
  | inr big ↦
      let (c, s, e, d) = starts_with_digit fuel (n / 10) (b'0' + n % 10) rest (ground arith) in
      rw (big, e) (strtol-digit used c s d)
]

decimal-pos : (fuel n : ℕ) (out : Bytes) → 0 < length (decimal_from (suc fuel) n out)
unfolding decimal_from
decimal-pos zero n out = ground arith
decimal-pos (suc f) n out = ground (arith, decimal-pos f (n / 10) ((b'0' + n % 10) ∷ out))

strtol_digits-small :
    (used n k : ℕ) (text : Bytes)
    → n < 2 ^ 31
    → 0 < k
    → scan_digits 0 text ≡ (n, k)
    → strtol_digits false used text ≡ record { negative = false; magnitude = n; stop = used + k }
unfolding strtol_digits
strtol_digits-small used n k text h pos e = rw e (ground arith)

strtol_of_fuel :
    (used fuel n : ℕ) (rest : Bytes)
    → n < 10 ^ suc fuel
    → n < 2 ^ 31
    → digit_next rest ≡ false
    → strtol_from used (decimal_from (suc fuel) n [] ++ rest) ≡ record {
      negative = false;
      magnitude = n;
      stop = used + length (decimal_from (suc fuel) n []);
    }
strtol_of_fuel used fuel n rest w h d =
    rw (decimal_from-append (suc fuel) n [] rest, strtol-decimal_from used fuel n rest w)
      (strtol_digits-small used n _ _ h (decimal-pos fuel n []) read)
  where
    read :
        scan_digits 0 (decimal_from (suc fuel) n rest) ≡ (n, length (decimal_from (suc fuel) n []))
    read = ground (arith, scan_digits-decimal_from (suc fuel) n rest w, scan_stops n rest d)

-- A number that an `int` holds is read back from its print, up to the end of the print, whatever
-- text without a digit in front stands behind it.
pub strtol-decimal :
    (n : ℕ) (rest : Bytes)
    → n < 2 ^ 31
    → digit_next rest ≡ false
    → strtol (decimal n ++ rest)
      ≡ record { negative = false; magnitude = n; stop = length (decimal n) }
unfolding decimal strtol
strtol-decimal n rest h d =
    strtol_of_fuel 0 9 n rest (omega arith) h d
    ∙ ap (λ k. record { negative = false; magnitude = n; stop = k }) (omega arith)

-- A blank in front is skipped, and counts.
pub strtol-blank :
    (n : ℕ) (rest : Bytes)
    → n < 2 ^ 31
    → digit_next rest ≡ false
    → strtol (b' ' ∷ (decimal n ++ rest))
      ≡ record { negative = false; magnitude = n; stop = 1 + length (decimal n) }
unfolding decimal strtol strtol_from
strtol-blank n rest h d = strtol_of_fuel 1 9 n rest (omega arith) h d

scan_digits-le : (acc : ℕ) (s : Bytes) → (scan_digits acc s).1 ≤ length s
unfolding scan_digits
scan_digits-le acc [] = omega arith
scan_digits-le acc (c ∷ s) = ground (arith, scan_digits-le (acc * 10 + (c - b'0')) s)

strtol_from-le : (used : ℕ) (s : Bytes) → (strtol_from used s).stop ≤ used + length s
unfolding strtol_from strtol_digits
strtol_from-le used [] = ground (arith, scan_digits-le 0 [])
strtol_from-le used (c ∷ s) =
    ground (arith, strtol_from-le (used + 1) s, scan_digits-le 0 s, scan_digits-le 0 (c ∷ s))

-- strtol stops inside its text.
pub strtol-le : (s : Bytes) → (strtol s).stop ≤ length s
unfolding strtol
strtol-le s = omega (arith, strtol_from-le 0 s)
