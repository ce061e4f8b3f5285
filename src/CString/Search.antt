-- ===== src/CString/Search.antt =====
-- strstr, and texts that are longer than the one searched.
use cr_lte_modem.Base.{
  ℕ, zero, suc, ◌+◌, ◌≤◌, ◌<◌, ◌≡◌, refl, ◌∙◌, true, false, [], ◌∷◌, ◌++◌, none, some, length, drop,
  arith,
}
use cr_lte_modem.CString.{Bytes, starts_with, strstr}

-- A prefix stays one when the text grows.
pub starts_with-append : (p s t : Bytes) → starts_with p s ≡ true → starts_with p (s ++ t) ≡ true
unfolding starts_with
starts_with-append [] s t h = refl
starts_with-append (c ∷ p) [] t h = cc
starts_with-append (c ∷ p) (d ∷ s) t h = ground (arith, starts_with-append p s t)

-- Growing a text that is long enough makes no prefix.
pub starts_with-append_long :
    (p s t : Bytes) → length p ≤ length s → starts_with p (s ++ t) ≡ starts_with p s
unfolding starts_with
starts_with-append_long [] s t h = refl
starts_with-append_long (c ∷ p) [] t h = absurd (omega arith)
starts_with-append_long (c ∷ p) (d ∷ s) t h = ground (arith, starts_with-append_long p s t)

pub starts_with-length : (p s : Bytes) → starts_with p s ≡ true → length p ≤ length s
unfolding starts_with
starts_with-length [] s h = omega arith
starts_with-length (c ∷ p) [] h = absurd (cc)
starts_with-length (c ∷ p) (d ∷ s) h = ground (arith, starts_with-length p s)

-- What strstr finds is an occurrence, inside the text.
pub strstr_sound :
    (s p : Bytes) (i : ℕ)
    → strstr s p ≡ some i
    → (starts_with p (drop i s) ≡ true) × (i + length p ≤ length s)
unfolding strstr
strstr_sound [] p zero h = ground (arith, starts_with-length p [])
strstr_sound [] p (suc i) h = ground arith
strstr_sound (c ∷ s) p zero h = ground (arith, starts_with-length p (c ∷ s))
strstr_sound (c ∷ s) p (suc i) h = ground (arith, strstr_sound s p i)

-- It finds the first.
pub strstr_first :
    (s p : Bytes) (i j : ℕ) → strstr s p ≡ some i → j < i → starts_with p (drop j s) ≡ false
unfolding strstr
strstr_first [] p i j h lt = ground arith
strstr_first (c ∷ s) p zero j h lt = absurd (omega arith)
strstr_first (c ∷ s) p (suc i) zero h lt = ground arith
strstr_first (c ∷ s) p (suc i) (suc j) h lt = ground (arith, strstr_first s p i j)

-- Where it finds nothing there is no occurrence.
pub strstr-none : (s p : Bytes) (j : ℕ) → strstr s p ≡ none → starts_with p (drop j s) ≡ false
unfolding strstr
strstr-none [] p zero h = ground arith
strstr-none [] p (suc j) h = ground arith
strstr-none (c ∷ s) p zero h = ground arith
strstr-none (c ∷ s) p (suc j) h = ground (arith, strstr-none s p j)

strstr-nil : (t : Bytes) → strstr t [] ≡ some 0
unfolding strstr
strstr-nil [] = refl
strstr-nil (c ∷ t) = refl

-- An occurrence that was found stays the first when the text grows.
pub strstr-append : (s t p : Bytes) (i : ℕ) → strstr s p ≡ some i → strstr (s ++ t) p ≡ some i
unfolding strstr
strstr-append [] t [] i h = strstr-nil t ∙ h
strstr-append [] t (d ∷ p) i h = ground arith
strstr-append (c ∷ s) t p zero h = ground (arith, starts_with-append p (c ∷ s) t)
strstr-append (c ∷ s) t p (suc i) h =
    ground (arith, strstr-append s t p i, strstr_sound s p i, starts_with-append_long p (c ∷ s) t)
