-- ===== src/ModemInfo/Identity.antt =====
-- The texts that `mdminfo_ltem` makes of the lines of the modem.
use cr_lte_modem.Base.{
  ℕ, ◌<◌, ◌≡◌, refl, sym, ap, ◌∙◌, none, some, [], ◌∷◌, ◌++◌, append_assoc, arith, lt→ltb, length,
  set,
}
use cr_lte_modem.CString.{Bytes}
use cr_lte_modem.CString.Pieces.{Avoids, Avoids-append, strchr-Avoids, strchr-Avoids-none}
use cr_lte_modem.ModemInfo.{strcpy_into, put_at_first, fwver_text, mfgmodel_text}

set-first : (s t : Bytes) (x y : ℕ) → set (s ++ x ∷ t) (length s) y ≡ s ++ y ∷ t
set-first [] t x y = refl
set-first (c ∷ s) t x y = ap (λ l. c ∷ l) (set-first s t x y)

put_at_first-Avoids :
    (old new : ℕ) (s t : Bytes)
    → Avoids old s
    → put_at_first old new (s ++ old ∷ t) ≡ some (s ++ new ∷ t)
unfolding put_at_first
put_at_first-Avoids old new s t h =
    rw (strchr-Avoids old s t h, put_at_first) (rw (set-first s t old new) refl)

put_at_first-none : (old new : ℕ) (s : Bytes) → Avoids old s → put_at_first old new s ≡ none
unfolding put_at_first
put_at_first-none old new s h = rw (strchr-Avoids-none old s h, put_at_first) refl

strcpy_into-fits : (size : ℕ) (s : Bytes) → length s < size → strcpy_into size s ≡ some s
unfolding strcpy_into
strcpy_into-fits size s h = rw (lt→ltb (length s) size h) refl

-- The version's line of at most 40 bytes: its first underscore becomes a blank.
fwver_text-underscore :
    (s t : Bytes)
    → length (s ++ b'_' ∷ t) < 41
    → Avoids b'_' s
    → fwver_text (s ++ b'_' ∷ t) ≡ some (s ++ 32 ∷ t)
unfolding fwver_text
fwver_text-underscore s t h a =
    rw (strcpy_into-fits 41 (s ++ b'_' ∷ t) h, fwver_text) (put_at_first-Avoids b'_' 32 s t a)

-- With no underscore in it mdminfo_ltem writes at NULL.
fwver_text-none : (s : Bytes) → length s < 41 → Avoids b'_' s → fwver_text s ≡ none
unfolding fwver_text
fwver_text-none s h q = rw (strcpy_into-fits 41 s h, fwver_text) (put_at_first-none b'_' 32 s q)

-- The two lines of the model, of at most 20 bytes together with their line end, are put together with a
-- colon and a blank.
pub mfgmodel_text-lines :
    (a b : Bytes)
    → length (a ++ 13 ∷ 10 ∷ b) < 21
    → Avoids 13 a
    → Avoids 10 a
    → mfgmodel_text (a ++ 13 ∷ 10 ∷ b) ≡ some (a ++ b':' ∷ 32 ∷ b)
unfolding mfgmodel_text
mfgmodel_text-lines a b h r n =
    rw (strcpy_into-fits 21 (a ++ 13 ∷ 10 ∷ b) h, mfgmodel_text)
      (rw (put_at_first-Avoids 13 b':' a (10 ∷ b) r, mfgmodel_text)
        (ap (put_at_first 10 32) split
          ∙ put_at_first-Avoids 10 32 (a ++ b':' ∷ []) b (Avoids-append 10 a _ n (omega arith))
          ∙ ap some (append_assoc a (b':' ∷ []) (32 ∷ b))))
  where
    split : a ++ b':' ∷ 10 ∷ b ≡ (a ++ b':' ∷ []) ++ 10 ∷ b
    split = sym (append_assoc a (b':' ∷ []) (10 ∷ b))
