-- ===== src/Token/Fits.antt =====
-- A token that is shorter than the buffer.
use cr_lte_modem.Base.{
  ℕ, zero, suc, ◌+◌, ◌<◌, ◌≡◌, refl, some, ◌∷◌, ◌++◌, arith, length, take, drop, length-append,
  length-drop, length-replicate, take-append,
}
use cr_lte_modem.CString.{Bytes}
use cr_lte_modem.CString.Pieces.{Avoids, strchr-Avoids}
use cr_lte_modem.Token.{zeros, memset_zero, strncpy_part, copy_token, fill, grab_token}

drop-zeros : (n : ℕ) (s : Bytes) → drop n (zeros n ++ s) ≡ s
drop-zeros zero s = refl
drop-zeros (suc n) s = drop-zeros n s

fill_fits :
    (max n : ℕ) (source buf : Bytes)
    → n < max
    → length buf ≡ max
    → fill n n max n source buf
      ≡ some (record { rest = some (n + 1); buf = take n source ++ drop n buf })
unfolding fill memset_zero copy_token strncpy_part
fill_fits max n source buf h l = ground (
  arith,
  length-append {A = ℕ} (zeros n) (drop n buf),
  length-replicate {A = ℕ} n 0,
  length-drop n buf,
  drop-zeros n (drop n buf),
)

-- s_grabToken of a token that fits: the token, and behind it what the buffer held there.
pub grab_token_fits :
    (delimiter max : ℕ) (token buf more : Bytes)
    → length buf ≡ max
    → 0 < length token
    → length token < max
    → max < 256
    → Avoids delimiter token
    → grab_token (token ++ delimiter ∷ more) delimiter buf max
      ≡ some (record { rest = some (length token + 1); buf = token ++ drop (length token) buf })
unfolding grab_token
grab_token_fits delimiter max token buf more l pos short small q = ground (
  arith,
  strchr-Avoids delimiter token more q,
  fill_fits max (length token) (token ++ delimiter ∷ more) buf short l,
  take-append token (delimiter ∷ more),
)
