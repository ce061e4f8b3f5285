-- ===== src/Token.antt =====
-- The two tokenizers of the driver: `atcmd_strToken` (src/ltemc-atcmd.c) and `s_grabToken`
-- (src/ltemc-network.c). Each copies the text before a delimiter into a buffer of the caller.
pub mod Agree
pub mod Fits
mod Tests
use cr_lte_modem.Base.{
  ℕ, zero, suc, ◌+◌, ◌-◌, ◌*◌, ◌/◌, ◌%◌, ◌^◌, ◌≤◌, ◌<◌, min, ◌≡◌, refl, sym, ap, ap₂, ◌∙◌, ◌≢◌, ◌↔◌,
  ◌⊎◌, inl, inr, Bool, true, false, not, ◌&&◌, ◌||◌, Option, none, some, List, [], ◌∷◌, ◌++◌, map,
  append-nil, append_assoc, arith, ltb, leb, ◌==◌, if◌then◌else◌, ltb→lt, lt→ltb, leb→le, ==_iff,
  if-elim, Bool-cases, Option-cases, length, get_elem?, get_or, set, take, drop, replicate,
  length-append, length-set, length-take, length-drop, length-replicate, take-append-drop,
  take-append, drop-append, drop-append_le, drop-add, drop-append_add, get_elem?-eq-get_or,
  get_or-set_self, get_or-set_ne, take-nil, List-cases, bit, bit-bits_or, bit-bits_and,
  bit-bits_and_not, bit-not_zero, bit-pow, bits_or, bits_and, bits_and_not, u8, u16, u32, sub16,
  sub32,
}
use cr_lte_modem.CString.{Bytes, strchr}

-- What a tokenizer leaves: the place behind the delimiter (none: NULL), and the buffer.
pub record Token : Type 0 where
  pub rest : Option ℕ
  pub buf : Bytes

abbrev pub zeros : ℕ → Bytes
zeros n = replicate n 0

-- `memset(buf, 0, n)`; past the buffer it is undefined (none).
unfoldable pub memset_zero : ℕ → Bytes → Option Bytes
memset_zero n buf = if leb n (length buf) then some (zeros n ++ drop n buf) else none

-- `strncpy(buf, source, n)` where the source has n bytes at least
unfoldable pub strncpy_part : ℕ → Bytes → Bytes → Option Bytes
strncpy_part n source buf = if leb n (length buf) then some (take n source ++ drop n buf) else none

-- `strncpy(buf, source, MIN(size, max - 1))`; with a `max` of 0 the count is -1 as a `size_t`.
unfoldable pub copy_token : ℕ → ℕ → Bytes → Bytes → Option Bytes
unfolding strncpy_part
copy_token size max source buf =
    if max == 0 then none else strncpy_part (min size (max - 1)) source buf

-- The buffer is cleared as far as `cleared`, then the token goes in.
unfoldable pub fill : ℕ → ℕ → ℕ → ℕ → Bytes → Bytes → Option Token
unfolding memset_zero copy_token
fill i size max cleared source buf = elim (memset_zero cleared buf) [
  | none ↦ none
  | some b ↦ elim (copy_token size max source b) [
    | none ↦ none
    | some b' ↦ some (record { rest = some (i + 1); buf = b' })
  ]
]

-- `atcmd_strToken` at a source that is not NULL: the whole buffer is cleared. Where the delimiter does
-- not occur the size is computed from NULL, which is undefined (none); a size is a `uint8_t`.
unfoldable pub str_token : Bytes → ℕ → Bytes → ℕ → Option Token
unfolding fill
str_token source delimiter buf max = elim (strchr source delimiter) [
  | none ↦ none
  | some i ↦
      if u8 i == 0
      then some (record { rest = none; buf = buf })
      else fill i (u8 i) max max source buf
]

-- `s_grabToken`: as many bytes as the token has are cleared.
unfoldable pub grab_token : Bytes → ℕ → Bytes → ℕ → Option Token
unfolding fill
grab_token source delimiter buf max = elim (strchr source delimiter) [
  | none ↦ none
  | some i ↦
      if u8 i == 0
      then some (record { rest = none; buf = buf })
      else fill i (u8 i) max (u8 i) source buf
]
