-- ===== src/CString.antt =====
-- The C string functions that the driver calls (strlen, strstr, strchr, memchr, strncmp, strncpy,
-- strtol and the `%d` of snprintf), over lists of bytes. A C string is the list of its bytes before
-- the terminating zero, a pointer into it an offset.
pub mod Search
pub mod Number
pub mod Pieces
use cr_lte_modem.Base.{
  ℕ, zero, suc, ◌+◌, ◌-◌, ◌*◌, ◌/◌, ◌%◌, Bool, true, false, ◌&&◌, ◌||◌, Option, none, some, List,
  [], ◌∷◌, take, ltb, leb, ◌==◌, if◌then◌else◌, min,
}
use Prim.Native.Char.{code}
use Prim.Native.String.{String}
use mathlib.Core.Option

abbrev pub Bytes : Type 0
Bytes = List ℕ

-- the bytes of a string literal
abbrev pub codes : String → Bytes
codes String.[] = []
codes (String.◌∷◌ c s) = code c ∷ codes s

-- the string at the start of a stretch of memory
unfoldable pub c_str : Bytes → Bytes
c_str [] = []
c_str (b ∷ mem) = if b == 0 then [] else b ∷ c_str mem

-- whether `s` begins with `p`
unfoldable pub starts_with : Bytes → Bytes → Bool
starts_with [] s = true
starts_with (c ∷ p) [] = false
starts_with (c ∷ p) (d ∷ s) = c == d && starts_with p s

-- `strstr(s, p)`, as an offset into `s`
unfoldable pub strstr : Bytes → Bytes → Option ℕ
unfolding starts_with
strstr [] p = if starts_with p [] then some 0 else none
strstr (c ∷ s) p = if starts_with p (c ∷ s) then some 0 else Option.map suc (strstr s p)

-- `strchr(s, c)` for a `c` that is not 0, and `memchr` over a stretch of memory
unfoldable pub strchr : Bytes → ℕ → Option ℕ
strchr [] c = none
strchr (d ∷ s) c = if d == c then some 0 else Option.map suc (strchr s c)

-- `strncmp(a, b, n) == 0`
unfoldable pub strncmp_eq : Bytes → Bytes → ℕ → Bool
strncmp_eq a b zero = true
strncmp_eq [] [] (suc n) = true
strncmp_eq [] (d ∷ b) (suc n) = false
strncmp_eq (c ∷ a) [] (suc n) = false
strncmp_eq (c ∷ a) (d ∷ b) (suc n) = c == d && strncmp_eq a b n

-- `strcmp(a, b) == 0`
unfoldable pub strcmp_eq : Bytes → Bytes → Bool
strcmp_eq [] [] = true
strcmp_eq [] (d ∷ b) = false
strcmp_eq (c ∷ a) [] = false
strcmp_eq (c ∷ a) (d ∷ b) = c == d && strcmp_eq a b

-- `memcpy(mem + at, src, strlen(src))`: what would land past the end of `mem` is left out.
unfoldable pub write_at : Bytes → ℕ → Bytes → Bytes
write_at [] at src = []
write_at (b ∷ mem) (suc at) src = b ∷ write_at mem at src
write_at (b ∷ mem) zero [] = b ∷ mem
write_at (b ∷ mem) zero (s ∷ src) = s ∷ write_at mem zero src

-- `isspace`, `isdigit`
abbrev pub is_space : ℕ → Bool
is_space c = c == 32 || leb 9 c && leb c 13

abbrev pub is_digit : ℕ → Bool
is_digit c = leb b'0' c && leb c b'9'

-- What `strtol(s, &end, 10)` gives: the sign, the magnitude, and the offset of `end`.
pub record Strtol : Type 0 where
  pub negative : Bool
  pub magnitude : ℕ
  pub stop : ℕ

-- the run of digits: the value behind `acc`, and how many there are
unfoldable pub scan_digits : ℕ → Bytes → ℕ × ℕ
scan_digits acc [] = (acc, 0)
scan_digits acc (c ∷ s) =
    if is_digit c
    then (let (v, n) = scan_digits (acc * 10 + (c - b'0')) s in (v, suc n))
    else (acc, 0)

-- A `long` has 32 bits on the target: the result saturates.
abbrev pub clamp_long : Bool → ℕ → ℕ
clamp_long neg m = if neg then min m 2147483648 else min m 2147483647

-- the digits behind white space and a sign, `used` bytes long; with no digit, `end` is the start
unfoldable pub strtol_digits : Bool → ℕ → Bytes → Strtol
unfolding scan_digits
strtol_digits neg used s =
    let (v, n) = scan_digits 0 s in
    if n == 0
    then record { negative = false; magnitude = 0; stop = 0 }
    else record { negative = neg; magnitude = clamp_long neg v; stop = used + n }

unfoldable pub strtol_from : ℕ → Bytes → Strtol
unfolding strtol_digits
strtol_from used [] = strtol_digits false used []
strtol_from used (c ∷ s) =
    let skipped = strtol_from (used + 1) s in
    if is_space c
    then skipped
    else if c == b'-'
    then strtol_digits true (used + 1) s
    else if c == b'+'
    then strtol_digits false (used + 1) s
    else strtol_digits false used (c ∷ s)

unfoldable pub strtol : Bytes → Strtol
unfolding strtol_from
strtol s = strtol_from 0 s

-- the conversion of a `long` to an unsigned type of `w` values
abbrev pub to_word : ℕ → Strtol → ℕ
to_word w r = if r.negative then (w - r.magnitude % w) % w else r.magnitude % w

-- `%d` of snprintf at a number that is not negative: `fuel` digits at most
unfoldable pub decimal_from : ℕ → ℕ → Bytes → Bytes
decimal_from zero n out = out
decimal_from (suc fuel) n out =
    let rest = decimal_from fuel (n / 10) ((b'0' + n % 10) ∷ out) in
    if ltb n 10 then (b'0' + n) ∷ out else rest

-- An `int` has ten digits at most.
unfoldable pub decimal : ℕ → Bytes
unfolding decimal_from
decimal n = decimal_from 10 n []

-- what snprintf leaves in a buffer of `size` bytes, as a string
abbrev pub snprintf : ℕ → Bytes → Bytes
snprintf size text = take (size - 1) text
