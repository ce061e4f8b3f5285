-- ===== src/Parser/Fuel.antt =====
-- The fuel of the loop of `atcmd_tokenResultParser`.
use cr_lte_modem.Base.{
  ℕ, zero, suc, ◌+◌, ◌≤◌, ◌≡◌, refl, sym, ap, Bool, true, false, Option, none, some, arith, ltb,
  drop, u8,
}
use cr_lte_modem.CString.{Bytes, strchr}
use cr_lte_modem.Parser.{count_delims}

-- one round, for what the rest of the loop gives
abbrev round : Bytes → ℕ → ℕ → ℕ → ℕ → (ℕ → ℕ → ℕ) → ℕ
round response delim term_at next cnt loop = elim (ltb next term_at) [
  | false ↦ cnt
  | true ↦ elim (strchr (drop (next + 1) response) delim) [
    | none ↦ cnt
    | some i ↦ loop (next + 1 + i) (u8 (cnt + 1))
  ]
]

ended :
    (response : Bytes) (delim t next cnt : ℕ) (loop : ℕ → ℕ → ℕ)
    → t ≤ next
    → round response delim t next cnt loop ≡ cnt
ended response delim t next cnt loop h =
    ap
      (λ (y : Bool). elim y [
        | false ↦ cnt
        | true ↦ elim (strchr (drop (next + 1) response) delim) [
          | none ↦ cnt
          | some i ↦ loop (next + 1 + i) (u8 (cnt + 1))
        ]
      ])
      past
  where
    past : ltb next t ≡ false
    past = ground (arith, h)

-- Once the fuel covers the bytes up to the terminator, more of it does not change the count.
pub count_delims_fuel :
    (n m : ℕ) (response : Bytes) (delim t next cnt : ℕ)
    → t ≤ next + n
    → t ≤ next + m
    → count_delims n response delim t next cnt ≡ count_delims m response delim t next cnt
unfolding count_delims
count_delims_fuel zero zero response delim t next cnt hn hm = refl
count_delims_fuel zero (suc m) response delim t next cnt hn hm =
    sym (ended response delim t next cnt (count_delims m response delim t) (omega (arith, hn)))
count_delims_fuel (suc n) zero response delim t next cnt hn hm =
    ended response delim t next cnt (count_delims n response delim t) (omega (arith, hm))
count_delims_fuel (suc n) (suc m) response delim t next cnt hn hm =
    same (strchr (drop (next + 1) response) delim)
      (λ i.
        count_delims_fuel n m response delim t (next + 1 + i) (u8 (cnt + 1)) (omega (arith, hn))
          (omega (arith, hm)))
      (ltb next t)
  where
    same :
        (o : Option ℕ)
        → ((i : ℕ)
            → count_delims n response delim t (next + 1 + i) (u8 (cnt + 1))
              ≡ count_delims m response delim t (next + 1 + i) (u8 (cnt + 1)))
        → (y : Bool)
        → elim y as (λ _. ℕ) [
          | false ↦ cnt
          | true ↦ elim o [
            | none ↦ cnt
            | some i ↦ count_delims n response delim t (next + 1 + i) (u8 (cnt + 1))
          ]
        ]
          ≡ elim y as (λ _. ℕ) [
            | false ↦ cnt
            | true ↦ elim o [
              | none ↦ cnt
              | some i ↦ count_delims m response delim t (next + 1 + i) (u8 (cnt + 1))
            ]
          ]
    same o k false = refl
    same none k true = refl
    same (some i) k true = k i
