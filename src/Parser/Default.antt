-- ===== src/Parser/Default.antt =====
-- `atcmd_defaultResultParser` and `atcmd_okResultParser`: where they stop, and what more text changes.
use cr_lte_modem.Base.{
  ℕ, ◌+◌, ◌≤◌, ◌≡◌, ◌≢◌, refl, Bool, true, [], ◌++◌, Option, none, some, length, drop, arith,
  Option-cases, Bool-cases, inl, inr, length-drop, drop-append_le, ◌==◌, u8,
}
use cr_lte_modem.CString.{Bytes, codes, c_str, strstr}
use cr_lte_modem.CString.Pieces.{Avoids, Avoids-append, strstr-Avoids-none, strstr-Avoids_second}
use cr_lte_modem.CString.Number.{strtol-le}
use cr_lte_modem.CString.Search.{strstr_sound, strstr-append}
use cr_lte_modem.Parser.{
  result_success, Ptr, at, low, result_pending, cme_preable, ok_completed, gap_result,
  terminated_result, standard_result, search_result, cme_result, default_result_parser,
  ok_result_parser,
}

-- whether parsing stopped inside the text
abbrev pub StopsIn : Bytes → Ptr → Type 0
StopsIn s (at k) = k ≤ length s
StopsIn s (low k) = ⊥

-- what a terminator that was found gives is not changed by text that arrives later
terminated-append :
    (s t term : Bytes) (k gap : ℕ)
    → k ≤ length s
    → (terminated_result s k gap term).0 ≢ result_pending
    → terminated_result (s ++ t) k gap term ≡ terminated_result s k gap term
unfolding terminated_result gap_result
terminated-append s t term k gap h ne = elim (Option-cases (strstr (drop k s) term)) [
  | inl e ↦ absurd (ne (rw (e, terminated_result)))
  | inr (i, e) ↦ ground (arith, e, drop-append_le k s t h, strstr-append (drop k s) t term i e)
]

terminated-StopsIn :
    (s term : Bytes) (k gap : ℕ)
    → k ≤ length s
    → (terminated_result s k gap term).0 ≢ result_pending
    → StopsIn s (terminated_result s k gap term).1
unfolding terminated_result
terminated-StopsIn s term k gap h ne = elim (Option-cases (strstr (drop k s) term)) [
  | inl e ↦ absurd (ne (rw (e, terminated_result)))
  | inr (i, e) ↦
      rw (e, terminated_result) (omega (arith, strstr_sound (drop k s) term i e, length-drop k s))
]

cme-StopsIn : (s : Bytes) (j : ℕ) → j + 11 ≤ length s → StopsIn s (cme_result s j).1
unfolding cme_result
cme-StopsIn s j h = omega (arith, strtol-le (drop (j + 11) s), length-drop (j + 11) s)

standard-StopsIn :
    (s : Bytes) (k gap : ℕ) (endptr : Ptr)
    → k ≤ length s
    → (standard_result s k gap endptr).0 ≢ result_pending
    → StopsIn s (standard_result s k gap endptr).1
unfolding standard_result
standard-StopsIn s k gap endptr h ne = elim (Option-cases (strstr (drop k s) ok_completed)) [
  | inr (i, e) ↦
      rw (e, standard_result)
        (omega (arith, strstr_sound (drop k s) ok_completed i e, length-drop k s))
  | inl e ↦ elim (Option-cases (strstr (drop k s) cme_preable)) [
    | inl e' ↦ absurd (ne (rw (e, e', standard_result)))
    | inr (j, e') ↦
        rw (e, e', standard_result)
          (cme-StopsIn s (k + j)
            (omega (arith, strstr_sound (drop k s) cme_preable j e', length-drop k s)))
  ]
]

search-StopsIn :
    (s : Bytes) (k gap : ℕ) (term : Option Bytes) (endptr : Ptr)
    → k ≤ length s
    → (search_result s k gap term endptr).0 ≢ result_pending
    → StopsIn s (search_result s k gap term endptr).1
unfolding search_result
search-StopsIn s k gap (some t) endptr h ne = terminated-StopsIn s t k gap h ne
search-StopsIn s k gap none endptr h ne = standard-StopsIn s k gap endptr h ne

u8-le : (n : ℕ) → u8 n ≤ n
u8-le n = omega arith

-- Whatever is looked for, an answer other than pending comes with an end of parsing that lies in the
-- response: the caller may take it as its new tail.
pub default_result_parser-StopsIn :
    (preamble : Bytes) (reqd : Bool) (gap : ℕ) (term : Option Bytes) (response : Bytes)
    (endptr : Ptr)
    → (default_result_parser preamble reqd gap term response endptr).0 ≢ result_pending
    → StopsIn response (default_result_parser preamble reqd gap term response endptr).1
unfolding default_result_parser
default_result_parser-StopsIn preamble reqd gap term response endptr =
    elim (Bool-cases (u8 (length preamble) == 0)) [
      | inl z ↦ rw z (search-StopsIn response 0 gap term endptr (omega arith))
      | inr nz ↦ elim (Option-cases (strstr response preamble)) [
        | inr (p, e) ↦
            rw (nz, e)
              (search-StopsIn response (p + u8 (length preamble)) gap term endptr
                (omega (arith, strstr_sound response preamble p e, u8-le (length preamble))))
        | inl e ↦ elim (Bool-cases reqd) [
          | inl y ↦ rw (nz, e, y) (λ ne. absurd (ne refl))
          | inr n ↦ rw (nz, e, n) (search-StopsIn response 0 gap term endptr (omega arith))
        ]
      ]
    ]

-- With a required preamble and an explicit terminator, an answer other than pending stays the same,
-- code and end of parsing, when more text arrives behind the response.
pub default_result_parser_stable :
    (preamble term response more : Bytes) (gap : ℕ) (endptr : Ptr)
    → (default_result_parser preamble true gap (some term) response endptr).0 ≢ result_pending
    → default_result_parser preamble true gap (some term) (response ++ more) endptr
      ≡ default_result_parser preamble true gap (some term) response endptr
unfolding default_result_parser search_result
default_result_parser_stable preamble term response more gap endptr =
    elim (Bool-cases (u8 (length preamble) == 0)) [
      | inl z ↦ rw z (terminated-append response more term 0 gap (omega arith))
      | inr nz ↦ elim (Option-cases (strstr response preamble)) [
        | inr (p, e) ↦
            rw (nz, e, strstr-append response more preamble p e)
              (terminated-append response more term (p + u8 (length preamble)) gap
                (omega (arith, strstr_sound response preamble p e, u8-le (length preamble))))
        | inl e ↦ rw (nz, e) (λ ne. absurd (ne refl))
      ]
    ]

ok_result_parser_pending :
    (low_mem response : Bytes) (endptr : Ptr)
    → c_str low_mem ≡ []
    → strstr response ok_completed ≡ none
    → strstr response cme_preable ≡ none
    → ok_result_parser low_mem response endptr ≡ (result_pending, endptr)
unfolding ok_result_parser default_result_parser search_result standard_result
ok_result_parser_pending low_mem response endptr h ok cme = rw h (ground arith)

-- The standard parser (where the string at address 0 is empty) leaves a command that the modem has answered
-- with ERROR or FAIL and a line end pending, and the end of parsing alone, whatever text is in front of
-- that or behind it, as long as it has no K and no plus in it.
pub ok_result_parser-failed :
    (low_mem lead rest : Bytes) (endptr : Ptr)
    → c_str low_mem ≡ []
    → Avoids b'K' lead
    → Avoids b'+' lead
    → Avoids b'K' rest
    → Avoids b'+' rest
    → (ok_result_parser low_mem (lead ++ (codes "ERROR\r\n" ++ rest)) endptr
        ≡ (result_pending, endptr))
      × (ok_result_parser low_mem (lead ++ (codes "FAIL\r\n" ++ rest)) endptr
          ≡ (result_pending, endptr))
ok_result_parser-failed low_mem lead rest endptr h k p k' p' = (
  answered (codes "ERROR\r\n") (omega arith) (omega arith),
  answered (codes "FAIL\r\n") (omega arith) (omega arith),
)
  where
    answered :
        (word : Bytes)
        → Avoids b'K' word
        → Avoids b'+' word
        → ok_result_parser low_mem (lead ++ (word ++ rest)) endptr ≡ (result_pending, endptr)
    answered word kw pw =
        ok_result_parser_pending low_mem (lead ++ (word ++ rest)) endptr h
          (strstr-Avoids_second b'O' b'K' (codes "\r\n") _
            (Avoids-append b'K' lead _ k (Avoids-append b'K' word rest kw k')))
          (strstr-Avoids-none b'+' (codes "CME ERROR:") _
            (Avoids-append b'+' lead _ p (Avoids-append b'+' word rest pw p')))

-- Once `OK` and the line end behind it have come, the standard parser (where the string at address 0
-- is empty) answers with success and stops behind their first occurrence, whatever else is there.
pub ok_result_parser_done :
    (low_mem response : Bytes) (endptr : Ptr) (i : ℕ)
    → c_str low_mem ≡ []
    → strstr response ok_completed ≡ some i
    → ok_result_parser low_mem response endptr ≡ (result_success, at (i + 4))
unfolding ok_result_parser default_result_parser search_result standard_result gap_result
ok_result_parser_done low_mem response endptr i h ok = rw h (ground arith)
