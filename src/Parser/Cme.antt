-- ===== src/Parser/Cme.antt =====
-- The standard parser on the answers that end a command.
use cr_lte_modem.Base.{
  ℕ, ◌+◌, ◌%◌, ◌^◌, ◌<◌, ◌≡◌, refl, ap, ◌∙◌, false, none, some, [], ◌++◌, arith, length, drop,
  drop-append_add,
}
use cr_lte_modem.CString.{
  Bytes, Strtol, to_word, codes, c_str, strtol, strstr, starts_with, decimal,
}
use cr_lte_modem.CString.Number.{digit_next, strtol-blank}
use cr_lte_modem.CString.Pieces.{
  Avoids, Avoids-append, Avoids-decimal, strstr-Avoids, strstr-Avoids_second,
}
use cr_lte_modem.Parser.{
  Ptr, at, ok_result_parser, default_result_parser, search_result, standard_result, cme_result,
  ok_completed, cme_preable,
}

-- the search for `OK` fails, and that for the CME error finds it
cme_at :
    (low_mem response : Bytes) (endptr : Ptr) (i : ℕ)
    → c_str low_mem ≡ []
    → strstr response ok_completed ≡ none
    → strstr response cme_preable ≡ some i
    → ok_result_parser low_mem response endptr ≡ cme_result response i
unfolding ok_result_parser default_result_parser search_result standard_result
cme_at low_mem response endptr i h ok cme = rw h (ground (arith, ok, cme))

-- Where the modem answers with a CME error and its number, the standard parser (where the string at address
-- 0 is empty) returns the number as a `uint16_t` and stops behind its last digit, whatever text is in
-- front of the error and behind it: the text in front has no plus, neither has a K, the number is one
-- that an `int` holds, and no digit follows it.
pub ok_result_parser-cme :
    (low_mem lead rest : Bytes) (n : ℕ) (endptr : Ptr)
    → c_str low_mem ≡ []
    → Avoids b'+' lead
    → Avoids b'K' lead
    → Avoids b'K' rest
    → n < 2 ^ 31
    → digit_next rest ≡ false
    → ok_result_parser low_mem (lead ++ (codes "+CME ERROR: " ++ (decimal n ++ rest))) endptr
      ≡ (n % 65536, at (length lead + 12 + length (decimal n)))
unfolding cme_result
ok_result_parser-cme low_mem lead rest n endptr h p k k' small d =
    cme_at low_mem (lead ++ text) endptr (length lead + 0) h
      (strstr-Avoids_second b'O' b'K' (codes "\r\n") (lead ++ text) (
        Avoids-append b'K' lead text k (
          Avoids-append b'K' (codes "+CME ERROR: ") (decimal n ++ rest) (omega arith)
            (Avoids-append b'K' (decimal n) rest (Avoids-decimal b'K' n refl) k'))))
      (strstr-Avoids b'+' (codes "CME ERROR:") lead text 0 p found)
    ∙ ap (λ (r : Strtol). (to_word 65536 r, at (length lead + 0 + 11 + r.stop))) number
    ∙ ap (λ m. (n % 65536, at m)) (omega arith)
  where
    text : Bytes
    text = codes "+CME ERROR: " ++ (decimal n ++ rest)

    found : strstr text cme_preable ≡ some 0
    found = unfold strstr starts_with in refl

    number :
        strtol (drop (length lead + 0 + 11) (lead ++ text))
        ≡ record { negative = false; magnitude = n; stop = 1 + length (decimal n) }
    number =
        ap (λ m. strtol (drop m (lead ++ text))) (omega arith)
        ∙ ap strtol (drop-append_add 11 lead text)
        ∙ strtol-blank n rest small d
