-- ===== src/Parser/Tests.antt =====
-- Runs of the completion parsers, and their properties at concrete responses.
use cr_lte_modem.Base.{
  ℕ, ◌+◌, ◌%◌, ◌≡◌, refl, ◌≢◌, ◌||◌, ltb, leb, if◌then◌else◌, true, none, some, [], ◌∷◌, ◌++◌,
  arith, length, drop,
}
use cr_lte_modem.CString.{
  codes, c_str, starts_with, strstr, strchr, strtol, strtol_from, strtol_digits, scan_digits,
  decimal, decimal_from,
}
use cr_lte_modem.Parser.{
  at, null, result_pending, default_result_parser, ok_result_parser, token_result_parser,
  service_response_parser, service_code, tx_data_prompt_parser, count_delims, skip_commas,
  token_result, cme_result, gap_result, standard_result, terminated_result, search_result,
}
use cr_lte_modem.Parser.Default.{
  StopsIn, default_result_parser-StopsIn, default_result_parser_stable, ok_result_parser-failed,
}
use cr_lte_modem.Parser.Cme.{ok_result_parser-cme}
use cr_lte_modem.Parser.Service.{join, service_response_parser_lem}

ok_found : ok_result_parser [] (codes "\r\nOK\r\n") null ≡ (200, at 6)
unfolding ok_result_parser default_result_parser search_result standard_result gap_result strstr
    starts_with c_str
ok_found = refl

cme_found : ok_result_parser [] (codes "+CME ERROR: 563\r\n") null ≡ (563, at 15)
unfolding ok_result_parser default_result_parser search_result standard_result gap_result cme_result
    strstr starts_with c_str strtol strtol_from strtol_digits scan_digits
cme_found = refl

service_found :
    service_response_parser [] (codes "+QIOPEN: ") 1 (codes "+QIOPEN: 3,0\r\n") null ≡ (200, at 12)
unfolding service_response_parser service_code skip_commas strstr starts_with strchr strtol
    strtol_from strtol_digits scan_digits
service_found = refl

tokens_found :
    token_result_parser (codes "+QIRD: ") b',' 3 (codes "\r\n") (codes "+QIRD: 19,8,7\r\n") null
    ≡ (200, at 16)
unfolding token_result_parser token_result count_delims strstr starts_with strchr
tokens_found = refl

-- The search for delimiters starts two bytes behind the preamble: a first token of one byte is missed.
short_token_missed :
    token_result_parser (codes "+QIRD: ") b',' 3 (codes "\r\n") (codes "+QIRD: 9,8,7\r\n") null
    ≡ (404, at 15)
unfolding token_result_parser token_result count_delims strstr starts_with strchr
short_token_missed = refl

prompt_found : tx_data_prompt_parser (codes "\r\n> ") null ≡ (200, at 4)
unfolding tx_data_prompt_parser strstr starts_with
prompt_found = refl

not_pending : {n : ℕ} → n ≡ 200 → n ≢ result_pending
not_pending e = λ p. omega (arith, e, p)

opened :
    (default_result_parser (codes "+X:") true 0 (some (codes ";")) (codes "+X: 4;") null).0 ≡ 200
unfolding default_result_parser search_result terminated_result gap_result strstr starts_with
opened = refl

default_result_parser-StopsIn_example :
    StopsIn
      (codes "+X: 4;")
      (default_result_parser (codes "+X:") true 0 (some (codes ";")) (codes "+X: 4;") null).1
default_result_parser-StopsIn_example =
    default_result_parser-StopsIn (codes "+X:") true 0 (some (codes ";")) (codes "+X: 4;") null
      (not_pending opened)

default_result_parser_stable_example :
    default_result_parser
      (codes "+X:")
      true
      0
      (some (codes ";"))
      (codes "+X: 4;" ++ codes "+X: 5;")
      null
    ≡ default_result_parser (codes "+X:") true 0 (some (codes ";")) (codes "+X: 4;") null
default_result_parser_stable_example =
    default_result_parser_stable (codes "+X:") (codes ";") (codes "+X: 4;") (codes "+X: 5;") 0 null
      (not_pending opened)

empty_low : c_str [] ≡ []
unfolding c_str
empty_low = refl

ok_result_parser-failed_example :
    (ok_result_parser [] (codes "\r\n" ++ (codes "ERROR\r\n" ++ [])) null ≡ (result_pending, null))
    × (ok_result_parser [] (codes "\r\n" ++ (codes "FAIL\r\n" ++ [])) null ≡ (result_pending, null))
ok_result_parser-failed_example =
    ok_result_parser-failed [] (codes "\r\n") [] null empty_low (omega arith) (omega arith) tt tt

ok_result_parser-cme_example :
    ok_result_parser []
      (codes "\r\n" ++ (codes "+CME ERROR: " ++ (decimal 563 ++ codes "\r\n")))
      null
    ≡ (563 % 65536, at (length (codes "\r\n") + 12 + length (decimal 563)))
ok_result_parser-cme_example =
    ok_result_parser-cme [] (codes "\r\n") (codes "\r\n") 563 null empty_low (omega arith)
      (omega arith) (omega arith) (omega arith) refl

preamble_found : strstr (codes "+QIOPEN: 3,563\r\n") (codes "+QIOPEN: ") ≡ some 0
unfolding strstr starts_with
preamble_found = refl

fields_split :
    drop (0 + length (codes "+QIOPEN: ")) (codes "+QIOPEN: 3,563\r\n")
    ≡ join (codes "3" ∷ []) ++ (decimal 563 ++ codes "\r\n")
unfolding decimal decimal_from
fields_split = refl

no_comma : strchr (codes "3") b',' ≡ none
unfolding strchr
no_comma = refl

service_response_parser_lem_example :
    service_response_parser []
      (codes "+QIOPEN: ")
      (length (codes "3" ∷ []))
      (codes "+QIOPEN: 3,563\r\n")
      null
    ≡ (
      if ltb (563 % 65536) 99 || leb 32768 (563 % 65536)
          then (200 + 563 % 65536) % 65536
          else 563 % 65536,
      at (0 + length (codes "+QIOPEN: ") + length (join (codes "3" ∷ [])) + length (decimal 563)),
    )
service_response_parser_lem_example =
    service_response_parser_lem [] (codes "+QIOPEN: ") (codes "+QIOPEN: 3,563\r\n") 0
      (codes "3" ∷ []) 563 (codes "\r\n") null preamble_found fields_split (no_comma, tt)
      (omega arith) refl
