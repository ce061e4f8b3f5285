-- ===== src/Parser.antt =====
-- The completion parsers of src/ltemc-atcmd.c and those that its clients wrap: each reads the text
-- received so far and answers with a result code and the place where parsing stopped.
pub mod Default
pub mod Service
pub mod Cme
pub mod Fuel
mod Tests
use cr_lte_modem.Base.{
  ℕ, zero, suc, ◌+◌, Bool, not, true, false, ◌||◌, Option, none, some, length, drop, ltb, leb, ◌==◌,
  if◌then◌else◌, u8, u16,
}
use cr_lte_modem.CString.{Bytes, codes, c_str, strstr, strchr, strtol, to_word}

-- A `char *`: a place in the text at hand, or an address counted from 0, as `NULL` and what pointer
-- arithmetic makes of it. `low` is the memory at address 0, which a read through such a pointer
-- yields (the C standard leaves it undefined; the target boards have it mapped).
pub data Ptr : Type 0 where
  at : ℕ → Ptr
  low : ℕ → Ptr

abbrev pub null : Ptr
null = low 0

abbrev pub is_null : Ptr → Bool
is_null (at k) = false
is_null (low k) = k == 0

abbrev pub advance : Ptr → ℕ → Ptr
advance (at k) n = at (k + n)
advance (low k) n = low (k + n)

-- the string that a pointer reads
abbrev pub deref : Bytes → Bytes → Ptr → Bytes
deref low_mem text (at k) = drop k text
deref low_mem text (low k) = c_str (drop k low_mem)

-- `strstr` and `strchr` at a pointer
abbrev pub found : Ptr → Option ℕ → Ptr
found p none = null
found p (some i) = advance p i

-- result codes of src/lqTypes.h
abbrev pub result_success : ℕ
result_success = 200

abbrev pub result_badrequest : ℕ
result_badrequest = 400

abbrev pub result_notfound : ℕ
result_notfound = 404

abbrev pub result_timeout : ℕ
result_timeout = 408

abbrev pub result_conflict : ℕ
result_conflict = 409

abbrev pub result_cancelled : ℕ
result_cancelled = 499

abbrev pub result_error : ℕ
result_error = 500

abbrev pub result_unavailable : ℕ
result_unavailable = 503

abbrev pub result_pending : ℕ
result_pending = 0xFFFF

-- A parser takes the text received and the current value of `*endptr`; it returns the result code
-- and the value that it leaves there.
abbrev pub Parser : Type 0
Parser = Bytes → Ptr → ℕ × Ptr

-- `+CME ERROR: <code>`
abbrev pub cme_preable : Bytes
cme_preable = codes "+CME ERROR:"

abbrev pub ok_completed : Bytes
ok_completed = codes "OK\r\n"

-- The code behind a CME preamble at `p`, converted to `uint16_t`.
pub cme_result : Bytes → ℕ → ℕ × Ptr
cme_result response p =
    let r = strtol (drop (p + 11) response) in (to_word 65536 r, at (p + 11 + r.stop))

-- the last tests of `atcmd_defaultResultParser`
pub gap_result : ℕ → ℕ → ℕ → ℕ
gap_result search_at gap term_at =
    if leb (search_at + gap) term_at then result_success else result_error

-- `ERROR_COMPLETED_STRING`, `FAIL_COMPLETED_STRING`
abbrev pub error_completed : Bytes
error_completed = codes "ERROR\r\n"

abbrev pub fail_completed : Bytes
fail_completed = codes "FAIL\r\n"

-- what is found behind an occurrence that ends in so many bytes
abbrev pub failed_at : ℕ → ℕ → Ptr → Option ℕ → ℕ × Ptr
failed_at search_at size endptr none = (result_pending, endptr)
failed_at search_at size endptr (some e) = (result_error, at (search_at + e + size))

-- The chain of `else if (!terminatorAt)` behind the test for `OK`: three branches, with one condition.
abbrev pub other_results : Bool → Bytes → ℕ → Ptr → ℕ × Ptr
other_results terminator_at response search_at endptr =
    if not terminator_at
    then elim (strstr (drop search_at response) cme_preable) [
      | some j ↦ cme_result response (search_at + j)
      | none ↦ (result_pending, endptr)
    ]
    else if not terminator_at
    then failed_at search_at 7 endptr (strstr (drop search_at response) error_completed)
    else if not terminator_at
    then failed_at search_at 6 endptr (strstr (drop search_at response) fail_completed)
    else (result_pending, endptr)

-- No explicit terminator: `OK`, else the chain behind it, to which `terminatorAt` comes as NULL.
pub standard_result : Bytes → ℕ → ℕ → Ptr → ℕ × Ptr
unfolding cme_result gap_result
standard_result response search_at gap endptr =
    elim (strstr (drop search_at response) ok_completed) [
      | some i ↦ (gap_result search_at gap (search_at + i), at (search_at + i + 4))
      | none ↦ other_results false response search_at endptr
    ]

-- An explicit terminator: `*endptr` is set whether or not it is found.
pub terminated_result : Bytes → ℕ → ℕ → Bytes → ℕ × Ptr
unfolding gap_result
terminated_result response search_at gap terminator =
    elim (strstr (drop search_at response) terminator) [
      | some i ↦ (gap_result search_at gap (search_at + i), at (search_at + i + length terminator))
      | none ↦ (result_pending, low (length terminator))
    ]

pub search_result : Bytes → ℕ → ℕ → Option Bytes → Ptr → ℕ × Ptr
unfolding standard_result terminated_result
search_result response search_at gap (some t) endptr = terminated_result response search_at gap t
search_result response search_at gap none endptr = standard_result response search_at gap endptr

-- `atcmd_defaultResultParser`; `preambleSz` is a `uint8_t`.
unfoldable pub default_result_parser : Bytes → Bool → ℕ → Option Bytes → Parser
unfolding search_result
default_result_parser preamble reqd gap terminator response endptr =
    let preamble_sz = u8 (length preamble) in
    if preamble_sz == 0
    then search_result response 0 gap terminator endptr
    else elim (strstr response preamble) [
      | some p ↦ search_result response (p + preamble_sz) gap terminator endptr
      | none ↦
          if reqd then (result_pending, endptr) else search_result response 0 gap terminator endptr
    ]

-- `atcmd_okResultParser` passes NULL as the preamble, of which `strlen` and `strstr` read the string
-- at address 0.
unfoldable pub ok_result_parser : Bytes → Parser
unfolding default_result_parser
ok_result_parser low_mem = default_result_parser (c_str low_mem) false 0 none

-- The loop of `atcmd_tokenResultParser` that counts delimiters: `next` walks up to `term_at`; the
-- count is a `uint8_t`.
unfoldable pub count_delims : ℕ → Bytes → ℕ → ℕ → ℕ → ℕ → ℕ
count_delims zero response delim term_at next found_cnt = found_cnt
count_delims (suc fuel) response delim term_at next found_cnt = elim (ltb next term_at) [
  | false ↦ found_cnt
  | true ↦ elim (strchr (drop (next + 1) response) delim) [
    | none ↦ found_cnt
    | some i ↦ count_delims fuel response delim term_at (next + 1 + i) (u8 (found_cnt + 1))
  ]
]

-- the tokens between a preamble and a terminator
pub token_result : Bytes → Bytes → ℕ → ℕ → ℕ → ℕ
token_result response preamble delim reqd term_at = elim (strstr response preamble) [
  | none ↦ result_notfound
  | some p ↦
      let next = p + length preamble + 1 in
      let cnt = count_delims (length response) response delim term_at next 0 in
      if leb reqd (u8 (cnt + 1)) then result_success else result_notfound
]

-- `atcmd_tokenResultParser`
unfoldable pub token_result_parser : Bytes → ℕ → ℕ → Bytes → Parser
unfolding token_result cme_result
token_result_parser preamble delim reqd terminator response endptr =
    elim (strstr response terminator) [
      | some t ↦ (token_result response preamble delim reqd t, at (t + length terminator + 1))
      | none ↦ elim (strstr response cme_preable) [
        | some c ↦ cme_result response c
        | none ↦ (result_pending, low (length terminator + 1))
      ]
    ]

-- The loop of `atcmd_serviceResponseParser`: past `n` commas. Past a comma that is not there `next`
-- becomes NULL + 1, which the loop's test for NULL does not stop.
unfoldable pub skip_commas : Bytes → Bytes → ℕ → Ptr → Ptr
skip_commas low_mem response zero next = next
skip_commas low_mem response (suc n) next =
    skip_commas low_mem response n
      (advance (found next (strchr (deref low_mem response next) b',')) 1)

-- `resultVal` is an `int16_t`: from 2 ^ 15 on it is negative, and below 99.
pub service_code : ℕ → ℕ
service_code v = if ltb v 99 || leb 32768 v then u16 (200 + v) else v

-- `atcmd_serviceResponseParser`
unfoldable pub service_response_parser : Bytes → Bytes → ℕ → Parser
unfolding skip_commas service_code
service_response_parser low_mem preamble result_indx response endptr =
    elim (strstr response preamble) [
      | none ↦ (result_pending, endptr)
      | some p ↦
          let next = skip_commas low_mem response result_indx (at (p + length preamble)) in
          let r = strtol (deref low_mem response next) in
          (service_code (to_word 65536 r), advance next r.stop)
    ]

-- `iop_txDataPromptParser` of src/ltemc-iop.c
unfoldable pub tx_data_prompt_parser : Parser
tx_data_prompt_parser response endptr = elim (strstr response (codes "> ")) [
  | some p ↦ (result_success, at (p + 2))
  | none ↦ elim (strstr response (codes "ERROR")) [
    | some e ↦ (result_error, at e)
    | none ↦ (result_pending, null)
  ]
]
