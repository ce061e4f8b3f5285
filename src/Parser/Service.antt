-- ===== src/Parser/Service.antt =====
-- `atcmd_serviceResponseParser` on a response with fields.
use cr_lte_modem.Base.{
  ℕ, ◌+◌, ◌%◌, ◌^◌, ◌<◌, ◌≡◌, ◌||◌, ltb, leb, if◌then◌else◌, refl, ap, ◌∙◌, false, none, some, List,
  [], ◌∷◌, ◌++◌, append_assoc, arith, length, drop, length-append, drop-append, drop-add,
  drop-append_add,
}
use cr_lte_modem.CString.{Bytes, strstr, strchr, strtol, decimal}
use cr_lte_modem.CString.Number.{digit_next, strtol-decimal}
use cr_lte_modem.Parser.{
  Ptr, at, advance, found, skip_commas, service_code, service_response_parser,
}

-- the fields before the one that is wanted, each with its comma
abbrev pub join : List Bytes → Bytes
join [] = []
join (f ∷ fs) = f ++ b',' ∷ join fs

abbrev pub NoComma : Bytes → Type 0
NoComma f = strchr f b',' ≡ none

abbrev pub AllNoComma : List Bytes → Type 0
AllNoComma [] = Unit
AllNoComma (f ∷ fs) = NoComma f × AllNoComma fs

strchr-append : (f rest : Bytes) → NoComma f → strchr (f ++ b',' ∷ rest) b',' ≡ some (length f)
unfolding strchr
strchr-append [] rest h = refl
strchr-append (c ∷ f) rest h = ground (arith, strchr-append f rest)

skip_commas-join :
    (low_mem response : Bytes) (fields : List Bytes) (k : ℕ) (rest : Bytes)
    → AllNoComma fields
    → drop k response ≡ join fields ++ rest
    → skip_commas low_mem response (length fields) (at k) ≡ at (k + length (join fields))
unfolding skip_commas
skip_commas-join low_mem response [] k rest h e = ap at (omega arith)
skip_commas-join low_mem response (f ∷ fs) k rest h e =
    ap (λ next. skip_commas low_mem response (length fs) next) step
    ∙ skip_commas-join low_mem response fs (k + length f + 1) rest h.1 there
    ∙ ap at (omega (arith, length-append f (b',' ∷ join fs)))
  where
    comma : drop k response ≡ f ++ b',' ∷ (join fs ++ rest)
    comma = e ∙ append_assoc f (b',' ∷ join fs) rest

    there : drop (k + length f + 1) response ≡ join fs ++ rest
    there = drop-add k (length f + 1) _ response (omega arith) ∙ rw comma (drop-append_add 1 f _)

    step : advance (found (at k) (strchr (drop k response) b',')) 1 ≡ at (k + length f + 1)
    step = rw (comma, strchr-append f (join fs ++ rest) h.0)

-- In a response that holds, behind the first occurrence of the preamble, some fields that end in
-- commas and then a number, the parser that skips as many fields stops behind the last digit of the
-- number, and its code is 200 more than the low 16 bits of the number, as a `uint16_t`, where they are below
-- 99 or (read as negative) from 2 ^ 15 on, and these 16 bits themselves elsewhere. (The fields hold no comma,
-- an `int` holds the number, and no digit follows it.)
pub service_response_parser_lem :
    (low_mem preamble response : Bytes) (p : ℕ) (fields : List Bytes) (v : ℕ) (rest : Bytes)
    (endptr : Ptr)
    → strstr response preamble ≡ some p
    → drop (p + length preamble) response ≡ join fields ++ (decimal v ++ rest)
    → AllNoComma fields
    → v < 2 ^ 31
    → digit_next rest ≡ false
    → service_response_parser low_mem preamble (length fields) response endptr ≡ (
      if ltb (v % 65536) 99 || leb 32768 (v % 65536) then (200 + v % 65536) % 65536 else v % 65536,
      at (p + length preamble + length (join fields) + length (decimal v)),
    )
unfolding service_response_parser service_code
service_response_parser_lem low_mem preamble response p fields v rest endptr e t h small d =
    rw
      (
        e,
        service_response_parser,
        skip_commas-join low_mem response fields (p + length preamble) _ h t,
        number,
      )
      refl
  where
    number :
        strtol (drop (p + length preamble + length (join fields)) response)
        ≡ record { negative = false; magnitude = v; stop = length (decimal v) }
    number =
        ap strtol (
          drop-add (p + length preamble) (length (join fields)) _ response (omega arith)
          ∙ ap (drop (length (join fields))) t
          ∙ drop-append (join fields) (decimal v ++ rest))
        ∙ strtol-decimal v rest small d
