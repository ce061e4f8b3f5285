-- ===== src/Network/Operator.antt =====
-- The network operator of src/ltemc-network.c: `s_getNetworkOperator` and `ntwk_awaitOperator`.
use cr_lte_modem.Base.{
  ℕ, zero, suc, ◌+◌, ◌*◌, ◌<◌, ◌≡◌, refl, ap, ◌∙◌, Bool, true, false, ◌||◌, Option, none, some, [],
  ◌∷◌, ◌++◌, arith, ltb, ◌==◌, if◌then◌else◌, length, set, drop, drop-append_add, u16, sub32,
}
use cr_lte_modem.CString.{Bytes, codes, c_str, strchr, strtol, to_word, decimal}
use cr_lte_modem.CString.Number.{strtol-decimal, digit_next}
use cr_lte_modem.CString.Pieces.{Avoids, strchr-Avoids}
use cr_lte_modem.Token.Fits.{grab_token_fits}
use cr_lte_modem.Parser.{result_success}
use cr_lte_modem.Token.{Token, grab_token}
use cr_lte_modem.Device.{
  NetworkOperator, Outcome, Ltem, M, ret, stop, undefined, out_of_fuel, ◌>>=◌, ◌>>◌,
}
use cr_lte_modem.Host.{millis, delay}
use cr_lte_modem.Command
use cr_lte_modem.Command.{try_invoke}
use cr_lte_modem.Command.Poll.{AtcmdResult, response_text, await_result}
use cr_lte_modem.Network.{opername_sz}

-- the mode's name for its number
unfoldable pub mode_name : ℕ → Bytes
mode_name mode = if mode == 8 then codes "CAT-M1" else codes "CAT-NB1"

-- the text behind what the tokenizer returned, plus one; a NULL is not looked at
unfoldable pub mode_text : Bytes → Bytes → Option ℕ → Bytes
mode_text low_mem source none = c_str (drop 1 low_mem)
mode_text low_mem source (some k) = drop (k + 1) source

-- The name in the first quotes of the response, and the mode behind it.
unfoldable pub read_operator : Bytes → Bytes → NetworkOperator → Option NetworkOperator
unfolding mode_name mode_text
read_operator low_mem response op = elim (strchr response b'"') [
  | none ↦ some op
  | some q ↦ elim (grab_token (drop (q + 1) response) b'"' op.oper_name opername_sz) [
    | none ↦ none
    | some t ↦ some (record {
      oper_name = t.buf;
      ntwk_mode =
          mode_name (to_word 256 (strtol (mode_text low_mem (drop (q + 1) response) t.rest)));
    })
  ]
]

abbrev pub with_operator : (NetworkOperator → NetworkOperator) → Ltem → Ltem
with_operator f s = record s { network_operator = f s.network_operator }

-- what the result of `AT+COPS?` makes of the operator
unfoldable pub take_operator : AtcmdResult → M (Unit {0})
unfolding read_operator
take_operator r s =
    if r.status_code == result_success
    then elim (read_operator s.low_mem (response_text r.response s) s.network_operator) [
      | none ↦ stop undefined
      | some op ↦ ret tt (with_operator (λ _. op) s)
    ]
    else ret tt
        (with_operator (λ op. record { oper_name = set op.oper_name 0 0; ntwk_mode = [] }) s)

unfoldable pub query_operator : ℕ → M (Unit {0})
query_operator fuel s = elim (try_invoke (codes "AT+COPS?") s) [
  | stop w ↦ stop w
  | ret false t ↦ ret tt t
  | ret true t ↦ (await_result fuel false >>= take_operator) t
]

-- `s_getNetworkOperator`: a name that is known is not asked for again. The command is closed whether or
-- not it was this function that opened it.
unfoldable pub get_network_operator : ℕ → M NetworkOperator
get_network_operator fuel s = elim (c_str s.network_operator.oper_name) [
  | x ∷ xs ↦ ret s.network_operator s
  | [] ↦ (do query_operator fuel; Command.close; (λ t. ret t.network_operator t)) s
]

-- `ntwk.operName != 0`: the address of an array, which is never NULL, whatever the name.
abbrev pub name_set : NetworkOperator → Bool
name_set op = true

-- The loop of `ntwk_awaitOperator`, from `start` on, with fuel for its rounds.
unfoldable pub await_rounds : ℕ → ℕ → ℕ → ℕ → M NetworkOperator
await_rounds fuel zero wait start s = stop out_of_fuel
await_rounds fuel (suc rounds) wait start s = elim (get_network_operator fuel s) [
  | stop w ↦ stop w
  | ret op t ↦ elim (name_set op) [
    | true ↦ ret op t
    | false ↦ elim (delay 1000 t) [
      | stop w ↦ stop w
      | ret _ u ↦ elim (ltb (sub32 (millis u) start) wait || u.cancellation_request) [
        | true ↦ await_rounds fuel rounds wait start u
        | false ↦ ret op u
      ]
    ]
  ]
]

-- `ntwk_awaitOperator`: the seconds to wait as milliseconds, in a `uint16_t`
unfoldable pub await_operator : ℕ → ℕ → ℕ → M NetworkOperator
unfolding await_rounds
await_operator fuel rounds wait_duration s =
    await_rounds fuel rounds (u16 (wait_duration * 1000)) (millis s) s

-- What a query of the operator leaves: the operator of the state, and no command open.
abbrev pub Closes : Outcome NetworkOperator → Type 0
Closes (ret op t) = (op ≡ t.network_operator) × (t.atcmd.is_open ≡ false)
Closes (stop w) = Unit {0}

closing :
    (o : Outcome (Unit {0}))
    → Closes (elim o [
      | ret _ t ↦ (Command.close >>= λ _ t. ret t.network_operator t) t
      | stop w ↦ stop w
    ])
unfolding Command.close
closing (ret _ t) = (refl, refl)
closing (stop w) = tt

-- Where no name is known s_getNetworkOperator ends with the command closed, whoever had opened it: also
-- where its own was refused because another was open.
pub get_network_operator-Closes :
    (fuel : ℕ) (s : Ltem)
    → c_str s.network_operator.oper_name ≡ []
    → Closes (get_network_operator fuel s)
unfolding get_network_operator Command.close
get_network_operator-Closes fuel s e =
    rw (e, get_network_operator) (closing (query_operator fuel s))

read_operator_lem :
    (low_mem response : Bytes) (q : ℕ) (op : NetworkOperator) (t : Token)
    → strchr response b'"' ≡ some q
    → grab_token (drop (q + 1) response) b'"' op.oper_name opername_sz ≡ some t
    → read_operator low_mem response op
      ≡ some (record {
        oper_name = t.buf;
        ntwk_mode =
            mode_name (to_word 256 (strtol (mode_text low_mem (drop (q + 1) response) t.rest)));
      })
unfolding read_operator
read_operator_lem low_mem response q op t e f = rw (e, read_operator) (rw (f, read_operator) refl)

-- The name and the mode of an answer to `AT+COPS?` are read as the modem sends them: some text with no
-- quote, a quoted name of 1 to 28 bytes with no quote in it, a comma, and a mode below 256 that no digit
-- follows, which is kept as CAT-M1 for 8 and CAT-NB1 for every other. The name field has its 29 bytes, and
-- those behind the new name stay.
pub read_operator-answer :
    (low_mem lead name rest : Bytes) (mode : ℕ) (op : NetworkOperator)
    → length op.oper_name ≡ opername_sz
    → Avoids b'"' lead
    → Avoids b'"' name
    → 0 < length name
    → length name < opername_sz
    → mode < 256
    → digit_next rest ≡ false
    → read_operator low_mem (lead ++ b'"' ∷ (name ++ b'"' ∷ b',' ∷ (decimal mode ++ rest))) op
      ≡ some (record {
        oper_name = name ++ drop (length name) op.oper_name;
        ntwk_mode = if mode == 8 then codes "CAT-M1" else codes "CAT-NB1";
      })
unfolding mode_text mode_name
read_operator-answer low_mem lead name rest mode op l ql qn pos short small d =
    read_operator_lem low_mem _ (length lead) op found (strchr-Avoids b'"' lead text ql) (
      ap (λ t. grab_token t b'"' op.oper_name opername_sz) behind
      ∙ grab_token_fits b'"' opername_sz name op.oper_name (b',' ∷ (decimal mode ++ rest)) l pos
          short (omega arith) qn)
    ∙ ap (λ m. some (record { oper_name = found.buf; ntwk_mode = mode_name m })) number
  where
    text : Bytes
    text = name ++ b'"' ∷ b',' ∷ (decimal mode ++ rest)

    found : Token
    found = record { rest = some (length name + 1); buf = name ++ drop (length name) op.oper_name }

    behind : drop (length lead + 1) (lead ++ b'"' ∷ text) ≡ text
    behind = drop-append_add 1 lead (b'"' ∷ text)

    two : length name + 1 + 1 ≡ length name + 2
    two = omega arith

    number :
        to_word 256
          (strtol (drop (length name + 1 + 1) (drop (length lead + 1) (lead ++ b'"' ∷ text))))
        ≡ mode
    number =
        ap (λ t. to_word 256 (strtol t))
          ((λ i. drop (two i) (behind i))
            ∙ drop-append_add 2 name (b'"' ∷ b',' ∷ (decimal mode ++ rest)))
        ∙ ap (to_word 256) (strtol-decimal mode rest (omega (arith, small)) d)
        ∙ omega (arith, small)
