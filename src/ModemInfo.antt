-- ===== src/ModemInfo.antt =====
-- src/ltemc-mdminfo.c: the identity texts of the modem, and its signal strength.
pub mod Signal
pub mod Identity
mod Tests
use cr_lte_modem.Base.{
  ℕ, zero, suc, ◌+◌, ◌-◌, ◌*◌, ◌/◌, ◌%◌, ◌^◌, ◌≤◌, ◌<◌, min, ◌≡◌, refl, sym, ap, ap₂, ◌∙◌, ◌≢◌, ◌↔◌,
  ◌⊎◌, inl, inr, Bool, true, false, not, ◌&&◌, ◌||◌, Option, none, some, List, [], ◌∷◌, ◌++◌, map,
  append-nil, append_assoc, arith, ltb, leb, ◌==◌, if◌then◌else◌, ltb→lt, lt→ltb, leb→le, ==_iff,
  if-elim, Bool-cases, Option-cases, length, get_elem?, get_or, set, take, drop, replicate,
  length-append, length-set, length-take, length-drop, length-replicate, take-append-drop,
  take-append, drop-append, drop-append_le, drop-add, drop-append_add, get_elem?-eq-get_or,
  get_or-set_self, get_or-set_ne, take-nil, List-cases, bit, bit-bits_or, bit-bits_and,
  bit-bits_and_not, bit-not_zero, bit-pow, bits_or, bits_and, bits_and_not, u8, u16, u32, sub16,
  sub32,
}
use cr_lte_modem.CString.{Bytes, codes, c_str, strstr, strchr, strtol, to_word}
use cr_lte_modem.Parser.{
  Ptr, Parser, at, low, deref, advance, default_result_parser, ok_completed, result_success,
}
use cr_lte_modem.Device.{ModemInfo, Ltem, M, ret, stop, undefined, ◌>>=◌, ◌>>◌, pure, modify}
use cr_lte_modem.Command
use cr_lte_modem.Command.{action_timeout, try_invoke, try_invoke_adv}
use cr_lte_modem.Command.Poll.{AtcmdResult, response_text, await_result}

-- ASCII_szCRLF
abbrev pub crlf_sz : ℕ
crlf_sz = 2

abbrev pub imei_size : ℕ
imei_size = 15

abbrev pub iccid_offset : ℕ
iccid_offset = 10

abbrev pub iccid_size : ℕ
iccid_size = 20

-- `s_iccidCompleteParser`
unfoldable pub iccid_complete_parser : Parser
iccid_complete_parser = default_result_parser (codes "+ICCID: ") true 20 (some ok_completed)

-- `strncpy(field, source, size)` into an array of zeros with a byte more: the string that it holds
abbrev pub copied : ℕ → Bytes → Bytes
copied size source = take size source

-- `strcpy(field, source)` into an array of `size` bytes; past its end it is undefined (none)
unfoldable pub strcpy_into : ℕ → Bytes → Option Bytes
strcpy_into size source = if ltb (length source) size then some source else none

-- `*strchr(text, old) = new`; where the byte does not occur it writes at NULL (none)
unfoldable pub put_at_first : ℕ → ℕ → Bytes → Option Bytes
put_at_first old new text = elim (strchr text old) [ none ↦ none | some i ↦ some (set text i new) ]

-- a value that was computed, or an undefined step
unfoldable pub defined : {A : Type 0} → Option A → M A
defined none s = stop undefined
defined (some a) s = ret a s

-- a byte written through a pointer into the command buffer
unfoldable pub put_byte : Ptr → ℕ → M (Unit {0})
put_byte (low k) b s = stop undefined
put_byte (at k) b s = ret tt (record s {
  iop = record (s.iop) {
    rx_cmd_buf = record (s.iop.rx_cmd_buf) { mem = set s.iop.rx_cmd_buf.mem k b };
  };
})

-- The text behind the first line end of the response, cut in the buffer at the first `terminator`;
-- where there is none a zero is written at NULL, which is undefined.
unfoldable pub cut_response : Bytes → Ptr → M Bytes
unfolding put_byte
cut_response terminator p s =
    let text = response_text (advance p crlf_sz) s in
    elim (strstr text terminator) [
      | none ↦ stop undefined
      | some i ↦ (put_byte (advance p (crlf_sz + i)) 0 >>= λ _. pure (take i text)) s
    ]

-- the version: the line copied, with a blank for the first underscore
unfoldable pub fwver_text : Bytes → Option Bytes
unfolding strcpy_into put_at_first
fwver_text line = elim (strcpy_into 41 line) [ none ↦ none | some v ↦ put_at_first b'_' 32 v ]

-- the model: the two lines copied, put together with a colon and a blank
unfoldable pub mfgmodel_text : Bytes → Option Bytes
unfolding strcpy_into put_at_first
mfgmodel_text lines = elim (strcpy_into 21 lines) [
  | none ↦ none
  | some v ↦ elim (put_at_first 13 b':' v) [ none ↦ none | some w ↦ put_at_first 10 32 w ]
]

abbrev pub with_info : (ModemInfo → ModemInfo) → Ltem → Ltem
with_info f s = record s { modem_info = f s.modem_info }

-- A part of `mdminfo_ltem`: a field that is known is not asked for again; `store` puts the response of
-- a success into the field.
unfoldable pub fetch : ℕ → Bytes → M Bool → (Ptr → M (Unit {0})) → M (Unit {0})
fetch fuel [] invoke store s = elim (invoke s) [
  | stop w ↦ stop w
  | ret false t ↦ ret tt t
  | ret true t ↦ elim (await_result fuel false t) [
    | stop w ↦ stop w
    | ret r u ↦
        if r.status_code == result_success
        then (store r.response >>= λ _. Command.close) u
        else Command.close u
  ]
]
fetch fuel (x ∷ xs) invoke store s = ret tt s

unfoldable pub store_imei : Ptr → M (Unit {0})
store_imei p s =
    ret tt (
      with_info (λ i. record i { imei = copied imei_size (response_text (advance p crlf_sz) s) }) s)

unfoldable pub store_iccid : Ptr → M (Unit {0})
store_iccid p s = ret tt (
    with_info
      (λ i. record i { iccid = copied iccid_size (response_text (advance p iccid_offset) s) }) s)

unfoldable pub store_fwver : Ptr → M (Unit {0})
store_fwver p = cut_response (codes "\r\n") p >>= λ line.
    defined (fwver_text line) >>= λ v. modify (with_info (λ i. record i { fwver = v }))

unfoldable pub store_mfgmodel : Ptr → M (Unit {0})
store_mfgmodel p = cut_response (codes "\r\nRev") p >>= λ lines.
    defined (mfgmodel_text lines) >>= λ v. modify (with_info (λ i. record i { mfgmodel = v }))

unfoldable pub fetch_imei : ℕ → M (Unit {0})
fetch_imei fuel s = fetch fuel s.modem_info.imei (try_invoke (codes "AT+GSN")) store_imei s

unfoldable pub fetch_iccid : ℕ → M (Unit {0})
fetch_iccid fuel s =
    fetch fuel s.modem_info.iccid
      (try_invoke_adv (codes "AT+ICCID") action_timeout (some iccid_complete_parser)) store_iccid s

unfoldable pub fetch_fwver : ℕ → M (Unit {0})
fetch_fwver fuel s = fetch fuel s.modem_info.fwver (try_invoke (codes "AT+QGMR")) store_fwver s

unfoldable pub fetch_mfgmodel : ℕ → M (Unit {0})
fetch_mfgmodel fuel s = fetch fuel s.modem_info.mfgmodel (try_invoke (codes "ATI")) store_mfgmodel s

-- `mdminfo_ltem`
unfoldable pub mdminfo_ltem : ℕ → M ModemInfo
mdminfo_ltem fuel = do
  fetch_imei fuel
  fetch_iccid fuel
  fetch_fwver fuel
  fetch_mfgmodel fuel
  λ s. ret s.modem_info s
