-- ===== src/Network/Report.antt =====
-- The contexts that the modem reports in its answer to `AT+QIACT?`, as `ntwk_getActivePdpCntxtCnt`
-- reads them.
pub mod Loop
pub mod RoundTrip
use cr_lte_modem.Base.{
  ℕ, zero, suc, ◌+◌, ◌-◌, ◌*◌, ◌/◌, ◌%◌, ◌^◌, ◌≤◌, ◌<◌, min, ◌≡◌, refl, sym, ap, ap₂, ◌∙◌, ◌≢◌, ◌↔◌,
  ◌⊎◌, inl, inr, Bool, true, false, not, ◌&&◌, ◌||◌, Option, none, some, List, [], ◌∷◌, ◌++◌, map,
  append-nil, append_assoc, arith, ltb, leb, ◌==◌, if◌then◌else◌, ltb→lt, lt→ltb, leb→le, ==_iff,
  if-elim, Bool-cases, Option-cases, length, get_elem?, get_or, set, take, drop, replicate,
  length-append, length-set, length-take, length-drop, length-replicate, take-append-drop,
  take-append, drop-append, drop-append_le, drop-add, drop-append_add, get_elem?-eq-get_or,
  get_or-set_self, get_or-set_ne, take-nil, List-cases, bit, bit-bits_or, bit-bits_and,
  bit-bits_and_not, bit-not_zero, bit-pow, bits_or, bits_and, bits_and_not, u8, u16, u32, sub16,
  sub32,
}
use mathlib.Core.Path.{subst}
use cr_lte_modem.CString.{Bytes, codes, c_str, strstr, strchr, Strtol, strtol, to_word, decimal}
use cr_lte_modem.CString.Number.{strtol-decimal, digit_next}
use cr_lte_modem.Token.Fits.{grab_token_fits}
use cr_lte_modem.Token.{Token, zeros, strncpy_part, grab_token, fill, memset_zero, copy_token}
use cr_lte_modem.Device.{PdpCntxt}
use cr_lte_modem.Network.{
  qiact, qiact_sz, token_buf_sz, text_at, Entry, read_entry, read_address, set_address,
  read_entries, parse_contexts, Contexts,
}
use cr_lte_modem.CString.Pieces.{
  Avoids, Avoids-append, Avoids-decimal, strchr-Avoids, strstr-Avoids, strstr-Avoids-none,
  c_str-drop,
}

-- The line of a context, with the text that follows it.
abbrev pub line : PdpCntxt → Bytes → Bytes
line c more =
    qiact
    ++ (decimal c.context_id
        ++ (codes ",1,"
            ++ (decimal c.ip_type ++ (codes ",\"" ++ (c.ip_address ++ (codes "\"\r\n" ++ more))))))

-- the lines of the contexts, and the rest of the answer
abbrev pub report : List PdpCntxt → Bytes → Bytes
report [] rest = rest
report (c ∷ cs) rest = line c (report cs rest)

-- a context as the modem has them: an address of 1 to 15 bytes without the bytes that delimit it
pub record IsPlain (c : PdpCntxt) : Type 0 where
  pub id : c.context_id < 256
  pub type : c.ip_type < 2 ^ 31
  pub some_address : 0 < length c.ip_address
  pub short : length c.ip_address < token_buf_sz
  pub quote : Avoids b'"' c.ip_address
  pub plus : Avoids b'+' c.ip_address
  pub nul : Avoids 0 c.ip_address

abbrev pub AllPlain : List PdpCntxt → Type 0
AllPlain [] = Unit {0}
AllPlain (c ∷ cs) = IsPlain c × AllPlain cs

-- the token buffer behind an address: what it held before stays behind a shorter address
abbrev pub overlay : Bytes → Bytes → Bytes
overlay ip buf = ip ++ drop (length ip) buf

abbrev pub noted : PdpCntxt → Bytes → PdpCntxt
noted c buf = record c { ip_address = c_str (take token_buf_sz (overlay c.ip_address buf)) }

pub text_at-shift :
    (mem s t : Bytes) (k : ℕ) → text_at mem k ≡ s ++ t → text_at mem (k + length s) ≡ t
text_at-shift mem s t k h =
    rw (drop-add k (length s) (k + length s) mem refl) (c_str-drop (drop k mem) s t h)

read_entry_lem :
    (mem buf : Bytes) (next i : ℕ) (id : Strtol) (old : PdpCntxt)
    → strtol (text_at mem (next + qiact_sz)) ≡ id
    → strchr (text_at mem (next + qiact_sz + id.stop + 1)) b',' ≡ some i
    → read_entry mem next buf old
      ≡ read_address mem (next + qiact_sz + id.stop + 1 + i) (to_word 256 id) buf old
unfolding read_entry
read_entry_lem mem buf next i id old e =
    subst
      (λ id.
        strchr (text_at mem (next + qiact_sz + id.stop + 1)) b',' ≡ some i
        → read_entry mem next buf old
          ≡ read_address mem (next + qiact_sz + id.stop + 1 + i) (to_word 256 id) buf old)
      e (λ f. rw (f, read_entry) refl)

read_address_lem :
    (mem buf : Bytes) (comma id : ℕ) (type : Strtol) (t : Token) (old : PdpCntxt)
    → strtol (text_at mem (comma + 1)) ≡ type
    → grab_token (text_at mem (comma + 1 + type.stop + 2)) b'"' buf token_buf_sz ≡ some t
    → read_address mem comma id buf old
      ≡ some (set_address (record old { context_id = id; ip_type = to_word 4294967296 type }) t)
unfolding read_address
read_address_lem mem buf comma id type t old e =
    subst
      (λ type.
        grab_token (text_at mem (comma + 1 + type.stop + 2)) b'"' buf token_buf_sz ≡ some t
        → read_address mem comma id buf old
          ≡ some
              (set_address (record old { context_id = id; ip_type = to_word 4294967296 type }) t))
      e (λ f. rw (f, read_address) refl)

-- A number of a line is read, and where it ends.
strtol-text :
    (mem t : Bytes) (k n : ℕ)
    → text_at mem k ≡ decimal n ++ t
    → n < 2 ^ 31
    → digit_next t ≡ false
    → strtol (text_at mem k) ≡ record { negative = false; magnitude = n; stop = length (decimal n) }
strtol-text mem t k n h small d = ap strtol h ∙ strtol-decimal n t small d

read_address-line :
    (mem buf more : Bytes) (comma id : ℕ) (c old : PdpCntxt)
    → text_at mem (comma + 1)
      ≡ decimal c.ip_type ++ (codes ",\"" ++ (c.ip_address ++ (codes "\"\r\n" ++ more)))
    → IsPlain c
    → length buf ≡ token_buf_sz
    → read_address mem comma id buf old
      ≡ some (
          set_address
            (record old { context_id = id; ip_type = c.ip_type })
            (record { rest = some (length c.ip_address + 1); buf = overlay c.ip_address buf }))
read_address-line mem buf more comma id c old h p l =
    read_address_lem mem buf comma id type token old
      (strtol-text mem _ (comma + 1) c.ip_type h p.type refl)
      (ap (λ t. grab_token t b'"' buf token_buf_sz)
          (text_at-shift mem (codes ",\"") _ (comma + 1 + type.stop)
            (text_at-shift mem (decimal c.ip_type) _ (comma + 1) h))
        ∙ grab_token_fits b'"' token_buf_sz c.ip_address buf (codes "\r\n" ++ more) l p.some_address
            p.short (omega arith) p.quote)
    ∙ ap (λ n. some (set_address (record old { context_id = id; ip_type = n }) token))
        (omega (arith, p.type))
  where
    type : Strtol
    type = record { negative = false; magnitude = c.ip_type; stop = length (decimal c.ip_type) }

    token : Token
    token = record { rest = some (length c.ip_address + 1); buf = overlay c.ip_address buf }

pub read_entry-line :
    (mem buf more : Bytes) (next : ℕ) (c old : PdpCntxt)
    → text_at mem next ≡ line c more
    → IsPlain c
    → length buf ≡ token_buf_sz
    → read_entry mem next buf old
      ≡ some (record { context = noted c buf; token_buf = overlay c.ip_address buf })
unfolding set_address strchr
read_entry-line mem buf more next c old h p l =
    read_entry_lem mem buf next 1 id old
      (strtol-text mem _ (next + qiact_sz) c.context_id number (omega (arith, p.id)) refl) comma
    ∙ read_address-line mem buf more (behind + 1) (to_word 256 id) c old
        (text_at-shift mem (codes ",") _ (behind + 1)
          (text_at-shift mem (codes "1") _ behind state))
        p l
    ∙ ap
        (λ n. some (
          set_address (record old { context_id = n; ip_type = c.ip_type })
            (record { rest = some (length c.ip_address + 1); buf = overlay c.ip_address buf })))
        (omega (arith, p.id))
  where
    id : Strtol
    id = record { negative = false; magnitude = c.context_id; stop = length (decimal c.context_id) }

    behind : ℕ
    behind = next + qiact_sz + id.stop + 1

    tail : Bytes
    tail = decimal c.ip_type ++ (codes ",\"" ++ (c.ip_address ++ (codes "\"\r\n" ++ more)))

    number : text_at mem (next + qiact_sz) ≡ decimal c.context_id ++ (codes ",1," ++ tail)
    number = text_at-shift mem qiact _ next h

    state : text_at mem behind ≡ codes "1," ++ tail
    state =
        text_at-shift mem (codes ",") _ (next + qiact_sz + id.stop)
          (text_at-shift mem (decimal c.context_id) _ (next + qiact_sz) number)

    comma : strchr (text_at mem behind) b',' ≡ some 1
    comma = ap (λ t. strchr t b',') state
