-- ===== src/Network/Report/RoundTrip.antt =====
-- The whole answer to `AT+QIACT?`: what `ntwk_getActivePdpCntxtCnt` makes of the contexts that the
-- modem reports.
use cr_lte_modem.Base.{
  ℕ, zero, suc, ◌+◌, ◌-◌, ◌*◌, ◌≤◌, ◌<◌, ◌≡◌, refl, sym, ap, ap₂, ◌∙◌, true, false, Option, none,
  some, List, [], ◌∷◌, ◌++◌, map, arith, ltb, lt→ltb, if-elim, length, take, drop, replicate,
  length-append, drop-append, drop-add, take-nil,
}
use cr_lte_modem.CString.{Bytes, codes, c_str, strstr, decimal}
use cr_lte_modem.Token.{zeros}
use cr_lte_modem.Device.{PdpCntxt, Ltem, ret, stop, undefined}
use cr_lte_modem.Network.{qiact, qiact_sz, token_buf_sz, read_entries, parse_contexts}
use cr_lte_modem.CString.Pieces.{c_str-drop, Avoids}
use cr_lte_modem.Network.Report.{line, report, AllPlain, overlay}
use mathlib.Core.Path.{subst}
use cr_lte_modem.Parser.{at, result_success}
use cr_lte_modem.Command
use cr_lte_modem.Command.{with_atcmd}
use cr_lte_modem.Command.Poll.{AtcmdResult}
use cr_lte_modem.Network.Report.Loop.{
  stale, first_at, strstr-report, length-overlay, read_entries-report, read_entries-overflow,
}
use cr_lte_modem.Network.{Contexts, finish_contexts, take_contexts, clear_contexts}

length-c_str : (mem : Bytes) → length (c_str mem) ≤ length mem
unfolding c_str
length-c_str [] = omega arith
length-c_str (b ∷ mem) = ground (arith, length-c_str mem)

length-line : (c : PdpCntxt) (more : Bytes) → 9 + length more ≤ length (line c more)
length-line c more = ground (
  arith,
  length-append (decimal c.context_id) (
      codes ",1,"
      ++ (decimal c.ip_type ++ (codes ",\"" ++ (c.ip_address ++ (codes "\"\r\n" ++ more))))),
  length-append (decimal c.ip_type) (codes ",\"" ++ (c.ip_address ++ (codes "\"\r\n" ++ more))),
  length-append c.ip_address (codes "\"\r\n" ++ more),
)

length-report : (cs : List PdpCntxt) (rest : Bytes) → 9 * length cs ≤ length (report cs rest)
length-report [] rest = omega arith
length-report (c ∷ cs) rest = omega (arith, length-line c (report cs rest), length-report cs rest)

-- what is read of a report
abbrev pub reads : List PdpCntxt → List PdpCntxt → ℕ → Option Contexts
reads cs table garbage = some (record {
  table = stale (replicate token_buf_sz garbage) cs ++ drop (length cs) table;
  found = length cs;
})

-- An answer of eight bytes or fewer reports nothing.
short_report :
    (cs table : List PdpCntxt) (lead rest : Bytes) (garbage : ℕ)
    → ltb qiact_sz (length (lead ++ report cs rest)) ≡ false
    → some (record { table = table; found = 0 }) ≡ reads cs table garbage
short_report [] table lead rest garbage h = refl
short_report (c ∷ cs) table lead rest garbage h =
    absurd
      (ground (arith, length-append lead (report (c ∷ cs) rest), length-line c (report cs rest)))

-- Whatever the modem reports, contexts with an address of at most 15 bytes each and no more of them
-- than the table has entries: their number is returned and the table begins with them, each with its
-- address, behind which the end of a longer one before it (or of what the stack held) is left.
pub parse_contexts-report :
    (cs table : List PdpCntxt) (mem lead rest : Bytes) (garbage : ℕ)
    → c_str mem ≡ lead ++ report cs rest
    → Avoids b'+' lead
    → Avoids b'+' rest
    → AllPlain cs
    → length cs ≤ length table
    → length table < 256
    → parse_contexts mem garbage table ≡ reads cs table garbage
unfolding parse_contexts
parse_contexts-report cs table mem lead rest garbage h la ra p t n =
    if-elim (λ o. o ≡ reads cs table garbage) (ltb qiact_sz (length (c_str mem))) (λ _. read)
      (λ e. short_report cs table lead rest garbage (ap (λ t. ltb qiact_sz (length t)) (sym h) ∙ e))
  where
    found : strstr (c_str mem) qiact ≡ first_at cs (length lead)
    found = ap (λ t. strstr t qiact) h ∙ strstr-report lead rest cs la ra

    enough : length cs ≤ length mem
    enough = omega (
      arith,
      length-c_str mem,
      ap length h,
      length-append lead (report cs rest),
      length-report cs rest,
    )

    read :
        read_entries
          (length mem)
          mem
          (strstr (c_str mem) qiact)
          (replicate token_buf_sz garbage)
          0
          table
        ≡ reads cs table garbage
    read =
        (λ i. read_entries (length mem) mem (found i) (replicate token_buf_sz garbage) 0 table)
        ∙ read_entries-report cs [] table (length mem) mem (replicate token_buf_sz garbage) rest
            (length lead) (c_str-drop mem lead _ h) p ra refl enough t (omega (arith, n))
        ∙ ap
            (λ k. some (record {
              table = stale (replicate token_buf_sz garbage) cs ++ drop (length cs) table;
              found = k;
            }))
            (omega arith)

-- addresses that are never shorter than the one before
abbrev pub Growing : ℕ → List PdpCntxt → Type 0
Growing n [] = Unit {0}
Growing n (c ∷ cs) = (n ≤ length c.ip_address) × Growing (length c.ip_address) cs

drop-zeros : (k m : ℕ) → drop k (zeros m) ≡ zeros (m - k)
drop-zeros zero m = let e : m ≡ m - 0 = omega arith in ap zeros e
drop-zeros (suc k) zero = let e : 0 ≡ 0 - suc k = omega arith in ap zeros e
drop-zeros (suc k) (suc m) =
    let e : m - k ≡ suc m - suc k = omega arith in drop-zeros k m ∙ ap zeros e

c_str-zeros : (s : Bytes) (m : ℕ) → Avoids 0 s → 0 < m → c_str (s ++ zeros m) ≡ s
unfolding c_str
c_str-zeros [] zero h pos = absurd (omega arith)
c_str-zeros [] (suc m) h pos = refl
c_str-zeros (b ∷ s) m h pos = ground (arith, c_str-zeros s m h.1 pos)

take-all : (s : Bytes) (n : ℕ) → length s ≤ n → take n s ≡ s
take-all [] n h = take-nil ℕ n
take-all (b ∷ s) zero h = absurd (omega arith)
take-all (b ∷ s) (suc n) h = ap (λ l. b ∷ l) (take-all s n (omega arith))

stale-Growing :
    (cs : List PdpCntxt) (n : ℕ) (buf : Bytes)
    → AllPlain cs
    → Growing n cs
    → length buf ≡ token_buf_sz
    → drop n buf ≡ zeros (token_buf_sz - n)
    → stale buf cs ≡ cs
stale-Growing [] n buf p g l z = refl
stale-Growing (c ∷ cs) n buf p g l z =
    ap₂ (λ a l. record c { ip_address = a } ∷ l) address
      (stale-Growing cs (length c.ip_address) (overlay c.ip_address buf) p.1 g.1
        (length-overlay c.ip_address buf (omega (arith, p.0.short, l)) ∙ l)
        (drop-append c.ip_address (drop (length c.ip_address) buf) ∙ behind))
  where
    ip : Bytes
    ip = c.ip_address

    left : token_buf_sz - n - (length ip - n) ≡ token_buf_sz - length ip
    left = omega (arith, g.0)

    behind : drop (length ip) buf ≡ zeros (token_buf_sz - length ip)
    behind =
        drop-add n (length ip - n) (length ip) buf (omega (arith, g.0))
        ∙ ap (drop (length ip - n)) z
        ∙ drop-zeros (length ip - n) (token_buf_sz - n)
        ∙ ap zeros left

    address : c_str (take token_buf_sz (overlay ip buf)) ≡ ip
    address =
        ap c_str (
          take-all (overlay ip buf) token_buf_sz
            (omega (arith, length-overlay ip buf (omega (arith, p.0.short, l)), l)))
        ∙ ap (λ t. c_str (ip ++ t)) behind
        ∙ c_str-zeros ip (token_buf_sz - length ip) p.0.nul (omega (arith, p.0.short))

-- The round trip: with a buffer of tokens that starts with zeros, and addresses never shorter than the one
-- before, the table begins with the contexts that the modem reports.
pub parse_contexts-roundtrip :
    (cs table : List PdpCntxt) (mem lead rest : Bytes)
    → c_str mem ≡ lead ++ report cs rest
    → Avoids b'+' lead
    → Avoids b'+' rest
    → AllPlain cs
    → Growing 0 cs
    → length cs ≤ length table
    → length table < 256
    → parse_contexts mem 0 table
      ≡ some (record { table = cs ++ drop (length cs) table; found = length cs })
parse_contexts-roundtrip cs table mem lead rest h la ra p g t n =
    parse_contexts-report cs table mem lead rest 0 h la ra p t n
    ∙ ap (λ l. some (record { table = l ++ drop (length cs) table; found = length cs }))
        (stale-Growing cs 0 (zeros token_buf_sz) p g refl refl)

-- More contexts than the table has entries: the write past the table is undefined.
parse_contexts-overflow :
    (cs table : List PdpCntxt) (mem lead rest : Bytes) (garbage : ℕ)
    → c_str mem ≡ lead ++ report cs rest
    → Avoids b'+' lead
    → Avoids b'+' rest
    → AllPlain cs
    → length table < length cs
    → length table < 256
    → parse_contexts mem garbage table ≡ none
unfolding parse_contexts
parse_contexts-overflow cs table mem lead rest garbage h la ra p t n = rw long (
    (λ i. read_entries (length mem) mem (found i) (replicate token_buf_sz garbage) 0 table)
    ∙ read_entries-overflow cs [] table (length mem) mem (replicate token_buf_sz garbage) rest
        (length lead) (c_str-drop mem lead _ h) p ra refl t (omega (arith, n)))
  where
    found : strstr (c_str mem) qiact ≡ first_at cs (length lead)
    found = ap (λ t. strstr t qiact) h ∙ strstr-report lead rest cs la ra

    long : ltb qiact_sz (length (c_str mem)) ≡ true
    long =
        lt→ltb qiact_sz (length (c_str mem))
          (omega (arith, ap length h, length-append lead (report cs rest), length-report cs rest))

-- the result of a successful `AT+QIACT?`
abbrev pub success : AtcmdResult
success = record { status_code = result_success; response = at 0 }

abbrev pub with_contexts : List PdpCntxt → Ltem → Ltem
with_contexts table s =
    with_atcmd (λ a. record a { is_open = false }) (record s { pdp_cntxts = table })

length-map : (f : PdpCntxt → PdpCntxt) (cs : List PdpCntxt) → length (map f cs) ≡ length cs
length-map f [] = refl
length-map f (c ∷ cs) = ap suc (length-map f cs)

length-clear_contexts : (table : List PdpCntxt) → length (clear_contexts table) ≡ length table
unfolding clear_contexts
length-clear_contexts table = length-map _ table

module _ (s : Ltem) (cs : List PdpCntxt) (lead rest : Bytes)
    (h : c_str s.iop.rx_cmd_buf.mem ≡ lead ++ report cs rest) (la : Avoids b'+' lead)
    (ra : Avoids b'+' rest) (p : AllPlain cs) (n : length s.pdp_cntxts < 256) where
  abbrev cleared : List PdpCntxt
  cleared = clear_contexts s.pdp_cntxts

  small : length cleared < 256
  small = subst (λ k. k < 256) (sym (length-clear_contexts s.pdp_cntxts)) n

  -- What ntwk_getActivePdpCntxtCnt makes of a successful answer whose text is some bytes without a plus,
  -- a line for each context (a number below 256, a type below 2 ^ 31, an address of 1 to 15 bytes with
  -- no quote, plus or zero in it, none shorter than the one before) and some more bytes without a plus,
  -- where the table has room for the contexts and less than 256 entries, and the stack holds zeros: it
  -- returns their number and closes the command, and the table holds the contexts as reported and empty
  -- entries behind them.
  pub take_contexts-report :
      Growing 0 cs
      → length cs ≤ length s.pdp_cntxts
      → s.garbage ≡ 0
      → take_contexts success s
        ≡ ret (length cs) (with_contexts (cs ++ drop (length cs) (clear_contexts s.pdp_cntxts)) s)
  unfolding take_contexts finish_contexts Command.close
  take_contexts-report g t z =
      ap (λ o. finish_contexts o (record s { pdp_cntxts = cleared }))
        (ap (λ b. parse_contexts s.iop.rx_cmd_buf.mem b cleared) z
          ∙ parse_contexts-roundtrip cs cleared s.iop.rx_cmd_buf.mem lead rest h la ra p g
              (subst (λ k. length cs ≤ k) (sym (length-clear_contexts s.pdp_cntxts)) t) small)

  -- Where such an answer, whether or not the addresses grow and whatever the stack holds, reports more
  -- contexts than the table has entries, ntwk_getActivePdpCntxtCnt writes past the table.
  pub take_contexts-overflow :
      length s.pdp_cntxts < length cs → take_contexts success s ≡ stop undefined
  unfolding take_contexts finish_contexts
  take_contexts-overflow t =
      ap (λ o. finish_contexts o (record s { pdp_cntxts = cleared }))
        (parse_contexts-overflow cs cleared s.iop.rx_cmd_buf.mem lead rest s.garbage h la ra p
          (subst (λ k. k < length cs) (sym (length-clear_contexts s.pdp_cntxts)) t) small)
