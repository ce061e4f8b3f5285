-- ===== src/ModemInfo/Signal.antt =====
-- `mdminfo_rssi` and `mdminfo_rssiBars` of src/ltemc-mdminfo.c, and what they make of a signal.
use cr_lte_modem.Base.{
  ℕ, zero, suc, ◌+◌, ◌-◌, ◌*◌, ◌/◌, ◌%◌, ◌≤◌, ◌<◌, ◌≡◌, refl, sym, ap, ◌∙◌, true, false, Option,
  none, some, arith, ◌==◌, if◌then◌else◌, u8,
}
use mathlib.Core.Path.{subst}
use native.Mathlib.Nat.{add-div_right, div-le_self, le-div_iff_mul-le, mul-div-le, div-mul-le_self}
use cr_lte_modem.Base.Int.{ℤ, pos, negsuc, int8, add_ℕ, quot, int_u8}
use cr_lte_modem.CString.{codes, strstr, strtol, to_word}
use cr_lte_modem.Parser.{Ptr, found, advance, result_success}
use cr_lte_modem.Device.{Ltem, M, ret, stop, undefined, ◌>>=◌}
use cr_lte_modem.Command
use cr_lte_modem.Command.{try_invoke}
use cr_lte_modem.Command.Poll.{response_text, await_result}
use cr_lte_modem.ModemInfo.{crlf_sz}

abbrev pub no_signal : ℕ
no_signal = 99

-- the strength in dBm of a raw value, as an `int8_t`
unfoldable pub rssi_of : ℕ → ℤ
rssi_of csq = if csq == no_signal then pos 0 else int8 ((2 * csq + 143) % 256)

-- The raw value of a response; where there is none in it the memory behind NULL is read.
unfoldable pub read_csq : Ptr → Ltem → ℕ
read_csq p s =
    let term =
      found (advance p crlf_sz) (strstr (response_text (advance p crlf_sz) s) (codes "+CSQ")) in
    to_word 256 (strtol (response_text (advance term 5) s))

-- `mdminfo_rssi`; where the command is not invoked the result is not set.
unfoldable pub mdminfo_rssi : ℕ → M ℤ
mdminfo_rssi fuel s = elim (try_invoke (codes "AT+CSQ") s) [
  | stop w ↦ stop w
  | ret false t ↦ ret (int8 (u8 t.garbage)) t
  | ret true t ↦ elim (await_result fuel false t) [
    | stop w ↦ stop w
    | ret r u ↦
        let csq = if r.status_code == result_success then read_csq r.response u else 0 in
        (Command.close >>= λ _ v. ret (rssi_of csq) v) u
  ]
]

-- the bars of a strength, where each has a span that is not 0
unfoldable pub bars_of : ℕ → ℤ → ℕ
bars_of span rssi = int_u8 (quot (add_ℕ (add_ℕ rssi 113) span) span)

-- the span of a bar: a division by 0 is undefined (none)
unfoldable pub bar_span : ℕ → Option ℕ
bar_span zero = none
bar_span (suc n) = some (u8 ((113 - 51) / suc n))

-- `mdminfo_rssiBars`; with more than 62 bars the span is 0, by which it divides.
unfoldable pub mdminfo_rssi_bars : ℕ → ℕ → M ℕ
unfolding bars_of
mdminfo_rssi_bars fuel number_of_bars s = elim (bar_span number_of_bars) [
  | none ↦ stop undefined
  | some span ↦ elim (mdminfo_rssi fuel s) [
    | stop w ↦ stop w
    | ret rssi t ↦ if span == 0 then stop undefined else ret (bars_of span rssi) t
  ]
]

-- how far a strength lies above -113 dBm, below which there is none
abbrev pub above : ℤ → ℕ
above rssi = elim (add_ℕ rssi 113) [ pos n ↦ n | negsuc n ↦ 0 ]

-- A raw value of 0 to 31 stands for -113 to -51 dBm, in steps of 2.
pub rssi_of-above : (csq : ℕ) → csq ≤ 31 → add_ℕ (rssi_of csq) 113 ≡ pos (2 * csq)
unfolding rssi_of
rssi_of-above csq h = ground arith

-- A strength that lies n above the lowest gives n / span + 1 bars.
bars_of-above :
    (span n : ℕ) (rssi : ℤ)
    → 0 < span
    → n < 255
    → add_ℕ rssi 113 ≡ pos n
    → bars_of span rssi ≡ n / span + 1
unfolding bars_of
bars_of-above span n rssi h small e =
    ap (λ a. int_u8 (quot (add_ℕ a span) span)) e
    ∙ ap (λ q. q % 256) (add-div_right n h)
    ∙ omega (arith, div-le_self n span)

-- A raw value from 0 to 31 gives one bar, and one more for each full span that it is above the
-- lowest strength.
pub bars_of-signal :
    (span csq : ℕ) → 0 < span → csq ≤ 31 → bars_of span (rssi_of csq) ≡ 2 * csq / span + 1
bars_of-signal span csq h small =
    bars_of-above span (2 * csq) (rssi_of csq) h (omega arith) (rssi_of-above csq small)

-- For a display of 1 to 62 bars: at the strongest signal more bars than the display has are to be
-- shown, and with no signal at all as many as at the strongest, or more.
pub bars_of-excess :
    (n span : ℕ)
    → n ≤ 62
    → bar_span n ≡ some span
    → (n < bars_of span (rssi_of 31))
      × (bars_of span (rssi_of 31) ≤ bars_of span (rssi_of no_signal))
unfolding bar_span rssi_of
bars_of-excess zero span h e = absurd (cc)
bars_of-excess (suc n) span h e =
    (rw strong (omega (arith, fits)), rw (strong, none_at_all) (omega (arith, more)))
  where
    is : span ≡ 62 / suc n
    is = ground (arith, div-le_self 62 (suc n))

    some_span : 0 < span
    some_span =
        rw is ((le-div_iff_mul-le {k = suc n} {x = 1} {y = 62} (omega arith)).1 (omega arith))

    strong : bars_of span (rssi_of 31) ≡ 62 / span + 1
    strong = bars_of-signal span 31 some_span (omega arith)

    none_at_all : bars_of span (rssi_of no_signal) ≡ 113 / span + 1
    none_at_all = bars_of-above span 113 (rssi_of no_signal) some_span (omega arith) refl

    fits : suc n ≤ 62 / span
    fits =
        (le-div_iff_mul-le {k = span} {x = suc n} {y = 62} some_span).1
          (subst (λ k. suc n * k ≤ 62) (sym is) (mul-div-le 62 (suc n)))

    more : 62 / span ≤ 113 / span
    more =
        (le-div_iff_mul-le {k = span} {x = 62 / span} {y = 113} some_span).1
          (omega (arith, div-mul-le_self 62 span))
