-- ===== src/Mqtt/Fuel.antt =====
-- The fuel of the loop of `s_urlDecode`.
use cr_lte_modem.Base.{
  ℕ, zero, suc, ◌+◌, ◌≤◌, ◌≡◌, refl, sym, ap, Bool, true, ◌||◌, Option, none, some, arith, leb,
  ◌==◌, if◌then◌else◌, if-elim, get_or, set,
}
use cr_lte_modem.CString.{Bytes}
use cr_lte_modem.Mqtt.Work.{sub_key, sub_table, url_step, url_loop}

url_step_on : (i dest : ℕ) (mem : Bytes) → 1 ≤ (url_step i dest mem).0
unfolding url_step
url_step_on i dest mem =
    if-elim (λ (o : ℕ × Bytes). 1 ≤ o.0) (get_or mem i 0 == b'%')
      (λ _. by_key (sub_key (get_or mem (i + 2) 0))) (λ _. omega arith)
  where
    by_key :
        (o : Option ℕ)
        → 1
          ≤ (elim o as (λ _. ℕ × Bytes) [
            | none ↦ (1, mem)
            | some k ↦ (3, set mem dest (get_or sub_table k 0))
          ]).0
    by_key none = omega arith
    by_key (some k) = omega arith

stops : (len i : ℕ) (c : Bool) → len ≤ i → (leb len i || c) ≡ true
stops len i c h = ap (λ y. y || c) past
  where
    past : leb len i ≡ true
    past = ground (arith, h)

-- Once the fuel covers the bytes up to the length given, more of it does not change the result.
pub url_loop_fuel :
    (n m len i dest : ℕ) (mem : Bytes)
    → len ≤ i + n
    → len ≤ i + m
    → url_loop n len i dest mem ≡ url_loop m len i dest mem
unfolding url_loop
url_loop_fuel zero zero len i dest mem hn hm = refl
url_loop_fuel zero (suc m) len i dest mem hn hm =
    ap
      (λ (y : Bool).
        if y
        then (mem, dest)
        else url_loop m len (i + (url_step i dest mem).0) (dest + 1) (url_step i dest mem).1)
      (sym (stops len i (get_or mem i 0 == 0) (omega (arith, hn))))
url_loop_fuel (suc n) zero len i dest mem hn hm =
    ap
      (λ (y : Bool).
        if y
        then (mem, dest)
        else url_loop n len (i + (url_step i dest mem).0) (dest + 1) (url_step i dest mem).1)
      (stops len i (get_or mem i 0 == 0) (omega (arith, hm)))
url_loop_fuel (suc n) (suc m) len i dest mem hn hm =
    ap (λ (o : Bytes × ℕ). if leb len i || get_or mem i 0 == 0 then (mem, dest) else o)
      (url_loop_fuel n m len (i + (url_step i dest mem).0) (dest + 1) (url_step i dest mem).1
        (omega (arith, hn, url_step_on i dest mem)) (omega (arith, hm, url_step_on i dest mem)))
