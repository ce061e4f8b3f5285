-- ===== src/Mqtt/Decode.antt =====
-- `s_urlDecode` on text that has nothing to decode, and the delivery to a table with a free entry.
use cr_lte_modem.Base.{
  ℕ, zero, suc, ◌+◌, ◌≤◌, ◌<◌, ◌≡◌, refl, sym, ap, ◌∙◌, ◌≢◌, Bool, true, false, ◌||◌, none, some,
  [], ◌∷◌, ◌++◌, arith, ltb, leb, ◌==◌, if◌then◌else◌, ==_iff, if-elim, length, get_or, set, drop,
  length-append, drop-add,
}
use cr_lte_modem.CString.{Bytes}
use cr_lte_modem.Mqtt.Work.{url_step, url_loop, url_decode}

-- no zero and no `%`
abbrev pub Plain : Bytes → Type 0
Plain [] = Unit
Plain (c ∷ text) = (c ≢ 0) × (c ≢ b'%') × Plain text

set-get_or : (mem : Bytes) (i : ℕ) → set mem i (get_or mem i 0) ≡ mem
set-get_or [] i = refl
set-get_or (x ∷ mem) zero = refl
set-get_or (x ∷ mem) (suc i) = ap (λ r. x ∷ r) (set-get_or mem i)

head_at : (mem : Bytes) (i c : ℕ) (r : Bytes) → drop i mem ≡ c ∷ r → get_or mem i 0 ≡ c
head_at [] zero c r h = ground arith
head_at [] (suc i) c r h = ground arith
head_at (x ∷ mem) zero c r h = ground arith
head_at (x ∷ mem) (suc i) c r h = head_at mem i c r h

rest_at : (mem : Bytes) (i c : ℕ) (r : Bytes) → drop i mem ≡ c ∷ r → drop (i + 1) mem ≡ r
rest_at mem i c r h = drop-add i 1 (i + 1) mem refl ∙ ap (drop 1) h

url_step_plain : (mem : Bytes) (i : ℕ) → get_or mem i 0 ≢ b'%' → url_step i i mem ≡ (1, mem)
unfolding url_step
url_step_plain mem i h =
    if-elim (λ (o : ℕ × Bytes). o ≡ (1, mem)) (get_or mem i 0 == b'%')
      (λ e. absurd (h ((==_iff _ _).0 e))) (λ _. ap (λ m. (1, m)) (set-get_or mem i))

goes_on : (len i c : ℕ) → i < len → c ≢ 0 → (leb len i || c == 0) ≡ false
goes_on len i c h ne = ground arith

ends_here : (len i : ℕ) → (leb len i || 0 == 0) ≡ true
ends_here len i = ground arith

url_loop-Plain :
    (text rest : Bytes) (n len i : ℕ) (mem : Bytes)
    → drop i mem ≡ text ++ 0 ∷ rest
    → Plain text
    → length text ≤ n
    → i + length text ≤ len
    → url_loop n len i i mem ≡ (mem, i + length text)
unfolding url_loop
url_loop-Plain [] rest zero len i mem h p hn hl = ap (λ k. (mem, k)) (omega arith)
url_loop-Plain [] rest (suc n) len i mem h p hn hl =
    ap (λ (c : ℕ). if leb len i || c == 0 then (mem, i) else step_on) (head_at mem i 0 rest h)
    ∙ ap (λ (y : Bool). if y then (mem, i) else step_on) (ends_here len i)
    ∙ ap (λ k. (mem, k)) same
  where
    step_on : Bytes × ℕ
    step_on = url_loop n len (i + (url_step i i mem).0) (i + 1) (url_step i i mem).1

    same : i ≡ i + 0
    same = omega arith
url_loop-Plain (c ∷ text) rest zero len i mem h p hn hl = absurd (omega (arith, hn))
url_loop-Plain (c ∷ text) rest (suc n) len i mem h (nz, np, p) hn hl =
    ap (λ (d : ℕ). if leb len i || d == 0 then (mem, i) else step_on) (head_at mem i c _ h)
    ∙ ap (λ (y : Bool). if y then (mem, i) else step_on) (goes_on len i c (omega (arith, hl)) nz)
    ∙ ap (λ (o : ℕ × Bytes). url_loop n len (i + o.0) (i + 1) o.1)
        (url_step_plain mem i (λ e. np (sym (head_at mem i c _ h) ∙ e)))
    ∙ url_loop-Plain text rest n len (i + 1) mem (rest_at mem i c _ h) p (omega (arith, hn))
        (omega (arith, hl))
    ∙ ap (λ k. (mem, k)) same
  where
    step_on : Bytes × ℕ
    step_on = url_loop n len (i + (url_step i i mem).0) (i + 1) (url_step i i mem).1

    same : i + 1 + length text ≡ i + suc (length text)
    same = omega arith

set_behind :
    (a : Bytes) (x : ℕ) (rest : Bytes) (k : ℕ)
    → k ≡ length a + 1
    → set (a ++ 0 ∷ x ∷ rest) k 0 ≡ a ++ 0 ∷ 0 ∷ rest
set_behind [] x rest zero e = absurd (omega (arith, e))
set_behind [] x rest (suc zero) e = refl
set_behind [] x rest (suc (suc k)) e = absurd (omega (arith, e))
set_behind (c ∷ a) x rest zero e = absurd (omega (arith, e))
set_behind (c ∷ a) x rest (suc k) e = ap (λ r. c ∷ r) (set_behind a x rest k (omega (arith, e)))

-- A text with no `%` in it, with its terminator and a byte behind that inside of the storage, is left as
-- it is; the byte behind the terminator becomes zero.
pub url_decode-Plain :
    (text : Bytes) (x : ℕ) (rest : Bytes) (len : ℕ)
    → Plain text
    → length text ≤ len
    → url_decode (text ++ 0 ∷ x ∷ rest) len ≡ some (text ++ 0 ∷ 0 ∷ rest)
unfolding url_decode
url_decode-Plain text x rest len p h =
    let mem : Bytes = text ++ 0 ∷ x ∷ rest in
    ap (λ (o : Bytes × ℕ). if ltb (o.1 + 1) (length o.0) then some (set o.0 (o.1 + 1) 0) else none)
      (url_loop-Plain text (x ∷ rest) len len 0 mem refl p h (omega (arith, h)))
    ∙ ap (λ (y : Bool). if y then some (set mem (0 + length text + 1) 0) else none)
        (inside (length text) (length rest) (length mem) (length-append text (0 ∷ x ∷ rest)))
    ∙ ap some (set_behind text x rest _ (omega arith))
  where
    inside : (a r m : ℕ) → m ≡ a + suc (suc r) → ltb (0 + a + 1) m ≡ true
    inside a r m e = ground arith
