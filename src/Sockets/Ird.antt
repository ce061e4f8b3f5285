-- ===== src/Sockets/Ird.antt =====
-- The answer to a request for socket data, as `sckt_doWork` reads it from a data buffer.
use mathlib.Core.Path.{subst}
use cr_lte_modem.Base.{
  ℕ, zero, suc, ◌+◌, ◌/◌, ◌%◌, ◌<◌, ◌≡◌, refl, sym, ap, ◌∙◌, inl, inr, false, [], ◌∷◌, ◌++◌, arith,
  ◌==◌, Bool-cases, length, take, drop, drop-add, drop-append_add,
}
use cr_lte_modem.CString.{Bytes, codes, c_str, strtol, to_word, decimal, decimal_from}
use cr_lte_modem.CString.Number.{strtol-decimal}
use cr_lte_modem.Parser.{at, deref}
use cr_lte_modem.Device.{RxBuf}
use cr_lte_modem.Sockets.Work.{parse_ird, check_ready, ird_trailer_sz}

c_str-append : (xs ys : Bytes) → c_str xs ≡ xs → c_str (xs ++ ys) ≡ xs ++ c_str ys
unfolding c_str
c_str-append [] ys h = refl
c_str-append (x ∷ xs) ys h = elim (Bool-cases (x == 0)) [
  | inl z ↦ absurd (ground (arith, h, z))
  | inr n ↦ rw n (ap (λ r. x ∷ r) (c_str-append xs ys (ground (arith, h, n))))
]

c_str-decimal_from :
    (fuel n : ℕ) (out : Bytes)
    → c_str out ≡ out
    → c_str (decimal_from fuel n out) ≡ decimal_from fuel n out
unfolding decimal_from c_str
c_str-decimal_from zero n out h = h
c_str-decimal_from (suc f) n out h =
    ground (arith, h, c_str-decimal_from f (n / 10) ((b'0' + n % 10) ∷ out))

c_str-decimal : (n : ℕ) → c_str (decimal n) ≡ decimal n
unfolding decimal c_str
c_str-decimal n = c_str-decimal_from 10 n [] refl

-- what the modem sends: the size, the data, and the rest of the storage (the trailer first)
abbrev pub answer : ℕ → Bytes → Bytes → Bytes
answer n bytes rest = codes "\r\n+QIRD: " ++ (decimal n ++ (codes "\r\n" ++ (bytes ++ rest)))

number_read :
    (n : ℕ) (bytes rest : Bytes)
    → n < 65536
    → strtol (c_str (decimal n ++ (codes "\r\n" ++ (bytes ++ rest))))
      ≡ record { negative = false; magnitude = n; stop = length (decimal n) }
unfolding c_str
number_read n bytes rest h =
    ap strtol (c_str-append (decimal n) _ (c_str-decimal n))
    ∙ strtol-decimal n (c_str (codes "\r\n" ++ (bytes ++ rest))) (omega (arith, h)) refl

-- the number of bytes before the data
abbrev pub header_sz : ℕ → ℕ
header_sz n = 9 + length (decimal n) + 2

-- the buffer after its header was read
pub record Flow (n : ℕ) (bytes : Bytes) (b q : RxBuf) : Type 0 where
  pub ird_sz : q.ird_sz ≡ n
  pub tail : q.tail ≡ at (header_sz n)
  pub text : (low_mem : Bytes) → take q.ird_sz (deref low_mem q.mem q.tail) ≡ bytes
  pub ready : q.data_ready ≡ (b.head == header_sz n + (n + ird_trailer_sz))

parse_ird-answer :
    (n : ℕ) (bytes rest : Bytes) (b : RxBuf)
    → b.mem ≡ answer n bytes rest
    → n < 65536
    → parse_ird b ≡ record b { ird_sz = n; tail = at (9 + length (decimal n)) }
unfolding parse_ird
parse_ird-answer n bytes rest b e h =
    ap (λ r. record b { ird_sz = to_word 65536 r; tail = at (9 + r.stop) })
      (ap (λ m. strtol (c_str (drop 9 m))) e ∙ number_read n bytes rest h)
    ∙ ap (λ k. record b { ird_sz = k; tail = at (9 + length (decimal n)) }) small
  where
    small : n % 65536 ≡ n
    small = omega (arith, h)

take-append_all : (xs ys : Bytes) (n : ℕ) → n ≡ length xs → take n (xs ++ ys) ≡ xs
take-append_all [] ys zero h = refl
take-append_all [] ys (suc n) h = absurd (omega (arith, h))
take-append_all (x ∷ xs) ys zero h = absurd (omega (arith, h))
take-append_all (x ∷ xs) ys (suc n) h = ap (λ r. x ∷ r) (take-append_all xs ys n (omega (arith, h)))

data_behind :
    (n : ℕ) (bytes rest : Bytes) → drop (header_sz n) (answer n bytes rest) ≡ bytes ++ rest
data_behind n bytes rest =
    drop-add 9 (length (decimal n) + 2) (header_sz n) (answer n bytes rest) (omega arith)
    ∙ drop-append_add 2 (decimal n) (codes "\r\n" ++ (bytes ++ rest))

-- From a buffer that holds an answer with `n` bytes of data, `sckt_doWork` reads their number, finds
-- the data where they are, and takes it for complete exactly when the header, the data and a trailer
-- of 8 bytes have come.
pub check_ready-answer :
    (n : ℕ) (bytes rest : Bytes) (b : RxBuf)
    → b.mem ≡ answer n bytes rest
    → n < 65536
    → n ≡ length bytes
    → Flow n bytes b (check_ready (parse_ird b))
unfolding check_ready
check_ready-answer n bytes rest b e h len =
    subst (λ p. Flow n bytes b (check_ready p)) (sym (parse_ird-answer n bytes rest b e h))
      record {
        ird_sz = refl;
        tail = refl;
        text = λ low_mem.
            ap (λ m. take n (drop (header_sz n) m)) e
            ∙ ap (take n) (data_behind n bytes rest)
            ∙ take-append_all bytes rest n len;
        ready = refl;
      }
