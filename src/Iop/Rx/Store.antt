-- ===== src/Iop/Rx/Store.antt =====
-- The store of a received chunk by the service routine, and the reset of a receive buffer.
use cr_lte_modem.Base.{
  ℕ, zero, suc, ◌+◌, ◌-◌, ◌≤◌, ◌<◌, ◌≡◌, refl, sym, ap, ◌∙◌, false, Option, none, some, [], ◌∷◌,
  ◌++◌, arith, leb, leb→le, inl, inr, Option-cases, if-elim, length, take, drop, replicate,
  drop-add, take-nil,
}
use mathlib.Core.Path.{subst}
use cr_lte_modem.CString.{Bytes, write_at}
use cr_lte_modem.Parser.{at}
use cr_lte_modem.Device.{RxBuf, peer_none}
use cr_lte_modem.Iop.Rx.{rx_buf_create, rx_buf_reset, rx_store}

suc_add : (a b : ℕ) → suc a + b ≡ suc (a + b)
suc_add a b = omega arith

length-write_at : (mem : Bytes) (k : ℕ) (src : Bytes) → length (write_at mem k src) ≡ length mem
unfolding write_at
length-write_at [] k src = refl
length-write_at (b ∷ mem) (suc k) src = ap suc (length-write_at mem k src)
length-write_at (b ∷ mem) zero [] = refl
length-write_at (b ∷ mem) zero (x ∷ src) = ap suc (length-write_at mem zero src)

take-write_at :
    (mem : Bytes) (k : ℕ) (src : Bytes)
    → k + length src ≤ length mem
    → take (k + length src) (write_at mem k src) ≡ take k mem ++ src
unfolding write_at
take-write_at [] k [] h = ground (arith, take-nil ℕ k)
take-write_at [] k (x ∷ src) h = absurd (omega (arith, h))
take-write_at (b ∷ mem) (suc k) src h =
    ap (λ n. take n (b ∷ write_at mem k src)) (suc_add k (length src))
    ∙ ap (λ r. b ∷ r) (take-write_at mem k src (omega (arith, h)))
take-write_at (b ∷ mem) zero [] h = refl
take-write_at (b ∷ mem) zero (x ∷ src) h = ground (arith, take-write_at mem zero src)

drop-write_at :
    (mem : Bytes) (k : ℕ) (src : Bytes)
    → drop (k + length src) (write_at mem k src) ≡ drop (k + length src) mem
unfolding write_at
drop-write_at [] k src = refl
drop-write_at (b ∷ mem) (suc k) src =
    ap (λ n. drop n (b ∷ write_at mem k src)) (suc_add k (length src))
    ∙ drop-write_at mem k src
    ∙ ap (λ n. drop n (b ∷ mem)) (sym (suc_add k (length src)))
drop-write_at (b ∷ mem) zero [] = refl
drop-write_at (b ∷ mem) zero (x ∷ src) = ground (arith, drop-write_at mem zero src)

suc_zero : (k : ℕ) → suc k ≡ suc k + 0
suc_zero k = omega arith

pub drop-write_at_start :
    (mem : Bytes) (k : ℕ) (src : Bytes)
    → k + length src ≤ length mem
    → drop k (write_at mem k src) ≡ src ++ drop (k + length src) mem
unfolding write_at
drop-write_at_start [] zero [] h = refl
drop-write_at_start [] (suc k) [] h = ap (λ n. drop n []) (suc_zero k)
drop-write_at_start [] k (x ∷ src) h = absurd (omega (arith, h))
drop-write_at_start (b ∷ mem) (suc k) src h =
    drop-write_at_start mem k src (omega (arith, h))
    ∙ ap (λ n. src ++ drop n (b ∷ mem)) (sym (suc_add k (length src)))
drop-write_at_start (b ∷ mem) zero [] h = refl
drop-write_at_start (b ∷ mem) zero (x ∷ src) h =
    ap (λ r. x ∷ r) (drop-write_at_start mem zero src (omega (arith, h)))
    ∙ ap (λ n. x ∷ (src ++ drop n (b ∷ mem))) shifted
  where
    shifted : suc (0 + length src) ≡ 0 + suc (length src)
    shifted = omega arith

-- the bytes received so far
abbrev pub received : RxBuf → Bytes
received b = take b.head b.mem

-- nothing but zeros behind the bytes received
abbrev pub Clean : RxBuf → Type 0
Clean b = drop b.head b.mem ≡ replicate (length b.mem - b.head) 0

pub record Stored (chunk : Bytes) (b b' : RxBuf) : Type 0 where
  pub fits : b.head + length chunk ≤ length b.mem
  pub text : received b' ≡ received b ++ chunk
  pub advanced : b'.head ≡ b.head + length chunk
  pub chunk_start : b'.prev_head ≡ b.head
  pub size : length b'.mem ≡ length b.mem
  pub behind : drop b'.head b'.mem ≡ drop b'.head b.mem

abbrev Stores : Bytes → RxBuf → Option RxBuf → Type 0
Stores chunk b none = length b.mem < b.head + length chunk
Stores chunk b (some b') = Stored chunk b b'

rx_store-Stores : (chunk : Bytes) (b : RxBuf) → Stores chunk b (rx_store chunk b)
unfolding rx_store
rx_store-Stores chunk b =
    if-elim (Stores chunk b) (leb (b.head + length chunk) (length b.mem))
      (λ e.
        let h : b.head + length chunk ≤ length b.mem = leb→le _ _ e in
        record {
          fits = h;
          text = take-write_at b.mem b.head chunk h;
          advanced = refl;
          chunk_start = refl;
          size = length-write_at b.mem b.head chunk;
          behind = drop-write_at b.mem b.head chunk;
        })
      (λ e. ground (arith, e))

-- A chunk for which there is room behind the bytes received extends them; `prevHead` marks where it starts;
-- the storage keeps its size and what lies further back. (For a chunk with no room nothing is stated: the
-- code makes no check, and writes past the storage.)
pub rx_store-Stored :
    (chunk : Bytes) (b : RxBuf)
    → b.head + length chunk ≤ length b.mem
    → (b' : RxBuf) × (rx_store chunk b ≡ some b') × Stored chunk b b'
rx_store-Stored chunk b h = elim (Option-cases (rx_store chunk b)) [
  | inl e ↦ absurd (no_room (subst (Stores chunk b) e (rx_store-Stores chunk b)))
  | inr (b', e) ↦ (b', e, subst (Stores chunk b) e (rx_store-Stores chunk b))
]
  where
    no_room : length b.mem < b.head + length chunk → ⊥
    no_room k = omega (arith, h, k)

abbrev pub zeros : ℕ → Bytes
zeros n = replicate n 0

zeros-append : (m n : ℕ) → zeros m ++ zeros n ≡ zeros (m + n)
zeros-append zero n = ap zeros (omega arith)
zeros-append (suc m) n = ap (λ r. 0 ∷ r) (zeros-append m n) ∙ ap zeros (sym (suc_add m n))

pub drop-zeros : (m n : ℕ) → drop m (zeros n) ≡ zeros (n - m)
drop-zeros zero n = ap zeros (omega arith)
drop-zeros (suc m) zero = ap zeros less
  where
    less : 0 ≡ 0 - suc m
    less = omega arith
drop-zeros (suc m) (suc n) = drop-zeros m n ∙ ap zeros less
  where
    less : n - m ≡ suc n - suc m
    less = omega arith

-- A reset of a buffer with nothing but zeros behind the bytes received makes it as it was created.
pub rx_buf_reset-fresh :
    (b : RxBuf) → b.head ≤ length b.mem → Clean b → rx_buf_reset b ≡ rx_buf_create (length b.mem)
unfolding rx_buf_reset rx_buf_create
rx_buf_reset-fresh b h c =
    ap
      (λ m. record {
        mem = m;
        head = 0;
        prev_head = 0;
        tail = at 0;
        data_peer = peer_none;
        ird_sz = 0;
        data_ready = false;
      })
      (ap (λ r. replicate b.head 0 ++ r) c
        ∙ zeros-append b.head (length b.mem - b.head)
        ∙ ap zeros (omega (arith, h)))

-- A buffer with nothing but zeros behind the bytes received stays so when a chunk is stored.
pub rx_store-Clean :
    (chunk : Bytes) (b b' : RxBuf) → Clean b → rx_store chunk b ≡ some b' → Clean b'
rx_store-Clean chunk b b' c e = behind_zeros (subst (Stores chunk b) e (rx_store-Stores chunk b))
  where
    behind_zeros : Stored chunk b b' → Clean b'
    behind_zeros t =
        t.behind
        ∙ ap (λ n. drop n b.mem) t.advanced
        ∙ drop-add b.head (length chunk) _ b.mem refl
        ∙ ap (drop (length chunk)) c
        ∙ drop-zeros (length chunk) (length b.mem - b.head)
        ∙ ap zeros (omega (arith, t.size, t.advanced, t.fits))
