-- ===== src/Cbuf/Inv.antt =====
-- The representation invariant of `cbuf_t`.
use cr_lte_modem.Base.{
  ℕ, ◌+◌, ◌-◌, ◌%◌, ◌^◌, ◌≤◌, ◌<◌, ◌≡◌, ltb, if◌then◌else◌, arith, length, length-set,
}
use cr_lte_modem.Cbuf.{Cbuf, push, pop}
use native.Mathlib.Nat.{mod-eq_of_lt, mod-eq-sub-mod}

-- Both offsets lie in a storage of `maxlen` bytes, whose size an `int` holds.
pub record IsValid (c : Cbuf) : Type 0 where
  pub storage : c.maxlen ≤ length c.buffer
  pub small : c.maxlen < 2 ^ 31
  pub head_in : c.head < c.maxlen
  pub tail_in : c.tail < c.maxlen

-- the offset `k` bytes on, for `k` below twice the size
abbrev pub wrap : ℕ → ℕ → ℕ
wrap m k = if ltb k m then k else k - m

pub mod-wrap : (m k : ℕ) → k < m + m → k % m ≡ wrap m k
mod-wrap m k h = ground (
  arith,
  mod-eq_of_lt {n = k} {m = m},
  mod-eq-sub-mod {n = k} {m = m},
  mod-eq_of_lt {n = k - m} {m = m},
)

-- the number of bytes stored
abbrev pub count : Cbuf → ℕ
count c = if ltb c.head c.tail then c.head + c.maxlen - c.tail else c.head - c.tail

-- `cbuf_push` keeps the invariant.
pub push-IsValid : {c : Cbuf} (x : ℕ) → IsValid c → IsValid (push c x).1
unfolding push
push-IsValid {c} x v = ground (arith, length-set c.buffer c.head x, mod-wrap c.maxlen (c.head + 1))

-- `cbuf_pop` keeps the invariant.
pub pop-IsValid : {c : Cbuf} → IsValid c → IsValid (pop c).2
unfolding pop
pop-IsValid {c} v = ground (arith, mod-wrap c.maxlen (c.tail + 1))

pub maxlen-push : (c : Cbuf) (x : ℕ) → (push c x).1.maxlen ≡ c.maxlen
unfolding push
maxlen-push c x = ground arith

pub maxlen-pop : (c : Cbuf) → (pop c).2.maxlen ≡ c.maxlen
unfolding pop
maxlen-pop c = ground arith
