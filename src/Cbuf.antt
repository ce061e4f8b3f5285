-- ===== src/Cbuf.antt =====
-- src/ltemc-cbuf.h and src/ltemc-cbuf.c: the circular byte buffer behind the transmit path.
-- The storage is a list; `head` and `tail` are the C `int` offsets, which stay below `maxlen`.
pub mod Queue
pub mod Inv
pub mod Refine
mod Tests
use cr_lte_modem.Base.{
  ℕ, ◌+◌, ◌%◌, Bool, true, false, Option, none, some, List, get_or, set, ◌==◌, if◌then◌else◌,
}

-- `cbuf_t`
pub record Cbuf : Type 0 where
  pub buffer : List ℕ
  pub head : ℕ
  pub tail : ℕ
  pub maxlen : ℕ

-- `cbuf_push`: the return value, and the buffer after it.
unfoldable pub push : Cbuf → ℕ → Bool × Cbuf
push c byte =
    let next = (c.head + 1) % c.maxlen in
    if next == c.tail
    then (false, c)
    else (true, record c { buffer = set c.buffer c.head byte; head = next })

-- `cbuf_pop`: the return value, the byte stored through `data` (none where nothing is stored), and
-- the buffer after. `Inv.in_bounds` rules out a read past the storage, which would give 0 here.
unfoldable pub pop : Cbuf → Bool × Option ℕ × Cbuf
pop c =
    let next = (c.tail + 1) % c.maxlen in
    if c.head == c.tail
    then (false, none, c)
    else (true, some (get_or c.buffer c.tail 0), record c { tail = next })
