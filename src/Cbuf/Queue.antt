-- ===== src/Cbuf/Queue.antt =====
-- What a client of the circular buffer may expect: a queue of at most `cap` bytes, oldest first.
use cr_lte_modem.Base.{
  ℕ, Bool, true, false, Option, none, some, List, [], ◌∷◌, ◌++◌, length, ltb, if◌then◌else◌,
}

abbrev pub Queue : Type 0
Queue = List ℕ

-- A push is taken where there is room.
unfoldable pub push : ℕ → Queue → ℕ → Bool × Queue
push cap q x = if ltb (length q) cap then (true, q ++ x ∷ []) else (false, q)

unfoldable pub pop : Queue → Bool × Option ℕ × Queue
pop [] = (false, none, [])
pop (x ∷ q) = (true, some x, q)
