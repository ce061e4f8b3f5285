-- ===== src/Cbuf/Refine.antt =====
-- The bytes that a circular buffer stores, as a queue.
use cr_lte_modem.Base.{
  ℕ, zero, suc, ◌+◌, ◌-◌, ◌≤◌, ◌<◌, ◌≡◌, ◌≢◌, refl, ◌∙◌, ap, ap₂, List, [], ◌∷◌, ◌++◌, arith,
  length, get_or, set, get_or-set_self, get_or-set_ne,
}
use cr_lte_modem.Cbuf.{Cbuf, push, pop}
use cr_lte_modem.Cbuf.Queue
use cr_lte_modem.Cbuf.Queue.{Queue}
use cr_lte_modem.Cbuf.Inv.{IsValid, wrap, mod-wrap, count}

module _ (buf : List ℕ) (m : ℕ) where
  -- the `n` bytes from offset `t` on
  abbrev pub collect : ℕ → ℕ → Queue
  collect t zero = []
  collect t (suc n) = get_or buf t 0 ∷ collect (wrap m (t + 1)) n

  length-collect : (t n : ℕ) → length (collect t n) ≡ n
  length-collect t zero = refl
  length-collect t (suc n) = ap suc (length-collect (wrap m (t + 1)) n)

  collect_of_pos :
      (t n : ℕ) → 0 < n → collect t n ≡ get_or buf t 0 ∷ collect (wrap m (t + 1)) (n - 1)
  collect_of_pos t zero h = elim h [ ]
  collect_of_pos t (suc n) h = ap (λ k. get_or buf t 0 ∷ collect (wrap m (t + 1)) k) (omega arith)

-- the bytes stored, oldest first
abbrev pub contents : Cbuf → Queue
contents c = collect c.buffer c.maxlen c.tail (count c)

pub length-contents : (c : Cbuf) → length (contents c) ≡ count c
length-contents c = length-collect c.buffer c.maxlen c.tail (count c)

-- A byte written just past a stretch extends the stretch.
collect-set :
    (buf : List ℕ) (m x n t i : ℕ)
    → m ≤ length buf
    → t < m
    → n < m
    → i ≡ wrap m (t + n)
    → collect (set buf i x) m t (suc n) ≡ collect buf m t n ++ x ∷ []
collect-set buf m x zero t i hb ht hn e =
    ap (λ r. r ∷ [])
      (ap (λ j. get_or (set buf i x) j 0) at ∙ get_or-set_self buf i x 0 (ground arith))
  where
    at : t ≡ i
    at = ground arith
collect-set buf m x (suc n) t i hb ht hn e =
    ap₂ ◌∷◌ (get_or-set_ne buf x 0 apart)
      (collect-set buf m x n (wrap m (t + 1)) i hb (ground arith) (ground arith) (ground arith))
  where
    apart : i ≢ t
    apart = ground arith

-- `cbuf_push` answers as `Queue.push` at one byte less than the storage, and leaves the buffer
-- holding the queue that `Queue.push` leaves.
pub push_refines :
    {c : Cbuf} (x : ℕ)
    → IsValid c
    → let (done, c') = push c x in (done, contents c') ≡ Queue.push (c.maxlen - 1) (contents c) x
unfolding push Queue.push
push_refines {c} x v = ground (
  arith,
  length-contents c,
  mod-wrap c.maxlen (c.head + 1),
  collect-set c.buffer c.maxlen x (count c) c.tail c.head,
)

-- `cbuf_pop` answers and stores as `Queue.pop`, and leaves the buffer holding the rest.
pub pop_refines :
    {c : Cbuf}
    → IsValid c
    → let (done, out, c') = pop c in (done, out, contents c') ≡ Queue.pop (contents c)
unfolding pop Queue.pop
pop_refines {c} v =
    ground
      (arith, mod-wrap c.maxlen (c.tail + 1), collect_of_pos c.buffer c.maxlen c.tail (count c))
