-- ===== src/Iop/Tx/Flow.antt =====
-- The transmit buffer under the loops of `s_txPut` and `s_txTake`.
use cr_lte_modem.Base.{
  ℕ, zero, suc, ◌+◌, ◌-◌, ◌<◌, min, ◌≡◌, refl, sym, ap, ◌∙◌, inl, inr, Bool, true, false, Option,
  none, some, [], ◌∷◌, ◌++◌, append-nil, append_assoc, arith, Bool-cases, Option-cases, length,
  take, length-append,
}
use cr_lte_modem.CString.{Bytes}
use cr_lte_modem.Cbuf
use cr_lte_modem.Cbuf.{Cbuf}
use cr_lte_modem.Cbuf.Queue
use cr_lte_modem.Cbuf.Inv.{IsValid, count, push-IsValid, pop-IsValid, maxlen-push, maxlen-pop}
use cr_lte_modem.Cbuf.Refine.{contents, length-contents, push_refines, pop_refines}
use cr_lte_modem.Iop.Tx.{put_loop, take_loop}

-- What a loop of pushes has done: how many it took, and what the buffer holds.
pub record Put (xs : Bytes) (c : Cbuf) (out : ℕ × Cbuf) : Type 0 where
  pub valid : IsValid out.1
  pub size : out.1.maxlen ≡ c.maxlen
  pub taken : out.0 ≡ min (length xs) (c.maxlen - 1 - count c)
  pub holds : contents out.1 ≡ contents c ++ take out.0 xs
  pub counts : count out.1 ≡ count c + out.0

count-lt : {c : Cbuf} → IsValid c → count c < c.maxlen
count-lt v = ground arith

push_taken :
    {c : Cbuf} (x : ℕ)
    → IsValid c
    → (Cbuf.push c x).0 ≡ true
    → (contents (Cbuf.push c x).1 ≡ contents c ++ x ∷ [])
      × (count (Cbuf.push c x).1 ≡ count c + 1)
      × (count c < c.maxlen - 1)
unfolding Queue.push
push_taken {c} x v h = ground (
  arith,
  push_refines x v,
  length-contents c,
  length-contents (Cbuf.push c x).1,
  length-append (contents c) (x ∷ []),
)

push_refused :
    {c : Cbuf} (x : ℕ)
    → IsValid c
    → (Cbuf.push c x).0 ≡ false
    → (contents (Cbuf.push c x).1 ≡ contents c)
      × (count (Cbuf.push c x).1 ≡ count c)
      × (c.maxlen - 1 ≡ count c)
unfolding Queue.push
push_refused {c} x v h =
    ground
      (arith, push_refines x v, length-contents c, length-contents (Cbuf.push c x).1, count-lt v)

Put-grow :
    {c : Cbuf} (x : ℕ) (xs : Bytes) {out : ℕ × Cbuf}
    → IsValid c
    → (Cbuf.push c x).0 ≡ true
    → Put xs (Cbuf.push c x).1 out
    → Put (x ∷ xs) c (suc out.0, out.1)
Put-grow {c} x xs {out} v done ih = record {
  valid = ih.valid;
  size = ih.size ∙ maxlen-push c x;
  taken = omega (arith, ih.taken, push_taken x v done, maxlen-push c x);
  holds =
      ih.holds
      ∙ ap (λ q. q ++ take out.0 xs) (push_taken x v done).0
      ∙ append_assoc (contents c) (x ∷ []) _;
  counts = omega (arith, ih.counts, push_taken x v done);
}

Put-keep :
    {c : Cbuf} (x : ℕ) (xs : Bytes)
    → IsValid c
    → (Cbuf.push c x).0 ≡ false
    → Put (x ∷ xs) c (0, (Cbuf.push c x).1)
Put-keep {c} x xs v refused = record {
  valid = push-IsValid x v;
  size = maxlen-push c x;
  taken = omega (arith, push_refused x v refused);
  holds = (push_refused x v refused).0 ∙ sym (append-nil (contents c));
  counts = omega (arith, push_refused x v refused);
}

-- The loop of `s_txPut` takes as many bytes as there is room for, and appends exactly those.
pub put_loop-Put : (xs : Bytes) {c : Cbuf} → IsValid c → Put xs c (put_loop xs c)
unfolding put_loop
put_loop-Put [] {c} v = record {
  valid = v;
  size = refl;
  taken = omega arith;
  holds = sym (append-nil (contents c));
  counts = omega arith;
}
put_loop-Put (x ∷ xs) {c} v =
    let ih = put_loop-Put xs (push-IsValid x v) in
    elim (Bool-cases (Cbuf.push c x).0) [
      | inl done ↦ rw done (Put-grow x xs v done ih)
      | inr refused ↦ rw refused (Put-keep x xs v refused)
    ]

-- What a loop of pops has done: the bytes in front, as many as asked for where there are as many.
pub record Took (sz : ℕ) (c : Cbuf) (out : Bytes × Cbuf) : Type 0 where
  pub valid : IsValid out.1
  pub size : out.1.maxlen ≡ c.maxlen
  pub amount : length out.0 ≡ min sz (count c)
  pub split : out.0 ++ contents out.1 ≡ contents c
  pub counts : count out.1 + length out.0 ≡ count c

queue_some :
    (b : ℕ) (q r : Bytes) (done : Bool) (out : Option ℕ)
    → (done, out, r) ≡ Queue.pop q
    → out ≡ some b
    → q ≡ b ∷ r
unfolding Queue.pop
queue_some b [] r done out e h = ground arith
queue_some b (x ∷ q) r done out e h = ground arith

queue_none :
    (q r : Bytes) (done : Bool) (out : Option ℕ)
    → (done, out, r) ≡ Queue.pop q
    → out ≡ none
    → (q ≡ []) × (r ≡ [])
unfolding Queue.pop
queue_none [] r done out e h = ground arith
queue_none (x ∷ q) r done out e h = ground arith

pop-some :
    {c : Cbuf} (b : ℕ)
    → IsValid c
    → (Cbuf.pop c).1 ≡ some b
    → (contents c ≡ b ∷ contents (Cbuf.pop c).2) × (count c ≡ count (Cbuf.pop c).2 + 1)
pop-some {c} b v h =
    let e = queue_some b (contents c) _ _ _ (pop_refines v) h in
    (e, omega (arith, ap length e, length-contents c, length-contents (Cbuf.pop c).2))

pop-none :
    {c : Cbuf}
    → IsValid c
    → (Cbuf.pop c).1 ≡ none
    → (contents (Cbuf.pop c).2 ≡ contents c) × (count c ≡ 0) × (count (Cbuf.pop c).2 ≡ 0)
pop-none {c} v h =
    let (e, e') = queue_none (contents c) _ _ _ (pop_refines v) h in
    (
      e' ∙ sym e,
      omega (arith, ap length e, length-contents c),
      omega (arith, ap length e', length-contents (Cbuf.pop c).2),
    )

Took-more :
    {c : Cbuf} (n b : ℕ) {out : Bytes × Cbuf}
    → IsValid c
    → (Cbuf.pop c).1 ≡ some b
    → Took n (Cbuf.pop c).2 out
    → Took (suc n) c (b ∷ out.0, out.1)
Took-more {c} n b {out} v e ih = record {
  valid = ih.valid;
  size = ih.size ∙ maxlen-pop c;
  amount = omega (arith, ih.amount, pop-some b v e);
  split = ap (λ q. b ∷ q) ih.split ∙ sym (pop-some b v e).0;
  counts = omega (arith, ih.counts, pop-some b v e);
}

Took-none :
    {c : Cbuf} (n : ℕ) → IsValid c → (Cbuf.pop c).1 ≡ none → Took (suc n) c ([], (Cbuf.pop c).2)
Took-none {c} n v e = record {
  valid = pop-IsValid v;
  size = maxlen-pop c;
  amount = omega (arith, pop-none v e);
  split = (pop-none v e).0;
  counts = omega (arith, pop-none v e);
}

-- The loop of `s_txTake` takes the bytes in front, as many as asked for where there are as many.
pub take_loop-Took : (sz : ℕ) {c : Cbuf} → IsValid c → Took sz c (take_loop sz c)
unfolding take_loop
take_loop-Took zero {c} v = record {
  valid = v;
  size = refl;
  amount = omega arith;
  split = refl;
  counts = omega arith;
}
take_loop-Took (suc n) {c} v =
    let ih = take_loop-Took n (pop-IsValid v) in
    elim (Option-cases (Cbuf.pop c).1) [
      | inr (b, e) ↦ rw (e, take_loop) (Took-more n b v e ih)
      | inl e ↦ rw (e, take_loop) (Took-none n v e)
    ]
