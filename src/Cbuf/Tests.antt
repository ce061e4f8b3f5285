-- ===== src/Cbuf/Tests.antt =====
-- Runs of the circular buffer, and its properties at a buffer of four bytes that holds two.
use cr_lte_modem.Base.{◌-◌, ◌≡◌, refl, false, arith}
use cr_lte_modem.Cbuf.{push, pop}
use cr_lte_modem.Cbuf.Queue
use cr_lte_modem.Cbuf.Inv.{IsValid}
use cr_lte_modem.Cbuf.Refine.{contents, push_refines, pop_refines}
use cr_lte_modem.Bench.{small_tx}

small_tx-IsValid : IsValid small_tx
small_tx-IsValid = record {
  storage = omega arith;
  small = omega arith;
  head_in = omega arith;
  tail_in = omega arith;
}

push_wraps : (push small_tx 9).1.head ≡ 2
unfolding push
push_wraps = refl

-- the fourth byte of the storage is never used
third_refused : (push (push small_tx 9).1 8).0 ≡ false
unfolding push
third_refused = refl

push_refines_example :
    let (done, c') = push small_tx 9 in
    (done, contents c') ≡ Queue.push (4 - 1) (contents small_tx) 9
push_refines_example = push_refines 9 small_tx-IsValid

pop_refines_example :
    let (done, out, c') = pop small_tx in (done, out, contents c') ≡ Queue.pop (contents small_tx)
pop_refines_example = pop_refines small_tx-IsValid
