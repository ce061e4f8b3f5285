-- ===== src/Sockets/Tests.antt =====
-- The sockets on the sample device: their properties at concrete inputs.
use cr_lte_modem.Base.{
  ℕ, zero, suc, ◌+◌, ◌<◌, ◌≡◌, refl, none, some, [], ◌∷◌, arith, length, replicate,
}
use cr_lte_modem.CString.{Bytes, codes, decimal, decimal_from}
use cr_lte_modem.Device.{RxBuf, Ltem, ret}
use cr_lte_modem.Sockets.Work.{parse_ird, check_ready, sckt_do_work, next_wait}
use cr_lte_modem.Sockets.Ird.{answer, header_sz, Flow, check_ready-answer}
use cr_lte_modem.Sockets.Delivery.{Arrived, Delivered}
use cr_lte_modem.Sockets.Quiet.{Quiet}
use cr_lte_modem.Sockets.Round.{Alone, sckt_do_work-Delivered}
use cr_lte_modem.Host.{timer_expired}
use cr_lte_modem.Iop.Rx.{slot}
use cr_lte_modem.Bench.{small_rx, sample_iop, open_socket, closed_socket, sample}

-- two bytes of data, and the trailer behind them
abbrev trailer : Bytes
trailer = codes "\r\n\r\nOK\r\n"

abbrev full_buf : RxBuf
full_buf = record small_rx { mem = answer 2 (codes "hi") trailer; head = 22; data_peer = 0 }

abbrev receiving : Ltem
receiving = record sample {
  iop = record sample_iop {
    rx_data_peer = 0;
    rx_data_buf_indx = 0;
    rx_data_bufs = some full_buf ∷ none ∷ none ∷ [];
  };
}

digits_of_two : length (decimal 2) ≡ 1
unfolding decimal decimal_from
digits_of_two = refl

whole_answer : 22 ≡ header_sz 2 + (2 + 8)
whole_answer = omega (arith, digits_of_two)

full_buf-Arrived :
    Arrived 2
      (codes "hi")
      trailer
      full_buf
      open_socket
      (open_socket ∷ replicate 5 closed_socket)
      7
      receiving
full_buf-Arrived = record {
  text = refl;
  size = refl;
  not_empty = omega arith;
  word = omega arith;
  whole = whole_answer;
  unread = refl;
  socket = omega arith;
  peer = refl;
  buffer = refl;
  controls = refl;
  control = refl;
  kept = refl;
  receiver = refl;
}

none_behind : (j : ℕ) → 0 < j → Quiet (slot receiving.iop.rx_data_bufs j)
none_behind zero h = absurd (omega arith)
none_behind (suc zero) h = tt
none_behind (suc (suc zero)) h = tt
none_behind (suc (suc (suc j))) h = tt

receiving-Alone : Alone (open_socket ∷ replicate 5 closed_socket) receiving
unfolding timer_expired
receiving-Alone = record {
  place = omega arith;
  before = λ j h. absurd (omega (arith, h));
  behind = none_behind;
  in_time = refl;
  six = refl;
}

sckt_do_work-Delivered_example :
    (t : Ltem) × (sckt_do_work receiving ≡ ret tt t)
    × Delivered (codes "hi") open_socket 7 0 receiving t
sckt_do_work-Delivered_example = sckt_do_work-Delivered full_buf-Arrived receiving-Alone

check_ready-answer_example : Flow 2 (codes "hi") full_buf (check_ready (parse_ird full_buf))
check_ready-answer_example =
    check_ready-answer 2 (codes "hi") trailer full_buf refl (omega arith) refl

waits_three : next_wait (next_wait (next_wait 1)) ≡ 0
unfolding next_wait
waits_three = refl
