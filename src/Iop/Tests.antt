-- ===== src/Iop/Tests.antt =====
-- The input/output processor on the sample device: its properties at concrete inputs.
use cr_lte_modem.Base.{
  ℕ, zero, suc, min, ◌≡◌, refl, ◌≢◌, ◌⊎◌, true, Option, none, some, List, [], ◌∷◌, ◌++◌, arith,
  take, replicate,
}
use cr_lte_modem.CString.{codes, write_at}
use cr_lte_modem.Cbuf.{Cbuf}
use cr_lte_modem.Cbuf
use cr_lte_modem.Device.{RxBuf, Pass, Ltem, ret, stop, hung}
use cr_lte_modem.Iop.Tx.{put_loop, tx_put, take_loop, tx_take, bridge_write, send_loop, tx_send}
use cr_lte_modem.Iop.Tx.Stream.{TxValid, stream, room, tx_send-stream}
use cr_lte_modem.Iop.Tx.Stream.Progress.{Drains, Writes, tx_send_returns, tx_send_hangs}
use cr_lte_modem.Iop.Rx.{rx_store, find_owned, claim_free, get_data_buffer}
use cr_lte_modem.Iop.Rx.Owner.{
  Claims, Owned, Unowned, Single, owner, get_data_buffer-Claims, get_data_buffer-Single,
}
use cr_lte_modem.Iop.Rx.Store.{Stored, Clean, rx_store-Stored, rx_store-Clean}
use cr_lte_modem.Iop.Isr.{isr}
use cr_lte_modem.Iop.Urc.{discard_chunk, rx_parse_immediate}
use cr_lte_modem.Iop.Urc.Recv.{rx_parse_immediate-notice}
use cr_lte_modem.Iop.Frame.{Keeping}
use cr_lte_modem.Iop.Service.{SameStream, isr-stream}
use cr_lte_modem.Bench.{closed_socket, small_tx, small_rx, sample_iop, sample}

sample-TxValid : TxValid sample.iop
sample-TxValid = record {
  valid = record {
    storage = omega arith;
    small = omega arith;
    head_in = omega arith;
    tail_in = omega arith;
  };
  small = omega arith;
  pend = refl;
}

sample-Drains : Drains sample.tx_levels sample.tx_space
sample-Drains = record { sizes = tt; some_space = omega arith; size = omega arith }

-- One of two bytes finds room, and all three go out.
sent_state : Ltem
sent_state = record sample {
  iop = record sample_iop {
    tx_buf = record { buffer = 2 ∷ 9 ∷ 0 ∷ 1 ∷ []; head = 2; tail = 2; maxlen = 4 };
    tx_pend = 0;
  };
  sent = 1 ∷ 2 ∷ 9 ∷ [];
}

one_sent : tx_send (9 ∷ 8 ∷ []) 2 true sample ≡ ret 1 sent_state
unfolding tx_send tx_put put_loop send_loop tx_take take_loop bridge_write Cbuf.push Cbuf.pop
    sent_state
one_sent = refl

tx_send-stream_example :
    (1 ≡ min (min 2 2) (room sample.iop))
    × (stream sent_state ≡ stream sample ++ take 1 (take 2 (9 ∷ 8 ∷ [])))
    × TxValid sent_state.iop
tx_send-stream_example =
    tx_send-stream (9 ∷ 8 ∷ []) 2 true sample sent_state 1 sample-TxValid one_sent

tx_send_returns_example :
    (s' : Ltem) × (tx_send (9 ∷ 8 ∷ []) 2 true sample ≡ ret (min (min 2 2) (room sample.iop)) s')
    × Writes sample s'
tx_send_returns_example =
    tx_send_returns (9 ∷ 8 ∷ []) 2 sample sample-TxValid sample-Drains (omega arith)

abbrev idle : Ltem
idle = record sample {
  iop = record sample_iop { tx_buf = record small_tx { head = 3 }; tx_pend = 0 };
}

idle-TxValid : TxValid idle.iop
idle-TxValid = record {
  valid = record {
    storage = omega arith;
    small = omega arith;
    head_in = omega arith;
    tail_in = omega arith;
  };
  small = omega arith;
  pend = refl;
}

tx_send_hangs_example : tx_send [] 0 true idle ≡ stop hung
tx_send_hangs_example = tx_send_hangs idle idle-TxValid refl

abbrev owned_bufs : List (Option RxBuf)
owned_bufs = some (record small_rx { data_peer = 2 }) ∷ some small_rx ∷ none ∷ []

kept_buffer : (get_data_buffer 2 owned_bufs).1 ≡ 0
unfolding get_data_buffer find_owned
kept_buffer = refl

free_buffer : (get_data_buffer 3 owned_bufs).1 ≡ 1
unfolding get_data_buffer find_owned claim_free
free_buffer = refl

get_data_buffer-Claims_example :
    Claims 3 owned_bufs 0 (get_data_buffer 3 owned_bufs)
    × ((Owned 3 owned_bufs 0 (get_data_buffer 3 owned_bufs).1
          × ((get_data_buffer 3 owned_bufs).0 ≡ owned_bufs))
        ⊎ Unowned 3 owned_bufs)
get_data_buffer-Claims_example = get_data_buffer-Claims 3 owned_bufs

none_owned : Single (none ∷ none ∷ none ∷ [])
none_owned = λ p j k np oj ok. absurd (no_owner j oj)
  where
    no_owner : {p : ℕ} (j : ℕ) → owner (none ∷ none ∷ none ∷ []) j ≢ some p
    no_owner zero e = ground arith
    no_owner (suc zero) e = ground arith
    no_owner (suc (suc zero)) e = ground arith
    no_owner (suc (suc (suc j))) e = ground arith

get_data_buffer-Single_example : Single (get_data_buffer 3 (none ∷ none ∷ none ∷ [])).0
get_data_buffer-Single_example = get_data_buffer-Single 3 (none ∷ none ∷ none ∷ []) none_owned

rx_store-Stored_example :
    (b' : RxBuf) × (rx_store (codes "OK\r\n") small_rx ≡ some b')
    × Stored (codes "OK\r\n") small_rx b'
rx_store-Stored_example = rx_store-Stored (codes "OK\r\n") small_rx (omega arith)

abbrev half_full : RxBuf
half_full = record small_rx { mem = 79 ∷ 75 ∷ replicate 14 0; head = 2 }

stored : rx_store (79 ∷ 75 ∷ []) small_rx ≡ some half_full
unfolding rx_store write_at
stored = refl

rx_store-Clean_example : Clean half_full
rx_store-Clean_example = rx_store-Clean (79 ∷ 75 ∷ []) small_rx half_full refl stored

abbrev passes : List Pass
passes =
    record { source = 1; rx = []; tx_level = 1 }
    ∷ record { source = 2; rx = codes "OK\r\n"; tx_level = 64 }
    ∷ []

isr-stream_example : Keeping SameStream sample (isr passes sample)
isr-stream_example = isr-stream passes sample sample-TxValid

-- a notice for socket 4
abbrev noticed : Ltem
noticed = record sample {
  iop = record sample_iop {
    rx_cmd_buf = record small_rx { mem = codes "\r\n+QIURC: \"recv\",4\r\n"; head = 20 };
    peer_type_map = record (sample_iop.peer_type_map) { tcpudp_socket = 16 };
  };
  sockets = some (closed_socket ∷ []);
}

rx_parse_immediate-notice_example :
    rx_parse_immediate noticed
    ≡ ret tt (
        discard_chunk
          (record noticed { sockets = some (record closed_socket { data_pending = true } ∷ []) }))
rx_parse_immediate-notice_example =
    rx_parse_immediate-notice (codes "\",4\r\n") noticed closed_socket [] refl refl refl
