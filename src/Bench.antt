-- ===== src/Bench.antt =====
-- A device state to try the definitions on: a transmit buffer of four bytes that holds two, an empty
-- command buffer, three empty slots for data buffers, six sockets of which the first is open, and
-- an open command whose timer runs.
use cr_lte_modem.Base.{true, false, none, some, [], ◌∷◌, replicate}
use cr_lte_modem.CString.{codes}
use cr_lte_modem.Cbuf.{Cbuf}
use cr_lte_modem.Parser.{at, ok_result_parser, result_pending}
use cr_lte_modem.Device.{RxBuf, Iop, Atcmd, SocketCtrl, Subscription, Mqtt, Ltem}

-- bytes 1 and 2, the second behind the wrap
abbrev pub small_tx : Cbuf
small_tx = record { buffer = 2 ∷ 0 ∷ 0 ∷ 1 ∷ []; head = 1; tail = 3; maxlen = 4 }

abbrev pub small_rx : RxBuf
small_rx = record {
  mem = replicate 16 0;
  head = 0;
  prev_head = 0;
  tail = at 0;
  data_peer = 255;
  ird_sz = 0;
  data_ready = false;
}

abbrev pub sample_iop : Iop
sample_iop = record {
  tx_buf = small_tx;
  tx_pend = 2;
  rx_cmd_buf = small_rx;
  rx_data_peer = 255;
  rx_data_buf_indx = 255;
  rx_data_bufs = none ∷ none ∷ none ∷ [];
  peer_type_map = record {
    pdp_context = 0;
    tcpudp_socket = 0;
    ssl_socket = 0;
    mqtt_connection = 0;
    mqtt_subscribe = 0;
  };
}

abbrev pub sample_atcmd : Atcmd
sample_atcmd = record {
  cmd_str = codes "AT";
  is_open = true;
  invoked_at = 10;
  result_code = result_pending;
  timeout_millis = 5;
  last_action_error = record { cmd_str = []; response = []; duration = 0; status_code = 0 };
  parser = some (ok_result_parser []);
}

abbrev pub closed_socket : SocketCtrl
closed_socket = record {
  protocol = 0;
  socket_id = 255;
  open_flag = false;
  flushing = false;
  data_pending = false;
  data_buffer_indx = 255;
  pdp_context_id = 0;
  receiver_func = none;
}

abbrev pub open_socket : SocketCtrl
open_socket = record {
  protocol = 0;
  socket_id = 0;
  open_flag = true;
  flushing = false;
  data_pending = false;
  data_buffer_indx = 255;
  pdp_context_id = 1;
  receiver_func = some 7;
}

abbrev pub no_subscription : Subscription
no_subscription = record { topic_name = []; wildcard = 0; receiver_func = none }

abbrev pub sample_mqtt : Mqtt
sample_mqtt = record {
  state = 0;
  msg_id = 0;
  subscriptions = replicate 2 no_subscription;
  first_chunk_begin = 0;
  first_chunk_sz = 0;
  data_buffer_indx = 255;
}

abbrev pub sample : Ltem
sample = record {
  qbg_ready_state = 2;
  data_context = 1;
  iop = sample_iop;
  atcmd = sample_atcmd;
  cancellation_request = false;
  pdp_cntxts = replicate 3 (record { context_id = 0; ip_type = 1; ip_address = [] });
  network_operator = record { oper_name = replicate 29 0; ntwk_mode = [] };
  modem_info = record { imei = []; iccid = []; mfgmodel = []; fwver = [] };
  sockets = some (open_socket ∷ replicate 5 closed_socket);
  mqtt = some sample_mqtt;
  ird_reqst_at = 0;
  ird_wait = 0;
  now = 12;
  hw_ready = true;
  status_levels = [];
  comm_ready = true;
  tx_levels = [];
  tx_space = 64;
  low_mem = [];
  schedule = [];
  sent = [];
  notices = [];
  deliveries = [];
  garbage = 0;
}
