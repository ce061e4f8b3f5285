-- ===== src/Startup/Driver.antt =====
-- The driver as a whole: `iop_create` of src/ltemc-iop.c and src/ltemc.c. The pins, the SPI interface
-- and the registers of the bridge are not part of the state, so what sets them up changes nothing here.
use cr_lte_modem.Base.{ℕ, Bool, false, Option, none, some, [], ◌∷◌, if◌then◌else◌, replicate, bit}
use cr_lte_modem.Cbuf.{Cbuf}
use cr_lte_modem.Device.{
  Atcmd, Ltem, M, ret, stop, ◌>>=◌, ◌>>◌, tx_buffer_sz, cmdbuf_sz, databuf_sz, no_buffer, peer_none,
  ready_app_ready, notif_hw_not_ready, notify_app,
}
use cr_lte_modem.Iop.Rx.{rx_buf_create}
use cr_lte_modem.Network.{ntwk_create}
use cr_lte_modem.Sockets.Work.{sckt_do_work}
use cr_lte_modem.Mqtt.Work.{mqtt_do_work}
use cr_lte_modem.Startup.{
  ready_power_off, set_ready, read_status, power_on, qbg_reset, await_app_ready, qbg_start,
}

abbrev pub notif_hard_fault : ℕ
notif_hard_fault = 255

-- `s_txBufCreate`, where the allocation succeeds
unfoldable pub tx_buf_create : Cbuf
tx_buf_create = record {
  buffer = replicate tx_buffer_sz 0;
  head = 0;
  tail = 0;
  maxlen = tx_buffer_sz;
}

-- `iop_create`: one data buffer, in the first of the slots
unfoldable pub iop_create : M (Unit {0})
unfolding tx_buf_create
iop_create s = ret tt (record s {
  iop = record {
    tx_buf = tx_buf_create;
    tx_pend = 0;
    rx_cmd_buf = rx_buf_create cmdbuf_sz;
    rx_data_peer = peer_none;
    rx_data_buf_indx = no_buffer;
    rx_data_bufs = some (rx_buf_create databuf_sz) ∷ none ∷ none ∷ [];
    peer_type_map = record {
      pdp_context = 0;
      tcpudp_socket = 0;
      ssl_socket = 0;
      mqtt_connection = 0;
      mqtt_subscribe = 0;
    };
  };
})

-- an `atcmd_t` from `calloc`
abbrev pub blank_atcmd : Atcmd
blank_atcmd = record {
  cmd_str = [];
  is_open = false;
  invoked_at = 0;
  result_code = 0;
  timeout_millis = 0;
  last_action_error = record { cmd_str = []; response = []; duration = 0; status_code = 0 };
  parser = none;
}

-- `ltem_create`: a new device in the world as it is
unfoldable pub ltem_create : M (Unit {0})
unfolding iop_create
ltem_create s = (iop_create >> ntwk_create) (record s {
  qbg_ready_state = ready_power_off;
  data_context = 1;
  atcmd = blank_atcmd;
  cancellation_request = false;
  modem_info = record { imei = []; iccid = []; mfgmodel = []; fwver = [] };
  sockets = none;
  mqtt = none;
})

-- whether a protocol is asked for (bit 0 sockets, bit 1 MQTT) that has not been created
unfoldable pub missing : {A : Type 0} → ℕ → ℕ → Option A → Bool
missing k bit_map none = bit k bit_map
missing k bit_map (some a) = false

abbrev pub fault_if : Bool → M (Unit {0})
fault_if b s = if b then notify_app notif_hard_fault s else ret tt s

-- `ltem_start`
unfoldable pub ltem_start : ℕ → ℕ → M (Unit {0})
unfolding missing
ltem_start fuel protocol_bit_map = do
  λ s. fault_if (missing 0 protocol_bit_map s.sockets) s
  λ s. fault_if (missing 1 protocol_bit_map s.mqtt) s
  power_on >>= λ before s. ret tt (if before then set_ready ready_app_ready s else s)
  await_app_ready fuel
  qbg_start fuel

-- `ltem_reset`
unfoldable pub ltem_reset : ℕ → M (Unit {0})
unfolding ltem_start
ltem_reset fuel = qbg_reset >> ltem_start fuel 0

-- `ltem_chkHwReady` is a read of the status pin; `ltem_getReadyState`
unfoldable pub get_ready_state : Ltem → ℕ
get_ready_state s = s.qbg_ready_state

-- `ltem_stop`; the repository does not have `bg96_powerOff`: a parameter.
unfoldable pub ltem_stop : M (Unit {0}) → M (Unit {0})
ltem_stop bg96_power_off s = bg96_power_off (set_ready ready_power_off s)

-- the work function of a protocol, which its `create` has registered
abbrev pub run_work : {A : Type 0} → Option A → M (Unit {0}) → M (Unit {0})
run_work none work s = ret tt s
run_work (some a) work s = work s

-- `ltem_doWork`
unfoldable pub ltem_do_work : M (Unit {0})
ltem_do_work s = elim (read_status s) [
  | stop w ↦ stop w
  | ret ready t ↦
      (do
        λ s. if ready then ret tt s else notify_app notif_hw_not_ready s
        λ s. run_work s.sockets sckt_do_work s
        λ s. run_work s.mqtt mqtt_do_work s)
        t
]
