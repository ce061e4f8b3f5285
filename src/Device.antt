-- ===== src/Device.antt =====
-- The state behind `g_ltem` (src/ltemc.h and the structs that it points to), and the outcomes of a
-- call that changes it.
use cr_lte_modem.Base.{
  ℕ, ◌≡◌, refl, ◌⊎◌, inl, inr, Bool, Option, List, [], ◌∷◌, ◌++◌, ltb, if◌then◌else◌,
}
use cr_lte_modem.CString.{Bytes}
use cr_lte_modem.Cbuf.{Cbuf}
use cr_lte_modem.Parser.{Ptr, Parser}

-- `iopBuffer_t`: the storage and offsets into it. `tail` takes what a parser leaves in `*endptr`, so
-- it may be a pointer outside the storage. (`bufferEnd` is never set or read.)
pub record RxBuf : Type 0 where
  pub mem : Bytes
  pub head : ℕ
  pub prev_head : ℕ
  pub tail : Ptr
  pub data_peer : ℕ
  pub ird_sz : ℕ
  pub data_ready : Bool

-- `peerTypeMap_t`
pub record PeerTypeMap : Type 0 where
  pub pdp_context : ℕ
  pub tcpudp_socket : ℕ
  pub ssl_socket : ℕ
  pub mqtt_connection : ℕ
  pub mqtt_subscribe : ℕ

-- `iop_t`
pub record Iop : Type 0 where
  pub tx_buf : Cbuf
  pub tx_pend : ℕ
  pub rx_cmd_buf : RxBuf
  pub rx_data_peer : ℕ
  pub rx_data_buf_indx : ℕ
  pub rx_data_bufs : List (Option RxBuf)
  pub peer_type_map : PeerTypeMap

-- `atcmdHistory_t`
pub record AtcmdHistory : Type 0 where
  pub cmd_str : Bytes
  pub response : Bytes
  pub duration : ℕ
  pub status_code : ℕ

-- `atcmd_t`; strings stand for the `char` arrays, and `none` for a NULL parser. The field `response`
-- is never assigned, and stays NULL.
pub record Atcmd : Type 0 where
  pub cmd_str : Bytes
  pub is_open : Bool
  pub invoked_at : ℕ
  pub result_code : ℕ
  pub timeout_millis : ℕ
  pub last_action_error : AtcmdHistory
  pub parser : Option Parser

-- `socketCtrl_t`; a receiver function is known by a number.
pub record SocketCtrl : Type 0 where
  pub protocol : ℕ
  pub socket_id : ℕ
  pub open_flag : Bool
  pub flushing : Bool
  pub data_pending : Bool
  pub data_buffer_indx : ℕ
  pub pdp_context_id : ℕ
  pub receiver_func : Option ℕ

-- `mqttSubscription_t`
pub record Subscription : Type 0 where
  pub topic_name : Bytes
  pub wildcard : ℕ
  pub receiver_func : Option ℕ

-- `mqtt_t`; `first_chunk_begin` is an offset into the command buffer.
pub record Mqtt : Type 0 where
  pub state : ℕ
  pub msg_id : ℕ
  pub subscriptions : List Subscription
  pub first_chunk_begin : ℕ
  pub first_chunk_sz : ℕ
  pub data_buffer_indx : ℕ

-- `pdpCntxt_t`
pub record PdpCntxt : Type 0 where
  pub context_id : ℕ
  pub ip_type : ℕ
  pub ip_address : Bytes

-- `networkOperator_t`: the memory of the name's array, and the mode as a string
pub record NetworkOperator : Type 0 where
  pub oper_name : Bytes
  pub ntwk_mode : Bytes

-- `modemInfo_t`; strings stand for the `char` arrays.
pub record ModemInfo : Type 0 where
  pub imei : Bytes
  pub iccid : Bytes
  pub mfgmodel : Bytes
  pub fwver : Bytes

-- What the driver hands to a receiver function of the application: the data of a socket (with the
-- socket's number), or an MQTT message with its topic and properties.
pub data Delivery : Type 0 where
  socket_data : ℕ → ℕ → Bytes → Delivery
  mqtt_message : ℕ → Bytes → Bytes → Bytes → Delivery

-- What one round of the interrupt service routine finds in the registers of the UART bridge: the
-- interrupt source, the bytes in the receive FIFO, and the space in the transmit FIFO.
pub record Pass : Type 0 where
  pub source : ℕ
  pub rx : Bytes
  pub tx_level : ℕ

-- What happens while the driver waits: the milliseconds that go by, whether the application (in its yield
-- callback `platform_yieldCB_func`, or in another task) requests to cancel, and the rounds of an
-- interrupt (none: no interrupt).
pub record Event : Type 0 where
  pub elapsed : ℕ
  pub cancels : Bool
  pub passes : List Pass

-- `ltemDevice_t`, the variables of src/ltemc-sockets.c (`irdReqstAt`, `irdWait`; `irdNextSckt` stays
-- 0), and the world around them: the clock in milliseconds, the status pin and its level at each read
-- to come while the modem is switched on or off, whether the bridge answers over SPI, what TXLVL reports
-- at each poll to come and then for good, the memory at address 0, what is still to happen, the bytes written to the bridge, the notifications and the data handed to the
-- application (these latest last), and the byte that an uninitialised variable holds. `sockets` and
-- `mqtt` are none until their `create`.
pub record Ltem : Type 0 where
  pub qbg_ready_state : ℕ
  pub data_context : ℕ
  pub iop : Iop
  pub atcmd : Atcmd
  pub cancellation_request : Bool
  pub pdp_cntxts : List PdpCntxt
  pub network_operator : NetworkOperator
  pub modem_info : ModemInfo
  pub sockets : Option (List SocketCtrl)
  pub mqtt : Option Mqtt
  pub ird_reqst_at : ℕ
  pub ird_wait : ℕ
  pub now : ℕ
  pub hw_ready : Bool
  pub status_levels : List Bool
  pub comm_ready : Bool
  pub tx_levels : List ℕ
  pub tx_space : ℕ
  pub low_mem : Bytes
  pub schedule : List Event
  pub sent : Bytes
  pub notices : List ℕ
  pub deliveries : List Delivery
  pub garbage : ℕ

-- Why a call does not return: the code spins for ever, its behaviour is undefined (a write past an
-- array, a call through NULL), or the fuel of the model ran out.
pub data Stop : Type 0 where
  hung undefined out_of_fuel : Stop

pub data Outcome (A : Type 0) : Type 0 where
  ret : A → Ltem → Outcome A
  stop : Stop → Outcome A

abbrev pub M : Type 0 → Type 0
M A = Ltem → Outcome A

abbrev pub pure : {A : Type 0} → A → M A
pure a s = ret a s

infixl 5 ◌>>=◌ ◌>>◌
abbrev pub ◌>>=◌ : {A B : Type 0} → M A → (A → M B) → M B
◌>>=◌ m f s = elim (m s) [ ret a s' ↦ f a s' | stop w ↦ stop w ]

abbrev pub ◌>>◌ : {A B : Type 0} → M A → M B → M B
m >> k = m >>= λ _. k

abbrev pub get : M Ltem
get s = ret s s

abbrev pub modify : (Ltem → Ltem) → M (Unit {0})
modify f s = ret tt (f s)

abbrev pub fail : {A : Type 0} → Stop → M A
fail w s = stop w

-- sizes and codes of src/ltemc-iop.h and src/lqTypes.h
abbrev pub tx_buffer_sz : ℕ
tx_buffer_sz = 1460

abbrev pub cmdbuf_sz : ℕ
cmdbuf_sz = 256

abbrev pub databuf_sz : ℕ
databuf_sz = 2048

abbrev pub no_buffer : ℕ
no_buffer = 255

abbrev pub peer_none : ℕ
peer_none = 255

abbrev pub peer_mqtt : ℕ
peer_mqtt = 6

abbrev pub socket_cnt : ℕ
socket_cnt = 6

abbrev pub ready_app_ready : ℕ
ready_app_ready = 2

abbrev pub notif_catastrophic : ℕ
notif_catastrophic = 200

abbrev pub notif_hw_not_ready : ℕ
notif_hw_not_ready = 203

-- `ltem_notifyApp`: from a type above CATASTROPHIC it does not come back.
unfoldable pub notify_app : ℕ → M (Unit {0})
notify_app notif_type s =
    if ltb notif_catastrophic notif_type
    then stop hung
    else ret tt (record s { notices = s.notices ++ notif_type ∷ [] })

-- To take outcomes apart.
pub ret-injective : {A : Type 0} {a b : A} {s t : Ltem} → ret a s ≡ ret b t → (a ≡ b) × (s ≡ t)
ret-injective h = (cc, cc)

pub Outcome-cases :
    {A : Type 0} (o : Outcome A)
    → ((a : A) × (s : Ltem) × (o ≡ ret a s)) ⊎ ((w : Stop) × (o ≡ stop w))
Outcome-cases (ret a s) = inl (a, s, refl)
Outcome-cases (stop w) = inr (w, refl)
