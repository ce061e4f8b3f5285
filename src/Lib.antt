-- ===== src/Lib.antt =====
-- A model of the LTEm1 modem driver (src/): the circular transmit buffer, the input/output
-- processor with its interrupt service routine, the AT command processor with its completion parsers,
-- the sockets, the MQTT client, the network contexts, the modem's information, files and positions, the
-- registers of the UART bridge, and the start of the modem.
--
-- The parts. An application (or a service of the driver) starts an AT command with
-- `atcmd_tryInvoke`, whose text `iop_txSend` queues in a circular buffer and hands to the UART bridge;
-- the interrupt service routine moves the rest of the buffer to the bridge and the received bytes to
-- the command buffer or to the data buffer of a peer, and `iop_rxParseImmediate` looks in them for
-- unsolicited messages; `atcmd_awaitResult` polls the command buffer with the completion parser of the
-- command until a result, a timeout or a request to cancel. Sockets and MQTT send their commands this
-- way; their work loops take complete data buffers over from the input/output processor and call the
-- receivers of the application.
--
-- The files.
--   Base       shared notation: Boolean tests, lists over the native numbers, machine words.
--   Cbuf       src/ltemc-cbuf.c: `cbuf_push`, `cbuf_pop` (push, pop); the queue that they implement.
--   CString    the C string functions that the driver calls, over lists of bytes.
--   Parser     the completion parsers of src/ltemc-atcmd.c (`atcmd_defaultResultParser` and the others)
--              and `iop_txDataPromptParser`.
--   Device     the structs behind `g_ltem` as one record `Ltem`, the outcomes of a call, and
--              `ltem_notifyApp`.
--   Iop        src/ltemc-iop.c: Tx (`s_txPut`, `s_txTake`, `iop_txSend`), Rx (`s_rxBufCreate`,
--              `s_rxBufReset`, `s_getDataBuffer`), Urc (`iop_rxParseImmediate`), Isr
--              (`s_interruptCallbackISR`).
--   Host       src/platform/arduino-timing.cpp: clock, yield, delay and timer; Arrival has events with
--              chunks for the command buffer.
--   Command    src/ltemc-atcmd.c: lock and invocation of a command; Poll has `atcmd_getResult` and
--              `atcmd_awaitResult`, Run what the services do with a command, Cancelled a request to
--              cancel.
--   Sockets    src/ltemc-sockets.c: the pieces of `sckt_open`; Shut is `sckt_close` and
--              `sckt_closeAll`, Transfer flush, state and send, Work `sckt_doWork` and `sckt_open`.
--   Mqtt       src/ltemc-mqtt.c: parsers and `mqtt_close`; Open has `mqtt_status` and `mqtt_open`,
--              Connect `mqtt_connect`, Topics `mqtt_subscribe`, `mqtt_unsubscribe` and
--              `mqtt_publish`, Work `mqtt_doWork`.
--   Token      the tokenizers `atcmd_strToken` and `s_grabToken`.
--   Network    src/ltemc-network.c: the PDP contexts; Operator has `s_getNetworkOperator` and
--              `ntwk_awaitOperator`.
--   ModemInfo  src/ltemc-mdminfo.c: `mdminfo_ltem`; Signal has `mdminfo_rssi` and `mdminfo_rssiBars`.
--   Files      src/ltemc-filesys.c.
--   Location   src/ltemc-gnss.c; Fence is src/ltemc-geo.c.
--   Bridge     src/ltemc-nxp-sc16is.c and .h: register layouts, and reads and writes by SPI transfers.
--   Startup    src/ltemc-quectel-bg.c and `iop_awaitAppReady`; Driver has `iop_create` and src/ltemc.c.
--   Bench      a device state for the tests.
--
-- The state. A function that changes `g_ltem` is a function from `Ltem` to an outcome: a value with the
-- state after, or a stop, where the code spins for ever, runs into undefined behaviour (a write past an
-- array, a use of NULL), or the model's fuel is spent. Offsets stand for the pointers into a buffer, and
-- `Ptr` for those that may lie outside of it. What the driver waits for is data of the state: the
-- schedule of events (time going by, interrupts with what they find in the registers), the space in
-- the FIFO at each poll of TXLVL, and what TXLVL reads behind these polls. A receiver of the application
-- is known by a number, and a call of it is an entry of a list of deliveries. A yield runs the next event;
-- interrupts, and the application's requests to cancel (in the callback that `lYield` calls, or in
-- another task), take place at yields and delays only.
--
-- Fuel. The rounds of `atcmd_awaitResult` are on fuel; it is enough to have one round for each event
-- and each millisecond of the timeout, since behind the schedule the clock goes on by one each round.
-- `s_urlDecode` has a round for each byte of its text, `%d` ten digits, and the loop of
-- `atcmd_tokenResultParser` a round for each byte of the response, each of which moves on by a byte; so
-- has the loop over the contexts, each round of which moves on by eight. The wait of
-- `iop_awaitAppReady` has a round for each event and each of its 5000 milliseconds.
-- `ntwk_awaitOperator` has fuel for its rounds, too, of which the code makes no more than one. The other
-- loops are structural recursion.
--
-- Not modelled: what the application's yield callback does but request to cancel, the output pins and
-- the SPI interface, debug output, memory allocation (it succeeds) and its release, and the modem itself, which is the schedule of events and the levels of the status
-- pin. What the repository does not have is a parameter: the bytes that the bridge answers on its SPI
-- lines, the numbers of C's `float` and `double` with `strtof` and `%4.6f`, and the functions
-- `ntwk_getActivePdpContexts`, `bg96_powerOff` and `ip_close`, which are called and nowhere defined.
pub mod Base
pub mod Cbuf
pub mod CString
pub mod Parser
pub mod Token
pub mod Device
pub mod Bench
pub mod Iop
pub mod Host
pub mod Command
pub mod Sockets
pub mod Mqtt
pub mod Network
pub mod ModemInfo
pub mod Files
pub mod Location
pub mod Bridge
pub mod Startup
