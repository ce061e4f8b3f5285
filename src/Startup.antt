-- ===== src/Startup.antt =====
-- src/ltemc-quectel-bg.c and `iop_awaitAppReady` of src/ltemc-iop.c: the modem switched on, off and
-- reset, and its first commands. The status pin is read from the levels that the world has in store, and
-- then stays as it is. An interrupt before the service routine is attached is an event with no rounds.
pub mod Driver
pub mod Ready
pub mod Notice
mod Tests
use cr_lte_modem.Base.{
  ℕ, zero, suc, ◌+◌, ◌-◌, ◌*◌, ◌/◌, ◌%◌, ◌^◌, ◌≤◌, ◌<◌, min, ◌≡◌, refl, sym, ap, ap₂, ◌∙◌, ◌≢◌, ◌↔◌,
  ◌⊎◌, inl, inr, Bool, true, false, not, ◌&&◌, ◌||◌, Option, none, some, List, [], ◌∷◌, ◌++◌, map,
  append-nil, append_assoc, arith, ltb, leb, ◌==◌, if◌then◌else◌, ltb→lt, lt→ltb, leb→le, ==_iff,
  if-elim, Bool-cases, Option-cases, length, get_elem?, get_or, set, take, drop, replicate,
  length-append, length-set, length-take, length-drop, length-replicate, take-append-drop,
  take-append, drop-append, drop-append_le, drop-add, drop-append_add, get_elem?-eq-get_or,
  get_or-set_self, get_or-set_ne, take-nil, List-cases, bit, bit-bits_or, bit-bits_and,
  bit-bits_and_not, bit-not_zero, bit-pow, bits_or, bits_and, bits_and_not, u8, u16, u32, sub16,
  sub32,
}
use cr_lte_modem.CString.{Bytes, codes, decimal, snprintf}
use cr_lte_modem.Parser.{result_success}
use cr_lte_modem.Device.{
  Event, Ltem, M, ret, stop, hung, out_of_fuel, ◌>>=◌, ◌>>◌, pure, modify, ready_app_ready,
  notify_app,
}
use cr_lte_modem.Host.{millis, yield, delay}
use cr_lte_modem.Iop.Tx.{tx_send}
use cr_lte_modem.Command.{try_invoke}
use cr_lte_modem.Command.Poll.{AtcmdResult, await_result}

abbrev pub ready_power_off : ℕ
ready_power_off = 0

abbrev pub ready_power_on : ℕ
ready_power_on = 1

abbrev pub notif_hw_init_failed : ℕ
notif_hw_init_failed = 204

abbrev pub appready_millismax : ℕ
appready_millismax = 5000

abbrev pub poweron_delay : ℕ
poweron_delay = 500

abbrev pub poweroff_delay : ℕ
poweroff_delay = 1500

-- DFLT_ATBUFSZ
abbrev pub dflt_atbufsz : ℕ
dflt_atbufsz = 40

-- `gpio_readPin` of the status pin
unfoldable pub read_status : M Bool
read_status s = elim s.status_levels [
  | [] ↦ ret s.hw_ready s
  | level ∷ levels ↦ ret level (record s { status_levels = levels })
]

abbrev pub set_ready : ℕ → Ltem → Ltem
set_ready state s = record s { qbg_ready_state = state }

-- the loop of `qbg_powerOn`, with the attempts that are left
unfoldable pub await_power : ℕ → M Bool
await_power zero s = ret false s
await_power (suc attempts) s = elim (read_status s) [
  | stop w ↦ stop w
  | ret true t ↦ ret false (set_ready ready_power_on t)
  | ret false t ↦ elim (delay 500 t) [ stop w ↦ stop w | ret _ u ↦ await_power attempts u ]
]

-- `qbg_powerOn`: whether the modem was on before
unfoldable pub power_on : M Bool
unfolding await_power
power_on s = elim (read_status s) [
  | stop w ↦ stop w
  | ret true t ↦ ret true (set_ready ready_power_on t)
  | ret false t ↦ (delay poweron_delay >>= λ _. await_power 10) t
]

-- A wait until the status pin has a level, with the levels still to be read; behind them the pin does
-- not change, so the loop ends at once or never.
unfoldable pub await_pin : Bool → List Bool → M (Unit {0})
await_pin wanted [] s =
    let last = if wanted then s.hw_ready else not s.hw_ready in if last then ret tt s else stop hung
await_pin wanted (level ∷ levels) s =
    let there = if wanted then level else not level in
    elim there [
      | true ↦ ret tt (record s { status_levels = levels })
      | false ↦ elim (delay 500 (record s { status_levels = levels })) [
        | stop w ↦ stop w
        | ret _ t ↦ await_pin wanted levels t
      ]
    ]

-- `qbg_powerOff`
unfoldable pub power_off : M (Unit {0})
unfolding await_pin
power_off = delay poweroff_delay >> λ s. await_pin false s.status_levels s

-- `qbg_reset`: the size of the second text leaves out its carriage return.
unfoldable pub qbg_reset : M (Unit {0})
unfolding await_pin
qbg_reset s =
    (do
      tx_send (codes "AT\r") 3 true
      tx_send (codes "AT+CFUN=1,1\r") 11 true
      λ t. await_pin true t.status_levels t)
      (set_ready ready_power_on s)

-- whether the time is up, as the code computes it: the end of the wait wraps with the clock
abbrev pub overdue : ℕ → Ltem → Bool
overdue start s = ltb (u32 (start + appready_millismax)) (millis s)

-- The loop of `iop_awaitAppReady`, with fuel for its rounds.
unfoldable pub app_ready_rounds : ℕ → ℕ → M (Unit {0})
app_ready_rounds zero start s =
    if ltb s.qbg_ready_state ready_app_ready then stop out_of_fuel else ret tt s
app_ready_rounds (suc fuel) start s = elim (ltb s.qbg_ready_state ready_app_ready) [
  | false ↦ ret tt s
  | true ↦ elim (yield s) [
    | stop w ↦ stop w
    | ret _ t ↦ elim (overdue start t) [
      | false ↦ app_ready_rounds fuel start t
      | true ↦ elim (notify_app notif_hw_init_failed t) [
        | stop w ↦ stop w
        | ret _ u ↦ app_ready_rounds fuel start u
      ]
    ]
  ]
]

-- `iop_awaitAppReady`
unfoldable pub await_app_ready : ℕ → M (Unit {0})
unfolding app_ready_rounds
await_app_ready fuel s = app_ready_rounds fuel (millis s) s

-- A try of `qbg_start`: an empty command, and the one command of the table; `failed` where that does
-- not succeed.
unfoldable pub init_bgx : ℕ → M (Unit {0}) → M (Unit {0})
init_bgx fuel failed s =
    elim ((try_invoke (codes "AT") >>= λ _.
    await_result fuel true >>= λ _. try_invoke (codes "ATE0"))
      s) [
        | stop w ↦ stop w
        | ret false t ↦ ret tt t
        | ret true t ↦ elim (await_result fuel true t) [
          | stop w ↦ stop w
          | ret r u ↦ if r.status_code == result_success then ret tt u else failed u
        ]
      ]

-- `qbg_start`: the modem is switched off and on for a second try.
unfoldable pub qbg_start : ℕ → M (Unit {0})
unfolding init_bgx
qbg_start fuel = init_bgx fuel (
    power_off >> power_on >>= λ _.
    await_app_ready fuel >> init_bgx fuel (notify_app notif_hw_init_failed))

-- a setting, whose result is awaited and not looked at
unfoldable pub configure_bgx : ℕ → Bytes → M (Unit {0})
configure_bgx fuel cmd =
    try_invoke (snprintf dflt_atbufsz cmd) >>= λ _. await_result fuel true >>= λ _. pure tt

-- `qbg_setNwScanSeq`, `qbg_setNwScanMode`, `qbg_setIotOpMode`
unfoldable pub set_nw_scan_seq : ℕ → Bytes → M (Unit {0})
unfolding configure_bgx
set_nw_scan_seq fuel sequence = configure_bgx fuel (codes "AT+QCFG=\"nwscanseq\"," ++ sequence)

unfoldable pub set_nw_scan_mode : ℕ → ℕ → M (Unit {0})
unfolding configure_bgx
set_nw_scan_mode fuel mode = configure_bgx fuel (codes "AT+QCFG=\"nwscanmode\"," ++ decimal mode)

unfoldable pub set_iot_op_mode : ℕ → ℕ → M (Unit {0})
unfolding configure_bgx
set_iot_op_mode fuel mode = configure_bgx fuel (codes "AT+QCFG=\"iotopmode\"," ++ decimal mode)
