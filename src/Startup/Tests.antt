-- ===== src/Startup/Tests.antt =====
-- The start of the modem on the sample device.
use cr_lte_modem.Base.{◌≡◌, refl, true, false, [], ◌∷◌, arith}
use cr_lte_modem.CString.{codes}
use cr_lte_modem.Device.{Ltem, ret}
use cr_lte_modem.Host.{delay, yield, next_event}
use cr_lte_modem.Startup.{power_on, await_power, read_status, await_app_ready}
use cr_lte_modem.Startup.Ready.{Readied, await_app_ready-Readied}
use cr_lte_modem.Host.Arrival.{silence, arrival, later}
use cr_lte_modem.Startup.Notice.{announcement, announced, Listens, await_app_ready-notice}
use cr_lte_modem.Bench.{sample}

-- switched on, and not ready yet
abbrev booting : Ltem
booting = record sample { qbg_ready_state = 1 }

-- The pin is high at the third reading: 500 ms of the power key, and one wait of 500 ms and a tick each.
switched_on :
    power_on (record booting { qbg_ready_state = 0; status_levels = false ∷ false ∷ true ∷ [] })
    ≡ ret false (record booting { now = 1014 })
unfolding power_on await_power read_status delay yield next_event
switched_on = refl

await_app_ready-Readied_example : Readied (await_app_ready 5001 booting)
await_app_ready-Readied_example =
    await_app_ready-Readied 5001 booting (omega arith) (omega arith) (omega arith)

-- the notice after a second
abbrev noticed : Ltem
noticed = record booting {
  schedule = silence 100 ∷ silence 900 ∷ arrival 5 (announcement (codes "\r\n")) 0 ∷ silence 1 ∷ [];
}

noticed-Listens : Listens (codes "\r\n") noticed
noticed-Listens = record {
  waiting = omega arith;
  receives = record { peer = refl; room = omega arith };
}

await_app_ready-notice_example :
    await_app_ready 3 noticed
    ≡ ret tt (announced (announcement (codes "\r\n")) (later 1005 (silence 1 ∷ []) noticed))
await_app_ready-notice_example =
    await_app_ready-notice (100 ∷ 900 ∷ []) 3 5 0 (codes "\r\n") (silence 1 ∷ []) noticed refl
      noticed-Listens (omega arith) (omega arith) (omega arith)
