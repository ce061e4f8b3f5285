-- ===== src/ModemInfo/Tests.antt =====
-- The modem's information at concrete inputs.
use cr_lte_modem.Base.{◌≤◌, ◌<◌, refl, arith}
use cr_lte_modem.ModemInfo.Signal.{rssi_of, bars_of, bar_span, bars_of-excess, no_signal}

bars_of-excess_example :
    (5 < bars_of 12 (rssi_of 31)) × (bars_of 12 (rssi_of 31) ≤ bars_of 12 (rssi_of no_signal))
unfolding bar_span
bars_of-excess_example = bars_of-excess 5 12 (omega arith) refl
