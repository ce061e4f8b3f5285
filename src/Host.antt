-- ===== src/Host.antt =====
-- The platform functions of src/platform/arduino-timing.cpp (`lMillis`, `lYield`, `lDelay`,
-- `lTimerExpired`) over the clock and the schedule of the world.
pub mod Arrival
use cr_lte_modem.Base.{
  ℕ, ◌+◌, Bool, false, List, [], ◌∷◌, ltb, ◌==◌, ◌||◌, if◌then◌else◌, u32, sub32,
}
use cr_lte_modem.Device.{Event, Ltem, M, ret}
use cr_lte_modem.Iop.Isr.{isr}

-- `lMillis`
abbrev pub millis : Ltem → ℕ
millis s = u32 s.now

-- `lTimerExpired`; a start of 0 stands for a timer that is not running.
unfoldable pub timer_expired : ℕ → ℕ → Ltem → Bool
timer_expired start timeout s = if start == 0 then false else ltb timeout (sub32 (millis s) start)

-- An event takes place: time goes by, the application may request to cancel, and the service routine runs.
unfoldable pub happen : Event → M (Unit {0})
happen e s = isr e.passes (record s {
  now = s.now + e.elapsed;
  cancellation_request = e.cancels || s.cancellation_request;
})

-- The next event of the schedule; behind the last one the clock goes on by one.
unfoldable pub next_event : List Event → M (Unit {0})
next_event [] s = ret tt (record s { now = s.now + 1 })
next_event (e ∷ es) s = happen e (record s { schedule = es })

-- `lYield`
unfoldable pub yield : M (Unit {0})
yield s = next_event s.schedule s

-- `lDelay`: the time asked for, and the next event.
unfoldable pub delay : ℕ → M (Unit {0})
delay ms s = yield (record s { now = s.now + ms })
