-- ===== src/Iop.antt =====
-- src/ltemc-iop.c: the input/output processor between the driver and the UART bridge.
-- `Tx` is the transmit path, `Rx` the receive buffers, `Urc` the parsing of unsolicited messages, `Isr` the
-- interrupt service routine; `Frame`, `Receive` and `Service` are about what that routine leaves alone.
pub mod Tx
pub mod Rx
pub mod Urc
pub mod Isr
pub mod Frame
pub mod Receive
pub mod Service
mod Tests
