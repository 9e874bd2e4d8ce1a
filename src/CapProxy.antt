-- ===== src/CapProxy.antt =====
-- runtime/src/capproxy.rs: answers terminal-capability queries from the child at the source, strips
-- them from its output, and mirrors the kitty keyboard state of the client's emulator.
pub mod Text
pub mod Kitty
pub mod Osc
pub mod Inspect
pub mod Reach
pub mod Model
pub mod Resync
mod Examples
