-- ===== src/Tests.antt =====
-- Concrete runs of the definitions, and the theorems at concrete inputs.
pub mod Utils
pub mod Protocol
pub mod Fragment
pub mod Queue
pub mod Command
pub mod Ble
pub mod Adv
pub mod Console
pub mod Display
pub mod Pixel
pub mod Lifecycle
