-- ===== src/Tests.antt =====
-- The theorems at concrete inputs.
pub mod Data
mod Utils
mod Buffers
mod Queues
mod Wire
mod Receiving
mod Sending
mod Commands
mod Together
mod Exchanges
mod Setup
mod Lines
mod Linked
