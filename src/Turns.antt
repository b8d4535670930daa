-- ===== src/Turns.antt =====
-- Turn games (apps/duell-web/src/turns.js, and the numbers from a seed of core.js).
pub mod Words
pub mod Value
pub mod Base64
pub mod Seal
pub mod Blocks
pub mod Answer
pub mod Check
pub mod Engine
pub mod Played
mod Scenarios
