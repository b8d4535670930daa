-- ===== src/Bauernskat.antt =====
-- The rules of Bauernskat, Skat for two players (apps/duell-web/src/bauernskat.js).
pub mod State
pub mod Apply
pub mod Secrecy
pub mod Once
pub mod Seen
pub mod Score
pub mod Bids
pub mod Moves
pub mod Layout
pub mod Audit
pub mod Auto
pub mod Scenarios
