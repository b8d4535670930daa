-- ===== src/Doko.antt =====
-- Doppelkopf (apps/duell-web/src/doko.js).
pub mod Cards
pub mod State
pub mod Calls
pub mod Apply
pub mod Parties
pub mod Score
pub mod Moves
pub mod Layout
pub mod Audit
pub mod Follow
pub mod Twice
pub mod Played
pub mod Balance
pub mod Winner
mod Scenarios
