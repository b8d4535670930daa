-- ===== src/Skat.antt =====
-- The rules of Skat (apps/duell-web/src/skat.js).
pub mod Cards
pub mod Strength
pub mod State
pub mod Bidding
pub mod Contract
pub mod Winner
pub mod Apply
pub mod Valid
pub mod Invariant
pub mod Termination
pub mod Score
pub mod Ramsch
pub mod Scoring
pub mod Moves
pub mod Layout
pub mod Legal
pub mod Auto
pub mod Audit
pub mod Explain
pub mod Scenarios
