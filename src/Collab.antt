-- ===== src/Collab.antt =====
-- Editing together (apps/duell-web/src/collab.js).
pub mod Merge
pub mod Effect
pub mod Stepped
pub mod Converge
pub mod Outbox
pub mod Session
pub mod Receive
pub mod Names
pub mod Document
pub mod Shown
pub mod ShownFields
pub mod Screen
pub mod Frames
pub mod Rate
mod Scenarios
