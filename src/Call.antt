-- ===== src/Call.antt =====
-- Calls between two people (apps/call-core/src/call-core.js, apps/call-core/src/protocol.js).
pub mod Message
pub mod Values
pub mod Parse
pub mod Encode
pub mod RoundTrip
pub mod Servers
pub mod Bounds
pub mod Statistics
pub mod Session
pub mod Timers
pub mod Loss
pub mod Offer
pub mod Answer
pub mod Step
pub mod TimerLemmas
pub mod Ended
pub mod Replies
pub mod Silence
pub mod Order
pub mod Rising
pub mod Onward
pub mod History
pub mod Early
pub mod Microphone
pub mod Endpoint
pub mod Remembered
pub mod OneCall
pub mod SecondCall
pub mod Late
mod Scenarios
