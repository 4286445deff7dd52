-- ===== src/TurnSync.antt =====
-- src/turnsync-policy.js: an account's standing policy for the synchronization of turns.
pub mod Policy
pub mod Stored
pub mod Active
pub mod Evaluation
pub mod Standing
pub mod Precedence
pub mod Races
pub mod Requests
pub mod Commit
pub mod Tables
pub mod RoundTrip
pub mod Examples
