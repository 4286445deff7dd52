-- ===== src/Executors.antt =====
-- src/executor-profile.js and src/executor-adapters.js: the executors that a task run may be given to,
-- how a request is routed to one of them, and what a dispatch hands over.
pub mod Profiles
pub mod Hints
pub mod Capabilities
pub mod Policy
pub mod Context
pub mod Request
pub mod Route
pub mod Order
pub mod Fitness
pub mod Selection
pub mod Completeness
pub mod Occurrence
pub mod Searches
pub mod Rules
pub mod References
pub mod Inferred
pub mod Listing
pub mod Examples
pub mod Digest
pub mod Pack
pub mod Envelope
pub mod Adapters
pub mod Limits
pub mod Handover
