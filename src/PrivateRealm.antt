-- ===== src/PrivateRealm.antt =====
-- The private realm: the Home store of src/private-realm/store.js and its scopes (scope.js).
pub mod Check
pub mod Scope
pub mod State
pub mod Authority
pub mod Attach
pub mod Connections
pub mod Inboxes
pub mod Grants
pub mod Send
pub mod Mailbox
pub mod Steps
pub mod Invariant
pub mod Run
pub mod Access
pub mod Portability
pub mod Admins
pub mod Replay
pub mod Marking
pub mod Reading
pub mod Scenario
pub mod Examples
