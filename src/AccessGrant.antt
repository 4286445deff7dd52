-- ===== src/AccessGrant.antt =====
-- src/access-grant.js: grants of access to an object, in a database table.
pub mod Rows
pub mod Create
pub mod Change
pub mod Query
pub mod Bodies
pub mod History
pub mod Shown
pub mod Listing
pub mod Examples
