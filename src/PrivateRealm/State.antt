-- ===== src/PrivateRealm/State.antt =====
-- src/private-realm/store.js: the state of the in-memory Home store. A stamp of `now()` is a number.
-- The composite keys `inbox|connection` and `message|inbox` are pairs: no id holds a `|`.
use cairnstone_v.Prelude.{ℕ, String, Option, Bool, List}
use cairnstone_v.Prelude.Dict.{Dict}
use cairnstone_v.PrivateRealm.Check.{Role}

pub data Status : Type 0 where
  active revoked : Status

pub data InboxScope : Type 0 where
  home_scope connection_scope agent_identity : InboxScope

pub data Plane : Type 0 where
  chat work notifications control : Plane

pub data Capability : Type 0 where
  read send ack : Capability

pub record Connection : Type 0 where
  pub connection_id : String
  pub principal_id : String
  pub provider_label : String
  pub role : Role
  pub status : Status
  pub created_at : ℕ
  pub revoked_at : Option ℕ

pub record Inbox : Type 0 where
  pub inbox_id : String
  pub scope : InboxScope
  pub plane : Plane
  pub owner : Option String
  pub label : String
  pub status : Status
  pub created_at : ℕ

pub record Grant : Type 0 where
  pub read : Bool
  pub send : Bool
  pub ack : Bool
  pub granted_at : ℕ
  pub revoked_at : Option ℕ

pub record Message : Type 0 where
  pub message_id : String
  pub thread_id : String
  pub sender_inbox_id : String
  pub sender_connection_id : String
  pub body_sha256 : String
  pub body_text : String
  pub fingerprint : String
  pub created_at : ℕ

pub record Delivery : Type 0 where
  pub message_id : String
  pub inbox_id : String
  pub delivered_at : ℕ
  pub read_at : Option ℕ
  pub acked_at : Option ℕ

pub record Home : Type 0 where
  pub home_id : String
  pub account_id : String
  pub tenant_id : String
  pub status : Status
  pub created_at : ℕ
  pub connections : Dict String Connection
  pub inboxes : Dict String Inbox
  pub grants : Dict (String × String) Grant
  pub messages : Dict String Message
  pub deliveries : Dict (String × String) Delivery

pub data Verdict : Type 0 where
  allow deny : Verdict

pub record AuditRow : Type 0 where
  pub home_id : Option String
  pub connection_id : String
  pub principal_id : String
  pub action : String
  pub outcome : Verdict
  pub reason : Option String
  pub created_at : ℕ

pub record Store : Type 0 where
  pub homes : Dict String Home
  pub account_index : Dict String String
  pub connection_index : Dict String String
  pub audit_log : List AuditRow
