-- ===== src/PrivateRealm/Invariant.antt =====
-- The well-formedness of the Home store: its two indexes agree with its Homes, and in each Home the
-- grants, connections, inboxes, messages and deliveries agree with one another.
pub mod Deliveries
pub mod Homes
pub mod Frames
pub mod Stores
use cairnstone_v.Prelude.{
  String, ◌≡◌, ◌≢◌, Option, none, some, Bool, true, false, not, ◌||◌, ◌==◌, string_eq, pair_eq,
}
use cairnstone_v.Prelude.Dict.{Dict, lookup, AllEntries}
use cairnstone_v.PrivateRealm.State.{Connection, Inbox, Grant, Message, Delivery, Home, Store}
use cairnstone_v.PrivateRealm.Authority.{is_active, is_private, owned_by, is_live}

abbrev pub is_connected : Home → String → Bool
is_connected home connection = elim (lookup connection home.connections) [
  | none ↦ false
  | some c ↦ is_active c.status
]

-- The inbox is there, and if it is connection-private it belongs to the connection.
abbrev pub is_reachable : Home → String → String → Bool
is_reachable home id connection = elim (lookup id home.inboxes) [
  | none ↦ false
  | some i ↦ not (is_private i.scope) || owned_by i.owner connection
]

-- A grant that is in force: its connection is active and may reach its inbox.
pub record IsHeld (home : Home) (id connection : String) : Type 0 where
  pub connected : is_connected home connection ≡ true
  pub reachable : is_reachable home id connection ≡ true

-- A delivery stands under its message and inbox, and its message is stored.
pub record HasMessage (messages : Dict String Message) (key : String × String) (d : Delivery)
    : Type 0 where
  pub message : d.message_id ≡ key.0
  pub inbox : d.inbox_id ≡ key.1
  pub stored : lookup d.message_id messages ≢ none

pub record IsSound (home : Home) : Type 0 where
  pub keyed :
      (id : String) (c : Connection) → lookup id home.connections ≡ some c → c.connection_id ≡ id
  pub held :
      (id connection : String) (g : Grant)
      → lookup (id, connection) home.grants ≡ some g
      → is_live g ≡ true
      → IsHeld home id connection
  pub filed : (id : String) (m : Message) → lookup id home.messages ≡ some m → m.message_id ≡ id
  pub mail : AllEntries (HasMessage home.messages) home.deliveries

abbrev pub has_connection : Home → String → Bool
has_connection home connection = elim (lookup connection home.connections) [
  | none ↦ false
  | some c ↦ true
]

abbrev pub holds : Store → String → String → Bool
holds s id connection = elim (lookup id s.homes) [
  | none ↦ false
  | some home ↦ has_connection home connection
]

abbrev pub account_of : Store → String → Option String
account_of s id = elim (lookup id s.homes) [ none ↦ none | some home ↦ some home.account_id ]

-- A connection stands in the Home of its index entry and in no other; an account's entry names a
-- Home of that account, and the account has no other Home.
pub record IsWellFormed (s : Store) : Type 0 where
  pub named : (id : String) (home : Home) → lookup id s.homes ≡ some home → home.home_id ≡ id
  pub sound : (id : String) (home : Home) → lookup id s.homes ≡ some home → IsSound home
  pub indexed :
      (connection id : String)
      → lookup connection s.connection_index ≡ some id
      → holds s id connection ≡ true
  pub unique :
      (connection id : String)
      → holds s id connection ≡ true
      → lookup connection s.connection_index ≡ some id
  pub accounts :
      (account id : String)
      → lookup account s.account_index ≡ some id
      → account_of s id ≡ some account
  pub registered :
      (id : String) (home : Home)
      → lookup id s.homes ≡ some home
      → lookup home.account_id s.account_index ≡ some id
