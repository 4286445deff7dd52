-- ===== src/PrivateRealm/Mailbox.antt =====
-- src/private-realm/store.js: `listInbox`, `readInbox`, `ack`.
use cairnstone_v.Prelude.{
  ℕ, zero, suc, String, Option, none, some, Bool, true, false, List, [], ◌∷◌, ◌==◌, string_eq,
  pair_eq, if◌then◌else◌, min, max,
}
use cairnstone_v.Prelude.Dict.{Dict, lookup, insert}
use cairnstone_v.Prelude.Value.{Value, undefined, null, other, bool, nat, neg, str, as_string}
use cairnstone_v.PrivateRealm.Check.{type_error, Check, pass, raise, ◌>>=◌, get_or_fail}
use cairnstone_v.PrivateRealm.Scope.{ScopeArg, SelectorArg}
use cairnstone_v.PrivateRealm.State.{Message, Delivery, Home, Store}
use cairnstone_v.PrivateRealm.Authority.{
  Outcome, settle, allow, deny_ctx, authorize, check_capability, save,
}

abbrev pub max_list : ℕ
max_list = 200

abbrev pub limit_of : Value → ℕ
limit_of (nat n) = max 1 (min max_list n)
limit_of (neg n) = 1
limit_of undefined = 50
limit_of null = 50
limit_of other = 50
limit_of (bool b) = 50
limit_of (str s) = 50

-- What `listInbox` tells of a message: no body.
pub record Header : Type 0 where
  pub message_id : String
  pub thread_id : String
  pub sender_inbox_id : String
  pub body_sha256 : String
  pub delivered_at : ℕ
  pub read_at : Option ℕ
  pub acked_at : Option ℕ

abbrev pub header : Message → Delivery → Header
header m d = record {
  message_id = m.message_id;
  thread_id = m.thread_id;
  sender_inbox_id = m.sender_inbox_id;
  body_sha256 = m.body_sha256;
  delivered_at = d.delivered_at;
  read_at = d.read_at;
  acked_at = d.acked_at;
}

-- The loop of `listInbox`, with the entries that it may still push.
unfoldable pub list_entries :
    Dict String Message → String → ℕ → Dict (String × String) Delivery → Check (List Header)
list_entries messages inbox room [] = pass []
list_entries messages inbox zero ((k, d) ∷ ds) = pass []
list_entries messages inbox (suc room) ((k, d) ∷ ds) = elim (d.inbox_id == inbox) [
  | true ↦ do
    m ← get_or_fail (lookup d.message_id messages) (raise type_error)
    rest ← list_entries messages inbox room ds
    pass (header m d ∷ rest)
  | false ↦ list_entries messages inbox (suc room) ds
]

unfoldable pub check_list_inbox :
    ℕ → ScopeArg → Value → Value → SelectorArg → Store → Check (Store × List Header)
unfolding list_entries
check_list_inbox now scope_in inbox_arg limit selector s = do
  ctx ← authorize scope_in selector "list_inbox" s
  inbox ← check_capability ctx inbox_arg (str "read") "list_inbox"
  entries ← list_entries ctx.home.messages inbox.0 (limit_of limit) ctx.home.deliveries
  pass (allow now ctx.home ctx.scope "list_inbox" none s, entries)

unfoldable pub list_inbox :
    ℕ → ScopeArg → Value → Value → SelectorArg → Store → Outcome (List Header) × Store
unfolding check_list_inbox
list_inbox now scope_in inbox_arg limit selector s =
    settle now (check_list_inbox now scope_in inbox_arg limit selector s) s

pub record Letter : Type 0 where
  pub message_id : String
  pub thread_id : String
  pub sender_inbox_id : String
  pub body : String
  pub body_sha256 : String
  pub created_at : ℕ
  pub delivered_at : ℕ
  pub read_at : Option ℕ

abbrev pub letter : Message → Delivery → Letter
letter m d = record {
  message_id = m.message_id;
  thread_id = m.thread_id;
  sender_inbox_id = m.sender_inbox_id;
  body = m.body_text;
  body_sha256 = m.body_sha256;
  created_at = m.created_at;
  delivered_at = d.delivered_at;
  read_at = d.read_at;
}

-- A stamp that is set stays.
abbrev pub stamp : ℕ → Option ℕ → Option ℕ
stamp now none = some now
stamp now (some t) = some t

abbrev pub mark_read : ℕ → Delivery → Delivery
mark_read now d = record d { read_at = stamp now d.read_at }

pub record Reading : Type 0 where
  pub letters : List Letter
  pub deliveries : Dict (String × String) Delivery

abbrev pub and_delivery : String × String → Delivery → Reading → Reading
and_delivery k d r = record r { deliveries = (k, d) ∷ r.deliveries }

abbrev pub and_letter : Letter → Reading → Reading
and_letter l r = record r { letters = l ∷ r.letters }

-- The loop of `readInbox`: each delivery that is shown is stamped.
unfoldable pub read_entries :
    ℕ → Dict String Message → String → ℕ → Dict (String × String) Delivery → Check Reading
read_entries now messages inbox room [] = pass (record { letters = []; deliveries = [] })
read_entries now messages inbox zero ((k, d) ∷ ds) =
    pass (record { letters = []; deliveries = (k, d) ∷ ds })
read_entries now messages inbox (suc room) ((k, d) ∷ ds) = elim (d.inbox_id == inbox) [
  | true ↦ do
    m ← get_or_fail (lookup d.message_id messages) (raise type_error)
    rest ← read_entries now messages inbox room ds
    pass (and_letter (letter m (mark_read now d)) (and_delivery k (mark_read now d) rest))
  | false ↦ do rest ← read_entries now messages inbox (suc room) ds; pass (and_delivery k d rest)
]

unfoldable pub check_read_inbox :
    ℕ → ScopeArg → Value → Value → SelectorArg → Store → Check (Store × List Letter)
unfolding read_entries
check_read_inbox now scope_in inbox_arg limit selector s = do
  ctx ← authorize scope_in selector "read_inbox" s
  inbox ← check_capability ctx inbox_arg (str "read") "read_inbox"
  r ← read_entries now ctx.home.messages inbox.0 (limit_of limit) ctx.home.deliveries
  pass (
    allow now ctx.home ctx.scope "read_inbox" none
        (save (record ctx.home { deliveries = r.deliveries }) s),
    r.letters,
  )

unfoldable pub read_inbox :
    ℕ → ScopeArg → Value → Value → SelectorArg → Store → Outcome (List Letter) × Store
unfolding check_read_inbox
read_inbox now scope_in inbox_arg limit selector s =
    settle now (check_read_inbox now scope_in inbox_arg limit selector s) s

abbrev pub is_acked : Delivery → Bool
is_acked d = elim (d.acked_at) [ none ↦ false | some t ↦ true ]

-- The delivery of the message to the inbox, where the message id is a text.
abbrev pub find_delivery : Value → String → Home → Option (String × Delivery)
find_delivery v inbox home = elim (as_string v) [
  | none ↦ none
  | some id ↦ elim (lookup (id, inbox) home.deliveries) [ none ↦ none | some d ↦ some (id, d) ]
]

unfoldable pub with_ack : ℕ → String × String → Delivery → Home → Home
with_ack now key d home = record home {
  deliveries =
      insert key (record d { read_at = stamp now d.read_at; acked_at = some now }) home.deliveries;
}

pub record Acked : Type 0 where
  pub message_id : String
  pub changed : Bool

unfoldable pub check_ack :
    ℕ → ScopeArg → Value → Value → SelectorArg → Store → Check (Store × Acked)
unfolding with_ack
check_ack now scope_in inbox_arg message_arg selector s = do
  ctx ← authorize scope_in selector "ack" s
  inbox ← check_capability ctx inbox_arg (str "ack") "ack"
  found ←
      get_or_fail (find_delivery message_arg inbox.0 ctx.home)
        (deny_ctx ctx "ack" "delivery_not_found")
  pass (
      if is_acked found.1
      then (
        allow now ctx.home ctx.scope "ack" (some "already_acked") s,
        record { message_id = found.0; changed = false },
      )
      else (
        allow now ctx.home ctx.scope "ack" (some "acked")
            (save (with_ack now (found.0, inbox.0) found.1 ctx.home) s),
        record { message_id = found.0; changed = true },
      ))

unfoldable pub ack_message :
    ℕ → ScopeArg → Value → Value → SelectorArg → Store → Outcome Acked × Store
unfolding check_ack
ack_message now scope_in inbox_arg message_arg selector s =
    settle now (check_ack now scope_in inbox_arg message_arg selector s) s
