-- ===== src/PrivateRealm/Send.antt =====
-- src/private-realm/store.js: `send`, up to the digests and from them on.
use cairnstone_v.Prelude.{
  ℕ, String, Option, none, some, Bool, true, false, ◌&&◌, List, [], ◌∷◌, ◌==◌, leb, string_eq,
  pair_eq, if◌then◌else◌, length, contains,
}
use cairnstone_v.Prelude.Dict.{Dict, lookup, insert}
use cairnstone_v.Prelude.Text.{js_length, units, units_le}
use cairnstone_v.Prelude.Value.{Value, undefined, str}
use cairnstone_v.PrivateRealm.Check.{
  HomeScope, invalid_message_id, invalid_thread_id, invalid_body, invalid_recipients, Check, pass,
  raise, ◌>>=◌, ◌>>◌, require, get_or_fail,
}
use cairnstone_v.PrivateRealm.Scope.{
  ScopeArg, SelectorArg, assert_home_scope, assert_selector, message_pattern, thread_pattern,
  matching,
}
use cairnstone_v.PrivateRealm.State.{Message, Delivery, Home, Store}
use cairnstone_v.PrivateRealm.Authority.{
  Outcome, settle, allow, deny_ctx, Ctx, authorize_scope, check_capability, save,
}

abbrev pub max_body_chars : ℕ
max_body_chars = 65536

abbrev pub max_targets : ℕ
max_targets = 20

-- What `send` calls and the repository does not implement: SHA-256 of a text, and the JSON text of
-- sender inbox, targets, thread and body.
pub record Digest : Type 0 where
  pub sha256_hex : String → String
  pub json_text : String → List String → String → String → String

-- `opts` of `send`; `to_inbox_ids` is none where it is no array. Its members are texts here: any
-- other member fails `checkCapability` in any case.
pub record SendOptions : Type 0 where
  pub from_inbox_id : Value
  pub to_inbox_ids : Option (List String)
  pub message_id : Value
  pub thread_id : Value
  pub body : Value

-- The request as it is frozen before the digests are awaited.
pub record Request : Type 0 where
  pub scope : HomeScope
  pub selector : Option String
  pub from_inbox_id : String
  pub targets : List String
  pub message_id : String
  pub thread_id : String
  pub body : String

unfoldable pub insert_sorted : String → List String → List String
insert_sorted a [] = a ∷ []
insert_sorted a (x ∷ xs) =
    if units_le (units a) (units x) then a ∷ x ∷ xs else x ∷ insert_sorted a xs

-- `[...new Set(ids)].sort()`: an id that comes again adds nothing.
unfoldable pub distinct_sorted : List String → List String
unfolding insert_sorted
distinct_sorted [] = []
distinct_sorted (x ∷ xs) =
    let rest = distinct_sorted xs in if contains x rest then rest else insert_sorted x rest

abbrev thread_or : Value → String → Option String
thread_or undefined message_id = if thread_pattern message_id then some message_id else none
thread_or v message_id = matching thread_pattern v

abbrev body_fits : String → Bool
body_fits s = leb 1 (js_length s) && leb (js_length s) max_body_chars

abbrev recipients : Option (List String) → Option (List String)
recipients none = none
recipients (some ids) =
    if leb 1 (length ids) && leb (length ids) max_targets then some ids else none

-- `checkCapability` on each target in turn.
unfoldable pub check_targets : Ctx → List String → Check (Unit {0})
check_targets ctx [] = pass tt
check_targets ctx (t ∷ ts) = do
  check_capability ctx (str t) (str "send") "send"
  check_targets ctx ts

-- Up to the digests: identity and request are frozen; the check only spares the hashing.
unfoldable pub check_send_request : ScopeArg → SendOptions → SelectorArg → Store → Check Request
check_send_request scope_in o selector_in s = do
  scope ← assert_home_scope scope_in
  selector ← assert_selector selector_in
  early ← authorize_scope scope selector "send" s
  message_id ← get_or_fail (matching message_pattern o.message_id) (raise invalid_message_id)
  thread ← get_or_fail (thread_or o.thread_id message_id) (raise invalid_thread_id)
  body ← get_or_fail (matching body_fits o.body) (raise invalid_body)
  ids ← get_or_fail (recipients o.to_inbox_ids) (raise invalid_recipients)
  from ← check_capability early o.from_inbox_id (str "send") "send"
  check_targets early (distinct_sorted ids)
  pass (record {
    scope = scope;
    selector = selector;
    from_inbox_id = from.0;
    targets = distinct_sorted ids;
    message_id = message_id;
    thread_id = thread;
    body = body;
  })

-- `delivered_to` is absent from the answer to a replay.
pub record Sent : Type 0 where
  pub message_id : String
  pub created : Bool
  pub delivered_to : Option ℕ

module _ (digest : Digest) where
  unfoldable pub fingerprint_of : Request → String
  fingerprint_of r =
      digest.sha256_hex (digest.json_text r.from_inbox_id r.targets r.thread_id r.body)

  unfoldable pub new_message : ℕ → Request → String → Message
  unfolding fingerprint_of
  new_message now r connection = record {
    message_id = r.message_id;
    thread_id = r.thread_id;
    sender_inbox_id = r.from_inbox_id;
    sender_connection_id = connection;
    body_sha256 = digest.sha256_hex r.body;
    body_text = r.body;
    fingerprint = fingerprint_of r;
    created_at = now;
  }

abbrev pub new_delivery : ℕ → String → String → Delivery
new_delivery now message_id target = record {
  message_id = message_id;
  inbox_id = target;
  delivered_at = now;
  read_at = none;
  acked_at = none;
}

unfoldable pub deliver :
    ℕ → String → List String → Dict (String × String) Delivery → Dict (String × String) Delivery
deliver now message_id [] ds = ds
deliver now message_id (t ∷ ts) ds =
    deliver now message_id ts (insert (message_id, t) (new_delivery now message_id t) ds)

unfoldable pub with_message : ℕ → Message → List String → Home → Home
unfolding deliver
with_message now m targets home = record home {
  messages = insert m.message_id m home.messages;
  deliveries = deliver now m.message_id targets home.deliveries;
}

module _ (digest : Digest) where
  -- The commit section: every decision is made again on the store of its moment.
  unfoldable pub check_commit : ℕ → Request → Store → Check (Store × Sent)
  unfolding new_message with_message
  check_commit now r s = do
    ctx ← authorize_scope r.scope r.selector "send" s
    check_capability ctx (str r.from_inbox_id) (str "send") "send"
    check_targets ctx r.targets
    elim (lookup r.message_id ctx.home.messages) [
      | some existing ↦ do
        require
            (existing.sender_connection_id == ctx.conn.connection_id
              && existing.fingerprint == fingerprint_of digest r)
            (deny_ctx ctx "send" "idempotency_conflict")
        pass (
          allow now ctx.home ctx.scope "send" (some "idempotent_replay") s,
          record { message_id = r.message_id; created = false; delivered_to = none },
        )
      | none ↦ pass (
        allow now ctx.home ctx.scope "send" (some "delivered") (
            save
              (with_message now (new_message digest now r ctx.conn.connection_id) r.targets
                ctx.home)
              s),
        record {
          message_id = r.message_id;
          created = true;
          delivered_to = some (length r.targets);
        },
      )
    ]

  unfoldable pub commit_send : ℕ → Request → Store → Outcome Sent × Store
  unfolding check_commit
  commit_send now r s = settle now (check_commit now r s) s

abbrev pub with_store : Store → Check Request → Check (Store × Request)
with_store s c = do r ← c; pass (s, r)

-- The first part of `send`: the request to await the digests with, or the refusal.
unfoldable pub begin_send :
    ℕ → ScopeArg → SendOptions → SelectorArg → Store → Outcome Request × Store
unfolding check_send_request
begin_send now scope_in o selector s =
    settle now (with_store s (check_send_request scope_in o selector s)) s
