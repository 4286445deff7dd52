-- ===== src/RealmGuard.antt =====
-- src/realm-guard.js: no caller without authentication may name an address of the private realm.
pub mod Texts
pub mod Addresses
pub mod Enforcement
pub mod Examples
use cairnstone_v.Prelude.{
  ℕ, String, Option, none, some, Bool, true, false, not, ◌&&◌, ◌||◌, ◌==◌, string_eq, if◌then◌else◌,
  List, [], ◌∷◌, ◌++◌, contains, nat_eqb,
}
use cairnstone_v.Prelude.Text.{codes, trim, lower_codes, lower_is, same_codes}
use cairnstone_v.Prelude.Names.{split_colon}
use cairnstone_v.Prelude.Value.{Value, undefined, null, as_string}

pub data GuardMode : Type 0 where
  off shadow enforce : GuardMode

abbrev pub private_realm_namespaces : List String
private_realm_namespaces = "prin" ∷ "conn" ∷ "home" ∷ "acct" ∷ "ten" ∷ "inbox" ∷ []

abbrev pub private_realm_id_prefixes : List String
private_realm_id_prefixes =
    "prin_" ∷ "conn_" ∷ "acct_" ∷ "ten_" ∷ "authn_" ∷ "tfam_" ∷ "walacct_" ∷ "home_" ∷ "ibx_" ∷ []

abbrev pub ac1_mailbox_tools : List String
ac1_mailbox_tools =
    "cairnstone_send_message" ∷ "cairnstone_dispatch_handoff" ∷ "cairnstone_forward_with_note"
    ∷ "cairnstone_get_inbox" ∷ "cairnstone_list_threads" ∷ "cairnstone_get_thread"
    ∷ "cairnstone_read_message" ∷ "cairnstone_note_self" ∷ "cairnstone_get_notes"
    ∷ "cairnstone_mailbox_policy_preview" ∷ "cairnstone_run_task_request" ∷ []

-- `env.AC1_REALM_GUARD`; a mode that is missing or unknown is `off`.
unfoldable pub resolve_realm_guard_mode : Value → GuardMode
resolve_realm_guard_mode v = elim (as_string v) [
  | none ↦ off
  | some s ↦
      if lower_is (trim s) "shadow"
      then shadow
      else if lower_is (trim s) "enforce"
      then enforce
      else off
]

-- `text.startsWith(prefix)`
abbrev pub starts_with : List ℕ → List ℕ → Bool
starts_with [] text = true
starts_with (p ∷ ps) [] = false
starts_with (p ∷ ps) (c ∷ text) = nat_eqb p c && starts_with ps text

abbrev pub has_prefix : List ℕ → List String → Bool
has_prefix text [] = false
has_prefix text (p ∷ ps) = starts_with (codes p) text || has_prefix text ps

abbrev pub is_namespace : List ℕ → List String → Bool
is_namespace text [] = false
is_namespace text (n ∷ ns) = same_codes (codes n) text || is_namespace text ns

abbrev is_nothing : List ℕ → Bool
is_nothing [] = true
is_nothing (c ∷ text) = false

-- A text that is trimmed and in lower case. The namespace stands before the first colon.
unfoldable pub is_private_address : List ℕ → Bool
is_private_address text = not (is_nothing text) && (elim (split_colon text) [
  | none ↦ has_prefix text private_realm_id_prefixes
  | some (namespace, identifier) ↦
      is_namespace namespace private_realm_namespaces
      || has_prefix text private_realm_id_prefixes
      || has_prefix identifier private_realm_id_prefixes
])

unfoldable pub is_private_realm_actor : Value → Bool
is_private_realm_actor v = elim (as_string v) [
  | none ↦ false
  | some s ↦ is_private_address (lower_codes (codes (trim s)))
]

-- The argument `to`: an array, or one value.
pub data Recipients : Type 0 where
  many : List Value → Recipients
  one : Value → Recipients

-- The actor fields of a tool call's arguments.
pub record ActorFields : Type 0 where
  pub from : Value
  pub recipient_id : Value
  pub actor_id : Value
  pub worker_actor_id : Value
  pub to : Recipients

pub data ToolArgs : Type 0 where
  no_object : ToolArgs
  object : ActorFields → ToolArgs

abbrev pub some_private : List Value → Bool
some_private [] = false
some_private (v ∷ vs) = is_private_realm_actor v || some_private vs

-- A single undefined or null is no item; neither is private.
abbrev pub private_recipients : Recipients → Bool
private_recipients (many vs) = some_private vs
private_recipients (one v) = is_private_realm_actor v

abbrev pub and_field : Bool → String → List String → List String
and_field true field rest = field ∷ rest
and_field false field rest = rest

unfoldable pub private_fields : ActorFields → List String
private_fields a = and_field (is_private_realm_actor a.from) "from" (
    and_field (is_private_realm_actor a.recipient_id) "recipient_id" (
      and_field (is_private_realm_actor a.actor_id) "actor_id" (
        and_field (is_private_realm_actor a.worker_actor_id) "worker_actor_id"
          (and_field (private_recipients a.to) "to" []))))

abbrev pub fields_of : ToolArgs → List String
fields_of no_object = []
fields_of (object a) = private_fields a

-- The fields that name the private realm, or none where the tool takes no mailbox actor.
unfoldable pub find_private_realm_actor_fields : String → ToolArgs → Option (List String)
unfolding private_fields
find_private_realm_actor_fields tool args =
    if contains tool ac1_mailbox_tools then some (fields_of args) else none

-- The call goes on, perhaps with a warning, or is refused.
pub data Gate : Type 0 where
  open_gate : Gate
  warned forbidden : List String → Gate

abbrev pub gate_found : GuardMode → List String → Gate
gate_found mode [] = open_gate
gate_found off (f ∷ fs) = open_gate
gate_found shadow (f ∷ fs) = warned (f ∷ fs)
gate_found enforce (f ∷ fs) = forbidden (f ∷ fs)

abbrev pub gate_mode : GuardMode → Option (List String) → Gate
gate_mode off found = open_gate
gate_mode shadow none = open_gate
gate_mode shadow (some fs) = gate_found shadow fs
gate_mode enforce none = open_gate
gate_mode enforce (some fs) = gate_found enforce fs

-- `authenticated` tells whether there is an `authContext`.
unfoldable pub apply_realm_guard : Bool → Value → String → ToolArgs → Gate
unfolding find_private_realm_actor_fields resolve_realm_guard_mode
apply_realm_guard true env tool args = open_gate
apply_realm_guard false env tool args =
    gate_mode (resolve_realm_guard_mode env) (find_private_realm_actor_fields tool args)
