-- ===== src/TurnSync/Policy.antt =====
-- src/turnsync-policy.js: policies, the scopes they are set for, and the policy in effect.
-- A text field of a request is none where it is undefined or null; other types of values are left out.
use cairnstone_v.Prelude.{
  ℕ, String, Option, none, some, Bool, true, false, ◌&&◌, ◌==◌, string_eq, if◌then◌else◌, List, [],
  ◌∷◌, leb,
}
use cairnstone_v.Prelude.Text.{trim, js_length, lower_is}
use cairnstone_v.Prelude.Words.{not_empty}

pub data Mode : Type 0 where
  on off ask : Mode

pub data PayloadMode : Type 0 where
  full_turns decisions_tasks summaries : PayloadMode

pub data ScopeKind : Type 0 where
  account workspace chain : ScopeKind

-- A row of `auth_turnsync_policies` in the realm of the core.
pub record PolicyRow : Type 0 where
  pub policy_id : String
  pub account_id : String
  pub tenant_id : String
  pub scope_kind : ScopeKind
  pub scope_key : String
  pub mode : Mode
  pub payload_mode : PayloadMode
  pub revision : ℕ
  pub updated_by_principal_id : String
  pub updated_by_connection_id : String
  pub created_at : String
  pub updated_at : String

abbrev clean_text : ℕ → String → String
clean_text limit s = if not_empty s && leb (js_length s) limit then s else ""

-- `clean(value, max)`: the empty text stands for what is missing or too long.
unfoldable pub clean : ℕ → Option String → String
clean limit none = ""
clean limit (some s) = clean_text limit (trim s)

pub record Candidate : Type 0 where
  pub scope_kind : ScopeKind
  pub scope_key : String

abbrev candidate : ScopeKind → String → Candidate
candidate kind key = record { scope_kind = kind; scope_key = key }

abbrev and_candidate : ScopeKind → String → List Candidate → List Candidate
and_candidate kind key rest = if not_empty key then candidate kind key ∷ rest else rest

-- Workspace, then chain, then account.
unfoldable pub policy_scope_candidates : Option String → Option String → List Candidate
policy_scope_candidates workspace_id chain_id =
    and_candidate workspace (clean 300 workspace_id)
      (and_candidate chain (clean 300 chain_id) (candidate account "*" ∷ []))

abbrev pub same_kind : ScopeKind → ScopeKind → Bool
same_kind account account = true
same_kind account workspace = false
same_kind account chain = false
same_kind workspace account = false
same_kind workspace workspace = true
same_kind workspace chain = false
same_kind chain account = false
same_kind chain workspace = false
same_kind chain chain = true

abbrev pub in_scope : Candidate → PolicyRow → Bool
in_scope c row = same_kind row.scope_kind c.scope_kind && row.scope_key == c.scope_key

-- `byKey.get(key)`: the last of the rows that has the key.
unfoldable pub last_in_scope : Candidate → List PolicyRow → Option PolicyRow
last_in_scope c [] = none
last_in_scope c (row ∷ rows) = elim (last_in_scope c rows) [
  | some r ↦ some r
  | none ↦ if in_scope c row then some row else none
]

-- The policy in effect: a stored one with the scope it matched, or the safe default.
pub data Effective : Type 0 where
  stored : PolicyRow → Candidate → Effective
  default_ask : Effective

unfoldable pub first_match : List PolicyRow → List Candidate → Effective
unfolding last_in_scope
first_match rows [] = default_ask
first_match rows (c ∷ cs) = elim (last_in_scope c rows) [
  | some row ↦ stored row c
  | none ↦ first_match rows cs
]

unfoldable pub effective_policy_from_rows :
    List PolicyRow → Option String → Option String → Effective
unfolding first_match policy_scope_candidates
effective_policy_from_rows rows workspace_id chain_id =
    first_match rows (policy_scope_candidates workspace_id chain_id)

abbrev pub effective_mode : Effective → Mode
effective_mode (stored row c) = row.mode
effective_mode default_ask = ask

abbrev pub effective_payload : Effective → PayloadMode
effective_payload (stored row c) = row.payload_mode
effective_payload default_ask = full_turns

-- The `error` of an evaluation, or that a turn may be appended.
pub data Standing : Type 0 where
  turnsync_policy_invalid turnsync_sync_disabled turnsync_confirmation_required : Standing
  turnsync_payload_transform_required allow_append : Standing

abbrev standing_payload : PayloadMode → Standing
standing_payload full_turns = allow_append
standing_payload decisions_tasks = turnsync_payload_transform_required
standing_payload summaries = turnsync_payload_transform_required

abbrev standing_mode : Mode → PayloadMode → Standing
standing_mode off p = turnsync_sync_disabled
standing_mode ask p = turnsync_confirmation_required
standing_mode on p = standing_payload p

-- A mode is none where the policy has no known one.
unfoldable pub evaluate_turn_sync_standing_policy : Option Mode → Option PayloadMode → Standing
evaluate_turn_sync_standing_policy none p = turnsync_policy_invalid
evaluate_turn_sync_standing_policy (some m) none = turnsync_policy_invalid
evaluate_turn_sync_standing_policy (some m) (some p) = standing_mode m p

abbrev pub parse_kind : String → Option ScopeKind
parse_kind s =
    if lower_is s "account"
    then some account
    else if lower_is s "workspace"
    then some workspace
    else if lower_is s "chain"
    then some chain
    else none

abbrev pub parse_mode : String → Option Mode
parse_mode s =
    if lower_is s "on"
    then some on
    else if lower_is s "off"
    then some off
    else if lower_is s "ask"
    then some ask
    else none

abbrev pub parse_payload : String → Option PayloadMode
parse_payload s =
    if lower_is s "full_turns"
    then some full_turns
    else if lower_is s "decisions_tasks"
    then some decisions_tasks
    else if lower_is s "summaries"
    then some summaries
    else none
