-- ===== src/TurnSync/Stored.antt =====
-- src/turnsync-policy.js: the policies in the database, read and written by an authenticated account.
-- A write is two steps, since other writes may come between its read and its statement.
use cairnstone_v.Prelude.{
  ℕ, zero, suc, String, Option, none, some, Bool, true, false, ◌&&◌, ◌==◌, string_eq, if◌then◌else◌,
  List, [], ◌∷◌, nat_eqb,
}
use cairnstone_v.Prelude.Dict.{Dict, lookup, insert}
use cairnstone_v.Prelude.Words.{not_empty}
use cairnstone_v.Prelude.Result.{Result, ok, fail, ◌>>=◌, ◌>>◌, unless, get_or}
use cairnstone_v.TurnSync.Policy.{
  Mode, PayloadMode, ScopeKind, account, workspace, chain, PolicyRow, clean, Candidate,
  policy_scope_candidates, in_scope, Effective, effective_policy_from_rows, parse_kind, parse_mode,
  parse_payload,
}

-- `env.CORE_AUTH_CONTEXT`; a missing field is the empty text.
pub record AuthContext : Type 0 where
  pub account_id : String
  pub tenant_id : String
  pub principal_id : String
  pub connection_id : String

-- A row of `auth_connection_principals`.
pub record ConnectionRow : Type 0 where
  pub connection_id : String
  pub principal_id : String
  pub account_id : String
  pub tenant_id : String
  pub status : String

-- The policies stand under their primary key.
abbrev pub Table : Type 0
Table = Dict String PolicyRow

pub record Database : Type 0 where
  pub connections : List ConnectionRow
  pub policies : Table

pub data PolicyError : Type 0 where
  human_confirmation_required turnsync_policy_scope_invalid turnsync_policy_mode_invalid :
      PolicyError
  turnsync_policy_payload_invalid turnsync_policy_scope_key_required : PolicyError
  turnsync_policy_base_revision_invalid authenticated_account_context_required : PolicyError
  authenticated_connection_not_active turnsync_policy_conflict : PolicyError
  turnsync_policy_revision_required constraint_failed : PolicyError

abbrev pub is_connection_of : AuthContext → ConnectionRow → Bool
is_connection_of a row =
    row.connection_id == a.connection_id
    && row.account_id == a.account_id
    && row.tenant_id == a.tenant_id
    && row.principal_id == a.principal_id

unfoldable pub connection_status : AuthContext → List ConnectionRow → String
connection_status a [] = ""
connection_status a (row ∷ rows) =
    let rest = connection_status a rows in if is_connection_of a row then row.status else rest

abbrev is_complete : AuthContext → Bool
is_complete a =
    not_empty a.account_id
    && not_empty a.tenant_id
    && not_empty a.principal_id
    && not_empty a.connection_id

unfoldable pub active_context : Option AuthContext → Database → Result PolicyError AuthContext
active_context none db = fail authenticated_account_context_required
active_context (some a) db = do
  unless (is_complete a) authenticated_account_context_required
  unless (connection_status a db.connections == "active") authenticated_connection_not_active
  ok a

-- The row of an account and tenant for a scope.
abbrev pub is_at : AuthContext → Candidate → PolicyRow → Bool
is_at a c row = row.account_id == a.account_id && row.tenant_id == a.tenant_id && in_scope c row

unfoldable pub find_policy : AuthContext → Candidate → Table → Option PolicyRow
find_policy a c [] = none
find_policy a c ((id, row) ∷ t) =
    let rest = find_policy a c t in if is_at a c row then some row else rest

abbrev and_found : Option PolicyRow → List PolicyRow → List PolicyRow
and_found none rows = rows
and_found (some row) rows = row ∷ rows

unfoldable pub read_stored_policies : AuthContext → List Candidate → Table → List PolicyRow
unfolding find_policy
read_stored_policies a [] t = []
read_stored_policies a (c ∷ cs) t = and_found (find_policy a c t) (read_stored_policies a cs t)

unfoldable pub get_effective_turn_sync_policy :
    Option AuthContext → Option String → Option String → Database → Result PolicyError Effective
get_effective_turn_sync_policy auth workspace_id chain_id db = do
  a ← active_context auth db
  ok (
      effective_policy_from_rows
        (read_stored_policies a (policy_scope_candidates workspace_id chain_id) db.policies)
        workspace_id chain_id)

-- `base_revision` as `Number` reads it.
pub data BaseRevision : Type 0 where
  absent not_whole : BaseRevision
  whole : ℕ → BaseRevision

pub record SetBody : Type 0 where
  pub human_commit : Bool
  pub scope_kind : Option String
  pub scope_key : Option String
  pub mode : Option String
  pub payload_mode : Option String
  pub base_revision : BaseRevision

pub record PolicyWrite : Type 0 where
  pub scope : Candidate
  pub mode : Mode
  pub payload_mode : PayloadMode
  pub base_revision : Option ℕ

abbrev pub write_key : ScopeKind → Option String → String
write_key account key = "*"
write_key workspace key = clean 300 key
write_key chain key = clean 300 key

abbrev pub base_of : BaseRevision → Result PolicyError (Option ℕ)
base_of absent = ok none
base_of not_whole = fail turnsync_policy_base_revision_invalid
base_of (whole zero) = fail turnsync_policy_base_revision_invalid
base_of (whole (suc n)) = ok (some (suc n))

unfoldable pub normalize_policy_write : SetBody → Result PolicyError PolicyWrite
normalize_policy_write b = do
  kind ← get_or (parse_kind (clean 32 b.scope_kind)) turnsync_policy_scope_invalid
  mode ← get_or (parse_mode (clean 32 b.mode)) turnsync_policy_mode_invalid
  payload ← get_or (parse_payload (clean 64 b.payload_mode)) turnsync_policy_payload_invalid
  unless (not_empty (write_key kind b.scope_key)) turnsync_policy_scope_key_required
  base ← base_of b.base_revision
  ok (record {
    scope = record { scope_kind = kind; scope_key = write_key kind b.scope_key };
    mode = mode;
    payload_mode = payload;
    base_revision = base;
  })

-- What a write has decided when it has read: an insertion, or an update of a revision.
pub data Pending : Type 0 where
  inserting : AuthContext → PolicyWrite → Pending
  updating : AuthContext → PolicyWrite → String → ℕ → Pending

abbrev pub decide :
    AuthContext → PolicyWrite → Option PolicyRow → Option ℕ → Result PolicyError Pending
decide a w none none = ok (inserting a w)
decide a w none (some n) = fail turnsync_policy_conflict
decide a w (some row) none = fail turnsync_policy_revision_required
decide a w (some row) (some n) =
    if nat_eqb n row.revision
    then ok (updating a w row.policy_id row.revision)
    else fail turnsync_policy_conflict

-- `turnSyncPolicySetFromBody` up to its statement.
unfoldable pub begin_set : Option AuthContext → SetBody → Database → Result PolicyError Pending
begin_set auth b db = do
  unless b.human_commit human_confirmation_required
  w ← normalize_policy_write b
  a ← active_context auth db
  decide a w (find_policy a w.scope db.policies) w.base_revision

unfoldable pub new_policy : AuthContext → PolicyWrite → String → String → PolicyRow
new_policy a w id now = record {
  policy_id = id;
  account_id = a.account_id;
  tenant_id = a.tenant_id;
  scope_kind = w.scope.scope_kind;
  scope_key = w.scope.scope_key;
  mode = w.mode;
  payload_mode = w.payload_mode;
  revision = 1;
  updated_by_principal_id = a.principal_id;
  updated_by_connection_id = a.connection_id;
  created_at = now;
  updated_at = now;
}

unfoldable pub revised : AuthContext → PolicyWrite → String → PolicyRow → PolicyRow
revised a w now row = record row {
  mode = w.mode;
  payload_mode = w.payload_mode;
  revision = suc row.revision;
  updated_by_principal_id = a.principal_id;
  updated_by_connection_id = a.connection_id;
  updated_at = now;
}

-- `created`, and the row read back.
pub record Written : Type 0 where
  pub created : Bool
  pub policy : Option PolicyRow

abbrev finish_insert :
    AuthContext
    → PolicyWrite
    → String
    → String
    → Table
    → Option PolicyRow
    → Option PolicyRow
    → Result PolicyError Written × Table
finish_insert a w id now t (some row) slot = (fail constraint_failed, t)
finish_insert a w id now t none (some row) = (fail constraint_failed, t)
finish_insert a w id now t none none =
    let t' = insert id (new_policy a w id now) t in
    (ok (record { created = true; policy = lookup id t' }), t')

abbrev finish_update :
    AuthContext
    → PolicyWrite
    → String
    → ℕ
    → String
    → Table
    → Option PolicyRow
    → Result PolicyError Written × Table
finish_update a w id base now t none = (fail turnsync_policy_conflict, t)
finish_update a w id base now t (some row) =
    let t' = insert id (revised a w now row) t in
    if nat_eqb row.revision base
    then (ok (record { created = false; policy = lookup id t' }), t')
    else (fail turnsync_policy_conflict, t)

-- The statement, and what follows it; `minted` is the id of a new policy. The database refuses a
-- second row of an id or of a scope.
unfoldable pub finish_set : String → String → Pending → Table → Result PolicyError Written × Table
unfolding new_policy revised
finish_set minted now (inserting a w) t =
    finish_insert a w minted now t (lookup minted t) (find_policy a w.scope t)
finish_set minted now (updating a w id base) t = finish_update a w id base now t (lookup id t)
