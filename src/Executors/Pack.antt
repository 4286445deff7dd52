-- ===== src/Executors/Pack.antt =====
-- src/executor-adapters.js: the envelope of references, and the pack that is compiled from it.
-- `base_commit_sha` and the hints of scopes are texts; the budget's overrides are numbers.
use cairnstone_v.Prelude.{
  ℕ, ◌-◌, String, Bool, true, false, Option, none, some, List, [], ◌∷◌, ◌++◌, if◌then◌else◌, ltb,
  nat_eqb, length, take, string_eq,
}
use cairnstone_v.Prelude.Text.{js_length, trim, slice_units}
use cairnstone_v.Prelude.Names.{nonempty_text}
use cairnstone_v.Prelude.Value.{Value, as_string}
use cairnstone_v.Prelude.Words.{distinct_after, join_texts}
use cairnstone_v.Executors.Capabilities.{list_or_empty}
use cairnstone_v.Executors.Digest.{simple_digest, extract_repo_sha}
use Prim.Native.String as Text

-- The fields of a task run that are handed over.
pub record Task : Type 0 where
  pub task_run_id : String
  pub requested_intent : String
  pub note : Option String
  pub attachment_refs : List String
  pub object_refs : List String
  pub parent_task_run_id : Option String

pub record DispatchArgs : Type 0 where
  pub base_commit_sha : Option String
  pub access_grant_ids : Option (List Value)
  pub scope_hints : Option (List String)
  pub compiled_body : Value
  pub max_pack_bytes : Option ℕ
  pub max_body_chars : Option ℕ
  pub max_refs : Option ℕ
  pub max_omission_entries : Option ℕ
  pub force_compiled_pack : Bool

pub record PackBudget : Type 0 where
  pub max_pack_bytes : ℕ
  pub max_body_chars : ℕ
  pub max_refs : ℕ
  pub max_omission_entries : ℕ

abbrev compiled_context_budget : PackBudget
compiled_context_budget = record {
  max_pack_bytes = 48000;
  max_body_chars = 24000;
  max_refs = 100;
  max_omission_entries = 64;
}

abbrev pub override : Option ℕ → ℕ → ℕ
override none n = n
override (some m) n = m

-- `{ ...COMPILED_CONTEXT_BUDGET, ...compiled_pack_budget }`
unfoldable pub budget_of : DispatchArgs → PackBudget
budget_of a = record {
  max_pack_bytes = override a.max_pack_bytes compiled_context_budget.max_pack_bytes;
  max_body_chars = override a.max_body_chars compiled_context_budget.max_body_chars;
  max_refs = override a.max_refs compiled_context_budget.max_refs;
  max_omission_entries =
      override a.max_omission_entries compiled_context_budget.max_omission_entries;
}

pub data Omission : Type 0 where
  full_stone_bodies vault_dump : Omission
  excess_refs : ℕ → Omission

pub record Envelope : Type 0 where
  pub task_run_id : String
  pub selected_executor_id : String
  pub intent : String
  pub note : Option String
  pub attachment_refs : List String
  pub object_refs : List String
  pub scope_hints : List String
  pub access_grant_ids : List String
  pub immutable_base_sha : Option String
  pub parent_task_run_id : Option String
  pub compiled_body_omitted : Bool

pub record Pack : Type 0 where
  pub task_run_id : String
  pub selected_executor_id : String
  pub provenance_refs : List String
  pub immutable_base_sha : Option String
  pub access_grant_ids : List String
  pub scope_hints : List String
  pub body : String
  pub body_chars : ℕ
  pub omissions : List Omission
  pub budget : PackBudget
  pub receipt_digest : String

-- `JSON.stringify`: the text of what the digest covers (references, commit, body, omissions), and the
-- length in bytes of a pack's text.
pub record PackJson : Type 0 where
  pub digest_text : List String → Option String → String → List Omission → String
  pub pack_bytes : Pack → ℕ

abbrev grant_texts : List Value → List String
grant_texts [] = []
grant_texts (v ∷ vs) = elim (nonempty_text v) [
  | none ↦ grant_texts vs
  | some s ↦ slice_units 128 s ∷ grant_texts vs
]

unfoldable normalize_access_grant_ids : Option (List Value) → List String
normalize_access_grant_ids input = take 32 (distinct_after [] (grant_texts (list_or_empty input)))

abbrev pub is_empty : String → Bool
is_empty s = nat_eqb (js_length s) 0

abbrev trimmed_scopes : List String → List String
trimmed_scopes [] = []
trimmed_scopes (s ∷ ss) =
    if is_empty (trim s) then trimmed_scopes ss else trim s ∷ trimmed_scopes ss

abbrev scopes_of : Option (List String) → List String
scopes_of none = []
scopes_of (some ss) = take 16 (trimmed_scopes ss)

-- `base_commit_sha || extractRepoSha(refs) || null`
abbrev base_or : Option String → List String → Option String
base_or (some s) refs = if is_empty s then extract_repo_sha refs else some s
base_or none refs = extract_repo_sha refs

abbrev pub all_refs : Task → List String
all_refs t = distinct_after [] (t.attachment_refs ++ t.object_refs)

unfoldable pub min_envelope : String → Task → DispatchArgs → Envelope
unfolding normalize_access_grant_ids
min_envelope executor_id t a = record {
  task_run_id = t.task_run_id;
  selected_executor_id = executor_id;
  intent = t.requested_intent;
  note = t.note;
  attachment_refs = t.attachment_refs;
  object_refs = t.object_refs;
  scope_hints = scopes_of a.scope_hints;
  access_grant_ids = normalize_access_grant_ids a.access_grant_ids;
  immutable_base_sha = base_or a.base_commit_sha (all_refs t);
  parent_task_run_id = t.parent_task_run_id;
  compiled_body_omitted = true;
}

abbrev pub text_or_empty : Option String → String
text_or_empty none = ""
text_or_empty (some s) = s

unfoldable stub_body : Envelope → List String → PackBudget → String
stub_body e refs b = join_texts "\n" (
    Text.◌++◌ "task_run_id=" e.task_run_id
    ∷ Text.◌++◌ "intent=" e.intent
    ∷ Text.◌++◌ "note=" (slice_units 512 (text_or_empty e.note))
    ∷ Text.◌++◌ "refs=" (join_texts "," (take b.max_refs refs))
    ∷ Text.◌++◌ "immutable_base_sha=" (text_or_empty e.immutable_base_sha)
    ∷ Text.◌++◌ "access_grant_ids=" (join_texts "," e.access_grant_ids)
    ∷ [])

-- `isNonEmptyString(body) ? String(body) : null`
abbrev pub given_body : Value → Option String
given_body v = elim (as_string v) [
  | none ↦ none
  | some s ↦ if is_empty (trim s) then none else some s
]

abbrev is_given : Option String → Bool
is_given none = false
is_given (some s) = true

abbrev pub body_omissions : Option String → List Omission
body_omissions none = full_stone_bodies ∷ vault_dump ∷ []
body_omissions (some s) = []

abbrev pub ref_omissions : ℕ → ℕ → List Omission
ref_omissions count limit = if ltb limit count then excess_refs (count - limit) ∷ [] else []

abbrev body_or : Option String → String → String
body_or none stub = stub
body_or (some s) stub = s

unfoldable pub pack_of : PackJson → Envelope → List String → Option String → PackBudget → Pack
unfolding stub_body simple_digest
pack_of json e refs given b =
    let body = body_or given (stub_body e refs b) in
    let omissions =
      take b.max_omission_entries
        (body_omissions given ++ ref_omissions (length refs) b.max_refs) in
    let provenance = take b.max_refs refs in
    record {
      task_run_id = e.task_run_id;
      selected_executor_id = e.selected_executor_id;
      provenance_refs = provenance;
      immutable_base_sha = e.immutable_base_sha;
      access_grant_ids = e.access_grant_ids;
      scope_hints = e.scope_hints;
      body = body;
      body_chars = js_length body;
      omissions = omissions;
      budget = b;
      receipt_digest =
          simple_digest (json.digest_text provenance e.immutable_base_sha body omissions);
    }
