-- ===== src/TaskRun/Proposal.antt =====
-- src/task-run.js, `proposeTaskRun`: what a proposal asks for, read from its arguments.
use cairnstone_v.Prelude.{
  ℕ, String, Bool, true, false, Option, none, some, List, [], ◌∷◌, if◌then◌else◌, leb, length, ◌==◌,
  string_eq,
}
use cairnstone_v.Prelude.Text.{trim, slice_units}
use cairnstone_v.Prelude.Names.{named, nonempty_text, actor_pattern, kind_pattern}
use cairnstone_v.Prelude.Value.{Value, undefined, null, str, as_string, truthy}
use cairnstone_v.Prelude.Words.{distinct_after}
use cairnstone_v.Prelude.Result.{Result, ok, fail, ◌>>=◌, ◌>>◌, unless, get_or, map_error}
use cairnstone_v.AccessGrant.Create.{RefParser}
use cairnstone_v.Executors.Capabilities.{
  ListError, too_large, invalid_entry, max_caps, max_refs, max_ref_len, list_or_empty, each_entry,
  RefItem, ref_text,
}
use cairnstone_v.Executors.Policy.{Budget}

pub record ProposeArgs : Type 0 where
  pub task_run_id : Value
  pub requested_by : Value
  pub assignee_actor_id : Value
  pub conversation_id : Value
  pub parent_turn_id : Value
  pub attachment_refs : Option (List RefItem)
  pub object_refs : Option (List RefItem)
  pub note : Value
  pub requested_intent : Value
  pub parent_task_run_id : Value
  pub required_capabilities : Option (List Value)
  pub policy_preset : Option String
  pub budget_envelope : Option Budget

pub data ProposeError : Type 0 where
  invalid_task_run_propose invalid_assignee_actor_id invalid_conversation_id : ProposeError
  invalid_parent_turn_id attachment_refs_required invalid_note : ProposeError
  attachment_refs object_refs required_capabilities : ListError → ProposeError
  invalid_parent_task_run_id parent_task_run_not_found : ProposeError
  parent_task_run_not_dispatchable_for_subdelegation : ProposeError
  delegation_depth_exceeded delegation_fanout_exceeded : ProposeError
  child_attachment_ceiling_violation child_object_ref_ceiling_violation : ProposeError
  child_capability_ceiling_violation task_run_already_exists type_error : ProposeError

abbrev pub max_delegation_depth : ℕ
max_delegation_depth = 2

abbrev pub max_fanout : ℕ
max_fanout = 3

abbrev max_note : ℕ
max_note = 2000

-- `parseObjectRef` of a reference that was trimmed and cut.
abbrev ref_entry : RefParser → RefItem → Result ListError String
ref_entry parse item = elim (ref_text item) [
  | none ↦ fail invalid_entry
  | some s ↦ map_error (λ e. invalid_entry) (parse (str (slice_units max_ref_len s)))
]

unfoldable pub normalize_ref_list : RefParser → List RefItem → Result ListError (List String)
normalize_ref_list parse list =
    if leb (length list) max_refs
    then each_entry (ref_entry parse) list >>= (λ xs. ok (distinct_after [] xs))
    else fail too_large

abbrev cap_entry : Value → Result ListError String
cap_entry v = elim (nonempty_text v) [ none ↦ fail invalid_entry | some s ↦ ok (slice_units 128 s) ]

unfoldable pub normalize_caps : Option (List Value) → Result ListError (List String)
normalize_caps input =
    if leb (length (list_or_empty input)) max_caps
    then each_entry cap_entry (list_or_empty input) >>= (λ xs. ok (distinct_after [] xs))
    else fail too_large

-- `id ? taskRunId(id) : "tr:" + uuid`
abbrev pub id_or : Value → String → Option String
id_or v minted = if truthy v then named (kind_pattern "tr") v else some minted

abbrev pub named_or : Option String → ProposeError → Result ProposeError (Option String)
named_or none e = fail e
named_or (some s) e = ok (some s)

-- An actor that may be left out.
abbrev pub assignee : Value → Result ProposeError (Option String)
assignee undefined = ok none
assignee null = ok none
assignee v = elim (as_string v) [
  | none ↦ fail invalid_assignee_actor_id
  | some s ↦
      if s == "" then ok none else named_or (named actor_pattern (str s)) invalid_assignee_actor_id
]

-- An id of one kind, where the argument is truthy: of a text, trimmed.
abbrev pub optional_id : {E : Type 0} → String → E → Value → Result E (Option String)
optional_id kind e v =
    if truthy v
    then elim (as_string v) [
      | none ↦ fail e
      | some s ↦ if kind_pattern kind (trim s) then ok (some (trim s)) else fail e
    ]
    else ok none

abbrev note_text : Value → Result ProposeError (Option String)
note_text undefined = ok none
note_text null = ok none
note_text v = elim (as_string v) [
  | none ↦ fail invalid_note
  | some s ↦ if s == "" then ok none else elim (nonempty_text (str s)) [
    | none ↦ fail invalid_note
    | some n ↦ ok (some (slice_units max_note n))
  ]
]

abbrev intent_text : Value → String
intent_text v = elim (nonempty_text v) [ none ↦ "ask-to-work" | some s ↦ slice_units 64 s ]

-- `a.length ? a : b`
abbrev pub if_any {ℓ} : {A : Type ℓ} → List A → List A → List A
if_any [] b = b
if_any (x ∷ xs) b = x ∷ xs

abbrev pub any_ref : List String → List String → Bool
any_ref [] [] = false
any_ref [] (y ∷ ys) = true
any_ref (x ∷ xs) ys = true

-- What a proposal asks for, without its parent.
pub record Proposal : Type 0 where
  pub task_run_id : String
  pub requested_by : String
  pub assignee_actor_id : Option String
  pub conversation_id : Option String
  pub parent_turn_id : Option String
  pub attachment_refs : List String
  pub object_refs : List String
  pub required_capabilities : List String
  pub note : Option String
  pub requested_intent : String

unfoldable pub check_proposal : RefParser → String → ProposeArgs → Result ProposeError Proposal
check_proposal parse minted a = do
  requester ← get_or (named actor_pattern a.requested_by) invalid_task_run_propose
  id ← get_or (id_or a.task_run_id minted) invalid_task_run_propose
  who ← assignee a.assignee_actor_id
  conversation ← optional_id "cvs" invalid_conversation_id a.conversation_id
  turn ← optional_id "turn" invalid_parent_turn_id a.parent_turn_id
  attachments ←
      map_error attachment_refs (normalize_ref_list parse (list_or_empty a.attachment_refs))
  objects ← map_error object_refs (
      normalize_ref_list parse
        (if_any (list_or_empty a.object_refs) (list_or_empty a.attachment_refs)))
  unless (any_ref attachments objects) attachment_refs_required
  caps ← map_error required_capabilities (normalize_caps a.required_capabilities)
  noted ← note_text a.note
  ok (record {
    task_run_id = id;
    requested_by = requester;
    assignee_actor_id = who;
    conversation_id = conversation;
    parent_turn_id = turn;
    attachment_refs = if_any attachments objects;
    object_refs = objects;
    required_capabilities = caps;
    note = noted;
    requested_intent = intent_text a.requested_intent;
  })
