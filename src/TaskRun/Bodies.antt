-- ===== src/TaskRun/Bodies.antt =====
-- src/task-run.js: the calls from a request's body, with a database at hand.
use cairnstone_v.Prelude.{String, Option, none, some, if◌then◌else◌, string_eq}
use cairnstone_v.Prelude.Names.{named, nonempty_text, actor_pattern}
use cairnstone_v.Prelude.Value.{Value, str, truthy}
use cairnstone_v.Prelude.Result.{Result, ok, fail, ◌>>=◌, ◌>>◌, get_or}
use cairnstone_v.AccessGrant.Create.{RefParser}
use cairnstone_v.Executors.Pack.{PackJson}
use cairnstone_v.TaskRun.{TaskRow, Table, TaskError, get_task_run, cancel_task_run}
use cairnstone_v.TaskRun.Proposal.{ProposeArgs, ProposeError}
use cairnstone_v.TaskRun.Propose.{propose_task_run}
use cairnstone_v.TaskRun.Routing.{Fresh, DispatchRequest, DispatchError}
use cairnstone_v.TaskRun.Dispatch.{dispatch_task_run}
use cairnstone_v.TaskRun.Query.{Progress, task_run_status}

abbrev body_actor : Value → Value → Result TaskError String
body_actor task_run_id actor_id = do
  actor ← get_or (named actor_pattern actor_id) (TaskError.invalid_actor "actor_id")
  get_or (nonempty_text task_run_id) TaskError.task_run_id_required
  ok actor

unfoldable get_task_run_from_body : Value → Value → Table → Result TaskError TaskRow
get_task_run_from_body task_run_id actor_id t = do
  actor ← body_actor task_run_id actor_id
  get_task_run task_run_id (str actor) t

unfoldable task_run_status_from_body : Value → Value → Table → Result TaskError Progress
task_run_status_from_body task_run_id actor_id t = do
  actor ← body_actor task_run_id actor_id
  task_run_status task_run_id (str actor) t

unfoldable cancel_task_run_from_body :
    String → String → Value → Value → Table → Result TaskError TaskRow × Table
cancel_task_run_from_body now reason task_run_id actor_id t =
    elim (body_actor task_run_id actor_id) [
      | fail e ↦ (fail e, t)
      | ok actor ↦ cancel_task_run now reason task_run_id (str actor) t
    ]

-- `body.requested_by ? body.requested_by : body.actor_id`, checked.
unfoldable propose_task_run_from_body :
    RefParser
    → String
    → String
    → (actor_id : Value) → ProposeArgs
    → Table
    → Option (Result ProposeError TaskRow) × Table
propose_task_run_from_body parse now minted actor_id a t =
    elim (named actor_pattern (if truthy a.requested_by then a.requested_by else actor_id)) [
      | none ↦ (none, t)
      | some actor ↦
          let (answer, t') =
            propose_task_run parse now minted (record a { requested_by = str actor }) t in
          (some answer, t')
    ]

data BodyError : Type 0 where
  invalid_committed_by committed_by_required invalid_actor_id task_run_id_required : BodyError
  refused : DispatchError → BodyError

abbrev committer_of : Value → Value → Result BodyError String
committer_of committed_by actor_id =
    if truthy committed_by
    then get_or (named actor_pattern committed_by) BodyError.invalid_committed_by
    else if truthy actor_id
    then get_or (named actor_pattern actor_id) BodyError.invalid_actor_id
    else fail BodyError.committed_by_required

abbrev check_dispatch_body : DispatchRequest → Value → Result BodyError String
check_dispatch_body r actor_id = do
  committer ← committer_of r.committed_by actor_id
  get_or (nonempty_text r.task_run_id) BodyError.task_run_id_required
  ok committer

abbrev refused_or : Result DispatchError TaskRow → Result BodyError TaskRow
refused_or (ok row) = ok row
refused_or (fail e) = fail (refused e)

unfoldable dispatch_task_run_from_body :
    PackJson
    → Fresh
    → DispatchRequest
    → (actor_id : Value) → Table
    → Result BodyError TaskRow × Table
dispatch_task_run_from_body json f r actor_id t = elim (check_dispatch_body r actor_id) [
  | fail e ↦ (fail e, t)
  | ok committer ↦
      let (answer, t') = dispatch_task_run json f (record r { committed_by = str committer }) t in
      (refused_or answer, t')
]
