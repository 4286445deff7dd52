-- ===== src/Executors/Handover.antt =====
-- src/executor-adapters.js: what a dispatch carries to the executor, and what its result says.
use cairnstone_v.Prelude.{
  if-of-true, if-of-false, subst, ◌≡◌, refl, true, false, contains_sound, In, inl, inr, Bool-cases,
  string_eq, String,
}
use cairnstone_v.Prelude.Value.{Value}
use cairnstone_v.Prelude.Result.{ok, bind-eq-ok, ok-injective, map_error-eq-ok}
use cairnstone_v.TaskRun.Status.{TaskStatus, DispatchState}
use cairnstone_v.Executors.Policy.{is_text}
use cairnstone_v.Executors.Pack.{Task, PackJson, budget_of, given_body}
use cairnstone_v.Executors.Envelope.{DispatchContext}
use cairnstone_v.Executors.Adapters.{
  AdapterContract, executed_allowlisted_read, AdapterResult, deterministic_mcp_allowlist, Minted,
  Invocation, run_deterministic, tool_named, stub_job, invoke_executor_adapter,
}
use cairnstone_v.Executors.Limits.{
  Carries, HandsOver, Carries-HandsOver, if_passed, context-Carries,
}

-- A read that the deterministic executor has made, or a job that waits.
pub data HasRun (i : Invocation) (executor_id : Value) (r : AdapterResult) : Type 0 where
  completed :
      (tool : String)
      → is_text executor_id "exec:deterministic-mcp" ≡ true
      → In tool deterministic_mcp_allowlist
      → r.result_summary ≡ executed_allowlisted_read tool
      → r.task_status ≡ TaskStatus.completed
      → r.dispatch_state ≡ DispatchState.completed
      → HasRun i executor_id r
  queued :
      is_text executor_id "exec:deterministic-mcp" ≡ false
      → r.adapter_live ≡ false
      → r.task_status ≡ TaskStatus.queued
      → r.dispatch_state ≡ DispatchState.dispatched
      → HasRun i executor_id r

-- What a successful invocation did.
pub record IsHandedOver (json : PackJson) (i : Invocation) (executor_id : Value) (r : AdapterResult)
    : Type 0 where
  pub carries : HandsOver json i.args r.dispatch_context
  pub has_run : HasRun i executor_id r

handed-over :
    (json : PackJson) (i : Invocation) (executor_id : Value) (tool : String) (m : Minted)
    (c : AdapterContract) (ctx : DispatchContext) (r : AdapterResult)
    → is_text executor_id "exec:deterministic-mcp" ≡ true
    → Carries json (given_body i.args.compiled_body) (budget_of i.args) ctx
    → run_deterministic i.read i.executor_arg tool m c ctx ≡ ok r
    → IsHandedOver json i executor_id r
unfolding run_deterministic
handed-over json i executor_id tool m c ctx r d carry h =
    let (listed, ran, same) = if_passed _ _ _ _ _ h in
    subst (IsHandedOver json i executor_id) same (record {
      carries = Carries-HandsOver json i.args ctx carry;
      has_run =
          completed tool d (contains_sound tool deterministic_mcp_allowlist listed) refl refl refl;
    })

-- A successful invocation with a native context hands over references and no compiled body; with a
-- compiled context it hands over a pack within the limits that the call names, or the standard ones
-- (48000 bytes, 100 references, 64 omissions) where it names none, with the body that was given, which
-- has its own limit (24000); a body that is made up here counts in the bytes alone. It is either one completed read of the allowlist, by the deterministic
-- executor, or a queued job of another one that is not live.
pub invoke_executor_adapter-IsHandedOver :
    (json : PackJson) (i : Invocation) (executor_id stated : Value) (task : Task) (m : Minted)
    (r : AdapterResult)
    → invoke_executor_adapter json i executor_id stated task m ≡ ok r
    → IsHandedOver json i executor_id r
unfolding invoke_executor_adapter stub_job
invoke_executor_adapter-IsHandedOver json i executor_id stated task m r h =
    let (c, _, h1) = bind-eq-ok _ _ h in
    let (ctx, e, h2) = bind-eq-ok _ _ h1 in
    let carry = context-Carries json executor_id stated task i.args ctx (map_error-eq-ok _ _ e) in
    elim (Bool-cases (is_text executor_id "exec:deterministic-mcp")) [
      | inl y ↦
          handed-over json i executor_id (tool_named i.tool_id) m c ctx r y carry
            (if-of-true _ _ _ y h2)
      | inr n ↦
          subst (IsHandedOver json i executor_id) (ok-injective (if-of-false _ _ _ n h2)) (record {
            carries = Carries-HandsOver json i.args ctx carry;
            has_run = queued n refl refl refl;
          })
    ]
