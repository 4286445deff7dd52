-- ===== src/TaskRun/Committing.antt =====
-- src/task-run.js, `dispatchTaskRun`: what its checks establish of the run and of the executor.
use cairnstone_v.Prelude.{
  subst, String, ◌≡◌, refl, true, ◌⊎◌, inl, inr, some, and-eq-true, string_eq,
}
use cairnstone_v.Prelude.Names.{named, actor_pattern, kind_pattern}
use cairnstone_v.Prelude.Value.{Value, str, undefined, null, other, bool, nat, neg}
use cairnstone_v.Prelude.Dict.{lookup}
use cairnstone_v.Prelude.Result.{
  unless-eq-ok, ok, ◌>>=◌, bind-eq-ok, fail-ne-ok, ok-injective, get_or-eq-ok, map_error-eq-ok,
}
use cairnstone_v.Executors.Profiles.{Profile}
use cairnstone_v.Executors.Policy.{is_exactly}
use cairnstone_v.Executors.Context.{get_executor_profile}
use cairnstone_v.Executors.Pack.{PackJson}
use cairnstone_v.Executors.Adapters.{
  AdapterResult, Minted, Invocation, id_text, invoke_executor_adapter, get_adapter_contract,
}
use cairnstone_v.Executors.Handover.{
  HasRun, completed, queued, invoke_executor_adapter-IsHandedOver,
}
use cairnstone_v.TaskRun.{TaskRow, Table}
use cairnstone_v.TaskRun.Status.{TaskStatus, DispatchState}
use cairnstone_v.TaskRun.Routing.{
  Fresh, DispatchRequest, Committed, actor_may_dispatch, is_proposed, is_not_dispatched,
  check_commit,
}
use cairnstone_v.TaskRun.Dispatch.{Ready, task_of, as_dispatched, check_dispatch}

proposed-of : (s : TaskStatus) → is_proposed s ≡ true → s ≡ TaskStatus.proposed
proposed-of TaskStatus.proposed h = refl
proposed-of TaskStatus.queued h = cc
proposed-of TaskStatus.running h = cc
proposed-of TaskStatus.completed h = cc
proposed-of TaskStatus.failed h = cc
proposed-of TaskStatus.cancelled h = cc

undispatched-of :
    (s : DispatchState) → is_not_dispatched s ≡ true → s ≡ DispatchState.not_dispatched
undispatched-of DispatchState.not_dispatched h = refl
undispatched-of DispatchState.dispatched h = cc
undispatched-of DispatchState.running h = cc
undispatched-of DispatchState.completed h = cc
undispatched-of DispatchState.failed h = cc
undispatched-of DispatchState.cancelled h = cc

-- The commit that a dispatch rests on.
pub record IsCommit (r : DispatchRequest) (t : Table) (c : Committed) : Type 0 where
  pub human : is_exactly true r.human_commit ≡ true
  pub named_id : named (kind_pattern "tr") r.task_run_id ≡ some c.id
  pub named_actor : named actor_pattern r.committed_by ≡ some c.committer
  pub found : lookup c.id t ≡ some c.row
  pub allowed : actor_may_dispatch c.row c.committer ≡ true
  pub was_proposed : c.row.status ≡ TaskStatus.proposed
  pub was_undispatched : c.row.dispatch_state ≡ DispatchState.not_dispatched

check_commit-IsCommit :
    (r : DispatchRequest) (t : Table) (c : Committed) → check_commit r t ≡ ok c → IsCommit r t c
unfolding check_commit
check_commit-IsCommit r t c h =
    let (_, human, h1) = bind-eq-ok _ _ h in
    let (id, named_id, h2) = bind-eq-ok _ _ h1 in
    let (who, named_actor, h3) = bind-eq-ok _ _ h2 in
    let (row, found, h4) = bind-eq-ok _ _ h3 in
    let (_, allowed, h5) = bind-eq-ok _ _ h4 in
    let (_, able, h6) = bind-eq-ok _ _ h5 in
    let (p, n) = and-eq-true _ _ (unless-eq-ok _ _ able) in
    subst (IsCommit r t) (ok-injective h6) (record {
      human = unless-eq-ok _ _ human;
      named_id = get_or-eq-ok _ _ id named_id;
      named_actor = get_or-eq-ok _ _ who named_actor;
      found = get_or-eq-ok _ _ row found;
      allowed = unless-eq-ok _ _ allowed;
      was_proposed = proposed-of _ p;
      was_undispatched = undispatched-of _ n;
    })

-- A status that a dispatch gives.
abbrev pub IsGiven : TaskStatus → DispatchState → Type 0
IsGiven s d =
    ((s ≡ TaskStatus.queued) × (d ≡ DispatchState.dispatched))
    ⊎ ((s ≡ TaskStatus.completed) × (d ≡ DispatchState.completed))

HasRun-IsGiven :
    (i : Invocation) (v : Value) (a : AdapterResult)
    → HasRun i v a
    → IsGiven a.task_status a.dispatch_state
HasRun-IsGiven i v a (completed tool e m u s d) = inr (s, d)
HasRun-IsGiven i v a (queued e l s d) = inl (s, d)

-- An executor that an adapter has taken is registered under the text of its id.
abbrev pub IsRegistered : String → Type 0
IsRegistered id = (p : Profile) × (get_executor_profile (str id) ≡ ok p)

got-IsRegistered :
    (v : Value) (p : Profile) → get_executor_profile v ≡ ok p → IsRegistered (id_text v)
unfolding get_executor_profile ◌>>=◌
got-IsRegistered (str s) p h = (p, h)
got-IsRegistered undefined p h = fail-ne-ok h
got-IsRegistered null p h = fail-ne-ok h
got-IsRegistered other p h = fail-ne-ok h
got-IsRegistered (bool b) p h = fail-ne-ok h
got-IsRegistered (nat n) p h = fail-ne-ok h
got-IsRegistered (neg n) p h = fail-ne-ok h

-- What a dispatch is ready to write.
pub record IsReady (r : DispatchRequest) (t : Table) (d : Ready) : Type 0 where
  pub commit : IsCommit r t d.committed
  pub given : IsGiven d.result.task_status d.result.dispatch_state
  pub registered : IsRegistered (id_text d.chosen.executor_id)

invoked-IsRegistered :
    (json : PackJson) (i : Invocation) (v stated : Value) (row : TaskRow) (m : Minted)
    (a : AdapterResult)
    → invoke_executor_adapter json i v stated (task_of row) m ≡ ok a
    → IsRegistered (id_text v)
unfolding invoke_executor_adapter get_adapter_contract
invoked-IsRegistered json i v stated row m a h =
    let (_, e, _) = bind-eq-ok _ _ h in
    let (p, g, _) = bind-eq-ok _ _ (map_error-eq-ok _ _ e) in got-IsRegistered v p g

pub check_dispatch-IsReady :
    (json : PackJson) (f : Fresh) (r : DispatchRequest) (t : Table) (d : Ready)
    → check_dispatch json f r t ≡ ok d
    → IsReady r t d
unfolding check_dispatch
check_dispatch-IsReady json f r t d h =
    let (c, commit, h1) = bind-eq-ok _ _ h in
    let (x, _, h2) = bind-eq-ok _ _ h1 in
    let (a, made, h3) = bind-eq-ok _ _ h2 in
    let invoked = map_error-eq-ok _ _ made in
    let handed =
      invoke_executor_adapter-IsHandedOver json r.invocation x.executor_id x.context_mode
        (task_of c.row) f.minted a invoked in
    subst (IsReady r t) (ok-injective h3) (record {
      commit = check_commit-IsCommit r t c commit;
      given = HasRun-IsGiven r.invocation x.executor_id a handed.has_run;
      registered =
          invoked-IsRegistered json r.invocation x.executor_id x.context_mode c.row f.minted a
            invoked;
    })

-- What the UPDATE gives to whatever row it meets.
pub check_dispatch-IsGiven :
    (json : PackJson) (f : Fresh) (r : DispatchRequest) (t : Table) (d : Ready) (row : TaskRow)
    → check_dispatch json f r t ≡ ok d
    → IsGiven
        (as_dispatched f r d.committed d.chosen d.result row).status
        (as_dispatched f r d.committed d.chosen d.result row).dispatch_state
unfolding as_dispatched
check_dispatch-IsGiven json f r t d row h = (check_dispatch-IsReady json f r t d h).given
