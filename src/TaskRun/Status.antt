-- ===== src/TaskRun/Status.antt =====
-- src/task-run.js: the statuses of a run and of its dispatch.
pub data TaskStatus : Type 0 where
  proposed queued running completed failed cancelled : TaskStatus

pub data DispatchState : Type 0 where
  not_dispatched dispatched running completed failed cancelled : DispatchState
