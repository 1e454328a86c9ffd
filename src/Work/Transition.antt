-- ===== src/Work/Transition.antt =====
-- The changes of a task's record in src/personal_ai_brain/work_store.py: `transition_locked`,
-- `transition`, `cancel` and `storage_failure`; and `recovery` of work_runner.py.
pub mod History
pub mod Chains
use personal_ai_brain.Prelude.{
  ℕ, String, Bool, true, false, not, ◌&&◌, ◌||◌, Option, none, some, List, [], ◌∷◌, ◌++◌, coalesce,
  ok, err, if◌then◌else◌, Result, is_some, continue, or_raise, ◌>>=◌, str_eq,
}
use personal_ai_brain.Work.Store.{
  Status, submitted, reserved, running, succeeded, failed, blocked, cancelled, interrupted, Entry,
  TaskRecord, TestResult, not_completed, Audit, Disk, Host, Call, same_status, is_terminal, edge,
  load, audit_of, can_write, has_audit, update_audit, save, StoreError, os_error,
  invalid_transition, no_record, unknown_task, coding_type,
}

-- `**extra` of `transition`, by the keys that its callers give.
pub record Extra : Type 0 where
  pub attempts : Option ℕ
  pub base_sha : Option String
  pub branch : Option String
  pub started_at : Option String

-- A call whose result is not used; its error is raised on.
abbrev pub forget : Result StoreError TaskRecord × Disk → Result StoreError (Unit {0}) × Disk
forget (ok r, d) = (ok tt, d)
forget (err e, d) = (err e, d)

abbrev pub no_extra : Extra
no_extra = record { attempts = none; base_sha = none; branch = none; started_at = none }

unfoldable pub set_result : TaskRecord → Disk → Disk
set_result r d = record d {
  audit = update_audit r.task_id (λ (a : Audit). record a { result = r }) d.audit;
}

abbrev pub tested : String → TestResult → Disk → Disk
tested id t d = record d {
  audit = update_audit id (λ (a : Audit). record a { test_result = t }) d.audit;
}

-- `atomic_json(artifacts / 'test-result.json', ...)`
unfoldable pub set_test_result : Host → String → TestResult → Call (Unit {0})
set_test_result host id t d =
    if has_audit id d && can_write host then (ok tt, tested id t d) else (err os_error, d)

-- Statuses that a requested cancellation forbids.
unfoldable pub is_progress : Status → Bool
is_progress reserved = true
is_progress running = true
is_progress succeeded = true
is_progress _ = false

-- Whether a coding task has its agent-result.json, which the loop reads; others need none.
abbrev pub can_read_agent : TaskRecord → Option Audit → Bool
can_read_agent r none = false
can_read_agent r (some a) = not (str_eq r.request.task_type coding_type) || is_some a.agent_result

module _ (host : Host) where
  -- The record that `transition_locked` writes.
  unfoldable pub moved : TaskRecord → Status → String → Extra → TaskRecord
  moved r status code extra = record r {
    attempts = elim extra.attempts [ none ↦ r.attempts | some n ↦ n ];
    base_sha = coalesce extra.base_sha r.base_sha;
    branch = coalesce extra.branch r.branch;
    started_at = coalesce extra.started_at r.started_at;
    status = status;
    history = r.history ++ record { status = status; at = host.stamp; code = code } ∷ [];
    finished_at = if is_terminal status then some host.stamp else r.finished_at;
  }

  unfoldable pub transition_locked : TaskRecord → Status → String → Extra → Call TaskRecord
  transition_locked r status code extra d =
      let r' = moved r status code extra in
      if not (edge r.status status)
      then (err invalid_transition, d)
      else if not (can_write host)
      then (err os_error, d)
      else if not (is_terminal status)
      then (ok r', save r' d)
      else if has_audit r.task_id d
      then (ok r', save r' (set_result r' d))
      else (err os_error, d)

  -- `transition` once the record is loaded.
  unfoldable pub transition_loaded : Status → String → Extra → Option TaskRecord → Call TaskRecord
  transition_loaded status code extra none d = (err no_record, d)
  transition_loaded status code extra (some r) d =
      if is_terminal r.status
      then (ok r, d)
      else if r.cancel_requested && is_progress status
      then transition_locked r cancelled "cancellation_requested" extra d
      else transition_locked r status code extra d

  unfoldable pub transition : String → Status → String → Extra → Call TaskRecord
  transition id status code extra d = transition_loaded status code extra (load id d) d

  -- `cancel` once the record is loaded.
  unfoldable pub cancel_loaded : Option TaskRecord → Call TaskRecord
  cancel_loaded none d = (err unknown_task, d)
  cancel_loaded (some r) d =
      let asked : TaskRecord = record r {
        cancel_requested = true;
        cancel_requested_at = some host.stamp;
      } in
      if is_terminal r.status
      then (ok r, d)
      else if same_status r.status submitted
      then transition_locked asked cancelled "cancelled_before_reservation" no_extra d
      else if not (can_write host)
      then (err os_error, d)
      else (ok asked, save asked d)

  unfoldable pub cancel : String → Call TaskRecord
  cancel id d = cancel_loaded (load id d) d

  unfoldable pub release_reserve : String → Disk → Disk
  release_reserve id d = record d {
    audit = update_audit id (λ (a : Audit). record a { reserve = false }) d.audit;
  }

  -- `storage_failure` once the record is loaded and the reserve released.
  unfoldable pub fail_storage : String → Option TaskRecord → Call TaskRecord
  fail_storage id none d = (err no_record, d)
  fail_storage id (some r) d =
      if is_terminal r.status
      then (ok r, d)
      else if not (can_write host)
      then (err os_error, d)
      else transition id failed "storage_error" no_extra (record d {
        audit =
            update_audit id
              (λ (a : Audit). record a {
                execution_log = "storage_error; task not retried";
                test_result = not_completed "storage_error";
              })
              d.audit;
      })

  -- `storage_failure`, where the directory's `sync_directory` raises if it is missing.
  unfoldable pub storage_failure : String → Call TaskRecord
  storage_failure id d =
      let freed = release_reserve id d in
      if has_audit id d then fail_storage id (load id freed) freed else (err os_error, d)

  -- The files that the loop of `Runner.recovery` writes before the transition, if it can.
  unfoldable pub marked : TaskRecord → Disk → Disk
  marked r d = record d {
    audit =
        update_audit r.task_id
          (λ (a : Audit). record a {
            test_result = not_completed "interrupted_no_retry";
            agent_result =
                if str_eq r.request.task_type coding_type
                then some "interrupted"
                else a.agent_result;
          })
          d.audit;
  }

  unfoldable pub mark_interrupted : TaskRecord → Call (Unit {0})
  mark_interrupted r d =
      if not (has_audit r.task_id d && can_write host)
      then (err os_error, d)
      else if can_read_agent r (audit_of r.task_id d)
      then (ok tt, marked r d)
      else (err os_error, tested r.task_id (not_completed "interrupted_no_retry") d)

  -- The body of the loop of `Runner.recovery` for one record.
  unfoldable pub recover_one : TaskRecord → Call (Unit {0})
  recover_one r d =
      if same_status r.status reserved || same_status r.status running
      then continue (mark_interrupted r d) (λ (u : Unit {0}) e.
        forget (transition r.task_id interrupted "interrupted_no_retry" no_extra e))
      else (ok tt, d)

  unfoldable pub recover_all : List TaskRecord → Call (Unit {0})
  recover_all [] d = (ok tt, d)
  recover_all (r ∷ rs) d = continue (recover_one r d) (λ (u : Unit {0}). recover_all rs)

  -- `Runner.recovery`
  unfoldable pub recovery : Call (Unit {0})
  recovery d = recover_all d.tasks d
