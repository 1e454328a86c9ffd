-- ===== src/Work/Runner.antt =====
-- `Runner.guard`, `Runner.git`, `Runner.prepare` and `Runner.tick` of
-- src/personal_ai_brain/work_runner.py. What git, the file system, the executors and the other
-- processes do during a tick is given by records.
mod Moves
mod Handled
mod Picked
mod Guards
pub mod Ends
mod Tests
use personal_ai_brain.Prelude.{
  ℕ, String, Bool, true, false, not, ◌&&◌, Option, none, some, List, [], ◌∷◌, ◌++◌, str_eq, concat,
  text_leb, leb, Exec, Result, ok, err, pure, raise, continue, ◌>>=◌, ◌>>◌, if◌then◌else◌,
}
use personal_ai_brain.Work.Store.{
  Status, submitted, reserved, running, failed, blocked, cancelled, interrupted, Entry, TaskRecord,
  Audit, TestResult, Disk, Host, Call, StoreError, os_error, same_status, is_terminal, load,
  update_audit, coding_type, not_completed,
}
use personal_ai_brain.Work.Transition.{
  Extra, no_extra, set_test_result, transition, storage_failure,
}
use personal_ai_brain.Work.Calls.{Op, run}

-- `Abort`, an `OSError`, and any other exception.
pub data Fault : Type 0 where
  abort : Status → String → Fault
  storage failure : Fault

-- One look of a guard: the calls that others have made since the last one, whether the service is
-- stopping, and whether the deadline is over.
pub record Poll : Type 0 where
  pub others : List Op
  pub stopping : Bool
  pub expired : Bool

-- One git process: whether it starts, the looks at it while it runs and after it, its exit.
pub record GitProcess : Type 0 where
  pub starts : Bool
  pub polls : List Poll
  pub last : Poll
  pub succeeds : Bool

pub record Workspace : Type 0 where
  pub made : Bool
  pub clone : GitProcess
  pub checkout : GitProcess
  pub remove_origin : GitProcess
  pub unsupported : Bool

-- A run of an executor: what others do during it, what it leaves in the files of the task's audit
-- directory, and its status and code, or what it raises.
pub record Execution : Type 0 where
  pub others : List Op
  pub execution_log : String
  pub agent_result : Option String
  pub test_result : TestResult
  pub outcome : Result Fault (Status × String)

pub record Policy : Type 0 where
  pub coding_enabled : Bool
  pub min_free_bytes : ℕ

-- What happens around the steps of a tick. `free` is none where the disk's usage cannot be read.
pub record Attempt : Type 0 where
  pub before : List Op
  pub reserving : Host
  pub reserved_others : List Op
  pub free : Option ℕ
  pub blocking : Host
  pub workspace : Workspace
  pub prepared : Poll
  pub starting : Host
  pub execution : Execution
  pub stopping : Bool
  pub ending : Host
  pub handling : Host

abbrev pub Step : Type 0 → Type 0
Step A = Exec Disk Fault A

unfoldable pub raised : StoreError → Fault
raised os_error = storage
raised e = failure

-- A call of the store inside the runner.
unfoldable pub lifted : {A : Type 0} → Result StoreError A × Disk → Result Fault A × Disk
lifted (ok a, d) = (ok a, d)
lifted (err e, d) = (err (raised e), d)

-- `Runner.guard` once the record is loaded.
unfoldable pub guard_loaded : Poll → Option TaskRecord → Step (Unit {0})
guard_loaded p none d = (err failure, d)
guard_loaded p (some r) d =
    if r.cancel_requested
    then (err (abort cancelled "cancellation_requested"), d)
    else if p.expired
    then (err (abort failed "deadline_exceeded"), d)
    else (ok tt, d)

-- `Runner.guard`
unfoldable pub guard : String → Poll → Step (Unit {0})
guard id p d =
    let e = run p.others d in
    if p.stopping
    then (err (abort interrupted "service_stopping"), e)
    else guard_loaded p (load id e) e

unfoldable pub guards : String → List Poll → Step (Unit {0})
guards id [] d = (ok tt, d)
guards id (p ∷ ps) d = continue (guard id p d) (λ (u : Unit {0}). guards id ps)

-- `Runner.git`
unfoldable pub git : String → GitProcess → Step (Unit {0})
git id g d =
    if g.starts
    then continue (guards id (g.polls ++ g.last ∷ []) d) (λ (u : Unit {0}) e.
      if g.succeeds then (ok tt, e) else (err (abort failed "workspace_preparation_failed"), e))
    else (err storage, d)

-- `Runner.prepare`
unfoldable pub prepare : String → Workspace → Step (Unit {0})
prepare id w d =
    if w.made
    then continue ((git id w.clone >> git id w.checkout >> git id w.remove_origin) d)
        (λ (u : Unit {0}) e.
          if w.unsupported
          then (err (abort blocked "unsupported_repository_content"), e)
          else (ok tt, e))
    else (err storage, d)

-- The `min` of `Runner.tick`: the first of those whose history starts earliest. A record without
-- a history raises.
unfoldable pub first_at : List Entry → Option String
first_at [] = none
first_at (e ∷ es) = some e.at

unfoldable pub earliest : TaskRecord → String → List TaskRecord → Option TaskRecord
earliest r at [] = some r
earliest r at (x ∷ xs) = elim (first_at x.history) [
  | none ↦ none
  | some t ↦ if text_leb at t then earliest r at xs else earliest x t xs
]

unfoldable pub candidates : List TaskRecord → List TaskRecord
candidates [] = []
candidates (r ∷ rs) =
    let rest = candidates rs in if same_status r.status submitted then r ∷ rest else rest

unfoldable pub pick : List TaskRecord → Result Fault (Option TaskRecord)
pick [] = ok none
pick (r ∷ rs) = elim (first_at r.history) [
  | none ↦ err failure
  | some t ↦ elim (earliest r t rs) [ none ↦ err failure | some x ↦ ok (some x) ]
]

module _ (policy : Policy) (a : Attempt) where
  -- The end of the `try` block: the executor and the last transition.
  unfoldable pub finish : String → Result Fault (Status × String) → Step (Unit {0})
  finish id (err f) d = (err f, d)
  finish id (ok (status, code)) d =
      continue
        (lifted (
          if a.stopping
          then transition a.ending id interrupted "service_stopping" no_extra d
          else transition a.ending id status code no_extra d))
        (λ (r : TaskRecord). pure tt)

  abbrev pub report : Audit → Audit
  report f = record f {
    execution_log = a.execution.execution_log;
    agent_result = a.execution.agent_result;
    test_result = a.execution.test_result;
  }

  unfoldable pub execute : String → Step (Unit {0})
  execute id d =
      let e = run a.execution.others d in
      finish id a.execution.outcome (record e { audit = update_audit id report e.audit })

  unfoldable pub start : String → Step (Unit {0})
  start id d =
      continue
        (lifted (
          transition a.starting id running "sandbox_starting"
            (record no_extra { started_at = some a.starting.stamp }) d))
        (λ (r : TaskRecord) e. if is_terminal r.status then (ok tt, e) else execute id e)

  unfoldable pub block : String → String → Step (Unit {0})
  block id code d =
      continue (lifted (transition a.blocking id blocked code no_extra d))
        (λ (r : TaskRecord). pure tt)

  -- From the look at the free disk space on.
  unfoldable pub check_space : String → Option ℕ → Step (Unit {0})
  check_space id none d = (err storage, d)
  check_space id (some free) d =
      if not (leb policy.min_free_bytes free)
      then block id "insufficient_storage" d
      else continue ((prepare id a.workspace >> guard id a.prepared) d) (λ (u : Unit {0}). start id)

  unfoldable pub enter : String → TaskRecord → Step (Unit {0})
  enter id r d =
      if str_eq r.request.task_type coding_type && not policy.coding_enabled
      then block id "coding_not_enabled" d
      else check_space id a.free d

  -- The `try` block of `Runner.tick`.
  unfoldable pub attempt : TaskRecord → Step (Unit {0})
  attempt r d =
      continue
        (lifted (
          transition a.reserving r.task_id reserved "worker_reserved"
            (record {
              attempts = some 1;
              base_sha = some r.request.base_ref;
              branch = some (concat "builder/" r.task_id);
              started_at = none;
            })
            (run a.before d)))
        (λ (u : TaskRecord) e.
          if is_terminal u.status then (ok tt, e) else enter r.task_id u (run a.reserved_others e))

  -- Its `except` clauses.
  unfoldable pub handle : String → Result Fault (Unit {0}) × Disk → Result Fault Bool × Disk
  handle id (ok u, d) = (ok true, d)
  handle id (err (abort status code), d) =
      continue (lifted (set_test_result a.handling id (not_completed code) d)) (λ (u : Unit {0}) e.
        continue (lifted (transition a.handling id status code no_extra e))
          (λ (r : TaskRecord). pure true))
  handle id (err storage, d) =
      continue (lifted (storage_failure a.handling id d)) (λ (r : TaskRecord). pure true)
  handle id (err failure, d) =
      continue (lifted (set_test_result a.handling id (not_completed "runner_error") d))
        (λ (u : Unit {0}) e.
          continue (lifted (transition a.handling id failed "runner_error" no_extra e))
            (λ (r : TaskRecord). pure true))

  unfoldable pub tick_picked : Result Fault (Option TaskRecord) → Step Bool
  tick_picked (err f) d = (err f, d)
  tick_picked (ok none) d = (ok false, d)
  tick_picked (ok (some r)) d = handle r.task_id (attempt r d)

  -- `Runner.tick`
  unfoldable pub tick : Step Bool
  tick d = tick_picked (pick (candidates d.tasks)) d
