-- ===== src/Work/Tests.antt =====
-- Runs of the store's calls on one small disk.
use personal_ai_brain.Prelude.{
  All, arith, String, ◌≡◌, refl, true, false, none, some, List, [], ◌∷◌, ok,
}
use personal_ai_brain.Work.Store.{
  can_write, reserved, running, succeeded, TaskRecord, Request, Disk, Host, not_run, load, audit_of,
  is_terminal, new_record,
}
use personal_ai_brain.Work.Transition.{no_extra, moved, recovery}
use personal_ai_brain.Work.Calls.{
  Op, submits, moves_to, cancels, fails, recovers, run, starts_or_succeeds, run-final,
  run-cancelled,
}
use personal_ai_brain.Work.Files.{HasFiles}
use personal_ai_brain.Work.Recovery.{Settled, IsKeyed, recovery-Settled}
use personal_ai_brain.Work.Published.{Agrees}
use personal_ai_brain.Work.Results.{run-Agrees}

abbrev pub host : Host
host = record {
  digest = λ (q : Request). q.requested_at;
  instant = λ (t : String). some 0;
  now = 60000;
  stamp = "2026-07-01T00:01:00Z";
  allowed_base = "base";
  is_writable = true;
}

abbrev pub fixture : Request
fixture = record {
  task_id = "task_one";
  task_type = "fixture.patch-test.v1";
  base_ref = "base";
  requested_at = "2026-07-01T00:00:00Z";
  deadline_seconds = 60;
}

abbrev no_tasks : Disk
no_tasks = record { tasks = []; audit = [] }

abbrev stored : TaskRecord → Disk
stored r = record { tasks = r ∷ []; audit = [] }

abbrev finished : TaskRecord
finished = record {
  task_id = "task_one";
  request = fixture;
  payload_hash = "2026-07-01T00:00:00Z";
  status = succeeded;
  attempts = 1;
  cancel_requested = false;
  base_sha = some "base";
  branch = some "builder/task_one";
  started_at = some "2026-07-01T00:00:10Z";
  finished_at = some "2026-07-01T00:00:50Z";
  cancel_requested_at = none;
  history = [];
}

abbrev asked_running : TaskRecord
asked_running = record {
  task_id = "task_one";
  request = fixture;
  payload_hash = "2026-07-01T00:00:00Z";
  status = running;
  attempts = 1;
  cancel_requested = true;
  base_sha = some "base";
  branch = some "builder/task_one";
  started_at = some "2026-07-01T00:00:10Z";
  finished_at = none;
  cancel_requested_at = some "2026-07-01T00:00:50Z";
  history = [];
}

abbrev calls : List Op
calls =
    cancels host "task_one"
    ∷ fails host "task_one"
    ∷ moves_to host "task_one" succeeded "checks_passed" no_extra
    ∷ recovers host
    ∷ []

reads_finished : load "task_one" (stored finished) ≡ some finished
unfolding load
reads_finished = refl

finished_terminal : is_terminal finished.status ≡ true
unfolding is_terminal
finished_terminal = refl

run-final_example : load "task_one" (run calls (stored finished)) ≡ some finished
run-final_example =
    run-final "task_one" calls (stored finished) finished reads_finished finished_terminal

asked_stored : load "task_one" (stored asked_running) ≡ some asked_running
unfolding load
asked_stored = refl

run-cancelled_example :
    (s : TaskRecord) × (load "task_one" (run calls (stored asked_running)) ≡ some s)
    × (s.cancel_requested ≡ true)
    × (starts_or_succeeds s.status ≡ true → s.status ≡ running)
run-cancelled_example =
    run-cancelled "task_one" calls (stored asked_running) asked_running asked_stored refl

abbrev life : List Op
life =
    submits host fixture
    ∷ moves_to host "task_one" reserved "worker_reserved" no_extra
    ∷ moves_to host "task_one" running "sandbox_starting" no_extra
    ∷ []

abbrev ran : TaskRecord
ran =
    moved host (moved host (new_record host fixture) reserved "worker_reserved" no_extra) running
      "sandbox_starting" no_extra

-- The task's audit directory, while it runs.
abbrev asked_disk : Disk
asked_disk = record {
  tasks = asked_running ∷ [];
  audit =
      record {
        task_id = "task_one";
        execution_log = "submitted";
        agent_result = none;
        test_result = not_run;
        result = asked_running;
        reserve = true;
      }
      ∷ [];
}

asked_on_disk : load "task_one" asked_disk ≡ some asked_running
unfolding load
asked_on_disk = refl

asked_running-IsKeyed : IsKeyed asked_disk
asked_running-IsKeyed = (asked_on_disk, tt)

asked_running-HasFiles : All (HasFiles asked_disk) asked_disk.tasks
unfolding audit_of
asked_running-HasFiles = (λ u. refl, tt)

pub host_writes : can_write host ≡ true
unfolding can_write
host_writes = refl

recovery-Settled_example :
    ((recovery host asked_disk).0 ≡ ok tt) × Settled (load "task_one" (recovery host asked_disk).1)
recovery-Settled_example =
    recovery-Settled host asked_disk "task_one" asked_running-IsKeyed asked_running-HasFiles
      host_writes

no_tasks-Agrees : Agrees no_tasks
unfolding load
no_tasks-Agrees = record { same = λ id r a l t e. absurd (ground arith) }

run-Agrees_example : Agrees (run life no_tasks)
run-Agrees_example = run-Agrees life no_tasks no_tasks-Agrees
