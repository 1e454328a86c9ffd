-- ===== src/Work/Runner/Tests.antt =====
-- Ticks of `Runner.tick` of src/personal_ai_brain/work_runner.py on a disk with one submitted task.
use personal_ai_brain.Prelude.{none, ◌≡◌, refl, true, false, some, [], ◌∷◌, ok}
use personal_ai_brain.Work.Store.{
  Disk, audit_of, has_audit, new_audit, not_run, TaskRecord, succeeded, load, is_terminal,
  new_record,
}
use personal_ai_brain.Work.Transition.History.{Chain}
use personal_ai_brain.Work.Calls.{cancels}
use personal_ai_brain.Work.Recovery.{IsKeyed}
use personal_ai_brain.Work.Tests.{host, fixture, host_writes}
use personal_ai_brain.Work.Runner.{
  Poll, GitProcess, Policy, Attempt, first_at, earliest, candidates, pick, tick,
}
use personal_ai_brain.Work.Runner.Ends.{tick-Ended, IsOutcome}

abbrev quiet : Poll
quiet = record { others = []; stopping = false; expired = false }

abbrev git_works : GitProcess
git_works = record { starts = true; polls = quiet ∷ []; last = quiet; succeeds = true }

abbrev policy : Policy
policy = record { coding_enabled = false; min_free_bytes = 8388608 }

-- Cancellation is asked for while the fixture runs.
abbrev attempted : Attempt
attempted = record {
  before = [];
  reserving = host;
  reserved_others = [];
  free = some 8388608;
  blocking = host;
  workspace = record {
    made = true;
    clone = git_works;
    checkout = git_works;
    remove_origin = git_works;
    unsupported = false;
  };
  prepared = quiet;
  starting = host;
  execution = record {
    others = cancels host "task_one" ∷ [];
    execution_log = "fixture output";
    agent_result = none;
    test_result = not_run;
    outcome = ok (succeeded, "fixture_completed");
  };
  stopping = false;
  ending = host;
  handling = host;
}

abbrev waiting : TaskRecord
waiting = new_record host fixture

-- The disk behind the submission of the task.
abbrev accepted : Disk
accepted = record { tasks = waiting ∷ []; audit = new_audit host fixture ∷ [] }

waiting-IsKeyed : IsKeyed accepted
unfolding load new_record
waiting-IsKeyed = (refl, tt)

waiting_kept : has_audit waiting.task_id accepted ≡ true
unfolding has_audit audit_of new_record new_audit
waiting_kept = refl

waiting_picked : pick (candidates accepted.tasks) ≡ ok (some waiting)
unfolding pick candidates new_record first_at earliest
waiting_picked = refl

outcome-IsOutcome : IsOutcome attempted.execution.outcome
unfolding is_terminal
outcome-IsOutcome = refl

tick-Ended_example :
    ((tick policy attempted accepted).0 ≡ ok true)
    × ((s : TaskRecord) × (load waiting.task_id (tick policy attempted accepted).1 ≡ some s)
        × Chain waiting s
        × (is_terminal s.status ≡ true))
tick-Ended_example =
    tick-Ended policy attempted accepted waiting outcome-IsOutcome waiting-IsKeyed waiting_kept
      host_writes waiting_picked
