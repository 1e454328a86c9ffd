-- ===== src/Work/Calls.antt =====
-- The calls of src/personal_ai_brain/work_store.py and the runner's recovery, in any order, and
-- what no order of them does to a task's record.
use personal_ai_brain.Prelude.{
  String, ◌≡◌, refl, ap, ◌∙◌, Bool, true, ◌||◌, some, List, [], ◌∷◌, arith,
}
use personal_ai_brain.Work.Store.{
  reserved, running, succeeded, same_status, Status, TaskRecord, Request, Disk, Host, load,
  is_terminal, submit,
}
use personal_ai_brain.Work.Transition.Chains.{Chain-final, Chain-asked, Later-some}
use personal_ai_brain.Work.Transition.{
  Extra, is_progress, transition, cancel, storage_failure, recovery,
}
use personal_ai_brain.Work.Transition.History.{
  Later, Later-refl, Later-trans, transition-Later, cancel-Later, storage_failure-Later,
  recover_all-Later, submit-Later,
}

-- A call and the host that it is made on, whose clock differs from call to call.
pub data Op : Type 0 where
  submits : Host → Request → Op
  moves_to : Host → String → Status → String → Extra → Op
  cancels : Host → String → Op
  fails : Host → String → Op
  recovers : Host → Op

abbrev pub apply : Op → Disk → Disk
apply (submits host q) d = (submit host q d).1
apply (moves_to host key status code extra) d = (transition host key status code extra d).1
apply (cancels host key) d = (cancel host key d).1
apply (fails host key) d = (storage_failure host key d).1
apply (recovers host) d = (recovery host d).1

abbrev pub run : List Op → Disk → Disk
run [] d = d
run (o ∷ os) d = run os (apply o d)

recovery-Later :
    (host : Host) (id : String) (d : Disk) → Later (load id d) (load id (recovery host d).1)
unfolding recovery
recovery-Later host id d = recover_all-Later host id d.tasks d

apply-Later : (id : String) (o : Op) (d : Disk) → Later (load id d) (load id (apply o d))
apply-Later id (submits host q) d = submit-Later host id q d
apply-Later id (moves_to host key status code extra) d =
    transition-Later host id key status code extra d
apply-Later id (cancels host key) d = cancel-Later host id key d
apply-Later id (fails host key) d = storage_failure-Later host id key d
apply-Later id (recovers host) d = recovery-Later host id d

pub run-Later : (id : String) (os : List Op) (d : Disk) → Later (load id d) (load id (run os d))
run-Later id [] d = Later-refl (load id d)
run-Later id (o ∷ os) d =
    Later-trans (load id d) (load id (apply o d)) (load id (run os (apply o d)))
      (apply-Later id o d) (run-Later id os (apply o d))

-- Whatever calls are made, in any order, on any clock: a record in a terminal status stays as it
-- is.
pub run-final :
    (id : String) (os : List Op) (d : Disk) (r : TaskRecord)
    → load id d ≡ some r
    → is_terminal r.status ≡ true
    → load id (run os d) ≡ some r
run-final id os d r h t =
    let later = Later-some (load id d) (load id (run os d)) r (run-Later id os d) h in
    later.1 ∙ ap some (Chain-final r later.0 t later.2)

-- The statuses that the requested cancellation is to keep a task out of.
abbrev pub starts_or_succeeds : Status → Bool
starts_or_succeeds s = same_status s reserved || same_status s running || same_status s succeeded

forbids : (s : Status) → starts_or_succeeds s ≡ true → is_progress s ≡ true
unfolding is_progress
forbids reserved h = refl
forbids running h = refl
forbids succeeded h = refl
forbids s h = absurd (ground arith)

-- Whatever calls are made, in any order, on any clock: a record whose cancellation is requested
-- remains, the request remains, and a record that is then reserved, running or succeeded had
-- that status already.
pub run-cancelled :
    (id : String) (os : List Op) (d : Disk) (r : TaskRecord)
    → load id d ≡ some r
    → r.cancel_requested ≡ true
    → (s : TaskRecord) × (load id (run os d) ≡ some s)
      × (s.cancel_requested ≡ true)
      × (starts_or_succeeds s.status ≡ true → s.status ≡ r.status)
run-cancelled id os d r h t =
    let later = Later-some (load id d) (load id (run os d)) r (run-Later id os d) h in
    let asked = Chain-asked r later.0 t later.2 in
    (later.0, later.1, asked.0, λ h. asked.1 (forbids later.0.status h))
