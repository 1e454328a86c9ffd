-- ===== src/Work/Files.antt =====
-- The files that `Runner.recovery` of src/personal_ai_brain/work_runner.py needs beside the records.
use personal_ai_brain.Prelude.{
  String, ◌≡◌, refl, inl, inr, Bool, true, Option, none, some, arith, ◌||◌, Bool-cases, str_eq,
  is_some,
}
use personal_ai_brain.Work.Store.{
  Status, reserved, running, TaskRecord, Audit, Disk, Host, audit_of, has_audit, update_audit,
  coding_type, save, same_status,
}
use personal_ai_brain.Work.Transition.{set_result, marked, can_read_agent}
use personal_ai_brain.Work.Published.{find?-update_audit}
use mathlib.Core.Option

-- The statuses that `recovery` selects.
abbrev pub is_unsettled : Status → Bool
is_unsettled s = same_status s reserved || same_status s running

-- If a task is reserved or running, its audit directory is there, and agent-result.json in it if
-- it is a coding task.
abbrev pub HasFiles : Disk → TaskRecord → Type 0
HasFiles d r = is_unsettled r.status ≡ true → can_read_agent r (audit_of r.task_id d) ≡ true

-- What files are there stay.
abbrev pub Reads : Disk → Disk → Type 0
Reads d e = (y : TaskRecord) → HasFiles d y → HasFiles e y

read_on :
    (y : TaskRecord) (f : Audit → Audit) (o : Option Audit)
    → ((a : Audit) → is_some a.agent_result ≡ true → is_some (f a).agent_result ≡ true)
    → can_read_agent y o ≡ true
    → can_read_agent y (Option.map f o) ≡ true
read_on y f none k h = h
read_on y f (some a) k h = ground (arith, k a)

updated-Reads :
    (key : String) (f : Audit → Audit) (d : Disk)
    → ((a : Audit) → (f a).task_id ≡ a.task_id)
    → ((a : Audit) → is_some a.agent_result ≡ true → is_some (f a).agent_result ≡ true)
    → Reads d (record d { audit = update_audit key f d.audit })
unfolding audit_of
updated-Reads key f d k l y h u = elim (Bool-cases (str_eq key y.task_id)) [
  | inl e ↦
      rw (find?-update_audit y.task_id key f d.audit k, e)
        (read_on y f (audit_of y.task_id d) l (h u))
  | inr e ↦ rw (find?-update_audit y.task_id key f d.audit k, e) (h u)
]

pub can_read-has_audit :
    (r : TaskRecord) (d : Disk)
    → can_read_agent r (audit_of r.task_id d) ≡ true
    → has_audit r.task_id d ≡ true
unfolding has_audit
can_read-has_audit r d h = some_file (audit_of r.task_id d) h
  where
    some_file : (o : Option Audit) → can_read_agent r o ≡ true → is_some o ≡ true
    some_file none h = h
    some_file (some a) h = refl

pub marked-Reads : (host : Host) (r : TaskRecord) (d : Disk) → Reads d (marked host r d)
unfolding marked
marked-Reads host r d =
    updated-Reads r.task_id _ d (λ a. refl)
      (λ a h. elim (Bool-cases (str_eq r.request.task_type coding_type)) [
        | inl e ↦ rw e refl
        | inr e ↦ rw e h
      ])

pub set_result-Reads : (r t : TaskRecord) (d : Disk) → Reads d (save t (set_result r d))
unfolding set_result save audit_of
set_result-Reads r t d =
    updated-Reads r.task_id (λ a. record a { result = r }) d (λ a. refl) (λ a h. h)
