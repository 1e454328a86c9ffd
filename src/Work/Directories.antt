-- ===== src/Work/Directories.antt =====
-- The audit directories of src/personal_ai_brain/work_store.py stay.
use personal_ai_brain.Prelude.{String, ◌≡◌, refl, true, List, arith}
use personal_ai_brain.Work.Store.{Audit, Disk, audit_of, has_audit, update_audit, save}
use personal_ai_brain.Work.Transition.{set_result}
use personal_ai_brain.Work.Published.{find?-update_audit}
use personal_ai_brain.Work.Calls.{Op, run}
use personal_ai_brain.Work.Kept.{IsKept, run-Kept}

abbrev HasAudit : String → Disk → Type 0
HasAudit id d = has_audit id d ≡ true

pub updated-HasAudit :
    (id key : String) (f : Audit → Audit) (d : Disk)
    → ((a : Audit) → (f a).task_id ≡ a.task_id)
    → has_audit id d ≡ true
    → has_audit id (record d { audit = update_audit key f d.audit }) ≡ true
unfolding has_audit audit_of
updated-HasAudit id key f d k h = rw (find?-update_audit id key f d.audit k) (ground arith)

HasAudit-IsKept : (id : String) → IsKept (HasAudit id)
unfolding save set_result has_audit audit_of
HasAudit-IsKept id = record {
  updates = λ key f d k l h. updated-HasAudit id key f d k h;
  lives = λ r d l h. h;
  publishes = λ r d h. updated-HasAudit id r.task_id (λ a. record a { result = r }) d (λ a. refl) h;
  admits = λ host q d h. ground arith;
}

-- No call of the store removes the audit directory of a task.
pub run-has_audit :
    (id : String) (os : List Op) (d : Disk) → has_audit id d ≡ true → has_audit id (run os d) ≡ true
run-has_audit id os d h = run-Kept (HasAudit id) (HasAudit-IsKept id) os d h
