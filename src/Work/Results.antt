-- ===== src/Work/Results.antt =====
-- The published result of a task, result.json of src/personal_ai_brain/work_store.py, and its
-- terminal record.
use personal_ai_brain.Prelude.{
  String, ◌≡◌, refl, sym, subst, ◌∙◌, inl, inr, true, false, Bool-cases, some, List, ◌∷◌, str_eq,
  if◌then◌else◌, arith,
}
use personal_ai_brain.Work.Store.{
  TaskRecord, Request, Audit, Disk, Host, load, audit_of, save, is_terminal, new_record, new_audit,
}
use personal_ai_brain.Work.Store.Laws.{load-save}
use personal_ai_brain.Work.Calls.{Op, run}
use personal_ai_brain.Work.Kept.{IsKept, run-Kept}
use personal_ai_brain.Work.Published.{Agrees, updated-Agrees, live-Agrees, published-Agrees}

admitted-Agrees :
    (host : Host) (q : Request) (d : Disk)
    → Agrees d
    → Agrees (save (new_record host q) (record d { audit = new_audit host q ∷ d.audit }))
unfolding load audit_of save new_audit is_terminal new_record
admitted-Agrees host q d g = record {
  same = λ id x a l t e. case id x a (sym (load-save id (new_record host q) d) ∙ l) t e;
}
  where
    case :
        (id : String) (x : TaskRecord) (a : Audit)
        → (if str_eq q.task_id id then some (new_record host q) else load id d) ≡ some x
        → is_terminal x.status ≡ true
        → (if str_eq q.task_id id then some (new_audit host q) else audit_of id d) ≡ some a
        → a.result ≡ x
    case id x a l t e = elim (Bool-cases (str_eq q.task_id id)) [
      | inl s ↦
          (let is : new_record host q ≡ x = ground arith in
            let live : is_terminal x.status ≡ false =
              subst (λ (v : TaskRecord). is_terminal v.status ≡ false) is refl in
            absurd (ground arith))
      | inr s ↦ g.same id x a (ground arith) t (ground arith)
    ]

Agrees-IsKept : IsKept Agrees
Agrees-IsKept = record {
  updates = updated-Agrees;
  lives = live-Agrees;
  publishes = published-Agrees;
  admits = admitted-Agrees;
}

-- Calls of the store, in any order on any clock, keep the published result of every task that is in
-- a terminal status the same as its record, where it has an audit directory.
pub run-Agrees : (os : List Op) (d : Disk) → Agrees d → Agrees (run os d)
run-Agrees os d g = run-Kept Agrees Agrees-IsKept os d g
