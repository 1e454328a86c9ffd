-- ===== src/Work/Published.antt =====
-- Writes of the audit files and the record of a task in src/personal_ai_brain/work_store.py, and the
-- agreement of its published result with a terminal record.
use personal_ai_brain.Prelude.{
  String, ◌≡◌, refl, sym, ap, subst, ◌∙◌, inl, inr, true, false, Bool-cases, Option-cases, some,
  List, [], ◌∷◌, str_eq, eq_iff, find?, if◌then◌else◌, arith,
}
use mathlib.Core.Option
use personal_ai_brain.Work.Store.{
  TaskRecord, Audit, Disk, load, audit_of, update_audit, save, is_terminal,
}
use personal_ai_brain.Work.Store.Laws.{load-save}
use personal_ai_brain.Work.Transition.{set_result}

-- A terminal record and its published result agree, where the task has an audit directory.
pub record Agrees (d : Disk) : Type 0 where
  pub same :
      (id : String) (r : TaskRecord) (a : Audit)
      → load id d ≡ some r
      → is_terminal r.status ≡ true
      → audit_of id d ≡ some a
      → a.result ≡ r

pub find?-update_audit :
    (id key : String) (f : Audit → Audit) (as_ : List Audit)
    → ((a : Audit) → (f a).task_id ≡ a.task_id)
    → find? (λ (a : Audit). str_eq a.task_id id) (update_audit key f as_) ≡ (
        if str_eq key id
        then Option.map f (find? (λ (a : Audit). str_eq a.task_id id) as_)
        else find? (λ (a : Audit). str_eq a.task_id id) as_)
unfolding update_audit
find?-update_audit id key f [] h = ground arith
find?-update_audit id key f (a ∷ as_) h = ground (
  arith,
  h a,
  find?-update_audit id key f as_ h,
  eq_iff a.task_id key,
  eq_iff a.task_id id,
  eq_iff key id,
)

abbrev updated : String → (Audit → Audit) → Disk → Disk
updated key f d = record d { audit = update_audit key f d.audit }

-- An update of the audit files that leaves result.json alone.
pub updated-Agrees :
    (key : String) (f : Audit → Audit) (d : Disk)
    → ((a : Audit) → (f a).task_id ≡ a.task_id)
    → ((a : Audit) → (f a).result ≡ a.result)
    → Agrees d
    → Agrees (updated key f d)
unfolding load audit_of
updated-Agrees key f d h k g = record {
  same = λ id r a l t e. case id r a l t (find?-update_audit id key f d.audit h) e;
}
  where
    case :
        (id : String) (r : TaskRecord) (a : Audit)
        → load id d ≡ some r
        → is_terminal r.status ≡ true
        → audit_of id (updated key f d)
          ≡ (if str_eq key id then Option.map f (audit_of id d) else audit_of id d)
        → audit_of id (updated key f d) ≡ some a
        → a.result ≡ r
    case id r a l t u e = elim (Bool-cases (str_eq key id)) [
      | inl s ↦ elim (Option-cases (audit_of id d)) [
        | inl o ↦ absurd (ground arith)
        | inr o ↦
            (let is : f o.0 ≡ a = ground arith in
              ap (λ (v : Audit). v.result) (sym is) ∙ k o.0 ∙ g.same id r o.0 l t o.1)
      ]
      | inr s ↦ g.same id r a l t (ground arith)
    ]

audit_of-save :
    (id : String) (r : TaskRecord) (d : Disk) {a : Audit}
    → audit_of id (save r d) ≡ some a
    → audit_of id d ≡ some a
unfolding save audit_of
audit_of-save id r d e = e

-- A record that is not terminal.
pub live-Agrees :
    (r : TaskRecord) (d : Disk) → is_terminal r.status ≡ false → Agrees d → Agrees (save r d)
live-Agrees r d h g = record { same = λ id x a l t e. case id x a (sym (load-save id r d) ∙ l) t e }
  where
    case :
        (id : String) (x : TaskRecord) (a : Audit)
        → (if str_eq r.task_id id then some r else load id d) ≡ some x
        → is_terminal x.status ≡ true
        → audit_of id (save r d) ≡ some a
        → a.result ≡ x
    case id x a l t e = elim (Bool-cases (str_eq r.task_id id)) [
      | inl s ↦
          (let is : r ≡ x = ground arith in
            let dead : is_terminal r.status ≡ true =
              subst (λ (v : TaskRecord). is_terminal v.status ≡ true) (sym is) t in
            absurd (ground arith))
      | inr s ↦ g.same id x a (ground arith) t (audit_of-save id r d e)
    ]

-- The publication of a result and then of the terminal record.
pub published-Agrees : (r : TaskRecord) (d : Disk) → Agrees d → Agrees (save r (set_result r d))
unfolding set_result save load audit_of
published-Agrees r d g = record {
  same = λ id x a l t e.
      case id x a (sym (load-save id r d) ∙ l) t
        (find?-update_audit id r.task_id (λ (v : Audit). record v { result = r }) d.audit
          (λ v. refl))
        e;
}
  where
    case :
        (id : String) (x : TaskRecord) (a : Audit)
        → (if str_eq r.task_id id then some r else load id d) ≡ some x
        → is_terminal x.status ≡ true
        → audit_of id (set_result r d) ≡ (
            if str_eq r.task_id id
            then Option.map (λ (v : Audit). record v { result = r }) (audit_of id d)
            else audit_of id d)
        → audit_of id (set_result r d) ≡ some a
        → a.result ≡ x
    case id x a l t u e = elim (Bool-cases (str_eq r.task_id id)) [
      | inl s ↦ elim (Option-cases (audit_of id d)) [
        | inl o ↦ absurd (ground arith)
        | inr o ↦
            (let put : record o.0 { result = r } ≡ a = ground arith in
              ap (λ (v : Audit). v.result) (sym put) ∙ ground arith)
      ]
      | inr s ↦ g.same id x a (ground arith) t (ground arith)
    ]
