-- ===== src/Work/Store/Laws.antt =====
-- Lookup and update of the task files of src/personal_ai_brain/work_store.py.
use personal_ai_brain.Prelude.{
  String, ◌≡◌, refl, Bool, true, some, ◌⊎◌, false, leb, length, List, [], ◌∷◌, arith, eq_iff, ok,
  str_eq, find?, find?-passes, if◌then◌else◌,
}
use personal_ai_brain.Work.Store.{
  TaskRecord, Disk, load, put_task, save, Host, Request, admit, new_record, new_audit,
}

find?-put_task :
    (id : String) (r : TaskRecord) (xs : List TaskRecord)
    → find? (λ x. str_eq x.task_id id) (put_task r xs)
      ≡ (if str_eq r.task_id id then some r else find? (λ x. str_eq x.task_id id) xs)
unfolding put_task
find?-put_task id r [] = refl
find?-put_task id r (x ∷ xs) = ground (
  arith,
  find?-put_task id r xs,
  eq_iff x.task_id r.task_id,
  eq_iff x.task_id id,
  eq_iff r.task_id id,
)

-- A saved record is read back under its name, and every other name reads what it did.
pub load-save :
    (id : String) (r : TaskRecord) (d : Disk)
    → load id (save r d) ≡ (if str_eq r.task_id id then some r else load id d)
unfolding load save
load-save id r d = find?-put_task id r d.tasks

pub load_saved :
    (id : String) (r : TaskRecord) (d : Disk) → r.task_id ≡ id → load id (save r d) ≡ some r
load_saved id r d n = rw (load-save id r d, (eq_iff r.task_id id).1 n)

pub load-name : (id : String) (r : TaskRecord) (d : Disk) → load id d ≡ some r → r.task_id ≡ id
unfolding load
load-name id r d h =
    (eq_iff r.task_id id).0 (find?-passes (λ (x : TaskRecord). str_eq x.task_id id) d.tasks r h)

-- A request that is no duplicate is refused and nothing written, or admitted below the capacity.
pub admit_cases :
    (host : Host) (q : Request) (d : Disk)
    → ((admit host q d).1 ≡ d)
      ⊎ (((admit host q d).1
            ≡ save (new_record host q) (record d { audit = new_audit host q ∷ d.audit }))
          × (leb 256 (length d.tasks) ≡ false))
unfolding admit
admit_cases host q d = ground arith

pub admit_ok :
    (host : Host) (q : Request) (d d' : Disk) (r : TaskRecord) (created : Bool)
    → admit host q d ≡ (ok (r, created), d')
    → (new_record host q ≡ r)
      × (d' ≡ save (new_record host q) (record d { audit = new_audit host q ∷ d.audit }))
      × (created ≡ true)
unfolding admit
admit_ok host q d d' r created h = ground arith
