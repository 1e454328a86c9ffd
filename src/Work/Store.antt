-- ===== src/Work/Store.antt =====
-- `Store` of src/personal_ai_brain/work_store.py. A file per task is a record in a list ordered
-- by its name, and a task's audit directory is what was last written to its files.

pub mod Laws
use personal_ai_brain.Prelude.{
  ℕ, ◌+◌, String, Bool, true, false, not, ◌&&◌, ◌||◌, Option, none, some, List, [], ◌∷◌, ◌++◌, ◌==◌,
  str_eq, is_some, leb, coalesce, text_leb, find?, length, Exec, Result, ok, err, if◌then◌else◌,
}

pub data Status : Type 0 where
  submitted reserved running : Status
  succeeded failed blocked cancelled interrupted : Status

-- `Rejected` by its codes, `ValueError('invalid_transition')`, the `TypeError` of a lookup in a
-- record that is not there, a request time that does not parse, and an `OSError`.
pub data StoreError : Type 0 where
  task_id_payload_conflict stale_or_future_request base_not_allowlisted : StoreError
  retention_capacity_reached unknown_task : StoreError
  invalid_transition no_record bad_time os_error : StoreError

-- A request that `parse` of work_contract.py has accepted, as far as the store reads it.
pub record Request : Type 0 where
  pub task_id : String
  pub task_type : String
  pub base_ref : String
  pub requested_at : String
  pub deadline_seconds : ℕ

pub record Entry : Type 0 where
  pub status : Status
  pub at : String
  pub code : String

pub record TaskRecord : Type 0 where
  pub task_id : String
  pub request : Request
  pub payload_hash : String
  pub status : Status
  pub attempts : ℕ
  pub cancel_requested : Bool
  pub base_sha : Option String
  pub branch : Option String
  pub started_at : Option String
  pub finished_at : Option String
  pub cancel_requested_at : Option String
  pub history : List Entry

-- What a test result file holds.
pub data TestResult : Type 0 where
  not_run : TestResult
  not_completed : String → TestResult
  reported : String → TestResult

-- A task's audit directory. `agent_result` is absent but for coding tasks.
pub record Audit : Type 0 where
  pub task_id : String
  pub execution_log : String
  pub agent_result : Option String
  pub test_result : TestResult
  pub result : TaskRecord
  pub reserve : Bool

pub record Disk : Type 0 where
  pub tasks : List TaskRecord
  pub audit : List Audit

-- The canonical digest of a request, the instant of a request's time in milliseconds (none where
-- it does not parse), the clock, the configured base, and whether the device can be written: where
-- it cannot, the first write of a call raises `OSError`.
pub record Host : Type 0 where
  pub digest : Request → String
  pub instant : String → Option ℕ
  pub now : ℕ
  pub stamp : String
  pub allowed_base : String
  pub is_writable : Bool

unfoldable pub can_write : Host → Bool
can_write host = host.is_writable

abbrev pub Call : Type 0 → Type 0
Call A = Exec Disk StoreError A

abbrev pub coding_type : String
coding_type = "coding.patch-test.v1"

abbrev pub coding_base : String
coding_base = "71f0d82516d059ba2d65e028742cd73b2b9ee6bc"

abbrev pub status_code : Status → ℕ
status_code submitted = 0
status_code reserved = 1
status_code running = 2
status_code succeeded = 3
status_code failed = 4
status_code blocked = 5
status_code cancelled = 6
status_code interrupted = 7

abbrev pub same_status : Status → Status → Bool
same_status s t = status_code s == status_code t

-- `TERMINAL`
unfoldable pub is_terminal : Status → Bool
is_terminal submitted = false
is_terminal reserved = false
is_terminal running = false
is_terminal _ = true

-- `EDGES`
unfoldable pub edge : Status → Status → Bool
unfolding is_terminal
edge submitted t =
    same_status t reserved
    || same_status t blocked
    || same_status t cancelled
    || same_status t failed
edge reserved t =
    same_status t running
    || same_status t blocked
    || same_status t failed
    || same_status t cancelled
    || same_status t interrupted
edge running t = is_terminal t
edge _ t = false

-- `Store.load`
unfoldable pub load : String → Disk → Option TaskRecord
load id d = find? (λ (r : TaskRecord). str_eq r.task_id id) d.tasks

unfoldable pub audit_of : String → Disk → Option Audit
audit_of id d = find? (λ (a : Audit). str_eq a.task_id id) d.audit

-- Whether a task's audit directory is there; a write into a missing one raises `OSError`.
unfoldable pub has_audit : String → Disk → Bool
has_audit id d = is_some (audit_of id d)

-- `atomic_json(self.path(...), record)`
unfoldable pub put_task : TaskRecord → List TaskRecord → List TaskRecord
put_task r [] = r ∷ []
put_task r (x ∷ xs) =
    if str_eq x.task_id r.task_id
    then r ∷ xs
    else if text_leb r.task_id x.task_id
    then r ∷ x ∷ xs
    else x ∷ put_task r xs

unfoldable pub update_audit : String → (Audit → Audit) → List Audit → List Audit
update_audit id f [] = []
update_audit id f (a ∷ as_) = (if str_eq a.task_id id then f a else a) ∷ update_audit id f as_

unfoldable pub save : TaskRecord → Disk → Disk
save r d = record d { tasks = put_task r d.tasks }

-- `allowed_base` of work_contract.py
unfoldable pub select_base : Request → String → String
select_base q fixture_base = if str_eq q.task_type coding_type then coding_base else fixture_base

-- `fresh` of work_contract.py: at most five minutes ahead and seven days old.
unfoldable pub is_fresh : ℕ → ℕ → Bool
is_fresh requested now = leb requested (now + 300000) && leb now (requested + 604800000)

module _ (host : Host) where
  unfoldable pub new_record : Request → TaskRecord
  new_record q = record {
    task_id = q.task_id;
    request = q;
    payload_hash = host.digest q;
    status = submitted;
    attempts = 0;
    cancel_requested = false;
    base_sha = none;
    branch = none;
    started_at = none;
    finished_at = none;
    cancel_requested_at = none;
    history = record { status = submitted; at = host.stamp; code = "accepted" } ∷ [];
  }

  unfoldable pub new_audit : Request → Audit
  new_audit q = record {
    task_id = q.task_id;
    execution_log = "submitted";
    agent_result = if str_eq q.task_type coding_type then some "not_started" else none;
    test_result = not_run;
    result = new_record q;
    reserve = true;
  }

  -- The part of `Store.submit` behind the lookup.
  unfoldable pub admit : Request → Call (TaskRecord × Bool)
  admit q d = elim (host.instant q.requested_at) [
    | none ↦ (err bad_time, d)
    | some requested ↦
        (if not (is_fresh requested host.now)
          then (err stale_or_future_request, d)
          else if not (str_eq q.base_ref (select_base q host.allowed_base))
          then (err base_not_allowlisted, d)
          else if leb 256 (length d.tasks)
          then (err retention_capacity_reached, d)
          else if is_some (audit_of q.task_id d) || not (can_write host)
          then (err os_error, d)
          else (
            ok (new_record q, true),
            save (new_record q) (record d { audit = new_audit q ∷ d.audit }),
          ))
  ]

  -- `Store.submit` once the record is looked up.
  unfoldable pub submit_loaded : Request → Option TaskRecord → Call (TaskRecord × Bool)
  submit_loaded q none d = admit q d
  submit_loaded q (some r) d =
      if str_eq r.payload_hash (host.digest q)
      then (ok (r, false), d)
      else (err task_id_payload_conflict, d)

  unfoldable pub submit : Request → Call (TaskRecord × Bool)
  submit q d = submit_loaded q (load q.task_id d) d
