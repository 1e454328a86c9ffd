-- ===== src/Work/Kept.antt =====
-- Statements about the disk that the calls of src/personal_ai_brain/work_store.py keep because their
-- writes do.
use personal_ai_brain.Prelude.{
  String, ◌≡◌, refl, inl, inr, false, ◌&&◌, ◌||◌, Bool-cases, Option, none, some, List, [], ◌∷◌,
  str_eq, Result, ok, err, continue,
}
use personal_ai_brain.Work.Store.{
  Status, submitted, reserved, running, cancelled, failed, interrupted, TaskRecord, Request, Audit,
  Disk, Host, StoreError, load, audit_of, has_audit, can_write, update_audit, save, edge,
  is_terminal, same_status, new_record, new_audit, submit, submit_loaded, not_completed,
}
use personal_ai_brain.Work.Store.Laws.{admit_cases}
use personal_ai_brain.Work.Transition.{
  Extra, no_extra, moved, is_progress, transition_locked, transition_loaded, transition, set_result,
  cancel_loaded, cancel, release_reserve, fail_storage, storage_failure, forget, can_read_agent,
  marked, mark_interrupted, recover_one, recover_all, recovery,
}
use personal_ai_brain.Work.Calls.{Op, submits, moves_to, cancels, fails, recovers, apply, run}

moved_status :
    (host : Host) (r : TaskRecord) (status : Status) (code : String) (extra : Extra)
    → (moved host r status code extra).status ≡ status
unfolding moved
moved_status host r status code extra = refl

-- The writes: an update of audit files other than result.json, the record of a live task, a
-- terminal record behind its result, and the files of a new task.
pub record IsKept (G : Disk → Type 0) : Type 0 where
  pub updates :
      (key : String) (f : Audit → Audit) (d : Disk)
      → ((a : Audit) → (f a).task_id ≡ a.task_id)
      → ((a : Audit) → (f a).result ≡ a.result)
      → G d
      → G (record d { audit = update_audit key f d.audit })
  pub lives : (r : TaskRecord) (d : Disk) → is_terminal r.status ≡ false → G d → G (save r d)
  pub publishes : (r : TaskRecord) (d : Disk) → G d → G (save r (set_result r d))
  pub admits :
      (host : Host) (q : Request) (d : Disk)
      → G d
      → G (save (new_record host q) (record d { audit = new_audit host q ∷ d.audit }))

module _ (G : Disk → Type 0) (kept : IsKept G) (host : Host) where
  transition_locked-Kept :
      (r : TaskRecord) (status : Status) (code : String) (extra : Extra) (d : Disk)
      → G d
      → G (transition_locked host r status code extra d).1
  unfolding transition_locked
  transition_locked-Kept r status code extra d g =
      let t = moved host r status code extra in
      elim (Bool-cases (edge r.status status)) [
        | inl e ↦ elim (Bool-cases (can_write host)) [
          | inl b ↦ elim (Bool-cases (is_terminal status)) [
            | inl f ↦ elim (Bool-cases (has_audit r.task_id d)) [
              | inl h ↦ rw (e, b, f, h) (kept.publishes t d g)
              | inr h ↦ rw (e, b, f, h) g
            ]
            | inr f ↦ rw (e, b, f) (kept.lives t d (rw (moved_status host r status code extra) f) g)
          ]
          | inr b ↦ rw (e, b) g
        ]
        | inr e ↦ rw e g
      ]

  transition-Kept :
      (key : String) (status : Status) (code : String) (extra : Extra) (d : Disk)
      → G d
      → G (transition host key status code extra d).1
  unfolding transition transition_loaded
  transition-Kept key status code extra d g = go (load key d)
    where
      go : (o : Option TaskRecord) → G (transition_loaded host status code extra o d).1
      go none = g
      go (some r) = elim (Bool-cases (is_terminal r.status)) [
        | inl t ↦ rw t g
        | inr t ↦ elim (Bool-cases (r.cancel_requested && is_progress status)) [
          | inl c ↦
              rw (t, c) (transition_locked-Kept r cancelled "cancellation_requested" extra d g)
          | inr c ↦ rw (t, c) (transition_locked-Kept r status code extra d g)
        ]
      ]

  cancel-Kept : (key : String) (d : Disk) → G d → G (cancel host key d).1
  unfolding cancel cancel_loaded
  cancel-Kept key d g = go (load key d)
    where
      go : (o : Option TaskRecord) → G (cancel_loaded host o d).1
      go none = g
      go (some r) = elim (Bool-cases (is_terminal r.status)) [
        | inl t ↦ rw t g
        | inr t ↦ elim (Bool-cases (same_status r.status submitted)) [
          | inl c ↦
              rw (t, c)
                (transition_locked-Kept _ cancelled "cancelled_before_reservation" no_extra d g)
          | inr c ↦ elim (Bool-cases (can_write host)) [
            | inl b ↦ rw (t, c, b) (kept.lives _ d t g)
            | inr b ↦ rw (t, c, b) g
          ]
        ]
      ]

  fail_storage-Kept :
      (key : String) (o : Option TaskRecord) (d : Disk) → G d → G (fail_storage host key o d).1
  unfolding fail_storage
  fail_storage-Kept key none d g = g
  fail_storage-Kept key (some r) d g = elim (Bool-cases (is_terminal r.status)) [
    | inl t ↦ rw t g
    | inr t ↦ elim (Bool-cases (can_write host)) [
      | inr b ↦ rw (t, b) g
      | inl b ↦
          rw (t, b)
            (transition-Kept key failed "storage_error" no_extra _ (
              kept.updates key
                (λ (a : Audit). record a {
                  execution_log = "storage_error; task not retried";
                  test_result = not_completed "storage_error";
                })
                d (λ a. refl) (λ a. refl) g))
    ]
  ]

  storage_failure-Kept : (key : String) (d : Disk) → G d → G (storage_failure host key d).1
  unfolding storage_failure release_reserve
  storage_failure-Kept key d g = elim (Bool-cases (has_audit key d)) [
    | inl h ↦ rw h (
        fail_storage-Kept key _ _ (
          kept.updates key (λ (a : Audit). record a { reserve = false }) d (λ a. refl) (λ a. refl)
            g))
    | inr h ↦ rw h g
  ]

  recover_one-Kept : (r : TaskRecord) (d : Disk) → G d → G (recover_one host r d).1
  unfolding recover_one mark_interrupted marked
  recover_one-Kept r d g =
      elim (Bool-cases (same_status r.status reserved || same_status r.status running)) [
        | inl t ↦ elim (Bool-cases (has_audit r.task_id d && can_write host)) [
          | inl h ↦ elim (Bool-cases (can_read_agent r (audit_of r.task_id d))) [
            | inl f ↦
                rw (t, h, f)
                  (forgotten
                    (transition host r.task_id interrupted "interrupted_no_retry" no_extra _)
                    (transition-Kept r.task_id interrupted "interrupted_no_retry" no_extra _
                      (kept.updates r.task_id _ d (λ a. refl) (λ a. refl) g)))
            | inr f ↦
                rw (t, h, f)
                  (kept.updates r.task_id
                    (λ (a : Audit). record a { test_result = not_completed "interrupted_no_retry" })
                    d (λ a. refl) (λ a. refl) g)
          ]
          | inr h ↦ rw (t, h) g
        ]
        | inr t ↦ rw t g
      ]
    where
      forgotten : (x : Result StoreError TaskRecord × Disk) → G x.1 → G (forget x).1
      forgotten (ok r, e) l = l
      forgotten (err x, e) l = l

  recover_all-Kept : (rs : List TaskRecord) (d : Disk) → G d → G (recover_all host rs d).1
  unfolding recover_all
  recover_all-Kept [] d g = g
  recover_all-Kept (r ∷ rs) d g =
      go (recover_one host r d) (recover_one-Kept r d g) (λ e. recover_all-Kept rs e)
    where
      go :
          (x : Result StoreError (Unit {0}) × Disk)
          → G x.1
          → ((e : Disk) → G e → G (recover_all host rs e).1)
          → G (continue x (λ (u : Unit {0}). recover_all host rs)).1
      go (ok u, e) l k = k e l
      go (err x, e) l k = l

  submit-Kept : (q : Request) (d : Disk) → G d → G (submit host q d).1
  unfolding submit submit_loaded
  submit-Kept q d g = go (load q.task_id d)
    where
      go : (o : Option TaskRecord) → G (submit_loaded host q o d).1
      go none = elim (admit_cases host q d) [
        | inl e ↦ rw e g
        | inr e ↦ rw (e.0) (kept.admits host q d g)
      ]
      go (some r) = elim (Bool-cases (str_eq r.payload_hash (host.digest q))) [
        | inl e ↦ rw e g
        | inr e ↦ rw e g
      ]

  recovery-Kept : (d : Disk) → G d → G (recovery host d).1
  unfolding recovery
  recovery-Kept d g = recover_all-Kept d.tasks d g

module _ (G : Disk → Type 0) (kept : IsKept G) where
  apply-Kept : (o : Op) (d : Disk) → G d → G (apply o d)
  apply-Kept (submits host q) d g = submit-Kept G kept host q d g
  apply-Kept (moves_to host key status code extra) d g =
      transition-Kept G kept host key status code extra d g
  apply-Kept (cancels host key) d g = cancel-Kept G kept host key d g
  apply-Kept (fails host key) d g = storage_failure-Kept G kept host key d g
  apply-Kept (recovers host) d g = recovery-Kept G kept host d g

  pub run-Kept : (os : List Op) (d : Disk) → G d → G (run os d)
  run-Kept [] d g = g
  run-Kept (o ∷ os) d g = run-Kept os (apply o d) (apply-Kept o d g)
