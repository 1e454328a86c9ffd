-- ===== src/Work/Transition/History.antt =====
-- What the calls of src/personal_ai_brain/work_store.py can make of one task's record.
use personal_ai_brain.Prelude.{
  String, ◌≡◌, refl, sym, ap, subst, ◌∙◌, Bool, true, false, Option, none, some, List, [], ◌∷◌,
  eq_iff, str_eq, ◌&&◌, ◌||◌, continue, Bool-cases, inl, inr, ok, err, Result,
}
use personal_ai_brain.Work.Store.{
  Status, submitted, reserved, running, cancelled, failed, interrupted, TaskRecord, Request, Disk,
  Host, StoreError, load, audit_of, has_audit, can_write, save, edge, is_terminal, same_status,
  submit, submit_loaded, admit, new_record, new_audit,
}
use personal_ai_brain.Work.Store.Laws.{load-save, load-name, admit_cases}
use personal_ai_brain.Work.Transition.{
  Extra, no_extra, moved, is_progress, transition_locked, transition_loaded, transition, cancel,
  cancel_loaded, storage_failure, forget, fail_storage, release_reserve, can_read_agent, marked,
  mark_interrupted, recover_one, recover_all, set_result,
}

-- One change of a record: cancellation is asked for, or the status moves along an edge, which a
-- requested cancellation allows only if it makes no progress.
pub data Change (r : TaskRecord) : TaskRecord → Type 0 where
  ask :
      (host : Host)
      → is_terminal r.status ≡ false
      → Change r (record r { cancel_requested = true; cancel_requested_at = some host.stamp })
  move :
      (host : Host) (status : Status) (code : String) (extra : Extra)
      → edge r.status status ≡ true
      → (r.cancel_requested && is_progress status) ≡ false
      → Change r (moved host r status code extra)

pub data Chain (r : TaskRecord) : TaskRecord → Type 0 where
  stay : Chain r r
  next : {s t : TaskRecord} → Chain r s → Change s t → Chain r t

-- What a task's file holds before and after: nothing, a newly admitted record and what became of
-- it, or a later one.
pub data Later : Option TaskRecord → Option TaskRecord → Type 0 where
  absent : Later none none
  admitted :
      (host : Host) (q : Request) {s : TaskRecord}
      → Chain (new_record host q) s
      → Later none (some s)
  kept : {r s : TaskRecord} → Chain r s → Later (some r) (some s)

pub Later-refl : (o : Option TaskRecord) → Later o o
Later-refl none = absent
Later-refl (some r) = kept stay

pub Chain-trans : {r s t : TaskRecord} → Chain r s → Chain s t → Chain r t
Chain-trans c stay = c
Chain-trans c (next d x) = next (Chain-trans c d) x

pub Later-trans : (o p q : Option TaskRecord) → Later o p → Later p q → Later o q
Later-trans o p q absent l = l
Later-trans o p q (admitted host n c) (kept d) = admitted host n (Chain-trans c d)
Later-trans o p q (kept c) (kept d) = kept (Chain-trans c d)

pub moved-name :
    (host : Host) (r : TaskRecord) (status : Status) (code : String) (extra : Extra)
    → (moved host r status code extra).task_id ≡ r.task_id
unfolding moved
moved-name host r status code extra = refl

-- Whether cancellation is asked for or not, an unsuccessful end makes no progress.
no_progress : (asked : Bool) → (asked && is_progress cancelled) ≡ false
unfolding is_progress
no_progress true = refl
no_progress false = refl

module _ (host : Host) (id : String) where
  saved :
      (key : String) (r s : TaskRecord) (d : Disk)
      → load key d ≡ some r
      → s.task_id ≡ r.task_id
      → Chain r s
      → Later (load id d) (load id (save s d))
  saved key r s d h n c = elim (Bool-cases (str_eq s.task_id id)) [
    | inl e ↦
        (let same : key ≡ id = sym (load-name key r d h) ∙ sym n ∙ (eq_iff s.task_id id).0 e in
          subst (λ (o : Option TaskRecord). Later o (load id (save s d)))
            (sym h ∙ ap (λ (k : String). load k d) same) (rw (load-save, e) (kept c)))
    | inr e ↦ rw (load-save, e) (Later-refl (load id d))
  ]

  -- `s` is the record in memory, which the file's record may have to catch up with.
  transition_locked-Later :
      (key : String) (r s : TaskRecord) (status : Status) (code : String) (extra : Extra) (d : Disk)
      → load key d ≡ some r
      → s.task_id ≡ r.task_id
      → Chain r s
      → (s.cancel_requested && is_progress status) ≡ false
      → Later (load id d) (load id (transition_locked host s status code extra d).1)
  unfolding transition_locked set_result load
  transition_locked-Later key r s status code extra d h n k c =
      let t = moved host s status code extra in
      let m : t.task_id ≡ r.task_id = moved-name host s status code extra ∙ n in
      elim (Bool-cases (edge s.status status)) [
        | inl e ↦ (elim (Bool-cases (can_write host)) [
          | inr b ↦ rw (e, b) (Later-refl (load id d))
          | inl b ↦ (elim (Bool-cases (is_terminal status)) [
            | inl f ↦ (elim (Bool-cases (has_audit s.task_id d)) [
              | inl g ↦
                  rw (e, b, f, g)
                    (saved key r t (set_result t d) h m (next k (move host status code extra e c)))
              | inr g ↦ rw (e, b, f, g) (Later-refl (load id d))
            ])
            | inr f ↦ rw (e, b, f) (saved key r t d h m (next k (move host status code extra e c)))
          ])
        ])
        | inr e ↦ rw e (Later-refl (load id d))
      ]

  pub transition-Later :
      (key : String) (status : Status) (code : String) (extra : Extra) (d : Disk)
      → Later (load id d) (load id (transition host key status code extra d).1)
  unfolding transition transition_loaded
  transition-Later key status code extra d = go (load key d) refl
    where
      go :
          (o : Option TaskRecord)
          → load key d ≡ o
          → Later (load id d) (load id (transition_loaded host status code extra o d).1)
      go none h = Later-refl (load id d)
      go (some r) h = elim (Bool-cases (is_terminal r.status)) [
        | inl t ↦ rw t (Later-refl (load id d))
        | inr t ↦ elim (Bool-cases (r.cancel_requested && is_progress status)) [
          | inl c ↦
              rw (t, c)
                (transition_locked-Later key r r cancelled "cancellation_requested" extra d h refl
                  stay (no_progress r.cancel_requested))
          | inr c ↦ rw (t, c) (transition_locked-Later key r r status code extra d h refl stay c)
        ]
      ]

  pub cancel-Later : (key : String) (d : Disk) → Later (load id d) (load id (cancel host key d).1)
  unfolding cancel cancel_loaded
  cancel-Later key d = go (load key d) refl
    where
      go :
          (o : Option TaskRecord)
          → load key d ≡ o
          → Later (load id d) (load id (cancel_loaded host o d).1)
      go none h = Later-refl (load id d)
      go (some r) h = elim (Bool-cases (is_terminal r.status)) [
        | inl t ↦ rw t (Later-refl (load id d))
        | inr t ↦ elim (Bool-cases (same_status r.status submitted)) [
          | inl c ↦
              rw (t, c)
                (transition_locked-Later key r _ cancelled "cancelled_before_reservation" no_extra d
                  h refl (next stay (ask host t)) (no_progress true))
          | inr c ↦ elim (Bool-cases (can_write host)) [
            | inl b ↦ rw (t, c, b) (saved key r _ d h refl (next stay (ask host t)))
            | inr b ↦ rw (t, c, b) (Later-refl (load id d))
          ]
        ]
      ]

  fail_storage-Later :
      (key : String) (o : Option TaskRecord) (d : Disk)
      → load key d ≡ o
      → Later (load id d) (load id (fail_storage host key o d).1)
  unfolding fail_storage load
  fail_storage-Later key none d h = Later-refl (load id d)
  fail_storage-Later key (some r) d h = elim (Bool-cases (is_terminal r.status)) [
    | inl t ↦ rw t (Later-refl (load id d))
    | inr t ↦ elim (Bool-cases (can_write host)) [
      | inl b ↦ rw (t, b) (transition-Later key failed "storage_error" no_extra _)
      | inr b ↦ rw (t, b) (Later-refl (load id d))
    ]
  ]

  pub storage_failure-Later :
      (key : String) (d : Disk) → Later (load id d) (load id (storage_failure host key d).1)
  unfolding storage_failure release_reserve load
  storage_failure-Later key d = elim (Bool-cases (has_audit key d)) [
    | inl g ↦ rw g (fail_storage-Later key (load key d) (release_reserve host key d) refl)
    | inr g ↦ rw g (Later-refl (load id d))
  ]

  forgotten :
      (d : Disk) (r : Result StoreError TaskRecord × Disk)
      → Later (load id d) (load id r.1)
      → Later (load id d) (load id (forget r).1)
  forgotten d (ok r, e) l = l
  forgotten d (err x, e) l = l

  recover_one-Later :
      (r : TaskRecord) (d : Disk) → Later (load id d) (load id (recover_one host r d).1)
  unfolding recover_one mark_interrupted marked load
  recover_one-Later r d =
      elim (Bool-cases (same_status r.status reserved || same_status r.status running)) [
        | inl t ↦ (elim (Bool-cases (has_audit r.task_id d && can_write host)) [
          | inl g ↦ (elim (Bool-cases (can_read_agent r (audit_of r.task_id d))) [
            | inl f ↦
                rw (t, g, f)
                  (forgotten d
                    (transition host r.task_id interrupted "interrupted_no_retry" no_extra _)
                    (transition-Later r.task_id interrupted "interrupted_no_retry" no_extra _))
            | inr f ↦ rw (t, g, f) (Later-refl (load id d))
          ])
          | inr g ↦ rw (t, g) (Later-refl (load id d))
        ])
        | inr t ↦ rw t (Later-refl (load id d))
      ]

  pub recover_all-Later :
      (rs : List TaskRecord) (d : Disk) → Later (load id d) (load id (recover_all host rs d).1)
  unfolding recover_all
  recover_all-Later [] d = Later-refl (load id d)
  recover_all-Later (r ∷ rs) d =
      go (recover_one host r d) (recover_one-Later r d) (λ e. recover_all-Later rs e)
    where
      go :
          (x : Result StoreError (Unit {0}) × Disk)
          → Later (load id d) (load id x.1)
          → ((e : Disk) → Later (load id e) (load id (recover_all host rs e).1))
          → Later (load id d) (load id (continue x (λ (u : Unit {0}). recover_all host rs)).1)
      go (ok u, e) l k =
          Later-trans (load id d) (load id e) (load id (recover_all host rs e).1) l (k e)
      go (err x, e) l k = l

  added :
      (q : Request) (d : Disk)
      → load q.task_id d ≡ none
      → Later (load id d) (load id (save (new_record host q) d))
  unfolding new_record
  added q d h = elim (Bool-cases (str_eq q.task_id id)) [
    | inl e ↦
        (let same : q.task_id ≡ id = (eq_iff q.task_id id).0 e in
          rw (load-save, e)
            (subst (λ (k : String). Later (load k d) (some (new_record host q))) same
              (rw h (admitted host q stay))))
    | inr e ↦ rw (load-save, e) (Later-refl (load id d))
  ]

  admit-Later :
      (q : Request) (d : Disk)
      → load q.task_id d ≡ none
      → Later (load id d) (load id (admit host q d).1)
  unfolding load
  admit-Later q d h = elim (admit_cases host q d) [
    | inl e ↦ rw e (Later-refl (load id d))
    | inr e ↦ rw (e.0) (added q (record d { audit = new_audit host q ∷ d.audit }) h)
  ]

  pub submit-Later : (q : Request) (d : Disk) → Later (load id d) (load id (submit host q d).1)
  unfolding submit submit_loaded
  submit-Later q d = go (load q.task_id d) refl
    where
      go :
          (o : Option TaskRecord)
          → load q.task_id d ≡ o
          → Later (load id d) (load id (submit_loaded host q o d).1)
      go none h = admit-Later q d h
      go (some r) h = elim (Bool-cases (str_eq r.payload_hash (host.digest q))) [
        | inl e ↦ rw e (Later-refl (load id d))
        | inr e ↦ rw e (Later-refl (load id d))
      ]
