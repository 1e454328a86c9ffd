-- ===== src/Work/Runner/Moves.antt =====
-- What one `Store.transition` of src/personal_ai_brain/work_store.py makes of its record.
use personal_ai_brain.Prelude.{
  String, ◌≡◌, refl, ◌⊎◌, inl, inr, true, false, ◌&&◌, Bool-cases, some, arith, Result, ok, err,
}
use personal_ai_brain.Work.Directories.{updated-HasAudit}
use personal_ai_brain.Work.Store.{
  Audit, audit_of, has_audit, can_write, os_error, Status, cancelled, TaskRecord, Disk, Host,
  StoreError, invalid_transition, load, save, edge, is_terminal,
}
use personal_ai_brain.Work.Store.Laws.{load_saved, load-name}
use personal_ai_brain.Work.Transition.{
  Extra, moved, is_progress, set_result, transition_locked, transition_loaded, transition,
}
use personal_ai_brain.Work.Transition.History.{move, Chain, stay, next}

-- A transition raises and writes nothing, or ends in the status or in a terminal one. It raises
-- only where there is no such edge.
abbrev pub Moves :
    Host → String → Status → TaskRecord → Disk → Result StoreError TaskRecord × Disk → Type 0
Moves host id status s d x =
    ((e : StoreError) × (x ≡ (err e, d))
      × (is_progress status ≡ false
          → can_write host ≡ true
          → (is_terminal s.status ≡ false) × (edge s.status status ≡ false)))
    ⊎ ((u : TaskRecord) × (e : Disk) × (x ≡ (ok u, e))
        × (load id e ≡ some u)
        × (has_audit id e ≡ true)
        × Chain s u
        × ((is_terminal u.status ≡ true) ⊎ (u.status ≡ status)))

has_audit-saved :
    (id : String) (u : TaskRecord) (d : Disk)
    → has_audit id d ≡ true
    → (has_audit id (save u d) ≡ true) × (has_audit id (save u (set_result u d)) ≡ true)
unfolding save set_result has_audit audit_of
has_audit-saved id u d g =
    (g, updated-HasAudit id u.task_id (λ (a : Audit). record a { result = u }) d (λ a. refl) g)

module _ (host : Host) (id : String) (code : String) (extra : Extra) (d : Disk)
    (s : TaskRecord) where
  locked-Moves :
      (status : Status)
      → s.task_id ≡ id
      → has_audit id d ≡ true
      → (s.cancel_requested && is_progress status) ≡ false
      → ((e : StoreError) × (transition_locked host s status code extra d ≡ (err e, d))
          × (can_write host ≡ true → edge s.status status ≡ false))
        ⊎ ((u : TaskRecord) × (e : Disk) × (transition_locked host s status code extra d
              ≡ (ok u, e))
            × (load id e ≡ some u)
            × (has_audit id e ≡ true)
            × Chain s u
            × (u.status ≡ status))
  unfolding transition_locked moved
  locked-Moves status n g c = elim (Bool-cases (edge s.status status)) [
    | inl e ↦
        (let u : TaskRecord = moved host s status code extra in
          let saved = has_audit-saved id u d g in
          let own : has_audit s.task_id d ≡ true = rw n g in
          let changed = next stay (move host status code extra e c) in
          elim (Bool-cases (can_write host)) [
            | inr b ↦ inl (os_error, rw (e, b) refl, λ k. absurd (ground arith))
            | inl b ↦ elim (Bool-cases (is_terminal status)) [
              | inl t ↦ inr (
                u,
                save u (set_result u d),
                rw (e, b, t, own) refl,
                load_saved id u (set_result u d) n,
                saved.1,
                changed,
                refl,
              )
              | inr t ↦
                  inr (u, save u d, rw (e, b, t) refl, load_saved id u d n, saved.0, changed, refl)
            ]
          ])
    | inr e ↦ inl (invalid_transition, rw e refl, λ k. e)
  ]

module _ (host : Host) (id : String) (extra : Extra) (d : Disk) (s : TaskRecord) where
  pub transition-Moves :
      (status : Status) (code : String)
      → load id d ≡ some s
      → has_audit id d ≡ true
      → Moves host id status s d (transition host id status code extra d)
  unfolding transition transition_loaded transition_locked is_terminal is_progress
  transition-Moves status code h g = elim (Bool-cases (is_terminal s.status)) [
    | inl t ↦ inr (s, d, rw (h, t) refl, h, g, stay, inl t)
    | inr t ↦ elim (Bool-cases (s.cancel_requested && is_progress status)) [
      | inl c ↦
          elim (locked-Moves host id "cancellation_requested" extra d s cancelled
            (load-name id s d h) g (ground arith)) [
              | inl (x, e, f) ↦ inl (x, rw (h, t, c) e, λ p k. absurd (ground arith))
              | inr (u, f, k, l, b, q, m) ↦ inr (u, f, rw (h, t, c) k, l, b, q, inl (rw m refl))
            ]
      | inr c ↦ elim (locked-Moves host id code extra d s status (load-name id s d h) g c) [
        | inl (x, e, f) ↦ inl (x, rw (h, t, c) e, λ p k. (t, f k))
        | inr (u, f, k, l, b, q, m) ↦ inr (u, f, rw (h, t, c) k, l, b, q, inr m)
      ]
    ]
  ]
