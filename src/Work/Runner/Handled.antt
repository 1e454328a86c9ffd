-- ===== src/Work/Runner/Handled.antt =====
-- The `except` clauses of `Runner.tick` of src/personal_ai_brain/work_runner.py.
use personal_ai_brain.Prelude.{
  String, ◌≡◌, refl, inl, inr, Bool, true, false, not, ◌&&◌, Bool-cases, some, arith, Result, ok,
  err, continue, pure,
}
use personal_ai_brain.Work.Directories.{updated-HasAudit}
use personal_ai_brain.Work.Store.{
  Audit, has_audit, can_write, not_completed, Status, submitted, reserved, running, succeeded,
  failed, blocked, cancelled, interrupted, TaskRecord, Disk, Host, load, edge, is_terminal,
  same_status,
}
use personal_ai_brain.Work.Transition.{
  no_extra, moved, is_progress, set_test_result, transition, release_reserve, fail_storage,
  storage_failure,
}
use personal_ai_brain.Work.Transition.History.{ask, move, Chain, stay, next, Later, Chain-trans}
use personal_ai_brain.Work.Transition.Chains.{Later-some}
use personal_ai_brain.Work.Runner.Moves.{transition-Moves}
use personal_ai_brain.Work.Runner.{Fault, abort, storage, failure, Policy, Attempt, lifted, handle}

-- The statuses of a run that did not succeed.
abbrev pub is_unsuccessful : Status → Bool
is_unsuccessful t = is_terminal t && not (same_status t succeeded)

-- What becomes of a record: a later one that satisfies `P`, with its audit directory.
abbrev pub Held : TaskRecord → (TaskRecord → Type 0) → Disk → Type 0
Held r P d =
    (s : TaskRecord) × (load r.task_id d ≡ some s)
    × (has_audit r.task_id d ≡ true)
    × Chain r s
    × P s

abbrev pub IsLeft : TaskRecord → Type 0
IsLeft s = same_status s.status submitted ≡ false

abbrev pub IsOver : TaskRecord → Type 0
IsOver s = is_terminal s.status ≡ true

edge_left : (s t : Status) → edge s t ≡ true → same_status t submitted ≡ false
unfolding edge is_terminal
edge_left submitted t h = ground arith
edge_left reserved t h = ground arith
edge_left running submitted h = absurd (ground arith)
edge_left running t h = refl
edge_left s t h = absurd (ground arith)

-- No change leads back to `submitted`.
pub Chain-IsLeft : (r s : TaskRecord) → IsLeft r → Chain r s → IsLeft s
unfolding moved
Chain-IsLeft r s h stay = h
Chain-IsLeft r s h (next {s = u} c (ask host live)) = Chain-IsLeft r u h c
Chain-IsLeft r s h (next {s = u} c (move host status code extra e f)) = edge_left u.status status e

pub Held-Later :
    (r : TaskRecord) (P : TaskRecord → Type 0) (d e : Disk)
    → ((s t : TaskRecord) → P s → Chain s t → P t)
    → Later (load r.task_id d) (load r.task_id e)
    → (has_audit r.task_id d ≡ true → has_audit r.task_id e ≡ true)
    → Held r P d
    → Held r P e
Held-Later r P d e keep l b (s, h, g, c, p) =
    let later = Later-some (load r.task_id d) (load r.task_id e) s l h in
    (later.0, later.1, b g, Chain-trans c later.2, keep s later.0 p later.2)

abbrev pub Anything : TaskRecord → Type 0
Anything s = Unit {0}

-- `x` is the end of the `except` clauses, at a disk where the record is over.
abbrev pub Ended : TaskRecord → Result Fault Bool × Disk → Type 0
Ended r x = (x.0 ≡ ok true) × Held r IsOver x.1

unsuccessful :
    (t : Status) → is_unsuccessful t ≡ true → (is_terminal t ≡ true) × (is_progress t ≡ false)
unfolding is_terminal is_progress
unsuccessful failed h = (refl, refl)
unsuccessful blocked h = (refl, refl)
unsuccessful cancelled h = (refl, refl)
unsuccessful interrupted h = (refl, refl)
unsuccessful t h = absurd (ground arith)

reserved_ends : (t : Status) → is_unsuccessful t ≡ true → edge reserved t ≡ true
unfolding edge is_terminal
reserved_ends failed u = refl
reserved_ends blocked u = refl
reserved_ends cancelled u = refl
reserved_ends interrupted u = refl
reserved_ends t u = absurd (ground arith)

-- The edges to an unsuccessful end are there for every live record that has left `submitted`.
edge_ends :
    (s t : Status)
    → is_terminal s ≡ false
    → is_unsuccessful t ≡ true
    → same_status s submitted ≡ false
    → edge s t ≡ true
unfolding edge is_terminal
edge_ends submitted t l u n = absurd (ground arith)
edge_ends reserved t l u n = reserved_ends t u
edge_ends running t l u n = ground arith
edge_ends s t l u n = absurd (ground arith)

edge_fails : (s : Status) → is_terminal s ≡ false → edge s failed ≡ true
unfolding edge is_terminal
edge_fails submitted l = refl
edge_fails reserved l = refl
edge_fails running l = refl
edge_fails s l = absurd (ground arith)

-- A transition to a terminal status that there is an edge to, for a record that `r` became.
lands :
    (host : Host) (r s : TaskRecord) (t : Status) (code : String) (d : Disk)
    → is_unsuccessful t ≡ true
    → (is_terminal s.status ≡ false → edge s.status t ≡ true)
    → load r.task_id d ≡ some s
    → has_audit r.task_id d ≡ true
    → can_write host ≡ true
    → Chain r s
    → (u : TaskRecord) × (e : Disk) × (transition host r.task_id t code no_extra d ≡ (ok u, e))
      × Held r IsOver e
lands host r s t code d n k h g b c =
    let ends = unsuccessful t n in
    elim (transition-Moves host r.task_id no_extra d s t code h g) [
      | inl (z, e, f) ↦
          (let why = f ends.1 b in let edge_there = k why.0 in absurd (ground (arith, why.1)))
      | inr (u, e, x, l, a, q, o) ↦ (
        u,
        e,
        x,
        (u, l, a, Chain-trans c q, (elim o [ inl over ↦ over | inr is ↦ rw is ends.0 ])),
      )
    ]

-- What a step leaves: it returns and the record satisfies `P`, or it raises.
abbrev pub Stops :
    {A : Type 0} → TaskRecord → (TaskRecord → Type 0) → Result Fault A × Disk → Type 0
Stops r P (ok u, d) = Held r P d
Stops r P (err (abort t code), d) = Held r IsLeft d × (is_unsuccessful t ≡ true)
Stops r P (err storage, d) = Held r Anything d
Stops r P (err failure, d) = Held r Anything d

lands-Ended :
    (host : Host) (r s : TaskRecord) (t : Status) (code : String) (d : Disk)
    → is_unsuccessful t ≡ true
    → (is_terminal s.status ≡ false → edge s.status t ≡ true)
    → load r.task_id d ≡ some s
    → has_audit r.task_id d ≡ true
    → can_write host ≡ true
    → Chain r s
    → Ended r (
        continue
          (lifted (transition host r.task_id t code no_extra d))
          (λ (v : TaskRecord). pure true))
unfolding lifted
lands-Ended host r s t code d n k h g b c =
    let (u, e, x, o) = lands host r s t code d n k h g b c in rw x (refl, o)

failed_unsuccessful : is_unsuccessful failed ≡ true
unfolding is_terminal
failed_unsuccessful = refl

storage-Ended :
    (host : Host) (r : TaskRecord) (d : Disk)
    → can_write host ≡ true
    → Held r Anything d
    → Ended r (continue (lifted (storage_failure host r.task_id d)) (λ (v : TaskRecord). pure true))
unfolding storage_failure fail_storage release_reserve load lifted
storage-Ended host r d b (s, h, g, c, p) =
    let freed =
      updated-HasAudit r.task_id r.task_id (λ (a : Audit). record a { reserve = false }) d
        (λ a. refl) g in
    elim (Bool-cases (is_terminal s.status)) [
      | inl t ↦ rw (g, h, t) (refl, (s, h, freed, c, t))
      | inr t ↦
          rw (g, h, t, b)
            (lands-Ended host r s failed "storage_error" _ failed_unsuccessful (edge_fails s.status)
              h
              (updated-HasAudit r.task_id r.task_id
                (λ (a : Audit). record a {
                  execution_log = "storage_error; task not retried";
                  test_result = not_completed "storage_error";
                })
                (release_reserve host r.task_id d) (λ a. refl) freed)
              b c)
    ]

-- The test result is written, and then the transition made.
tested-Ended :
    (host : Host) (r s : TaskRecord) (t : Status) (code : String) (d : Disk)
    → is_unsuccessful t ≡ true
    → (is_terminal s.status ≡ false → edge s.status t ≡ true)
    → load r.task_id d ≡ some s
    → has_audit r.task_id d ≡ true
    → can_write host ≡ true
    → Chain r s
    → Ended r (
        continue
          (lifted (set_test_result host r.task_id (not_completed code) d))
          (λ (u : Unit {0}) e.
            continue
              (lifted (transition host r.task_id t code no_extra e))
              (λ (v : TaskRecord). pure true)))
unfolding set_test_result lifted load
tested-Ended host r s t code d n k h g b c =
    rw (g, b)
      (lands-Ended host r s t code _ n k h
        (updated-HasAudit r.task_id r.task_id
          (λ (a : Audit). record a { test_result = not_completed code }) d (λ a. refl) g)
        b c)

module _ (policy : Policy) (a : Attempt) (r : TaskRecord) where
  pub handle-Ended :
      (x : Result Fault (Unit {0}) × Disk)
      → can_write a.handling ≡ true
      → Stops r IsOver x
      → Ended r (handle policy a r.task_id x)
  unfolding handle
  handle-Ended (ok u, d) b k = (refl, k)
  handle-Ended (err (abort t code), d) b ((s, h, g, c, p), n) =
      tested-Ended a.handling r s t code d n (λ l. edge_ends s.status t l n p) h g b c
  handle-Ended (err storage, d) b k = storage-Ended a.handling r d b k
  handle-Ended (err failure, d) b (s, h, g, c, p) =
      tested-Ended a.handling r s failed "runner_error" d failed_unsuccessful (edge_fails s.status)
        h g b c
