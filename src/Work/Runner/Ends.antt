-- ===== src/Work/Runner/Ends.antt =====
-- `Runner.tick` of src/personal_ai_brain/work_runner.py brings the task that it picks to an end.
use personal_ai_brain.Prelude.{
  ℕ, String, ◌≡◌, refl, ◌⊎◌, inl, inr, true, false, not, ◌&&◌, Bool-cases, Option, none, some,
  arith, str_eq, leb, Result, ok, err, continue, pure,
}
use personal_ai_brain.Work.Directories.{updated-HasAudit}
use personal_ai_brain.Work.Store.{
  StoreError, os_error, can_write, has_audit, Status, submitted, reserved, running, blocked,
  interrupted, TaskRecord, Disk, Host, load, is_terminal, same_status, coding_type,
}
use personal_ai_brain.Work.Transition.{Extra, no_extra, transition}
use personal_ai_brain.Work.Transition.History.{Chain, stay, Chain-trans}
use personal_ai_brain.Work.Calls.{run}
use personal_ai_brain.Work.Recovery.{IsKeyed}
use personal_ai_brain.Work.Runner.{
  report, Fault, abort, storage, failure, Policy, Attempt, raised, lifted, candidates, pick, finish,
  execute, start, block, check_space, enter, attempt, tick_picked, tick,
}
use personal_ai_brain.Work.Runner.Handled.{
  Held, IsLeft, IsOver, Anything, Stops, handle-Ended, is_unsuccessful,
}
use personal_ai_brain.Work.Runner.Moves.{transition-Moves}
use personal_ai_brain.Work.Runner.Picked.{IsCandidate, candidates-All, pick-All}
use personal_ai_brain.Work.Runner.Guards.{
  continue-Stops, Held-run, IsLeft-run, forget_left, guard-Stops, prepare-Stops,
}

-- What an executor may report: a terminal status, or an `Abort` that is no success.
abbrev pub IsOutcome : Result Fault (Status × String) → Type 0
IsOutcome (ok (t, code)) = is_terminal t ≡ true
IsOutcome (err (abort t code)) = is_unsuccessful t ≡ true
IsOutcome (err storage) = Unit {0}
IsOutcome (err failure) = Unit {0}

module _ (r : TaskRecord) where
  -- An error of the store within the `try` block.
  raised-Stops :
      {A : Type 0} (Q : TaskRecord → Type 0) (z : StoreError)
      (f : TaskRecord → Disk → Result Fault A × Disk) (d : Disk)
      → Held r Anything d
      → Stops r Q (continue (lifted (err z, d)) f)
  unfolding lifted raised
  raised-Stops Q os_error f d h = h
  raised-Stops Q z f d h = h

  -- A transition within the `try` block, and what follows it.
  transition-Stops :
      {A : Type 0} (P Q : TaskRecord → Type 0) (host : Host) (status : Status) (code : String)
      (extra : Extra) (f : TaskRecord → Disk → Result Fault A × Disk) (d : Disk)
      → Held r P d
      → ((u : TaskRecord) (e : Disk)
          → load r.task_id e ≡ some u
          → has_audit r.task_id e ≡ true
          → Chain r u
          → ((is_terminal u.status ≡ true) ⊎ (u.status ≡ status))
          → Stops r Q (f u e))
      → Stops r Q (continue (lifted (transition host r.task_id status code extra d)) f)
  unfolding lifted raised
  transition-Stops P Q host status code extra f d (s, h, g, c, p) k =
      elim (transition-Moves host r.task_id extra d s status code h g) [
        | inl (z, x, w) ↦ rw x (raised-Stops Q z f d (s, h, g, c, tt))
        | inr (u, e, x, l, b, q, o) ↦ rw x (k u e l b (Chain-trans c q) o)
      ]

  over :
      (u : TaskRecord) (t : Status)
      → is_terminal t ≡ true
      → ((is_terminal u.status ≡ true) ⊎ (u.status ≡ t))
      → IsOver u
  over u t h (inl o) = o
  over u t h (inr e) = rw e h

  arrived :
      (u : TaskRecord) (t : Status)
      → is_terminal u.status ≡ false
      → same_status t submitted ≡ false
      → ((is_terminal u.status ≡ true) ⊎ (u.status ≡ t))
      → IsLeft u
  arrived u t l n (inl o) = absurd (ground arith)
  arrived u t l n (inr e) = rw e n

  -- A transition to a terminal status is the end.
  last-Stops :
      (P : TaskRecord → Type 0) (host : Host) (t : Status) (code : String) (d : Disk)
      → is_terminal t ≡ true
      → Held r P d
      → Stops r IsOver (
          continue
            (lifted (transition host r.task_id t code no_extra d))
            (λ (u : TaskRecord). pure tt))
  last-Stops P host t code d n h =
      transition-Stops P IsOver host t code no_extra (λ (u : TaskRecord). pure tt) d h
        (λ u e l g c o. (u, l, g, c, over u t n o))

module _ (policy : Policy) (a : Attempt) (r : TaskRecord) where
  finish-Stops :
      (o : Result Fault (Status × String)) (d : Disk)
      → IsOutcome o
      → Held r IsLeft d
      → Stops r IsOver (finish policy a r.task_id o d)
  unfolding finish is_terminal
  finish-Stops (ok (t, code)) d n h = elim (Bool-cases a.stopping) [
    | inl b ↦ rw b (last-Stops r IsLeft a.ending interrupted "service_stopping" d refl h)
    | inr b ↦ rw b (last-Stops r IsLeft a.ending t code d n h)
  ]
  finish-Stops (err (abort t code)) d n h = (h, n)
  finish-Stops (err storage) d n h = forget_left r d h
  finish-Stops (err failure) d n h = forget_left r d h

  execute-Stops :
      (d : Disk)
      → IsOutcome a.execution.outcome
      → Held r IsLeft d
      → Stops r IsOver (execute policy a r.task_id d)
  unfolding execute load
  execute-Stops d n h =
      let (s, there, audit, chain, left) = IsLeft-run r a.execution.others d h in
      finish-Stops a.execution.outcome _ n (
        s,
        there,
        updated-HasAudit r.task_id r.task_id (report policy a) (run a.execution.others d)
            (λ f. refl) audit,
        chain,
        left,
      )

  start-Stops :
      (d : Disk)
      → IsOutcome a.execution.outcome
      → Held r IsLeft d
      → Stops r IsOver (start policy a r.task_id d)
  unfolding start
  start-Stops d n h =
      transition-Stops r IsLeft IsOver a.starting running "sandbox_starting" _ _ d h (λ u e l g c o.
        elim (Bool-cases (is_terminal u.status)) [
          | inl t ↦ rw t (u, l, g, c, t)
          | inr t ↦ rw t (execute-Stops e n (u, l, g, c, arrived r u running t refl o))
        ])

  block_terminal : is_terminal blocked ≡ true
  unfolding is_terminal
  block_terminal = refl

  block-Stops :
      (code : String) (d : Disk)
      → Held r IsLeft d
      → Stops r IsOver (block policy a r.task_id code d)
  unfolding block
  block-Stops code d h = last-Stops r IsLeft a.blocking blocked code d block_terminal h

  check_space-Stops :
      (free : Option ℕ) (d : Disk)
      → IsOutcome a.execution.outcome
      → Held r IsLeft d
      → Stops r IsOver (check_space policy a r.task_id free d)
  unfolding check_space
  check_space-Stops none d n h = forget_left r d h
  check_space-Stops (some free) d n h = elim (Bool-cases (not (leb policy.min_free_bytes free))) [
    | inl b ↦ rw b (block-Stops "insufficient_storage" d h)
    | inr b ↦ rw b (
        continue-Stops r IsLeft IsOver _ _
          (continue-Stops r IsLeft IsLeft _ _ (prepare-Stops r a.workspace d h)
            (guard-Stops r a.prepared))
          (λ e k. start-Stops e n k))
  ]

  enter-Stops :
      (u : TaskRecord) (d : Disk)
      → IsOutcome a.execution.outcome
      → Held r IsLeft d
      → Stops r IsOver (enter policy a r.task_id u d)
  unfolding enter
  enter-Stops u d n h =
      elim (Bool-cases (str_eq u.request.task_type coding_type && not policy.coding_enabled)) [
        | inl b ↦ rw b (block-Stops "coding_not_enabled" d h)
        | inr b ↦ rw b (check_space-Stops a.free d n h)
      ]

  attempt-Stops :
      (d : Disk)
      → IsOutcome a.execution.outcome
      → load r.task_id d ≡ some r
      → has_audit r.task_id d ≡ true
      → Stops r IsOver (attempt policy a r d)
  unfolding attempt
  attempt-Stops d n h g =
      transition-Stops r Anything IsOver a.reserving reserved "worker_reserved" _ _ (run a.before d)
        (Held-run r Anything a.before d (λ s t p c. tt) (r, h, g, stay, tt))
        (λ u e l g c o. elim (Bool-cases (is_terminal u.status)) [
          | inl t ↦ rw t (u, l, g, c, t)
          | inr t ↦ rw t (
              enter-Stops u (run a.reserved_others e) n
                (IsLeft-run r a.reserved_others e (u, l, g, c, arrived r u reserved t refl o)))
        ])

-- On a disk where each task's file is found under its name and the picked task has its audit
-- directory, and if the device can be written when the `except` clauses write, whether or not it
-- could before: a tick that picks a task returns, and then the task is in a terminal status, which
-- its record has reached by changes that the store allows. This is so whatever git, the free
-- space, the workspace, the guards and the executor come to and whatever calls of the store others
-- make before each step, if an executor that returns reports a terminal status, and an `Abort` of
-- it names a terminal status other than `succeeded`.
pub tick-Ended :
    (policy : Policy) (a : Attempt) (d : Disk) (r : TaskRecord)
    → IsOutcome a.execution.outcome
    → IsKeyed d
    → has_audit r.task_id d ≡ true
    → can_write a.handling ≡ true
    → pick (candidates d.tasks) ≡ ok (some r)
    → ((tick policy a d).0 ≡ ok true)
      × ((s : TaskRecord) × (load r.task_id (tick policy a d).1 ≡ some s)
          × Chain r s
          × (is_terminal s.status ≡ true))
unfolding tick tick_picked
tick-Ended policy a d r n k g b h =
    let found = pick-All (IsCandidate d) (candidates d.tasks) r (candidates-All d d.tasks k) h in
    let ended =
      handle-Ended policy a r (attempt policy a r d) b (attempt-Stops policy a r d n found.0 g) in
    let (s, there, audit, chain, over) = ended.1 in rw h (ended.0, (s, there, chain, over))
