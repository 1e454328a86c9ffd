-- ===== src/Work/Runner/Guards.antt =====
-- `Runner.guard`, `Runner.git` and `Runner.prepare` of src/personal_ai_brain/work_runner.py.
use personal_ai_brain.Prelude.{
  refl, inl, inr, Bool-cases, List, [], ◌∷◌, ◌++◌, Result, ok, err, continue,
}
use personal_ai_brain.Work.Directories.{run-has_audit}
use personal_ai_brain.Work.Store.{TaskRecord, Disk, is_terminal}
use personal_ai_brain.Work.Transition.History.{Chain}
use personal_ai_brain.Work.Calls.{Op, run, run-Later}
use personal_ai_brain.Work.Runner.{
  Fault, abort, storage, failure, Poll, GitProcess, Workspace, guard_loaded, guard, guards, git,
  prepare,
}
use personal_ai_brain.Work.Runner.Handled.{Held, Held-Later, IsLeft, Anything, Stops, Chain-IsLeft}

module _ (r : TaskRecord) where
  pub continue-Stops :
      (P Q : TaskRecord → Type 0) (x : Result Fault (Unit {0}) × Disk)
      (f : Unit {0} → Disk → Result Fault (Unit {0}) × Disk)
      → Stops r P x
      → ((d : Disk) → Held r P d → Stops r Q (f tt d))
      → Stops r Q (continue x f)
  continue-Stops P Q (ok u, d) f h k = k d h
  continue-Stops P Q (err (abort t code), d) f h k = h
  continue-Stops P Q (err storage, d) f h k = h
  continue-Stops P Q (err failure, d) f h k = h

  pub Held-run :
      (P : TaskRecord → Type 0) (os : List Op) (d : Disk)
      → ((s t : TaskRecord) → P s → Chain s t → P t)
      → Held r P d
      → Held r P (run os d)
  Held-run P os d keep h =
      Held-Later r P d (run os d) keep (run-Later r.task_id os d) (run-has_audit r.task_id os d) h

  pub IsLeft-run : (os : List Op) (d : Disk) → Held r IsLeft d → Held r IsLeft (run os d)
  IsLeft-run os d h = Held-run IsLeft os d Chain-IsLeft h

  pub forget_left : (d : Disk) → Held r IsLeft d → Held r Anything d
  forget_left d (s, h, g, c, p) = (s, h, g, c, tt)

  pub guard-Stops : (p : Poll) (d : Disk) → Held r IsLeft d → Stops r IsLeft (guard r.task_id p d)
  unfolding guard guard_loaded is_terminal
  guard-Stops p d h =
      let e = run p.others d in
      let later = IsLeft-run p.others d h in
      elim (Bool-cases p.stopping) [
        | inl b ↦ rw b (later, refl)
        | inr b ↦ elim (Bool-cases later.0.cancel_requested) [
          | inl q ↦ rw (b, later.1, q) (later, refl)
          | inr q ↦ elim (Bool-cases p.expired) [
            | inl x ↦ rw (b, later.1, q, x) (later, refl)
            | inr x ↦ rw (b, later.1, q, x) later
          ]
        ]
      ]

  guards-Stops :
      (ps : List Poll) (d : Disk) → Held r IsLeft d → Stops r IsLeft (guards r.task_id ps d)
  unfolding guards
  guards-Stops [] d h = h
  guards-Stops (p ∷ ps) d h =
      continue-Stops IsLeft IsLeft (guard r.task_id p d) _ (guard-Stops p d h) (guards-Stops ps)

  git-Stops : (g : GitProcess) (d : Disk) → Held r IsLeft d → Stops r IsLeft (git r.task_id g d)
  unfolding git is_terminal
  git-Stops g d h = elim (Bool-cases g.starts) [
    | inl b ↦ rw b (
        continue-Stops IsLeft IsLeft (guards r.task_id (g.polls ++ g.last ∷ []) d) _
          (guards-Stops _ d h)
          (λ e k. elim (Bool-cases g.succeeds) [ inl c ↦ rw c k | inr c ↦ rw c (k, refl) ]))
    | inr b ↦ rw b (forget_left d h)
  ]

  pub prepare-Stops :
      (w : Workspace) (d : Disk) → Held r IsLeft d → Stops r IsLeft (prepare r.task_id w d)
  unfolding prepare is_terminal
  prepare-Stops w d h = elim (Bool-cases w.made) [
    | inl b ↦ rw b (
        continue-Stops IsLeft IsLeft _ _
          (continue-Stops IsLeft IsLeft _ _
            (continue-Stops IsLeft IsLeft _ _ (git-Stops w.clone d h) (git-Stops w.checkout))
            (git-Stops w.remove_origin))
          (λ e k. elim (Bool-cases w.unsupported) [ inl c ↦ rw c (k, refl) | inr c ↦ rw c k ]))
    | inr b ↦ rw b (forget_left d h)
  ]
