-- ===== src/Work/Runner/Picked.antt =====
-- The task that `Runner.tick` of src/personal_ai_brain/work_runner.py picks is one of the candidates.
use personal_ai_brain.Prelude.{
  String, ◌≡◌, subst, inl, inr, true, Bool-cases, some, Option-cases, text_leb, List, [], ◌∷◌,
  arith, some_inv, All, ok,
}
use personal_ai_brain.Work.Store.{submitted, TaskRecord, Disk, load, same_status}
use personal_ai_brain.Work.Runner.{candidates, earliest, first_at, pick}

-- What is read back as it is, and submitted.
abbrev pub IsCandidate : Disk → TaskRecord → Type 0
IsCandidate d r = (load r.task_id d ≡ some r) × (same_status r.status submitted ≡ true)

pub candidates-All :
    (d : Disk) (rs : List TaskRecord)
    → All (λ (r : TaskRecord). load r.task_id d ≡ some r) rs
    → All (IsCandidate d) (candidates rs)
unfolding candidates
candidates-All d [] h = tt
candidates-All d (r ∷ rs) h = elim (Bool-cases (same_status r.status submitted)) [
  | inl b ↦ rw b ((h.0, b), candidates-All d rs h.1)
  | inr b ↦ rw b (candidates-All d rs h.1)
]

earliest-All :
    (P : TaskRecord → Type 0) (r : TaskRecord) (at : String) (xs : List TaskRecord) (x : TaskRecord)
    → P r
    → All P xs
    → earliest r at xs ≡ some x
    → P x
unfolding earliest
earliest-All P r at [] x p h e = subst P (some_inv r x e) p
earliest-All P r at (y ∷ ys) x p h e = elim (Option-cases (first_at y.history)) [
  | inl f ↦ absurd (ground arith)
  | inr (t, f) ↦ elim (Bool-cases (text_leb at t)) [
    | inl b ↦ earliest-All P r at ys x p h.1 (ground (arith, f, b))
    | inr b ↦ earliest-All P y t ys x h.0 h.1 (ground (arith, f, b))
  ]
]

pub pick-All :
    (P : TaskRecord → Type 0) (rs : List TaskRecord) (x : TaskRecord)
    → All P rs
    → pick rs ≡ ok (some x)
    → P x
unfolding pick
pick-All P [] x h e = absurd (ground arith)
pick-All P (r ∷ rs) x h e = elim (Option-cases (first_at r.history)) [
  | inl f ↦ absurd (ground arith)
  | inr (t, f) ↦ elim (Option-cases (earliest r t rs)) [
    | inl g ↦ absurd (ground arith)
    | inr (y, g) ↦ earliest-All P r t rs x h.0 h.1 (ground arith)
  ]
]
