-- ===== src/Rollup/Applied.antt =====
-- A root state to which the changes of src/personal_ai_brain/rollup_proposal.py were applied.
use personal_ai_brain.Prelude.{
  String, ◌≡◌, Bool, false, Option, none, some, List, [], ◌∷◌, All, concat, if◌then◌else◌, inl, inr,
  Bool-cases,
}
use personal_ai_brain.Prelude.Values.{Value, Fields, get}
use personal_ai_brain.Rollup.Steps.{policy_of, verification_of}

-- A value as it was, unless there is a new one.
abbrev pub over : Option Value → Option Value → Option Value
over none old = old
over (some v) old = some v

abbrev pub top_keys : List String
top_keys =
    "state_scope" ∷ "workstreams" ∷ "status" ∷ "phase" ∷ "current_gate" ∷ "exact_next_action" ∷ []

abbrev pub policy_keys : List String
policy_keys =
    "specialist_writes_root" ∷ "generated_from" ∷ "future_workstreams_do_not_block_rollup" ∷ []

-- Each key that a proposal can change has the proposed value, or its old one. A key with a dot
-- stands for a field of the mapping before the dot.
pub record IsApplied (changes old new : Fields) : Type 0 where
  pub at_top : All (λ (k : String). get k new ≡ over (get k changes) (get k old)) top_keys
  pub at_policy :
      All
        (λ (k : String).
          get k (policy_of new)
          ≡ over (get (concat "rollup_policy." k) changes) (get k (policy_of old)))
        policy_keys
  pub at_verification :
      get "last_verified" (verification_of new)
      ≡ over (get "verification.last_verified" changes) (get "last_verified" (verification_of old))

-- Where a value is changed if a test asks for it, and the test accepts the new value, the test
-- asks for nothing once the change is applied.
pub settled :
    (T : Option Value → Bool) (v : Value) (old new : Option Value)
    → new ≡ over (if T old then some v else none) old
    → T (some v) ≡ false
    → T new ≡ false
settled T v old new h k = elim (Bool-cases (T old)) [
  | inl e ↦ (let done : new ≡ some v = rw e at h in rw done k)
  | inr e ↦ (let done : new ≡ old = rw e at h in rw done e)
]
