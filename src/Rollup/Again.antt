-- ===== src/Rollup/Again.antt =====
-- A proposal of src/personal_ai_brain/rollup_proposal.py that was applied is not made again.
use personal_ai_brain.Prelude.{
  String, ◌≡◌, refl, ap, ◌∙◌, true, false, not, ◌&&◌, none, List, [], ◌∷◌, All, keep, str_eq, arith,
}
use personal_ai_brain.Prelude.Values.{Values, Fields, end, get, or_null, has_key}
use personal_ai_brain.Prelude.Equality.{same}
use personal_ai_brain.Rollup.{
  WorkstreamState, RollupProposal, Engine, is_non_blocking, set_if, differs,
}
use personal_ai_brain.Rollup.Steps.{
  paths_of, narrative_fields, propose_structure, newest_after, propose_freshness, propose_fields,
  propose_narrative,
}
use personal_ai_brain.Rollup.Projects.{Target, new_proposal, propose_read}
use personal_ai_brain.Rollup.Lookups.{put, get-propose_structure, get-propose_fields}
use personal_ai_brain.Rollup.Applied.{over, IsApplied, settled}
use personal_ai_brain.Rollup.Keys.{get-propose_newest, changes_of}
use personal_ai_brain.Rollup.Settled.{structure_again, freshness_again}

module _ (engine : Engine) where
  -- The state of a child equals itself under the fields of the narrative: there is no
  -- not-a-number in it.
  abbrev pub EqualsItself : WorkstreamState → Type 0
  EqualsItself child =
      All
        (λ (k : String).
          same engine.show (or_null (get k child.raw)) (or_null (get k child.raw)) ≡ true)
        narrative_fields

  field_settled :
      (q : String) (root root' raw c f : Fields)
      → get q c
        ≡ put
            (has_key q raw && differs engine (get q root) (or_null (get q raw)))
            (or_null (get q raw))
            (get q f)
      → get q f ≡ none
      → get q root' ≡ over (get q c) (get q root)
      → same engine.show (or_null (get q raw)) (or_null (get q raw)) ≡ true
      → (has_key q raw && differs engine (get q root') (or_null (get q raw))) ≡ false
  field_settled q root root' raw c f set n h e =
      settled (λ o. has_key q raw && differs engine o (or_null (get q raw))) (or_null (get q raw))
        (get q root) (get q root') (h ∙ ap (λ w. over w (get q root)) (set ∙ rw n refl))
        (ground arith)

  -- The changes before the narrative's, for one child that blocks.
  abbrev fresh_for : Fields → Values → WorkstreamState → List WorkstreamState → Fields
  fresh_for root workstreams child children =
      propose_freshness engine root (child ∷ [])
        (propose_structure engine root workstreams (child ∷ []) children end)

  get-fresh_for :
      (q : String) (root : Fields) (workstreams : Values) (child : WorkstreamState)
      (children : List WorkstreamState)
      → str_eq "verification.last_verified" q ≡ false
      → get q (propose_structure engine root workstreams (child ∷ []) children end) ≡ none
      → get q (fresh_for root workstreams child children) ≡ none
  unfolding propose_freshness
  get-fresh_for q root workstreams child children h n =
      get-propose_newest engine q (newest_after engine none (child ∷ [])) root
        (propose_structure engine root workstreams (child ∷ []) children end) h
      ∙ n

  fields_again :
      (root root' : Fields) (workstreams : Values) (child : WorkstreamState)
      (children : List WorkstreamState)
      → IsApplied
          (propose_fields engine narrative_fields root child.raw
            (fresh_for root workstreams child children))
          root
          root'
      → EqualsItself child
      → propose_fields engine narrative_fields root' child.raw end ≡ end
  unfolding propose_fields set_if
  fields_again root root' workstreams child children a e =
      let fresh = fresh_for root workstreams child children in
      let changed = propose_fields engine narrative_fields root child.raw fresh in
      let status_settled =
        field_settled "status" root root' child.raw changed fresh
          (get-propose_fields engine "status" root child.raw fresh)
          (get-fresh_for "status" root workstreams child children refl
            (get-propose_structure engine "status" root workstreams (child ∷ []) children end))
          a.at_top.1.1.0 e.0 in
      let phase_settled =
        field_settled "phase" root root' child.raw changed fresh
          (get-propose_fields engine "phase" root child.raw fresh)
          (get-fresh_for "phase" root workstreams child children refl
            (get-propose_structure engine "phase" root workstreams (child ∷ []) children end))
          a.at_top.1.1.1.0 e.1.0 in
      let gate_settled =
        field_settled "current_gate" root root' child.raw changed fresh
          (get-propose_fields engine "current_gate" root child.raw fresh)
          (get-fresh_for "current_gate" root workstreams child children refl (
            get-propose_structure engine "current_gate" root workstreams (child ∷ []) children end))
          a.at_top.1.1.1.1.0 e.1.1.0 in
      let action_settled =
        field_settled "exact_next_action" root root' child.raw changed fresh
          (get-propose_fields engine "exact_next_action" root child.raw fresh)
          (get-fresh_for "exact_next_action" root workstreams child children refl (
            get-propose_structure engine "exact_next_action" root workstreams (child ∷ []) children
              end))
          a.at_top.1.1.1.1.1.0 e.1.1.1.0 in
      rw (status_settled, phase_settled, gate_settled, action_settled) refl

  narrative_again :
      (root root' : Fields) (workstreams : Values) (active children : List WorkstreamState)
      (proposal again : RollupProposal)
      → IsApplied (changes_of engine root workstreams active children proposal) root root'
      → All EqualsItself active
      → again.changes ≡ end
      → (propose_narrative engine root' active again).changes ≡ end
  unfolding propose_narrative
  narrative_again root root' workstreams [] children proposal again a e h = h
  narrative_again root root' workstreams (child ∷ []) children proposal again a e h =
      ap (λ c. propose_fields engine narrative_fields root' child.raw c) h
      ∙ fields_again root root' workstreams child children a e.0
  narrative_again root root' workstreams (a ∷ b ∷ cs) children proposal again k e h = h

-- Once the changes of a proposal are applied to the root state, the proposal for the same
-- workstreams has no changes: applying proposals comes to an end at once. The states of the
-- workstreams that block are taken to hold no not-a-number, which differs from itself.
pub propose_read-again :
    (engine : Engine) (t : Target) (root root' : Fields) (workstreams : Values)
    (children : List WorkstreamState)
    → All (EqualsItself engine) (keep (λ (c : WorkstreamState). not (is_non_blocking c)) children)
    → IsApplied (propose_read engine t root workstreams children).changes root root'
    → (propose_read engine t root' workstreams children).changes ≡ end
unfolding propose_read
propose_read-again engine t root root' workstreams children e a =
    let active = keep (λ (c : WorkstreamState). not (is_non_blocking c)) children in
    let structure =
      structure_again engine root root' workstreams active children
        (new_proposal t (paths_of active)) a in
    narrative_again engine root root' workstreams active children (new_proposal t (paths_of active))
      _ a e
      (ap (λ c. propose_freshness engine root' active c) structure
        ∙ freshness_again engine root root' workstreams active children
            (new_proposal t (paths_of active)) a)
