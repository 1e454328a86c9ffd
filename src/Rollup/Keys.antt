-- ===== src/Rollup/Keys.antt =====
-- Which step of src/personal_ai_brain/rollup_proposal.py sets which key of the changes.
use personal_ai_brain.Prelude.{
  ℕ, String, ◌≡◌, refl, ◌∙◌, Bool, false, ◌||◌, Option, none, some, List, [], ◌∷◌, str_eq, arith,
}
use personal_ai_brain.Prelude.Values.{text, Values, Fields, end, get}
use personal_ai_brain.Rollup.{WorkstreamState, RollupProposal, Engine}
use personal_ai_brain.Rollup.Steps.{
  narrative_fields, propose_structure, newest_after, is_older, root_date, propose_newest,
  propose_freshness, propose_fields, propose_narrative,
}
use personal_ai_brain.Rollup.Lookups.{get-set_if, get-propose_fields}

module _ (engine : Engine) where
  -- The keys that the steps after the structure set.
  abbrev pub is_later_key : String → Bool
  is_later_key q =
      str_eq "verification.last_verified" q
      || (str_eq "exact_next_action" q
          || (str_eq "current_gate" q || (str_eq "phase" q || str_eq "status" q)))

  pub get-propose_newest :
      (q : String) (o : Option (ℕ × WorkstreamState)) (root c : Fields)
      → str_eq "verification.last_verified" q ≡ false
      → get q (propose_newest engine o root c) ≡ get q c
  get-propose_newest q none root c h = refl
  get-propose_newest q (some (day, child)) root c h =
      get-set_if q (is_older engine (root_date engine root) day) "verification.last_verified"
        (text child.last_verified) c
      ∙ rw h refl

  -- The changes of a proposal for the children that block.
  abbrev pub changes_of :
      Fields → Values → List WorkstreamState → List WorkstreamState → RollupProposal → Fields
  changes_of root workstreams active children proposal =
      (propose_narrative engine root active (record proposal {
        changes =
            propose_freshness engine root active
              (propose_structure engine root workstreams active children end);
      })).changes

  get-narrative :
      (q : String) (root raw c : Fields)
      → is_later_key q ≡ false
      → get q (propose_fields engine narrative_fields root raw c) ≡ get q c
  get-narrative q root raw c h =
      let action : str_eq "exact_next_action" q ≡ false = ground arith in
      let gate : str_eq "current_gate" q ≡ false = ground arith in
      let phase : str_eq "phase" q ≡ false = ground arith in
      let status : str_eq "status" q ≡ false = ground arith in
      get-propose_fields engine q root raw c ∙ rw (action, gate, phase, status) refl

  pub get-structure :
      (q : String) (root : Fields) (workstreams : Values) (active children : List WorkstreamState)
      (proposal : RollupProposal)
      → is_later_key q ≡ false
      → get q (changes_of root workstreams active children proposal)
        ≡ get q (propose_structure engine root workstreams active children end)
  unfolding propose_narrative propose_freshness
  get-structure q root workstreams [] children proposal h = refl
  get-structure q root workstreams (a ∷ []) children proposal h =
      get-narrative q root a.raw
        (propose_freshness engine root (a ∷ [])
          (propose_structure engine root workstreams (a ∷ []) children end))
        h
      ∙ get-propose_newest q (newest_after engine none (a ∷ [])) root
          (propose_structure engine root workstreams (a ∷ []) children end) (ground arith)
  get-structure q root workstreams (a ∷ b ∷ cs) children proposal h =
      get-propose_newest q (newest_after engine none (a ∷ b ∷ cs)) root
        (propose_structure engine root workstreams (a ∷ b ∷ cs) children end) (ground arith)

  pub get-verification :
      (root : Fields) (workstreams : Values) (active children : List WorkstreamState)
      (proposal : RollupProposal)
      → get "verification.last_verified" (changes_of root workstreams active children proposal)
        ≡ get "verification.last_verified" (
            propose_newest engine
              (newest_after engine none active)
              root
              (propose_structure engine root workstreams active children end))
  unfolding propose_narrative propose_freshness
  get-verification root workstreams [] children proposal = refl
  get-verification root workstreams (a ∷ []) children proposal =
      get-propose_fields engine "verification.last_verified" root a.raw (
        propose_freshness engine root (a ∷ [])
          (propose_structure engine root workstreams (a ∷ []) children end))
  get-verification root workstreams (a ∷ b ∷ cs) children proposal = refl
