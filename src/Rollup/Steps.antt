-- ===== src/Rollup/Steps.antt =====
-- What src/personal_ai_brain/rollup_proposal.py proposes for a root state and its workstreams.
use personal_ai_brain.Prelude.{
  ℕ, ltb, String, Bool, true, false, not, ◌&&◌, Option, none, some, List, [], ◌∷◌, ◌++◌, length,
  map, ◌==◌, if◌then◌else◌,
}
use personal_ai_brain.Prelude.Values.{
  Value, boolean, text, sequence, mapping, Values, nothing, item, Fields, end, field, get, get_or,
  or_null, is_falsy, has_key,
}
use personal_ai_brain.Rollup.{
  WorkstreamState, RollupProposal, Engine, set_if, texts_value, mapping_or_empty, str, differs,
  set_if_changed, parse_date,
}

abbrev pub is_false : Option Value → Bool
is_false (some (boolean b)) = not b
is_false v = false

abbrev pub is_true : Option Value → Bool
is_true (some (boolean b)) = b
is_true v = false

-- `verification or {}` of the root, and its policy.
abbrev pub policy_of : Fields → Fields
policy_of root = mapping_or_empty (get "rollup_policy" root)

abbrev pub verification_of : Fields → Fields
verification_of root = mapping_or_empty (get "verification" root)

abbrev pub paths_of : List WorkstreamState → List String
paths_of children = map (λ (c : WorkstreamState). c.path) children

-- The four fields of the narrative.
abbrev pub narrative_fields : List String
narrative_fields = "status" ∷ "phase" ∷ "current_gate" ∷ "exact_next_action" ∷ []

module _ (engine : Engine) where
  abbrev pub status_field : Option Value → Fields
  status_field o = if is_falsy o then end else field "status" (text (str engine (or_null o))) end

  -- The entry of a workstream in the root.
  abbrev pub workstream_entry : Fields → Value
  workstream_entry fs = mapping (
      field "id" (text (str engine (get_or "id" (text "unknown") fs))) (
        field "path" (text (str engine (or_null (get "state_path" fs)))) (
          field "owner" (text (str engine (get_or "owner" (text "unassigned") fs)))
            (status_field (get "state_status" fs)))))

  abbrev pub desired_workstreams : Values → Values
  desired_workstreams nothing = nothing
  desired_workstreams (item (mapping fs) vs) =
      let rest = desired_workstreams vs in
      if is_falsy (get "state_path" fs) then rest else item (workstream_entry fs) rest
  desired_workstreams (item v vs) = desired_workstreams vs

  -- `_propose_structure`
  unfoldable pub propose_structure :
      Fields → Values → List WorkstreamState → List WorkstreamState → Fields → Fields
  propose_structure root workstreams active children changes =
      let policy = policy_of root in
      let generated_from = sequence (texts_value (paths_of active)) in
      let scoped = set_if_changed engine root "state_scope" (text "project_rollup") changes in
      let declared =
        set_if_changed engine root "workstreams" (sequence (desired_workstreams workstreams))
          scoped in
      let owned =
        set_if (not (is_false (get "specialist_writes_root" policy)))
          "rollup_policy.specialist_writes_root" (boolean false) declared in
      let sourced =
        set_if (differs engine (get "generated_from" policy) generated_from)
          "rollup_policy.generated_from" generated_from owned in
      set_if
        (not (length active == length children)
          && not (is_true (get "future_workstreams_do_not_block_rollup" policy)))
        "rollup_policy.future_workstreams_do_not_block_rollup" (boolean true) sourced

  abbrev pub better :
      Option (ℕ × WorkstreamState) → Option ℕ → WorkstreamState → Option (ℕ × WorkstreamState)
  better best none child = best
  better none (some day) child = some (day, child)
  better (some (latest, newest)) (some day) child =
      if ltb latest day then some (day, child) else some (latest, newest)

  -- `max(dated_children, key=...)`: the first child with the latest date, if any has a date.
  abbrev pub newest_after :
      Option (ℕ × WorkstreamState) → List WorkstreamState → Option (ℕ × WorkstreamState)
  newest_after best [] = best
  newest_after best (c ∷ cs) = newest_after (better best (parse_date engine c.last_verified) c) cs

  abbrev pub is_older : Option ℕ → ℕ → Bool
  is_older none day = true
  is_older (some root_day) day = ltb root_day day

  abbrev pub root_date : Fields → Option ℕ
  root_date root =
      parse_date engine (str engine (get_or "last_verified" (text "") (verification_of root)))

  abbrev pub propose_newest : Option (ℕ × WorkstreamState) → Fields → Fields → Fields
  propose_newest none root changes = changes
  propose_newest (some (day, child)) root changes =
      set_if (is_older (root_date root) day) "verification.last_verified" (text child.last_verified)
        changes

  -- `_propose_freshness`
  unfoldable pub propose_freshness : Fields → List WorkstreamState → Fields → Fields
  propose_freshness root active changes = propose_newest (newest_after none active) root changes

  -- The loop over the fields of the narrative.
  unfoldable pub propose_fields : List String → Fields → Fields → Fields → Fields
  propose_fields [] root raw changes = changes
  propose_fields (k ∷ ks) root raw changes = propose_fields ks root raw (
      set_if (has_key k raw && differs engine (get k root) (or_null (get k raw))) k
        (or_null (get k raw)) changes)

  -- `_propose_unambiguous_narrative`
  unfoldable pub propose_narrative : Fields → List WorkstreamState → RollupProposal → RollupProposal
  propose_narrative root [] proposal = record proposal {
    notes =
        proposal.notes
        ++ "No blocking active workstream exists; only structural rollup fields can be proposed safely."
          ∷ [];
  }
  propose_narrative root (child ∷ []) proposal = record proposal {
    changes = propose_fields narrative_fields root child.raw proposal.changes;
    notes =
        proposal.notes
        ++ "Narrative proposal is unambiguous because exactly one blocking workstream is active."
          ∷ [];
  }
  propose_narrative root (child ∷ other ∷ rest) proposal = record proposal {
    manual_synthesis_required = true;
    notes =
        proposal.notes
        ++ "Multiple blocking workstreams are active; narrative rollup fields are intentionally not synthesized deterministically."
          ∷ [];
  }
