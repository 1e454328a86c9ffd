-- ===== src/Rollup/Settled.antt =====
-- The structure and the date that src/personal_ai_brain/rollup_proposal.py proposes are settled once
-- they are applied.
use personal_ai_brain.Prelude.{
  ℕ, ◌≡◌, refl, ap, ◌∙◌, Bool, true, false, not, ◌&&◌, Option, none, some, List, length, ◌==◌,
  arith,
}
use personal_ai_brain.Prelude.Values.{Value, boolean, text, sequence, Values, Fields, end, get}
use personal_ai_brain.Prelude.Equality.{same}
use personal_ai_brain.Rollup.{
  WorkstreamState, RollupProposal, Engine, set_if, texts_value, str, differs, parse_date,
}
use personal_ai_brain.Rollup.Steps.{
  is_false, is_true, policy_of, verification_of, paths_of, desired_workstreams, propose_structure,
  newest_after, is_older, root_date, propose_newest, propose_freshness,
}
use personal_ai_brain.Rollup.Lookups.{put, get-set_if, get-propose_structure}
use personal_ai_brain.Rollup.Applied.{over, IsApplied, settled}
use personal_ai_brain.Rollup.Equal.{
  same-texts_value, same-desired_workstreams, IsDated, newest_after-IsDated,
}
use personal_ai_brain.Rollup.Keys.{changes_of, get-structure, get-verification}

module _ (engine : Engine) where
  pub structure_again :
      (root root' : Fields) (workstreams : Values) (active children : List WorkstreamState)
      (proposal : RollupProposal)
      → IsApplied (changes_of engine root workstreams active children proposal) root root'
      → propose_structure engine root' workstreams active children end ≡ end
  unfolding propose_structure set_if same
  structure_again root root' workstreams active children proposal a =
      let generated = sequence (texts_value (paths_of active)) in
      let declared = sequence (desired_workstreams engine workstreams) in
      let some_off = not (length active == length children) in
      let scope_settled =
        settled (λ o. differs engine o (text "project_rollup")) (text "project_rollup")
          (get "state_scope" root) (get "state_scope" root')
          (a.at_top.0
            ∙ ap (λ c. over c (get "state_scope" root))
                (get-structure engine "state_scope" root workstreams active children proposal refl
                  ∙ get-propose_structure engine "state_scope" root workstreams active children
                      end))
          refl in
      let declared_settled =
        settled (λ o. differs engine o declared) declared (get "workstreams" root)
          (get "workstreams" root')
          (a.at_top.1.0
            ∙ ap (λ c. over c (get "workstreams" root))
                (get-structure engine "workstreams" root workstreams active children proposal refl
                  ∙ get-propose_structure engine "workstreams" root workstreams active children
                      end))
          (ap not (same-desired_workstreams engine workstreams)) in
      let owner_settled =
        settled (λ o. not (is_false o)) (boolean false)
          (get "specialist_writes_root" (policy_of root))
          (get "specialist_writes_root" (policy_of root'))
          (a.at_policy.0
            ∙ ap (λ c. over c (get "specialist_writes_root" (policy_of root)))
                (get-structure engine "rollup_policy.specialist_writes_root" root workstreams active
                    children proposal refl
                  ∙ get-propose_structure engine "rollup_policy.specialist_writes_root" root
                      workstreams active children end))
          refl in
      let source_settled =
        settled (λ o. differs engine o generated) generated (get "generated_from" (policy_of root))
          (get "generated_from" (policy_of root'))
          (a.at_policy.1.0
            ∙ ap (λ c. over c (get "generated_from" (policy_of root)))
                (get-structure engine "rollup_policy.generated_from" root workstreams active
                    children proposal refl
                  ∙ get-propose_structure engine "rollup_policy.generated_from" root workstreams
                      active children end))
          (ap not (same-texts_value engine (paths_of active))) in
      let future_settled =
        settled (λ o. some_off && not (is_true o)) (boolean true)
          (get "future_workstreams_do_not_block_rollup" (policy_of root))
          (get "future_workstreams_do_not_block_rollup" (policy_of root'))
          (a.at_policy.1.1.0
            ∙ ap (λ c. over c (get "future_workstreams_do_not_block_rollup" (policy_of root)))
                (get-structure engine "rollup_policy.future_workstreams_do_not_block_rollup" root
                    workstreams active children proposal refl
                  ∙ get-propose_structure engine
                      "rollup_policy.future_workstreams_do_not_block_rollup" root workstreams active
                      children end))
          (ground arith) in
      rw (scope_settled, declared_settled, owner_settled, source_settled, future_settled) refl

  -- Whether a date of verification is older than the newest child's.
  abbrev is_older_than : ℕ → Option Value → Bool
  is_older_than day o =
      is_older engine (parse_date engine (str engine (elim o [ none ↦ text "" | some v ↦ v ]))) day

  newest_again :
      (o : Option (ℕ × WorkstreamState)) (root root' : Fields) (c : Fields)
      → IsDated engine o
      → get "verification.last_verified" c ≡ none
      → get "last_verified" (verification_of root')
        ≡ over
            (get "verification.last_verified" (propose_newest engine o root c))
            (get "last_verified" (verification_of root))
      → propose_newest engine o root' end ≡ end
  unfolding set_if
  newest_again none root root' c d n h = refl
  newest_again (some (day, child)) root root' c d n h =
      let set : get "verification.last_verified" (propose_newest engine (some (day, child)) root c)
          ≡ put (is_older engine (root_date engine root) day) (text child.last_verified) none =
        get-set_if "verification.last_verified" (is_older engine (root_date engine root) day)
          "verification.last_verified" (text child.last_verified) c
        ∙ rw n refl in
      let date_settled =
        settled (is_older_than day) (text child.last_verified)
          (get "last_verified" (verification_of root)) (get "last_verified" (verification_of root'))
          (h ∙ ap (λ w. over w (get "last_verified" (verification_of root))) set)
          (rw d (ground arith)) in
      rw date_settled refl

  pub freshness_again :
      (root root' : Fields) (workstreams : Values) (active children : List WorkstreamState)
      (proposal : RollupProposal)
      → IsApplied (changes_of engine root workstreams active children proposal) root root'
      → propose_freshness engine root' active end ≡ end
  unfolding propose_freshness
  freshness_again root root' workstreams active children proposal a =
      newest_again (newest_after engine none active) root root'
        (propose_structure engine root workstreams active children end)
        (newest_after-IsDated engine none active tt)
        (get-propose_structure engine "verification.last_verified" root workstreams active children
          end)
        (a.at_verification
          ∙ ap (λ w. over w (get "last_verified" (verification_of root)))
              (get-verification engine root workstreams active children proposal))
