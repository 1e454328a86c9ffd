-- ===== src/Rollup/Lookups.antt =====
-- What the changes that src/personal_ai_brain/rollup_proposal.py proposes hold under each key.
use personal_ai_brain.Prelude.{
  String, ◌≡◌, refl, Bool, true, false, not, ◌&&◌, Option, some, List, length, ◌==◌, str_eq, eq_iff,
  if◌then◌else◌, arith,
}
use personal_ai_brain.Prelude.Values.{
  Value, boolean, text, sequence, Values, Fields, end, field, get, or_null, has_key,
}
use personal_ai_brain.Rollup.{WorkstreamState, Engine, set_change, set_if, texts_value, differs}
use personal_ai_brain.Rollup.Steps.{
  is_false, is_true, policy_of, paths_of, desired_workstreams, propose_structure, propose_fields,
  narrative_fields,
}

get-set_change :
    (q k : String) (v : Value) (c : Fields)
    → get q (set_change k v c) ≡ (if str_eq k q then some v else get q c)
get-set_change q k v end = ground arith
get-set_change q k v (field l w c) =
    ground (arith, get-set_change q k v c, eq_iff l k, eq_iff l q, eq_iff k q)

-- What a key has if a test held when it was set.
abbrev pub put : Bool → Value → Option Value → Option Value
put b v o = if b then some v else o

pub get-set_if :
    (q : String) (b : Bool) (k : String) (v : Value) (c : Fields)
    → get q (set_if b k v c) ≡ put (str_eq k q && b) v (get q c)
unfolding set_if
get-set_if q true k v c = ground (arith, get-set_change q k v c)
get-set_if q false k v c = ground arith

module _ (engine : Engine) where
  pub get-propose_structure :
      (q : String) (root : Fields) (workstreams : Values) (active children : List WorkstreamState)
      (c : Fields)
      → get q (propose_structure engine root workstreams active children c)
        ≡ put
            (str_eq "rollup_policy.future_workstreams_do_not_block_rollup" q
              && (not (length active == length children)
                  && not (is_true (get "future_workstreams_do_not_block_rollup" (policy_of root)))))
            (boolean true)
            (put
              (str_eq "rollup_policy.generated_from" q
                && (differs engine
                    (get "generated_from" (policy_of root))
                    (sequence (texts_value (paths_of active)))))
              (sequence (texts_value (paths_of active)))
              (put
                (str_eq "rollup_policy.specialist_writes_root" q
                  && (not (is_false (get "specialist_writes_root" (policy_of root)))))
                (boolean false)
                (put
                  (str_eq "workstreams" q
                    && (differs engine
                        (get "workstreams" root)
                        (sequence (desired_workstreams engine workstreams))))
                  (sequence (desired_workstreams engine workstreams))
                  (put
                    (str_eq "state_scope" q
                      && (differs engine (get "state_scope" root) (text "project_rollup")))
                    (text "project_rollup")
                    (get q c)))))
  unfolding propose_structure
  get-propose_structure q root workstreams active children c =
      rw (get-set_if, get-set_if, get-set_if, get-set_if, get-set_if) refl

  pub get-propose_fields :
      (q : String) (root raw c : Fields)
      → get q (propose_fields engine narrative_fields root raw c)
        ≡ put
            (str_eq "exact_next_action" q
              && (has_key "exact_next_action" raw
                  && differs engine
                      (get "exact_next_action" root)
                      (or_null (get "exact_next_action" raw))))
            (or_null (get "exact_next_action" raw))
            (put
              (str_eq "current_gate" q
                && (has_key "current_gate" raw
                    && differs engine (get "current_gate" root) (or_null (get "current_gate" raw))))
              (or_null (get "current_gate" raw))
              (put
                (str_eq "phase" q
                  && (has_key "phase" raw
                      && differs engine (get "phase" root) (or_null (get "phase" raw))))
                (or_null (get "phase" raw))
                (put
                  (str_eq "status" q
                    && (has_key "status" raw
                        && differs engine (get "status" root) (or_null (get "status" raw))))
                  (or_null (get "status" raw))
                  (get q c))))
  unfolding propose_fields
  get-propose_fields q root raw c = rw (get-set_if, get-set_if, get-set_if, get-set_if) refl
