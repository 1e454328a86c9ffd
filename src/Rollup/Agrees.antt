-- ===== src/Rollup/Agrees.antt =====
-- What src/personal_ai_brain/rollup_proposal.py proposes and what
-- src/personal_ai_brain/state_integrity.py asks of a rollup.
use personal_ai_brain.Prelude.{
  String, ◌≡◌, refl, sym, ap, ◌∙◌, inl, inr, Bool, true, false, not, Bool-cases, Option, none, some,
  List, [], ◌∷◌, all, keep, member, str_eq, str_eq_refl, eq_iff, ok, arith,
}
use personal_ai_brain.Prelude.Values.{
  Value, text, sequence, mapping, Values, nothing, item, Fields, end, get, get_or, or_null,
  is_falsy, str_of,
}
use personal_ai_brain.Prelude.Equality.{same}
use personal_ai_brain.Integrity.{IntegrityReport, LoadedState, IntegrityError, IntegrityChecker}
use personal_ai_brain.Integrity
use personal_ai_brain.Integrity.Sets.{sorted_difference}
use personal_ai_brain.Integrity.Checks.{paths_in, warn_paths, check_rollup_shape}
use personal_ai_brain.Integrity.Projects.{paths_of}
use personal_ai_brain.Integrity.Blocks.{all_in, difference-Judges}
use personal_ai_brain.Rollup.{WorkstreamState, Engine, is_non_blocking, differs, str}
use personal_ai_brain.Rollup.Steps.{desired_workstreams, propose_structure}
use personal_ai_brain.Rollup.Steps
use personal_ai_brain.Rollup.Projects.{Target, new_proposal, propose_read}
use personal_ai_brain.Rollup.Lookups.{put, get-propose_structure}
use personal_ai_brain.Rollup.Applied.{over, IsApplied, settled}
use personal_ai_brain.Rollup.Keys.{get-structure}

abbrev pub none_empty : List String → Bool
none_empty paths = all (λ s. not (str_eq s "")) paths

member-head : (s : String) (ts : List String) → member s (s ∷ ts) ≡ true
unfolding member
member-head s ts = ground (arith, str_eq_refl s)

all_in_cons : (t : String) (ss ts : List String) → all_in ss ts ≡ true → all_in ss (t ∷ ts) ≡ true
unfolding member
all_in_cons t [] ts h = refl
all_in_cons t (s ∷ ss) ts h = ground (arith, all_in_cons t ss ts)

all_in_refl : (ss : List String) → all_in ss ss ≡ true
all_in_refl [] = refl
all_in_refl (s ∷ ss) = rw (member-head s ss) (all_in_cons s ss ss (all_in_refl ss))

module _ (engine : Engine) (checker : IntegrityChecker) (shows : checker.show ≡ engine.show) where
  -- The checker finds the map's paths in the list that the engine proposes.
  paths_in-desired_workstreams :
      (vs : Values)
      → none_empty (paths_of checker vs) ≡ true
      → paths_in checker (desired_workstreams engine vs) ≡ paths_of checker vs
  paths_in-desired_workstreams nothing h = refl
  paths_in-desired_workstreams (item (mapping fs) vs) h =
      elim (Bool-cases (is_falsy (get "state_path" fs))) [
        | inl e ↦ rw e (paths_in-desired_workstreams vs (rw e at h))
        | inr e ↦
            (let v = or_null (get "state_path" fs) in
              let same_path : Integrity.str checker v ≡ str engine v =
                ap (λ show. str_of show v) shows in
              let given = rw e at h in
              let rest : none_empty (paths_of checker vs) ≡ true = ground arith in
              let here : str_eq (str engine v) "" ≡ false =
                sym (ap (λ t. str_eq t "") same_path) ∙ ground arith in
              rw (e, here, same_path)
                (ap (λ ts. str engine v ∷ ts) (paths_in-desired_workstreams vs rest)))
      ]
  paths_in-desired_workstreams (item v vs) h = paths_in-desired_workstreams vs h

  -- A value that is the text, as Python compares.
  scope_text :
      (o : Option Value) (t : String) → differs engine o (text t) ≡ false → o ≡ some (text t)
  unfolding same
  scope_text none t h = absurd (ground arith)
  scope_text (some (text u)) t h =
      (let equal : str_eq u t ≡ true = ground arith in
        ap (λ s. some (text s)) ((eq_iff u t).0 equal))
  scope_text (some v) t h = absurd (ground arith)

abbrev or_text : Option Value → Value
or_text o = elim o [ none ↦ text "" | some v ↦ v ]

same_paths :
    (checker : IntegrityChecker) (paths : List String) (code name message : String)
    (r : IntegrityReport)
    → warn_paths (sorted_difference paths paths) code name message r ≡ r
same_paths checker paths code name message r =
    (difference-Judges checker paths paths code name message r).quiet (all_in_refl paths)

same_scope :
    (engine : Engine)
    → differs engine (some (text "project_rollup")) (text "project_rollup") ≡ false
unfolding same
same_scope engine = refl

-- If the root did not list the workstreams as the map does, then once the engine's proposal is
-- applied, the integrity checker has nothing to report on the shape of the rollup: its scope is
-- that of a rollup, and it declares exactly the workstreams of the map. The two read values as the
-- same texts, and no path is empty.
pub propose_read-shape :
    (engine : Engine) (checker : IntegrityChecker) (t : Target) (root : Fields)
    (state : LoadedState) (workstreams : Values) (children : List WorkstreamState) (name : String)
    (r : IntegrityReport)
    → checker.show ≡ engine.show
    → none_empty (paths_of checker workstreams) ≡ true
    → differs engine (get "workstreams" root) (sequence (desired_workstreams engine workstreams))
      ≡ true
    → IsApplied (propose_read engine t root workstreams children).changes root state.raw
    → check_rollup_shape checker name state (paths_of checker workstreams) r ≡ ok r
unfolding propose_read check_rollup_shape
propose_read-shape engine checker t root state workstreams children name r shows given off a =
    let active = keep (λ (c : WorkstreamState). not (is_non_blocking c)) children in
    let declared = sequence (desired_workstreams engine workstreams) in
    let proposal = new_proposal t (Steps.paths_of active) in
    let scope =
      settled (λ o. differs engine o (text "project_rollup")) (text "project_rollup")
        (get "state_scope" root) (get "state_scope" state.raw)
        (a.at_top.0
          ∙ ap (λ c. over c (get "state_scope" root))
              (get-structure engine "state_scope" root workstreams active children proposal refl
                ∙ get-propose_structure engine "state_scope" root workstreams active children end))
        (same_scope engine) in
    let listed : get "workstreams" state.raw ≡ some declared =
      a.at_top.1.0
      ∙ ap (λ c. over c (get "workstreams" root))
          (get-structure engine "workstreams" root workstreams active children proposal refl
            ∙ get-propose_structure engine "workstreams" root workstreams active children end
            ∙ ap (λ b. put b declared none) off) in
    let scoped : get_or "state_scope" (text "") state.raw ≡ text "project_rollup" =
      ap (λ o. or_text o)
        (scope_text engine checker shows (get "state_scope" state.raw) "project_rollup" scope) in
    let paths = paths_in-desired_workstreams engine checker shows workstreams given in
    rw
      (
        listed,
        scoped,
        paths,
        same_paths checker (paths_of checker workstreams),
        same_paths checker (paths_of checker workstreams),
      )
      refl
