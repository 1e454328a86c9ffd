-- ===== src/Integrity/Consistent.antt =====
-- The checks of a rollup in src/personal_ai_brain/state_integrity.py decide whether it agrees with
-- its workstreams.
use personal_ai_brain.Prelude.{
  String, ◌≡◌, refl, subst, Bool, not, ◌&&◌, ◌||◌, List, all, map, member, str_eq, ok,
}
use personal_ai_brain.Prelude.Values.{text, get_or}
use personal_ai_brain.Core.{warning}
use personal_ai_brain.Quality.Judges.{Judges, decides, both}
use personal_ai_brain.Integrity.{
  IntegrityReport, LoadedState, IntegrityChecker, terminal_root_statuses, str, parse_date,
}
use personal_ai_brain.Integrity.Sets.{sorted_difference}
use personal_ai_brain.Integrity.Checks.{
  warn_paths, declared_paths, generated_from, check_scope, check_rollup_shape,
  check_generated_sources, check_freshness, check_sync, check_status,
}
use personal_ai_brain.Integrity.Projects.{check_rollup}
use personal_ai_brain.Integrity.Blocks.{
  all_blocking, all_in, not_after, active_of, all-active_of, all_in-map, difference-Judges,
  check_freshness-Judges, check_sync-Judges, check_status-Judges,
}

module _ (checker : IntegrityChecker) where
  -- The rollup declares exactly the workstreams of the map, is generated from all that block and
  -- from none outside the map, is no older than any that blocks, claims to be synchronised only if
  -- those are, and is over only if none of them is active.
  abbrev pub is_consistent :
      LoadedState → List LoadedState → List String → List String → List String → Bool
  is_consistent root children map_paths declared generated =
      (((((str_eq (str checker (get_or "state_scope" (text "") root.raw)) "project_rollup"
                && all_in map_paths declared)
              && all_in declared map_paths)
            && (all_blocking (λ c. member c.path generated) children && all_in generated map_paths))
          && all_blocking
              (λ c.
                not_after (parse_date checker c.last_verified)
                  (parse_date checker root.last_verified))
              children)
        && (not (str_eq root.sync_status "synced")
            || all_blocking (λ c. str_eq c.sync_status "synced") children))
      && (not (member root.status terminal_root_statuses)
          || all_blocking (λ c. not (str_eq c.status "active")) children)

  scope-Judges :
      (state_scope name : String) (r : IntegrityReport)
      → Judges (str_eq state_scope "project_rollup") r (check_scope checker state_scope name r)
  scope-Judges state_scope name r = decides (str_eq state_scope "project_rollup") warning _ name _ r

  -- The tests of the checks, on the children that block.
  abbrev active_test :
      LoadedState → List LoadedState → List String → List String → List String → Bool
  active_test root active map_paths declared generated =
      (((((str_eq (str checker (get_or "state_scope" (text "") root.raw)) "project_rollup"
                && all_in map_paths declared)
              && all_in declared map_paths)
            && (all_in (map (λ (c : LoadedState). c.path) active) generated
                && all_in generated map_paths))
          && all
              (λ (c : LoadedState).
                not_after (parse_date checker c.last_verified)
                  (parse_date checker root.last_verified))
              active)
        && (not (str_eq root.sync_status "synced")
            || all (λ (c : LoadedState). str_eq c.sync_status "synced") active))
      && (not (member root.status terminal_root_statuses)
          || all (λ (c : LoadedState). not (str_eq c.status "active")) active)

  active_test-is_consistent :
      (root : LoadedState) (children : List LoadedState)
      (map_paths declared generated : List String)
      → active_test root (active_of checker children) map_paths declared generated
        ≡ is_consistent root children map_paths declared generated
  active_test-is_consistent root children map_paths declared generated =
      rw
        (
          all_in-map checker generated (active_of checker children),
          all-active_of checker (λ c. member c.path generated) children,
          all-active_of checker
              (λ c.
                not_after (parse_date checker c.last_verified)
                  (parse_date checker root.last_verified))
              children,
          all-active_of checker (λ c. str_eq c.sync_status "synced") children,
          all-active_of checker (λ c. not (str_eq c.status "active")) children,
        )
        refl

  abbrev shaped :
      String → LoadedState → List String → List String → IntegrityReport → IntegrityReport
  shaped name root map_paths declared r =
      warn_paths (sorted_difference declared map_paths) "rollup_declares_unknown_workstream" name
        "Root rollup declares workstream path(s) absent from project map: "
        (warn_paths (sorted_difference map_paths declared) "rollup_missing_workstream_declaration"
          name "Root rollup does not declare mapped workstream(s): "
          (check_scope checker (str checker (get_or "state_scope" (text "") root.raw)) name r))

  abbrev sourced :
      String → List LoadedState → List String → List String → IntegrityReport → IntegrityReport
  sourced name active map_paths generated r =
      warn_paths (sorted_difference generated map_paths) "rollup_generated_from_unknown_source" name
        "rollup_policy.generated_from references unmapped path(s): "
        (warn_paths (sorted_difference (map (λ (c : LoadedState). c.path) active) generated)
          "rollup_missing_active_source" name
          "Active workstream state is not listed in rollup_policy.generated_from: " r)

  abbrev rolled :
      String
      → LoadedState
      → List LoadedState
      → List String
      → List String
      → List String
      → IntegrityReport
      → IntegrityReport
  rolled name root active map_paths declared generated r = check_status checker name root active (
      check_sync checker name root active (
        check_freshness checker name root active
          (sourced name active map_paths generated (shaped name root map_paths declared r))))

  rolled-Judges :
      (name : String) (root : LoadedState) (active : List LoadedState)
      (map_paths declared generated : List String) (r : IntegrityReport)
      → Judges
          (active_test root active map_paths declared generated)
          r
          (rolled name root active map_paths declared generated r)
  rolled-Judges name root active map_paths declared generated r =
      let scope = str checker (get_or "state_scope" (text "") root.raw) in
      let shape = shaped name root map_paths declared r in
      let source = sourced name active map_paths generated shape in
      both _ _ r _ _
        (both _ _ r _ _
          (both _ _ r source _
            (both _ _ r shape source
              (both _ _ r _ shape
                (both _ _ r (check_scope checker scope name r) _ (scope-Judges scope name r) (
                  difference-Judges checker map_paths declared _ name _
                    (check_scope checker scope name r)))
                (difference-Judges checker declared map_paths _ name _ _))
              (both _ _ shape _ source
                (difference-Judges checker (map (λ (c : LoadedState). c.path) active) generated _
                  name _ shape)
                (difference-Judges checker generated map_paths _ name _ _)))
            (check_freshness-Judges checker name root active source))
          (check_sync-Judges checker name root active _))
        (check_status-Judges checker name root active _)

-- When the rollup's two lists can be iterated, the checks of a rollup return; they leave the
-- report unchanged if the rollup agrees with its workstreams, and add a finding if it does not.
pub check_rollup-is_consistent :
    (checker : IntegrityChecker) (name : String) (root : LoadedState) (children : List LoadedState)
    (map_paths declared generated : List String) (r : IntegrityReport)
    → declared_paths checker root.raw ≡ ok declared
    → generated_from checker root.raw ≡ ok generated
    → (t : IntegrityReport) × (check_rollup checker name root children map_paths r ≡ ok t)
      × Judges (is_consistent checker root children map_paths declared generated) r t
unfolding check_rollup check_rollup_shape check_generated_sources
check_rollup-is_consistent checker name root children map_paths declared generated r h k =
    let active = active_of checker children in
    (
      rolled checker name root active map_paths declared generated r,
      rw (h, k) refl,
      subst (λ b. Judges b r (rolled checker name root active map_paths declared generated r))
          (active_test-is_consistent checker root children map_paths declared generated)
          (rolled-Judges checker name root active map_paths declared generated r),
    )
