-- ===== src/Integrity/Checks.antt =====
-- The five checks of a rollup in src/personal_ai_brain/state_integrity.py.
use personal_ai_brain.Prelude.{
  ℕ, ltb, String, Bool, false, not, Option, none, some, List, [], ◌∷◌, map, keep, member, str_eq,
  concat, Result, ok, if◌then◌else◌,
}
use personal_ai_brain.Prelude.Values.{
  text, mapping, Values, nothing, item, Fields, get, get_or, or_null, is_falsy, ◌>>=◌,
}
use personal_ai_brain.Core.{error, warning}
use personal_ai_brain.Quality.{add_finding}
use personal_ai_brain.Integrity.{
  IntegrityReport, LoadedState, IntegrityError, IntegrityChecker, terminal_root_statuses, items_of,
  mapping_or_empty, str, parse_date,
}
use personal_ai_brain.Integrity.Sets.{sorted_difference, join_paths}

-- A warning about the paths of a difference, if there are any.
unfoldable pub warn_paths :
    List String → String → String → String → IntegrityReport → IntegrityReport
warn_paths [] code subject message report = report
warn_paths (s ∷ ss) code subject message report =
    add_finding warning code subject (concat message (join_paths (s ∷ ss))) report

module _ (checker : IntegrityChecker) where
  -- The paths of the items that are mappings with a path.
  abbrev pub paths_in : Values → List String
  paths_in nothing = []
  paths_in (item (mapping fs) vs) =
      let rest = paths_in vs in
      if is_falsy (get "path" fs) then rest else str checker (or_null (get "path" fs)) ∷ rest
  paths_in (item v vs) = paths_in vs

  -- `declared_paths`
  abbrev pub declared_paths : Fields → Result IntegrityError (List String)
  declared_paths raw = do vs ← items_of (get "workstreams" raw); ok (paths_in vs)

  abbrev pub texts_in : Values → List String
  texts_in nothing = []
  texts_in (item v vs) =
      let rest = texts_in vs in if is_falsy (some v) then rest else str checker v ∷ rest

  -- `generated_from`
  abbrev pub generated_from : Fields → Result IntegrityError (List String)
  generated_from raw = do
    vs ← items_of (get "generated_from" (mapping_or_empty (get "rollup_policy" raw)))
    ok (texts_in vs)

  abbrev pub check_scope : String → String → IntegrityReport → IntegrityReport
  check_scope state_scope project_name report =
      if str_eq state_scope "project_rollup"
      then report
      else add_finding warning "multi_workstream_root_not_rollup" project_name
          (concat "Project map declares workstreams but root state_scope is "
            (concat (checker.repr state_scope) ", not 'project_rollup'."))
          report

  -- `_check_rollup_shape`
  unfoldable pub check_rollup_shape :
      String → LoadedState → List String → IntegrityReport → Result IntegrityError IntegrityReport
  check_rollup_shape project_name root map_paths report =
      let scoped =
        check_scope (str checker (get_or "state_scope" (text "") root.raw)) project_name report in
      do
        declared ← declared_paths root.raw
        ok (
            warn_paths (sorted_difference declared map_paths) "rollup_declares_unknown_workstream"
              project_name "Root rollup declares workstream path(s) absent from project map: "
              (warn_paths (sorted_difference map_paths declared)
                "rollup_missing_workstream_declaration" project_name
                "Root rollup does not declare mapped workstream(s): " scoped))

  -- `_check_generated_sources`
  unfoldable pub check_generated_sources :
      String
      → LoadedState
      → List LoadedState
      → List String
      → IntegrityReport
      → Result IntegrityError IntegrityReport
  check_generated_sources project_name root active_children map_paths report = do
    generated ← generated_from root.raw
    ok (
        warn_paths (sorted_difference generated map_paths) "rollup_generated_from_unknown_source"
          project_name "rollup_policy.generated_from references unmapped path(s): "
          (warn_paths
            (sorted_difference (map (λ (c : LoadedState). c.path) active_children) generated)
            "rollup_missing_active_source" project_name
            "Active workstream state is not listed in rollup_policy.generated_from: " report))

  -- A date later than another.
  abbrev pub is_later : ℕ → Option ℕ → Bool
  is_later day none = false
  is_later day (some other) = ltb day other

  -- What is kept without a child's date, or with a later one.
  abbrev pub newer_of : Option ℕ → ℕ → LoadedState → (ℕ → LoadedState) → LoadedState
  newer_of none day kept taken = kept
  newer_of (some other) day kept taken = if ltb day other then taken other else kept

  -- `max(newer, key=...)`: the first child with the latest date.
  abbrev pub newest_from : LoadedState → ℕ → List LoadedState → LoadedState
  newest_from best day [] = best
  newest_from best day (c ∷ cs) =
      newer_of (parse_date checker c.last_verified) day (newest_from best day cs)
        (λ other. newest_from c other cs)

  abbrev pub warn_newest :
      List LoadedState → String → LoadedState → ℕ → IntegrityReport → IntegrityReport
  warn_newest [] project_name root day report = report
  warn_newest (c ∷ cs) project_name root day report =
      let newest = newest_from c day (c ∷ cs) in
      add_finding warning "rollup_outdated" project_name
        (concat "Root rollup was verified " (
          concat root.last_verified (
            concat ", but workstream " (
              concat newest.path
                (concat " was verified later on " (concat newest.last_verified "."))))))
        report

  abbrev pub check_dates :
      Option ℕ → String → LoadedState → List LoadedState → IntegrityReport → IntegrityReport
  check_dates none project_name root active_children report = report
  check_dates (some day) project_name root active_children report =
      warn_newest
        (keep (λ (c : LoadedState). is_later day (parse_date checker c.last_verified))
          active_children)
        project_name root day report

  -- `_check_freshness`
  unfoldable pub check_freshness :
      String → LoadedState → List LoadedState → IntegrityReport → IntegrityReport
  check_freshness project_name root active_children report =
      check_dates (parse_date checker root.last_verified) project_name root active_children report

  -- The details of the children that are not synchronised.
  abbrev pub sync_details : List LoadedState → List String
  sync_details [] = []
  sync_details (c ∷ cs) = concat c.path (concat "=" c.sync_status) ∷ sync_details cs

  abbrev pub unsynced : List LoadedState → List LoadedState
  unsynced children = keep (λ (c : LoadedState). not (str_eq c.sync_status "synced")) children

  -- `_check_sync`
  unfoldable pub check_sync :
      String → LoadedState → List LoadedState → IntegrityReport → IntegrityReport
  check_sync project_name root active_children report =
      if str_eq root.sync_status "synced"
      then warn_paths (sync_details (unsynced active_children)) "rollup_sync_conflict" project_name
          (concat "Root rollup claims sync.status='synced' while active workstream "
            "state is not synced: ")
          report
      else report

  abbrev pub report_active : List String → String → LoadedState → IntegrityReport → IntegrityReport
  report_active [] project_name root report = report
  report_active (s ∷ ss) project_name root report =
      add_finding error "rollup_status_conflict" project_name
        (concat "Root rollup status is " (
          concat (checker.repr root.status)
            (concat ", but active workstream(s) still exist: " (join_paths (s ∷ ss)))))
        report

  abbrev pub active_paths : List LoadedState → List String
  active_paths children =
      map (λ (c : LoadedState). c.path)
        (keep (λ (c : LoadedState). str_eq c.status "active") children)

  -- `_check_status`
  unfoldable pub check_status :
      String → LoadedState → List LoadedState → IntegrityReport → IntegrityReport
  check_status project_name root active_children report =
      if member root.status terminal_root_statuses
      then report_active (active_paths active_children) project_name root report
      else report
