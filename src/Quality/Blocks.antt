-- ===== src/Quality/Blocks.antt =====
-- The blocks of `_check_schema` of src/personal_ai_brain/state_quality.py and their tests.
use personal_ai_brain.Prelude.{
  String, ◌≡◌, refl, subst, inl, inr, Bool, true, false, not, ◌||◌, Bool-cases, Option, none, some,
  is_some, List, [], ◌∷◌, all, member, str_eq, is_blank, Result, ok, if◌then◌else◌, arith,
}
use personal_ai_brain.Prelude.Values.{
  Value, null, boolean, integer, scalar, text, sequence, mapping, Fields, get, or_null, has_key,
  equals_text,
}
use personal_ai_brain.Core.{error, warning}
use personal_ai_brain.Quality.{
  QualityReport, add_finding, Checker, QualityError, allowed_sync_statuses, str,
}
use personal_ai_brain.Quality.Schema.{
  missing_keys, report_missing, check_string, check_strings, check_list, check_lists,
  is_non_empty_string, require_non_empty_string, check_project_block, check_milestone, check_signal,
  check_portfolio, check_sources, check_version, is_date, check_last_verified, check_verification,
  check_sync_status, check_storage, check_sync, is_fixed_scope, check_free_scope, check_scope,
}
use personal_ai_brain.Quality.Judges.{Judges, passes, fails, decides, both, each}
use personal_ai_brain.Quality.Contract.{
  is_string, is_list, is_boolean, is_mapping_with, is_text_with, owned_project, signalled,
  stored_at, has_scope, verified,
}

module _ (checker : Checker) where
  -- The tests of the blocks, each of which lets a missing field pass.
  abbrev pub string_or_none : Option Value → Bool
  string_or_none o = not (is_some o) || is_string o

  abbrev pub list_or_none : Option Value → Bool
  list_or_none o = not (is_some o) || is_list o

  abbrev pub mapping_or_none : (Fields → Bool) → Option Value → Bool
  mapping_or_none p o = not (is_some o) || is_mapping_with p o

  module _ (subject : String) where
    pub check_string-Judges :
        (o : Option Value) (k : String) (r : QualityReport)
        → Judges (string_or_none o) r (check_string checker o k subject r)
    check_string-Judges none k r = passes r
    check_string-Judges (some (text t)) k r = passes r
    check_string-Judges (some v) k r = fails error _ subject _ r

    check_list-Judges :
        (o : Option Value) (k : String) (r : QualityReport)
        → Judges (list_or_none o) r (check_list checker o k subject r)
    check_list-Judges none k r = passes r
    check_list-Judges (some (sequence vs)) k r = passes r
    check_list-Judges (some v) k r = fails error _ subject _ r

    pub check_strings-Judges :
        (raw : Fields) (ks : List String) (r : QualityReport)
        → Judges
            (all (λ k. string_or_none (get k raw)) ks)
            r
            (check_strings checker ks raw subject r)
    unfolding check_strings
    check_strings-Judges raw ks r =
        each (λ k. string_or_none (get k raw)) (λ k. check_string checker (get k raw) k subject)
          (λ l s. check_strings checker l raw subject s) (λ s. refl) (λ k l s. refl)
          (λ k s. check_string-Judges (get k raw) k s) ks r

    pub check_lists-Judges :
        (raw : Fields) (ks : List String) (r : QualityReport)
        → Judges (all (λ k. list_or_none (get k raw)) ks) r (check_lists checker ks raw subject r)
    unfolding check_lists
    check_lists-Judges raw ks r =
        each (λ k. list_or_none (get k raw)) (λ k. check_list checker (get k raw) k subject)
          (λ l s. check_lists checker l raw subject s) (λ s. refl) (λ k l s. refl)
          (λ k s. check_list-Judges (get k raw) k s) ks r

    pub check_version-Judges :
        (v : Value) (r : QualityReport)
        → Judges (str_eq (str checker v) "0.2") r (check_version checker v subject r)
    check_version-Judges v r = decides (str_eq (str checker v) "0.2") error _ subject _ r

    abbrev pub is_empty : List String → Bool
    is_empty [] = true
    is_empty (k ∷ ks) = false

    pub report_missing-Judges :
        (ks : List String) (r : QualityReport)
        → Judges (is_empty ks) r (report_missing ks subject r)
    report_missing-Judges [] r = passes r
    report_missing-Judges (k ∷ ks) r = fails error _ subject _ r

    pub is_empty-missing_keys :
        (ks : List String) (raw : Fields)
        → is_empty (missing_keys ks raw) ≡ all (λ k. has_key k raw) ks
    is_empty-missing_keys [] raw = refl
    is_empty-missing_keys (k ∷ ks) raw = ground (arith, is_empty-missing_keys ks raw)

    named : Fields → String → Bool
    named fs k = is_text_with (λ t. not (is_blank t)) (get k fs)

    require_non_empty_string-Judges :
        (fs : Fields) (k display : String) (r : QualityReport)
        → Judges
            (is_non_empty_string (get k fs))
            r
            (require_non_empty_string fs k display subject r)
    unfolding require_non_empty_string
    require_non_empty_string-Judges fs k display r =
        decides (is_non_empty_string (get k fs)) error _ subject _ r

    is_non_empty_string-is_text_with :
        (o : Option Value) → is_non_empty_string o ≡ is_text_with (λ t. not (is_blank t)) o
    is_non_empty_string-is_text_with none = refl
    is_non_empty_string-is_text_with (some (text t)) = refl
    is_non_empty_string-is_text_with (some v) = refl

    requires-Judges :
        (fs : Fields) (k display : String) (r : QualityReport)
        → Judges
            (is_text_with (λ t. not (is_blank t)) (get k fs))
            r
            (require_non_empty_string fs k display subject r)
    requires-Judges fs k display r =
        subst (λ b. Judges b r (require_non_empty_string fs k display subject r))
          (is_non_empty_string-is_text_with (get k fs))
          (require_non_empty_string-Judges fs k display r)

    workstream-Judges :
        (fs : Fields) (scope : String) (r : QualityReport)
        → Judges
            (not (str_eq scope "workstream")
              || is_text_with (λ t. not (is_blank t)) (get "workstream" fs))
            r
            (if str_eq scope "workstream"
              then require_non_empty_string fs "workstream" "project.workstream" subject r
              else r)
    workstream-Judges fs scope r = elim (Bool-cases (str_eq scope "workstream")) [
      | inl e ↦ rw e (requires-Judges fs "workstream" "project.workstream" r)
      | inr e ↦ rw e (passes r)
    ]

    pub check_project_block-Judges :
        (o : Option Value) (scope : String) (r : QualityReport)
        → Judges
            (mapping_or_none (owned_project scope) o)
            r
            (check_project_block checker o scope subject r)
    unfolding check_project_block
    check_project_block-Judges none scope r = passes r
    check_project_block-Judges (some (mapping fs)) scope r =
        let named = require_non_empty_string fs "name" "project.name" subject r in
        let owned = require_non_empty_string fs "owner" "project.owner" subject named in
        both _ _ r owned _
          (both _ _ r named owned (requires-Judges fs "name" "project.name" r)
            (requires-Judges fs "owner" "project.owner" named))
          (workstream-Judges fs scope owned)
    check_project_block-Judges (some v) scope r = fails error _ subject _ r

    check_milestone-Judges :
        (o : Option Value) (r : QualityReport)
        → Judges (is_boolean o) r (check_milestone checker o subject r)
    check_milestone-Judges none r = fails error _ subject _ r
    check_milestone-Judges (some (boolean b)) r = passes r
    check_milestone-Judges (some v) r = fails error _ subject _ r

    check_signal-Judges :
        (o : Option Value) (r : QualityReport)
        → Judges (is_string o) r (check_signal checker o subject r)
    check_signal-Judges none r = fails error _ subject _ r
    check_signal-Judges (some (text b)) r = passes r
    check_signal-Judges (some v) r = fails error _ subject _ r

    pub check_portfolio-Judges :
        (o : Option Value) (r : QualityReport)
        → Judges (mapping_or_none signalled o) r (check_portfolio checker o subject r)
    unfolding check_portfolio
    check_portfolio-Judges none r = passes r
    check_portfolio-Judges (some (mapping fs)) r =
        both _ _ r (check_milestone checker (get "milestone" fs) subject r) _
          (check_milestone-Judges (get "milestone" fs) r) (check_signal-Judges (get "signal" fs) _)
    check_portfolio-Judges (some v) r = fails error _ subject _ r

    check_sources-Judges :
        (o : Option Value) (r : QualityReport)
        → Judges (is_list o) r (check_sources checker o subject r)
    check_sources-Judges none r = fails error _ subject _ r
    check_sources-Judges (some (sequence vs)) r = passes r
    check_sources-Judges (some v) r = fails error _ subject _ r

    check_last_verified-Judges :
        (o : Option Value) (r : QualityReport)
        → Judges
            (is_text_with (λ t. str_eq t "" || is_some (checker.fromisoformat t)) o)
            r
            (check_last_verified checker o subject r)
    check_last_verified-Judges none r = fails error _ subject _ r
    check_last_verified-Judges (some (text t)) r =
        decides (str_eq t "" || is_date checker t) error _ subject _ r
    check_last_verified-Judges (some v) r = fails error _ subject _ r

    pub check_verification-Judges :
        (o : Option Value) (r : QualityReport)
        → Judges (mapping_or_none (verified checker) o) r (check_verification checker o subject r)
    unfolding check_verification
    check_verification-Judges none r = passes r
    check_verification-Judges (some (mapping fs)) r =
        both _ _ r (check_last_verified checker (get "last_verified" fs) subject r) _
          (check_last_verified-Judges (get "last_verified" fs) r)
          (check_sources-Judges (get "sources" fs) _)
    check_verification-Judges (some v) r = fails error _ subject _ r

    check_sync_status-Judges :
        (o : Option Value) (r : QualityReport)
        → Judges
            (is_text_with (λ t. member t allowed_sync_statuses) o)
            r
            (check_sync_status checker o subject r)
    check_sync_status-Judges none r = fails error _ subject _ r
    check_sync_status-Judges (some (text t)) r =
        decides (member t allowed_sync_statuses) warning _ subject _ r
    check_sync_status-Judges (some v) r = fails error _ subject _ r

    check_storage-Judges :
        (o : Option Value) (path : String) (r : QualityReport)
        → Judges (is_text_with (λ t. str_eq t path) o) r (check_storage checker o path subject r)
    check_storage-Judges none path r = fails error _ subject _ r
    check_storage-Judges (some (text t)) path r = decides (str_eq t path) error _ subject _ r
    check_storage-Judges (some v) path r = fails error _ subject _ r

    pub check_sync-Judges :
        (o : Option Value) (path : String) (r : QualityReport)
        → Judges (mapping_or_none (stored_at path) o) r (check_sync checker o path subject r)
    unfolding check_sync
    check_sync-Judges none path r = passes r
    check_sync-Judges (some (mapping fs)) path r =
        both _ _ r (check_sync_status checker (get "status" fs) subject r) _
          (check_sync_status-Judges (get "status" fs) r)
          (check_storage-Judges (get "storage" fs) path _)
    check_sync-Judges (some v) path r = fails error _ subject _ r

    -- The scope passes, or fails with a finding or with the error.
    pub check_scope-ok :
        (o : Option Value) (scope : String) (r : QualityReport)
        → has_scope scope o ≡ true
        → check_scope checker (or_null o) scope subject r ≡ ok r
    unfolding check_scope
    check_scope-ok none scope r h = ground arith
    check_scope-ok (some null) scope r h = ground arith
    check_scope-ok (some (text t)) scope r h = ground arith
    check_scope-ok (some v) scope r h = absurd (ground arith)

    abbrev returned : QualityReport → Result QualityError QualityReport
    returned r = ok r

    judged_ok :
        (test : Bool) (r x t : QualityReport)
        → Judges test r x
        → returned x ≡ returned t
        → Judges test r t
    judged_ok test r x t j h =
        (let same : x ≡ t = ground arith in subst (λ v. Judges test r v) same j)

    missing_scope-Judges :
        (o : Option Value) (scope : String) (r t : QualityReport)
        → or_null o ≡ null
        → check_scope checker null scope subject r ≡ ok t
        → Judges (not (is_fixed_scope scope)) r t
    unfolding check_scope
    missing_scope-Judges o scope r t n h = elim (Bool-cases (is_fixed_scope scope)) [
      | inl e ↦
          (let done = rw e at h in
            rw e (judged_ok false r _ t (fails error "state_scope_mismatch" subject _ r) done))
      | inr e ↦ (let done = rw e at h in rw e (judged_ok true r r t (passes r) done))
    ]

    text_scope-Judges :
        (s scope : String) (r t : QualityReport)
        → check_scope checker (text s) scope subject r ≡ ok t
        → Judges (has_scope scope (some (text s))) r t
    unfolding check_scope
    text_scope-Judges s scope r t h = elim (Bool-cases (is_fixed_scope scope)) [
      | inl e ↦
          (let done = rw e at h in
            rw e (
              judged_ok (str_eq s scope) r _ t
                (decides (str_eq s scope) error "state_scope_mismatch" subject _ r) done))
      | inr e ↦
          (let done = rw e at h in
            rw e (
              judged_ok (str_eq s "project" || str_eq s "project_state") r _ t
                (decides (str_eq s "project" || str_eq s "project_state") warning
                  "state_scope_unexpected" subject _ r)
                done))
    ]

    -- A value that is neither null nor a text.
    odd_scope-Judges :
        (v : Value) (scope : String) (r t : QualityReport)
        → ((s : String) → equals_text v s ≡ false)
        → ((s : QualityReport) → check_free_scope checker v subject r ≡ ok s → Judges false r s)
        → check_scope checker v scope subject r ≡ ok t
        → Judges false r t
    unfolding check_scope
    odd_scope-Judges v scope r t n free h = elim (Bool-cases (is_fixed_scope scope)) [
      | inl e ↦
          (let done = rw (e, n scope) at h in
            judged_ok false r _ t (fails error "state_scope_mismatch" subject _ r) done)
      | inr e ↦ (let done = rw e at h in free t done)
    ]

    free_scope-warns :
        (message : String) (t : QualityReport) (r : QualityReport)
        → returned (add_finding warning "state_scope_unexpected" subject message r) ≡ returned t
        → Judges false r t
    free_scope-warns message t r h =
        judged_ok false r _ t (fails warning "state_scope_unexpected" subject message r) h

    pub check_scope-Judges :
        (o : Option Value) (scope : String) (r t : QualityReport)
        → check_scope checker (or_null o) scope subject r ≡ ok t
        → Judges (has_scope scope o) r t
    unfolding check_scope
    check_scope-Judges none scope r t h = missing_scope-Judges none scope r t refl h
    check_scope-Judges (some null) scope r t h = missing_scope-Judges none scope r t refl h
    check_scope-Judges (some (text s)) scope r t h = text_scope-Judges s scope r t h
    check_scope-Judges (some (boolean b)) scope r t h =
        odd_scope-Judges (boolean b) scope r t (λ s. refl) (λ s e. free_scope-warns _ s r e) h
    check_scope-Judges (some (integer n)) scope r t h =
        odd_scope-Judges (integer n) scope r t (λ s. refl) (λ s e. free_scope-warns _ s r e) h
    check_scope-Judges (some (scalar x)) scope r t h =
        odd_scope-Judges (scalar x) scope r t (λ s. refl) (λ s e. free_scope-warns _ s r e) h
    check_scope-Judges (some v) scope r t h =
        odd_scope-Judges v scope r t (λ s. refl) (λ s e. absurd (ground arith)) h
