-- ===== src/Quality/Valid.antt =====
-- `_check_schema` of src/personal_ai_brain/state_quality.py decides the contract of a state.
use personal_ai_brain.Prelude.{
  ◌<◌, String, ◌≡◌, refl, ◌∙◌, ap, subst, Bool, true, false, ◌&&◌, Option, none, some, is_some,
  List, [], ◌∷◌, ◌++◌, all, str_eq, ok, arith,
}
use personal_ai_brain.Prelude.Values.{Value, Fields, get, or_null, has_key, bind_ok}
use personal_ai_brain.Quality.{
  QualityReport, Checker, required_top_level, string_top_level, list_top_level, str,
}
use personal_ai_brain.Quality.Schema.{
  missing_keys, report_missing, check_version, check_scope, check_top_level, check_nested,
  check_schema,
}
use personal_ai_brain.Quality.Judges.{size, Judges, both}
use personal_ai_brain.Quality.Contract.{
  is_string, is_list, is_mapping_with, owned_project, signalled, stored_at, has_scope, verified,
  is_valid,
}
use personal_ai_brain.Quality.Blocks.{
  string_or_none, list_or_none, mapping_or_none, check_strings-Judges, check_lists-Judges,
  check_version-Judges, report_missing-Judges, is_empty-missing_keys, check_project_block-Judges,
  check_portfolio-Judges, check_verification-Judges, check_sync-Judges, check_scope-ok,
  check_scope-Judges,
}

all-append : (p : String → Bool) (ks ls : List String) → all p (ks ++ ls) ≡ (all p ks && all p ls)
all-append p [] ls = refl
all-append p (k ∷ ks) ls = ground (arith, all-append p ks ls)

all_three_pass : (a b c : Bool) → ((a && b) && c) ≡ true → (a ≡ true) × (b ≡ true) × (c ≡ true)
all_three_pass a b c h = ground arith

module _ (checker : Checker) where
  abbrev is_version : Fields → Bool
  is_version raw = str_eq (str checker (or_null (get "schema_version" raw))) "0.2"

  -- The tests of the blocks together.
  abbrev top_test : Fields → String → Bool
  top_test raw scope =
      (((is_version raw && all (λ k. has_key k raw) required_top_level)
          && all (λ k. string_or_none checker (get k raw)) string_top_level)
        && all (λ k. list_or_none checker (get k raw)) list_top_level)
      && mapping_or_none checker (owned_project scope) (get "project" raw)

  abbrev nested_test : Fields → String → Bool
  nested_test raw path =
      (mapping_or_none checker signalled (get "portfolio" raw)
        && mapping_or_none checker (verified checker) (get "verification" raw))
      && mapping_or_none checker (stored_at path) (get "sync" raw)

  present_string : (o : Option Value) → (is_some o && string_or_none checker o) ≡ is_string o
  present_string none = refl
  present_string (some v) = refl

  present_list : (o : Option Value) → (is_some o && list_or_none checker o) ≡ is_list o
  present_list none = refl
  present_list (some v) = refl

  present_mapping :
      (p : Fields → Bool) (o : Option Value)
      → (is_some o && mapping_or_none checker p o) ≡ is_mapping_with p o
  present_mapping p none = refl
  present_mapping p (some v) = refl

  present_strings :
      (raw : Fields) (ks : List String)
      → (all (λ k. has_key k raw) ks && all (λ k. string_or_none checker (get k raw)) ks)
        ≡ all (λ k. is_string (get k raw)) ks
  present_strings raw [] = refl
  present_strings raw (k ∷ ks) = ground (arith, present_string (get k raw), present_strings raw ks)

  present_lists :
      (raw : Fields) (ks : List String)
      → (all (λ k. has_key k raw) ks && all (λ k. list_or_none checker (get k raw)) ks)
        ≡ all (λ k. is_list (get k raw)) ks
  present_lists raw [] = refl
  present_lists raw (k ∷ ks) = ground (arith, present_list (get k raw), present_lists raw ks)

  -- The required keys by the type of their values.
  required_keys :
      (raw : Fields)
      → all (λ k. has_key k raw) required_top_level ≡ (
          has_key "project" raw
          && (all (λ k. has_key k raw) string_top_level
              && (all (λ k. has_key k raw) list_top_level
                  && (has_key "portfolio" raw
                      && (has_key "verification" raw && (has_key "sync" raw && true))))))
  required_keys raw =
      ap (λ b. has_key "project" raw && b)
        (all-append (λ k. has_key k raw) string_top_level
            (list_top_level ++ "portfolio" ∷ "verification" ∷ "sync" ∷ [])
          ∙ ap (λ b. all (λ k. has_key k raw) string_top_level && b)
              (all-append (λ k. has_key k raw) list_top_level
                ("portfolio" ∷ "verification" ∷ "sync" ∷ [])))

  regroup :
      (v p s l q r n p' s' l' q' r' n' c : Bool)
      → (((((v && (p && (s && (l && (q && (r && (n && true))))))) && s') && l') && p') && c)
          && ((q' && r') && n')
        ≡ (v && (s && s') && (l && l') && (p && p') && (q && q') && (r && r') && (n && n') && c)
  regroup v p s l q r n p' s' l' q' r' n' c = ground arith

  tests-is_valid :
      (raw : Fields) (path scope : String)
      → ((top_test raw scope && has_scope scope (get "state_scope" raw)) && nested_test raw path)
        ≡ is_valid checker raw path scope
  tests-is_valid raw path scope =
      let strings = all (λ k. string_or_none checker (get k raw)) string_top_level in
      let lists = all (λ k. list_or_none checker (get k raw)) list_top_level in
      let project = mapping_or_none checker (owned_project scope) (get "project" raw) in
      let scoped = has_scope scope (get "state_scope" raw) in
      ap
        (λ b.
          (((((is_version raw && b) && strings) && lists) && project) && scoped)
          && nested_test raw path)
        (required_keys raw)
      ∙ regroup (is_version raw) (has_key "project" raw) (all (λ k. has_key k raw) string_top_level)
          (all (λ k. has_key k raw) list_top_level) (has_key "portfolio" raw)
          (has_key "verification" raw) (has_key "sync" raw) project strings lists
          (mapping_or_none checker signalled (get "portfolio" raw))
          (mapping_or_none checker (verified checker) (get "verification" raw))
          (mapping_or_none checker (stored_at path) (get "sync" raw)) scoped
      ∙ rw
          (
            present_strings raw string_top_level,
            present_lists raw list_top_level,
            present_mapping (owned_project scope) (get "project" raw),
            present_mapping signalled (get "portfolio" raw),
            present_mapping (verified checker) (get "verification" raw),
            present_mapping (stored_at path) (get "sync" raw),
          )
          refl

  module _ (subject : String) where
    top-Judges :
        (raw : Fields) (scope : String) (r : QualityReport)
        → Judges (top_test raw scope) r (check_top_level checker raw subject scope r)
    unfolding check_top_level
    top-Judges raw scope r =
        let version = or_null (get "schema_version" raw) in
        let versioned = check_version checker version subject r in
        let missing = missing_keys required_top_level raw in
        let complete = report_missing missing subject versioned in
        both _ _ r _ _
          (both _ _ r _ _
            (both _ _ r complete _
              (both _ _ r versioned complete (check_version-Judges checker subject version r) (
                subst (λ b. Judges b versioned complete)
                  (is_empty-missing_keys checker subject required_top_level raw)
                  (report_missing-Judges checker subject missing versioned)))
              (check_strings-Judges checker subject raw string_top_level complete))
            (check_lists-Judges checker subject raw list_top_level _))
          (check_project_block-Judges checker subject (get "project" raw) scope _)

    nested-Judges :
        (raw : Fields) (path : String) (r : QualityReport)
        → Judges (nested_test raw path) r (check_nested checker raw path subject r)
    unfolding check_nested
    nested-Judges raw path r =
        both _ _ r _ _
          (both _ _ r _ _ (check_portfolio-Judges checker subject (get "portfolio" raw) r)
            (check_verification-Judges checker subject (get "verification" raw) _))
          (check_sync-Judges checker subject (get "sync" raw) path _)

-- A state that meets the contract is returned without a finding. For any other state, the check
-- adds a finding whenever it returns.
pub check_schema-is_valid :
    (checker : Checker) (raw : Fields) (path subject scope : String) (r : QualityReport)
    → (is_valid checker raw path scope ≡ true
        → check_schema checker raw path subject scope r ≡ ok r)
      × ((t : QualityReport)
          → is_valid checker raw path scope ≡ false
          → check_schema checker raw path subject scope r ≡ ok t
          → size r < size t)
unfolding check_schema
check_schema-is_valid checker raw path subject scope r =
    let tests = tests-is_valid checker raw path scope in
    let state_scope = get "state_scope" raw in
    let topped = check_top_level checker raw subject scope r in
    let top = top-Judges checker subject raw scope r in
    (
      λ h.
          (let passed =
              all_three_pass (top_test checker raw scope) (has_scope scope state_scope)
                (nested_test checker raw path) (tests ∙ h) in
            let unchanged : topped ≡ r = top.quiet passed.0 in
            let scoped = check_scope-ok checker subject state_scope scope r passed.1 in
            let nested = (nested-Judges checker subject raw path r).quiet passed.2 in
            rw (unchanged, scoped, nested) refl),
      λ t h e.
          (let scoped =
              bind_ok (check_scope checker (or_null state_scope) scope subject topped) _ t e in
            let all_three =
              both _ _ r scoped.0 _
                (both _ _ r topped scoped.0 top
                  (check_scope-Judges checker subject state_scope scope topped scoped.0 scoped.1))
                (nested-Judges checker subject raw path scoped.0) in
            let same : check_nested checker raw path subject scoped.0 ≡ t = ground arith in
            subst (λ v. size r < size v) same (all_three.noisy (tests ∙ h))),
    )
