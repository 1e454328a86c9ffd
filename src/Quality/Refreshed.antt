-- ===== src/Quality/Refreshed.antt =====
-- A policy that src/personal_ai_brain/state_quality.py read lets every state be fresh on the day
-- it was verified.
use personal_ai_brain.Prelude.{
  ℤ, pos, negsuc, String, ◌≡◌, refl, sym, subst, ◌⊎◌, inl, inr, true, false, Bool-cases, Option,
  none, some, List, [], ◌∷◌, All, member, str_eq, ok, arith,
}
use personal_ai_brain.Prelude.Values.{
  Value, null, integer, text, sequence, mapping, Fields, end, field, get, get_or, values_of,
  bind_ok,
}
use personal_ai_brain.Quality.{
  QualityReport, FreshnessPolicy, days_of, or_default, max_age_days, Checker, non_fresh_statuses,
  add_warning, str,
}
use personal_ai_brain.Quality.Policy.{
  default, days_in, set_days, default_days_raw, attention_raw, disabled_raw, read_attention,
  from_mapping,
}
use personal_ai_brain.Quality.Freshness.{threshold_in, threshold_for, check_freshness}
use personal_ai_brain.Quality.Stale.{IsVerified, is_judged, check_freshness-Judges}

-- A limit of days that is not negative.
abbrev pub IsLimit : Option ℤ → Type 0
IsLimit none = Unit {0}
IsLimit (some (pos n)) = Unit {0}
IsLimit (some (negsuc n)) = ⊥

abbrev pub AreLimits : List (String × Option ℤ) → Type 0
AreLimits days = All (λ (d : String × Option ℤ). IsLimit d.1) days

days_in-IsLimit :
    (v : Value) (message : String) (d : Option ℤ) → days_in v message ≡ ok d → IsLimit d
days_in-IsLimit null message d h = (let same : none ≡ d = ground arith in subst IsLimit same tt)
days_in-IsLimit (integer (pos n)) message d h =
    (let same : some (pos n) ≡ d = ground arith in subst IsLimit same tt)
days_in-IsLimit v message d h = absurd (ground arith)

set_days-AreLimits :
    (key : String) (d : Option ℤ) (days : List (String × Option ℤ))
    → IsLimit d
    → AreLimits days
    → AreLimits (set_days key d days)
set_days-AreLimits key d [] h k = (h, tt)
set_days-AreLimits key d ((l, old) ∷ rest) h k = elim (Bool-cases (str_eq l key)) [
  | inl e ↦ rw e (h, k.1)
  | inr e ↦ rw e (k.0, set_days-AreLimits key d rest h k.1)
]

days_of-IsLimit :
    (attention : String) (days : List (String × Option ℤ)) (d : Option ℤ)
    → AreLimits days
    → days_of attention days ≡ some d
    → IsLimit d
days_of-IsLimit attention [] d h e = absurd (ground arith)
days_of-IsLimit attention ((l, old) ∷ rest) d h e = elim (Bool-cases (str_eq l attention)) [
  | inl f ↦ (let done = rw f at e in let same : old ≡ d = ground arith in subst IsLimit same h.0)
  | inr f ↦ days_of-IsLimit attention rest d h.1 (rw f at e)
]

module _ (show repr : Value → String) where
  read_attention-AreLimits :
      (fs : Fields) (days out : List (String × Option ℤ))
      → AreLimits days
      → read_attention show repr fs days ≡ ok out
      → AreLimits out
  unfolding read_attention
  read_attention-AreLimits end days out h e =
      (let same : days ≡ out = ground arith in subst AreLimits same h)
  read_attention-AreLimits (field key v fs) days out h e =
      let limit = bind_ok (days_in v _) _ out e in
      read_attention-AreLimits fs (set_days key limit.0 days) out
        (set_days-AreLimits key limit.0 days (days_in-IsLimit v _ limit.0 limit.1) h) limit.2

  default_days_raw-IsLimit :
      (o : Option Value) (d : Option ℤ) → default_days_raw o ≡ ok d → IsLimit d
  default_days_raw-IsLimit none d h =
      (let same : some (pos 14) ≡ d = ground arith in subst IsLimit same tt)
  default_days_raw-IsLimit (some v) d h = days_in-IsLimit v _ d h

  pub from_mapping-IsLimit :
      (raw : Fields) (policy : FreshnessPolicy)
      → from_mapping show repr raw ≡ ok policy
      → IsLimit policy.default_days × AreLimits policy.attention_days
  unfolding from_mapping
  from_mapping-IsLimit raw policy h =
      let days = bind_ok (default_days_raw (get "default_days" raw)) _ policy h in
      let given =
        bind_ok (attention_raw (get_or "attention_days" (mapping end) raw)) _ policy days.2 in
      let attention =
        bind_ok (read_attention show repr given.0 default.attention_days) _ policy given.2 in
      let disabled =
        bind_ok
          (disabled_raw
            (get_or "disabled_attention" (sequence (values_of default.disabled_attention)) raw))
          _ policy attention.2 in
      let same : record {
        default_days = days.0;
        attention_days = attention.0;
        disabled_attention = disabled.0;
      }
          ≡ policy =
        ground arith in
      subst (λ (p : FreshnessPolicy). IsLimit p.default_days × AreLimits p.attention_days) same
        (
          default_days_raw-IsLimit (get "default_days" raw) days.0 days.1,
          read_attention-AreLimits given.0 default.attention_days attention.0
              (tt, (tt, (tt, (tt, (tt, tt))))) attention.1,
        )

module _ (policy : FreshnessPolicy)
    (limits : IsLimit policy.default_days × AreLimits policy.attention_days) where
  or_default-IsLimit :
      (attention : String) (o : Option (Option ℤ))
      → days_of attention policy.attention_days ≡ o
      → IsLimit (or_default policy.default_days o)
  or_default-IsLimit attention none e = limits.0
  or_default-IsLimit attention (some d) e =
      days_of-IsLimit attention policy.attention_days d limits.1 e

  max_age_days-IsLimit : (attention : String) → IsLimit (max_age_days policy attention)
  max_age_days-IsLimit attention = elim (Bool-cases (member attention policy.disabled_attention)) [
    | inl e ↦ rw e tt
    | inr e ↦ rw e (or_default-IsLimit attention (days_of attention policy.attention_days) refl)
  ]

-- The report, or the report and the warning that the override is no limit.
abbrev pub IsQuiet : String → QualityReport → QualityReport → Type 0
IsQuiet subject r t =
    (t ≡ r)
    ⊎ ((message : String) × (t ≡ add_warning "freshness_override_invalid" subject message r))

module _ (checker : Checker)
    (limits : IsLimit checker.policy.default_days × AreLimits checker.policy.attention_days) where
  threshold_in-IsLimit :
      (o : Option Value) (attention subject : String) (r : QualityReport)
      → IsLimit (threshold_in checker o attention subject r).0
        × IsQuiet subject r (threshold_in checker o attention subject r).1
  threshold_in-IsLimit none attention subject r =
      (max_age_days-IsLimit checker.policy limits attention, inl refl)
  threshold_in-IsLimit (some null) attention subject r = (tt, inl refl)
  threshold_in-IsLimit (some (integer (pos n))) attention subject r = (tt, inl refl)
  threshold_in-IsLimit (some v) attention subject r =
      (max_age_days-IsLimit checker.policy limits attention, inr (_, refl))

  quiet_on_day :
      (raw map_entry : Fields) (subject attention : String) (r : QualityReport)
      (threshold : Option ℤ) (s : QualityReport)
      → is_judged checker raw ≡ true
      → IsVerified checker raw checker.today
      → threshold_for checker attention map_entry subject r ≡ (threshold, s)
      → IsLimit threshold
      → check_freshness checker raw subject attention map_entry r ≡ s
  unfolding check_freshness
  quiet_on_day raw map_entry subject attention r none s h v e l =
      let judged : member (str checker (get_or "status" (text "unknown") raw)) non_fresh_statuses
          ≡ false =
        ground arith in
      rw (judged, e) refl
  quiet_on_day raw map_entry subject attention r (some (pos limit)) s h v e l =
      (check_freshness-Judges checker raw map_entry subject attention r s checker.today limit h v
          e).quiet
        (ground arith)
  quiet_on_day raw map_entry subject attention r (some (negsuc n)) s h v e l = absurd l

  not_judged :
      (raw map_entry : Fields) (subject attention : String) (r : QualityReport)
      → is_judged checker raw ≡ false
      → check_freshness checker raw subject attention map_entry r ≡ r
  unfolding check_freshness
  not_judged raw map_entry subject attention r h =
      let skipped : member (str checker (get_or "status" (text "unknown") raw)) non_fresh_statuses
          ≡ true =
        ground arith in
      rw skipped refl

-- Under any policy that was read from a configuration, and whatever limit the map gives, a state
-- whose date of verification is today is neither stale nor ahead: its freshness adds no finding
-- but the warning that the map's own limit is invalid.
pub check_freshness-IsQuiet :
    (checker : Checker) (show repr : Value → String) (config raw map_entry : Fields)
    (subject attention : String) (r : QualityReport)
    → from_mapping show repr config ≡ ok checker.policy
    → IsVerified checker raw checker.today
    → IsQuiet subject r (check_freshness checker raw subject attention map_entry r)
check_freshness-IsQuiet checker show repr config raw map_entry subject attention r h v =
    elim (Bool-cases (is_judged checker raw)) [
      | inl e ↦
          (let limits = from_mapping-IsLimit show repr config checker.policy h in
            let threshold = threshold_for checker attention map_entry subject r in
            let given =
              threshold_in-IsLimit checker limits (get "freshness_days" map_entry) attention subject
                r in
            subst (λ t. IsQuiet subject r t)
              (sym (
                quiet_on_day checker limits raw map_entry subject attention r threshold.0
                  threshold.1 e v refl given.0))
              given.1)
      | inr e ↦ inl (
          not_judged checker (from_mapping-IsLimit show repr config checker.policy h) raw map_entry
            subject attention r e)
    ]
