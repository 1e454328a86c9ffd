-- ===== src/Quality/Judges.antt =====
-- Steps of src/personal_ai_brain/state_quality.py that add no finding exactly when a test holds.
use personal_ai_brain.Prelude.{
  ℕ, ◌+◌, ◌<◌, String, ◌≡◌, refl, sym, ◌∙◌, subst, Bool, true, false, ◌&&◌, List, [], ◌∷◌, ◌++◌,
  length, all, if◌then◌else◌, arith,
}
use personal_ai_brain.Core.{Severity}
use personal_ai_brain.Quality.{QualityFinding, QualityReport, add_finding}

abbrev pub size : QualityReport → ℕ
size report = length report.findings

-- The report after a step is the one before if the test holds, and longer if not.
pub record Judges (test : Bool) (before after : QualityReport) : Type 0 where
  pub quiet : test ≡ true → after ≡ before
  pub noisy : test ≡ false → size before < size after

length-append :
    (xs : List QualityFinding) (x : QualityFinding) → length (xs ++ x ∷ []) ≡ length xs + 1
length-append [] x = refl
length-append (y ∷ ys) x = ground (arith, length-append ys x)

pub add_finding-longer :
    (severity : Severity) (code subject message : String) (r : QualityReport)
    → size r < size (add_finding severity code subject message r)
add_finding-longer severity code subject message r = ground (
  arith,
  length-append r.findings
      (record { severity = severity; code = code; subject = subject; message = message }),
)

pub passes : (r : QualityReport) → Judges true r r
passes r = record { quiet = λ h. refl; noisy = λ h. absurd (ground arith) }

pub fails :
    (severity : Severity) (code subject message : String) (r : QualityReport)
    → Judges false r (add_finding severity code subject message r)
fails severity code subject message r = record {
  quiet = λ h. absurd (ground arith);
  noisy = λ h. add_finding-longer severity code subject message r;
}

pub decides :
    (test : Bool) (severity : Severity) (code subject message : String) (r : QualityReport)
    → Judges test r (if test then r else add_finding severity code subject message r)
decides true severity code subject message r = passes r
decides false severity code subject message r = fails severity code subject message r

-- Two steps, one after the other.
pub both : (p q : Bool) (r s t : QualityReport) → Judges p r s → Judges q s t → Judges (p && q) r t
both true true r s t h k = record {
  quiet = λ e. k.quiet refl ∙ h.quiet refl;
  noisy = λ e. absurd (ground arith);
}
both true false r s t h k = record {
  quiet = λ e. absurd (ground arith);
  noisy = λ e. subst (λ v. size v < size t) (h.quiet refl) (k.noisy refl);
}
both false true r s t h k = record {
  quiet = λ e. absurd (ground arith);
  noisy = λ e. subst (λ v. size r < size v) (sym (k.quiet refl)) (h.noisy refl);
}
both false false r s t h k = record {
  quiet = λ e. absurd (ground arith);
  noisy = λ e. (let first = h.noisy refl in let second = k.noisy refl in omega arith);
}

-- A step for each of some keys.
pub each :
    (test : String → Bool) (step : String → QualityReport → QualityReport)
    (loop : List String → QualityReport → QualityReport)
    → ((r : QualityReport) → loop [] r ≡ r)
    → ((k : String) (ks : List String) (r : QualityReport) → loop (k ∷ ks) r ≡ loop ks (step k r))
    → ((k : String) (r : QualityReport) → Judges (test k) r (step k r))
    → (ks : List String) (r : QualityReport) → Judges (all test ks) r (loop ks r)
each test step loop stop go one [] r = subst (λ v. Judges true r v) (sym (stop r)) (passes r)
each test step loop stop go one (k ∷ ks) r =
    subst (λ v. Judges (test k && all test ks) r v) (sym (go k ks r))
      (both (test k) (all test ks) r (step k r) (loop ks (step k r)) (one k r)
        (each test step loop stop go one ks (step k r)))
