-- ===== src/Integrity/Differences.antt =====
-- When the sorted difference of src/personal_ai_brain/state_integrity.py is empty.
use personal_ai_brain.Prelude.{
  String, ◌≡◌, refl, ◌∙◌, Bool, true, false, not, List, [], ◌∷◌, all, keep, member, arith,
}
use personal_ai_brain.Integrity.Sets.{insert_path, sort_paths, sorted_difference}

abbrev pub is_nil {ℓ} : {A : Type ℓ} → List A → Bool
is_nil [] = true
is_nil (x ∷ xs) = false

is_nil-insert_path : (s : String) (ts : List String) → is_nil (insert_path s ts) ≡ false
is_nil-insert_path s [] = refl
is_nil-insert_path s (t ∷ ts) = ground arith

is_nil-sort_paths : (ss : List String) → is_nil (sort_paths ss) ≡ is_nil ss
is_nil-sort_paths [] = refl
is_nil-sort_paths (s ∷ ss) = is_nil-insert_path s (sort_paths ss)

is_nil-keep :
    (others ss : List String)
    → is_nil (keep (λ s. not (member s others)) ss) ≡ all (λ s. member s others) ss
is_nil-keep others [] = refl
is_nil-keep others (s ∷ ss) = ground (arith, is_nil-keep others ss)

pub is_nil-sorted_difference :
    (paths others : List String)
    → is_nil (sorted_difference paths others) ≡ all (λ s. member s others) paths
unfolding sorted_difference
is_nil-sorted_difference paths others =
    is_nil-sort_paths (keep (λ s. not (member s others)) paths) ∙ is_nil-keep others paths
