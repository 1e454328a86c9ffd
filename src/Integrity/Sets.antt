-- ===== src/Integrity/Sets.antt =====
-- The sets of paths of src/personal_ai_brain/state_integrity.py, as lists in which an order and
-- repetitions mean nothing, and `sorted` of a difference.
use personal_ai_brain.Prelude.{
  String, not, List, [], ◌∷◌, member, text_leb, str_eq, keep, concat, if◌then◌else◌,
}

-- A path into an ascending list without repetitions.
abbrev pub insert_path : String → List String → List String
insert_path s [] = s ∷ []
insert_path s (t ∷ ts) =
    let later = insert_path s ts in
    if str_eq s t then t ∷ ts else if text_leb s t then s ∷ t ∷ ts else t ∷ later

abbrev pub sort_paths : List String → List String
sort_paths [] = []
sort_paths (s ∷ ss) = insert_path s (sort_paths ss)

-- `sorted(paths - others)`
unfoldable pub sorted_difference : List String → List String → List String
sorted_difference paths others = sort_paths (keep (λ s. not (member s others)) paths)

-- `", ".join(paths)`
abbrev pub join_paths : List String → String
join_paths [] = ""
join_paths (s ∷ []) = s
join_paths (s ∷ t ∷ ts) = concat s (concat ", " (join_paths (t ∷ ts)))
