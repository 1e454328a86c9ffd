-- ===== src/Prelude/Lists.antt =====
-- Lists: Python's and SQL's searches, counts and filters, over native numbers.
use Prim.Native.Nat.{ℕ, suc, ◌≤◌, ◌<◌, max}
use mathlib.Core.Path.{◌≡◌, refl, subst}
use mathlib.Core.Logic.{inl, inr}
use mathlib.Core.Bool.{Bool, true, false, ◌&&◌, ◌||◌}
use mathlib.Core.Option.{Option, none, some}
use mathlib.Core.Option
use mathlib.Core.List.{map, List, [], ◌∷◌, ◌++◌}
use native.Mathlib.Omega.{arith}
use personal_ai_brain.Prelude.Tests.{if◌then◌else◌, ◌==◌, Bool-cases}

module _ {ℓ} {A : Type ℓ} where
  abbrev pub length : List A → ℕ
  length [] = 0
  length (x ∷ xs) = suc (length xs)

  -- The first element that passes a test.
  abbrev pub find? : (A → Bool) → List A → Option A
  find? p [] = none
  find? p (x ∷ xs) = if p x then some x else find? p xs

  abbrev pub any : (A → Bool) → List A → Bool
  any p [] = false
  any p (x ∷ xs) = p x || any p xs

  abbrev pub all : (A → Bool) → List A → Bool
  all p [] = true
  all p (x ∷ xs) = p x && all p xs

  abbrev pub keep : (A → Bool) → List A → List A
  keep p [] = []
  keep p (x ∷ xs) = let rest = keep p xs in if p x then x ∷ rest else rest

  -- A statement about every element.
  abbrev pub All {κ} : (A → Type κ) → List A → Type κ
  All P [] = Unit
  All P (x ∷ xs) = P x × All P xs

  -- The integer primary key that SQLite gives to a new row: one more than the largest.
  abbrev pub fresh_id : (A → ℕ) → List A → ℕ
  fresh_id f [] = 1
  fresh_id f (x ∷ xs) = max (suc (f x)) (fresh_id f xs)

module _ {ℓ} {A : Type ℓ} where
  pub fresh_id-above :
      (f : A → ℕ) (n : ℕ) (xs : List A) → fresh_id f xs ≤ n → find? (λ x. f x == n) xs ≡ none
  fresh_id-above f n [] h = refl
  fresh_id-above f n (x ∷ xs) h = ground (arith, fresh_id-above f n xs)

  pub find?-lt-fresh_id :
      (f : A → ℕ) (n : ℕ) (xs : List A) (a : A)
      → find? (λ x. f x == n) xs ≡ some a
      → n < fresh_id f xs
  find?-lt-fresh_id f n [] a h = absurd (ground arith)
  find?-lt-fresh_id f n (x ∷ xs) a h = ground (arith, find?-lt-fresh_id f n xs a)

  -- A map that keeps the numbers commutes with the search by number.
  pub find?-map :
      (f : A → ℕ) (g : A → A) (n : ℕ) (xs : List A)
      → ((x : A) → f (g x) ≡ f x)
      → find? (λ x. f x == n) (map g xs) ≡ Option.map g (find? (λ x. f x == n) xs)
  find?-map f g n [] h = refl
  find?-map f g n (x ∷ xs) h = ground (arith, find?-map f g n xs h, h x)

  -- What `find?` returns passes the test.
  pub find?-passes : (p : A → Bool) (xs : List A) (a : A) → find? p xs ≡ some a → p a ≡ true
  find?-passes p [] a h = ground arith
  find?-passes p (x ∷ xs) a h = ground (arith, find?-passes p xs a)

  pub All-find? {κ} :
      (P : A → Type κ) (p : A → Bool) (xs : List A) (a : A) → All P xs → find? p xs ≡ some a → P a
  All-find? P p [] a h e = absurd (ground arith)
  All-find? P p (x ∷ xs) a h e = elim (Bool-cases (p x)) [
    | inl pass ↦ (let same : x ≡ a = ground arith in subst P same h.0)
    | inr fail ↦ All-find? P p xs a h.1 (ground arith)
  ]

  pub All-append {κ} : (P : A → Type κ) (xs ys : List A) → All P xs → All P ys → All P (xs ++ ys)
  All-append P [] ys h k = k
  All-append P (x ∷ xs) ys h k = (h.0, All-append P xs ys h.1 k)
