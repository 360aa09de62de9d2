-- ===== src/Prelude/Sorting.antt =====
-- `sorted(xs, key=...)`: a stable sort by a numeric key.
use Prim.Native.Nat.{ℕ}
use mathlib.Core.Path.{◌≡◌, refl}
use mathlib.Core.Bool.{Bool}
use mathlib.Core.Logic.{inl, inr}
use mathlib.Core.List.{List, [], ◌∷◌}
use native.Mathlib.Omega.{arith}
use course_discovery_agent.Prelude.Tests.{leb, Bool-cases, if◌then◌else◌}
use course_discovery_agent.Prelude.Lists.{length, All, count_if}

module _ {ℓ} {A : Type ℓ} (key : A → ℕ) where
  -- The new entry stands before those with an equal key: `sort_on` inserts from the back.
  insert : A → List A → List A
  insert x [] = x ∷ []
  insert x (y ∷ ys) = let rest = insert x ys in if leb (key x) (key y) then x ∷ y ∷ ys else y ∷ rest

  unfoldable pub sort_on : List A → List A
  unfolding insert
  sort_on [] = []
  sort_on (x ∷ xs) = insert x (sort_on xs)

  All-insert {κ} : (P : A → Type κ) (x : A) (xs : List A) → P x → All P xs → All P (insert x xs)
  unfolding insert
  All-insert P x [] h hs = (h, hs)
  All-insert P x (y ∷ ys) h hs = elim (Bool-cases (leb (key x) (key y))) [
    | inl e ↦ rw e (h, hs)
    | inr e ↦ rw e (hs.0, All-insert P x ys h hs.1)
  ]

  -- Sorting keeps every property of the entries.
  pub All-sort_on {κ} : (P : A → Type κ) (xs : List A) → All P xs → All P (sort_on xs)
  unfolding sort_on
  All-sort_on P [] h = h
  All-sort_on P (x ∷ xs) h = All-insert P x (sort_on xs) h.0 (All-sort_on P xs h.1)

  length-insert : (x : A) (xs : List A) → length (insert x xs) ≡ length (x ∷ xs)
  unfolding insert
  length-insert x [] = omega arith
  length-insert x (y ∷ ys) = ground (arith, length-insert x ys)

  pub length-sort_on : (xs : List A) → length (sort_on xs) ≡ length xs
  unfolding sort_on
  length-sort_on [] = omega arith
  length-sort_on (x ∷ xs) = omega (arith, length-insert x (sort_on xs), length-sort_on xs)

  count_if-insert :
      (p : A → Bool) (x : A) (xs : List A) → count_if p (insert x xs) ≡ count_if p (x ∷ xs)
  unfolding insert count_if
  count_if-insert p x [] = refl
  count_if-insert p x (y ∷ ys) = ground (arith, count_if-insert p x ys)

  -- Sorting changes no count: the result is a permutation.
  pub count_if-sort_on : (p : A → Bool) (xs : List A) → count_if p (sort_on xs) ≡ count_if p xs
  unfolding sort_on count_if
  count_if-sort_on p [] = refl
  count_if-sort_on p (x ∷ xs) =
      ground (arith, count_if-insert p x (sort_on xs), count_if-sort_on p xs)

-- A stable sort by a test: whether one entry may stand before another.
module _ {ℓ} {A : Type ℓ} (before : A → A → Bool) where
  insert_by : A → List A → List A
  insert_by x [] = x ∷ []
  insert_by x (y ∷ ys) = let rest = insert_by x ys in if before x y then x ∷ y ∷ ys else y ∷ rest

  unfoldable pub sort_by : List A → List A
  unfolding insert_by
  sort_by [] = []
  sort_by (x ∷ xs) = insert_by x (sort_by xs)

  count_if-insert_by :
      (p : A → Bool) (x : A) (xs : List A) → count_if p (insert_by x xs) ≡ count_if p (x ∷ xs)
  unfolding insert_by count_if
  count_if-insert_by p x [] = refl
  count_if-insert_by p x (y ∷ ys) = ground (arith, count_if-insert_by p x ys)

  pub count_if-sort_by : (p : A → Bool) (xs : List A) → count_if p (sort_by xs) ≡ count_if p xs
  unfolding sort_by count_if
  count_if-sort_by p [] = refl
  count_if-sort_by p (x ∷ xs) =
      ground (arith, count_if-insert_by p x (sort_by xs), count_if-sort_by p xs)

  length-insert_by : (x : A) (xs : List A) → length (insert_by x xs) ≡ length (x ∷ xs)
  unfolding insert_by
  length-insert_by x [] = omega arith
  length-insert_by x (y ∷ ys) = ground (arith, length-insert_by x ys)

  pub length-sort_by : (xs : List A) → length (sort_by xs) ≡ length xs
  unfolding sort_by
  length-sort_by [] = omega arith
  length-sort_by (x ∷ xs) = omega (arith, length-insert_by x (sort_by xs), length-sort_by xs)
