-- ===== src/Prelude/Sets.antt =====
-- Python's `set` of texts, as a list of its members.
use Prim.Native.Nat.{◌≤◌, ◌<◌}
use Prim.Native.String.{String}
use mathlib.Core.Path.{◌≡◌, refl}
use mathlib.Core.Logic.{inl, inr}
use mathlib.Core.Bool.{Bool, true, false, not, ◌&&◌, ◌||◌}
use mathlib.Core.List.{List, [], ◌∷◌}
use native.Mathlib.Omega.{arith}
use text.Mathlib.Text.{◌==◌}
use text.Mathlib.TextEquality.{eq_iff}
use text.Mathlib.TextPositions.{eq_refl}
use course_discovery_agent.Prelude.Tests.{Bool-cases, if◌then◌else◌}
use course_discovery_agent.Prelude.Lists.{length, filter, is_in, is_empty, IsDistinct}

-- `xs | {x}`
unfoldable pub add : String → List String → List String
add x xs = if is_in x xs then xs else x ∷ xs

-- `xs | ys`
unfoldable pub union : List String → List String → List String
unfolding add
union xs [] = xs
union xs (y ∷ ys) = add y (union xs ys)

-- `xs - ys`
unfoldable pub minus : List String → List String → List String
minus xs ys = filter (λ x. not (is_in x ys)) xs

is_in-add : (k x : String) (xs : List String) → is_in k (add x xs) ≡ ((x == k) || is_in k xs)
unfolding add is_in
is_in-add k x xs = ground (arith, eq_iff x k)

pub is_in-union :
    (k : String) (xs ys : List String) → is_in k (union xs ys) ≡ (is_in k ys || is_in k xs)
unfolding union is_in
is_in-union k xs [] = refl
is_in-union k xs (y ∷ ys) = ground (arith, is_in-add k y (union xs ys), is_in-union k xs ys)

is_in-filter :
    (k : String) (p : String → Bool) (xs : List String)
    → is_in k (filter p xs) ≡ (is_in k xs && p k)
unfolding filter is_in
is_in-filter k p [] = refl
is_in-filter k p (x ∷ xs) = ground (arith, is_in-filter k p xs, eq_iff x k)

pub is_in-minus :
    (k : String) (xs ys : List String) → is_in k (minus xs ys) ≡ (is_in k xs && not (is_in k ys))
unfolding minus
is_in-minus k xs ys = is_in-filter k (λ x. not (is_in x ys)) xs

module _ {ℓ} {A : Type ℓ} (p q : A → Bool) (implied : (x : A) → q x ≡ true → p x ≡ true) where
  length-filter_mono : (xs : List A) → length (filter q xs) ≤ length (filter p xs)
  unfolding filter
  length-filter_mono [] = omega arith
  length-filter_mono (x ∷ xs) = ground (arith, implied x, length-filter_mono xs)

length-filter-strict :
    (p q : String → Bool)
    → ((x : String) → q x ≡ true → p x ≡ true)
    → (k : String) (xs : List String) → is_in k xs ≡ true
    → p k ≡ true
    → q k ≡ false
    → length (filter q xs) < length (filter p xs)
unfolding filter is_in
length-filter-strict p q implied k [] h hp hq = cc
length-filter-strict p q implied k (x ∷ xs) h hp hq = ground (
  arith,
  eq_iff x k,
  implied x,
  length-filter_mono p q implied xs,
  length-filter-strict p q implied k xs,
)

abbrev pub IsSubset : List String → List String → Type 0
IsSubset xs ys = (k : String) → is_in k xs ≡ true → is_in k ys ≡ true

module _ (xs ys zs : List String) (more : IsSubset ys zs) where
  still : (k : String) → not (is_in k zs) ≡ true → not (is_in k ys) ≡ true
  still k h = ground (arith, more k)

  -- The larger a set is, the less is left of another without it.
  pub minus_mono : length (minus xs zs) ≤ length (minus xs ys)
  unfolding minus
  minus_mono = length-filter_mono (λ x. not (is_in x ys)) (λ x. not (is_in x zs)) still xs

  pub minus-strict :
      (k : String)
      → is_in k xs ≡ true
      → is_in k ys ≡ false
      → is_in k zs ≡ true
      → length (minus xs zs) < length (minus xs ys)
  unfolding minus
  minus-strict k hx hy hz =
      length-filter-strict (λ x. not (is_in x ys)) (λ x. not (is_in x zs)) still k xs hx
        (rw hy refl) (rw hz refl)

pub member_of : (xs : List String) → is_empty xs ≡ false → (k : String) × (is_in k xs ≡ true)
unfolding is_in
member_of [] h = cc
member_of (x ∷ xs) h = (x, rw eq_refl)

pub is_in_empty : (k : String) (xs : List String) → is_empty xs ≡ true → is_in k xs ≡ false
unfolding is_in
is_in_empty k [] h = refl
is_in_empty k (x ∷ xs) h = cc

pub minus-IsDistinct : (xs ys : List String) → IsDistinct xs → IsDistinct (minus xs ys)
unfolding minus filter
minus-IsDistinct [] ys h = tt
minus-IsDistinct (x ∷ xs) ys h = elim (Bool-cases (is_in x ys)) [
  | inl e ↦ rw e (minus-IsDistinct xs ys h.1)
  | inr e ↦ rw e (ground (arith, is_in-minus x xs ys, h.0), minus-IsDistinct xs ys h.1)
]

pub union-IsDistinct : (xs ys : List String) → IsDistinct xs → IsDistinct (union xs ys)
unfolding union add
union-IsDistinct xs [] h = h
union-IsDistinct xs (y ∷ ys) h = elim (Bool-cases (is_in y (union xs ys))) [
  | inl e ↦ rw e (union-IsDistinct xs ys h)
  | inr e ↦ rw e (e, union-IsDistinct xs ys h)
]
