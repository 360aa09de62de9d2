-- ===== src/Prelude/Lists.antt =====
-- Lists over native numbers, comprehensions with Boolean tests, and predicates by recursion.
use Prim.Native.Nat.{ℕ, zero, suc, ◌+◌, ◌≤◌}
use Prim.Native.String.{String, compare}
use mathlib.Core.Path.{◌≡◌, refl}
use mathlib.Core.Logic.{◌⊎◌, inl, inr}
use mathlib.Core.Bool.{Bool, true, false, not, ◌&&◌, ◌||◌}
use mathlib.Core.List.{List, [], ◌∷◌, ◌++◌}
use native.Mathlib.Omega.{arith}
use text.Mathlib.Text.{◌==◌, is_lt}
use text.Mathlib.TextEquality.{eq_iff}
use course_discovery_agent.Prelude.Tests.{Bool-cases, if◌then◌else◌}

module _ {ℓ} {A : Type ℓ} where
  abbrev pub length : List A → ℕ
  length [] = 0
  length (x ∷ xs) = suc (length xs)

  -- `xs[:n]`
  abbrev pub take : ℕ → List A → List A
  take zero xs = []
  take (suc n) [] = []
  take (suc n) (x ∷ xs) = x ∷ take n xs

  abbrev pub drop : ℕ → List A → List A
  drop zero xs = xs
  drop (suc n) [] = []
  drop (suc n) (x ∷ xs) = drop n xs

  -- `[x for x in xs if p(x)]`
  unfoldable pub filter : (A → Bool) → List A → List A
  filter p [] = []
  filter p (x ∷ xs) = let rest = filter p xs in if p x then x ∷ rest else rest

  -- `any(p(x) for x in xs)`
  unfoldable pub any : (A → Bool) → List A → Bool
  any p [] = false
  any p (x ∷ xs) = p x || any p xs

  pub length-append : (xs ys : List A) → length (xs ++ ys) ≡ length xs + length ys
  length-append [] ys = omega arith
  length-append (x ∷ xs) ys = omega (arith, length-append xs ys)

  pub length-take_eq :
      (n : ℕ) (xs ys : List A) → length xs ≡ length ys → length (take n xs) ≡ length (take n ys)
  length-take_eq zero xs ys e = omega arith
  length-take_eq (suc n) [] [] e = refl
  length-take_eq (suc n) [] (y ∷ ys) e = absurd (omega (arith, e))
  length-take_eq (suc n) (x ∷ xs) [] e = absurd (omega (arith, e))
  length-take_eq (suc n) (x ∷ xs) (y ∷ ys) e =
      omega (arith, length-take_eq n xs ys (omega (arith, e)))

  pub take_all : (n : ℕ) (xs : List A) → length xs ≤ n → take n xs ≡ xs
  take_all zero [] h = refl
  take_all zero (x ∷ xs) h = absurd (omega (arith, h))
  take_all (suc n) [] h = refl
  take_all (suc n) (x ∷ xs) h = rw (take_all n xs (omega (arith, h))) refl

  pub length-take : (n : ℕ) (xs : List A) → length (take n xs) ≤ n
  length-take zero xs = omega arith
  length-take (suc n) [] = omega arith
  length-take (suc n) (x ∷ xs) = omega (arith, length-take n xs)

  pub length-filter : (p : A → Bool) (xs : List A) → length (filter p xs) ≤ length xs
  unfolding filter
  length-filter p [] = omega arith
  length-filter p (x ∷ xs) = ground (arith, length-filter p xs)

  -- A predicate of every entry, which computes to tuples.
  abbrev pub All {κ} : (A → Type κ) → List A → Type κ
  All P [] = Unit
  All P (x ∷ xs) = P x × All P xs

  -- How many entries pass a test.
  unfoldable pub count_if : (A → Bool) → List A → ℕ
  count_if p [] = 0
  count_if p (x ∷ xs) = let n = count_if p xs in if p x then suc n else n

  pub count_if-filter : (p q : A → Bool) (xs : List A) → count_if p (filter q xs) ≤ count_if p xs
  unfolding count_if filter
  count_if-filter p q [] = omega arith
  count_if-filter p q (x ∷ xs) = ground (arith, count_if-filter p q xs)

  pub count_if-take : (p : A → Bool) (n : ℕ) (xs : List A) → count_if p (take n xs) ≤ count_if p xs
  unfolding count_if
  count_if-take p zero xs = omega arith
  count_if-take p (suc n) [] = omega arith
  count_if-take p (suc n) (x ∷ xs) = ground (arith, count_if-take p n xs)

module _ {ℓ κ} {A : Type ℓ} (P : A → Type κ) where
  pub All-append : (xs ys : List A) → All P xs → All P ys → All P (xs ++ ys)
  All-append [] ys hx hy = hy
  All-append (x ∷ xs) ys hx hy = (hx.0, All-append xs ys hx.1 hy)

  pub All-take : (n : ℕ) (xs : List A) → All P xs → All P (take n xs)
  All-take zero xs h = tt
  All-take (suc n) [] h = tt
  All-take (suc n) (x ∷ xs) h = (h.0, All-take n xs h.1)

-- `x in xs`
unfoldable pub is_in : String → List String → Bool
is_in k [] = false
is_in k (x ∷ xs) = x == k || is_in k xs

pub is_in-append :
    (k : String) (xs ys : List String) → is_in k (xs ++ ys) ≡ (is_in k xs || is_in k ys)
unfolding is_in
is_in-append k [] ys = refl
is_in-append k (x ∷ xs) ys = ground (arith, is_in-append k xs ys)

module _ {ℓ κ} {A : Type ℓ} (P : A → Type κ) (p : A → Bool) where
  -- A filtered list keeps what held of its entries, and they pass the test.
  pub All-filter : (xs : List A) → All P xs → All (λ x. P x × (p x ≡ true)) (filter p xs)
  unfolding filter
  All-filter [] h = tt
  All-filter (x ∷ xs) h = elim (Bool-cases (p x)) [
    | inl e ↦ rw e ((h.0, e), All-filter xs h.1)
    | inr e ↦ rw e (All-filter xs h.1)
  ]

module _ {ℓ κ μ} {A : Type ℓ} {P : A → Type κ} {Q : A → Type μ} where
  pub All-map : ((x : A) → P x → Q x) → (xs : List A) → All P xs → All Q xs
  All-map f [] h = tt
  All-map f (x ∷ xs) h = (f x h.0, All-map f xs h.1)

module _ {ℓ κ μ} {A : Type ℓ} (P : A → Type κ) (Q : A → Type μ) where
  pub All-both : (xs : List A) → All P xs → All Q xs → All (λ x. P x × Q x) xs
  All-both [] h g = tt
  All-both (x ∷ xs) h g = ((h.0, g.0), All-both xs h.1 g.1)

-- `[x] if p else []`
abbrev pub only {ℓ} : {A : Type ℓ} → Bool → A → List A
only true x = x ∷ []
only false x = []

unique_from : List String → List String → List String
unique_from seen [] = []
unique_from seen (x ∷ xs) =
    let rest = unique_from (x ∷ seen) xs in if is_in x seen then unique_from seen xs else x ∷ rest

-- `list(dict.fromkeys(xs))`: every text once, at its first place.
unfoldable pub unique : List String → List String
unfolding unique_from
unique xs = unique_from [] xs

abbrev pub is_empty {ℓ} : {A : Type ℓ} → List A → Bool
is_empty [] = true
is_empty (x ∷ xs) = false

insert_text : String → List String → List String
insert_text x [] = x ∷ []
insert_text x (y ∷ ys) =
    let rest = insert_text x ys in
    if x == y then y ∷ ys else if is_lt (compare x y) then x ∷ y ∷ ys else y ∷ rest

-- `sorted(set(xs))`
unfoldable pub sorted_set : List String → List String
unfolding insert_text
sorted_set [] = []
sorted_set (x ∷ xs) = insert_text x (sorted_set xs)

-- No text stands twice.
abbrev pub IsDistinct : List String → Type 0
IsDistinct [] = Unit
IsDistinct (x ∷ xs) = (is_in x xs ≡ false) × IsDistinct xs

pub append-IsDistinct :
    (x : String) (xs : List String) → IsDistinct xs → is_in x xs ≡ false → IsDistinct (xs ++ x ∷ [])
unfolding is_in
append-IsDistinct x [] h new = (refl, tt)
append-IsDistinct x (y ∷ ys) h new = (
  ground (arith, is_in-append y ys (x ∷ []), h.0, new, eq_iff x y, eq_iff y x),
  append-IsDistinct x ys h.1 (ground (arith, new)),
)

is_in-insert_text :
    (k x : String) (xs : List String) → is_in k (insert_text x xs) ≡ ((x == k) || is_in k xs)
unfolding insert_text is_in
is_in-insert_text k x [] = refl
is_in-insert_text k x (y ∷ ys) = ground (arith, eq_iff x y, is_in-insert_text k x ys)

pub is_in-sorted_set : (k : String) (xs : List String) → is_in k (sorted_set xs) ≡ is_in k xs
unfolding sorted_set is_in
is_in-sorted_set k [] = refl
is_in-sorted_set k (x ∷ xs) =
    ground (arith, is_in-insert_text k x (sorted_set xs), is_in-sorted_set k xs)

-- An entry of a list.
abbrev pub In : {A : Type 0} → A → List A → Type 0
In x [] = ⊥
In x (y ∷ ys) = (y ≡ x) ⊎ In x ys

module _ {ℓ} {A : Type ℓ} where
  pub take-append : (xs ys : List A) → take (length xs) (xs ++ ys) ≡ xs
  take-append [] ys = refl
  take-append (x ∷ xs) ys = rw (take-append xs ys) refl

  pub drop-append : (xs ys : List A) → drop (length xs) (xs ++ ys) ≡ ys
  drop-append [] ys = refl
  drop-append (x ∷ xs) ys = drop-append xs ys

is_in-unique_from :
    (k : String) (seen xs : List String)
    → is_in k (unique_from seen xs) ≡ (is_in k xs && not (is_in k seen))
unfolding unique_from is_in
is_in-unique_from k seen [] = refl
is_in-unique_from k seen (x ∷ xs) =
    ground (arith, eq_iff x k, is_in-unique_from k seen xs, is_in-unique_from k (x ∷ seen) xs)

unique_from-IsDistinct : (seen xs : List String) → IsDistinct (unique_from seen xs)
unfolding unique_from is_in
unique_from-IsDistinct seen [] = tt
unique_from-IsDistinct seen (x ∷ xs) = elim (Bool-cases (is_in x seen)) [
  | inl e ↦ rw e (unique_from-IsDistinct seen xs)
  | inr e ↦ rw e (
    ground (arith, is_in-unique_from x (x ∷ seen) xs, eq_iff x x),
    unique_from-IsDistinct (x ∷ seen) xs,
  )
]

pub unique-IsDistinct : (xs : List String) → IsDistinct (unique xs)
unfolding unique
unique-IsDistinct xs = unique_from-IsDistinct [] xs

module _ {κ} (P : String → Type κ) where
  All-unique_from : (seen xs : List String) → All P xs → All P (unique_from seen xs)
  unfolding unique_from
  All-unique_from seen [] h = tt
  All-unique_from seen (x ∷ xs) h = elim (Bool-cases (is_in x seen)) [
    | inl e ↦ rw e (All-unique_from seen xs h.1)
    | inr e ↦ rw e (h.0, All-unique_from (x ∷ seen) xs h.1)
  ]

  pub All-unique : (xs : List String) → All P xs → All P (unique xs)
  unfolding unique
  All-unique xs h = All-unique_from [] xs h
