-- ===== src/Prelude/Dict.antt =====
-- Python's `dict` with text keys, as the list of its items in insertion order.
use course_discovery_agent.Prelude.Tests.{Bool-cases, if◌then◌else◌}
use mathlib.Core.Path.{◌≡◌, refl}
use mathlib.Core.Logic.{inl, inr}
use mathlib.Core.Bool.{Bool}
use mathlib.Core.Option.{Option, none, some}
use mathlib.Core.List.{List, [], ◌∷◌}
use native.Mathlib.Omega.{arith}
use Prim.Native.String.{String}
use text.Mathlib.Text.{◌==◌}
use text.Mathlib.TextEquality.{eq_iff}
use text.Mathlib.TextPositions.{eq_refl}
use course_discovery_agent.Prelude.Lists.{All}

abbrev pub Dict {ℓ} : Type ℓ → Type ℓ
Dict V = List (String × V)

module _ {ℓ} {V : Type ℓ} where
  -- `d.get(k)`
  unfoldable pub get : String → Dict V → Option V
  get k [] = none
  get k ((j, v) ∷ d) = if j == k then some v else get k d

  -- `d[k] = v`: an existing key keeps its place.
  unfoldable pub put : String → V → Dict V → Dict V
  put k v [] = (k, v) ∷ []
  put k v ((j, w) ∷ d) = if j == k then (j, v) ∷ d else (j, w) ∷ put k v d

  -- `d.values()`
  unfoldable pub values : Dict V → List V
  values [] = []
  values ((j, v) ∷ d) = v ∷ values d

  -- The items that pass a test.
  unfoldable pub keep : (String → V → Bool) → Dict V → Dict V
  keep p [] = []
  keep p ((j, v) ∷ d) = let rest = keep p d in if p j v then (j, v) ∷ rest else rest

  pub get-put :
      (k j : String) (v : V) (d : Dict V) → get j (put k v d) ≡ (if k == j then some v else get j d)
  unfolding get put
  get-put k j v [] = refl
  get-put k j v ((i, w) ∷ d) = ground (arith, eq_iff k j, eq_iff i k, eq_iff i j, get-put k j v d)

-- The item under a key, if there is one and it passes the test.
abbrev pub only_if {ℓ} : {V : Type ℓ} → (V → Bool) → Option V → Option V
only_if p none = none
only_if p (some v) = if p v then some v else none

-- No key stands twice.
abbrev pub IsAbsent {ℓ} : {V : Type ℓ} → String → Dict V → Type ℓ
IsAbsent k d = get k d ≡ none

abbrev pub IsDict {ℓ} : {V : Type ℓ} → Dict V → Type ℓ
IsDict [] = Unit
IsDict ((j, v) ∷ d) = (get j d ≡ none) × IsDict d

module _ {ℓ} {V : Type ℓ} where
  keep-IsAbsent :
      (p : String → V → Bool) (k : String) (d : Dict V) → IsAbsent k d → IsAbsent k (keep p d)
  unfolding keep get
  keep-IsAbsent p k [] h = refl
  keep-IsAbsent p k ((j, v) ∷ d) h = ground (arith, keep-IsAbsent p k d)

  pub keep-IsDict : (p : String → V → Bool) (d : Dict V) → IsDict d → IsDict (keep p d)
  unfolding keep
  keep-IsDict p [] h = tt
  keep-IsDict p ((j, v) ∷ d) h = elim (Bool-cases (p j v)) [
    | inl e ↦ rw e (keep-IsAbsent p j d h.0, keep-IsDict p d h.1)
    | inr e ↦ rw e (keep-IsDict p d h.1)
  ]

  pub get-keep :
      (p : String → V → Bool) (k : String) (d : Dict V)
      → IsDict d
      → get k (keep p d) ≡ only_if (p k) (get k d)
  unfolding keep get
  get-keep p k [] h = refl
  get-keep p k ((j, v) ∷ d) h =
      ground (arith, eq_iff j k, keep-IsAbsent p j d h.0, get-keep p k d h.1)

  pub put-IsDict : (k : String) (v : V) (d : Dict V) → IsDict d → IsDict (put k v d)
  unfolding put get
  put-IsDict k v [] h = (refl, tt)
  put-IsDict k v ((j, w) ∷ d) h = elim (Bool-cases (j == k)) [
    | inl e ↦ rw e h
    | inr e ↦ rw e (ground (arith, get-put k j v d, eq_iff j k, eq_iff k j), put-IsDict k v d h.1)
  ]

  -- Every item that a dictionary lists is the one that its key finds.
  all_found :
      (d e : Dict V)
      → IsDict d
      → ((k : String) (v : V) → get k d ≡ some v → get k e ≡ some v)
      → All (λ v. (k : String) × (get k e ≡ some v)) (values d)
  unfolding values get
  all_found [] e h f = tt
  all_found ((j, v) ∷ d) e h f =
      ((j, f j v (rw eq_refl)), all_found d e h.1 (λ k w found. f k w (ground (arith, eq_iff j k))))

  pub All-values : (d : Dict V) → IsDict d → All (λ v. (k : String) × (get k d ≡ some v)) (values d)
  All-values d h = all_found d d h (λ k v e. e)
