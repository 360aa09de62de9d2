-- ===== src/Persistence/KeyRing.antt =====
-- course_discovery/persistence/encryption.py: which keys `parse_keys` lets through.
use course_discovery_agent.Prelude.{
  String, Bool, true, false, not, ◌&&◌, ◌||◌, List, [], ◌∷◌, ◌≡◌, refl, inl, inr, ◌⊎◌, subst, arith,
  length, All, IsDistinct, eqb, is_empty, lower, ◌==◌, Bool-cases, Option-cases, split, partition,
  strip,
}
use course_discovery_agent.Persistence.Encryption.{
  Bytes, Keys, Result, ok, err, Primitives, colon, comma, is_key_id, key_ids, has_duplicate,
  parse_key, parse_parts, parse_item, parse_items, parse_keys, keys_from_env,
}

abbrev pub IsKey : String × Bytes → Type 0
IsKey k = (is_key_id k.0 ≡ true) × (length k.1 ≡ 32)

-- Well-formed keys of 32 bytes, no two with the same id.
abbrev pub IsKeyRing : Keys → Type 0
IsKeyRing keys = All IsKey keys × IsDistinct (key_ids keys)

distinct_of : (xs : List String) → has_duplicate xs ≡ false → IsDistinct xs
unfolding has_duplicate
distinct_of [] h = tt
distinct_of (x ∷ xs) h = (ground arith, distinct_of xs (ground arith))

module _ {A : Type 0} where
  Result-cases : (r : Result A) → ((a : A) × (r ≡ ok a)) ⊎ ((e : String) × (r ≡ err e))
  Result-cases (ok a) = inl (a, refl)
  Result-cases (err e) = inr (e, refl)

module _ (p : Primitives) where
  parse_key-IsKey :
      (bytes : Bytes) (i : String) (key : String × Bytes)
      → is_key_id i ≡ true
      → parse_key p bytes i ≡ ok key
      → IsKey key
  unfolding parse_key
  parse_key-IsKey bytes i key named h = elim (Bool-cases (eqb (length bytes) 32)) [
    | inl e ↦
        let same : (i, bytes) ≡ key = cc (rw e at h) in subst IsKey same (named, ground (arith, e))
    | inr e ↦ cc (rw e at h)
  ]

  parse_parts-IsKey :
      (parts : String × Bool × String) (key : String × Bytes)
      → parse_parts p parts ≡ ok key
      → IsKey key
  unfolding parse_parts
  parse_parts-IsKey (i, sep, encoded) key h = elim (Bool-cases (not sep || not (is_key_id i))) [
    | inl e ↦ cc (rw e at h)
    | inr e ↦ elim (Option-cases (p.b64decode_strict encoded)) [
      | inl bad ↦ cc (rw (e, bad) at h)
      | inr (bytes, good) ↦ parse_key-IsKey bytes i key (ground arith) (rw (e, good) at h)
    ]
  ]

  parse_items-IsKey :
      (items : List String) (keys : Keys) → parse_items p items ≡ ok keys → All IsKey keys
  unfolding parse_items parse_item
  parse_items-IsKey [] keys h = let same : [] ≡ keys = cc h in subst (All IsKey) same tt
  parse_items-IsKey (item ∷ items) keys h = elim (Bool-cases (strip item == "")) [
    | inl e ↦ parse_items-IsKey items keys (rw e at h)
    | inr e ↦ elim (Result-cases (parse_parts p (partition colon (strip item)))) [
      | inr (_, bad) ↦ cc (rw (e, bad) at h)
      | inl (key, good) ↦ elim (Result-cases (parse_items p items)) [
        | inr (_, bad) ↦ cc (rw (e, good, bad) at h)
        | inl (rest, rest_good) ↦
            let same : (key ∷ rest) ≡ keys = cc (rw (e, good, rest_good) at h) in
            subst (All IsKey) same (
              parse_parts-IsKey (partition colon (strip item)) key good,
              parse_items-IsKey items rest rest_good,
            )
      ]
    ]
  ]

  parse_keys-IsKeyRing :
      (spec : String) (keys : Keys) → parse_keys p spec ≡ ok keys → IsKeyRing keys
  unfolding parse_keys
  parse_keys-IsKeyRing spec keys h = elim (Result-cases (parse_items p (split comma spec))) [
    | inr (_, bad) ↦ cc (rw (bad, parse_keys) at h)
    | inl (all, good) ↦ elim (Bool-cases (has_duplicate (key_ids all))) [
      | inl e ↦ cc (rw (good, parse_keys, e) at h)
      | inr e ↦
          let same : all ≡ keys = cc (rw (good, parse_keys, e) at h) in
          subst IsKeyRing same
            (parse_items-IsKey (split comma spec) all good, distinct_of (key_ids all) e)
    ]
  ]

  -- The keys that the environment gives are well-formed and of 32 bytes, no two have the same id, and
  -- there is one where they are required.
  pub keys_from_env-IsKeyRing :
      (spec required : String) (keys : Keys)
      → keys_from_env p spec required ≡ ok keys
      → IsKeyRing keys × ((is_empty keys && (lower required == "true")) ≡ false)
  unfolding keys_from_env
  keys_from_env-IsKeyRing spec required keys h = elim (Result-cases (parse_keys p spec)) [
    | inr (_, bad) ↦ cc (rw (bad, keys_from_env) at h)
    | inl (all, good) ↦ elim (Bool-cases (is_empty all && (lower required == "true"))) [
      | inl e ↦ cc (rw (good, keys_from_env, e) at h)
      | inr e ↦
          let same : all ≡ keys = cc (rw (good, keys_from_env, e) at h) in
          subst (λ ks. IsKeyRing ks × ((is_empty ks && (lower required == "true")) ≡ false)) same
            (parse_keys-IsKeyRing spec all good, e)
    ]
  ]
