-- ===== src/Persistence/RoundTrip.antt =====
-- course_discovery/persistence/encryption.py: a checkpoint that a `SealingSaver` puts is the one that it
-- gets, and the saver below it sees no text of it.
use course_discovery_agent.Prelude.{
  ℕ, suc, String, true, false, Option, some, [], ◌∷◌, ◌++◌, ◌≡◌, ◌≤◌, refl, starts_with, length,
  All,
}
use course_discovery_agent.Prelude.Dict.{Dict}
use course_discovery_agent.Persistence.Encryption.{
  Bytes, Keys, Primitives, inline_prefix, is_key_id, make_cipher,
}
use course_discovery_agent.Persistence.Sealing.{Laws, max_plain, open_text-seal_text}
use course_discovery_agent.Persistence.Checkpoints.{
  Value, str, str_subclass, other, Checkpoint, seal_value, open_if_sealed, open_value, seal_values,
  open_values, seal_checkpoint, open_checkpoint, open_tuple, put, get_tuple,
}

-- A `str` is not too long for the cipher, and a value of a subclass of `str` does not look like a sealed
-- text.
abbrev pub IsPlain : Primitives → {A : Type 0} → Value A → Type 0
IsPlain p (str s) = length (p.encode s) ≤ max_plain
IsPlain p (str_subclass s) = starts_with s inline_prefix ≡ false
IsPlain p (other a) = Unit

-- A `str` is sealed.
abbrev pub IsSealed : {A : Type 0} → Value A → Type 0
IsSealed (str s) = starts_with s inline_prefix ≡ true
IsSealed (str_subclass s) = Unit
IsSealed (other a) = Unit

-- The values of a dictionary, with a predicate of each.
abbrev pub AllValues : {A : Type 0} → (Value A → Type 0) → Dict (Value A) → Type 0
AllValues P values = All (λ v. P v.1) values

module _ (p : Primitives) (laws : Laws p) {A : Type 0} (i : String) (k : Bytes) (ks newer : Keys)
    (named : is_key_id i ≡ true)
    (made : make_cipher (newer ++ (i, k) ∷ ks) ≡ some (newer ++ (i, k) ∷ ks)) where
  open_value-seal_value :
      (nonce : Bytes) (v : Value A)
      → length nonce ≡ 12
      → IsPlain p v
      → (w : Value A) × (seal_value p ((i, k) ∷ ks) nonce v ≡ some w)
        × (open_value p (newer ++ (i, k) ∷ ks) w ≡ some v)
        × IsSealed w
  unfolding seal_value open_value open_if_sealed
  open_value-seal_value nonce (str s) size plain =
      let (sealed, done, starts, back) =
        open_text-seal_text p laws i k ks newer nonce s named made size plain in
      (str sealed, rw (done, seal_value) refl, rw (starts, back, open_if_sealed) refl, starts)
  open_value-seal_value nonce (str_subclass s) size plain =
      (str_subclass s, refl, rw plain refl, tt)
  open_value-seal_value nonce (other a) size plain = (other a, refl, refl, tt)

  open_values-seal_values :
      (nonces : ℕ → Bytes) (n : ℕ) (values : Dict (Value A))
      → ((m : ℕ) → length (nonces m) ≡ 12)
      → AllValues (IsPlain p) values
      → (sealed : Dict (Value A)) × (seal_values p ((i, k) ∷ ks) nonces n values ≡ some sealed)
        × (open_values p (newer ++ (i, k) ∷ ks) sealed ≡ some values)
        × AllValues IsSealed sealed
  unfolding seal_values open_values
  open_values-seal_values nonces n [] sizes plain = ([], refl, refl, tt)
  open_values-seal_values nonces n ((name, v) ∷ values) sizes plain =
      let (w, sealed, opened, hidden) = open_value-seal_value (nonces n) v (sizes n) plain.0 in
      let (ws, rest, opens, hides) = open_values-seal_values nonces (suc n) values sizes plain.1 in
      (
        (name, w) ∷ ws,
        rw (sealed, rest, seal_values) refl,
        rw (opened, opens, open_values) refl,
        (hidden, hides),
      )

module _ (p : Primitives) (laws : Laws p) {A R S : Type 0}
    (inner_put : String → Checkpoint A R → S → S) (inner_get : String → S → Option (Checkpoint A R))
    (keeps : (config : String) (c : Checkpoint A R) (s : S)
      → inner_get config (inner_put config c s) ≡ some c) where
  -- Where the saver below returns the checkpoint that it was given, a cipher can be made of the keys, the
  -- first of those that seal has a well-formed id, the nonces have 12 bytes, no text is longer than
  -- AES-GCM takes, and no value of a subclass of `str` looks sealed, a checkpoint can be put; the saver
  -- below is given none of its texts unsealed, and what is then got, with the same keys or with others in
  -- front of them, is the checkpoint itself.
  pub get_tuple-put :
      (i : String) (k : Bytes) (ks newer : Keys) (nonces : ℕ → Bytes) (config : String)
      (c : Checkpoint A R) (s : S)
      → is_key_id i ≡ true
      → make_cipher (newer ++ (i, k) ∷ ks) ≡ some (newer ++ (i, k) ∷ ks)
      → ((m : ℕ) → length (nonces m) ≡ 12)
      → AllValues (IsPlain p) c.channel_values
      → (sealed : Checkpoint A R) × (put p inner_put inner_get ((i, k) ∷ ks) nonces config c s
          ≡ some (inner_put config sealed s))
        × AllValues IsSealed sealed.channel_values
        × (get_tuple p inner_put inner_get (newer ++ (i, k) ∷ ks) config (inner_put config sealed s)
            ≡ some (some c))
  unfolding put get_tuple seal_checkpoint open_tuple open_checkpoint
  get_tuple-put i k ks newer nonces config c s named made sizes plain =
      let (values, sealed, opened, hidden) =
        open_values-seal_values p laws i k ks newer named made nonces 0 c.channel_values sizes
          plain in
      let stored = record c { channel_values = values } in
      (
        stored,
        rw (sealed, put) refl,
        hidden,
        rw (keeps config stored s) (rw (opened, open_tuple) refl),
      )
