-- ===== src/Persistence/Checkpoints.antt =====
-- course_discovery/persistence/encryption.py: `_seal_checkpoint`, `_open_tuple` and the `SealingSaver`
-- over any saver. A saver keeps one checkpoint for each configuration here, and its `put` and
-- `get_tuple` are parameters. `none` stands for an exception.
use course_discovery_agent.Prelude.{
  ℕ, suc, String, Option, none, some, [], ◌∷◌, starts_with, if◌then◌else◌,
}
use course_discovery_agent.Prelude.Dict.{Dict}
use course_discovery_agent.Persistence.Encryption.{
  Bytes, Keys, Primitives, inline_prefix, seal_text, open_text,
}

-- A channel's value: a `str`, a value of a subclass of `str`, such as an enumeration, or another.
pub data Value (A : Type 0) : Type 0 where
  str : String → Value A
  str_subclass : String → Value A
  other : A → Value A

pub record Checkpoint (A R : Type 0) : Type 0 where
  pub channel_values : Dict (Value A)
  pub rest : R

module _ (p : Primitives) {A : Type 0} where
  -- `type(value) is str`
  unfoldable pub seal_value : Keys → Bytes → Value A → Option (Value A)
  seal_value keys nonce (str s) = elim (seal_text p keys nonce s) [
    | none ↦ none
    | some sealed ↦ some (str sealed)
  ]
  seal_value keys nonce (str_subclass s) = some (str_subclass s)
  seal_value keys nonce (other a) = some (other a)

  unfoldable pub open_if_sealed : Keys → String → Value A → Option (Value A)
  open_if_sealed keys s value =
      if starts_with s inline_prefix
      then elim (open_text p keys s) [ none ↦ none | some text ↦ some (str text) ]
      else some value

  -- `isinstance(value, str)`
  unfoldable pub open_value : Keys → Value A → Option (Value A)
  open_value keys (str s) = open_if_sealed keys s (str s)
  open_value keys (str_subclass s) = open_if_sealed keys s (str_subclass s)
  open_value keys (other a) = some (other a)

  -- The nonces are those that `os.urandom` returns, call by call.
  unfoldable pub seal_values : Keys → (ℕ → Bytes) → ℕ → Dict (Value A) → Option (Dict (Value A))
  seal_values keys nonces n [] = some []
  seal_values keys nonces n ((name, v) ∷ values) = elim (seal_value keys (nonces n) v) [
    | none ↦ none
    | some w ↦ elim (seal_values keys nonces (suc n) values) [
      | none ↦ none
      | some ws ↦ some ((name, w) ∷ ws)
    ]
  ]

  unfoldable pub open_values : Keys → Dict (Value A) → Option (Dict (Value A))
  open_values keys [] = some []
  open_values keys ((name, v) ∷ values) = elim (open_value keys v) [
    | none ↦ none
    | some w ↦ elim (open_values keys values) [ none ↦ none | some ws ↦ some ((name, w) ∷ ws) ]
  ]

module _ (p : Primitives) {A R : Type 0} where
  unfoldable pub seal_checkpoint : Keys → (ℕ → Bytes) → Checkpoint A R → Option (Checkpoint A R)
  seal_checkpoint keys nonces c = elim (seal_values p keys nonces 0 c.channel_values) [
    | none ↦ none
    | some values ↦ some (record c { channel_values = values })
  ]

  unfoldable pub open_checkpoint : Keys → Checkpoint A R → Option (Checkpoint A R)
  open_checkpoint keys c = elim (open_values p keys c.channel_values) [
    | none ↦ none
    | some values ↦ some (record c { channel_values = values })
  ]

  -- `_open_tuple`: the inner `none` is a checkpoint that is not there.
  unfoldable pub open_tuple : Keys → Option (Checkpoint A R) → Option (Option (Checkpoint A R))
  open_tuple keys none = some none
  open_tuple keys (some c) = elim (open_checkpoint keys c) [
    | none ↦ none
    | some opened ↦ some (some opened)
  ]

  module _ {S : Type 0} (inner_put : String → Checkpoint A R → S → S)
      (inner_get : String → S → Option (Checkpoint A R)) where
    unfoldable pub put : Keys → (ℕ → Bytes) → String → Checkpoint A R → S → Option S
    put keys nonces config c s = elim (seal_checkpoint keys nonces c) [
      | none ↦ none
      | some sealed ↦ some (inner_put config sealed s)
    ]

    unfoldable pub get_tuple : Keys → String → S → Option (Option (Checkpoint A R))
    get_tuple keys config s = open_tuple keys (inner_get config s)
