-- ===== src/Tests/Persistence.antt =====
-- Runs of the sealed checkpoints: course_discovery/persistence/encryption.py.
use course_discovery_agent.Prelude.{
  all_chars, split, partition, strip, is_in, ℕ, String, arith, length, ◌≤◌, true, false, none, some,
  [], ◌∷◌, ◌≡◌, refl, Option, is_empty, lower, ◌==◌, ◌&&◌,
}
use course_discovery_agent.Persistence.Encryption.{
  Bytes, Keys, ok, keys_from_env, is_key_id, is_key_char, make_cipher, are_aes_keys, is_aes_key,
  parse_keys, parse_items, parse_item, parse_parts, parse_key, key_ids, has_duplicate,
}
use course_discovery_agent.Persistence.KeyRing.{IsKeyRing, keys_from_env-IsKeyRing}
use course_discovery_agent.Persistence.Checkpoints.{
  str, str_subclass, other, Checkpoint, put, get_tuple,
}
use course_discovery_agent.Persistence.Sealing.{max_plain}
use course_discovery_agent.Persistence.RoundTrip.{IsSealed, AllValues, get_tuple-put}
use course_discovery_agent.Tests.Codec.{primitives, primitives-Laws, encode, read}

abbrev nonce : Bytes
nonce = 1 ∷ 2 ∷ 3 ∷ 4 ∷ 5 ∷ 6 ∷ 7 ∷ 8 ∷ 9 ∷ 10 ∷ 11 ∷ 12 ∷ []

abbrev checkpoint : Checkpoint ℕ ℕ
checkpoint = record {
  channel_values =
      ("user_query", str "enc:v1: python")
      ∷ ("routing_decision", str_subclass "publish")
      ∷ ("research_pass", other 0)
      ∷ [];
  rest = 7;
}

-- A saver with room for one checkpoint.
abbrev One : Type 0
One = Option (Checkpoint ℕ ℕ)

abbrev one_put : String → Checkpoint ℕ ℕ → One → One
one_put config c s = some c

abbrev one_get : String → One → Option (Checkpoint ℕ ℕ)
one_get config s = s

abbrev zeros : Bytes
zeros =
    0 ∷ 0 ∷ 0 ∷ 0 ∷ 0 ∷ 0 ∷ 0 ∷ 0 ∷ 0 ∷ 0 ∷ 0 ∷ 0 ∷ 0 ∷ 0 ∷ 0 ∷ 0 ∷ 0 ∷ 0 ∷ 0 ∷ 0 ∷ 0 ∷ 0 ∷ 0 ∷ 0
    ∷ 0 ∷ 0 ∷ 0 ∷ 0 ∷ 0 ∷ 0 ∷ 0 ∷ 0 ∷ []

abbrev keys : Keys
keys = ("k1", zeros) ∷ []

k1_named : is_key_id "k1" ≡ true
unfolding is_key_id is_key_char all_chars
k1_named = refl

cipher_made : make_cipher (("k2", zeros) ∷ keys) ≡ some (("k2", zeros) ∷ keys)
unfolding make_cipher are_aes_keys is_aes_key
cipher_made = refl

text_fits : length (encode "enc:v1: python") ≤ max_plain
unfolding encode
text_fits = omega arith

get_tuple-put_example :
    (sealed : Checkpoint ℕ ℕ) × (put primitives one_put one_get keys
        (λ m. nonce)
        "thread"
        checkpoint
        none
      ≡ some (one_put "thread" sealed none))
    × AllValues IsSealed sealed.channel_values
    × (get_tuple primitives one_put one_get
          (("k2", zeros) ∷ keys)
          "thread"
          (one_put "thread" sealed none)
        ≡ some (some checkpoint))
get_tuple-put_example =
    get_tuple-put primitives primitives-Laws one_put one_get (λ config c s. refl) "k1" zeros []
      (("k2", zeros) ∷ []) (λ m. nonce) "thread" checkpoint none k1_named cipher_made (λ m. refl)
      (text_fits, (refl, (tt, tt)))

abbrev spec : String
spec = " k1:bbbbbbbbbbbbbbbbbbbbbbbbbbbbbbbb, "

keys_read : keys_from_env primitives spec "TRUE" ≡ ok (("k1", zeros) ∷ [])
unfolding keys_from_env parse_keys parse_items parse_item parse_parts parse_key key_ids
    has_duplicate is_key_id is_key_char all_chars split partition strip lower read is_in
keys_read = refl

keys_from_env-IsKeyRing_example :
    IsKeyRing (("k1", zeros) ∷ [])
    × ((is_empty {A = String × Bytes} (("k1", zeros) ∷ []) && (lower "TRUE" == "true")) ≡ false)
keys_from_env-IsKeyRing_example =
    keys_from_env-IsKeyRing primitives spec "TRUE" (("k1", zeros) ∷ []) keys_read
