-- ===== src/Persistence/Encryption.antt =====
-- course_discovery/persistence/encryption.py: the keys, the cipher, and the sealed values of a
-- checkpoint. The AES-GCM primitive, UTF-8, base64 and the random nonce are parameters (`Primitives`).
use course_discovery_agent.Prelude.{
  ℕ, String, Bool, true, false, not, ◌&&◌, ◌||◌, Option, none, some, List, [], ◌∷◌, ◌++◌, ◌<>◌,
  ◌==◌, if◌then◌else◌, length, take, drop, partition, split, all_chars, strip, drop_chars,
  starts_with, eqb, leb, is_in, is_empty, lower,
}
use course_discovery_agent.Prelude.Dict.{Dict, get, put}

abbrev pub Bytes : Type 0
Bytes = List ℕ

abbrev pub Keys : Type 0
Keys = List (String × Bytes)

-- `EncryptionConfigError` and the other exceptions are `err`, with a message.
pub data Result (A : Type 0) : Type 0 where
  ok : A → Result A
  err : String → Result A

-- The libraries that the module calls; `none` stands for an exception of theirs. `b64decode_strict`
-- is `b64decode` with `validate=True`.
pub record Primitives : Type 0 where
  pub seal : Bytes → Bytes → Bytes → Bytes
  pub unseal : Bytes → Bytes → Bytes → Option Bytes
  pub encode : String → Bytes
  pub decode : Bytes → Option String
  pub b64encode : Bytes → String
  pub b64decode : String → Option Bytes
  pub b64decode_strict : String → Option Bytes

abbrev pub cipher_prefix : String
cipher_prefix = "aesgcm."

abbrev pub inline_prefix : String
inline_prefix = "enc:v1:"

abbrev pub colon : ℕ
colon = 58

abbrev pub comma : ℕ
comma = 44

-- `[A-Za-z0-9_-]`
unfoldable pub is_key_char : ℕ → Bool
is_key_char c =
    (leb 65 c && leb c 90)
    || (leb 97 c && leb c 122)
    || (leb 48 c && leb c 57)
    || eqb c 95
    || eqb c 45

-- `_KEY_ID.fullmatch(key_id)`
unfoldable pub is_key_id : String → Bool
is_key_id s = not (s == "") && all_chars is_key_char s

unfoldable pub key_ids : Keys → List String
key_ids [] = []
key_ids ((i, k) ∷ ks) = i ∷ key_ids ks

unfoldable pub has_duplicate : List String → Bool
has_duplicate [] = false
has_duplicate (x ∷ xs) = is_in x xs || has_duplicate xs

-- The keys that `AESGCM` takes; it raises on another.
unfoldable pub is_aes_key : Bytes → Bool
is_aes_key key = eqb (length key) 16 || eqb (length key) 24 || eqb (length key) 32

unfoldable pub are_aes_keys : Keys → Bool
are_aes_keys [] = true
are_aes_keys ((i, k) ∷ ks) = is_aes_key k && are_aes_keys ks

-- `AesGcmCipher.__init__`. The methods below take the keys of a cipher that was made.
unfoldable pub make_cipher : Keys → Option Keys
make_cipher [] = none
make_cipher (k ∷ ks) = if are_aes_keys (k ∷ ks) then some (k ∷ ks) else none

-- `self._aead`: a later key with the same id replaces an earlier one.
unfoldable pub aead_from : Keys → Dict Bytes → Dict Bytes
aead_from [] table = table
aead_from ((i, k) ∷ ks) table = aead_from ks (put i k table)

unfoldable pub aead : Keys → Dict Bytes
aead keys = aead_from keys []

unfoldable pub remove_cipher_prefix : String → String
remove_cipher_prefix s = if starts_with s cipher_prefix then drop_chars 7 s else s

unfoldable pub remove_inline_prefix : String → String
remove_inline_prefix s = if starts_with s inline_prefix then drop_chars 7 s else s

module _ (p : Primitives) where
  unfoldable pub parse_key : Bytes → String → Result (String × Bytes)
  parse_key bytes i =
      if eqb (length bytes) 32
      then ok (i, bytes)
      else err ("key '" <> (i <> "' must decode to 32 bytes"))

  -- What is made of the parts that `partition` returns.
  unfoldable pub parse_parts : String × Bool × String → Result (String × Bytes)
  parse_parts (i, sep, encoded) =
      if not sep || not (is_key_id i)
      then err "CHECKPOINT_ENCRYPTION_KEYS entries must look like <id>:<base64 key>"
      else elim (p.b64decode_strict encoded) [
        | none ↦ err "binascii.Error"
        | some bytes ↦ parse_key bytes i
      ]

  unfoldable pub parse_item : String → Result (String × Bytes)
  parse_item item = parse_parts (partition colon item)

  unfoldable pub parse_items : List String → Result Keys
  parse_items [] = ok []
  parse_items (item ∷ items) =
      let rest = parse_items items in
      if strip item == "" then rest else elim (parse_item (strip item)) [
        | err e ↦ err e
        | ok key ↦ elim rest [ err e ↦ err e | ok keys ↦ ok (key ∷ keys) ]
      ]

  unfoldable pub parse_keys : String → Result Keys
  parse_keys spec = elim (parse_items (split comma spec)) [
    | err e ↦ err e
    | ok keys ↦
        if has_duplicate (key_ids keys)
        then err "CHECKPOINT_ENCRYPTION_KEYS contains a duplicate key id"
        else ok keys
  ]

  -- The two environment variables; an absent one is the empty text.
  unfoldable pub keys_from_env : String → String → Result Keys
  keys_from_env spec required = elim (parse_keys spec) [
    | err e ↦ err e
    | ok keys ↦
        if is_empty keys && (lower required == "true")
        then err "CHECKPOINT_ENCRYPTION_REQUIRED=true but CHECKPOINT_ENCRYPTION_KEYS is not set"
        else ok keys
  ]

  -- `nonce` is what `os.urandom(12)` returns. `none` is the exception of a cipher without a key.
  unfoldable pub encrypt : Keys → Bytes → Bytes → Option (String × Bytes)
  encrypt [] nonce plaintext = none
  encrypt ((i, k) ∷ ks) nonce plaintext = elim (get i (aead ((i, k) ∷ ks))) [
    | none ↦ none
    | some key ↦ some (cipher_prefix <> i, nonce ++ p.seal key nonce plaintext)
  ]

  unfoldable pub decrypt : Keys → String → Bytes → Option Bytes
  decrypt keys name ciphertext = elim (get (remove_cipher_prefix name) (aead keys)) [
    | none ↦ none
    | some key ↦
        if starts_with name cipher_prefix
        then p.unseal key (take 12 ciphertext) (drop 12 ciphertext)
        else none
  ]

  unfoldable pub seal_text : Keys → Bytes → String → Option String
  seal_text keys nonce text = elim (encrypt keys nonce (p.encode text)) [
    | none ↦ none
    | some (name, blob) ↦ some (inline_prefix <> (name <> (":" <> p.b64encode blob)))
  ]

  -- What `open_text` does with the parts that `partition` returns.
  unfoldable pub open_parts : Keys → String × Bool × String → Option String
  open_parts keys (name, sep, encoded) = elim (p.b64decode encoded) [
    | none ↦ none
    | some blob ↦ elim (decrypt keys name blob) [ none ↦ none | some bytes ↦ p.decode bytes ]
  ]

  unfoldable pub open_text : Keys → String → Option String
  open_text keys sealed = open_parts keys (partition colon (remove_inline_prefix sealed))
