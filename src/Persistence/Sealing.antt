-- ===== src/Persistence/Sealing.antt =====
-- course_discovery/persistence/encryption.py: what is sealed can be opened, also after a rotation of
-- the keys.
use course_discovery_agent.Prelude.{
  ℕ, String, true, false, not, some, [], ◌∷◌, ◌++◌, ◌<>◌, ◌≡◌, ◌≤◌, refl, inl, inr, arith, eq_refl,
  length, take, drop, partition, all_chars, drop_chars, chars, starts_with, eqb, drop_chars-append,
  partition-append, char-append, all_chars-append, all_chars_mono, take-append, drop-append, is_in,
  Bool-cases, sym, ◌∙◌, subst,
}
use course_discovery_agent.Prelude.Dict.{Dict, get, put, get-put}
use text.Mathlib.TextPositions.{starts_with-append}
use course_discovery_agent.Persistence.Encryption.{
  Bytes, Keys, Primitives, cipher_prefix, inline_prefix, colon, is_key_char, is_key_id, key_ids,
  is_aes_key, are_aes_keys, make_cipher, aead_from, aead, remove_cipher_prefix,
  remove_inline_prefix, encrypt, decrypt, seal_text, open_text, open_parts,
}

removed_cipher : (i : String) → remove_cipher_prefix (cipher_prefix <> i) ≡ i
unfolding remove_cipher_prefix drop_chars chars
removed_cipher i = rw (starts_with-append cipher_prefix i) (drop_chars-append cipher_prefix i)

removed_inline : (i : String) → remove_inline_prefix (inline_prefix <> i) ≡ i
unfolding remove_inline_prefix drop_chars chars
removed_inline i = rw (starts_with-append inline_prefix i) (drop_chars-append inline_prefix i)

-- `AESGCM` seals at most this many bytes.
abbrev pub max_plain : ℕ
max_plain = 2147483647

-- What the module relies on of its libraries: what they make, they read back.
pub record Laws (p : Primitives) : Type 0 where
  pub unseal_seal :
      (key nonce plain : Bytes)
      → is_aes_key key ≡ true
      → length nonce ≡ 12
      → length plain ≤ max_plain
      → p.unseal key nonce (p.seal key nonce plain) ≡ some plain
  pub decode_encode : (text : String) → p.decode (p.encode text) ≡ some text
  pub b64decode_b64encode : (blob : Bytes) → p.b64decode (p.b64encode blob) ≡ some blob

key_char_lem : (c : ℕ) → is_key_char c ≡ true → not (eqb c colon) ≡ true
unfolding is_key_char
key_char_lem c h = ground arith

-- The name of a cipher ends at the colon that `seal_text` puts behind it.
partition-name :
    (i rest : String)
    → is_key_id i ≡ true
    → partition colon ((cipher_prefix <> i) <> (":" <> rest)) ≡ (cipher_prefix <> i, true, rest)
unfolding is_key_id all_chars
partition-name i rest h = rw (char-append ":" rest) (
    partition-append colon ":" (cipher_prefix <> i) rest refl (
      rw (all_chars-append (λ d. not (eqb d colon)) cipher_prefix i)
        (all_chars_mono is_key_char (λ d. not (eqb d colon)) key_char_lem i (ground arith))))

aead_from-other :
    (i : String) (ks : Keys) (table : Dict Bytes)
    → is_in i (key_ids ks) ≡ false
    → get i (aead_from ks table) ≡ get i table
unfolding aead_from key_ids is_in
aead_from-other i [] table h = refl
aead_from-other i ((j, k) ∷ ks) table h =
    aead_from-other i ks (put j k table) (ground arith) ∙ ground (arith, get-put j i k table)

-- The key of an id that a list of keys has does not depend on the keys before it.
aead_from-own :
    (i : String) (ks : Keys) (t u : Dict Bytes)
    → is_in i (key_ids ks) ≡ true
    → get i (aead_from ks t) ≡ get i (aead_from ks u)
unfolding aead_from key_ids is_in
aead_from-own i [] t u h = cc
aead_from-own i ((j, k) ∷ ks) t u h = elim (Bool-cases (is_in i (key_ids ks))) [
  | inl e ↦ aead_from-own i ks (put j k t) (put j k u) e
  | inr e ↦
      aead_from-other i ks (put j k t) e
      ∙ (ground (arith, get-put j i k t, get-put j i k u)
          ∙ sym (aead_from-other i ks (put j k u) e))
]

aead_from-append :
    (newer keys : Keys) (t : Dict Bytes)
    → aead_from (newer ++ keys) t ≡ aead_from keys (aead_from newer t)
unfolding aead_from
aead_from-append [] keys t = refl
aead_from-append ((j, k) ∷ newer) keys t = aead_from-append newer keys (put j k t)

aead_total :
    (i : String) (ks : Keys) (t : Dict Bytes)
    → is_in i (key_ids ks) ≡ true
    → are_aes_keys ks ≡ true
    → (k : Bytes) × (get i (aead_from ks t) ≡ some k) × (is_aes_key k ≡ true)
unfolding aead_from key_ids is_in are_aes_keys
aead_total i [] t h strong = cc
aead_total i ((j, k) ∷ ks) t h strong = elim (Bool-cases (is_in i (key_ids ks))) [
  | inl e ↦ aead_total i ks (put j k t) e (ground (arith, strong))
  | inr e ↦ (
    k,
    aead_from-other i ks (put j k t) e ∙ ground (arith, get-put j i k t),
    ground (arith, strong),
  )
]

are_aes_keys-append :
    (newer keys : Keys) → are_aes_keys (newer ++ keys) ≡ true → are_aes_keys keys ≡ true
unfolding are_aes_keys
are_aes_keys-append [] keys h = h
are_aes_keys-append ((j, k) ∷ newer) keys h = are_aes_keys-append newer keys (ground (arith, h))

-- The keys of a cipher that could be made.
make_cipher-keys : (ks : Keys) → make_cipher ks ≡ some ks → are_aes_keys ks ≡ true
unfolding make_cipher
make_cipher-keys [] h = absurd cc
make_cipher-keys (k ∷ ks) h = elim (Bool-cases (are_aes_keys (k ∷ ks))) [
  | inl e ↦ e
  | inr e ↦ absurd cc (rw e at h)
]

own_id : (i : String) (k : Bytes) (ks : Keys) → is_in i (key_ids ((i, k) ∷ ks)) ≡ true
unfolding is_in key_ids
own_id i k ks = rw (eq_refl) refl

module _ (p : Primitives) (laws : Laws p) where
  decrypt_sealed :
      (keys : Keys) (key nonce : Bytes) (i : String) (plain : Bytes)
      → get i (aead keys) ≡ some key
      → is_aes_key key ≡ true
      → length nonce ≡ 12
      → length plain ≤ max_plain
      → decrypt p keys (cipher_prefix <> i) (nonce ++ p.seal key nonce plain) ≡ some plain
  unfolding decrypt
  decrypt_sealed keys key nonce i plain found strong size small =
      let front : take 12 (nonce ++ p.seal key nonce plain) ≡ nonce =
        subst (λ n. take n (nonce ++ p.seal key nonce plain) ≡ nonce) size
          (take-append nonce (p.seal key nonce plain)) in
      let back : drop 12 (nonce ++ p.seal key nonce plain) ≡ p.seal key nonce plain =
        subst (λ n. drop n (nonce ++ p.seal key nonce plain) ≡ p.seal key nonce plain) size
          (drop-append nonce (p.seal key nonce plain)) in
      rw (removed_cipher i, found, decrypt, starts_with-append cipher_prefix i, front, back)
        (laws.unseal_seal key nonce plain strong size small)

  open_sealed_parts :
      (keys : Keys) (key nonce : Bytes) (i text : String)
      → get i (aead keys) ≡ some key
      → is_aes_key key ≡ true
      → length nonce ≡ 12
      → length (p.encode text) ≤ max_plain
      → open_parts p keys
          (cipher_prefix <> i, true, p.b64encode (nonce ++ p.seal key nonce (p.encode text)))
        ≡ some text
  unfolding open_parts
  open_sealed_parts keys key nonce i text found strong size small =
      rw
        (
          laws.b64decode_b64encode (nonce ++ p.seal key nonce (p.encode text)),
          open_parts,
          decrypt_sealed keys key nonce i (p.encode text) found strong size small,
        )
        (laws.decode_encode text)

  open_sealed :
      (keys : Keys) (key nonce : Bytes) (i text : String)
      → is_key_id i ≡ true
      → get i (aead keys) ≡ some key
      → is_aes_key key ≡ true
      → length nonce ≡ 12
      → length (p.encode text) ≤ max_plain
      → open_text p keys (
          inline_prefix
          <> ((cipher_prefix <> i)
              <> (":" <> p.b64encode (nonce ++ p.seal key nonce (p.encode text)))))
        ≡ some text
  unfolding open_text
  open_sealed keys key nonce i text named found strong size small =
      let blob = nonce ++ p.seal key nonce (p.encode text) in
      rw
        (
          removed_inline ((cipher_prefix <> i) <> (":" <> p.b64encode blob)),
          open_text,
          partition-name i (p.b64encode blob) named,
        )
        (open_sealed_parts keys key nonce i text found strong size small)

  -- With keys of which a cipher can be made and the first has a well-formed id, and a nonce of 12 bytes,
  -- each text that is not too long can be sealed, which the prefix shows, and what is sealed is opened as
  -- that text, also after other keys of a cipher were put in front.
  pub open_text-seal_text :
      (i : String) (k : Bytes) (ks newer : Keys) (nonce : Bytes) (text : String)
      → is_key_id i ≡ true
      → make_cipher (newer ++ (i, k) ∷ ks) ≡ some (newer ++ (i, k) ∷ ks)
      → length nonce ≡ 12
      → length (p.encode text) ≤ max_plain
      → (sealed : String) × (seal_text p ((i, k) ∷ ks) nonce text ≡ some sealed)
        × (starts_with sealed inline_prefix ≡ true)
        × (open_text p (newer ++ (i, k) ∷ ks) sealed ≡ some text)
  unfolding seal_text encrypt
  open_text-seal_text i k ks newer nonce text named made size small =
      let keys : Keys = (i, k) ∷ ks in
      let member = own_id i k ks in
      let (key, found, strong) =
        aead_total i keys [] member
          (are_aes_keys-append newer keys (make_cipher-keys (newer ++ keys) made)) in
      let own : get i (aead keys) ≡ some key = unfold aead in found in
      (
        inline_prefix
            <> ((cipher_prefix <> i)
                <> (":" <> p.b64encode (nonce ++ p.seal key nonce (p.encode text)))),
        rw (own, encrypt, seal_text) refl,
        starts_with-append inline_prefix _,
        open_sealed (newer ++ keys) key nonce i text named
            (unfold aead in
              rw (aead_from-append newer keys [])
                (aead_from-own i keys (aead_from newer []) [] member ∙ found))
            strong size small,
      )
