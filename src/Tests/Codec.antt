-- ===== src/Tests/Codec.antt =====
-- Simple stand-ins for the libraries of course_discovery/persistence/encryption.py: texts as code points,
-- bytes in unary, and a cipher that does nothing.
use Prim.Native.Nat.{Ordering, compare}
use Prim.Native.Char.{Char, char, code, IsLt}
use course_discovery_agent.Prelude.{
  ℕ, zero, suc, String, Option, none, some, [], ◌∷◌, ◌≡◌, refl, eqb, if◌then◌else◌,
}
use course_discovery_agent.Persistence.Encryption.{Bytes, Primitives}
use course_discovery_agent.Persistence.Sealing.{Laws}

abbrev Both : Ordering → Ordering → Type 0
Both Ordering.lt o = IsLt o
Both Ordering.eq _ = ⊥
Both Ordering.gt _ = ⊥

abbrev Scalar : Ordering → Ordering → Ordering → Type 0
Scalar Ordering.lt _ _ = Unit
Scalar Ordering.eq o p = Both o p
Scalar Ordering.gt o p = Both o p

check_both : (o p : Ordering) → Option (Both o p)
check_both Ordering.lt Ordering.lt = some tt
check_both Ordering.lt Ordering.eq = none
check_both Ordering.lt Ordering.gt = none
check_both Ordering.eq p = none
check_both Ordering.gt p = none

check_scalar : (o p q : Ordering) → Option (Scalar o p q)
unfolding check_both
check_scalar Ordering.lt p q = some tt
check_scalar Ordering.eq p q = check_both p q
check_scalar Ordering.gt p q = check_both p q

check_both_lem : (o p : Ordering) (h : Both o p) → check_both o p ≡ some h
unfolding check_both
check_both_lem Ordering.lt Ordering.lt h = refl
check_both_lem Ordering.lt Ordering.eq h = elim h [ ]
check_both_lem Ordering.lt Ordering.gt h = elim h [ ]
check_both_lem Ordering.eq p h = elim h [ ]
check_both_lem Ordering.gt p h = elim h [ ]

check_scalar_lem : (o p q : Ordering) (h : Scalar o p q) → check_scalar o p q ≡ some h
unfolding check_scalar
check_scalar_lem Ordering.lt p q h = refl
check_scalar_lem Ordering.eq p q h = check_both_lem p q h
check_scalar_lem Ordering.gt p q h = check_both_lem p q h

to_char : ℕ → Option Char
to_char n = elim (check_scalar (compare n 55296) (compare 57343 n) (compare n 1114112)) [
  | none ↦ none
  | some h ↦ some (char n h)
]

to_char-code : (c : Char) → to_char (code c) ≡ some c
unfolding to_char
to_char-code (char n h) =
    rw (check_scalar_lem (compare n 55296) (compare 57343 n) (compare n 1114112) h, to_char) refl

unfoldable pub encode : String → Bytes
encode String.[] = []
encode (String.◌∷◌ c s) = code c ∷ encode s

pub decode : Bytes → Option String
decode [] = some ""
decode (n ∷ ns) = elim (to_char n) [
  | none ↦ none
  | some c ↦ elim (decode ns) [ none ↦ none | some s ↦ some (String.◌∷◌ c s) ]
]

decode-encode : (s : String) → decode (encode s) ≡ some s
unfolding encode decode
decode-encode String.[] = refl
decode-encode (String.◌∷◌ c s) = rw (to_char-code c, decode, decode-encode s) refl

unary : ℕ → String → String
unary zero s = String.◌∷◌ "b" s
unary (suc n) s = String.◌∷◌ "a" (unary n s)

pub write : Bytes → String
unfolding unary
write [] = ""
write (n ∷ ns) = unary n (write ns)

bump : Option Bytes → Option Bytes
bump (some (n ∷ ns)) = some (suc n ∷ ns)
bump _ = none

start : Option Bytes → Option Bytes
start none = none
start (some ns) = some (0 ∷ ns)

unfoldable pub read : String → Option Bytes
unfolding bump start
read String.[] = some []
read (String.◌∷◌ c s) = if eqb (code c) 97 then bump (read s) else start (read s)

read-unary : (n : ℕ) (s : String) (ns : Bytes) → read s ≡ some ns → read (unary n s) ≡ some (n ∷ ns)
unfolding read unary
read-unary zero s ns h = rw h refl
read-unary (suc n) s ns h = rw (read-unary n s ns h) refl

read-write : (ns : Bytes) → read (write ns) ≡ some ns
unfolding write
read-write [] = unfold read in refl
read-write (n ∷ ns) = read-unary n (write ns) ns (read-write ns)

abbrev pub primitives : Primitives
primitives = record {
  seal = λ key nonce plain. plain;
  unseal = λ key nonce sealed. some sealed;
  encode = encode;
  decode = decode;
  b64encode = write;
  b64decode = read;
  b64decode_strict = read;
}

pub primitives-Laws : Laws primitives
primitives-Laws = record {
  unseal_seal = λ key nonce plain strong size small. refl;
  decode_encode = decode-encode;
  b64decode_b64encode = read-write;
}
