-- ===== src/Chat/Parts.antt =====
-- course_discovery/chat/transport.py: the parts of a message.
use course_discovery_agent.Prelude.{
  ℕ, zero, suc, ◌+◌, ◌≤◌, ◌<>◌, String, some, List, [], ◌∷◌, ◌≡◌, refl, ◌∙◌, sym, ap, length, ltb,
  drop_chars, take_chars, text_length, arith, All, Bool-cases, inl, inr,
}
use text.Mathlib.TextLemmas.{nil-append, cons-append}
use course_discovery_agent.Chat.Transport.{range_from, or_blank, slices, split_message}

-- `"".join(parts)`
abbrev pub joined : List String → String
joined [] = ""
joined (p ∷ ps) = p <> joined ps

take_drop_chars : (n : ℕ) (s : String) → take_chars n s <> drop_chars n s ≡ s
unfolding take_chars drop_chars
take_drop_chars zero s = nil-append s
take_drop_chars (suc n) String.[] = refl
take_drop_chars (suc n) (String.◌∷◌ c s) =
    cons-append c (take_chars n s) (drop_chars n s) ∙ rw (take_drop_chars n s) refl

drop_chars_add : (m n : ℕ) (s : String) → drop_chars n (drop_chars m s) ≡ drop_chars (m + n) s
unfolding drop_chars
drop_chars_add zero n s = let same : n ≡ 0 + n = omega arith in ap (λ k. drop_chars k s) same
drop_chars_add (suc m) zero String.[] =
    let same : suc m ≡ suc m + 0 = omega arith in rw (← same) refl
drop_chars_add (suc m) (suc n) String.[] =
    let same : suc (m + suc n) ≡ suc m + suc n = omega arith in ap (λ k. drop_chars k "") same
drop_chars_add (suc m) n (String.◌∷◌ c s) =
    let same : suc (m + n) ≡ suc m + n = omega arith in drop_chars_add m n s ∙ rw (← same) refl

whole : (s : String) → drop_chars 0 s ≡ s
unfolding drop_chars
whole s = refl

drop_chars_all : (n : ℕ) (s : String) → text_length s ≤ n → drop_chars n s ≡ ""
unfolding drop_chars text_length
drop_chars_all zero String.[] h = refl
drop_chars_all zero (String.◌∷◌ c s) h = absurd (omega (arith, h))
drop_chars_all (suc n) String.[] h = refl
drop_chars_all (suc n) (String.◌∷◌ c s) h = drop_chars_all n s (omega (arith, h))

text_length-take_chars : (n : ℕ) (s : String) → text_length (take_chars n s) ≤ n
unfolding take_chars text_length
text_length-take_chars zero s = omega arith
text_length-take_chars (suc n) String.[] = omega arith
text_length-take_chars (suc n) (String.◌∷◌ c s) = omega (arith, text_length-take_chars n s)

module _ (text : String) (n : ℕ) where
  joined-slices :
      (fuel i : ℕ)
      → text_length text ≤ i + fuel
      → joined (slices text (suc n) (range_from fuel i (text_length text) (suc n)))
        ≡ drop_chars i text
  unfolding slices range_from
  joined-slices zero i h = sym (drop_chars_all i text (omega (arith, h)))
  joined-slices (suc fuel) i h = elim (Bool-cases (ltb i (text_length text))) [
    | inr e ↦ rw e (sym (drop_chars_all i text (ground (arith, e))))
    | inl e ↦ rw e (
        rw (joined-slices fuel (i + suc n) (omega (arith, h)))
          (rw (← drop_chars_add i (suc n) text) (take_drop_chars (suc n) (drop_chars i text))))
  ]

  slices_short : (is : List ℕ) → All (λ p. text_length p ≤ suc n) (slices text (suc n) is)
  unfolding slices
  slices_short [] = tt
  slices_short (i ∷ is) = (text_length-take_chars (suc n) (drop_chars i text), slices_short is)

joined-or_blank : (ps : List String) → joined (or_blank ps) ≡ joined ps
joined-or_blank [] = nil-append ""
joined-or_blank (p ∷ ps) = refl

or_blank_short :
    (n : ℕ) (ps : List String)
    → All (λ p. text_length p ≤ n) ps
    → All (λ p. text_length p ≤ n) (or_blank ps)
unfolding text_length
or_blank_short n [] h = (omega arith, tt)
or_blank_short n (p ∷ ps) h = h

or_blank_some : (ps : List String) → 1 ≤ length (or_blank ps)
or_blank_some [] = omega arith
or_blank_some (p ∷ ps) = omega arith

-- Splitting a text at a limit of one character at least succeeds, and answers at least one part, no part
-- longer than the limit, and parts that joined are the text.
pub split_message-joined :
    (text : String) (limit : ℕ)
    → 1 ≤ limit
    → (parts : List String) × (split_message text limit ≡ some parts)
      × (joined parts ≡ text)
      × All (λ p. text_length p ≤ limit) parts
      × (1 ≤ length parts)
unfolding split_message
split_message-joined text zero h = absurd (omega (arith, h))
split_message-joined text (suc n) h =
    let size = text_length text in
    let ps = slices text (suc n) (range_from size 0 size (suc n)) in
    (
      or_blank ps,
      refl,
      joined-or_blank ps ∙ joined-slices text n size 0 (omega arith) ∙ whole text,
      or_blank_short (suc n) ps (slices_short text n (range_from size 0 size (suc n))),
      or_blank_some ps,
    )
