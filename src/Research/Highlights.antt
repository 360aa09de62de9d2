-- ===== src/Research/Highlights.antt =====
-- `_highlight_with_retry` and what it uses, of course_discovery/research_agent/synthesis/nodes.py. The
-- model answers by the number of its call; `none` is an exception of the call. Beside the text, the
-- function gives the prompts that it sent to the model.
use course_discovery_agent.Prelude.{
  ℕ, ◌≤◌, ◌<>◌, String, Bool, true, false, Option, none, some, List, [], ◌∷◌, map, filter, take,
  length, not, strip, join, ◌==◌, if◌then◌else◌, ◌≡◌, refl, ◌⊎◌, inl, inr, arith, All, Option-cases,
}
use course_discovery_agent.Domain.Models.{CourseCandidate, EvidenceItem}
use course_discovery_agent.Guardrails.Injection.{InjectionAction, pass, review, block}

abbrev pub withheld_note : String
withheld_note = " Free text withheld: flagged by the injection screen."

abbrev pub or_blank : Option String → String
or_blank none = ""
or_blank (some s) = s

-- `x or default`, where an empty text counts as absent.
abbrev pub or_text : Option String → String → String
or_text none d = d
or_text (some s) d = if s == "" then d else s

-- `_untrusted_text`
unfoldable pub untrusted_text : CourseCandidate → String
untrusted_text c = join "\n" (
    filter (λ part. not (part == ""))
      (c.title
        ∷ or_blank c.description
        ∷ map (λ (e : EvidenceItem). e.quote_or_summary) c.evidence))

-- The payload of a prompt, with the reviewer's instructions and the reader's notes.
pub record Prompt : Type 0 where
  pub title : String
  pub provider : Option String
  pub rating : Option ℕ
  pub price : Option String
  pub is_free : Option Bool
  pub has_certificate : Option Bool
  pub description : Option String
  pub language : Option String
  pub published_or_updated : Option String
  pub evidence : List EvidenceItem
  pub rewrite_instructions : Option String
  pub reader_notes : List String

unfoldable pub prompt_of : Bool → CourseCandidate → Option String → List String → Prompt
prompt_of flagged c rewrite_instructions reader_notes = record {
  title = c.title;
  provider = c.provider;
  rating = c.rating;
  price = c.price;
  is_free = c.is_free;
  has_certificate = c.has_certificate;
  description = if flagged then none else c.description;
  language = c.language;
  published_or_updated = c.published_or_updated;
  evidence = if flagged then [] else c.evidence;
  rewrite_instructions = rewrite_instructions;
  reader_notes = reader_notes;
}

bool_text : Option Bool → String
bool_text none = "None"
bool_text (some true) = "True"
bool_text (some false) = "False"

first_supports : List EvidenceItem → String
first_supports [] = "course facts"
first_supports (e ∷ es) = join ", " e.supports

-- The text without a model.
unfoldable pub template_highlight : CourseCandidate → String
unfolding first_supports
template_highlight c = strip (
    "Fits the request based on validated evidence for "
    <> (first_supports c.evidence
        <> (". "
            <> join "; " (map (λ (e : EvidenceItem). e.quote_or_summary) (take 2 c.evidence)))))

by_provider : CourseCandidate → String
by_provider c = c.title <> (" by " <> (or_text c.provider "unknown provider" <> "."))

-- The text after two failed calls.
unfoldable pub fallback_highlight : CourseCandidate → String
unfolding by_provider bool_text
fallback_highlight c =
    by_provider c
    <> (" Price: "
        <> (or_text c.price "unknown"
            <> (", certificate evidence: " <> (bool_text c.has_certificate <> "."))))

noted : Bool → String → String
noted flagged text = if flagged then text <> withheld_note else text

module _ (model : ℕ → Prompt → Option String) where
  second_try : Bool → CourseCandidate → Prompt → Option String → String × List Prompt
  unfolding noted
  second_try flagged c p none = (fallback_highlight c, p ∷ p ∷ [])
  second_try flagged c p (some text) = (noted flagged text, p ∷ p ∷ [])

  first_try : Bool → CourseCandidate → Prompt → Option String → String × List Prompt
  unfolding second_try
  first_try flagged c p none = second_try flagged c p (model 1 p)
  first_try flagged c p (some text) = (noted flagged text, p ∷ [])

  asked : Bool → CourseCandidate → Prompt → String × List Prompt
  unfolding first_try
  asked flagged c p = first_try flagged c p (model 0 p)

  screened_highlight :
      InjectionAction → CourseCandidate → Option String → List String → String × List Prompt
  unfolding asked by_provider
  screened_highlight block c instructions notes = (by_provider c <> withheld_note, [])
  screened_highlight review c instructions notes =
      asked true c (prompt_of true c instructions notes)
  screened_highlight pass c instructions notes =
      asked false c (prompt_of false c instructions notes)

  -- `_highlight_with_retry`, where the model is on or off.
  unfoldable pub highlight_with_retry :
      Bool
      → (String → InjectionAction)
      → CourseCandidate
      → Option String
      → List String
      → String × List Prompt
  unfolding screened_highlight
  highlight_with_retry false screen c instructions notes = (template_highlight c, [])
  highlight_with_retry true screen c instructions notes =
      screened_highlight (screen (untrusted_text c)) c instructions notes

  -- A prompt without the course's free text.
  abbrev pub IsWithheld : Prompt → Type 0
  IsWithheld p = (p.description ≡ none) × (p.evidence ≡ [])

  -- What an action lets through to the model.
  abbrev pub IsAllowed : InjectionAction → List Prompt → Type 0
  IsAllowed block sent = sent ≡ []
  IsAllowed review sent = All IsWithheld sent × (length sent ≤ 2)
  IsAllowed pass sent = length sent ≤ 2

  asked_prompts :
      (flagged : Bool) (c : CourseCandidate) (p : Prompt)
      → ((asked flagged c p).1 ≡ p ∷ []) ⊎ ((asked flagged c p).1 ≡ p ∷ p ∷ [])
  unfolding asked first_try second_try
  asked_prompts flagged c p = elim (Option-cases (model 0 p)) [
    | inr (text, e) ↦ rw (e, first_try) (inl refl)
    | inl e ↦ elim (Option-cases (model 1 p)) [
      | inr (text, f) ↦ rw (e, first_try, f, second_try) (inr refl)
      | inl f ↦ rw (e, first_try, f, second_try) (inr refl)
    ]
  ]

  screened-IsAllowed :
      (action : InjectionAction) (c : CourseCandidate) (instructions : Option String)
      (notes : List String)
      → IsAllowed action (screened_highlight action c instructions notes).1
  unfolding screened_highlight
  screened-IsAllowed block c instructions notes = refl
  screened-IsAllowed review c instructions notes =
      elim (asked_prompts true c (prompt_of true c instructions notes)) [
        | inl e ↦ rw e (unfold prompt_of in (((refl, refl), tt), omega arith))
        | inr e ↦ rw e (unfold prompt_of in (((refl, refl), ((refl, refl), tt)), omega arith))
      ]
  screened-IsAllowed pass c instructions notes =
      elim (asked_prompts false c (prompt_of false c instructions notes)) [
        | inl e ↦ rw e (omega arith)
        | inr e ↦ rw e (omega arith)
      ]

  -- With the model on: of a course whose texts the screen blocks the model is told nothing, of one
  -- that the screen flags for review neither description nor evidence, in two calls at most.
  pub highlight_with_retry-IsAllowed :
      (screen : String → InjectionAction) (c : CourseCandidate) (instructions : Option String)
      (notes : List String)
      → IsAllowed
          (screen (untrusted_text c))
          (highlight_with_retry true screen c instructions notes).1
  unfolding highlight_with_retry
  highlight_with_retry-IsAllowed screen c instructions notes =
      screened-IsAllowed (screen (untrusted_text c)) c instructions notes
