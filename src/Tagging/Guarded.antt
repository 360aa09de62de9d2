-- ===== src/Tagging/Guarded.antt =====
-- course_discovery/jobs/tagging_graph.py: what a run of the tagging graph may write.
use course_discovery_agent.Prelude.{
  ℕ, String, Bool, true, false, Option, none, some, List, [], ◌∷◌, ◌≡◌, refl, ◌⊎◌, inl, inr, arith,
  filter, is_in, or_default, ◌==◌, eq_iff, All, All-unique, unique-IsDistinct, Bool-cases,
  Option-cases, some-inj, subst,
}
use course_discovery_agent.Guardrails.Injection.{InjectionAction, pass, review, block, Thresholds}
use course_discovery_agent.Tagging.Vocabulary.{topic_vocabulary, AreTopics}
use course_discovery_agent.Tagging.Graph.{
  CourseRow, Outcome, stale, tagged, withheld, find_course, is_current, recorded, record_outcome,
  is_pass, load_course, description_of, screen_text, tag_text, after_screen, run_tagging,
}

-- Row by row.
abbrev pub All2 : (CourseRow → CourseRow → Type 0) → List CourseRow → List CourseRow → Type 0
All2 R [] [] = Unit
All2 R [] (y ∷ ys) = ⊥
All2 R (x ∷ xs) [] = ⊥
All2 R (x ∷ xs) (y ∷ ys) = R x y × All2 R xs ys

-- A row stays as it is, or it is the course's with the content that was asked for, and then gets no
-- topics but those that may be written.
abbrev pub IsGuarded : ℕ → String → (List String → Type 0) → CourseRow → CourseRow → Type 0
IsGuarded id hash May r r' =
    (r' ≡ r)
    ⊎ ((r.id ≡ id)
        × (r.content_hash ≡ hash)
        × (r'.content_hash ≡ hash)
        × (r'.tagged_content_hash ≡ some hash)
        × ((r'.topics ≡ r.topics) ⊎ May r'.topics))

all_same :
    (R : CourseRow → CourseRow → Type 0) (rows : List CourseRow)
    → ((r : CourseRow) → R r r)
    → All2 R rows rows
all_same R [] h = tt
all_same R (r ∷ rows) h = (h r, all_same R rows h)

recorded-IsGuarded :
    (id : ℕ) (hash outcome : String) (topics : Option (List String)) (May : List String → Type 0)
    (r : CourseRow)
    → is_current id hash r ≡ true
    → ((or_default topics r.topics ≡ r.topics) ⊎ May (or_default topics r.topics))
    → IsGuarded id hash May r (recorded hash outcome topics r)
unfolding is_current recorded
recorded-IsGuarded id hash outcome topics May r e may =
    let same : r.content_hash ≡ hash = (eq_iff r.content_hash hash).0 (ground arith) in
    inr (ground arith, same, same, refl, may)

record_outcome-IsGuarded :
    (id : ℕ) (hash outcome : String) (topics : Option (List String)) (May : List String → Type 0)
    (rows : List CourseRow)
    → ((r : CourseRow) → (or_default topics r.topics ≡ r.topics) ⊎ May (or_default topics r.topics))
    → All2 (IsGuarded id hash May) rows (record_outcome id hash outcome topics rows)
unfolding record_outcome
record_outcome-IsGuarded id hash outcome topics May [] may = tt
record_outcome-IsGuarded id hash outcome topics May (r ∷ rows) may =
    let rest = record_outcome-IsGuarded id hash outcome topics May rows may in
    elim (Bool-cases (is_current id hash r)) [
      | inl e ↦ rw e (recorded-IsGuarded id hash outcome topics May r e (may r), rest)
      | inr e ↦ rw e (inl refl, rest)
    ]

passing :
    (found : List String)
    → All (λ t. is_in t topic_vocabulary ≡ true) (filter (λ t. is_in t topic_vocabulary) found)
unfolding filter
passing [] = tt
passing (t ∷ ts) = elim (Bool-cases (is_in t topic_vocabulary)) [
  | inl e ↦ rw e (e, passing ts)
  | inr e ↦ rw e (passing ts)
]

load_course-cases :
    (id : ℕ) (hash : String) (rows : List CourseRow) (r : CourseRow)
    → load_course id hash rows ≡ some r
    → (find_course id rows ≡ some r) × (r.content_hash ≡ hash)
unfolding load_course
load_course-cases id hash rows r h = elim (Option-cases (find_course id rows)) [
  | inl e ↦ cc (rw (e, load_course) at h)
  | inr (x, e) ↦ elim (Bool-cases (x.content_hash == hash)) [
    | inl f ↦
        let same : x ≡ r = some-inj (rw (e, load_course, f) at h) in
        (
          subst (λ y. find_course id rows ≡ some y) same e,
          subst (λ (y : CourseRow). y.content_hash ≡ hash) same ((eq_iff x.content_hash hash).0 f),
        )
    | inr f ↦ cc (rw (e, load_course, f) at h)
  ]
]

is_pass-cases : (a : InjectionAction) → (a ≡ pass) ⊎ (is_pass a ≡ false)
is_pass-cases pass = inl refl
is_pass-cases review = inr refl
is_pass-cases block = inr refl

module _ (enabled : Bool) (thresholds : Thresholds) (score : String → Option ℕ)
    (tagger : String → String → Option (List String)) where
  -- The tagger saw a text of the course with that content, which the screen had passed.
  abbrev pub MayWrite : ℕ → String → List CourseRow → List String → Type 0
  MayWrite id hash rows topics =
      AreTopics topics
      × ((r : CourseRow) × (find_course id rows ≡ some r)
          × (r.content_hash ≡ hash)
          × (screen_text enabled thresholds score tagger r ≡ pass))

  -- The tagger raised on the course, and nothing is written.
  abbrev pub Fails : ℕ → String → List CourseRow → Type 0
  Fails id hash rows =
      (r : CourseRow) × (find_course id rows ≡ some r) × (tagger r.title (description_of r) ≡ none)

  tag_text-AreTopics :
      (r : CourseRow) (topics : List String)
      → tag_text enabled thresholds score tagger r ≡ some topics
      → AreTopics topics
  unfolding tag_text
  tag_text-AreTopics r topics h = elim (Option-cases (tagger r.title (description_of r))) [
    | inl e ↦ cc (rw (e, tag_text) at h)
    | inr (found, e) ↦
        let kept = filter (λ t. is_in t topic_vocabulary) found in
        subst AreTopics (some-inj (rw (e, tag_text) at h)) (
          All-unique (λ t. is_in t topic_vocabulary ≡ true) kept (passing found),
          unique-IsDistinct kept,
        )
  ]

  -- The run ends with the rows that the others left, each of them guarded.
  abbrev pub EndsGuarded :
      (List CourseRow → List CourseRow)
      → ℕ
      → String
      → List CourseRow
      → Option (Outcome × List CourseRow)
      → Type 0
  EndsGuarded others id hash rows result =
      (o : Outcome) × (rows' : List CourseRow) × (result ≡ some (o, rows'))
      × All2 (IsGuarded id hash (MayWrite id hash rows)) (others rows) rows'

  tag_text-Fails :
      (id : ℕ) (hash : String) (rows : List CourseRow) (r : CourseRow)
      → find_course id rows ≡ some r
      → tag_text enabled thresholds score tagger r ≡ none
      → Fails id hash rows
  unfolding tag_text
  tag_text-Fails id hash rows r e t = elim (Option-cases (tagger r.title (description_of r))) [
    | inl f ↦ (r, e, f)
    | inr (found, f) ↦ cc (rw (f, tag_text) at t)
  ]

  after_screen-IsGuarded :
      (others : List CourseRow → List CourseRow) (id : ℕ) (hash : String) (rows : List CourseRow)
      (r : CourseRow)
      → find_course id rows ≡ some r
      → r.content_hash ≡ hash
      → (((after_screen enabled thresholds score tagger
                (is_pass (screen_text enabled thresholds score tagger r))
                id
                hash
                r
                (others rows)
              ≡ none)
            × Fails id hash rows)
          ⊎ EndsGuarded others id hash rows (
              after_screen enabled thresholds score tagger
                (is_pass (screen_text enabled thresholds score tagger r))
                id
                hash
                r
                (others rows)))
  unfolding after_screen
  after_screen-IsGuarded others id hash rows r e f =
      elim (is_pass-cases (screen_text enabled thresholds score tagger r)) [
        | inr s ↦ rw s (
            inr (
              withheld,
              record_outcome id hash "withheld" none (others rows),
              refl,
              record_outcome-IsGuarded id hash "withheld" none (MayWrite id hash rows) (others rows)
                  (λ x. inl refl),
            ))
        | inl s ↦ elim (Option-cases (tag_text enabled thresholds score tagger r)) [
          | inl t ↦ rw (s, after_screen, t) (inl (refl, tag_text-Fails id hash rows r e t))
          | inr (topics, t) ↦
              rw (s, after_screen, t)
                (inr (
                  tagged,
                  record_outcome id hash "tagged" (some topics) (others rows),
                  refl,
                  record_outcome-IsGuarded id hash "tagged" (some topics) (MayWrite id hash rows)
                      (others rows) (λ x. inr (tag_text-AreTopics r topics t, (r, e, f, s))),
                ))
        ]
      ]

  -- A run for a course and a content hash, whatever other transactions do to the table between its read
  -- and its write, has one of two ends. It raises, and then the tagger raised on a row with that id. Or
  -- it ends with rows that differ from what the others left only in rows with that id and that hash:
  -- such a row gets the hash as the tagged one, and it keeps its topics, or gets distinct topics of the
  -- vocabulary, and then the row that was read had the hash and its text passed the injection screen.
  pub run_tagging-IsGuarded :
      (others : List CourseRow → List CourseRow) (id : ℕ) (hash : String) (rows : List CourseRow)
      → ((run_tagging enabled thresholds score tagger others id hash rows ≡ none)
          × Fails id hash rows)
        ⊎ EndsGuarded others id hash rows
            (run_tagging enabled thresholds score tagger others id hash rows)
  unfolding run_tagging
  run_tagging-IsGuarded others id hash rows = elim (Option-cases (load_course id hash rows)) [
    | inl e ↦
        rw (e, run_tagging)
          (inr (
            stale,
            others rows,
            refl,
            all_same (IsGuarded id hash (MayWrite id hash rows)) (others rows) (λ r. inl refl),
          ))
    | inr (r, e) ↦
        rw (e, run_tagging)
          (let (found, same) = load_course-cases id hash rows r e in
            after_screen-IsGuarded others id hash rows r found same)
  ]
