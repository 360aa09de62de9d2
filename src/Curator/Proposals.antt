-- ===== src/Curator/Proposals.antt =====
-- Which proposals `propose` of course_discovery/memory_curator/tools.py records.
use course_discovery_agent.Prelude.{
  ◌≤◌, String, Bool, true, false, not, none, some, List, [], ◌∷◌, ◌++◌, map, ◌≡◌, refl, subst, ◌⊎◌,
  inl, inr, arith, All, filter, is_in, Bool-cases, Option-cases, ◌==◌, eq_iff,
}
use course_discovery_agent.Domain.Models.{MemoryNote}
use course_discovery_agent.Memory.Patches.{MemoryPatch, is_empty_patch}
use course_discovery_agent.Curator.Tools.{
  scoped, Proposal, Validated, invalid, proposal, keys, writable_fields, not_stored_scopes,
  max_note_chars, unwritable, char_count, note_problem, notes_only, propose_notes, propose_fields,
  propose_valid, propose,
}

some-inj {ℓ} : {A : Type ℓ} {a b : A} → some a ≡ some b → a ≡ b
some-inj e = cc

-- The fields that a patch touches may be written.
abbrev pub IsWritable : MemoryPatch → Type 0
IsWritable p = All (λ k. is_in k writable_fields ≡ true) (keys p.set ++ keys p.add ++ keys p.remove)

module _ (is_printable : String → Bool) where
  -- A note is short and printable.
  abbrev pub IsShort : MemoryNote → Type 0
  IsShort n = (char_count n.text ≤ max_note_chars) × (is_printable n.text ≡ true)

  -- What is stored of a proposed patch: the patch with the scope in its notes. It writes only the fields
  -- that it may write, its notes are short, and outside the scope "durable" it has nothing but notes.
  abbrev pub IsAcceptable : String → MemoryPatch → MemoryPatch → Type 0
  IsAcceptable scope patch p =
      (p ≡ scoped scope patch)
      × IsWritable p
      × All IsShort p.add_notes
      × All (λ (n : MemoryNote). n.scope ≡ scope) p.add_notes
      × ((scope ≡ "durable") ⊎ (notes_only p ≡ true))

  blocked_none :
      (ks : List String)
      → filter (λ k. not (is_in k writable_fields)) ks ≡ []
      → All (λ k. is_in k writable_fields ≡ true) ks
  unfolding filter
  blocked_none [] = λ e. tt
  blocked_none (k ∷ ks) = elim (Bool-cases (is_in k writable_fields)) [
    | inl e ↦ rw e (λ h. (refl, blocked_none ks h))
    | inr e ↦ rw e (λ h. absurd cc)
  ]

  note_problem-IsShort :
      (notes : List MemoryNote) → note_problem is_printable notes ≡ none → All IsShort notes
  unfolding note_problem
  note_problem-IsShort [] e = tt
  note_problem-IsShort (n ∷ notes) e =
      (ground (arith, e), note_problem-IsShort notes (ground (arith, e)))

  scoped-IsShort :
      (scope : String) (notes : List MemoryNote)
      → All IsShort notes
      → All IsShort (map (λ (n : MemoryNote). record n { scope = scope }) notes)
  scoped-IsShort scope [] h = tt
  scoped-IsShort scope (n ∷ notes) h = (h.0, scoped-IsShort scope notes h.1)

  scoped-scope :
      (scope : String) (notes : List MemoryNote)
      → All
          (λ (n : MemoryNote). n.scope ≡ scope)
          (map (λ (n : MemoryNote). record n { scope = scope }) notes)
  scoped-scope scope [] = tt
  scoped-scope scope (n ∷ notes) = (refl, scoped-scope scope notes)

  scoped-IsAcceptable :
      (scope : String) (q p : MemoryPatch)
      → IsWritable q
      → All IsShort q.add_notes
      → (scope ≡ "durable") ⊎ (notes_only q ≡ true)
      → scoped scope q ≡ p
      → IsAcceptable scope q p
  scoped-IsAcceptable scope q p fields short narrow e =
      subst (IsAcceptable scope q) e (
        refl,
        fields,
        scoped-IsShort scope q.add_notes short,
        scoped-scope scope q.add_notes,
        narrow,
      )

  propose_notes-IsAcceptable :
      (scope : String) (q p : MemoryPatch)
      → IsWritable q
      → All IsShort q.add_notes
      → (propose_notes is_printable scope q none).0 ≡ some p
      → IsAcceptable scope q p
  unfolding propose_notes
  propose_notes-IsAcceptable scope q p fields short = elim (Bool-cases (scope == "durable")) [
    | inl e ↦ rw e (λ h.
        scoped-IsAcceptable scope q p fields short (inl ((eq_iff scope "durable").0 e))
          (some-inj h))
    | inr e ↦ elim (Bool-cases (notes_only q)) [
      | inl only ↦
          rw (e, only) (λ h. scoped-IsAcceptable scope q p fields short (inr only) (some-inj h))
      | inr more ↦ rw (e, more) (λ h. absurd cc)
    ]
  ]

  propose_fields-IsAcceptable :
      (scope : String) (q p : MemoryPatch) (blocked : List String)
      → unwritable q ≡ blocked
      → (propose_fields is_printable scope q blocked).0 ≡ some p
      → IsAcceptable scope q p
  unfolding propose_fields unwritable
  propose_fields-IsAcceptable scope q p (k ∷ blocked) e = λ h. absurd cc
  propose_fields-IsAcceptable scope q p [] e =
      elim (Option-cases (note_problem is_printable q.add_notes)) [
        | inl ok ↦ rw ok (
            propose_notes-IsAcceptable scope q p
              (blocked_none (keys q.set ++ keys q.add ++ keys q.remove) e)
              (note_problem-IsShort q.add_notes ok))
        | inr (problem, bad) ↦ rw (bad, propose_notes) (λ h. absurd cc)
      ]

  -- The proposal has a scope that is stored and a patch that is not empty, and the patch may be stored.
  abbrev pub IsStorable : Proposal → MemoryPatch → Type 0
  IsStorable q p =
      (is_in q.scope not_stored_scopes ≡ false)
      × (is_empty_patch q.patch ≡ false)
      × IsAcceptable q.scope q.patch p

  valid-IsStorable :
      (q : Proposal) (p : MemoryPatch)
      → (propose_valid is_printable true q).0 ≡ some p
      → IsStorable q p
  unfolding propose_valid
  valid-IsStorable q p = elim (Bool-cases (is_in q.scope not_stored_scopes)) [
    | inl e ↦ rw e (λ h. absurd cc)
    | inr e ↦ elim (Bool-cases (is_empty_patch q.patch)) [
      | inl f ↦ rw (e, f) (λ h. absurd cc)
      | inr f ↦
          rw (e, f)
            (λ h. (
              refl,
              refl,
              propose_fields-IsAcceptable q.scope q.patch p (unwritable q.patch) refl h,
            ))
    ]
  ]

  -- A patch is recorded only after the profile was read, and only for a valid proposal with a scope that is
  -- stored and a patch that is not empty. It is that patch with the scope in each of its notes, it touches
  -- writable fields alone, its notes are short and printable, and unless the scope is "durable" it has
  -- nothing but notes.
  pub propose-IsStorable :
      (profile_read : Bool) (v : Validated) (p : MemoryPatch)
      → (propose is_printable profile_read v).0 ≡ some p
      → (profile_read ≡ true) × (q : Proposal) × (v ≡ proposal q) × IsStorable q p
  unfolding propose
  propose-IsStorable profile_read (invalid problem) p e = absurd cc
  propose-IsStorable false (proposal q) p e = absurd cc
  propose-IsStorable true (proposal q) p e = (refl, q, refl, valid-IsStorable q p e)
