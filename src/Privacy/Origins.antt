-- ===== src/Privacy/Origins.antt =====
-- course_discovery/privacy/flow.py: the origins that `propagate` records lead back to the seeds.
use course_discovery_agent.Prelude.{
  ℕ, zero, suc, String, Bool, true, false, ◌&&◌, ◌||◌, Option, none, some, List, [], ◌∷◌, is_in,
  is_empty, ◌==◌, ◌≡◌, inl, inr, arith, eq_iff, Bool-cases, Option-cases, IsDistinct, some-inj,
  subst, ◌∙◌,
}
use course_discovery_agent.Prelude.Dict.{put}
use course_discovery_agent.Prelude.Sets.{
  union, minus, is_in-union, is_in-minus, minus-IsDistinct, union-IsDistinct,
}
use course_discovery_agent.Privacy.Flow.{
  NodeFlow, Labels, Flows, labels_of, seen, inputs_from, inputs, source, Run, note, write,
  write_all, visit, sweep, settle, targets, Origins,
}
use course_discovery_agent.Privacy.Spread.{Has, source_shows}
use course_discovery_agent.Privacy.Writes.{labels_of-put}

unfoldable pub is_tracked : String → String → Origins → Bool
is_tracked c l [] = false
is_tracked c l (o ∷ os) = ((o.channel == c) && (o.label == l)) || is_tracked c l os

-- An origin is a seed, or a label that an earlier assignment tracks.
abbrev pub IsRooted : Labels → String → String → Origins → Option (String × String) → Type 0
IsRooted seeds c l os none = Has seeds c l
IsRooted seeds c l os (some (node, before)) =
    (is_tracked c l os ≡ false) × (is_tracked before l os ≡ true)

abbrev pub IsGrounded : Labels → Origins → Type 0
IsGrounded seeds [] = Unit
IsGrounded seeds (o ∷ os) = IsRooted seeds o.channel o.label os o.via × IsGrounded seeds os

-- The labels are the tracked ones, and the origins are grounded.
pub record IsTraced (seeds : Labels) (r : Run) : Type 0 where
  pub tracked : (c l : String) → is_tracked c l r.origins ≡ is_in l (labels_of c r.labels)
  pub grounded : IsGrounded seeds r.origins

module _ (node : String) (spec : NodeFlow) (labels : Labels) (channel : String) where
  note-is_tracked :
      (ls : List String) (os os' : Origins)
      → note node spec labels channel ls os ≡ some os'
      → (c l : String) → is_tracked c l os' ≡ (((channel == c) && is_in l ls) || is_tracked c l os)
  unfolding note is_tracked is_in
  note-is_tracked [] os os' h c l = ground arith
  note-is_tracked (m ∷ ms) os os' h c l = elim (Option-cases (source spec labels m)) [
    | inl e ↦ cc (rw (e, note) at h)
    | inr (s, e) ↦
        let rest =
          note-is_tracked ms (record { channel = channel; label = m; via = some (node, s) } ∷ os)
            os' (rw (e, note) at h) c l in
        ground arith
  ]

  note-IsGrounded :
      (seeds : Labels) (ls : List String) (os os' : Origins)
      → note node spec labels channel ls os ≡ some os'
      → IsDistinct ls
      → ((l : String) → is_in l ls ≡ true → is_tracked channel l os ≡ false)
      → ((c l : String) → Has labels c l → is_tracked c l os ≡ true)
      → IsGrounded seeds os
      → IsGrounded seeds os'
  unfolding note is_tracked is_in
  note-IsGrounded seeds [] os os' h distinct fresh known g = subst (IsGrounded seeds) (some-inj h) g
  note-IsGrounded seeds (m ∷ ms) os os' h distinct fresh known g =
      elim (Option-cases (source spec labels m)) [
        | inl e ↦ cc (rw (e, note) at h)
        | inr (s, e) ↦
            note-IsGrounded seeds ms
              (record { channel = channel; label = m; via = some (node, s) } ∷ os) os'
              (rw (e, note) at h) distinct.1
              (λ l member.
                let before = fresh l (ground arith) in ground (arith, eq_iff m l, distinct.0))
              (λ c l has. let before = known c l has in ground arith)
              (
                (fresh m (ground (arith, eq_iff m m)), known s m (source_shows spec labels m s e)),
                g,
              )
      ]

module _ (seeds : Labels) (node : String) (spec : NodeFlow) (incoming : List String)
    (distinct : IsDistinct incoming) where
  write-IsTraced :
      (c : String) (r r' : Run)
      → write node spec incoming c r ≡ some r'
      → IsTraced seeds r
      → IsTraced seeds r'
  unfolding write
  write-IsTraced c r r' h t =
      let old = labels_of c r.labels in
      let fresh = minus incoming old in
      let fresh_lem = λ (k : String). is_in-minus k incoming old in
      elim (Bool-cases (is_empty fresh)) [
        | inl e ↦ subst (IsTraced seeds) (some-inj (rw e at h)) t
        | inr e ↦ elim (Option-cases (note node spec r.labels c fresh r.origins)) [
          | inl failed ↦ cc (rw (e, failed) at h)
          | inr (os, noted) ↦
              let written : Run = record {
                labels = put c (union old fresh) r.labels;
                origins = os;
                changed = true;
              } in
              let same : written ≡ r' = some-inj (rw (e, noted) at h) in
              subst (IsTraced seeds) same (record {
                tracked = λ k l. ground (
                  arith,
                  note-is_tracked node spec r.labels c fresh r.origins os noted k l,
                  t.tracked k l,
                  labels_of-put k c (union old fresh) r.labels,
                  is_in-union l old fresh,
                  eq_iff c k,
                );
                grounded =
                    note-IsGrounded node spec r.labels c seeds fresh r.origins os noted
                      (minus-IsDistinct incoming old distinct)
                      (λ l m. ground (arith, t.tracked c l, fresh_lem l))
                      (λ k l has. t.tracked k l ∙ has) t.grounded;
              })
        ]
      ]

  write_all-IsTraced :
      (cs : List String) (r r' : Run)
      → write_all node spec incoming cs r ≡ some r'
      → IsTraced seeds r
      → IsTraced seeds r'
  unfolding write_all
  write_all-IsTraced [] r r' h t = subst (IsTraced seeds) (some-inj h) t
  write_all-IsTraced (c ∷ cs) r r' h t = elim (Option-cases (write node spec incoming c r)) [
    | inl e ↦ cc (rw (e, write_all) at h)
    | inr (s, e) ↦ write_all-IsTraced cs s r' (rw (e, write_all) at h) (write-IsTraced c r s e t)
  ]

inputs_from-IsDistinct :
    (spec : NodeFlow) (labels : Labels) (cs : List String) → IsDistinct (inputs_from spec labels cs)
unfolding inputs_from
inputs_from-IsDistinct spec labels [] = tt
inputs_from-IsDistinct spec labels (c ∷ cs) =
    union-IsDistinct (inputs_from spec labels cs) (seen spec labels c)
      (inputs_from-IsDistinct spec labels cs)

visit-IsTraced :
    (seeds : Labels) (node : String) (spec : NodeFlow) (r r' : Run)
    → visit node spec r ≡ some r'
    → IsTraced seeds r
    → IsTraced seeds r'
unfolding visit inputs
visit-IsTraced seeds node spec r r' h t =
    elim (Bool-cases (is_empty (inputs_from spec r.labels spec.reads))) [
      | inl e ↦ subst (IsTraced seeds) (some-inj (rw e at h)) t
      | inr e ↦
          write_all-IsTraced seeds node spec (inputs_from spec r.labels spec.reads)
            (inputs_from-IsDistinct spec r.labels spec.reads) (targets spec) r r' (rw e at h) t
    ]

sweep-IsTraced :
    (seeds : Labels) (flows : Flows) (r r' : Run)
    → sweep flows r ≡ some r'
    → IsTraced seeds r
    → IsTraced seeds r'
unfolding sweep
sweep-IsTraced seeds [] r r' h t = subst (IsTraced seeds) (some-inj h) t
sweep-IsTraced seeds ((node, spec) ∷ flows) r r' h t = elim (Option-cases (visit node spec r)) [
  | inl e ↦ cc (rw (e, sweep) at h)
  | inr (s, e) ↦
      sweep-IsTraced seeds flows s r' (rw (e, sweep) at h) (visit-IsTraced seeds node spec r s e t)
]

pub settle-IsTraced :
    (seeds : Labels) (fuel : ℕ) (flows : Flows) (r r' : Run)
    → settle fuel flows r ≡ some r'
    → IsTraced seeds r
    → IsTraced seeds r'
unfolding settle
settle-IsTraced seeds zero flows r r' h t = cc
settle-IsTraced seeds (suc fuel) flows r r' h t =
    let start = record r { changed = false } in
    elim (Option-cases (sweep flows start)) [
      | inl e ↦ cc (rw (e, settle) at h)
      | inr (s, e) ↦
          let kept =
            sweep-IsTraced seeds flows start s e
              (record { tracked = t.tracked; grounded = t.grounded }) in
          elim (Bool-cases s.changed) [
            | inl changed ↦
                settle-IsTraced seeds fuel flows s r' (rw (e, settle, changed) at h) kept
            | inr same ↦ subst (IsTraced seeds) (some-inj (rw (e, settle, same) at h)) kept
          ]
    ]
