-- ===== src/Privacy/Traces.antt =====
-- course_discovery/privacy/flow.py: a trace ends, at a channel that is seeded with its label.
use course_discovery_agent.Prelude.{
  ℕ, suc, String, true, ◌&&◌, Option, none, some, List, [], ◌∷◌, ◌++◌, ◌==◌, ◌≡◌, refl, inl, inr,
  arith, eq_iff, Bool-cases, length, subst, ◌∙◌, ◌<>◌, join,
}
use course_discovery_agent.Prelude.Dict.{IsDict}
use course_discovery_agent.Privacy.Flow.{Labels, Flows, Run, Origin, Origins, origin_of, propagate}
use course_discovery_agent.Privacy.Spread.{Has}
use course_discovery_agent.Privacy.Checks.{hops_from, trace}
use course_discovery_agent.Privacy.Origins.{is_tracked, IsRooted, IsGrounded}
use course_discovery_agent.Privacy.Seeding.{propagate-IsTraced}

-- The walk from an assignment ends at a seed within some number of hops.
data Ends (seeds : Labels) (os : Origins) (l : String) : ℕ → String → Type 0 where
  last :
      {n : ℕ} {c : String}
      → origin_of c l os ≡ none
      → is_tracked c l os ≡ true
      → Has seeds c l
      → Ends seeds os l (suc n) c
  hop :
      {n : ℕ} {c node before : String}
      → origin_of c l os ≡ some (node, before)
      → is_tracked c l os ≡ true
      → Ends seeds os l n before
      → Ends seeds os l (suc n) c

module _ (seeds : Labels) (l : String) where
  Ends-suc : {os : Origins} {n : ℕ} {c : String} → Ends seeds os l n c → Ends seeds os l (suc n) c
  Ends-suc (last e t h) = last e t h
  Ends-suc (hop e t rest) = hop e t (Ends-suc rest)

  -- A later assignment for another pair, or of a seed, does not break a walk.
  Ends-cons :
      (o : Origin) (os : Origins) (via : Option (String × String))
      → o.via ≡ via
      → IsRooted seeds o.channel o.label os via
      → {n : ℕ} {c : String} → Ends seeds os l n c
      → Ends seeds (o ∷ os) l n c
  unfolding origin_of is_tracked
  Ends-cons o os none v rooted (last {n} {c} e t h) = last (ground arith) (ground arith) h
  Ends-cons o os none v rooted (hop {n} {c} {node} {before} e t rest) =
      elim (Bool-cases ((o.channel == c) && (o.label == l))) [
        | inl m ↦ last (rw m v) (ground arith) (
            subst (λ x. Has seeds x l) ((eq_iff o.channel c).0 (ground arith))
              (subst (Has seeds o.channel) ((eq_iff o.label l).0 (ground arith)) rooted))
        | inr m ↦
            hop {node = node} {before = before} (rw m e) (ground arith)
              (Ends-cons o os none v rooted rest)
      ]
  Ends-cons o os (some (from, before)) v rooted (last {n} {c} e t h) =
      last (ground (arith, eq_iff o.channel c, eq_iff o.label l, rooted.0)) (ground arith) h
  Ends-cons o os (some (from, before)) v rooted (hop {n} {c} {node} {before = prior} e t rest) =
      hop {node = node} {before = prior}
        (ground (arith, eq_iff o.channel c, eq_iff o.label l, rooted.0)) (ground arith)
        (Ends-cons o os (some (from, before)) v rooted rest)

  -- The walk from the latest assignment.
  Ends-head :
      (o : Origin) (os : Origins) (via : Option (String × String))
      → o.via ≡ via
      → IsRooted seeds o.channel o.label os via
      → ((c : String) → is_tracked c l os ≡ true → Ends seeds os l (suc (length os)) c)
      → (c : String) → ((o.channel == c) && (o.label == l)) ≡ true
      → Ends seeds (o ∷ os) l (suc (suc (length os))) c
  unfolding origin_of is_tracked
  Ends-head o os none v rooted ends c m = last (rw m v) (rw m refl) (
      subst (λ x. Has seeds x l) ((eq_iff o.channel c).0 (ground arith))
        (subst (Has seeds o.channel) ((eq_iff o.label l).0 (ground arith)) rooted))
  Ends-head o os (some (from, before)) v rooted ends c m =
      hop {node = from} {before = before} (rw m v) (rw m refl) (
        Ends-cons o os (some (from, before)) v rooted (
          ends before (
            subst (λ x. is_tracked before x os ≡ true) ((eq_iff o.label l).0 (ground arith))
              rooted.1)))

  grounded-Ends :
      (os : Origins)
      → IsGrounded seeds os
      → (c : String) → is_tracked c l os ≡ true
      → Ends seeds os l (suc (length os)) c
  unfolding is_tracked
  grounded-Ends [] g c h = cc
  grounded-Ends (o ∷ os) g c h = elim (Bool-cases ((o.channel == c) && (o.label == l))) [
    | inl m ↦ Ends-head o os o.via refl g.0 (grounded-Ends os g.1) c m
    | inr m ↦ Ends-suc (Ends-cons o os o.via refl g.0 (grounded-Ends os g.1 c (ground arith)))
  ]

  hops_from-Ends :
      (os : Origins) {n : ℕ} {c : String}
      → Ends seeds os l n c
      → (hops : List String) × (s : String) × (hops_from n c l os ≡ some (hops ++ s ∷ []))
        × Has seeds s l
  unfolding hops_from
  hops_from-Ends os (last {n} {c} e t h) = ([], c, rw (e, hops_from) refl, h)
  hops_from-Ends os (hop {n} {c} {node} {before} e t rest) =
      let (hops, s, found, has) = hops_from-Ends os rest in
      (c ∷ ("(" <> node <> ")") ∷ hops, s, rw (e, found, hops_from) refl, has)

-- Where `propagate` gives a channel a label, the walk of `trace` over the recorded origins ends, and
-- ends at a channel that is seeded with the label.
pub hops_from-seed :
    (flows : Flows) (seeds : Labels) (r : Run) (c l : String)
    → IsDict seeds
    → propagate flows seeds ≡ some r
    → Has r.labels c l
    → (hops : List String) × (s : String) × (hops_from (suc (length r.origins)) c l r.origins
        ≡ some (hops ++ s ∷ []))
      × Has seeds s l
hops_from-seed flows seeds r c l d h has =
    let traced = propagate-IsTraced flows seeds r d h in
    hops_from-Ends seeds l r.origins
      (grounded-Ends seeds l r.origins traced.grounded c (traced.tracked c l ∙ has))

-- Then the trace is written.
pub trace_total :
    (flows : Flows) (seeds : Labels) (r : Run) (c l : String)
    → IsDict seeds
    → propagate flows seeds ≡ some r
    → Has r.labels c l
    → (text : String) × (trace c l r.origins ≡ some text)
unfolding trace
trace_total flows seeds r c l d h has =
    let (hops, s, walked, _) = hops_from-seed flows seeds r c l d h has in
    (join " <- " (hops ++ s ∷ []), rw (walked, trace) refl)
