-- ===== src/Privacy/Fixpoint.antt =====
-- course_discovery/privacy/flow.py: the loop of `propagate` ends, and finds what labels reach.
use course_discovery_agent.Prelude.{
  ℕ, zero, suc, ◌<◌, ◌≤◌, String, true, false, some, List, [], ◌∷◌, is_in, ◌==◌, ◌≡◌, refl, inl,
  inr, ◌↔◌, arith, In, eq_iff, is_in-append, subst, Bool-cases, ap,
}
use course_discovery_agent.Prelude.Dict.{get}
use course_discovery_agent.Prelude.Sets.{minus_mono, minus-strict, is_in-minus}
use course_discovery_agent.Privacy.Flow.{
  NodeFlow, Labels, Flows, labels_of, inputs, Run, settle, targets, keys, all_targets, all_labels,
  missing, propagate, seeded,
}
use course_discovery_agent.Privacy.Spread.{Has, Reaches, seed, through, is_in-inputs}
use course_discovery_agent.Privacy.Rounds.{IsClosed, IsSound, sweep-Sweeps}

module _ (all : List String) (a b : Labels) (more : (k l : String) → Has a k l → Has b k l) where
  missing_mono : (cs : List String) → missing cs all b ≤ missing cs all a
  unfolding missing
  missing_mono [] = omega arith
  missing_mono (c ∷ cs) =
      omega (arith, minus_mono all (labels_of c a) (labels_of c b) (more c), missing_mono cs)

  missing-strict :
      (k l : String) (cs : List String)
      → is_in k cs ≡ true
      → is_in l all ≡ true
      → is_in l (labels_of k a) ≡ false
      → Has b k l
      → missing cs all b < missing cs all a
  unfolding missing is_in
  missing-strict k l [] h m new has = cc
  missing-strict k l (c ∷ cs) h m new has = elim (Bool-cases (c == k)) [
    | inl e ↦
        let same = (eq_iff c k).0 e in
        let here =
          minus-strict all (labels_of c a) (labels_of c b) (more c) l m (rw same new)
            (rw same has) in
        omega (arith, here, missing_mono cs)
    | inr e ↦ omega (
      arith,
      minus_mono all (labels_of c a) (labels_of c b) (more c),
      missing-strict k l cs (ground arith) m new has,
    )
  ]

labels_of-all : (k l : String) (seeds : Labels) → Has seeds k l → is_in l (all_labels seeds) ≡ true
unfolding labels_of get all_labels is_in
labels_of-all k l [] h = cc
labels_of-all k l ((c, found) ∷ seeds) h =
    ground (arith, is_in-append l found (all_labels seeds), labels_of-all k l seeds)

module _ (flows : Flows) (seeds : Labels) where
  -- Only labels of the seeds reach anything.
  Reaches-label : {k l : String} → Reaches flows seeds k l → is_in l (all_labels seeds) ≡ true
  Reaches-label (seed {channel} {label} has) = labels_of-all channel label seeds has
  Reaches-label (through node spec member shows writes before) = Reaches-label before

  -- What the loop of `propagate` leaves.
  pub record Settles (labels : Labels) : Type 0 where
    pub grows : (k l : String) → Has seeds k l → Has labels k l
    pub sound : IsSound flows seeds labels
    pub closed : IsClosed flows labels

  settle_total :
      (fuel : ℕ) (r : Run)
      → missing (all_targets flows) (all_labels seeds) r.labels < fuel
      → ((k l : String) → Has seeds k l → Has r.labels k l)
      → IsSound flows seeds r.labels
      → (r' : Run) × (settle fuel flows r ≡ some r') × Settles r'.labels
  unfolding settle
  settle_total zero r h grows sound = absurd (omega arith)
  settle_total (suc fuel) r h grows sound =
      let start = record r { changed = false } in
      let (s, swept, round) = sweep-Sweeps flows start in
      let sound' = round.sound flows seeds (λ n f m. m) sound in
      elim round.progress [
        | inl (same, closed) ↦ (
          start,
          rw (swept, settle, same) (ap some same),
          record { grows = grows; sound = sound; closed = closed },
        )
        | inr (changed, (k, l, member, new, has)) ↦
            let less =
              missing-strict (all_labels seeds) r.labels s.labels round.grows k l
                (all_targets flows) member (Reaches-label (sound' k l has)) new has in
            let (t, rest, settles) =
              settle_total fuel s (omega arith) (λ k l has. round.grows k l (grows k l has))
                sound' in
            (t, rw (swept, settle, changed) rest, settles)
      ]

  closed_at :
      (fs : Flows) (labels : Labels) (node : String) (spec : NodeFlow)
      → IsClosed fs labels
      → In (node, spec) fs
      → (k l : String) → is_in k (targets spec) ≡ true
      → is_in l (inputs spec labels) ≡ true
      → Has labels k l
  closed_at [] labels node spec closed member k l = elim member [ ]
  closed_at ((n, f) ∷ fs) labels node spec closed (inl same) k l =
      subst
        (λ (x : String × NodeFlow).
          is_in k (targets x.1) ≡ true → is_in l (inputs x.1 labels) ≡ true → Has labels k l)
        same (closed.0 k l)
  closed_at ((n, f) ∷ fs) labels node spec closed (inr rest) k l =
      closed_at fs labels node spec closed.1 rest k l

  complete :
      (labels : Labels) → Settles labels → {k l : String} → Reaches flows seeds k l → Has labels k l
  unfolding targets
  complete labels h (seed {channel} {label} has) = h.grows channel label has
  complete labels h (through {from} {to} {label} node spec member shows writes before) =
      closed_at flows labels node spec h.closed member to label
        (rw (is_in-minus to spec.writes (keys spec.declassifies), writes.0, writes.1) refl)
        (is_in-inputs spec labels label from shows (complete labels h before))

  -- `propagate` ends without an exception, and a channel then has a label exactly if the label
  -- reaches it from the seeds through nodes that show it and write it on.
  pub propagate-Reaches :
      (r : Run) × (propagate flows seeds ≡ some r)
      × ((k l : String) → Has r.labels k l ↔ Reaches flows seeds k l)
  unfolding propagate
  propagate-Reaches =
      let (r, settled, h) =
        settle_total (suc (missing (all_targets flows) (all_labels seeds) seeds))
          (record { labels = seeds; origins = seeded seeds; changed = true }) (omega arith)
          (λ k l has. has) (λ k l has. seed has) in
      (r, settled, λ k l. (h.sound k l, complete r.labels h))
