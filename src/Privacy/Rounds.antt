-- ===== src/Privacy/Rounds.antt =====
-- course_discovery/privacy/flow.py: what one round of `propagate` adds.
use course_discovery_agent.Prelude.{
  String, true, false, some, [], ◌∷◌, is_in, ◌≡◌, refl, ◌⊎◌, inl, inr, arith, In, Bool-cases,
  is_in-append, ◌∙◌, subst,
}
use course_discovery_agent.Prelude.Sets.{is_in-minus}
use course_discovery_agent.Privacy.Flow.{
  NodeFlow, Labels, Flows, labels_of, inputs, Run, sweep, keys, targets, all_targets,
}
use course_discovery_agent.Privacy.Spread.{Has, Reaches, through, shown_of}
use course_discovery_agent.Privacy.Writes.{Spreads, visit-Spreads}

-- Nothing is missing: each of the nodes has passed on all that it takes in.
abbrev pub IsClosed : Flows → Labels → Type 0
IsClosed [] labels = Unit
IsClosed ((node, spec) ∷ flows) labels =
    ((k l : String)
      → is_in k (targets spec) ≡ true
      → is_in l (inputs spec labels) ≡ true
      → Has labels k l)
    × IsClosed flows labels

abbrev pub IsSound : Flows → Labels → Labels → Type 0
IsSound flows seeds labels = (k l : String) → Has labels k l → Reaches flows seeds k l

-- What a round does: the labels only grow, they stay reachable, and either nothing was missing, or a pair was added.
pub record Sweeps (flows : Flows) (r r' : Run) : Type 0 where
  pub grows : (k l : String) → Has r.labels k l → Has r'.labels k l
  pub sound :
      (whole : Flows) (seeds : Labels)
      → ((node : String) (spec : NodeFlow) → In (node, spec) flows → In (node, spec) whole)
      → IsSound whole seeds r.labels
      → IsSound whole seeds r'.labels
  pub progress :
      ((r' ≡ r) × IsClosed flows r.labels)
      ⊎ ((r'.changed ≡ true)
          × ((k : String) × (l : String) × (is_in k (all_targets flows) ≡ true)
              × (is_in l (labels_of k r.labels) ≡ false)
              × Has r'.labels k l))

Spreads-IsSound :
    (node : String) (spec : NodeFlow) (r s : Run)
    → Spreads (targets spec) (inputs spec r.labels) r s
    → (whole : Flows) (seeds : Labels) → In (node, spec) whole
    → IsSound whole seeds r.labels
    → IsSound whole seeds s.labels
unfolding targets
Spreads-IsSound node spec r s h whole seeds member sound k l has =
    elim (Bool-cases (is_in l (labels_of k r.labels))) [
      | inl old ↦ sound k l old
      | inr new ↦
          let (c, shows, from) = shown_of spec r.labels l (ground (arith, h.adds k l)) in
          through node spec member shows
            (
              ground (arith, h.adds k l, is_in-minus k spec.writes (keys spec.declassifies)),
              ground (arith, h.adds k l, is_in-minus k spec.writes (keys spec.declassifies)),
            )
            (sound c l from)
    ]

Sweeps-cons :
    (node : String) (spec : NodeFlow) (flows : Flows) (r s t : Run)
    → Spreads (targets spec) (inputs spec r.labels) r s
    → Sweeps flows s t
    → Sweeps ((node, spec) ∷ flows) r t
unfolding all_targets
Sweeps-cons node spec flows r s t first rest = record {
  grows = λ k l has. rest.grows k l (ground (arith, first.adds k l));
  sound = λ whole seeds known sound.
      rest.sound whole seeds (λ n f m. known n f (inr m))
        (Spreads-IsSound node spec r s first whole seeds (known node spec (inl refl)) sound);
  progress = elim rest.progress [
    | inl (same, closed) ↦ elim first.progress [
      | inl start ↦ inl (
        same ∙ start,
        (
          λ k l written comes.
              subst (λ (x : Run). Has x.labels k l) start (ground (arith, first.adds k l)),
          subst (λ (x : Run). IsClosed flows x.labels) start closed,
        ),
      )
      | inr (changed, (k, l, member, comes, new)) ↦ inr (
        rw same changed,
        (
          k,
          l,
          ground (arith, is_in-append k (targets spec) (all_targets flows)),
          new,
          rest.grows k l (ground (arith, first.adds k l)),
        ),
      )
    ]
    | inr (changed, (k, l, member, new, has)) ↦ inr (
      changed,
      (
        k,
        l,
        ground (arith, is_in-append k (targets spec) (all_targets flows)),
        ground (arith, first.adds k l),
        has,
      ),
    )
  ];
}

-- A round always ends, without an exception.
pub sweep-Sweeps :
    (flows : Flows) (r : Run) → (r' : Run) × (sweep flows r ≡ some r') × Sweeps flows r r'
unfolding sweep
sweep-Sweeps [] r = (
  r,
  refl,
  record {
    grows = λ k l has. has;
    sound = λ whole seeds known sound. sound;
    progress = inl (refl, tt);
  },
)
sweep-Sweeps ((node, spec) ∷ flows) r =
    let (s, visited, first) = visit-Spreads node spec r in
    let (t, rest, more) = sweep-Sweeps flows s in
    (t, rw (visited, sweep) rest, Sweeps-cons node spec flows r s t first more)
