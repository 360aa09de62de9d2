-- ===== src/Privacy/Compliance.antt =====
-- course_discovery/privacy/flow.py: the checks find nothing exactly when the declared flows keep
-- personal data where it is accepted and can be erased.
use course_discovery_agent.Prelude.{
  String, true, false, not, ◌||◌, some, List, [], ◌∷◌, ◌++◌, is_in, is_empty, ◌==◌, ◌≡◌, refl, inl,
  inr, ◌↔◌, arith, eq_iff, eq_refl, Bool-cases, All, sorted_set, is_in-sorted_set,
}
use course_discovery_agent.Prelude.Dict.{IsDict}
use course_discovery_agent.Prelude.Sets.{minus, is_in-minus, IsSubset}
use course_discovery_agent.Privacy.Flow.{Sink, NodeFlow, Flows, Labels, Origins, subject, inputs}
use course_discovery_agent.Privacy.Checks.{
  Violation, trace, flow_keys, uncovered, unknown, refused, refusal, unerased, check_sinks,
  check_nodes, check_flows,
}
use course_discovery_agent.Privacy.Spread.{
  Has, Shows, Reaches, source_total, shown_of, is_in-inputs,
}
use course_discovery_agent.Privacy.Fixpoint.{propagate-Reaches}
use course_discovery_agent.Privacy.Traces.{trace_total}
use course_discovery_agent.Privacy.Coverage.{
  append_nil, sorted_minus_nil, uncovered_nil, unknown_nil, AreKnown,
}

-- A sink accepts what the node gets, and erasure covers a store that gets data of the user.
abbrev pub IsFit : (String → Type 0) → List String → List String → Sink → Type 0
IsFit Gets erasable unerasable sink =
    ((l : String) → Gets l → is_in l sink.accepts ≡ true)
    × (sink.kind ≡ "store"
        → Gets subject
        → (is_in sink.name erasable ≡ true) × (is_in sink.name unerasable ≡ false))

abbrev AreFit : (NodeFlow → String → Type 0) → List String → List String → Flows → Type 0
AreFit Gets erasable unerasable flows =
    All (λ (n : String × NodeFlow). All (IsFit (Gets n.1) erasable unerasable) n.1.sinks) flows

-- A store that erasure does not cover is reported if it gets data of the user.
unerased_nil :
    (repr : String → String) (node : String) (incoming : List String) (sink : Sink)
    (erasable unerasable : List String)
    → (unerased repr node incoming sink erasable unerasable ≡ []) ↔ (
        sink.kind ≡ "store"
        → is_in subject incoming ≡ true
        → (is_in sink.name erasable ≡ true) × (is_in sink.name unerasable ≡ false))
unfolding unerased
unerased_nil repr node incoming sink erasable unerasable =
    elim (Bool-cases (not (sink.kind == "store") || not (is_in subject incoming))) [
      | inl e ↦ (λ h k g. absurd (ground (arith, eq_iff sink.kind "store")), λ h. rw e refl)
      | inr e ↦ (
        λ h k g. (ground arith, ground arith),
        λ h.
            let fit = h ((eq_iff sink.kind "store").0 (ground arith)) (ground arith) in
            rw (e, fit.0, fit.1) refl,
      )
    ]

module _ (repr : String → String) (labels : Labels) (origins : Origins)
    (traced : (c l : String)
      → Has labels c l
      → (text : String) × (trace c l origins ≡ some text)) where
  refused_total :
      (node : String) (spec : NodeFlow) (sink : Sink) (ls : List String)
      → IsSubset ls (inputs spec labels)
      → (vs : List Violation) × (refused repr labels origins node spec sink ls ≡ some vs)
        × ((vs ≡ []) ↔ (is_empty ls ≡ true))
  unfolding refused is_in
  refused_total node spec sink [] h = ([], refl, (λ e. refl, λ e. refl))
  refused_total node spec sink (l ∷ ls) h =
      let (from, found, _, has) = source_total spec labels l (h l (rw eq_refl refl)) in
      let (path, written) = traced from l has in
      let (vs, rest, _) = refused_total node spec sink ls (λ k m. h k (ground arith)) in
      (
        refusal repr node sink l path ∷ vs,
        rw (found, written, rest, refused) refl,
        (λ e. cc, λ e. cc),
      )

  module _ (erasable unerasable : List String) where
    check_sinks_total :
        (node : String) (spec : NodeFlow) (ss : List Sink)
        → (vs : List Violation) × (check_sinks repr labels origins node spec erasable unerasable ss
            ≡ some vs)
          × ((vs ≡ [])
              ↔ All (IsFit (λ l. is_in l (inputs spec labels) ≡ true) erasable unerasable) ss)
    unfolding check_sinks
    check_sinks_total node spec [] = ([], refl, (λ e. tt, λ e. refl))
    check_sinks_total node spec (s ∷ ss) =
        let got = inputs spec labels in
        let ls = sorted_set (minus got s.accepts) in
        let (bad, refusals, bad_nil) = refused_total node spec s ls (λ k m.
          ground (arith, is_in-sorted_set k (minus got s.accepts), is_in-minus k got s.accepts)) in
        let (rest, others, rest_nil) = check_sinks_total node spec ss in
        let left = unerased_nil repr node got s erasable unerasable in
        let accepted = sorted_minus_nil got s.accepts in
        (
          bad ++ (unerased repr node got s erasable unerasable ++ rest),
          rw (refusals, others, check_sinks) refl,
          (
            λ e.
                let (no_bad, e') = append_nil bad _ e in
                let (none_left, no_rest) = append_nil _ rest e' in
                ((accepted.0 (bad_nil.0 no_bad), left.0 none_left), rest_nil.0 no_rest),
            λ h. rw (bad_nil.1 (accepted.1 h.0.0), left.1 h.0.1, rest_nil.1 h.1) refl,
          ),
        )

    check_nodes_total :
        (flows : Flows)
        → (vs : List Violation) × (check_nodes repr labels origins erasable unerasable flows
            ≡ some vs)
          × ((vs ≡ [])
              ↔ AreFit (λ spec l. is_in l (inputs spec labels) ≡ true) erasable unerasable flows)
    unfolding check_nodes
    check_nodes_total [] = ([], refl, (λ e. tt, λ e. refl))
    check_nodes_total ((node, spec) ∷ flows) =
        let (bad, sinks, bad_nil) = check_sinks_total node spec spec.sinks in
        let (rest, others, rest_nil) = check_nodes_total flows in
        (
          bad ++ rest,
          rw (sinks, others, check_nodes) refl,
          (
            λ e. let (a, b) = append_nil bad rest e in (bad_nil.0 a, rest_nil.0 b),
            λ h. rw (bad_nil.1 h.0, rest_nil.1 h.1) refl,
          ),
        )

-- A label reaches a channel that shows it to the node.
abbrev pub Receives : Flows → Labels → NodeFlow → String → Type 0
Receives flows seeds spec l = (c : String) × Shows spec c l × Reaches flows seeds c l

module _ (G H : NodeFlow → String → Type 0)
    (to : (spec : NodeFlow) (l : String) → H spec l → G spec l)
    (erasable unerasable : List String) where
  AreFit_sinks :
      (spec : NodeFlow) (ss : List Sink)
      → All (IsFit (G spec) erasable unerasable) ss
      → All (IsFit (H spec) erasable unerasable) ss
  AreFit_sinks spec [] h = tt
  AreFit_sinks spec (s ∷ ss) h = (
    (λ l got. h.0.0 l (to spec l got), λ k got. h.0.1 k (to spec subject got)),
    AreFit_sinks spec ss h.1,
  )

  AreFit-transfer :
      (flows : Flows) → AreFit G erasable unerasable flows → AreFit H erasable unerasable flows
  AreFit-transfer [] h = tt
  AreFit-transfer ((node, spec) ∷ flows) h =
      (AreFit_sinks spec spec.sinks h.0, AreFit-transfer flows h.1)

-- What the checks are for, said without running them.
pub record IsPrivate (flows : Flows) (seeds : Labels)
    (graph_nodes channels erasable unerasable : List String) : Type 0 where
  pub covered : IsSubset graph_nodes (flow_keys flows)
  pub known : AreKnown channels flows
  pub fit : AreFit (Receives flows seeds) erasable unerasable flows

-- For seeds whose channels are distinct, `check_flows` ends without an exception, and it finds no
-- violation exactly if each node of the graph is declared, each declared channel is known, each sink
-- accepts every label that reaches its node, and erasure covers each store whose node data of the
-- user reaches.
pub check_flows-IsPrivate :
    (repr : String → String) (flows : Flows) (seeds : Labels)
    (graph_nodes channels erasable unerasable : List String)
    → IsDict seeds
    → (vs : List Violation) × (check_flows repr flows seeds graph_nodes channels erasable unerasable
        ≡ some vs)
      × ((vs ≡ []) ↔ IsPrivate flows seeds graph_nodes channels erasable unerasable)
unfolding check_flows
check_flows-IsPrivate repr flows seeds graph_nodes channels erasable unerasable d =
    let (r, spread, reached) = propagate-Reaches flows seeds in
    let (rest, checked, rest_nil) =
      check_nodes_total repr r.labels r.origins
        (λ c l has. trace_total flows seeds r c l d spread has) erasable unerasable flows in
    let gaps = uncovered_nil (sorted_set (minus graph_nodes (flow_keys flows))) in
    let declared = sorted_minus_nil graph_nodes (flow_keys flows) in
    let names = unknown_nil flows channels in
    let Gets = λ (spec : NodeFlow) (l : String). is_in l (inputs spec r.labels) ≡ true in
    let Gains = Receives flows seeds in
    (
      uncovered (sorted_set (minus graph_nodes (flow_keys flows)))
          ++ (unknown flows channels ++ rest),
      rw (spread, checked, check_flows) refl,
      (
        λ e.
            let (a, e') =
              append_nil (uncovered (sorted_set (minus graph_nodes (flow_keys flows)))) _ e in
            let (b, c) = append_nil (unknown flows channels) rest e' in
            record {
              covered = declared.0 (gaps.0 a);
              known = names.0 b;
              fit =
                  AreFit-transfer Gets Gains
                    (λ spec l got.
                      is_in-inputs spec r.labels l got.0 got.1 ((reached got.0 l).1 got.2))
                    erasable unerasable flows (rest_nil.0 c);
            },
        λ p.
            rw
              (
                gaps.1 (declared.1 p.covered),
                names.1 p.known,
                rest_nil.1 (
                    AreFit-transfer Gains Gets
                      (λ spec l got.
                        let (c, shows, has) = shown_of spec r.labels l got in
                        (c, shows, (reached c l).0 has))
                      erasable unerasable flows p.fit),
              )
              refl,
      ),
    )
