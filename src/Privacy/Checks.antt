-- ===== src/Privacy/Checks.antt =====
-- course_discovery/privacy/flow.py: the trace of a label back to a seed, and the checks of the
-- declared flows. `repr` is Python's `repr` of a text.
use course_discovery_agent.Prelude.{
  ℕ, zero, suc, String, not, ◌||◌, Option, none, some, List, [], ◌∷◌, ◌++◌, is_in, sorted_set,
  if◌then◌else◌, length, ◌==◌, ◌<>◌, join, is_empty,
}
use course_discovery_agent.Prelude.Sets.{union, minus}
use course_discovery_agent.Privacy.Flow.{
  Sink, NodeFlow, Flows, Labels, Origins, origin_of, subject, inputs, source, keys, propagate,
}

-- The loop of `trace`, with fuel; `none` means that the fuel ran out.
unfoldable pub hops_from : ℕ → String → String → Origins → Option (List String)
hops_from zero channel label origins = none
hops_from (suc fuel) channel label origins = elim (origin_of channel label origins) [
  | none ↦ some (channel ∷ [])
  | some (node, before) ↦ elim (hops_from fuel before label origins) [
    | none ↦ none
    | some hops ↦ some (channel ∷ ("(" <> node <> ")") ∷ hops)
  ]
]

-- Each hop but the last leads to an earlier assignment.
unfoldable pub trace : String → String → Origins → Option String
trace channel label origins = elim (hops_from (suc (length origins)) channel label origins) [
  | none ↦ none
  | some hops ↦ some (join " <- " hops)
]

pub record Violation : Type 0 where
  pub rule : String
  pub node : String
  pub detail : String

unfoldable pub flow_keys : Flows → List String
flow_keys [] = []
flow_keys ((k, v) ∷ d) = k ∷ flow_keys d

unfoldable pub uncovered : List String → List Violation
uncovered [] = []
uncovered (n ∷ ns) =
    record { rule = "coverage"; node = n; detail = "node has no flow declaration" } ∷ uncovered ns

-- `(spec.reads | spec.writes | spec.redacts | set(spec.declassifies)) - channels`
unfoldable pub unknown_channels : NodeFlow → List String → List String
unknown_channels spec channels =
    minus (union (union (union spec.reads spec.writes) spec.redacts) (keys spec.declassifies))
      channels

unfoldable pub unknown : Flows → List String → List Violation
unknown [] channels = []
unknown ((node, spec) ∷ flows) channels =
    let found = unknown_channels spec channels in
    if is_empty found
    then unknown flows channels
    else record { rule = "unknown-channel"; node = node; detail = join ", " (sorted_set found) }
      ∷ unknown flows channels

-- The violation for a label that a sink does not accept.
unfoldable pub refusal : (String → String) → String → Sink → String → String → Violation
refusal repr node sink label path = record {
  rule = "sink-accepts";
  node = node;
  detail =
      repr label
      <> (" data reaches " <> (sink.kind <> (" sink " <> (repr sink.name <> (": " <> path)))));
}

unfoldable pub unerased :
    (String → String) → String → List String → Sink → List String → List String → List Violation
unerased repr node incoming sink erasable unerasable =
    if not (sink.kind == "store") || not (is_in subject incoming)
    then []
    else if is_in sink.name unerasable || not (is_in sink.name erasable)
    then record {
      rule = "erasable";
      node = node;
      detail =
          "subject data reaches store " <> (repr sink.name <> ", which erasure does not cover");
    }
      ∷ []
    else []

module _ (repr : String → String) (labels : Labels) (origins : Origins) where
  unfoldable pub refused : String → NodeFlow → Sink → List String → Option (List Violation)
  refused node spec sink [] = some []
  refused node spec sink (l ∷ ls) = elim (source spec labels l) [
    | none ↦ none
    | some from ↦ elim (trace from l origins) [
      | none ↦ none
      | some path ↦ elim (refused node spec sink ls) [
        | none ↦ none
        | some rest ↦ some (refusal repr node sink l path ∷ rest)
      ]
    ]
  ]

  unfoldable pub check_sinks :
      String → NodeFlow → List String → List String → List Sink → Option (List Violation)
  check_sinks node spec erasable unerasable [] = some []
  check_sinks node spec erasable unerasable (s ∷ ss) =
      elim (refused node spec s (sorted_set (minus (inputs spec labels) s.accepts))) [
        | none ↦ none
        | some bad ↦ elim (check_sinks node spec erasable unerasable ss) [
          | none ↦ none
          | some rest ↦
              some (bad ++ (unerased repr node (inputs spec labels) s erasable unerasable ++ rest))
        ]
      ]

  unfoldable pub check_nodes : List String → List String → Flows → Option (List Violation)
  check_nodes erasable unerasable [] = some []
  check_nodes erasable unerasable ((node, spec) ∷ flows) =
      elim (check_sinks node spec erasable unerasable spec.sinks) [
        | none ↦ none
        | some bad ↦ elim (check_nodes erasable unerasable flows) [
          | none ↦ none
          | some rest ↦ some (bad ++ rest)
        ]
      ]

-- `none` stands for an exception or for a loop that does not end.
unfoldable pub check_flows :
    (String → String)
    → Flows
    → Labels
    → List String
    → List String
    → List String
    → List String
    → Option (List Violation)
check_flows repr flows seeds graph_nodes channels erasable unerasable =
    elim (propagate flows seeds) [
      | none ↦ none
      | some r ↦ elim (check_nodes repr r.labels r.origins erasable unerasable flows) [
        | none ↦ none
        | some rest ↦ some (
            uncovered (sorted_set (minus graph_nodes (flow_keys flows)))
            ++ (unknown flows channels ++ rest))
      ]
    ]
