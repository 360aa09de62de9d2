-- ===== src/Privacy/Flow.antt =====
-- course_discovery/privacy/flow.py: labels of personal data, and how they spread over channels.
use course_discovery_agent.Prelude.{
  ℕ, zero, suc, ◌+◌, String, Bool, true, false, ◌&&◌, Option, none, some, List, [], ◌∷◌, is_in,
  is_empty, sorted_set, if◌then◌else◌, length, ◌==◌, ◌++◌,
}
use course_discovery_agent.Prelude.Dict.{Dict, get, put}
use course_discovery_agent.Prelude.Sets.{union, minus}

abbrev pub subject : String
subject = "subject"

abbrev pub raw : String
raw = "raw"

pub record Sink : Type 0 where
  pub name : String
  pub kind : String
  pub accepts : List String

unfoldable pub store : String → List String → Sink
store name accepts = record { name = name; kind = "store"; accepts = accepts }

unfoldable pub external : String → List String → Sink
external name accepts = record { name = name; kind = "external"; accepts = accepts }

-- What a node reads, writes, sends away, sees only redacted, and writes without personal data.
pub record NodeFlow : Type 0 where
  pub reads : List String
  pub writes : List String
  pub sinks : List Sink
  pub redacts : List String
  pub declassifies : Dict String

abbrev pub Flows : Type 0
Flows = Dict NodeFlow

abbrev pub Labels : Type 0
Labels = Dict (List String)

-- `labels.get(channel, frozenset())`
unfoldable pub labels_of : String → Labels → List String
labels_of channel labels = elim (get channel labels) [ none ↦ [] | some found ↦ found ]

-- An assignment `origins[(channel, label)] = via`; a later one replaces an earlier one.
pub record Origin : Type 0 where
  pub channel : String
  pub label : String
  pub via : Option (String × String)

-- The assignments to the dictionary, the latest first.
abbrev pub Origins : Type 0
Origins = List Origin

-- `origins.get((channel, label))`
unfoldable pub origin_of : String → String → Origins → Option (String × String)
origin_of channel label [] = none
origin_of channel label (o ∷ os) =
    if (o.channel == channel) && (o.label == label) then o.via else origin_of channel label os

unfoldable pub seen : NodeFlow → Labels → String → List String
seen spec labels channel =
    if is_in channel spec.redacts
    then minus (labels_of channel labels) (raw ∷ [])
    else labels_of channel labels

unfoldable pub inputs_from : NodeFlow → Labels → List String → List String
inputs_from spec labels [] = []
inputs_from spec labels (c ∷ cs) = union (inputs_from spec labels cs) (seen spec labels c)

unfoldable pub inputs : NodeFlow → Labels → List String
inputs spec labels = inputs_from spec labels spec.reads

-- The first channel that shows the label; `none` stands for the `StopIteration` of `next`.
unfoldable pub source_among : NodeFlow → Labels → String → List String → Option String
source_among spec labels label [] = none
source_among spec labels label (c ∷ cs) =
    if is_in label (seen spec labels c) then some c else source_among spec labels label cs

unfoldable pub source : NodeFlow → Labels → String → Option String
source spec labels label = source_among spec labels label (sorted_set spec.reads)

pub record Run : Type 0 where
  pub labels : Labels
  pub origins : Origins
  pub changed : Bool

-- `for label in new: origins[(channel, label)] = (node, _source(spec, labels, label))`
unfoldable pub note : String → NodeFlow → Labels → String → List String → Origins → Option Origins
note node spec labels channel [] origins = some origins
note node spec labels channel (l ∷ ls) origins = elim (source spec labels l) [
  | none ↦ none
  | some from ↦
      note node spec labels channel ls
        (record { channel = channel; label = l; via = some (node, from) } ∷ origins)
]

-- The body of the loop over the channels that a node writes.
unfoldable pub write : String → NodeFlow → List String → String → Run → Option Run
write node spec incoming channel r =
    let fresh = minus incoming (labels_of channel r.labels) in
    if is_empty fresh then some r else elim (note node spec r.labels channel fresh r.origins) [
      | none ↦ none
      | some origins ↦ some (record {
        labels = put channel (union (labels_of channel r.labels) fresh) r.labels;
        origins = origins;
        changed = true;
      })
    ]

unfoldable pub write_all : String → NodeFlow → List String → List String → Run → Option Run
write_all node spec incoming [] r = some r
write_all node spec incoming (c ∷ cs) r = elim (write node spec incoming c r) [
  | none ↦ none
  | some r' ↦ write_all node spec incoming cs r'
]

unfoldable pub keys : Dict String → List String
keys [] = []
keys ((k, v) ∷ d) = k ∷ keys d

-- `spec.writes - set(spec.declassifies)`
unfoldable pub targets : NodeFlow → List String
targets spec = minus spec.writes (keys spec.declassifies)

-- The body of the loop over the nodes.
unfoldable pub visit : String → NodeFlow → Run → Option Run
visit node spec r =
    let incoming = inputs spec r.labels in
    if is_empty incoming then some r else write_all node spec incoming (targets spec) r

unfoldable pub sweep : Flows → Run → Option Run
sweep [] r = some r
sweep ((node, spec) ∷ flows) r = elim (visit node spec r) [ none ↦ none | some r' ↦ sweep flows r' ]

-- `while changed`, with fuel; `none` means that the fuel ran out or that an exception was raised.
unfoldable pub settle : ℕ → Flows → Run → Option Run
settle zero flows r = none
settle (suc fuel) flows r = elim (sweep flows (record r { changed = false })) [
  | none ↦ none
  | some r' ↦ elim r'.changed [ true ↦ settle fuel flows r' | false ↦ some r' ]
]

unfoldable pub seeded_from : String → List String → Origins → Origins
seeded_from channel [] origins = origins
seeded_from channel (l ∷ ls) origins =
    record { channel = channel; label = l; via = none } ∷ seeded_from channel ls origins

unfoldable pub seeded : Labels → Origins
seeded [] = []
seeded ((channel, found) ∷ seeds) = seeded_from channel found (seeded seeds)

-- Where labels may still arrive, and which there are.
unfoldable pub all_targets : Flows → List String
all_targets [] = []
all_targets ((node, spec) ∷ flows) = targets spec ++ all_targets flows

unfoldable pub all_labels : Labels → List String
all_labels [] = []
all_labels ((channel, found) ∷ seeds) = found ++ all_labels seeds

-- How many pairs of a written channel and a label are not there yet.
unfoldable pub missing : List String → List String → Labels → ℕ
missing [] all labels = 0
missing (c ∷ cs) all labels = length (minus all (labels_of c labels)) + missing cs all labels

-- Each round but the last adds a pair that was missing.
unfoldable pub propagate : Flows → Labels → Option Run
propagate flows seeds =
    settle (suc (missing (all_targets flows) (all_labels seeds) seeds)) flows
      (record { labels = seeds; origins = seeded seeds; changed = true })
