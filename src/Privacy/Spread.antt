-- ===== src/Privacy/Spread.antt =====
-- course_discovery/privacy/flow.py: which labels can reach which channels, and what one write, one
-- node and one round of `propagate` add.
use course_discovery_agent.Prelude.{
  String, true, false, not, ◌&&◌, some, List, [], ◌∷◌, is_in, ◌==◌, ◌≡◌, refl, inl, inr, arith, In,
  eq_iff, is_in-sorted_set, Bool-cases, sorted_set, subst,
}
use course_discovery_agent.Prelude.Sets.{is_in-union, is_in-minus}
use course_discovery_agent.Privacy.Flow.{
  NodeFlow, Labels, Flows, raw, labels_of, seen, inputs_from, inputs, source_among, source, keys,
}

-- A node sees a label of a channel that it reads, but not the raw label of one that it redacts.
abbrev pub Shows : NodeFlow → String → String → Type 0
Shows spec channel label =
    (is_in channel spec.reads ≡ true) × ((is_in channel spec.redacts && (raw == label)) ≡ false)

abbrev pub Writes : NodeFlow → String → Type 0
Writes spec channel =
    (is_in channel spec.writes ≡ true) × (is_in channel (keys spec.declassifies) ≡ false)

abbrev pub Has : Labels → String → String → Type 0
Has labels channel label = is_in label (labels_of channel labels) ≡ true

-- The channels that a label reaches from the seeds through the nodes.
pub data Reaches (flows : Flows) (seeds : Labels) : String → String → Type 0 where
  seed : {channel label : String} → Has seeds channel label → Reaches flows seeds channel label
  through :
      {from to label : String} (node : String) (spec : NodeFlow)
      → In (node, spec) flows
      → Shows spec from label
      → Writes spec to
      → Reaches flows seeds from label
      → Reaches flows seeds to label

pub is_in-seen :
    (spec : NodeFlow) (labels : Labels) (c l : String)
    → is_in l (seen spec labels c)
      ≡ (is_in l (labels_of c labels) && not (is_in c spec.redacts && (raw == l)))
unfolding seen is_in
is_in-seen spec labels c l = ground (arith, is_in-minus l (labels_of c labels) (raw ∷ []))

module _ (spec : NodeFlow) (labels : Labels) (l : String) where
  input_from :
      (cs : List String)
      → is_in l (inputs_from spec labels cs) ≡ true
      → (c : String) × (is_in c cs ≡ true) × (is_in l (seen spec labels c) ≡ true)
  unfolding inputs_from is_in
  input_from [] h = cc
  input_from (c ∷ cs) h = elim (Bool-cases (is_in l (seen spec labels c))) [
    | inl e ↦ (c, ground (arith, eq_iff c c), e)
    | inr e ↦
        let (d, found, shown) =
          input_from cs
            (ground (arith, is_in-union l (inputs_from spec labels cs) (seen spec labels c))) in
        (d, ground arith, shown)
  ]

  to_input :
      (c : String) (cs : List String)
      → is_in c cs ≡ true
      → is_in l (seen spec labels c) ≡ true
      → is_in l (inputs_from spec labels cs) ≡ true
  unfolding inputs_from is_in
  to_input c [] h g = cc
  to_input c (d ∷ cs) h g = ground (
    arith,
    eq_iff d c,
    is_in-union l (inputs_from spec labels cs) (seen spec labels d),
    to_input c cs,
  )

  -- A node takes in exactly the labels that some channel shows it.
  pub shown_of :
      is_in l (inputs spec labels) ≡ true → (c : String) × Shows spec c l × Has labels c l
  unfolding inputs
  shown_of h =
      let (c, read, shown) = input_from spec.reads h in
      (
        c,
        (read, ground (arith, is_in-seen spec labels c l)),
        ground (arith, is_in-seen spec labels c l),
      )

  pub is_in-inputs :
      (c : String) → Shows spec c l → Has labels c l → is_in l (inputs spec labels) ≡ true
  unfolding inputs
  is_in-inputs c shows has =
      to_input c spec.reads shows.0 (rw (is_in-seen spec labels c l, has, shows.1) refl)

  source_among_total :
      (c : String) (cs : List String)
      → is_in c cs ≡ true
      → is_in l (seen spec labels c) ≡ true
      → (s : String) × (source_among spec labels l cs ≡ some s)
        × (is_in s cs ≡ true)
        × (is_in l (seen spec labels s) ≡ true)
  unfolding source_among is_in
  source_among_total c [] h g = cc
  source_among_total c (d ∷ cs) h g = elim (Bool-cases (is_in l (seen spec labels d))) [
    | inl e ↦ (d, rw e refl, ground (arith, eq_iff d d), e)
    | inr e ↦
        let (s, found, member, shown) = source_among_total c cs (ground (arith, eq_iff d c)) g in
        (s, rw (e, found) refl, ground arith, shown)
  ]

  -- For a label that a node takes in there is a source, which shows it.
  pub source_total :
      is_in l (inputs spec labels) ≡ true
      → (s : String) × (source spec labels l ≡ some s) × Shows spec s l × Has labels s l
  unfolding inputs source
  source_total h =
      let (c, read, shown) = input_from spec.reads h in
      let (s, found, member, here) =
        source_among_total c (sorted_set spec.reads) (rw (is_in-sorted_set c spec.reads) read)
          shown in
      (
        s,
        found,
        (ground (arith, is_in-sorted_set s spec.reads), ground (arith, is_in-seen spec labels s l)),
        ground (arith, is_in-seen spec labels s l),
      )

  source_among_shows :
      (s : String) (cs : List String)
      → source_among spec labels l cs ≡ some s
      → is_in l (seen spec labels s) ≡ true
  unfolding source_among
  source_among_shows s [] h = cc
  source_among_shows s (c ∷ cs) h = elim (Bool-cases (is_in l (seen spec labels c))) [
    | inl e ↦
        let same : c ≡ s = cc (rw e at h) in subst (λ x. is_in l (seen spec labels x) ≡ true) same e
    | inr e ↦ source_among_shows s cs (rw e at h)
  ]

  pub source_shows : (s : String) → source spec labels l ≡ some s → Has labels s l
  unfolding source
  source_shows s h =
      let shown = source_among_shows s (sorted_set spec.reads) h in
      ground (arith, is_in-seen spec labels s l)
