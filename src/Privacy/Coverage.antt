-- ===== src/Privacy/Coverage.antt =====
-- course_discovery/privacy/flow.py: the checks that every node is declared and names known channels.
use course_discovery_agent.Prelude.{
  String, true, false, ◌||◌, List, [], ◌∷◌, ◌++◌, is_in, is_empty, ◌≡◌, refl, inl, inr, ◌↔◌, arith,
  Bool-cases, All, sorted_set, is_in-sorted_set, ◌∙◌, sym,
}
use course_discovery_agent.Prelude.Sets.{
  union, minus, is_in-union, is_in-minus, member_of, is_in_empty, IsSubset,
}
use course_discovery_agent.Privacy.Flow.{NodeFlow, Flows, keys}
use course_discovery_agent.Privacy.Checks.{Violation, uncovered, unknown_channels, unknown}

pub append_nil : (xs ys : List Violation) → (xs ++ ys ≡ []) → (xs ≡ []) × (ys ≡ [])
append_nil [] ys h = (refl, h)
append_nil (x ∷ xs) ys h = cc

empty_of : (xs : List String) → ((k : String) → is_in k xs ≡ false) → is_empty xs ≡ true
empty_of xs h = elim (Bool-cases (is_empty xs)) [
  | inl e ↦ e
  | inr e ↦ let (k, m) = member_of xs e in absurd (ground (arith, h k))
]

-- Nothing is left of one set without another exactly if the other holds all of it.
minus_nil : (xs ys : List String) → (is_empty (minus xs ys) ≡ true) ↔ IsSubset xs ys
minus_nil xs ys = (
  λ h k m. ground (arith, is_in_empty k (minus xs ys) h, is_in-minus k xs ys),
  λ h. empty_of (minus xs ys) (λ k. ground (arith, is_in-minus k xs ys, h k)),
)

pub sorted_minus_nil :
    (xs ys : List String) → (is_empty (sorted_set (minus xs ys)) ≡ true) ↔ IsSubset xs ys
sorted_minus_nil xs ys = (
  λ h k m. ground (
    arith,
    is_in_empty k (sorted_set (minus xs ys)) h,
    is_in-sorted_set k (minus xs ys),
    is_in-minus k xs ys,
  ),
  λ h.
      empty_of (sorted_set (minus xs ys))
        (λ k. ground (arith, is_in-sorted_set k (minus xs ys), is_in-minus k xs ys, h k)),
)

pub uncovered_nil : (ns : List String) → (uncovered ns ≡ []) ↔ (is_empty ns ≡ true)
unfolding uncovered
uncovered_nil [] = (λ h. refl, λ h. refl)
uncovered_nil (n ∷ ns) = (λ h. cc, λ h. cc)

-- The channels that a node's declaration names.
abbrev pub Names : NodeFlow → String → Type 0
Names spec c =
    (is_in c spec.reads
      || is_in c spec.writes
      || is_in c spec.redacts
      || is_in c (keys spec.declassifies))
    ≡ true

abbrev pub AreKnown : List String → Flows → Type 0
AreKnown channels flows =
    All (λ (n : String × NodeFlow). (c : String) → Names n.1 c → is_in c channels ≡ true) flows

all_names : NodeFlow → List String
all_names spec = union (union (union spec.reads spec.writes) spec.redacts) (keys spec.declassifies)

is_in-all_names :
    (c : String) (spec : NodeFlow)
    → is_in c (all_names spec) ≡ (
        is_in c spec.reads
        || is_in c spec.writes
        || is_in c spec.redacts
        || is_in c (keys spec.declassifies))
unfolding all_names
is_in-all_names c spec = ground (
  arith,
  is_in-union c (union (union spec.reads spec.writes) spec.redacts) (keys spec.declassifies),
  is_in-union c (union spec.reads spec.writes) spec.redacts,
  is_in-union c spec.reads spec.writes,
)

names_lem :
    (spec : NodeFlow) (channels : List String)
    → (is_empty (unknown_channels spec channels) ≡ true)
      ↔ ((c : String) → Names spec c → is_in c channels ≡ true)
unfolding unknown_channels
names_lem spec channels =
    let less = minus_nil (all_names spec) channels in
    (
      λ h c m. less.0 (unfold all_names in h) c (is_in-all_names c spec ∙ m),
      λ h. unfold all_names in less.1 (λ k m. h k (sym (is_in-all_names k spec) ∙ m)),
    )

pub unknown_nil :
    (flows : Flows) (channels : List String)
    → (unknown flows channels ≡ []) ↔ AreKnown channels flows
unfolding unknown
unknown_nil [] channels = (λ h. tt, λ h. refl)
unknown_nil ((node, spec) ∷ flows) channels =
    let here = names_lem spec channels in
    let rest = unknown_nil flows channels in
    elim (Bool-cases (is_empty (unknown_channels spec channels))) [
      | inl e ↦ rw e (λ h. (here.0 e, rest.0 h), λ h. rest.1 h.1)
      | inr e ↦ rw e (λ h. cc, λ h. cc (here.1 h.0))
    ]
