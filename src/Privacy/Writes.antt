-- ===== src/Privacy/Writes.antt =====
-- course_discovery/privacy/flow.py: what one write and one node add to the labels.
use course_discovery_agent.Prelude.{
  String, true, false, ◌&&◌, ◌||◌, some, List, [], ◌∷◌, is_in, is_empty, ◌==◌, ◌≡◌, refl, ◌⊎◌, inl,
  inr, arith, eq_iff, Bool-cases, if◌then◌else◌,
}
use course_discovery_agent.Prelude.Dict.{put, get-put}
use course_discovery_agent.Prelude.Sets.{
  union, minus, is_in-union, is_in-minus, IsSubset, member_of, is_in_empty,
}
use course_discovery_agent.Privacy.Flow.{
  NodeFlow, Labels, labels_of, inputs, Run, note, write, write_all, visit, targets, Origins,
}
use course_discovery_agent.Privacy.Spread.{Has, source_total, shown_of, is_in-inputs}

pub labels_of-put :
    (j k : String) (v : List String) (d : Labels)
    → labels_of j (put k v d) ≡ (if k == j then v else labels_of j d)
unfolding labels_of
labels_of-put j k v d = ground (arith, get-put k j v d)

note_total :
    (node : String) (spec : NodeFlow) (labels : Labels) (channel : String) (ls : List String)
    (origins : Origins)
    → IsSubset ls (inputs spec labels)
    → (os : Origins) × (note node spec labels channel ls origins ≡ some os)
unfolding note is_in
note_total node spec labels channel [] origins h = (origins, refl)
note_total node spec labels channel (l ∷ ls) origins h =
    let (s, found, _, _) = source_total spec labels l (h l (ground (arith, eq_iff l l))) in
    let (os, rest) =
      note_total node spec labels channel ls
        (record { channel = channel; label = l; via = some (node, s) } ∷ origins)
        (λ k m. h k (ground arith)) in
    (os, rw (found, note) rest)

-- What a pass over some channels does to the labels: each of them gets what came in, and either
-- nothing was missing and nothing changes, or something was.
pub record Spreads (channels incoming : List String) (r r' : Run) : Type 0 where
  pub adds :
      (k l : String)
      → is_in l (labels_of k r'.labels)
        ≡ (is_in l (labels_of k r.labels) || (is_in k channels && is_in l incoming))
  pub progress :
      (r' ≡ r)
      ⊎ ((r'.changed ≡ true)
          × ((k : String) × (l : String) × (is_in k channels ≡ true)
              × (is_in l incoming ≡ true)
              × (is_in l (labels_of k r.labels) ≡ false)))

module _ (node : String) (spec : NodeFlow) (incoming : List String) where
  write-Spreads :
      (c : String) (r : Run)
      → IsSubset incoming (inputs spec r.labels)
      → (r' : Run) × (write node spec incoming c r ≡ some r') × Spreads (c ∷ []) incoming r r'
  unfolding write is_in
  write-Spreads c r h =
      let fresh = minus incoming (labels_of c r.labels) in
      let fresh_lem = λ (k : String). is_in-minus k incoming (labels_of c r.labels) in
      elim (Bool-cases (is_empty fresh)) [
        | inl e ↦ (
          r,
          rw e refl,
          record {
            adds = λ k l. ground (arith, fresh_lem l, is_in_empty l fresh e, eq_iff c k);
            progress = inl refl;
          },
        )
        | inr e ↦
            let (os, noted) =
              note_total node spec r.labels c fresh r.origins
                (λ k m. h k (ground (arith, fresh_lem k))) in
            let (l, new) = member_of fresh e in
            (
              record {
                labels = put c (union (labels_of c r.labels) fresh) r.labels;
                origins = os;
                changed = true;
              },
              rw (e, noted) refl,
              record {
                adds = λ k m. ground (
                  arith,
                  labels_of-put k c (union (labels_of c r.labels) fresh) r.labels,
                  is_in-union m (labels_of c r.labels) fresh,
                  fresh_lem m,
                  eq_iff c k,
                );
                progress = inr (
                  refl,
                  (
                    c,
                    l,
                    ground (arith, eq_iff c c),
                    ground (arith, fresh_lem l),
                    ground (arith, fresh_lem l),
                  ),
                );
              },
            )
      ]

  Spreads-cons :
      (c : String) (cs : List String) (r s t : Run)
      → Spreads (c ∷ []) incoming r s
      → Spreads cs incoming s t
      → Spreads (c ∷ cs) incoming r t
  unfolding is_in
  Spreads-cons c cs r s t first rest = record {
    adds = λ k l. ground (arith, first.adds k l, rest.adds k l);
    progress = elim rest.progress [
      | inl same ↦ elim first.progress [
        | inl start ↦ inl (rw (same, start) refl)
        | inr (changed, (k, l, member, comes, new)) ↦
            inr (rw same changed, (k, l, ground arith, comes, new))
      ]
      | inr (changed, (k, l, member, comes, new)) ↦
          inr (changed, (k, l, ground arith, comes, ground (arith, first.adds k l)))
    ];
  }

  grown :
      (c : String) (r s : Run)
      → Spreads (c ∷ []) incoming r s
      → (k l : String) → Has r.labels k l
      → Has s.labels k l
  grown c r s h k l has = ground (arith, h.adds k l)

  inputs-grow :
      (r s : Run)
      → ((k l : String) → Has r.labels k l → Has s.labels k l)
      → IsSubset incoming (inputs spec r.labels)
      → IsSubset incoming (inputs spec s.labels)
  inputs-grow r s more h k m =
      let (c, shows, has) = shown_of spec r.labels k (h k m) in
      is_in-inputs spec s.labels k c shows (more c k has)

  write_all-Spreads :
      (cs : List String) (r : Run)
      → IsSubset incoming (inputs spec r.labels)
      → (r' : Run) × (write_all node spec incoming cs r ≡ some r') × Spreads cs incoming r r'
  unfolding write_all is_in
  write_all-Spreads [] r h = (r, refl, record { adds = λ k l. ground arith; progress = inl refl })
  write_all-Spreads (c ∷ cs) r h =
      let (s, written, first) = write-Spreads c r h in
      let (t, rest, more) = write_all-Spreads cs s (inputs-grow r s (grown c r s first) h) in
      (t, rw (written, write_all) rest, Spreads-cons c cs r s t first more)

-- A visited node adds to each of its channels what it takes in.
pub visit-Spreads :
    (node : String) (spec : NodeFlow) (r : Run)
    → (r' : Run) × (visit node spec r ≡ some r')
      × Spreads (targets spec) (inputs spec r.labels) r r'
unfolding visit
visit-Spreads node spec r = elim (Bool-cases (is_empty (inputs spec r.labels))) [
  | inl e ↦ (
    r,
    rw e refl,
    record {
      adds = λ k l. ground (arith, is_in_empty l (inputs spec r.labels) e);
      progress = inl refl;
    },
  )
  | inr e ↦
      let (r', done, spreads) =
        write_all-Spreads node spec (inputs spec r.labels) (targets spec) r (λ k m. m) in
      (r', rw e done, spreads)
]
