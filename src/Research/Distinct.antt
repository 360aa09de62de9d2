-- ===== src/Research/Distinct.antt =====
-- What `dedup_node` of course_discovery/research_agent/cache/dedup.py leaves.
use course_discovery_agent.Prelude.{
  some-inj, String, Bool, true, false, some, List, [], ◌∷◌, ◌++◌, map, ◌≡◌, refl, sym, ◌∙◌, ap,
  subst, arith, inl, inr, any, is_in, IsDistinct, append-IsDistinct, All, All-append, All-map,
  Bool-cases, Option-cases, eq_iff, eq_refl, ◌==◌,
}
use course_discovery_agent.Domain.Models.{CourseCandidate}
use course_discovery_agent.Domain.State.{ResearchState}
use course_discovery_agent.Research.Urls.{UrlLib}
use course_discovery_agent.Research.Dedup.{
  Keys, Seen, title_key, normalize_url, keys_of, consider, dedup_from, dedup_node, considered,
  dedup_rest, deduplicated, fingerprint,
}

abbrev pub url_of : CourseCandidate → String
url_of c = c.url

map-snoc :
    (cs : List CourseCandidate) (c : CourseCandidate)
    → map url_of (cs ++ c ∷ []) ≡ map url_of cs ++ c.url ∷ []
map-snoc [] c = refl
map-snoc (d ∷ cs) c = ap (λ us. d.url ∷ us) (map-snoc cs c)

module _ {P : Type 0} (urls : UrlLib P) (sha256 : String → String)
    (ratio_90 : String → String → Bool) where
  -- The address that the candidate is kept under is among those seen.
  abbrev pub IsSeen : List String → CourseCandidate → Type 0
  IsSeen seen c =
      (u : String) × (normalize_url urls sha256 ratio_90 c.url ≡ some u) × (is_in u seen ≡ true)

  abbrev pub IsDeduplicated : Seen → Type 0
  IsDeduplicated seen = All (IsSeen seen.urls) seen.kept × IsDistinct (map url_of seen.kept)

  keys_of-url :
      (c : CourseCandidate) (k : Keys)
      → keys_of urls sha256 ratio_90 c ≡ some k
      → normalize_url urls sha256 ratio_90 c.url ≡ some k.url
  unfolding keys_of
  keys_of-url c k e = elim (Option-cases (normalize_url urls sha256 ratio_90 c.url)) [
    | inl n ↦ ground arith
    | inr (u, n) ↦ elim (Option-cases (fingerprint urls sha256 ratio_90 (title_key c) u)) [
      | inl m ↦ ground arith
      | inr (fp, m) ↦ ground arith
    ]
  ]

  not_kept :
      (c : CourseCandidate) (u : String) (seen : List String) (kept : List CourseCandidate)
      → normalize_url urls sha256 ratio_90 c.url ≡ some u
      → is_in u seen ≡ false
      → All (IsSeen seen) kept
      → is_in c.url (map url_of kept) ≡ false
  unfolding is_in
  not_kept c u seen [] n new h = refl
  not_kept c u seen (d ∷ kept) n new h = elim (Bool-cases (d.url == c.url)) [
    | inl same ↦ absurd (
        ground (
          arith,
          new,
          h.0.2,
          sym h.0.1 ∙ (ap (normalize_url urls sha256 ratio_90) ((eq_iff d.url c.url).0 same) ∙ n),
        ))
    | inr other ↦ ground (arith, not_kept c u seen kept n new h.1)
  ]

  added :
      (c : CourseCandidate) (k : Keys) (seen : Seen)
      → normalize_url urls sha256 ratio_90 c.url ≡ some k.url
      → is_in k.url seen.urls ≡ false
      → IsDeduplicated seen
      → All (IsSeen (k.url ∷ seen.urls)) (seen.kept ++ c ∷ [])
        × IsDistinct (map url_of (seen.kept ++ c ∷ []))
  unfolding is_in
  added c k seen n new h = (
    All-append (IsSeen (k.url ∷ seen.urls)) seen.kept (c ∷ [])
        (All-map (λ d (u, e, i). (u, e, ground (arith, i))) seen.kept h.0)
        ((k.url, n, rw eq_refl), tt),
    rw (map-snoc seen.kept c) (
        append-IsDistinct c.url (map url_of seen.kept) h.1
          (not_kept c k.url seen.urls seen.kept n new h.0)),
  )

  consider-IsDeduplicated :
      (c : CourseCandidate) (k : Keys) (seen : Seen)
      → normalize_url urls sha256 ratio_90 c.url ≡ some k.url
      → IsDeduplicated seen
      → IsDeduplicated (consider urls sha256 ratio_90 c k seen)
  unfolding consider
  consider-IsDeduplicated c k seen n h = elim (Bool-cases (is_in k.url seen.urls)) [
    | inl e ↦ rw e h
    | inr new ↦ elim (Bool-cases (is_in k.print seen.prints)) [
      | inl e ↦ rw (new, e) h
      | inr e ↦ elim (Bool-cases (any (λ prev. ratio_90 k.title (title_key prev)) seen.kept)) [
        | inl f ↦ rw (new, e, f) h
        | inr f ↦ rw (new, e, f) (added c k seen n new h)
      ]
    ]
  ]

  dedup_from-IsDeduplicated :
      (cs : List CourseCandidate) (seen seen' : Seen)
      → dedup_from urls sha256 ratio_90 cs seen ≡ some seen'
      → IsDeduplicated seen
      → IsDeduplicated seen'
  unfolding dedup_from
  dedup_from-IsDeduplicated [] seen seen' = λ e h. subst IsDeduplicated (some-inj e) h
  dedup_from-IsDeduplicated (c ∷ cs) seen seen' =
      elim (Option-cases (keys_of urls sha256 ratio_90 c)) [
        | inl n ↦ rw (n, considered, dedup_rest) (λ e h. cc)
        | inr (k, n) ↦
            rw (n, considered, dedup_rest)
              (λ e h.
                dedup_from-IsDeduplicated cs (consider urls sha256 ratio_90 c k seen) seen' e
                  (consider-IsDeduplicated c k seen (keys_of-url c k n) h))
      ]

  -- Where the deduplication raises nothing, no address stands twice among the courses that it
  -- keeps.
  pub dedup_node-IsDistinct :
      (s s' : ResearchState)
      → dedup_node urls sha256 ratio_90 s ≡ some s'
      → IsDistinct (map url_of s'.deduplicated_courses)
  unfolding dedup_node
  dedup_node-IsDistinct s s' =
      let nothing : Seen = record { urls = []; prints = []; kept = [] } in
      elim (Option-cases (dedup_from urls sha256 ratio_90 s.scraped_courses nothing)) [
        | inl e ↦ rw (e, deduplicated) (λ h. cc)
        | inr (seen, e) ↦
            rw (e, deduplicated)
              (λ h.
                subst (λ (t : ResearchState). IsDistinct (map url_of t.deduplicated_courses))
                  (some-inj h)
                  (dedup_from-IsDeduplicated s.scraped_courses nothing seen e (tt, tt)).1)
      ]
