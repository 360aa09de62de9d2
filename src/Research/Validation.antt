-- ===== src/Research/Validation.antt =====
-- course_discovery/research_agent/validation/nodes.py. `float_text` is Python's text of a float.
use course_discovery_agent.Prelude.{
  ℕ, ◌+◌, ◌<>◌, String, Bool, true, false, not, ◌&&◌, Option, none, some, List, [], ◌∷◌, ◌++◌, map,
  ltb, leb, eqb, length, take, filter, is_in, only, or_default, ◌==◌, if◌then◌else◌,
}
use course_discovery_agent.Prelude.Dict.{Dict, get, put}
use course_discovery_agent.Domain.Models.{
  SearchFilters, CourseCandidate, CandidateValidation, ValidationStatus, valid, rejected, uncertain,
  EvidenceItem, UserMemory, no_metrics,
}
use course_discovery_agent.Domain.State.{ResearchState}
use course_discovery_agent.Domain.RunConfig.{Configurable, max_research_iterations}
use course_discovery_agent.Research.Planning.{plan_min_valid}

unfoldable pub aggregate_node : ResearchState → ResearchState
aggregate_node s = record s {
  scraped_courses = take 200 (s.cache_candidates ++ s.extracted_candidates);
}

-- `text in texts` for a text that may be None.
abbrev pub is_listed : Option String → List String → Bool
is_listed none xs = false
is_listed (some x) xs = is_in x xs

-- `flag is True`
abbrev pub is_true : Option Bool → Bool
is_true (some true) = true
is_true (some false) = false
is_true none = false

unfoldable pub memory_reasons : Option UserMemory → CourseCandidate → List String
memory_reasons none c = []
memory_reasons (some m) c =
    only (is_in c.url m.completed_course_urls) "already completed by user"
    ++ only (is_in c.url m.rejected_course_urls) "previously rejected by user"
    ++ only (is_listed c.provider m.avoided_providers) "provider is avoided by user"

-- The candidate's level is known and is another one.
abbrev pub is_off_level : String → Option String → Bool
is_off_level level none = false
is_off_level level (some l) = not (level == "any") && not (l == level)

-- `candidate.language and candidate.language not in filters.content_languages`
abbrev pub is_off_language : List String → Option String → Bool
is_off_language languages none = false
is_off_language languages (some l) = not (l == "") && not (is_in l languages)

-- `filters.min_rating and candidate.rating is not None and candidate.rating < filters.min_rating`
abbrev pub is_below : ℕ → Option ℕ → Bool
is_below least none = false
is_below least (some r) = not (eqb least 0) && ltb r least

abbrev text_or_none : Option String → String
text_or_none none = "None"
text_or_none (some s) = s

unfoldable pub filter_missing : Option SearchFilters → CourseCandidate → List String
filter_missing none c = []
filter_missing (some f) c =
    only (eqb f.max_price 0 && not (is_true c.is_free)) "free"
    ++ only (f.include_certificate && not (is_true c.has_certificate)) "certificate"

-- What the candidate's evidence supports.
unfoldable pub supported : List EvidenceItem → List String
supported [] = []
supported (e ∷ es) = e.supports ++ supported es

unfoldable pub status_of : List String → List String → ValidationStatus
status_of [] [] = valid
status_of [] (m ∷ ms) = uncertain
status_of (r ∷ rs) ms = rejected

unfoldable pub closing_reason : ValidationStatus → List String
closing_reason valid = "critical constraints have supporting evidence" ∷ []
closing_reason _ = []

module _ (float_text : ℕ → String) where
  unfoldable pub filter_reasons : Option SearchFilters → CourseCandidate → List String
  filter_reasons none c = []
  filter_reasons (some f) c =
      only (is_off_level f.level c.level)
        ("level mismatch: expected " <> (f.level <> (", got " <> text_or_none c.level)))
      ++ only (is_off_language f.content_languages c.language)
          ("language mismatch: " <> text_or_none c.language)
      ++ only (is_below f.min_rating c.rating) ("rating below " <> float_text f.min_rating)

  unfoldable pub reasons_against : ResearchState → CourseCandidate → List String
  unfolding memory_reasons filter_reasons
  reasons_against s c = memory_reasons s.user_memory c ++ filter_reasons s.search_filters c

  unfoldable pub missing_evidence_of : ResearchState → CourseCandidate → List String
  unfolding filter_missing
  missing_evidence_of s c =
      filter (λ item. not (is_in item (supported c.evidence))) (filter_missing s.search_filters c)

  -- `_validate_candidate`
  unfoldable pub validate_candidate : ResearchState → CourseCandidate → CandidateValidation
  unfolding closing_reason
  validate_candidate s c =
      let missing = missing_evidence_of s c in
      let status = status_of (reasons_against s c) missing in
      record {
        url = c.url;
        status = status;
        reasons = reasons_against s c ++ closing_reason status;
        missing_evidence = missing;
      }

-- `{item.url: item for item in validations}`
unfoldable pub by_url :
    List CandidateValidation → Dict CandidateValidation → Dict CandidateValidation
by_url [] d = d
by_url (v ∷ vs) d = by_url vs (put v.url v d)

abbrev pub is_status : ValidationStatus → ValidationStatus → Bool
is_status valid valid = true
is_status rejected rejected = true
is_status uncertain uncertain = true
is_status _ _ = false

abbrev pub has_status : ValidationStatus → CandidateValidation → Bool
has_status status v = is_status status v.status

unfoldable pub picked :
    Option CandidateValidation
    → ValidationStatus
    → CourseCandidate
    → Option (List CourseCandidate)
    → Option (List CourseCandidate)
picked none status c rest = none
picked (some v) status c none = none
picked (some v) status c (some rest) = some (if has_status status v then c ∷ rest else rest)

-- `[item for item in courses if by_url[item.url].status == status]`; `none` is a KeyError.
unfoldable pub pick :
    Dict CandidateValidation
    → ValidationStatus
    → List CourseCandidate
    → Option (List CourseCandidate)
unfolding picked
pick d status [] = some []
pick d status (c ∷ cs) = picked (get c.url d) status c (pick d status cs)

-- `sum(len(item.missing_evidence) for item in validations)`
unfoldable pub unsupported : List CandidateValidation → ℕ
unsupported [] = 0
unsupported (v ∷ vs) = length v.missing_evidence + unsupported vs

unfoldable pub validated :
    List CandidateValidation
    → ResearchState
    → Option (List CourseCandidate)
    → Option (List CourseCandidate)
    → Option (List CourseCandidate)
    → Option ResearchState
validated vs s (some ok) (some bad) (some unclear) =
    let metrics = or_default s.metrics no_metrics in
    some (record s {
      validation_results = vs;
      valid_courses = ok;
      rejected_courses = bad;
      uncertain_courses = unclear;
      metrics = some (record metrics {
        valid_count = length ok;
        rejected_count = length bad;
        uncertain_count = length unclear;
        queries_run = length s.completed_queries;
        tavily_calls = length s.completed_queries;
        unsupported_claim_count = unsupported vs;
      });
    })
validated vs s _ _ _ = none

module _ (float_text : ℕ → String) where
  unfoldable pub evidence_validator_node : ResearchState → Option ResearchState
  unfolding validated
  evidence_validator_node s =
      let vs = map (validate_candidate float_text s) s.deduplicated_courses in
      let d = by_url vs [] in
      validated vs s (pick d valid s.deduplicated_courses) (pick d rejected s.deduplicated_courses)
        (pick d uncertain s.deduplicated_courses)

-- Where `enough_valid` goes: on to `save_verified_courses`, or to `plan_gap_search`.
unfoldable pub is_enough : Configurable → ResearchState → Bool
is_enough config s =
    if leb (plan_min_valid s.research_plan) (length s.valid_courses)
    then true
    else not (ltb s.research_iteration (max_research_iterations config))
