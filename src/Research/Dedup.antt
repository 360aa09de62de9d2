-- ===== src/Research/Dedup.antt =====
-- course_discovery/research_agent/cache/dedup.py. `sha256` is `hashlib`'s digest in hexadecimal and
-- `ratio` is `fuzz.ratio`, at least 90 or not. The counters go to the log alone.
use course_discovery_agent.Prelude.{
  ◌<>◌, String, Bool, not, Option, none, some, List, [], ◌∷◌, ◌++◌, any, filter, is_in, strip,
  lower, starts_with, rstrip_char, if◌then◌else◌,
}
use course_discovery_agent.Domain.Models.{CourseCandidate}
use course_discovery_agent.Domain.State.{ResearchState}
use course_discovery_agent.Research.Urls.{UrlLib}

-- What a candidate is compared by: the normalised address, the fingerprint, and the title.
pub record Keys : Type 0 where
  pub url : String
  pub print : String
  pub title : String

-- The loop's state: `seen_urls`, `seen_fingerprints` and `deduplicated`.
pub record Seen : Type 0 where
  pub urls : List String
  pub prints : List String
  pub kept : List CourseCandidate

abbrev pub title_key : CourseCandidate → String
title_key c = lower (strip c.title)

abbrev host_or_empty : Option String → String
host_or_empty none = ""
host_or_empty (some h) = h

-- `k.lower().startswith("utm_")`
is_tracking : String × String → Bool
is_tracking (k, v) = starts_with (lower k) "utm_"

module _ {P : Type 0} (urls : UrlLib P) (sha256 : String → String)
    (ratio_90 : String → String → Bool) where
  rebuild : P → String
  unfolding is_tracking
  rebuild p = urls.unparse (
      urls.replace
        (urls.urlencode (filter (λ item. not (is_tracking item)) (urls.parse_qsl (urls.query p))))
        (rstrip_char 47 (urls.path p)) p)

  rebuilt : Option P → Option String
  rebuilt none = none
  rebuilt (some p) = some (rebuild p)

  unfoldable pub normalize_url : String → Option String
  unfolding rebuilt rebuild
  normalize_url url = rebuilt (urls.parse url)

  print_at : String → Option P → Option String
  print_at title none = none
  print_at title (some p) =
      some (sha256 (lower (strip title) <> ("::" <> lower (host_or_empty (urls.hostname p)))))

  unfoldable pub fingerprint : String → String → Option String
  unfolding print_at
  fingerprint title url = print_at title (urls.parse url)

  unfoldable pub with_print : String → String → Option String → Option Keys
  with_print url title none = none
  with_print url title (some fp) = some (record { url = url; print = fp; title = title })

  unfoldable pub with_url : String → Option String → Option Keys
  unfolding with_print
  with_url title none = none
  with_url title (some url) = with_print url title (fingerprint title url)

  unfoldable pub keys_of : CourseCandidate → Option Keys
  unfolding with_url
  keys_of c = with_url (title_key c) (normalize_url c.url)

  -- One turn of the loop.
  unfoldable pub consider : CourseCandidate → Keys → Seen → Seen
  consider c k seen =
      if is_in k.url seen.urls
      then seen
      else if is_in k.print seen.prints
      then seen
      else if any (λ prev. ratio_90 k.title (title_key prev)) seen.kept
      then seen
      else record {
        urls = k.url ∷ seen.urls;
        prints = k.print ∷ seen.prints;
        kept = seen.kept ++ c ∷ [];
      }

  unfoldable pub considered : CourseCandidate → Seen → Option Keys → Option Seen
  considered c seen none = none
  considered c seen (some k) = some (consider c k seen)

  unfoldable pub dedup_rest : (Seen → Option Seen) → Option Seen → Option Seen
  dedup_rest k none = none
  dedup_rest k (some seen) = k seen

  unfoldable pub dedup_from : List CourseCandidate → Seen → Option Seen
  unfolding considered dedup_rest
  dedup_from [] seen = some seen
  dedup_from (c ∷ cs) seen = dedup_rest (dedup_from cs) (considered c seen (keys_of c))

  unfoldable pub deduplicated : ResearchState → Option Seen → Option ResearchState
  deduplicated s none = none
  deduplicated s (some seen) = some (record s { deduplicated_courses = seen.kept })

  unfoldable pub dedup_node : ResearchState → Option ResearchState
  unfolding deduplicated
  dedup_node s =
      deduplicated s (dedup_from s.scraped_courses (record { urls = []; prints = []; kept = [] }))
