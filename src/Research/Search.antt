-- ===== src/Research/Search.antt =====
-- course_discovery/research_agent/search/nodes.py: one search worker, and the fan-out over a plan's
-- queries, whose updates are added in the order of the queries.
use course_discovery_agent.Prelude.{
  ◌<>◌, String, Option, none, some, List, [], ◌∷◌, ◌++◌, ◌==◌, if◌then◌else◌,
}
use course_discovery_agent.Domain.Models.{TavilySearchResult}
use course_discovery_agent.Domain.State.{ResearchState}

-- What a search ends with: its results, or an exception that is not transient, by its type.
pub data Searched : Type 0 where
  results : List TavilySearchResult → Searched
  search_failed : String → Searched

unfoldable pub write_search : String → Searched → ResearchState → ResearchState
write_search query (results found) s = record s {
  tavily_results = s.tavily_results ++ found;
  completed_queries = s.completed_queries ++ query ∷ [];
}
write_search query (search_failed kind) s = record s {
  completed_queries = s.completed_queries ++ query ∷ [];
  research_notes =
      s.research_notes
      ++ ("Tavily search failed for '" <> (query <> ("': " <> (kind <> ".")))) ∷ [];
}

abbrev pub skipped : ResearchState → ResearchState
skipped s = record s {
  research_notes = s.research_notes ++ "Skipped Tavily worker without active query." ∷ [];
}

module _ {W : Type 0} (search : String → W → Option (Searched × W)) where
  unfoldable pub searched :
      String → ResearchState → Option (Searched × W) → Option (ResearchState × W)
  searched query s none = none
  searched query s (some (found, w)) = some (write_search query found s, w)

  -- `none` is a transient exception, which leaves the node.
  unfoldable pub tavily_search_worker_node : String → ResearchState → W → Option (ResearchState × W)
  unfolding searched
  tavily_search_worker_node query s w =
      if query == "" then some (skipped s, w) else searched query s (search query w)

  unfoldable pub search_rest :
      (ResearchState → W → Option (ResearchState × W))
      → Option (ResearchState × W)
      → Option (ResearchState × W)
  search_rest k none = none
  search_rest k (some (s, w)) = k s w

  unfoldable pub search_all : List String → ResearchState → W → Option (ResearchState × W)
  unfolding search_rest
  search_all [] s w = some (s, w)
  search_all (q ∷ qs) s w = search_rest (search_all qs) (tavily_search_worker_node q s w)
