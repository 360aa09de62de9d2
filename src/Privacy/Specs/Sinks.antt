-- ===== src/Privacy/Specs/Sinks.antt =====
-- course_discovery/privacy/flow_specs.py: the services that nodes send data to.
use course_discovery_agent.Prelude.{[], ◌∷◌}
use course_discovery_agent.Privacy.Flow.{Sink, external, subject}

unfoldable pub llm : Sink
unfolding external
llm = external "llm:openrouter" (subject ∷ [])

unfoldable pub search : Sink
unfolding external
search = external "search:tavily" (subject ∷ [])

unfoldable pub embed : Sink
unfolding external
embed = external "embeddings:openrouter" (subject ∷ [])

unfoldable pub injection_screen : Sink
unfolding external
injection_screen = external "injection_screen:openrouter" []
