-- ===== src/Research/Urls.antt =====
-- What the research nodes use of Python's `urllib.parse`. `parse` is `urlparse`, which raises a
-- ValueError on some texts (`none`); `hostname` is an attribute that may be None.
use course_discovery_agent.Prelude.{String, Option, List}

pub record UrlLib (P : Type 0) : Type 0 where
  pub parse : String → Option P
  pub hostname : P → Option String
  pub query : P → String
  pub path : P → String
  pub replace : String → String → P → P
  pub unparse : P → String
  pub parse_qsl : String → List (String × String)
  pub urlencode : List (String × String) → String
