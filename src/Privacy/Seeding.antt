-- ===== src/Privacy/Seeding.antt =====
-- course_discovery/privacy/flow.py: the origins of the seeds, and those that `propagate` records.
use course_discovery_agent.Prelude.{
  String, true, ◌&&◌, ◌||◌, some, List, [], ◌∷◌, is_in, ◌==◌, ◌≡◌, refl, arith, eq_iff,
}
use course_discovery_agent.Prelude.Dict.{get, IsDict}
use course_discovery_agent.Privacy.Flow.{
  Labels, Flows, labels_of, Run, propagate, Origins, seeded_from, seeded,
}
use course_discovery_agent.Privacy.Spread.{Has}
use course_discovery_agent.Privacy.Origins.{is_tracked, IsGrounded, IsTraced, settle-IsTraced}

seeded_from-is_tracked :
    (channel : String) (found : List String) (os : Origins) (c l : String)
    → is_tracked c l (seeded_from channel found os)
      ≡ (((channel == c) && is_in l found) || is_tracked c l os)
unfolding seeded_from is_tracked is_in
seeded_from-is_tracked channel [] os c l = ground arith
seeded_from-is_tracked channel (m ∷ ms) os c l =
    ground (arith, seeded_from-is_tracked channel ms os c l)

seeded_from-IsGrounded :
    (seeds : Labels) (channel : String) (found : List String) (os : Origins)
    → ((l : String) → is_in l found ≡ true → Has seeds channel l)
    → IsGrounded seeds os
    → IsGrounded seeds (seeded_from channel found os)
unfolding seeded_from is_in
seeded_from-IsGrounded seeds channel [] os h g = g
seeded_from-IsGrounded seeds channel (m ∷ ms) os h g = (
  h m (ground (arith, eq_iff m m)),
  seeded_from-IsGrounded seeds channel ms os (λ l member. h l (ground arith)) g,
)

seeded-is_tracked :
    (seeds : Labels)
    → IsDict seeds
    → (c l : String) → is_tracked c l (seeded seeds) ≡ is_in l (labels_of c seeds)
unfolding seeded labels_of get is_tracked is_in
seeded-is_tracked [] h c l = refl
seeded-is_tracked ((channel, found) ∷ seeds) h c l = ground (
  arith,
  seeded_from-is_tracked channel found (seeded seeds) c l,
  seeded-is_tracked seeds h.1 c l,
  eq_iff channel c,
  h.0,
)

seeded-IsGrounded :
    (whole seeds : Labels)
    → IsDict seeds
    → ((c l : String) → Has seeds c l → Has whole c l)
    → IsGrounded whole (seeded seeds)
unfolding seeded labels_of get is_in
seeded-IsGrounded whole [] d h = tt
seeded-IsGrounded whole ((channel, found) ∷ seeds) d h =
    seeded_from-IsGrounded whole channel found (seeded seeds)
      (λ l member. h channel l (ground (arith, eq_iff channel channel)))
      (seeded-IsGrounded whole seeds d.1 (λ c l has. h c l (ground (arith, eq_iff channel c, d.0))))

-- The labels that `propagate` finds are those whose origin it recorded, and the origins are grounded.
pub propagate-IsTraced :
    (flows : Flows) (seeds : Labels) (r : Run)
    → IsDict seeds
    → propagate flows seeds ≡ some r
    → IsTraced seeds r
unfolding propagate
propagate-IsTraced flows seeds r d h =
    settle-IsTraced seeds _ flows
      (record { labels = seeds; origins = seeded seeds; changed = true }) r h
      (record {
        tracked = seeded-is_tracked seeds d;
        grounded = seeded-IsGrounded seeds seeds d (λ c l has. has);
      })
