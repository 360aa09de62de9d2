-- ===== src/Tests/Stores.antt =====
-- Runs of the Postgres outbox: course_discovery/effects/postgres_store.py.
use course_discovery_agent.Prelude.{String, [], ◌∷◌, refl}
use course_discovery_agent.Prelude.Dict.{get}
use course_discovery_agent.Effects.Models.{OutboxRecord}
use course_discovery_agent.Effects.MemoryStore.{new_record}
use course_discovery_agent.Effects.PostgresStore.{Rows}
use course_discovery_agent.Effects.Simulation.{IsUnique, to_table}
use course_discovery_agent.Effects.Stores.{Refines, postgres-Refines}

abbrev stored : String → OutboxRecord
stored key = new_record (record { key = key; kind = "publish_digest"; payload = [] }) 3

abbrev rows : Rows
rows = stored "b" ∷ stored "a" ∷ []

rows-IsUnique : IsUnique rows
unfolding to_table get
rows-IsUnique = (refl, (refl, tt))

postgres-Refines_example : Refines rows
postgres-Refines_example = postgres-Refines rows rows-IsUnique
