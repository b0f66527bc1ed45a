-- ===== src/Spicedb/Client.antt =====
-- internal/spicedb/client.go: the operations of the `Client` interface that change SpiceDB, as the
-- calls that its users make. The service itself is not under the repository's control.
use spawnly.Prelude.{String, List}

pub data Call : Type 0 where
  write_schema : String → Call
  write_relationship : String → String → String → Call
  delete_relationship : String → String → String → Call
  delete_agent_relationships : String → List String → Call
  delete_resource_relationships : String → Call
