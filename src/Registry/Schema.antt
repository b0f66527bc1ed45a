-- ===== src/Registry/Schema.antt =====
-- internal/registry/schema.go and schemastate.go: the check of a template's relations against the
-- parsed SpiceDB schema.
use spawnly.Prelude.{ℕ, ◌+◌, String, Option, none, some, List, [], ◌∷◌, contains, if◌then◌else◌}
use spawnly.Prelude.Assoc.{Map, lookup}
use spawnly.Prelude.Text.{trim_space, before}
use spawnly.Registry.Types.{SpiceDbRelationTemplate, AuthZSpec, AgentTemplate}

-- The inner sets are lists.
pub record SchemaModel : Type 0 where
  pub definitions : Map (List String)

-- `strings.SplitN(strings.TrimSpace(ref), ":", 2)[0]`
unfoldable pub object_type : String → String
object_type ref = before b':' (trim_space ref)

-- What makes a template invalid, with the index of the relation.
pub data SchemaError : Type 0 where
  unknown_resource : ℕ → String → SchemaError
  unknown_relation : ℕ → String → String → SchemaError
  unknown_subject : ℕ → String → SchemaError

unfoldable pub validate_relation : SchemaModel → ℕ → SpiceDbRelationTemplate → Option SchemaError
validate_relation m i rel = elim (lookup (object_type rel.resource) m.definitions) [
  | none ↦ some (unknown_resource i (object_type rel.resource))
  | some rels ↦
      if contains rels rel.relation
      then elim (lookup (object_type rel.subject) m.definitions) [
        | none ↦ some (unknown_subject i (object_type rel.subject))
        | some _ ↦ none
      ]
      else some (unknown_relation i rel.relation (object_type rel.resource))
]

-- The loop of `Validate`: the first relation that fails ends it.
unfoldable pub validate_relations :
    SchemaModel → ℕ → List SpiceDbRelationTemplate → Option SchemaError
validate_relations m i [] = none
validate_relations m i (rel ∷ rels) = elim (validate_relation m i rel) [
  | some e ↦ some e
  | none ↦ validate_relations m (i + 1) rels
]

unfoldable pub validate : SchemaModel → AuthZSpec → Option SchemaError
unfolding validate_relations
validate m spec = validate_relations m 0 spec.spice_db_relations

pub record SchemaState : Type 0 where
  pub model : Option SchemaModel
  pub text : String
  pub version : String
  pub source : String

-- `ValidateTemplate`: with no parsed model there is no check.
unfoldable pub validate_template : SchemaState → AgentTemplate → Option SchemaError
unfolding validate
validate_template s t = elim s.model [ none ↦ none | some m ↦ validate m t.authz ]
