-- ===== src/Registry/Types.antt =====
-- internal/registry/types.go and internal/events/types.go: the records that the registry keeps.
use spawnly.Prelude.{ℕ, String, Bool, false, ◌||◌, Option, List, ◌==◌}
use spawnly.Prelude.Assoc.{Map}

abbrev pub status_active : String
status_active = "active"

abbrev pub status_disabled : String
status_disabled = "disabled"

abbrev pub removal_auto_revoke : String
removal_auto_revoke = "auto-revoke"

abbrev pub removal_orphan_to_admin : String
removal_orphan_to_admin = "orphan-to-admin"

abbrev pub placement_k8s : String
placement_k8s = "k8s"

abbrev pub placement_remote : String
placement_remote = "remote"

abbrev pub placement_substrate : String
placement_substrate = "substrate"

unfoldable pub valid_placement : String → Bool
valid_placement p =
    p == "" || p == placement_k8s || p == placement_remote || p == placement_substrate

pub record AttestationAnchor : Type 0 where
  pub type : String
  pub aws_account_id : String
  pub role_arn_pattern : String
  pub status : String
  pub activated_at : Option ℕ

pub record Substrate : Type 0 where
  pub status : String
  pub cert_fingerprint : String
  pub cert_serial : String
  pub issued_at : ℕ
  pub activated_at : Option ℕ

pub record Organization : Type 0 where
  pub org_id : String
  pub name : String
  pub removal_disposition : String
  pub disabled : Bool
  pub anchor : Option AttestationAnchor
  pub substrate : Option Substrate
  pub created_at : ℕ

-- Go's `int`: `negsuc n` is -(n + 1).
pub data ℤ : Type 0 where
  pos : ℕ → ℤ
  negsuc : ℕ → ℤ

pub record ChildSpawnPolicy : Type 0 where
  pub require_user_consent : Bool
  pub consent_ttl : String

pub record DelegationPolicy : Type 0 where
  pub allowed_child_types : List String
  pub grantable_scopes : List String
  pub max_depth : ℤ
  pub child_policies : Map ChildSpawnPolicy

pub record SpawnDecision : Type 0 where
  pub allowed : Bool
  pub reason : String
  pub consent_required : Bool

pub record TemplateMeta : Type 0 where
  pub display_name : String
  pub description : String

pub record ResourceLimits : Type 0 where
  pub cpu_limit : String
  pub memory_limit : String

pub record RuntimeSpec : Type 0 where
  pub image : String
  pub resources : ResourceLimits
  pub env_defaults : Map String
  pub lifecycle : String
  pub supports_chat : Bool

pub record SpiceDbRelationTemplate : Type 0 where
  pub resource : String
  pub relation : String
  pub subject : String

pub record AuthZSpec : Type 0 where
  pub spice_db_relations : List SpiceDbRelationTemplate

pub record AgentTemplate : Type 0 where
  pub agent_type : String
  pub version : String
  pub status : String
  pub meta : TemplateMeta
  pub runtime : RuntimeSpec
  pub authz : AuthZSpec
  pub delegation : DelegationPolicy
  pub requires_tenant : Bool
  pub org_id : String
  pub oauth_scopes : List String

pub record AgentRecord : Type 0 where
  pub agent_id : String
  pub agent_type : String
  pub tenant_id : String
  pub user_id : String
  pub status : String
  pub lifecycle : String
  pub supports_chat : Bool
  pub dismissed : Bool
  pub parent_id : String
  pub org_id : String
  pub placement : String
  pub consent_required : Bool

-- The zero value, which `GetAgent` returns for an unknown id.
abbrev pub no_agent : AgentRecord
no_agent = record {
  agent_id = "";
  agent_type = "";
  tenant_id = "";
  user_id = "";
  status = "";
  lifecycle = "";
  supports_chat = false;
  dismissed = false;
  parent_id = "";
  org_id = "";
  placement = "";
  consent_required = false;
}

-- A relationship of SpiceDB: `authzTuple` and `relTuple` of cmd/registry/main.go.
pub record Tuple : Type 0 where
  pub resource : String
  pub relation : String
  pub subject : String

-- The JSON payloads, as the values that `mustMarshal` is given; `raw` is one that a client sent.
pub data Payload : Type 0 where
  fields : List (String × String) → Payload
  agent : AgentRecord → Payload
  tuples : List Tuple → Payload
  raw : String → Payload

pub record Event : Type 0 where
  pub id : String
  pub timestamp : ℕ
  pub source : String
  pub type : String
  pub payload : Payload

abbrev pub source_orchestrator : String
source_orchestrator = "ORCHESTRATOR"

abbrev pub source_operator : String
source_operator = "OPERATOR"

abbrev pub source_registry : String
source_registry = "REGISTRY"
