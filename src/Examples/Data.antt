-- ===== src/Examples/Data.antt =====
-- A small registry: an agent, its child and its grandchild, their template, and a consent.
use spawnly.Prelude.{ok, ℕ, ◌+◌, String, true, false, Option, none, some, [], ◌∷◌}
use spawnly.Consent.{ConsentRecord, ConsentRequest}
use spawnly.Registry.Directory.{Directory}
use spawnly.Registry.Types.{AgentRecord, AgentTemplate, Event, no_agent, pos, raw}
use spawnly.Registry.Schema.{SchemaState}
use spawnly.Registry.Store.{Store}
use spawnly.Registry.World.{Env, World, event_of}

abbrev pub deadline : String → ℕ → Option ℕ
deadline d t = some (t + 1000)

abbrev pub env : Env
env = record {
  time = λ n. 1000 + n;
  random = λ n. "00000000";
  deadline = deadline;
  accepts = λ calls. true;
  check = λ calls resource action subject. some true;
}

abbrev pub schema : SchemaState
schema = record { model = none; text = ""; version = "v1"; source = "embedded" }

abbrev agent : String → String → String → AgentRecord
agent id parent status = record no_agent {
  agent_id = id;
  agent_type = "planner";
  user_id = "alice";
  status = status;
  parent_id = parent;
  consent_required = true;
}

abbrev pub planner : AgentTemplate
planner = record {
  agent_type = "planner";
  version = "1";
  status = "active";
  meta = record { display_name = "Planner"; description = "" };
  runtime = record {
    image = "planner:1";
    resources = record { cpu_limit = ""; memory_limit = "" };
    env_defaults = [];
    lifecycle = "task";
    supports_chat = false;
  };
  authz = record {
    spice_db_relations =
        record {
          resource = "tenant:{{tenant_id}}";
          relation = "agent";
          subject = "agent:{{agent_id}}";
        }
        ∷ [];
  };
  delegation = record {
    allowed_child_types = "worker" ∷ [];
    grantable_scopes = [];
    max_depth = pos 3;
    child_policies = ("worker", record { require_user_consent = true; consent_ttl = "1h" }) ∷ [];
  };
  requires_tenant = false;
  org_id = "";
  oauth_scopes = [];
}

-- A disabled template of an organization.
abbrev pub retired : AgentTemplate
retired = record planner { agent_type = "retired"; status = "disabled"; org_id = "acme" }

abbrev pub root_agent : AgentRecord
root_agent = agent "a" "" "active"

abbrev pub revoked_agent : AgentRecord
revoked_agent = agent "r" "" "revoked"

abbrev pub asked : ConsentRequest
asked = record {
  id = "creq-1";
  user_id = "alice";
  parent_type = "planner";
  child_type = "worker";
  agent_id = "b";
  scopes = "read" ∷ [];
  binding_message = "";
  status = "pending";
  created_at = 1;
  resolved_at = none;
  external_ref = "";
}

abbrev pub consent : ConsentRecord
consent = record {
  id = "consent-1";
  user_id = "alice";
  parent_type = "planner";
  child_type = "worker";
  scopes = "read" ∷ "write" ∷ [];
  granted_at = 1;
  expires_at = some 5000;
  revoked = false;
}

abbrev pub store : Store
store = record {
  templates = ("planner", planner) ∷ ("retired", retired) ∷ [];
  agents =
      ("a", root_agent)
      ∷ ("b", agent "b" "a" "pending")
      ∷ ("c", agent "c" "b" "completed")
      ∷ ("r", revoked_agent)
      ∷ [];
  events = [];
  consents = ("alice|planner|worker", consent) ∷ [];
  orgs = [];
  consent_requests = ("creq-1", asked) ∷ [];
  open_requests = ("agent:b", "creq-1") ∷ [];
  schema = schema;
}

abbrev pub world : World
world = record { store = store; calls = []; ticks = 0 }

abbrev pub note : Event
note = event_of "AGENT" "note" (raw "{}")

-- A directory that does what it is asked for; its state is the name of the last user that it disabled
-- or enabled.
abbrev pub directory : Directory String
directory = record {
  create_org = λ id name d. (ok tt, d);
  delete_org = λ id d. (ok tt, d);
  add_member = λ id user d. (ok tt, d);
  remove_member = λ id user d. (ok tt, d);
  set_role = λ id user role d. (ok tt, d);
  list_members = λ id d. (ok [], d);
  list_user_orgs = λ user d. (ok [], d);
  register_org_redirect_uris = λ uri out d. (ok tt, d);
  remove_org_redirect_uris = λ uri out d. (ok tt, d);
  list_users = λ d. (ok [], d);
  disable_user = λ user org d. (ok tt, user);
  enable_user = λ user org d. (ok false, d);
  update_user = λ user update d. (ok tt, d);
  delete_user = λ user d. (ok tt, d);
  is_conflict = λ e. false;
}
