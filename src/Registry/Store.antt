-- ===== src/Registry/Store.antt =====
-- cmd/registry/main.go, the in-memory store, and cmd/registry/store_adapter.go, which passes each
-- method on with an error that is always nil. A method is one critical section of the store's lock,
-- so it is one function of the state. The time that a method reads is an argument.
use spawnly.Prelude.{
  ℕ, suc, String, Bool, true, false, not, ◌-◌, ◌&&◌, Option, none, some, List, [], ◌∷◌, ◌++◌, ◌==◌,
  ◌⧺◌, length, select, map,
}
use spawnly.Prelude.Assoc.{Map, lookup, insert, erase, values}
use spawnly.Prelude.Text.{Bytes, digits, spell}
use spawnly.Consent.{ConsentRecord, ConsentRequest}
use spawnly.Registry.Types.{
  AgentTemplate, AgentRecord, Organization, Event, no_agent, status_disabled,
}
use spawnly.Registry.Schema.{SchemaState}

pub record Store : Type 0 where
  pub templates : Map AgentTemplate
  pub agents : Map AgentRecord
  pub events : Map (List Event)
  pub consents : Map ConsentRecord
  pub orgs : Map Organization
  pub consent_requests : Map ConsentRequest
  pub open_requests : Map String
  pub schema : SchemaState

-- `newStore`, for a schema that is already parsed.
unfoldable pub new_store : SchemaState → Store
new_store schema = record {
  templates = [];
  agents = [];
  events = [];
  consents = [];
  orgs = [];
  consent_requests = [];
  open_requests = [];
  schema = schema;
}

unfoldable pub put_template : AgentTemplate → Store → Store
put_template t s = record s { templates = insert t.agent_type t s.templates }

unfoldable pub get_template : String → Store → Option AgentTemplate
get_template agent_type s = lookup agent_type s.templates

unfoldable pub update_template_status : String → String → Store → Option AgentTemplate × Store
update_template_status agent_type status s = elim (lookup agent_type s.templates) [
  | none ↦ (none, s)
  | some t ↦
      let t' : AgentTemplate = record t { status = status } in
      (some t', record s { templates = insert agent_type t' s.templates })
]

unfoldable pub delete_template : String → Store → Bool × Store
delete_template agent_type s = elim (lookup agent_type s.templates) [
  | none ↦ (false, s)
  | some t ↦ (true, record s { templates = erase agent_type s.templates })
]

unfoldable pub list_templates : Bool → Store → List AgentTemplate
list_templates include_disabled s =
    select (λ t. not (not include_disabled && t.status == status_disabled)) (values s.templates)

unfoldable pub list_template_types : Store → List String
list_template_types s =
    map (λ t. t.agent_type) (select (λ t. not (t.status == status_disabled)) (values s.templates))

unfoldable pub register_agent : AgentRecord → Store → Store
register_agent r s = record s { agents = insert r.agent_id r s.agents }

abbrev pub or_no_agent : Option AgentRecord → AgentRecord
or_no_agent none = no_agent
or_no_agent (some r) = r

unfoldable pub get_agent : String → Store → AgentRecord
get_agent id s = or_no_agent (lookup id s.agents)

unfoldable pub list_agents : Store → List AgentRecord
list_agents s = select (λ r. not r.dismissed) (values s.agents)

unfoldable pub list_children : String → Store → List AgentRecord
list_children parent_id s = select (λ r. r.parent_id == parent_id) (values s.agents)

unfoldable pub dismiss_agent : String → Store → Bool × Store
dismiss_agent id s = elim (lookup id s.agents) [
  | none ↦ (false, s)
  | some r ↦ (true, record s { agents = insert id (record r { dismissed = true }) s.agents })
]

-- `updateAgent`, the store's `UpdateAgentStatus`
unfoldable pub update_agent : String → String → Store → Bool × Store
update_agent id status s = elim (lookup id s.agents) [
  | none ↦ (false, s)
  | some r ↦ (true, record s { agents = insert id (record r { status = status }) s.agents })
]

unfoldable pub put_org : Organization → Store → Store
put_org org s = record s { orgs = insert org.org_id org s.orgs }

unfoldable pub get_org : String → Store → Option Organization
get_org id s = lookup id s.orgs

unfoldable pub list_orgs : Store → List Organization
list_orgs s = values s.orgs

unfoldable pub delete_org : String → Store → Bool × Store
delete_org id s = elim (lookup id s.orgs) [
  | none ↦ (false, s)
  | some org ↦ (true, record s { orgs = erase id s.orgs })
]

zeros : ℕ → Bytes → Bytes
zeros ℕ.zero out = out
zeros (suc n) out = b'0' ∷ zeros n out

-- `%020d`
unfoldable pub padded : ℕ → String
unfolding zeros digits spell
padded n = let ds = digits (suc n) n [] in spell (zeros (20 - length ds) ds)

-- The time and the hexadecimal of four random bytes, which is an argument.
unfoldable pub event_id : ℕ → String → String
unfolding padded
event_id nano random = padded nano ⧺ "-" ⧺ random

abbrev or_empty : Option (List Event) → List Event
or_empty none = []
or_empty (some es) = es

unfoldable pub get_events : String → Store → List Event
get_events agent_id s = or_empty (lookup agent_id s.events)

unfoldable pub append_event : String → Event → ℕ → String → Store → Event × Store
append_event agent_id e now random s =
    let stored : Event = record e { id = event_id now random; timestamp = now } in
    (stored, record s { events = insert agent_id (get_events agent_id s ++ stored ∷ []) s.events })
