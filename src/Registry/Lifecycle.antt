-- ===== src/Registry/Lifecycle.antt =====
-- cmd/registry/main.go: the handlers that post an event for an agent and that set its status. Both
-- take either a caller of the control plane or an agent that proves its own id.
pub mod Rights
pub mod Reinstated
use spawnly.Prelude.{
  ℕ, String, Bool, true, false, not, ◌&&◌, ◌||◌, Option, none, some, List, [], ◌∷◌, ◌==◌, ◌⧺◌,
  Result, ok, err, if◌then◌else◌,
}
use spawnly.Spicedb.Client.{delete_relationship, delete_agent_relationships}
use spawnly.Registry.Types.{AgentTemplate, Event}
use spawnly.Registry.Store.{Store, get_agent, get_template, update_agent, get_events}
use spawnly.Registry.World.{
  Env, World, Response, reply, error, not_found, unauthorized, call, emit, set_store,
}
use spawnly.Registry.Registration.{relation_resource_types}

-- The proven id is the agent's own.
abbrev pub is_self : Option String → String → Bool
is_self none agent_id = false
is_self (some id) agent_id = id == agent_id

-- The proven id is that of a child of the agent.
abbrev pub is_child : Option String → String → Store → Bool
is_child none agent_id s = false
is_child (some id) agent_id s = (get_agent id s).parent_id == agent_id

abbrev pub may_post : Bool → Option String → String → Store → Bool
may_post authed identity agent_id s =
    authed || is_self identity agent_id || is_child identity agent_id s

-- `POST /v1/agents/{id}/events`
unfoldable pub post_event :
    Env → Bool → Option String → String → Result Event → World → Response Event × World
unfolding get_agent
post_event env authed identity agent_id body w =
    if not (may_post authed identity agent_id w.store) then (unauthorized, w) else elim body [
      | err e ↦ (error 400 e, w)
      | ok e ↦ let (stored, w') = emit env agent_id e w in (reply 201 stored, w')
    ]

-- `GET /v1/agents/{id}/events`
unfoldable pub get_agent_events : Bool → String → Store → Response (List Event)
unfolding get_events
get_agent_events authed agent_id s =
    if not authed then unauthorized else reply 200 (get_events agent_id s)

abbrev pub is_terminal : String → Bool
is_terminal status = status == "completed" || status == "failed"

abbrev pub types_or : Option AgentTemplate → Bool → List String
types_or none has_tenant = []
types_or (some tpl) has_tenant = relation_resource_types tpl has_tenant

-- The cleanup of an agent whose status has become terminal.
unfoldable pub clean_up : Env → String → World → World
unfolding get_agent get_template
clean_up env agent_id w =
    let rec = get_agent agent_id w.store in
    let types = types_or (get_template rec.agent_type w.store) (not (rec.tenant_id == "")) in
    let w1 = (call env (delete_agent_relationships agent_id types) w).1 in
    let self = "agent:" ⧺ agent_id in (call env (delete_relationship self "enabled" self) w1).1

-- `PATCH /v1/agents/{id}`
unfoldable pub patch_agent :
    Env → Bool → Option String → String → Result String → World → Response {0} Unit × World
unfolding update_agent clean_up
patch_agent env authed identity agent_id body w =
    if not (authed || is_self identity agent_id) then (unauthorized, w) else elim body [
      | err e ↦ (error 400 e, w)
      | ok status ↦
          let (found, s) = update_agent agent_id status w.store in
          let updated = set_store s w in
          let cleaned = clean_up env agent_id updated in
          if not found
          then (not_found, updated)
          else if is_terminal status
          then (reply 200 tt, cleaned)
          else (reply 200 tt, updated)
    ]
