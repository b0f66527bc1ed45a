-- ===== src/Registry/Admission.antt =====
-- cmd/registry/main.go: `POST /v1/agents`, by which a workload registers itself, with the id that the
-- registrant's verifier proves.
pub mod Guards
pub mod Identity
use spawnly.Prelude.{
  ℕ, String, Bool, true, false, not, ◌&&◌, ◌||◌, Option, none, some, List, [], ◌∷◌, ◌++◌, ◌==◌, ◌⧺◌,
  Result, ok, err, if◌then◌else◌,
}
use spawnly.Spicedb.Client.{write_relationship}
use spawnly.Registry.Types.{
  AgentRecord, AgentTemplate, SpiceDbRelationTemplate, Tuple, agent, tuples, source_registry,
}
use spawnly.Registry.Store.{Store, get_agent, get_template, register_agent}
use spawnly.Registry.World.{
  Env, World, Response, reply, error, unauthorized, call, event_of, emit, set_store,
}
use spawnly.Registry.Authority.{org_is_disabled, write_authority_tuples, tuple}
use spawnly.Registry.Registration.{
  Refusal, valid_agent_id, is_invalid_user, substitute, references_tenant, is_skipped,
}

pub record RegisterBody : Type 0 where
  pub agent_type : String
  pub tenant_id : String
  pub user_id : String
  pub parent_id : String

abbrev pub is_final : String → Bool
is_final status = status == "completed" || status == "failed" || status == "revoked"

-- The guards on the proven id, before the body is read.
unfoldable pub identity_refusal : Option String → Option Refusal
unfolding valid_agent_id
identity_refusal none = some (401, "unauthorized")
identity_refusal (some agent_id) =
    if agent_id == ""
    then some (500, "registrant verifier returned empty agentID")
    else if not (valid_agent_id agent_id)
    then some (400, "invalid agent id")
    else none

-- The guards on the body, in their order; `tpl` is the template of its agent type and `existing` the
-- record that is already there.
unfoldable pub register_refusal :
    String → RegisterBody → Option AgentTemplate → AgentRecord → Store → Option Refusal
register_refusal agent_id req none existing s =
    if is_invalid_user req.user_id
    then some (400, "invalid userId")
    else some (400, "unknown agent type")
register_refusal agent_id req (some tpl) existing s =
    if is_invalid_user req.user_id
    then some (400, "invalid userId")
    else if not (existing.agent_id == "") && is_final existing.status
    then some (409, "agent " ⧺ agent_id ⧺ " is " ⧺ existing.status ⧺ "; re-registration refused")
    else if org_is_disabled existing.org_id s
    then some (403, "organization is disabled")
    else none

abbrev pub or_body : AgentRecord → String → String → String
or_body existing kept sent = if not (existing.agent_id == "") then kept else sent

-- The record that is stored.
unfoldable pub registered : String → RegisterBody → AgentTemplate → AgentRecord → AgentRecord
registered agent_id req tpl existing = record {
  agent_id = agent_id;
  agent_type = req.agent_type;
  tenant_id = req.tenant_id;
  user_id = or_body existing existing.user_id req.user_id;
  status = "active";
  lifecycle = tpl.runtime.lifecycle;
  supports_chat = tpl.runtime.supports_chat;
  dismissed = false;
  parent_id = or_body existing existing.parent_id req.parent_id;
  org_id = existing.org_id;
  placement = existing.placement;
  consent_required = false;
}

-- The loop that writes the template's relations. A write that fails is reported all the same.
unfoldable pub write_relations :
    Env → String → String → List SpiceDbRelationTemplate → World → List Tuple × World
unfolding references_tenant substitute
write_relations env agent_id tenant_id [] w = ([], w)
write_relations env agent_id tenant_id (rel ∷ rels) w =
    let resource = substitute rel.resource agent_id tenant_id in
    let subject = substitute rel.subject agent_id tenant_id in
    let skip = is_skipped (not (tenant_id == "")) rel in
    let written = (call env (write_relationship resource rel.relation subject) w).1 in
    let (ts, w') = write_relations env agent_id tenant_id rels (if skip then w else written) in
    (if skip then ts else tuple resource rel.relation subject ∷ ts, w')

-- The record and its event.
unfoldable pub record_agent : Env → AgentRecord → World → World
unfolding register_agent
record_agent env rec w =
    (emit env rec.agent_id (event_of source_registry "registry_record_created" (agent rec))
      (set_store (register_agent rec w.store) w)).1

-- The tuples that are written for the agent.
unfoldable pub grant : Env → AgentRecord → AgentTemplate → World → List Tuple × World
unfolding write_relations write_authority_tuples
grant env rec tpl w =
    let id = rec.agent_id in
    let self = "agent:" ⧺ id in
    let (relations, w1) = write_relations env id rec.tenant_id tpl.authz.spice_db_relations w in
    let w2 = (call env (write_relationship self "enabled" self) w1).1 in
    let (authority, w3) = write_authority_tuples env id rec.user_id rec.org_id w2 in
    (relations ++ tuple self "enabled" self ∷ authority, w3)

unfoldable pub register : Env → AgentRecord → AgentTemplate → World → World
unfolding record_agent grant
register env rec tpl w =
    let (ts, w') = grant env rec tpl (record_agent env rec w) in
    (emit env rec.agent_id (event_of source_registry "spicedb_relations_written" (tuples ts)) w').1

abbrev pub refused : Refusal → World → Response AgentRecord × World
refused (code, message) w = (error code message, w)

-- What follows the guards.
abbrev pub admit :
    Env → String → RegisterBody → Option AgentTemplate → World → Response AgentRecord × World
admit env agent_id req none w = (error 400 "unknown agent type", w)
admit env agent_id req (some tpl) w =
    let rec = registered agent_id req tpl (get_agent agent_id w.store) in
    (reply 201 rec, register env rec tpl w)

abbrev pub id_or_empty : Option String → String
id_or_empty none = ""
id_or_empty (some id) = id

-- `POST /v1/agents`
unfoldable pub post_agents :
    Env → Option String → Result RegisterBody → World → Response AgentRecord × World
post_agents env identity body w = elim (identity_refusal identity) [
  | some r ↦ refused r w
  | none ↦ elim body [
    | err e ↦ (error 400 e, w)
    | ok req ↦
        let agent_id = id_or_empty identity in
        let tpl = get_template req.agent_type w.store in
        let existing = get_agent agent_id w.store in
        elim (register_refusal agent_id req tpl existing w.store) [
          | some r ↦ refused r w
          | none ↦ admit env agent_id req tpl w
        ]
  ]
]
