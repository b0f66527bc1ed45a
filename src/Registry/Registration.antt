-- ===== src/Registry/Registration.antt =====
-- cmd/registry/main.go: how agents come into the registry and change their status, and the events
-- that are posted for them. The outcome of the control-plane authenticator is an argument, as is the
-- id that the registrant's verifier proves, and the decoded body or the error of decoding it.
pub mod Relations
pub mod Preregistration
use spawnly.Prelude.{
  ℕ, String, Bool, true, false, not, ◌&&◌, ◌||◌, Option, none, some, List, [], ◌∷◌, ◌++◌, ◌==◌, ◌⧺◌,
  Result, ok, err, contains, if◌then◌else◌,
}
use spawnly.Prelude.Text.{
  codes, every, is_lower, is_upper, is_digit, one_of, before, has_part, replace_all,
}
use spawnly.Consent.{valid_user_id}
use spawnly.Spicedb.Client.{write_relationship, delete_relationship, delete_agent_relationships}
use spawnly.Registry.Types.{
  AgentRecord, AgentTemplate, SpiceDbRelationTemplate, Event, Tuple, fields, agent, tuples,
  source_registry, source_orchestrator, valid_placement,
}
use spawnly.Registry.Store.{Store, get_agent, get_template, register_agent, update_agent}
use spawnly.Registry.World.{
  Env, World, Response, reply, error, not_found, unauthorized, call, event_of, emit, set_store,
}
use spawnly.Registry.Authority.{org_is_disabled, write_authority_tuples, tuple}

-- The class `[A-Za-z0-9._-]` of `validAgentID`.
abbrev pub is_agent_id_char : ℕ → Bool
is_agent_id_char c = is_lower c || is_upper c || is_digit c || one_of (b'.' ∷ b'_' ∷ b'-' ∷ []) c

unfoldable pub valid_agent_id : String → Bool
valid_agent_id id = not (id == "") && every is_agent_id_char (codes id)

-- The test of `rejectInvalidUserID`; an empty id is allowed.
abbrev pub is_invalid_user : String → Bool
is_invalid_user user_id = not (user_id == "") && not (valid_user_id user_id)

unfoldable pub substitute : String → String → String → String
unfolding replace_all
substitute tmpl agent_id tenant_id =
    replace_all (replace_all tmpl "{{agent_id}}" agent_id) "{{tenant_id}}" tenant_id

unfoldable pub references_tenant : SpiceDbRelationTemplate → Bool
unfolding has_part
references_tenant rel =
    has_part rel.resource "{{tenant_id}}" || has_part rel.subject "{{tenant_id}}"

-- The relations that are written for an agent: those of the tenant only for one that has a tenant.
abbrev pub is_skipped : Bool → SpiceDbRelationTemplate → Bool
is_skipped has_tenant rel = not has_tenant && references_tenant rel

-- `strings.SplitN(rel.Resource, ":", 2)[0]`
abbrev pub resource_type : SpiceDbRelationTemplate → String
resource_type rel = before b':' rel.resource

-- The loop of `relationResourceTypes`; `seen` is the set of what is in `out`.
unfoldable pub resource_types : Bool → List String → List SpiceDbRelationTemplate → List String
resource_types has_tenant out [] = out
resource_types has_tenant out (rel ∷ rels) =
    let t = resource_type rel in
    let out' =
      if is_skipped has_tenant rel
      then out
      else if t == "" || contains out t
      then out
      else out ++ t ∷ [] in
    resource_types has_tenant out' rels

unfoldable pub relation_resource_types : AgentTemplate → Bool → List String
unfolding resource_types references_tenant before
relation_resource_types tpl has_tenant = resource_types has_tenant [] tpl.authz.spice_db_relations

-- Why a handler refuses a request: a status and a message.
abbrev pub Refusal : Type 0
Refusal = ℕ × String

-- The guards of the preregistration, in their order.
unfoldable pub preregister_refusal : AgentRecord → Store → Option Refusal
unfolding valid_user_id valid_agent_id org_is_disabled valid_placement
preregister_refusal rec s =
    if rec.agent_id == ""
    then some (400, "agentId required")
    else if is_invalid_user rec.user_id
    then some (400, "invalid userId")
    else if not (rec.org_id == "") && not (valid_agent_id rec.org_id)
    then some (400, "invalid orgId")
    else if org_is_disabled rec.org_id s
    then some (403, "organization is disabled")
    else if not (valid_placement rec.placement)
    then some (400, "invalid placement")
    else none

abbrev pub pending : AgentRecord → AgentRecord
pending rec = record rec { status = "pending" }

-- An event of the tuples that were written, if there are any.
abbrev pub note_tuples : Env → String → List Tuple → World → World
note_tuples env id [] w = w
note_tuples env id (t ∷ ts) w =
    (emit env id (event_of source_registry "spicedb_relations_written" (tuples (t ∷ ts))) w).1

unfoldable pub preregister : Env → AgentRecord → World → World
unfolding register_agent write_authority_tuples
preregister env rec w =
    let (ts, w1) =
      write_authority_tuples env rec.agent_id rec.user_id rec.org_id
        (set_store (register_agent (pending rec) w.store) w) in
    let payload = fields (("agentId", rec.agent_id) ∷ ("agentType", rec.agent_type) ∷ []) in
    let w2 =
      (emit env rec.agent_id (event_of source_orchestrator "workload_spawning" payload) w1).1 in
    note_tuples env rec.agent_id ts w2

-- `POST /v1/agents/preregister`
unfoldable pub post_preregister :
    Env → Bool → Result AgentRecord → World → Response {0} Unit × World
unfolding preregister preregister_refusal
post_preregister env authed body w = if not authed then (unauthorized, w) else elim body [
  | err e ↦ (error 400 e, w)
  | ok rec ↦ elim (preregister_refusal rec w.store) [
    | some (code, message) ↦ (error code message, w)
    | none ↦ (reply 201 tt, preregister env rec w)
  ]
]
