-- ===== src/Registry/Control.antt =====
-- cmd/registry/main.go: the handlers by which a user manages running agents, and those that decide
-- whether an agent may spawn another. A handler is a function of the registry's state; it runs alone.
pub mod Chain
pub mod Revocation
pub mod Spawning
use spawnly.Prelude.{
  ℕ, suc, ◌+◌, String, Bool, true, false, not, ◌&&◌, ◌||◌, Option, none, some, List, [], ◌∷◌, ◌==◌,
  ◌⧺◌, contains, ltb, if◌then◌else◌,
}
use spawnly.Prelude.Assoc.{Map, lookup}
use spawnly.Prelude.Text.{decimal}
use spawnly.Registry.Types.{
  AgentRecord, AgentTemplate, ChildSpawnPolicy, DelegationPolicy, SpawnDecision, ℤ, pos, negsuc,
}
use spawnly.Registry.Store.{Store, get_agent, get_template, dismiss_agent}
use spawnly.Registry.Lineage.{
  Outcome, done, failed, out_of_fuel, store_reads, depth, ChainNode, chain_from,
}
use spawnly.Registry.Lineage.Depth.{climb_fuel}
use spawnly.Registry.World.{Env, World, Response, reply, error, not_found, set_store}
use spawnly.Registry.Authority.{agent_allowed, org_is_disabled, action_manage}
use spawnly.Registry.Cascade.{revoke_node, resume_node, over_nodes, nodes_of}

-- `allowed` of a caller of the handlers that mutate an agent: it exists and SpiceDB lets them.
abbrev pub may_manage : Env → String → String → World → Bool
may_manage env id user_id w =
    let (allowed, exists) = agent_allowed env id user_id action_manage w in
    not (not exists || not allowed)

-- `POST /v1/agents/{id}/dismiss`
unfoldable pub post_dismiss : Env → String → String → World → Response {0} Unit × World
unfolding agent_allowed dismiss_agent
post_dismiss env id user_id w =
    let (ok, s) = dismiss_agent id w.store in
    if not (may_manage env id user_id w)
    then (not_found, w)
    else if not ok
    then (not_found, w)
    else (reply 204 tt, set_store s w)

-- What the three handlers over a subtree do with it; a nil slice is an unknown agent.
abbrev pub with_nodes :
    Option (List String)
    → (List String → Response (List String) × World)
    → World
    → Response (List String) × World
with_nodes none f w = (not_found, w)
with_nodes (some nodes) f w = f nodes

abbrev pub run_nodes :
    (String → World → Bool × World) → World → List String → Response (List String) × World
run_nodes f w nodes = let (out, w') = over_nodes f nodes w in (reply 200 out, w')

-- `POST /v1/agents/{id}/revoke`
unfoldable pub post_revoke : Env → String → String → World → Response (List String) × World
unfolding agent_allowed nodes_of revoke_node over_nodes
post_revoke env id user_id w =
    if not (may_manage env id user_id w)
    then (not_found, w)
    else with_nodes (nodes_of id w.store) (run_nodes (revoke_node env) w) w

-- `POST /v1/agents/{id}/resume`
unfoldable pub post_resume : Env → String → String → World → Response (List String) × World
unfolding agent_allowed nodes_of resume_node over_nodes org_is_disabled get_agent
post_resume env id user_id w =
    if not (may_manage env id user_id w)
    then (not_found, w)
    else if org_is_disabled (get_agent id w.store).org_id w.store
    then (error 403 "organization is disabled", w)
    else with_nodes (nodes_of id w.store) (run_nodes (resume_node env) w) w

-- `GET /v1/agents/{id}/subtree`
unfoldable pub get_subtree : Env → String → String → World → Response (List String) × World
unfolding agent_allowed nodes_of
get_subtree env id user_id w =
    if not (may_manage env id user_id w)
    then (not_found, w)
    else with_nodes (nodes_of id w.store) (λ nodes. (reply 200 nodes, w)) w

-- `GET /v1/agents/{id}/chain`
unfoldable pub get_chain : String → Store → Response (List ChainNode)
get_chain id s =
    let rec = get_agent id s in
    if rec.agent_id == "" then not_found else reply 200 (chain_from (store_reads s) 32 [] rec)

pub record DelegationReply : Type 0 where
  pub allowed : Bool
  pub grantable_scopes : List String
  pub max_depth : ℤ

abbrev delegation_of : Option AgentTemplate → String → DelegationReply
delegation_of none child_type = record { allowed = false; grantable_scopes = []; max_depth = pos 0 }
delegation_of (some tpl) child_type =
    let pol = tpl.delegation in
    if contains pol.allowed_child_types child_type
    then record {
      allowed = true;
      grantable_scopes = pol.grantable_scopes;
      max_depth = pol.max_depth;
    }
    else record { allowed = false; grantable_scopes = []; max_depth = pos 0 }

-- `GET /v1/delegation-policy`
unfoldable pub get_delegation_policy : String → String → Store → Response DelegationReply
unfolding get_template
get_delegation_policy parent_type child_type s =
    reply 200 (delegation_of (get_template parent_type s) child_type)

abbrev pub refusal : String → SpawnDecision
refusal reason = record { allowed = false; reason = reason; consent_required = false }

-- The in-memory store's reads do not fail, and the fuel is enough.
abbrev pub depth_or : Outcome ℕ → ℕ
depth_or (done d) = d
depth_or (failed e) = 0
depth_or out_of_fuel = 0

-- The test of the depth cap, which a `max` that is not positive turns off.
abbrev pub is_too_deep : ℤ → ℕ → Bool
is_too_deep (pos n) parent_depth = ltb 0 n && ltb n (parent_depth + 1)
is_too_deep (negsuc n) parent_depth = false

abbrev show_int : ℤ → String
show_int (pos n) = decimal n
show_int (negsuc n) = "-" ⧺ decimal (suc n)

abbrev pub needs_consent : Option ChildSpawnPolicy → Bool
needs_consent none = false
needs_consent (some cp) = cp.require_user_consent

abbrev pub spawn_decision : AgentRecord → AgentTemplate → String → ℕ → SpawnDecision
spawn_decision rec tpl child_type parent_depth =
    let pol = tpl.delegation in
    if not (contains pol.allowed_child_types child_type)
    then refusal (rec.agent_type ⧺ " may not spawn " ⧺ child_type)
    else if is_too_deep pol.max_depth parent_depth
    then refusal ("max delegation depth " ⧺ show_int pol.max_depth ⧺ " reached")
    else record {
      allowed = true;
      reason = "";
      consent_required = needs_consent (lookup child_type pol.child_policies);
    }

abbrev decide_spawn : AgentRecord → Option AgentTemplate → String → ℕ → SpawnDecision
decide_spawn rec none child_type parent_depth = refusal "parent template not found"
decide_spawn rec (some tpl) child_type parent_depth = spawn_decision rec tpl child_type parent_depth

-- `GET /v1/spawn-policy`
unfoldable pub get_spawn_policy : String → String → Store → Response SpawnDecision
unfolding get_agent get_template depth
get_spawn_policy parent_id child_type s =
    let rec = get_agent parent_id s in
    let parent_depth = depth_or (depth (store_reads s) (climb_fuel s) parent_id) in
    if rec.agent_id == ""
    then reply 200 (refusal "unknown parent")
    else reply 200 (decide_spawn rec (get_template rec.agent_type s) child_type parent_depth)
