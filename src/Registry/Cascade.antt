-- ===== src/Registry/Cascade.antt =====
-- cmd/registry/main.go: the revocation of agents and its reverse, node by node and over subtrees, and
-- the suspensions of cmd/registry/users.go and orgs.go that run it. The writes to SpiceDB and to the
-- event log are best effort: their errors are only logged.
pub mod Nodes
pub mod Filed
pub mod Similar
pub mod Roots
pub mod Suspension
use spawnly.Prelude.{
  ℕ, String, Bool, true, false, not, ◌&&◌, ◌||◌, Option, none, some, List, [], ◌∷◌, ◌==◌, ◌⧺◌,
  select, contains, if◌then◌else◌,
}
use spawnly.Spicedb.Client.{write_relationship, delete_relationship, Call}
use spawnly.Spicedb.ObjectId.{encode}
use spawnly.Registry.Types.{AgentRecord, fields, source_registry, removal_auto_revoke}
use spawnly.Consent.{ConsentRecord}
use spawnly.Registry.Store.{Store, get_agent, update_agent, list_agents, append_event}
use spawnly.Registry.Requests.{list_consents, revoke_consent}
use spawnly.Registry.Lineage.{Outcome, done, failed, out_of_fuel, store_reads, subtree, ids_of}
use spawnly.Registry.Lineage.Exact.{walk_fuel}
use spawnly.Registry.World.{Env, World, call, emit, event_of, set_store}

unfoldable pub revocable_status : String → Bool
revocable_status status = status == "active" || status == "pending"

-- A change of status, of the `enabled` tuple and of the event log.
abbrev pub flip : Env → String → String → Call → String → World → World
flip env id status c event w =
    let w' = (call env c (set_store (update_agent id status w.store).1 w)).1 in
    (emit env id (event_of source_registry event (fields (("agentId", id) ∷ []))) w').1

unfoldable pub revoke_node : Env → String → World → Bool × World
unfolding update_agent
revoke_node env id w =
    if not (revocable_status (get_agent id w.store).status) then (false, w) else (
      true,
      flip env id "revoked" (delete_relationship ("agent:" ⧺ id) "enabled" ("agent:" ⧺ id))
          "agent_revoked" w,
    )

unfoldable pub resume_node : Env → String → World → Bool × World
unfolding update_agent
resume_node env id w = if not ((get_agent id w.store).status == "revoked") then (false, w) else (
  true,
  flip env id "active" (write_relationship ("agent:" ⧺ id) "enabled" ("agent:" ⧺ id))
      "agent_resumed" w,
)

-- The loop of the handlers over the nodes of a subtree, with the ids at which `f` did something.
unfoldable pub over_nodes :
    (String → World → Bool × World) → List String → World → List String × World
over_nodes f [] w = ([], w)
over_nodes f (id ∷ ids) w =
    let (hit, w1) = f id w in
    let (out, w2) = over_nodes f ids w1 in (if hit then id ∷ out else out, w2)

-- The nodes that `subtree` yields. Its reads never fail here, and the fuel is enough.
abbrev pub nodes_or : Outcome (Option (List String)) → Option (List String)
nodes_or (done nodes) = nodes
nodes_or (failed e) = none
nodes_or out_of_fuel = none

unfoldable pub nodes_of : String → Store → Option (List String)
nodes_of id s = nodes_or (subtree (store_reads s) (walk_fuel s) id)

abbrev pub or_none : Option (List String) → List String
or_none none = []
or_none (some nodes) = nodes

-- The loop of `cascadeOverRoots`.
unfoldable pub cascade_over_roots : Env → List AgentRecord → List String → World → World
unfolding over_nodes revoke_node nodes_of
cascade_over_roots env [] scope w = w
cascade_over_roots env (a ∷ roots) scope w =
    let revoked = (over_nodes (revoke_node env) (or_none (nodes_of a.agent_id w.store)) w).1 in
    let w' = if not (a.parent_id == "") && contains scope a.parent_id then w else revoked in
    cascade_over_roots env roots scope w'

unfoldable pub revoke_cascade_roots :
    Env → (AgentRecord → Bool) → (AgentRecord → Bool) → World → World
unfolding cascade_over_roots list_agents
revoke_cascade_roots env scope root w =
    let agents = list_agents w.store in
    cascade_over_roots env (select root agents) (ids_of (select scope agents)) w

-- cmd/registry/users.go and orgs.go
unfoldable pub revoke_owned_roots : Env → String → (AgentRecord → Bool) → World → World
unfolding revoke_cascade_roots
revoke_owned_roots env user include =
    revoke_cascade_roots env (λ a. a.user_id == user) (λ a. a.user_id == user && include a)

unfoldable pub suspend_user_agents : Env → String → World → World
unfolding revoke_owned_roots
suspend_user_agents env user = revoke_owned_roots env user (λ a. true)

unfoldable pub suspend_org_agents : Env → String → World → World
unfolding revoke_cascade_roots
suspend_org_agents env org_id =
    revoke_cascade_roots env (λ a. a.org_id == org_id) (λ a. a.org_id == org_id)

purge : String → List ConsentRecord → Store → Store
purge user [] s = s
purge user (rec ∷ recs) s = purge user recs (revoke_consent rec.id user s).1

unfoldable pub purge_user_consents : String → Store → Store
unfolding purge list_consents
purge_user_consents user s = purge user (list_consents user s) s

-- The loops of `applyRemovalDisposition` over the agents that the former member owns.
drop_owners : Env → String → List AgentRecord → World → World
drop_owners env sub [] w = w
drop_owners env sub (a ∷ owned) w =
    drop_owners env sub owned
      (call env (delete_relationship ("agent:" ⧺ a.agent_id) "owner" sub) w).1

note_orphans : Env → String → String → List AgentRecord → World → World
note_orphans env org user [] w = w
note_orphans env org user (a ∷ owned) w =
    let payload = fields (("agentId", a.agent_id) ∷ ("orgId", org) ∷ ("formerOwner", user) ∷ []) in
    note_orphans env org user owned
      (emit env a.agent_id (event_of source_registry "agent_orphaned" payload) w).1

unfoldable pub apply_removal_disposition : Env → String → String → String → World → World
unfolding drop_owners note_orphans cascade_over_roots list_agents encode
apply_removal_disposition env org user disposition w =
    let owned = select (λ a. a.org_id == org && a.user_id == user) (list_agents w.store) in
    let w' = drop_owners env ("user:" ⧺ encode user) owned w in
    if disposition == removal_auto_revoke
    then cascade_over_roots env owned (ids_of owned) w'
    else note_orphans env org user owned w'
