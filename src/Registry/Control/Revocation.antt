-- ===== src/Registry/Control/Revocation.antt =====
-- The revoke and resume handlers: which records they change, and what they ask of SpiceDB.
use mathlib.Core.Option
use spawnly.Prelude.{
  String, ◌≡◌, refl, ◌∙◌, ap, ◌↔◌, Bool, true, false, not, ◌||◌, some, List, ◌==◌, arith, contains,
  select, IsUnique, if◌then◌else◌,
}
use spawnly.Prelude.Assoc.{lookup}
use spawnly.Spicedb.Client.{Call}
use spawnly.Registry.Store.{Store, get_agent}
use spawnly.Registry.Lineage.Descent.{Descends}
use spawnly.Registry.Lineage.Exact.{subtree_exact}
use spawnly.Registry.World.{Env, World, Response, reply, not_found}
use spawnly.Registry.Authority.{agent_allowed, org_is_disabled, action_manage}
use spawnly.Registry.Authority.Rules.{agent_allowed_exact}
use spawnly.Registry.Cascade.{revocable_status, revoke_node, resume_node, nodes_of}
use spawnly.Registry.Cascade.Nodes.{
  Acts, flipped, is_revoked, logged, disable_call, enable_call, revoke_node-Acts, resume_node-Acts,
  over_nodes-agents, over_nodes-calls, over_nodes-changed,
}
use spawnly.Registry.Control.{may_manage, run_nodes, post_revoke, post_resume, get_subtree}

abbrev IsKnown : String → World → Type 0
IsKnown id w = ((get_agent id w.store).agent_id == "") ≡ false

may_manage-IsKnown :
    (env : Env) (id user_id : String) (w : World)
    → may_manage env id user_id w ≡ true
    → IsKnown id w
may_manage-IsKnown env id user_id w h =
    let r = agent_allowed env id user_id action_manage w in
    ((agent_allowed_exact env id user_id action_manage w).0 (yes r.1 r.0 h)).0
  where
    yes : (a b : Bool) → not (not a || not b) ≡ true → b ≡ true
    yes a b h = ground arith

-- The agent itself and all its descendants.
abbrev pub IsSubtree : String → Store → List String → Type 0
IsSubtree id s nodes = ((x : String) → (contains nodes x ≡ true) ↔ Descends s id x) × IsUnique nodes

pub nodes_of-IsSubtree :
    (id : String) (s : Store)
    → ((get_agent id s).agent_id == "") ≡ false
    → (nodes : List String) × (nodes_of id s ≡ some nodes) × IsSubtree id s nodes
unfolding nodes_of
nodes_of-IsSubtree id s known =
    let (nodes, e, finds, unique) = subtree_exact s id known in (nodes, rw e, (finds, unique))

-- The effect of a run over the nodes: it lists those whose status passes the test, gives them the
-- new status, makes one call for each of them in that order, and changes no other record.
abbrev pub Ran :
    (String → Bool)
    → String
    → (String → Call)
    → List String
    → World
    → Response (List String) × World
    → Type 0
Ran p status c nodes w r =
    let hits = select (λ j. p (get_agent j w.store).status) nodes in
    (r.0 ≡ reply 200 hits)
    × ((j : String)
        → lookup j r.1.store.agents ≡ (
            if contains nodes j
            then Option.map (flipped p status) (lookup j w.store.agents)
            else lookup j w.store.agents))
    × (r.1.calls ≡ logged c hits w.calls)

run_nodes-Ran :
    (f : Env → String → World → Bool × World) (p : String → Bool) (status : String)
    (c : String → Call)
    → Acts f p status c
    → p status ≡ false
    → (env : Env) (nodes : List String) (w : World) → IsUnique nodes
    → Ran p status c nodes w (run_nodes (f env) w nodes)
run_nodes-Ran f p status c acts settled env nodes w unique =
    let hits = over_nodes-changed f p status c acts settled env nodes w unique in
    (
      ap (reply 200) hits,
      over_nodes-agents f p status c acts settled env nodes w,
      over_nodes-calls f p status c acts settled env nodes w
          ∙ ap (λ out. logged c out w.calls) hits,
    )

-- A caller who may manage an agent revokes it with all its descendants: the answer lists those that
-- were active or pending, these and no other records become revoked, and for each of them its
-- `enabled` tuple is deleted.
pub post_revoke_exact :
    (env : Env) (id user_id : String) (w : World)
    → may_manage env id user_id w ≡ true
    → (nodes : List String) × IsSubtree id w.store nodes
      × Ran revocable_status "revoked" disable_call nodes w (post_revoke env id user_id w)
unfolding post_revoke revocable_status
post_revoke_exact env id user_id w may =
    let (nodes, e, is) = nodes_of-IsSubtree id w.store (may_manage-IsKnown env id user_id w may) in
    (
      nodes,
      is,
      rw (may, post_revoke)
          (rw (e, post_revoke)
            (run_nodes-Ran revoke_node revocable_status "revoked" disable_call revoke_node-Acts refl
              env nodes w is.1)),
    )

-- A caller who may manage an agent resumes it with all its descendants, where its organization is not
-- disabled: the answer lists those that were revoked, these and no other records become active, and
-- for each of them its `enabled` tuple is written.
pub post_resume_exact :
    (env : Env) (id user_id : String) (w : World)
    → may_manage env id user_id w ≡ true
    → org_is_disabled (get_agent id w.store).org_id w.store ≡ false
    → (nodes : List String) × IsSubtree id w.store nodes
      × Ran is_revoked "active" enable_call nodes w (post_resume env id user_id w)
unfolding post_resume
post_resume_exact env id user_id w may enabled =
    let (nodes, e, is) = nodes_of-IsSubtree id w.store (may_manage-IsKnown env id user_id w may) in
    (
      nodes,
      is,
      rw (may, post_resume)
          (rw (enabled, post_resume)
            (rw (e, post_resume)
              (run_nodes-Ran resume_node is_revoked "active" enable_call resume_node-Acts refl env
                nodes w is.1))),
    )

-- A caller who may not manage the agent is told that it is not found, by the three handlers over its
-- subtree, and nothing changes.
pub control_refuses :
    (env : Env) (id user_id : String) (w : World)
    → may_manage env id user_id w ≡ false
    → (post_revoke env id user_id w ≡ (not_found, w))
      × (post_resume env id user_id w ≡ (not_found, w))
      × (get_subtree env id user_id w ≡ (not_found, w))
unfolding post_revoke post_resume get_subtree
control_refuses env id user_id w shut =
    (rw (shut, post_revoke), rw (shut, post_resume), rw (shut, get_subtree))
