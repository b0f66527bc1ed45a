-- ===== src/Examples/Agents.antt =====
-- The theorems on agents.
use spawnly.Prelude.{
  String, ◌≡◌, refl, ◌↔◌, true, false, none, some, List, [], ◌∷◌, ◌==◌, ok, err, contains, IsUnique,
  if◌then◌else◌, arith,
}
use spawnly.Prelude.Assoc.{keys, lookup}
use spawnly.Registry.Types.{SpawnDecision}
use spawnly.Registry.Store.{get_agent, get_template}
use spawnly.Consent.{valid_user_id}
use spawnly.Registry.World.{reply, error}
use spawnly.Spicedb.Client.{delete_agent_relationships}
use spawnly.Registry.Lineage.{ChainNode, node_of, Reads, store_reads, done, failed, subtree, depth}
use spawnly.Registry.Lineage.Failure.{Broken, broken, above, depth_fails}
use spawnly.Registry.Registration.{valid_agent_id}
use spawnly.Registry.Admission.{RegisterBody, identity_refusal, registered, post_agents}
use spawnly.Registry.Lifecycle.{patch_agent, types_or}
use spawnly.Registry.Lifecycle.Rights.{patch_agent_exact}
use spawnly.Registry.Lifecycle.Reinstated.{WasEnabled, self_patch_lifts_revocation}
use spawnly.Registry.Control.Spawning.{MaySpawn, AsksConsent, get_spawn_policy_exact}
use spawnly.Registry.Lineage.Descent.{Descends}
use spawnly.Registry.Lineage.Exact.{walk_fuel, subtree_exact}
use spawnly.Registry.Lineage.Depth.{Lineage, climb_fuel, depth_exact, ends, under}
use spawnly.Registry.Control.{post_revoke, post_resume, get_spawn_policy}
use spawnly.Registry.Authority.{agent_allowed, org_is_disabled}
use spawnly.Registry.Control.Revocation.{IsSubtree, Ran, post_revoke_exact, post_resume_exact}
use spawnly.Registry.Cascade.{revocable_status}
use spawnly.Registry.Cascade.Nodes.{is_revoked, disable_call, enable_call, with_status}
use spawnly.Registry.Control.Chain.{Ancestry, top, below}
use spawnly.Registry.Cascade.Filed.{IsFiled}
use spawnly.Examples.Data.{env, store, world, planner, revoked_agent, root_agent}

subtree_exact_example :
    (nodes : List String) × (subtree (store_reads store) (walk_fuel store) "a" ≡ done (some nodes))
    × ((x : String) → (contains nodes x ≡ true) ↔ Descends store "a" x)
    × IsUnique nodes
unfolding get_agent lookup
subtree_exact_example = subtree_exact store "a" refl

Lineage-b : Lineage store "b" 2
unfolding get_agent lookup
Lineage-b = under refl refl (under refl refl (ends refl))

depth_exact_example : depth (store_reads store) (climb_fuel store) "b" ≡ done 2
depth_exact_example = depth_exact store "b" 2 Lineage-b

store-IsFiled : IsFiled store.agents
unfolding keys
store-IsFiled = (refl, refl, (refl, refl, (refl, refl, (refl, refl, tt))))

abbrev lineage_of_b : List ChainNode
unfolding get_agent lookup
lineage_of_b = node_of (get_agent "b" store) ∷ node_of (get_agent "a" store) ∷ []

Ancestry-b : Ancestry store "b" lineage_of_b
unfolding get_agent lookup
Ancestry-b = below refl refl (top refl refl)

post_revoke_exact_example :
    (nodes : List String) × IsSubtree "a" store nodes
    × Ran revocable_status "revoked" disable_call nodes world (post_revoke env "a" "alice" world)
unfolding agent_allowed get_agent lookup
post_revoke_exact_example = post_revoke_exact env "a" "alice" world refl

post_resume_exact_example :
    (nodes : List String) × IsSubtree "r" store nodes
    × Ran is_revoked "active" enable_call nodes world (post_resume env "r" "alice" world)
unfolding agent_allowed org_is_disabled get_agent lookup
post_resume_exact_example = post_resume_exact env "r" "alice" world refl refl

get_spawn_policy_exact_example :
    (d : SpawnDecision) × (get_spawn_policy "b" "worker" store ≡ reply 200 d)
    × ((d.allowed ≡ true) ↔ MaySpawn store "b" "worker" 2)
    × ((d.consent_required ≡ true)
        ↔ (MaySpawn store "b" "worker" 2 × AsksConsent store "b" "worker"))
get_spawn_policy_exact_example = get_spawn_policy_exact store "b" "worker" 2 Lineage-b

abbrev failing : Reads
failing = record {
  get_agent = λ id. if id == "b" then ok (get_agent "b" store) else err "throttled";
  list_children = λ id. err "throttled";
}

Broken-b : Broken failing "throttled" "b" 1
unfolding get_agent lookup
Broken-b = above (get_agent "b" store) refl refl refl (broken refl refl)

depth_fails_example : depth failing 5 "b" ≡ failed "throttled"
depth_fails_example = depth_fails failing "throttled" "b" 1 5 Broken-b (omega arith)

patch_agent_exact_example :
    let r = patch_agent env true none "a" (ok "completed") world in
    (r.0 ≡ reply 200 tt)
    × ((j : String)
        → lookup j r.1.store.agents
          ≡ (if "a" == j then some (with_status "completed" root_agent) else lookup j store.agents))
    × (r.1.calls
        ≡ disable_call "a"
          ∷ delete_agent_relationships "a" (types_or (get_template "planner" store) false)
          ∷ [])
unfolding lookup
patch_agent_exact_example =
    patch_agent_exact env true none "a" "completed" world root_agent refl refl

abbrev body : RegisterBody
body = record { agent_type = "planner"; tenant_id = ""; user_id = "bob"; parent_id = "r" }

self_patch_lifts_revocation_example :
    let first = post_agents env (some "r") (ok body) world in
    let patch = patch_agent env false (some "r") "r" (ok "active") world in
    let second = post_agents env (some "r") (ok body) patch.1 in
    (first.0 ≡ error 409 "agent r is revoked; re-registration refused")
    × (patch.0 ≡ reply 200 tt)
    × (second.0 ≡ reply 201 (registered "r" body planner (with_status "active" revoked_agent)))
    × WasEnabled "r" second.1
unfolding identity_refusal valid_agent_id valid_user_id org_is_disabled get_template lookup
self_patch_lifts_revocation_example =
    self_patch_lifts_revocation env "r" body revoked_agent planner world refl refl refl refl refl
      refl refl
