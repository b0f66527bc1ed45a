-- ===== src/Examples/Registration.antt =====
-- The theorems on the registration of agents and on the sweep.
use spawnly.Prelude.{
  String, ◌≡◌, refl, true, false, Option, some, List, [], ◌∷◌, ◌==◌, ok, err, ◌&&◌, select,
  if◌then◌else◌,
}
use spawnly.Prelude.Assoc.{lookup}
use spawnly.Consent.{valid_user_id}
use spawnly.Registry.Types.{AgentRecord, no_agent}
use spawnly.Registry.Store.{get_agent, get_template}
use spawnly.Registry.World.{reply, error}
use spawnly.Registry.Authority.{org_is_disabled}
use spawnly.Registry.Registration.{valid_agent_id, post_preregister}
use spawnly.Registry.Registration.Preregistration.{Ends, post_preregister_exact}
use spawnly.Registry.Admission.{
  RegisterBody, identity_refusal, register_refusal, registered, post_agents,
}
use spawnly.Registry.Admission.Identity.{IsKept, post_agents_keeps, post_agents_forgets}
use spawnly.Registry.Lineage.{ids_of}
use spawnly.Operator.StaleSweep.{sweep}
use spawnly.Operator.StaleSweep.Orphans.{is_orphan, failed_ids, posted_ids, sweep_exact}
use spawnly.Examples.Data.{env, world, store, root_agent, revoked_agent}

abbrev body : RegisterBody
body = record { agent_type = "planner"; tenant_id = "t1"; user_id = "bob"; parent_id = "r" }

abbrev admitted : AgentRecord
admitted = record no_agent {
  agent_id = "a";
  agent_type = "planner";
  tenant_id = "t1";
  user_id = "alice";
  status = "active";
  lifecycle = "task";
}

is_admitted : (post_agents env (some "a") (ok body) world).0 ≡ reply 201 admitted
unfolding post_agents identity_refusal register_refusal valid_agent_id valid_user_id org_is_disabled
    get_template get_agent lookup registered
is_admitted = refl

post_agents_keeps_example :
    (◌≡◌ {A = Option String} (some "a") (some "a"))
    × (valid_agent_id "a" ≡ true)
    × IsKept admitted (get_agent "a" store) store
    × ((j : String)
        → lookup j (post_agents env (some "a") (ok body) world).1.store.agents
          ≡ (if "a" == j then some admitted else lookup j store.agents))
post_agents_keeps_example = post_agents_keeps env (some "a") (ok body) world admitted is_admitted

post_agents_forgets_example :
    (lookup "a" (post_agents env (some "a") (ok body) world).1.store.agents ≡ some admitted)
    × (admitted.consent_required ≡ false)
    × (admitted.dismissed ≡ false)
post_agents_forgets_example =
    post_agents_forgets env (some "a") (ok body) world admitted is_admitted

is_refused :
    (post_agents env (some "r") (ok body) world).0
    ≡ error 409 "agent r is revoked; re-registration refused"
unfolding post_agents identity_refusal register_refusal valid_agent_id valid_user_id org_is_disabled
    get_template get_agent lookup registered
is_refused = refl

post_preregister_exact_example :
    Ends true (ok root_agent) world (post_preregister env true (ok root_agent) world)
post_preregister_exact_example = post_preregister_exact env true (ok root_agent) world

abbrev listed : List AgentRecord
listed = root_agent ∷ revoked_agent ∷ []

sweep_exact_example :
    let run = sweep "resync" true (λ id. true) in
    let actions = (run (ok listed) (ok ("a" ∷ []))).1 in
    (failed_ids actions ≡ ids_of (select (is_orphan ("a" ∷ [])) listed))
    × (posted_ids actions ≡ ids_of (select (λ a. is_orphan ("a" ∷ []) a && true) listed))
    × (run (err "down") (ok []) ≡ (some "down", []))
    × (run (ok listed) (err "down") ≡ (some "down", []))
sweep_exact_example = sweep_exact "resync" true (λ id. true) listed ("a" ∷ []) (ok []) "down"
