-- ===== src/Examples/Cascades.antt =====
-- The theorems on suspensions.
use spawnly.Prelude.{◌≡◌, refl, true, false, not, ◌&&◌, ◌==◌, [], ◌∷◌, All}
use spawnly.Prelude.Assoc.{lookup, values, keys}
use spawnly.Registry.Types.{AgentRecord}
use spawnly.Registry.Store.{get_agent}
use spawnly.Registry.Lineage.Depth.{Lineage, ends, under}
use spawnly.Registry.World.{World}
use spawnly.Registry.Cascade.{revocable_status, suspend_org_agents}
use spawnly.Registry.Cascade.Filed.{IsFiled}
use spawnly.Registry.Cascade.Suspension.{
  suspend_org_agents_settles, suspend_org_agents_skips_dismissed,
}
use spawnly.Registry.Directory.{Site}
use spawnly.Registry.Orgs.{is_master_admin}
use spawnly.Registry.Users.{post_user_disable}
use spawnly.Registry.Users.Banned.{post_user_disable_settles}
use spawnly.Consent.{valid_user_id}
use spawnly.Prelude.{String, ok}
use spawnly.Examples.Data.{directory, env, store, world, root_agent}

abbrev boss : AgentRecord
boss = record root_agent { agent_id = "p"; org_id = "acme" }

abbrev helper : AgentRecord
helper = record root_agent { agent_id = "q"; org_id = "acme"; parent_id = "p"; status = "pending" }

abbrev staffed : World
staffed = record world { store = record store { agents = ("p", boss) ∷ ("q", helper) ∷ [] } }

staffed-IsFiled : IsFiled staffed.store.agents
unfolding keys
staffed-IsFiled = (refl, refl, (refl, refl, tt))

Lineage-q : Lineage staffed.store "q" 2
unfolding get_agent lookup
Lineage-q = under refl refl (under refl refl (ends refl))

suspend_org_agents_settles_example :
    revocable_status (get_agent "q" (suspend_org_agents env "acme" staffed).store).status ≡ false
unfolding lookup
suspend_org_agents_settles_example =
    suspend_org_agents_settles env "acme" staffed "q" helper 2 staffed-IsFiled refl refl refl refl
      Lineage-q

abbrev site : Site String
site = record { world = staffed; backend = "" }

post_user_disable_settles_example :
    let s' = (post_user_disable env directory "root" "alice" (ok true) site).1 in
    (revocable_status (get_agent "q" s'.world.store).status ≡ false)
    × (is_master_admin "root" "alice" ≡ false)
unfolding lookup post_user_disable valid_user_id is_master_admin
post_user_disable_settles_example =
    post_user_disable_settles env directory "root" "alice" site refl "q" helper 2 staffed-IsFiled
      refl refl refl refl Lineage-q

abbrev hidden : World
hidden = record world {
  store = record store { agents = ("p", record boss { dismissed = true }) ∷ [] };
}

hidden-All : All (λ r. (r.org_id == "acme" && not r.dismissed) ≡ false) (values hidden.store.agents)
unfolding values
hidden-All = (refl, tt)

suspend_org_agents_skips_dismissed_example : suspend_org_agents env "acme" hidden ≡ hidden
suspend_org_agents_skips_dismissed_example =
    suspend_org_agents_skips_dismissed env "acme" hidden hidden-All
