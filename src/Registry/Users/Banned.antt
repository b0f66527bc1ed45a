-- ===== src/Registry/Users/Banned.antt =====
-- cmd/registry/users.go: what a lock by a platform admin does.
use spawnly.Prelude.{
  ℕ, String, ◌≡◌, refl, ap, ◌∙◌, Bool, true, false, Option, some, List, ◌∷◌, ◌==◌, All,
  if◌then◌else◌, ok, eq_refl, arith,
}
use spawnly.Prelude.Assoc.{lookup}
use spawnly.Registry.Types.{AgentRecord}
use spawnly.Registry.Store.{get_agent}
use spawnly.Registry.Lineage.Depth.{Lineage}
use spawnly.Registry.World.{Env, World, reply}
use spawnly.Registry.Cascade.{revocable_status, suspend_user_agents}
use spawnly.Registry.Cascade.Filed.{IsFiled}
use spawnly.Registry.Cascade.Suspension.{suspend_user_agents_settles}
use spawnly.Registry.Directory.{Directory, Site, set_world, ask}
use spawnly.Registry.Orgs.{is_master_admin}
use spawnly.Registry.Users.{post_user_disable}
use spawnly.Keycloak.{Admin, Rep}
use spawnly.Keycloak.Clients.{Cached}
use spawnly.Keycloak.Port.{directory_on}
use spawnly.Keycloak.Users.{disable_user}
use spawnly.Keycloak.Editing.{Answers}
use spawnly.Keycloak.Accounts.{calls, calls_lem}
use spawnly.Keycloak.Lifecycle.{Edit, disable, apply_edits}
use spawnly.Keycloak.Lockout.{IsOrgs, banned_stays}

module _ {D : Type 0} (env : Env) (dir : Directory D) (master username : String) (s : Site D) where
  post_user_disable_lem :
      (suspend : Bool)
      → (post_user_disable env dir master username (ok suspend) s).0 ≡ reply 204 tt
      → (post_user_disable env dir master username (ok suspend) s).1 ≡ (
          let s1 = (ask (dir.disable_user username "") s).1 in
          if suspend then set_world (suspend_user_agents env username s.world) s1 else s1)
        × (is_master_admin master username ≡ false)
  unfolding post_user_disable
  post_user_disable_lem suspend h = ground arith

-- After a lock with the suspension of the agents that replied 204, every agent of the user that is not
-- dismissed, and whose lineage ends, has a status that is neither active nor pending, whatever the
-- directory is; and the user is not the master admin, however the name is spelled.
pub post_user_disable_settles :
    {D : Type 0} (env : Env) (dir : Directory D) (master username : String) (s : Site D)
    → (post_user_disable env dir master username (ok true) s).0 ≡ reply 204 tt
    → (id : String) (r : AgentRecord) (n : ℕ) → IsFiled s.world.store.agents
    → lookup id s.world.store.agents ≡ some r
    → (id == "") ≡ false
    → r.user_id ≡ username
    → r.dismissed ≡ false
    → Lineage s.world.store id n
    → let s' = (post_user_disable env dir master username (ok true) s).1 in
      (revocable_status (get_agent id s'.world.store).status ≡ false)
      × (is_master_admin master username ≡ false)
post_user_disable_settles env dir master username s h id r n filed at named owns shown l =
    let (after, guarded) = post_user_disable_lem env dir master username s true h in
    (
      ap (λ t. revocable_status (get_agent id t.world.store).status) after
          ∙ suspend_user_agents_settles env username s.world id r n filed at named owns shown l,
      guarded,
    )

module _ {K : Type 0} (env : Env) (api : Admin K) (id_of : K → String → Option String)
    (rep_of : K → String → Option Rep) (answers : Answers api id_of rep_of) where
  -- A user whom a platform admin has locked stays locked, whatever organizations do afterwards: after
  -- the 204, for any suspensions and liftings by organizations, the account may not log in, also if it
  -- was locked or suspended before.
  pub post_user_disable_bans :
      (client : String) (rounds : ℕ) (master username id : String) (body : Bool)
      (s : Site (Cached K)) (rep : Rep)
      → (post_user_disable env (directory_on api client rounds) master username (ok body) s).0
        ≡ reply 204 tt
      → id_of s.backend.backend username ≡ some id
      → rep_of s.backend.backend id ≡ some rep
      → (es : List Edit) → All IsOrgs es
      → let s' =
          (post_user_disable env (directory_on api client rounds) master username (ok body) s).1 in
        (rep' : Rep) × (rep_of (calls api username es s'.backend.backend) id ≡ some rep')
        × (rep'.enabled ≡ some false)
  post_user_disable_bans client rounds master username id body s rep h found at es named =
      let dir = directory_on api client rounds in
      let (after, _) = post_user_disable_lem env dir master username s body h in
      let k' = (post_user_disable env dir master username (ok body) s).1.backend.backend in
      let left : k' ≡ (disable_user api username "" s.backend.backend).1 =
        ap (λ t. t.backend.backend) after
        ∙ same_backend body (suspend_user_agents env username s.world)
            (ask (dir.disable_user username "") s).1 in
      let (ids, reps) =
        calls_lem api id_of rep_of answers (disable "" ∷ es) username id s.backend.backend rep found
          at in
      (
        apply_edits (disable "" ∷ es) rep,
        ap (λ k. rep_of (calls api username es k) id) left ∙ reps id ∙ rw (eq_refl id) refl,
        banned_stays es rep named,
      )
    where
      same_backend :
          (b : Bool) (w : World) (t : Site (Cached K))
          → (if b then set_world w t else t).backend.backend ≡ t.backend.backend
      same_backend true w t = refl
      same_backend false w t = refl
