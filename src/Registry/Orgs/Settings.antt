-- ===== src/Registry/Orgs/Settings.antt =====
-- cmd/registry/orgs.go: the handlers that change an organization: its settings, its suspension, and its
-- removal.
use spawnly.Prelude.{
  String, Bool, true, false, not, ◌||◌, none, some, List, [], ◌∷◌, ◌==◌, ◌⧺◌, if◌then◌else◌, Result,
  ok, err,
}
use spawnly.Registry.Types.{Organization, removal_auto_revoke, removal_orphan_to_admin}
use spawnly.Registry.Store.{get_org, delete_org}
use spawnly.Registry.World.{Env, Response, reply, error, not_found, set_store}
use spawnly.Registry.Cascade.{suspend_org_agents}
use spawnly.Registry.Directory.{Directory, Site, Member, set_world, ask, attempt}
use spawnly.Registry.Orgs.{write_store, drop_roles, disable_org_members, enable_org_members}

abbrev is_disposition : String → Bool
is_disposition d = d == "" || (d == removal_auto_revoke || d == removal_orphan_to_admin)

-- The redirect and the post-logout URI of the satellite of an organization.
abbrev pub redirect_uri : String → String → String
redirect_uri id apex_domain = "https://" ⧺ id ⧺ "." ⧺ apex_domain ⧺ "/callback"

abbrev pub post_logout_uri : String → String → String
post_logout_uri id apex_domain = "https://" ⧺ id ⧺ "." ⧺ apex_domain ⧺ "/"

module _ {D : Type 0} (env : Env) (dir : Directory D) where
  -- `PATCH /v1/orgs/{id}`; the body is the disposition.
  unfoldable pub patch_org : String → Result String → Site D → Response Organization × Site D
  unfolding get_org
  patch_org id body s = elim body [
    | err e ↦ (error 400 e, s)
    | ok disposition ↦
        if not (is_disposition disposition)
        then (error 400 "invalid removalDisposition", s)
        else elim (get_org id s.world.store) [
          | none ↦ (not_found, s)
          | some org ↦
              let org' : Organization = record org { removal_disposition = disposition } in
              (reply 200 org', write_store env dir org' s)
        ]
  ]

  -- `POST /v1/orgs/{id}/disable`. The flag is set before the members are locked out.
  unfoldable pub post_org_disable : String → String → Site D → Response Organization × Site D
  unfolding get_org disable_org_members suspend_org_agents
  post_org_disable master_admin id s = elim (get_org id s.world.store) [
    | none ↦ (not_found, s)
    | some org ↦
        let org' : Organization = record org { disabled = true } in
        attempt (disable_org_members env dir id master_admin (write_store env dir org' s))
          (λ _. error 500 "org disable failed")
          (λ _ s1. (reply 200 org', set_world (suspend_org_agents env id s1.world) s1))
  ]

  -- `POST /v1/orgs/{id}/enable`. The flag is cleared after the members are let in.
  unfoldable pub post_org_enable : String → Site D → Response Organization × Site D
  unfolding get_org enable_org_members
  post_org_enable id s = elim (get_org id s.world.store) [
    | none ↦ (not_found, s)
    | some org ↦
        let org' : Organization = record org { disabled = false } in
        attempt (enable_org_members env dir id s) (λ _. error 500 "org enable failed")
          (λ _ s1. (reply 200 org', write_store env dir org' s1))
  ]

  drop_members : String → List Member → Site D → Site D
  drop_members id [] s = s
  drop_members id (m ∷ ms) s = drop_members id ms (drop_roles env dir id m.user_id s)

  -- The error is only logged.
  abbrev drop_satellite : String → String → Site D → Site D
  drop_satellite id apex_domain s =
      if apex_domain == ""
      then s
      else (ask
          (dir.remove_org_redirect_uris (redirect_uri id apex_domain)
            (post_logout_uri id apex_domain))
          s).1

  -- `DELETE /v1/orgs/{id}`
  unfoldable pub remove_org : String → String → Site D → Response {0} Unit × Site D
  unfolding get_org enable_org_members drop_members delete_org
  remove_org apex_domain id s = elim (get_org id s.world.store) [
    | none ↦ (not_found, s)
    | some org ↦
        attempt (enable_org_members env dir id s) (λ _. error 500 "org delete failed")
          (λ _ s1.
            attempt (ask (dir.list_members id) s1) (λ _. error 500 "org delete failed")
              (λ ms s2.
                attempt
                  (ask (dir.delete_org id) (drop_satellite id apex_domain (drop_members id ms s2)))
                  (λ _. error 500 "org delete failed")
                  (λ _ s3. (
                    reply 204 tt,
                    set_world (set_store (delete_org id s3.world.store).1 s3.world) s3,
                  ))))
  ]
