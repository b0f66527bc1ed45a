-- ===== src/Registry/Users.antt =====
-- cmd/registry/users.go: the handlers by which a platform admin edits, locks, unlocks and removes users.
-- Every one is behind the control-plane gate.
pub mod Banned
use Prim.Native.String.{count}
use spawnly.Prelude.{
  ℕ, String, Bool, true, false, not, ◌&&◌, ◌||◌, Option, none, some, List, [], ◌∷◌, ◌==◌,
  if◌then◌else◌, Result, ok, err, ltb,
}
use spawnly.Consent.{valid_user_id}
use spawnly.Registry.World.{Env, Response, reply, error, set_store}
use spawnly.Registry.Cascade.{suspend_user_agents, revoke_owned_roots, purge_user_consents}
use spawnly.Registry.Directory.{Done, Directory, Site, User, UserUpdate, set_world, ask, attempt}
use spawnly.Registry.Orgs.{is_master_admin, remove_member_from_org}

unfoldable pub too_long : Option String → ℕ → Bool
too_long none max = false
too_long (some s) max = ltb max (count s)

abbrev is_absent : Option String → Bool
is_absent none = true
is_absent (some s) = false

-- `mail.ParseAddress` gives the name and the address, or `none` for its error.
abbrev is_bad_email : (String → Option (String × String)) → Option String → Bool
is_bad_email parse_address none = false
is_bad_email parse_address (some email) = not (email == "") && elim (parse_address email) [
  | none ↦ true
  | some (name, address) ↦ not (name == "") || not (address == email)
]

module _ {D : Type 0} (env : Env) (dir : Directory D) where
  -- `GET /v1/users`
  unfoldable pub get_users : Site D → Response (List User) × Site D
  get_users s =
      attempt (ask dir.list_users s) (λ _. error 500 "user list failed")
        (λ us s1. (reply 200 us, s1))

  -- `PATCH /v1/users/{username}`; the body is decoded with unknown fields refused.
  unfoldable pub patch_user :
      (String → Option (String × String))
      → String
      → Result UserUpdate
      → Site D
      → Response {0} Unit × Site D
  unfolding valid_user_id too_long
  patch_user parse_address username body s =
      if not (valid_user_id username) then (error 400 "invalid user", s) else elim body [
        | err e ↦ (error 400 "invalid body", s)
        | ok b ↦
            if is_absent b.email && is_absent b.first_name && is_absent b.last_name
            then (error 400 "no fields to update", s)
            else if too_long b.email 255 || too_long b.first_name 255 || too_long b.last_name 255
            then (error 400 "field too long", s)
            else if is_bad_email parse_address b.email
            then (error 400 "invalid email", s)
            else attempt (ask (dir.update_user username b) s)
                (λ e.
                  if dir.is_conflict e
                  then error 409 "email already in use"
                  else error 500 "update failed")
                (λ _ s1. (reply 204 tt, s1))
      ]

  -- `POST /v1/users/{username}/disable`; the body says whether the agents are suspended.
  unfoldable pub post_user_disable :
      String → String → Result Bool → Site D → Response {0} Unit × Site D
  unfolding valid_user_id is_master_admin suspend_user_agents
  post_user_disable master_admin username body s =
      if not (valid_user_id username)
      then (error 400 "invalid user", s)
      else if is_master_admin master_admin username
      then (error 403 "the master-admin account cannot be disabled", s)
      else elim body [
        | err e ↦ (error 400 "invalid body", s)
        | ok suspend ↦
            attempt (ask (dir.disable_user username "") s) (λ _. error 500 "disable failed")
              (λ _ s1. (
                reply 204 tt,
                if suspend then set_world (suspend_user_agents env username s1.world) s1 else s1,
              ))
      ]

  -- `POST /v1/users/{username}/enable`
  unfoldable pub post_user_enable : String → Site D → Response {0} Unit × Site D
  unfolding valid_user_id
  post_user_enable username s =
      if not (valid_user_id username)
      then (error 400 "invalid user", s)
      else attempt (ask (dir.enable_user username "") s) (λ _. error 500 "enable failed")
          (λ _ s1. (reply 204 tt, s1))

  leave_all : String → List String → Site D → Done × Site D
  leave_all username [] s = (ok tt, s)
  leave_all username (org ∷ orgs) s =
      attempt (remove_member_from_org env dir org username s) err
        (λ _ s1. leave_all username orgs s1)

  -- `DELETE /v1/users/{username}`
  unfoldable pub remove_user : String → String → Site D → Response {0} Unit × Site D
  unfolding valid_user_id is_master_admin revoke_owned_roots purge_user_consents leave_all
      remove_member_from_org
  remove_user master_admin username s =
      if not (valid_user_id username)
      then (error 400 "invalid user", s)
      else if is_master_admin master_admin username
      then (error 403 "the master-admin account cannot be deleted", s)
      else let w1 = revoke_owned_roots env username (λ a. a.org_id == "") s.world in
        let w2 = set_store (purge_user_consents username w1.store) w1 in
        attempt (ask (dir.list_user_orgs username) (set_world w2 s))
          (λ _. error 500 "delete failed")
          (λ orgs s1.
            attempt (leave_all username orgs s1) (λ _. error 500 "delete failed")
              (λ _ s2.
                attempt (ask (dir.delete_user username) s2) (λ _. error 500 "delete failed")
                  (λ _ s3. (reply 204 tt, s3))))
