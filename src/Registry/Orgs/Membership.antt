-- ===== src/Registry/Orgs/Membership.antt =====
-- cmd/registry/orgs.go: the handlers of the members of an organization.
use spawnly.Prelude.{
  String, Bool, not, Option, none, some, List, [], ◌∷◌, ◌==◌, ◌⧺◌, contains, if◌then◌else◌, Result,
  ok, err,
}
use spawnly.Consent.{valid_user_id}
use spawnly.Spicedb.Client.{write_relationship, delete_relationship}
use spawnly.Spicedb.ObjectId.{encode}
use spawnly.Registry.Store.{get_org}
use spawnly.Registry.World.{Env, Response, reply, error, not_found}
use spawnly.Registry.Directory.{
  Directory, Site, Member, ask, attempt, role_member, role_admin, valid_role,
}
use spawnly.Registry.Orgs.{org_tuple, tell, remove_member_from_org}

pub record MemberView : Type 0 where
  pub user_id : String
  pub username : String
  pub email : String
  pub role : String

pub record MemberBody : Type 0 where
  pub user : String
  pub role : String

abbrev role_or_member : String → String
role_or_member role = if role == "" then role_member else role

abbrev other_role : String → String
other_role role = if role == role_member then role_admin else role_member

-- An error of the check leaves the row at `member`.
abbrev role_by : Option Bool → String
role_by none = role_member
role_by (some is_admin) = if is_admin then role_admin else role_member

module _ {D : Type 0} (env : Env) (dir : Directory D) where
  abbrev view : String → Site D → Member → MemberView
  view id s m = record {
    user_id = m.user_id;
    username = m.username;
    email = m.email;
    role = role_by (
        env.check s.world.calls ("organization:" ⧺ encode id) "admin_agents"
          ("user:" ⧺ encode m.user_id));
  }

  views : String → Site D → List Member → List MemberView
  views id s [] = []
  views id s (m ∷ ms) = view id s m ∷ views id s ms

  -- `GET /v1/orgs/{id}/members`
  unfoldable pub get_org_members : String → Site D → Response (List MemberView) × Site D
  unfolding get_org views
  get_org_members id s = elim (get_org id s.world.store) [
    | none ↦ (not_found, s)
    | some org ↦
        attempt (ask (dir.list_members id) s) (λ _. error 500 "member list failed")
          (λ ms s1. (reply 200 (views id s1 ms), s1))
  ]

  -- `POST /v1/orgs/{id}/members`: the membership, then the tuple; if the tuple fails, the membership is
  -- taken back.
  unfoldable pub post_org_member : String → Result MemberBody → Site D → Response {0} Unit × Site D
  unfolding valid_user_id valid_role get_org encode
  post_org_member id body s = elim body [
    | err e ↦ (error 400 e, s)
    | ok b ↦
        let role = role_or_member b.role in
        if not (valid_user_id b.user)
        then (error 400 "invalid user", s)
        else if not (valid_role role)
        then (error 400 "invalid role", s)
        else elim (get_org id s.world.store) [
          | none ↦ (not_found, s)
          | some org ↦
              if org.disabled
              then (error 409 "organization is disabled", s)
              else attempt (ask (dir.add_member id b.user) s) (λ _. error 500 "add member failed")
                  (λ _ s1.
                    let (accepted, s2) =
                      tell env dir (org_tuple write_relationship id role b.user) s1 in
                    if accepted
                    then (reply 201 tt, s2)
                    else (error 500 "add member failed", (ask (dir.remove_member id b.user) s2).1))
        ]
  ]

  -- `PATCH /v1/orgs/{id}/members/{user}`; the body is the role.
  unfoldable pub patch_org_member :
      String → String → Result String → Site D → Response {0} Unit × Site D
  unfolding valid_user_id valid_role get_org encode
  patch_org_member id user body s = elim body [
    | err e ↦ (error 400 e, s)
    | ok role ↦
        if not (valid_role role)
        then (error 400 "invalid role", s)
        else if not (valid_user_id user)
        then (error 400 "invalid user", s)
        else elim (get_org id s.world.store) [
          | none ↦ (not_found, s)
          | some org ↦
              attempt (ask (dir.list_user_orgs user) s) (λ _. error 500 "set role failed")
                (λ orgs s1.
                  if not (contains orgs id)
                  then (not_found, s1)
                  else attempt (ask (dir.set_role id user role) s1)
                      (λ _. error 500 "set role failed")
                      (λ _ s2.
                        let (accepted, s3) =
                          tell env dir (org_tuple write_relationship id role user) s2 in
                        if not accepted then (error 500 "set role failed", s3) else (
                          reply 204 tt,
                          (tell env dir (org_tuple delete_relationship id (other_role role) user)
                              s3).1,
                        )))
        ]
  ]

  -- `DELETE /v1/orgs/{id}/members/{user}`
  unfoldable pub remove_org_member : String → String → Site D → Response {0} Unit × Site D
  unfolding valid_user_id get_org remove_member_from_org
  remove_org_member id user s =
      if not (valid_user_id user)
      then (error 400 "invalid user", s)
      else elim (get_org id s.world.store) [
        | none ↦ (not_found, s)
        | some org ↦
            attempt (remove_member_from_org env dir id user s)
              (λ _. error 500 "remove member failed") (λ _ s1. (reply 204 tt, s1))
      ]
