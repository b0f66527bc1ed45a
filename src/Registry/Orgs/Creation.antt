-- ===== src/Registry/Orgs/Creation.antt =====
-- cmd/registry/orgs.go: the handler of `POST /v1/orgs`, which writes to the directory, the store and
-- SpiceDB in turn and takes its writes back where a later one fails.
pub mod Converging
use spawnly.Prelude.{
  ℕ, suc, String, Bool, true, false, not, ◌&&◌, ◌||◌, Option, none, some, List, [], ◌∷◌, ◌==◌, ◌⧺◌,
  contains, length, if◌then◌else◌, Result, ok, err, ltb, leb,
}
use spawnly.Consent.{valid_user_id}
use spawnly.Spicedb.Client.{write_relationship, delete_relationship}
use spawnly.Spicedb.ObjectId.{encode}
use spawnly.Prelude.Text.{trim_space}
use spawnly.Registry.Types.{Organization, ℤ, pos, negsuc}
use spawnly.Registry.Store.{get_org, list_orgs, delete_org}
use spawnly.Registry.World.{Env, World, Response, reply, error, set_store}
use spawnly.Registry.Catalog.{valid_org_id}
use spawnly.Registry.Directory.{Directory, Site, set_world, ask, attempt, role_admin}
use spawnly.Registry.Orgs.{reserved_org_ids, org_tuple, tell, write_store}
use spawnly.Registry.Orgs.Settings.{redirect_uri, post_logout_uri}

pub record OrgBody : Type 0 where
  pub org_id : String
  pub name : String
  pub admin_user : String

-- The id of the new organization, or the refusal; `uuid` is the text of `uuid.NewString()`.
unfoldable pub new_org_id : String → OrgBody → Result String
unfolding trim_space valid_org_id
new_org_id uuid body =
    if body.org_id == ""
    then if trim_space body.name == "" then err "organization name is required" else ok uuid
    else if not (valid_org_id body.org_id)
    then err "invalid orgId"
    else if contains reserved_org_ids body.org_id
    then err "orgId is reserved"
    else ok body.org_id

-- No more organizations may sign up; a ceiling that is not positive is none.
abbrev pub at_capacity : ℤ → ℕ → Bool
at_capacity (pos m) n = ltb 0 m && leb m n
at_capacity (negsuc m) n = false

-- The record that is stored: a new one, or one that keeps parts of the one before.
unfoldable pub org_record : Option Organization → String → String → ℕ → Organization
org_record none id name now = record {
  org_id = id;
  name = name;
  removal_disposition = "";
  disabled = false;
  anchor = none;
  substrate = none;
  created_at = now;
}
org_record (some prev) id name now = record {
  org_id = id;
  name = name;
  removal_disposition = prev.removal_disposition;
  disabled = prev.disabled;
  anchor = prev.anchor;
  substrate = none;
  created_at = prev.created_at;
}

abbrev created_status : Option Organization → ℕ
created_status none = 201
created_status (some prev) = 200

module _ {D : Type 0} (env : Env) (dir : Directory D) where
  -- What a self-service signup is refused for.
  abbrev pub signup_refusal :
      ℤ → String → Option Organization → Site D → Option (Response Organization) × Site D
  signup_refusal max_orgs admin_user prev s =
      if at_capacity max_orgs (length (list_orgs s.world.store))
      then (some (error 403 "organization creation is currently at capacity"), s)
      else elim prev [
        | some org ↦ (some (error 409 "that organization ID is already taken"), s)
        | none ↦
            attempt (ask (dir.list_user_orgs admin_user) s)
              (λ _. some (error 500 "org create failed"))
              (λ orgs s1. elim orgs [
                | [] ↦ (none, s1)
                | org ∷ others ↦ (some (error 409 "you already belong to an organization"), s1)
              ])
      ]

  abbrev forget_org : String → Site D → Site D
  forget_org id s =
      let s1 = set_world (set_store (delete_org id s.world.store).1 s.world) s in
      (ask (dir.delete_org id) s1).1

  -- `unwindCreate`
  unfoldable pub unwind_create : String → String → Option Organization → Site D → Site D
  unfolding delete_org encode
  unwind_create id admin_user prev s =
      let (_, s1) = tell env dir (org_tuple delete_relationship id role_admin admin_user) s in
      let (_, s2) = ask (dir.remove_member id admin_user) s1 in
      elim prev [ some org ↦ s2 | none ↦ forget_org id s2 ]

  -- The redirect URIs of the satellite, if there is a domain for satellites.
  abbrev pub register_satellite :
      String
      → String
      → String
      → Option Organization
      → Organization
      → Site D
      → Response Organization × Site D
  register_satellite apex_domain id admin_user prev org s =
      if apex_domain == ""
      then (reply (created_status prev) org, s)
      else let uri = redirect_uri id apex_domain in
        let out = post_logout_uri id apex_domain in
        let (r, s1) = ask (dir.register_org_redirect_uris uri out) s in
        elim r [
          | ok _ ↦ (reply (created_status prev) org, s1)
          | err e ↦ (
            error 500 "org create failed",
            unwind_create id admin_user prev (ask (dir.remove_org_redirect_uris uri out) s1).1,
          )
        ]

  -- The admin tuple and, if it is written, the membership.
  abbrev pub wire_admin : String → String → Site D → Bool × Site D
  wire_admin id admin_user s =
      let (accepted, s1) = tell env dir (org_tuple write_relationship id role_admin admin_user) s in
      if accepted
      then attempt (ask (dir.add_member id admin_user) s1) (λ _. false) (λ _ s2. (true, s2))
      else (false, s1)

  -- Steps 1 to 4. `quote` is `%q`. The store does not fail.
  unfoldable pub create_org :
      String
      → (String → String)
      → String
      → String
      → String
      → Option Organization
      → Site D
      → Response Organization × Site D
  unfolding org_record unwind_create encode
  create_org apex_domain quote id name admin_user prev s =
      attempt (ask (dir.create_org id name) s)
        (λ e.
          if dir.is_conflict e
          then error 409 ("An organization named " ⧺ quote name ⧺ " already exists.")
          else error 500 "org create failed")
        (λ _ s1.
          let w = s1.world in
          let org = org_record prev id name (env.time w.ticks) in
          let s2 = write_store env dir org (set_world (record w { ticks = suc w.ticks }) s1) in
          let (wired, s3) = wire_admin id admin_user s2 in
          if wired
          then register_satellite apex_domain id admin_user prev org s3
          else (error 500 "org create failed", unwind_create id admin_user prev s3))

  -- `POST /v1/orgs`
  unfoldable pub post_orgs :
      String
      → ℤ
      → (String → String)
      → String
      → Bool
      → Result OrgBody
      → Site D
      → Response Organization × Site D
  unfolding new_org_id trim_space valid_user_id get_org list_orgs create_org
  post_orgs apex_domain max_orgs quote uuid self_serve body s = elim body [
    | err e ↦ (error 400 e, s)
    | ok b ↦ elim (new_org_id uuid b) [
      | err e ↦ (error 400 e, s)
      | ok id ↦
          if not (valid_user_id b.admin_user)
          then (error 400 "invalid adminUser", s)
          else let prev = get_org id s.world.store in
            let (refused, s1) =
              if self_serve then signup_refusal max_orgs b.admin_user prev s else (none, s) in
            elim refused [
              | some response ↦ (response, s1)
              | none ↦ create_org apex_domain quote id (trim_space b.name) b.admin_user prev s1
            ]
    ]
  ]
