-- ===== src/Keycloak/Organizations.antt =====
-- internal/orgdirectory/keycloak/keycloak.go: organizations and their members.
use Prim.Native.Char.{code}
use spawnly.Prelude.{
  ℕ, String, not, Option, none, some, List, [], ◌∷◌, ◌==◌, ◌⧺◌, map, if◌then◌else◌,
}
use spawnly.Prelude.Text.{one_of, has_part}
use spawnly.Keycloak.{
  OrgRep, UserRep, NewUser, Admin, Outcome, done, failed, status, conflict, other, status_is,
  is_code, and_or, and_then, or_fine, pages,
}
use spawnly.Keycloak.Users.{resolve_user_id}
use spawnly.Registry.Directory.{Member, valid_role}

abbrev pub org_of : String → List OrgRep → String
org_of alias [] = ""
org_of alias (o ∷ os) = let rest = org_of alias os in if o.alias == alias then o.id else rest

-- The rest of `idFromLocation`, which keeps what follows the last slash so far.
abbrev last_part : String → String → String
last_part kept String.[] = kept
last_part kept (String.◌∷◌ c s) = last_part (if one_of (b'/' ∷ []) (code c) then s else kept) s

abbrev pub id_from_location : String → String
id_from_location loc = last_part loc loc

-- The email of a user who is made for a name.
abbrev new_user : String → NewUser
new_user username = record {
  username = username;
  email = if has_part username "@" then some username else none;
}

abbrev pub as_member : UserRep → Member
as_member u = record {
  user_id = u.username;
  username = u.username;
  email = u.email;
  role = "";
  enabled = u.enabled;
}

abbrev alias_of : OrgRep → String
alias_of o = o.alias

module _ {K : Type 0} (api : Admin K) where
  -- No organization is the empty text.
  unfoldable pub resolve_org_id : String → K → Outcome String × K
  resolve_org_id alias k =
      and_then (api.get_organizations alias k) (λ os k1. (done (org_of alias os), k1))

  -- After the status 409: the alias exists by now, or another organization has the name.
  abbrev settle_conflict : String → K → Outcome {0} Unit × K
  settle_conflict org_id k =
      and_then (resolve_org_id org_id k)
        (λ id k1. if not (id == "") then (done tt, k1) else (failed conflict, k1))

  unfoldable pub create_org : String → String → K → Outcome {0} Unit × K
  unfolding resolve_org_id status_is
  create_org org_id name k = and_then (resolve_org_id org_id k) (λ existing k1.
      if not (existing == "")
      then (done tt, k1)
      else and_or (api.post_organization (if name == "" then org_id else name) org_id k1)
          (λ e k2. if status_is e 409 then settle_conflict org_id k2 else (failed e, k2))
          (λ _ k2. (done tt, k2)))

  unfoldable pub delete_org : String → K → Outcome {0} Unit × K
  unfolding resolve_org_id status_is
  delete_org org_id k =
      and_then (resolve_org_id org_id k)
        (λ id k1. if id == "" then (done tt, k1) else or_fine 404 (api.delete_organization id k1))

  abbrev read_back : String → K → Outcome String × K
  read_back username k = and_then (resolve_user_id api username k) (λ found k1. elim found [
    | none ↦ (failed (other ("created user " ⧺ username ⧺ " not found on readback")), k1)
    | some id ↦ (done id, k1)
  ])

  -- The status 201 with a `Location` is enough; without one, or after a 409, the user is read back.
  unfoldable pub create_user : String → K → Outcome String × K
  unfolding resolve_user_id is_code
  create_user username k = and_then (api.post_user (new_user username) k) (λ answer k1.
      let id = id_from_location answer.location in
      if is_code answer.code 201
      then (if not (id == "") then (done id, k1) else read_back username k1)
      else if not (is_code answer.code 409)
      then (failed (status answer.code), k1)
      else read_back username k1)

  abbrev user_or_new : String → Option String → K → Outcome String × K
  user_or_new username none k = create_user username k
  user_or_new username (some id) k = (done id, k)

  unfoldable pub add_member : String → String → K → Outcome {0} Unit × K
  unfolding resolve_org_id resolve_user_id create_user status_is
  add_member org_id user k = and_then (resolve_org_id org_id k) (λ org k1.
      if org == ""
      then (failed (other ("org " ⧺ org_id ⧺ " not found")), k1)
      else and_then (resolve_user_id api user k1) (λ found k2.
        and_then (user_or_new user found k2) (λ id k3. or_fine 409 (api.post_member org id k3))))

  unfoldable pub remove_member : String → String → K → Outcome {0} Unit × K
  unfolding resolve_org_id resolve_user_id status_is
  remove_member org_id user k = and_then (resolve_org_id org_id k) (λ org k1.
      if org == ""
      then (done tt, k1)
      else and_then (resolve_user_id api user k1) (λ found k2. elim found [
        | none ↦ (done tt, k2)
        | some id ↦ or_fine 404 (api.delete_member org id k2)
      ]))

  unfoldable pub set_role : String → String → String → K → Outcome {0} Unit × K
  unfolding valid_role resolve_user_id
  set_role org_id user role k =
      if not (valid_role role)
      then (failed (other ("invalid role " ⧺ role)), k)
      else and_then (resolve_user_id api user k) (λ found k1. elim found [
        | none ↦ (failed (other ("user " ⧺ user ⧺ " not found")), k1)
        | some id ↦ (done tt, k1)
      ])

  unfoldable pub list_members : ℕ → String → K → Outcome (List Member) × K
  unfolding resolve_org_id pages
  list_members rounds org_id k = and_then (resolve_org_id org_id k) (λ org k1.
      if org == ""
      then (failed (other ("org " ⧺ org_id ⧺ " not found")), k1)
      else and_then (pages (api.get_members org) rounds 0 k1)
          (λ us k2. (done (map as_member us), k2)))

  unfoldable pub list_user_orgs : ℕ → String → K → Outcome (List String) × K
  unfolding resolve_user_id pages
  list_user_orgs rounds user k = and_then (resolve_user_id api user k) (λ found k1. elim found [
    | none ↦ (done [], k1)
    | some id ↦
        and_then (pages (api.get_member_organizations id) rounds 0 k1)
          (λ os k2. (done (map alias_of os), k2))
  ])
