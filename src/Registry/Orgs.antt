-- ===== src/Registry/Orgs.antt =====
-- cmd/registry/orgs.go: the organizations and their members. A handler writes to the store, to SpiceDB
-- and to the organization directory, and takes back what it can where a later write fails. Every handler
-- is behind the control-plane gate.
pub mod Creation
pub mod Settings
pub mod Membership
use spawnly.Prelude.{
  ℕ, suc, ◌+◌, String, Bool, true, false, not, ◌&&◌, Option, none, some, List, [], ◌∷◌, ◌==◌, ◌⧺◌,
  contains, length, if◌then◌else◌, Result, ok, err, ltb, leb,
}
use spawnly.Prelude.Text.{codes, is_upper, one_of}
use spawnly.Consent.{valid_user_id}
use spawnly.Spicedb.Client.{Call, write_relationship, delete_relationship}
use spawnly.Spicedb.ObjectId.{encode}
use spawnly.Registry.Types.{
  Organization, ℤ, pos, negsuc, removal_auto_revoke, removal_orphan_to_admin,
}
use spawnly.Registry.Store.{put_org, get_org, list_orgs, delete_org}
use spawnly.Registry.World.{Env, World, Response, reply, error, not_found, call, set_store}
use spawnly.Registry.Cascade.{suspend_org_agents, apply_removal_disposition}
use spawnly.Registry.Catalog.{valid_org_id}
use spawnly.Registry.Directory.{
  Done, Directory, Site, Member, set_world, ask, attempt, role_member, role_admin, valid_role,
}

-- `reservedOrgIDs`
abbrev pub reserved_org_ids : List String
reserved_org_ids = "www" ∷ "api" ∷ "auth" ∷ "admin" ∷ "mobile" ∷ "docs" ∷ []

-- `orgTuple`, as the call that takes it.
abbrev pub org_tuple : (String → String → String → Call) → String → String → String → Call
org_tuple f id role user = f ("organization:" ⧺ encode id) role ("user:" ⧺ encode user)

-- Simple case folding, on the letters that fold to an ASCII letter: the capitals, the Kelvin sign and
-- the long s. Other letters fold to themselves, as the user ids that the registry accepts are ASCII.
abbrev fold_case : ℕ → ℕ
fold_case c =
    if is_upper c
    then c + 32
    else if one_of (8490 ∷ []) c
    then b'k'
    else if one_of (383 ∷ []) c
    then b's'
    else c

abbrev fold_equal : List ℕ → List ℕ → Bool
fold_equal [] [] = true
fold_equal [] (d ∷ ds) = false
fold_equal (c ∷ cs) [] = false
fold_equal (c ∷ cs) (d ∷ ds) = one_of (fold_case c ∷ []) (fold_case d) && fold_equal cs ds

-- cmd/registry/users.go: `isMasterAdmin`
unfoldable pub is_master_admin : String → String → Bool
is_master_admin master_admin username =
    not (master_admin == "") && fold_equal (codes master_admin) (codes username)

module _ {D : Type 0} (env : Env) (dir : Directory D) where
  -- A call of SpiceDB.
  abbrev pub tell : Call → Site D → Bool × Site D
  tell c s = let (accepted, w) = call env c s.world in (accepted, set_world w s)

  abbrev pub write_store : Organization → Site D → Site D
  write_store org s = set_world (set_store (put_org org s.world.store) s.world) s

  -- The tuples of both roles are dropped; an error is only logged.
  abbrev pub drop_roles : String → String → Site D → Site D
  drop_roles id user s =
      let (_, s1) = tell (org_tuple delete_relationship id role_member user) s in
      (tell (org_tuple delete_relationship id role_admin user) s1).1

  abbrev disposition_of : Option Organization → String
  disposition_of none = removal_orphan_to_admin
  disposition_of (some org) =
      if org.removal_disposition == "" then removal_orphan_to_admin else org.removal_disposition

  abbrev is_suspended : Option Organization → Bool
  is_suspended none = false
  is_suspended (some org) = org.disabled

  unfoldable pub remove_member_from_org : String → String → Site D → Done × Site D
  unfolding get_org apply_removal_disposition encode
  remove_member_from_org id user s =
      attempt (ask (dir.remove_member id user) (drop_roles id user s)) err (λ _ s1.
        let org = get_org id s1.world.store in
        let s2 =
          set_world (apply_removal_disposition env id user (disposition_of org) s1.world) s1 in
        if is_suspended org
        then attempt (ask (dir.enable_user user id) s2) err (λ _ s3. (ok tt, s3))
        else (ok tt, s2))

  -- The loops of `disableOrgMembers` and `enableOrgMembers`.
  disable_each : String → String → List Member → Site D → Done × Site D
  disable_each id master_admin [] s = (ok tt, s)
  disable_each id master_admin (m ∷ ms) s = elim (is_master_admin master_admin m.user_id) [
    | true ↦ disable_each id master_admin ms s
    | false ↦
        attempt (ask (dir.disable_user m.user_id id) s) err
          (λ _ s1. disable_each id master_admin ms s1)
  ]

  unfoldable pub disable_org_members : String → String → Site D → Done × Site D
  unfolding disable_each
  disable_org_members id master_admin s =
      attempt (ask (dir.list_members id) s) err (λ ms s1. disable_each id master_admin ms s1)

  enable_each : String → List Member → Site D → Done × Site D
  enable_each id [] s = (ok tt, s)
  enable_each id (m ∷ ms) s =
      attempt (ask (dir.enable_user m.user_id id) s) err (λ _ s1. enable_each id ms s1)

  unfoldable pub enable_org_members : String → Site D → Done × Site D
  unfolding enable_each
  enable_org_members id s =
      attempt (ask (dir.list_members id) s) err (λ ms s1. enable_each id ms s1)
