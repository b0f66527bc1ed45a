-- ===== src/Keycloak/Users.antt =====
-- internal/orgdirectory/keycloak/keycloak.go: the users. The lock of `editUser` makes its read and its
-- write one step among the edits of one registry, so an edit is taken to run alone.
use spawnly.Prelude.{
  ℕ, String, Bool, true, false, Option, none, some, List, [], ◌∷◌, ◌==◌, map, if◌then◌else◌,
}
use spawnly.Keycloak.{
  Rep, UserRep, Admin, Outcome, done, failed, conflict, status_is, and_or, and_then, or_fine, pages,
}
use spawnly.Keycloak.Reps.{disable_rep, enable_rep, update_rep, first_attr, disabled_by_org}
use spawnly.Registry.Directory.{User, UserUpdate}

abbrev pub user_named : String → List UserRep → Option String
user_named username [] = none
user_named username (u ∷ us) =
    let rest = user_named username us in if u.username == username then some u.id else rest

abbrev pub as_user : UserRep → User
as_user u = record {
  username = u.username;
  email = u.email;
  first_name = u.first_name;
  last_name = u.last_name;
  enabled = u.enabled;
  disabled_by_org = first_attr u.attrs disabled_by_org;
}

module _ {K : Type 0} (api : Admin K) where
  unfoldable pub resolve_user_id : String → K → Outcome (Option String) × K
  resolve_user_id username k =
      and_then (api.get_users_named username k) (λ us k1. (done (user_named username us), k1))

  -- The write of an edit that changed something.
  abbrev pub write_back : String → Bool × Rep → K → Outcome Bool × K
  write_back id (false, rep) k = (done false, k)
  write_back id (true, rep) k =
      and_or (api.put_user id rep k)
        (λ e k1. if status_is e 404 then (done true, k1) else (failed e, k1))
        (λ _ k1. (done true, k1))

  -- Whether the edit changed something is its result.
  unfoldable pub edit_user : String → (Rep → Bool × Rep) → K → Outcome Bool × K
  unfolding status_is
  edit_user id mut k =
      and_or (api.get_user id k)
        (λ e k1. if status_is e 404 then (done false, k1) else (failed e, k1))
        (λ rep k1. write_back id (mut rep) k1)

  abbrev pub disable_found : String → Option String → K → Outcome {0} Unit × K
  disable_found by_org none k = (done tt, k)
  disable_found by_org (some id) k =
      and_then (edit_user id (disable_rep by_org) k) (λ _ k1. or_fine 404 (api.logout_user id k1))

  unfoldable pub disable_user : String → String → K → Outcome {0} Unit × K
  unfolding resolve_user_id edit_user status_is
  disable_user username by_org k = and_then (resolve_user_id username k) (disable_found by_org)

  abbrev pub enable_found : String → Option String → K → Outcome Bool × K
  enable_found only_if_disabled_by_org none k = (done false, k)
  enable_found only_if_disabled_by_org (some id) k =
      edit_user id (enable_rep only_if_disabled_by_org) k

  unfoldable pub enable_user : String → String → K → Outcome Bool × K
  unfolding resolve_user_id edit_user
  enable_user username only_if_disabled_by_org k =
      and_then (resolve_user_id username k) (enable_found only_if_disabled_by_org)

  unfoldable pub delete_user : String → K → Outcome {0} Unit × K
  unfolding resolve_user_id status_is
  delete_user username k = and_then (resolve_user_id username k) (λ found k1. elim found [
    | none ↦ (done tt, k1)
    | some id ↦ or_fine 404 (api.delete_user id k1)
  ])

  unfoldable pub update_user : String → UserUpdate → K → Outcome {0} Unit × K
  unfolding resolve_user_id edit_user status_is
  update_user username attrs k = and_then (resolve_user_id username k) (λ found k1. elim found [
    | none ↦ (done tt, k1)
    | some id ↦
        and_or (edit_user id (update_rep attrs) k1)
          (λ e k2. if status_is e 409 then (failed conflict, k2) else (failed e, k2))
          (λ _ k2. (done tt, k2))
  ])

  unfoldable pub list_users : ℕ → K → Outcome (List User) × K
  unfolding pages
  list_users rounds k =
      and_then (pages api.get_users rounds 0 k) (λ us k1. (done (map as_user us), k1))
