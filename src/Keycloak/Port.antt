-- ===== src/Keycloak/Port.antt =====
-- internal/orgdirectory/keycloak/keycloak.go as the directory that the registry's handlers take.
use spawnly.Prelude.{ℕ, String, ◌==◌, ◌⧺◌, Result, ok, err}
use spawnly.Prelude.Text.{decimal}
use spawnly.Keycloak.{Admin, ApiError, Outcome, done, failed, status, conflict, other}
use spawnly.Keycloak.Users.{disable_user, enable_user, delete_user, update_user, list_users}
use spawnly.Keycloak.Organizations.{
  create_org, delete_org, add_member, remove_member, set_role, list_members, list_user_orgs,
}
use spawnly.Keycloak.Clients.{Cached, register_org_redirect_uris, remove_org_redirect_uris}
use spawnly.Registry.Directory.{Directory}

abbrev conflict_text : String
conflict_text = "orgdirectory: conflict"

-- The text of an error; that of `apiError` also names the method.
abbrev error_text : ApiError → String
error_text (status n) = "keycloak admin: status " ⧺ decimal n
error_text conflict = conflict_text
error_text (other text) = text

abbrev pub result_of {ℓ} : {A : Type ℓ} → Outcome A → Result A
result_of (done a) = ok a
result_of (failed e) = err (error_text e)

module _ {K : Type 0} where
  abbrev pub on_backend {ℓ} : {A : Type ℓ} → (K → Outcome A × K) → Cached K → Result A × Cached K
  on_backend f s = let (a, k) = f s.backend in (result_of a, record s { backend = k })

  abbrev on_cached {ℓ} :
      {A : Type ℓ} → (Cached K → Outcome A × Cached K) → Cached K → Result A × Cached K
  on_cached f s = let (a, s1) = f s in (result_of a, s1)

  -- `rounds` bounds the number of pages of a listing.
  abbrev pub directory_on : Admin K → String → ℕ → Directory (Cached K)
  directory_on api dashboard_client_id rounds = record {
    create_org = λ id name. on_backend (create_org api id name);
    delete_org = λ id. on_backend (delete_org api id);
    add_member = λ id user. on_backend (add_member api id user);
    remove_member = λ id user. on_backend (remove_member api id user);
    set_role = λ id user role. on_backend (set_role api id user role);
    list_members = λ id. on_backend (list_members api rounds id);
    list_user_orgs = λ user. on_backend (list_user_orgs api rounds user);
    register_org_redirect_uris =
        λ uri out. on_cached (register_org_redirect_uris api dashboard_client_id uri out);
    remove_org_redirect_uris =
        λ uri out. on_cached (remove_org_redirect_uris api dashboard_client_id uri out);
    list_users = on_backend (list_users api rounds);
    disable_user = λ user org. on_backend (disable_user api user org);
    enable_user = λ user org. on_backend (enable_user api user org);
    update_user = λ user update. on_backend (update_user api user update);
    delete_user = λ user. on_backend (delete_user api user);
    is_conflict = λ e. e == conflict_text;
  }
