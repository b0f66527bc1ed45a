-- ===== src/Examples/Accounts.antt =====
-- The accounts of internal/orgdirectory/keycloak/keycloak.go on a concrete Keycloak.
use spawnly.Prelude.{
  String, ◌≡◌, ◌↔◌, refl, true, false, Option, none, some, List, [], ◌∷◌, ◌==◌, map, take, contains,
  if◌then◌else◌, ok, arith,
}
use spawnly.Prelude.Assoc.{lookup, insert}
use spawnly.Consent.{valid_user_id}
use spawnly.Registry.Directory.{Site}
use spawnly.Registry.Orgs.{is_master_admin}
use spawnly.Registry.Users.{post_user_disable}
use spawnly.Registry.Users.Banned.{post_user_disable_bans}
use spawnly.Keycloak.{Rep, UserRep, OrgRep, Admin, Outcome, done, failed, status, page_size}
use spawnly.Keycloak.Clients.{Cached}
use spawnly.Keycloak.Port.{directory_on}
use spawnly.Keycloak.Organizations.{as_member, list_members}
use spawnly.Keycloak.Users.{as_user, list_users, disable_user, resolve_user_id, edit_user}
use spawnly.Keycloak.Reasons.{suspending, is_banned}
use spawnly.Keycloak.Lifecycle.{
  Edit, disable, enable, apply_edits, banned_in_the_end, suspends_in_the_end,
}
use spawnly.Keycloak.Lockout.{lockout_kept}
use spawnly.Keycloak.Editing.{Answers}
use spawnly.Keycloak.Accounts.{calls, calls_exact}
use spawnly.Keycloak.Paging.{drop, listings_complete}
use spawnly.Examples.Data.{env, world}

-- A Keycloak with one user name, one organization, and any representations.
abbrev Backend : Type 0
Backend = String → Option Rep

abbrev bob : UserRep
bob = record {
  id = "u1";
  username = "bob";
  email = "";
  first_name = "";
  last_name = "";
  enabled = true;
  attrs = [];
}

abbrev carol : UserRep
carol = record bob { id = "u3"; username = "carol" }

abbrev acme : OrgRep
acme = record { id = "o1"; name = "Acme"; alias = "acme" }

abbrev read_rep : Option Rep → Outcome Rep
read_rep none = failed (status 404)
read_rep (some rep) = done rep

abbrev keycloak : Admin Backend
keycloak = record {
  get_organizations = λ alias k. (done (acme ∷ []), k);
  post_organization = λ name alias k. (done tt, k);
  delete_organization = λ id k. (done tt, k);
  get_members = λ id first k. (done (take page_size (drop first (bob ∷ []))), k);
  post_member = λ id user k. (done tt, k);
  delete_member = λ id user k. (done tt, k);
  get_member_organizations = λ user first k. (done [], k);
  get_users_named = λ name k. (done (bob ∷ []), k);
  get_users = λ first k. (done (take page_size (drop first (carol ∷ bob ∷ []))), k);
  post_user = λ user k. (done (record { code = 201; location = "/users/u2" }), k);
  get_user = λ id k. (read_rep (k id), k);
  put_user = λ id rep k. (done tt, λ j. if id == j then some rep else k j);
  delete_user = λ id k. (done tt, k);
  logout_user = λ id k. (done tt, k);
  get_clients = λ name k. (done [], k);
  get_client = λ id k. (failed (status 404), k);
  put_client = λ id client k. (done tt, k);
}

abbrev id_of : Backend → String → Option String
id_of k name = if "bob" == name then some "u1" else none

abbrev rep_of : Backend → String → Option Rep
rep_of k = k

keycloak-Answers : Answers keycloak id_of rep_of
keycloak-Answers = record {
  names = λ name k. (bob ∷ [], refl, refl, refl, refl);
  reads = λ id k rep h. (rw h refl, refl, refl);
  writes = λ id k rep. (refl, refl, λ j. refl);
  logs_out = λ id k. (refl, refl, refl);
}

abbrev free : Rep
free = record {
  enabled = some true;
  email = none;
  email_verified = none;
  first_name = none;
  last_name = none;
  attributes = [];
}

abbrev start : Backend
start id = if "u1" == id then some free else none

-- An organization suspends the user, an admin bans the user, and both take it back.
abbrev edits : List Edit
edits = disable "acme" ∷ disable "" ∷ enable "acme" ∷ enable "" ∷ []

calls_exact_example :
    (rep' : Rep) × (rep_of (calls keycloak "bob" edits start) "u1" ≡ some rep')
    × ((rep'.enabled ≡ some true) ↔ (
        (banned_in_the_end edits (is_banned free) ≡ false)
        × ((o : String) → suspends_in_the_end edits o (contains (suspending free) o) ≡ false)))
    × ((j : String)
        → ("u1" == j) ≡ false
        → rep_of (calls keycloak "bob" edits start) j ≡ rep_of start j)
unfolding lookup
calls_exact_example =
    calls_exact keycloak id_of rep_of keycloak-Answers edits "bob" "u1" start free refl refl refl

lockout_kept_example :
    (apply_edits
      (disable "acme" ∷ enable "acme" ∷ [])
      (record free { enabled = some false })).enabled
    ≡ some false
unfolding lookup
lockout_kept_example =
    lockout_kept (disable "acme" ∷ enable "acme" ∷ []) (record free { enabled = some false }) refl
      refl refl (refl, (refl, tt))

abbrev site : Site (Cached Backend)
site = record { world = world; backend = record { backend = start; dashboard_uuid = "" } }

post_user_disable_bans_example :
    let s' =
      (post_user_disable env (directory_on keycloak "dash" 3) "root" "bob" (ok false) site).1 in
    (rep' : Rep) × (rep_of
        (calls keycloak "bob" (disable "acme" ∷ enable "acme" ∷ []) s'.backend.backend)
        "u1"
      ≡ some rep')
    × (rep'.enabled ≡ some false)
unfolding post_user_disable valid_user_id is_master_admin disable_user lookup insert resolve_user_id
    edit_user
post_user_disable_bans_example =
    post_user_disable_bans env keycloak id_of rep_of keycloak-Answers "dash" 3 "root" "bob" "u1"
      false site free refl refl refl (disable "acme" ∷ enable "acme" ∷ []) (refl, (refl, tt))

listings_complete_example :
    ((list_members keycloak 2 "acme" start).0 ≡ done (map as_member (bob ∷ [])))
    × ((list_users keycloak 2 start).0 ≡ done (map as_user (carol ∷ bob ∷ [])))
listings_complete_example =
    listings_complete keycloak (bob ∷ []) (carol ∷ bob ∷ []) 2 (omega arith) (omega arith) "acme"
      (acme ∷ []) start (λ first k. refl) (λ first k. refl) refl refl
