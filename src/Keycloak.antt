-- ===== src/Keycloak.antt =====
-- internal/orgdirectory/keycloak/keycloak.go: the organization directory on Keycloak.
--
-- Keycloak's admin API is outside of the repository: it is an `Admin`, a parameter, with one field for
-- each request that the adapter makes. The token and the marshalling of a request are left out.
pub mod Reps
pub mod Requests
pub mod Users
pub mod Organizations
pub mod Clients
pub mod Paging
pub mod Port
pub mod Reasons
pub mod Lifecycle
pub mod Editing
pub mod Accounts
pub mod Lockout
use spawnly.Prelude.{
  ℕ, zero, suc, ◌+◌, String, Bool, true, false, not, Option, List, [], ◌++◌, length, ltb,
  if◌then◌else◌,
}
use spawnly.Prelude.Assoc.{Map}

-- `apiError`, `ErrConflict`, and any other error.
pub data ApiError : Type 0 where
  status : ℕ → ApiError
  conflict : ApiError
  other : String → ApiError

pub data Outcome {ℓ} (A : Type ℓ) : Type ℓ where
  done : A → Outcome A
  failed : ApiError → Outcome A

unfoldable pub is_code : ℕ → ℕ → Bool
is_code n code = if ltb n code then false else not (ltb code n)

unfoldable pub status_is : ApiError → ℕ → Bool
unfolding is_code
status_is (status n) code = is_code n code
status_is conflict code = false
status_is (other text) code = false

pub record OrgRep : Type 0 where
  pub id : String
  pub name : String
  pub alias : String

pub record UserRep : Type 0 where
  pub id : String
  pub username : String
  pub email : String
  pub first_name : String
  pub last_name : String
  pub enabled : Bool
  pub attrs : Map (List String)

-- The representation of a user as `editUser` reads and writes it, with the fields that an edit reaches;
-- the others go back as they came. An absent field is `none`.
pub record Rep : Type 0 where
  pub enabled : Option Bool
  pub email : Option String
  pub email_verified : Option Bool
  pub first_name : Option String
  pub last_name : Option String
  pub attributes : Map (List String)

pub record ClientRep : Type 0 where
  pub id : String
  pub client_id : String

-- The representation of a client as `editDashboardClient` reads and writes it; `post_logout` is the
-- attribute `post.logout.redirect.uris`, the empty text where it is absent.
pub record ClientMap : Type 0 where
  pub redirect_uris : List String
  pub post_logout : String

-- The answer to the creation of a user, whatever its status: the status and the `Location`.
pub record Created : Type 0 where
  pub code : ℕ
  pub location : String

pub record NewUser : Type 0 where
  pub username : String
  pub email : Option String

-- The requests, in the order of their paths. A page has the number of its first entry.
pub record Admin (K : Type 0) : Type 0 where
  pub get_organizations : String → K → Outcome (List OrgRep) × K
  pub post_organization : String → String → K → Outcome {0} Unit × K
  pub delete_organization : String → K → Outcome {0} Unit × K
  pub get_members : String → ℕ → K → Outcome (List UserRep) × K
  pub post_member : String → String → K → Outcome {0} Unit × K
  pub delete_member : String → String → K → Outcome {0} Unit × K
  pub get_member_organizations : String → ℕ → K → Outcome (List OrgRep) × K
  pub get_users_named : String → K → Outcome (List UserRep) × K
  pub get_users : ℕ → K → Outcome (List UserRep) × K
  pub post_user : NewUser → K → Outcome Created × K
  pub get_user : String → K → Outcome Rep × K
  pub put_user : String → Rep → K → Outcome {0} Unit × K
  pub delete_user : String → K → Outcome {0} Unit × K
  pub logout_user : String → K → Outcome {0} Unit × K
  pub get_clients : String → K → Outcome (List ClientRep) × K
  pub get_client : String → K → Outcome ClientMap × K
  pub put_client : String → ClientMap → K → Outcome {0} Unit × K

-- Goes on with the value of a request, or ends with its error.
module _ {K : Type 0} where
  abbrev pub and_or {ℓ κ} :
      {A : Type ℓ} {B : Type κ}
      → Outcome A × K
      → (ApiError → K → Outcome B × K)
      → (A → K → Outcome B × K)
      → Outcome B × K
  and_or (done a, k) failure go_on = go_on a k
  and_or (failed e, k) failure go_on = failure e k

  abbrev pub and_then {ℓ κ} :
      {A : Type ℓ} {B : Type κ} → Outcome A × K → (A → K → Outcome B × K) → Outcome B × K
  and_then m go_on = and_or m (λ e k. (failed e, k)) go_on

  -- A request for which this status is a success.
  abbrev pub or_error : ℕ → ApiError → K → Outcome {0} Unit × K
  or_error code e k = if status_is e code then (done tt, k) else (failed e, k)

  abbrev pub or_fine : ℕ → Outcome {0} Unit × K → Outcome {0} Unit × K
  or_fine code m = and_or m (or_error code) (λ _ k. (done tt, k))

-- `pageSize`
abbrev pub page_size : ℕ
page_size = 100

-- The loops over pages, for a bound on their number that the code does not have.
module _ {K A : Type 0} (page : ℕ → K → Outcome (List A) × K) where
  abbrev pub after_page : (K → Outcome (List A) × K) → List A → K → Outcome (List A) × K
  after_page rest xs k = elim (ltb (length xs) page_size) [
    | true ↦ (done xs, k)
    | false ↦ and_then (rest k) (λ ys k1. (done (xs ++ ys), k1))
  ]

  unfoldable pub pages : ℕ → ℕ → K → Outcome (List A) × K
  pages zero first k = (failed (other "too many pages"), k)
  pages (suc rounds) first k =
      and_then (page first k) (after_page (pages rounds (first + page_size)))
