-- ===== src/Registry/Directory.antt =====
-- internal/orgdirectory/directory.go: the port through which the registry reaches the identity backend,
-- as a record of its operations over a state of the backend. The adapter behind it is outside of the
-- model.
use spawnly.Prelude.{String, Bool, ◌||◌, Option, List, ◌==◌, Result, ok, err}
use spawnly.Registry.World.{World}

abbrev pub role_member : String
role_member = "member"

abbrev pub role_admin : String
role_admin = "admin"

unfoldable pub valid_role : String → Bool
valid_role r = r == role_member || r == role_admin

pub record Member : Type 0 where
  pub user_id : String
  pub username : String
  pub email : String
  pub role : String
  pub enabled : Bool

pub record User : Type 0 where
  pub username : String
  pub email : String
  pub first_name : String
  pub last_name : String
  pub enabled : Bool
  pub disabled_by_org : String

-- A field that is `none` is left as it is.
pub record UserUpdate : Type 0 where
  pub email : Option String
  pub first_name : Option String
  pub last_name : Option String

-- An `error` that may be nil.
abbrev pub Done : Type 0
Done = Result {0} Unit

-- `is_conflict` is `errors.Is(err, ErrConflict)`.
pub record Directory (D : Type 0) : Type 0 where
  pub create_org : String → String → D → Done × D
  pub delete_org : String → D → Done × D
  pub add_member : String → String → D → Done × D
  pub remove_member : String → String → D → Done × D
  pub set_role : String → String → String → D → Done × D
  pub list_members : String → D → Result (List Member) × D
  pub list_user_orgs : String → D → Result (List String) × D
  pub register_org_redirect_uris : String → String → D → Done × D
  pub remove_org_redirect_uris : String → String → D → Done × D
  pub list_users : D → Result (List User) × D
  pub disable_user : String → String → D → Done × D
  pub enable_user : String → String → D → Result Bool × D
  pub update_user : String → UserUpdate → D → Done × D
  pub delete_user : String → D → Done × D
  pub is_conflict : String → Bool

-- What the handlers of organizations and users work on.
pub record Site (D : Type 0) : Type 0 where
  pub world : World
  pub backend : D

module _ {D : Type 0} where
  abbrev pub set_world : World → Site D → Site D
  set_world w s = record s { world = w }

  -- A call of the directory.
  abbrev pub ask {ℓ} : {A : Type ℓ} → (D → Result A × D) → Site D → Result A × Site D
  ask f s = let (r, d) = f s.backend in (r, record s { backend = d })

  -- Goes on with the value of a call, or ends with its error.
  abbrev pub attempt {ℓ κ} :
      {A : Type ℓ} {C : Type κ}
      → Result A × Site D
      → (String → C)
      → (A → Site D → C × Site D)
      → C × Site D
  attempt (ok a, s) failure go_on = go_on a s
  attempt (err e, s) failure go_on = (failure e, s)
