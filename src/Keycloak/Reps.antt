-- ===== src/Keycloak/Reps.antt =====
-- internal/orgdirectory/keycloak/keycloak.go: the edits of a user's representation. An edit returns
-- whether anything changed, and the representation after it.
use spawnly.Prelude.{
  String, Bool, true, false, not, ◌&&◌, ◌||◌, Option, none, some, List, [], ◌∷◌, ◌++◌, ◌==◌,
  contains, if◌then◌else◌,
}
use spawnly.Prelude.Assoc.{Map, lookup, insert, erase}
use spawnly.Keycloak.{Rep}
use spawnly.Registry.Directory.{UserUpdate}

-- `disabledByOrgAttr` and `disabledByAdminAttr`
abbrev pub disabled_by_org : String
disabled_by_org = "disabledByOrg"

abbrev pub disabled_by_admin : String
disabled_by_admin = "disabledByAdmin"

abbrev pub first_of : List String → String
first_of [] = ""
first_of (v ∷ vs) = v

abbrev pub or_no_values : Option (List String) → List String
or_no_values none = []
or_no_values (some vs) = vs

-- `firstAttr`
abbrev pub first_attr : Map (List String) → String → String
first_attr attrs key = first_of (or_no_values (lookup key attrs))

-- `userAttrSet`
abbrev pub user_attr_set : Rep → String → List String
user_attr_set rep key = or_no_values (lookup key rep.attributes)

-- `firstUserAttr`
abbrev pub first_user_attr : Rep → String → String
first_user_attr rep key = first_of (user_attr_set rep key)

-- `userAttrs(rep)[key] = vals`
abbrev pub write_attr : String → List String → Rep → Rep
write_attr key vals rep = record rep { attributes = insert key vals rep.attributes }

-- `delete(userAttrs(rep), key)`
abbrev pub drop_attr : String → Rep → Rep
drop_attr key rep = record rep { attributes = erase key rep.attributes }

abbrev pub set_user_attr : String → String → Rep → Bool × Rep
set_user_attr key val rep =
    if first_user_attr rep key == val then (false, rep) else (true, write_attr key (val ∷ []) rep)

abbrev pub add_to_user_attr_set : String → String → Rep → Bool × Rep
add_to_user_attr_set key val rep =
    let cur = user_attr_set rep key in
    if contains cur val then (false, rep) else (true, write_attr key (cur ++ (val ∷ [])) rep)

abbrev pub without : String → List String → List String
without val [] = []
without val (v ∷ vs) = let rest = without val vs in if v == val then rest else v ∷ rest

abbrev pub is_none_left : List String → Bool
is_none_left [] = true
is_none_left (v ∷ vs) = false

abbrev pub remove_from_user_attr_set : String → String → Rep → Bool × Rep
remove_from_user_attr_set key val rep =
    let cur = user_attr_set rep key in
    let out = without val cur in
    if not (contains cur val)
    then (false, rep)
    else (true, if is_none_left out then drop_attr key rep else write_attr key out rep)

abbrev is_there : Option (List String) → Bool
is_there none = false
is_there (some vs) = true

abbrev pub clear_user_attr : String → Rep → Bool × Rep
clear_user_attr key rep =
    if is_there (lookup key rep.attributes) then (true, drop_attr key rep) else (false, rep)

abbrev pub is_off : Option Bool → Bool
is_off none = false
is_off (some b) = not b

abbrev pub is_on : Option Bool → Bool
is_on none = false
is_on (some b) = b

-- A lockout that has no reason is kept as an admin ban.
abbrev pub heal : Rep → Bool × Rep
heal rep =
    if is_off rep.enabled
      && is_none_left (user_attr_set rep disabled_by_org)
      && first_user_attr rep disabled_by_admin == ""
    then set_user_attr disabled_by_admin "true" rep
    else (false, rep)

abbrev pub add_org : String → Bool × Rep → Bool × Rep
add_org by_org (healed, rep) =
    let (added, rep') = add_to_user_attr_set disabled_by_org by_org rep in (healed || added, rep')

abbrev pub note_reason : String → Rep → Bool × Rep
note_reason by_org rep =
    if not (by_org == "")
    then add_org by_org (heal rep)
    else set_user_attr disabled_by_admin "true" rep

abbrev pub turn_off : Bool × Rep → Bool × Rep
turn_off (changed, rep) =
    if is_off rep.enabled then (changed, rep) else (true, record rep { enabled = some false })

-- The edit of `DisableUser`.
abbrev pub disable_rep : String → Rep → Bool × Rep
disable_rep by_org rep = turn_off (note_reason by_org rep)

-- `rep["enabled"] != wantEnabled`
abbrev pub is_same : Option Bool → Bool → Bool
is_same none b = false
is_same (some a) b = if a then b else not b

abbrev pub may_log_in : Rep → Bool
may_log_in rep =
    first_user_attr rep disabled_by_admin == "" && is_none_left (user_attr_set rep disabled_by_org)

abbrev pub turn_on : Bool × Rep → Bool × Rep
turn_on (changed, rep) =
    if is_same rep.enabled (may_log_in rep)
    then (changed, rep)
    else (true, record rep { enabled = some (may_log_in rep) })

abbrev pub turn_on_if : Bool × Rep → Bool × Rep
turn_on_if (removed, rep) = if not removed then (false, rep) else turn_on (true, rep)

-- The edit of `EnableUser`.
abbrev pub enable_rep : String → Rep → Bool × Rep
enable_rep only_if_disabled_by_org rep =
    if not (only_if_disabled_by_org == "")
    then turn_on_if (remove_from_user_attr_set disabled_by_org only_if_disabled_by_org rep)
    else turn_on (clear_user_attr disabled_by_admin rep)

abbrev pub or_blank : Option String → String
or_blank none = ""
or_blank (some s) = s

abbrev pub or_false : Option Bool → Bool
or_false none = false
or_false (some b) = b

-- `setStringField` and `setBoolField`: whether the field is to be written.
abbrev pub string_differs : Option String → String → Bool
string_differs cur val = not (or_blank cur == val)

abbrev pub bool_differs : Option Bool → Bool → Bool
bool_differs cur val = not (is_same (some (or_false cur)) val)

abbrev set_email : Option String → Rep → Bool × Rep
set_email none rep = (false, rep)
set_email (some email) rep =
    let wants = string_differs rep.email email in
    let verified = not (email == "") in
    let turns = bool_differs rep.email_verified verified in
    (
      wants || turns,
      record rep {
        email = if wants then some email else rep.email;
        email_verified = if turns then some verified else rep.email_verified;
      },
    )

abbrev set_first_name : Option String → Bool × Rep → Bool × Rep
set_first_name none r = r
set_first_name (some name) (changed, rep) =
    if string_differs rep.first_name name
    then (true, record rep { first_name = some name })
    else (changed, rep)

abbrev set_last_name : Option String → Bool × Rep → Bool × Rep
set_last_name none r = r
set_last_name (some name) (changed, rep) =
    if string_differs rep.last_name name
    then (true, record rep { last_name = some name })
    else (changed, rep)

-- The edit of `UpdateUser`.
abbrev pub update_rep : UserUpdate → Rep → Bool × Rep
update_rep attrs rep =
    set_last_name attrs.last_name (set_first_name attrs.first_name (set_email attrs.email rep))
