-- ===== src/Registry/Authority.antt =====
-- cmd/registry/main.go: who may see and manage an agent, and the tuples that say so.
pub mod Rules
use spawnly.Prelude.{
  String, Bool, true, false, not, ◌&&◌, Option, none, some, List, [], ◌∷◌, ◌++◌, ◌==◌, ◌⧺◌,
  if◌then◌else◌,
}
use spawnly.Spicedb.Client.{write_relationship}
use spawnly.Spicedb.ObjectId.{encode}
use spawnly.Registry.Types.{Organization, Tuple}
use spawnly.Registry.Store.{Store, get_agent, get_org}
use spawnly.Registry.World.{Env, World, call}

abbrev pub action_view : String
action_view = "view"

abbrev pub action_manage : String
action_manage = "manage"

-- An error of `CheckPermission` is a denial.
abbrev pub or_denied : Option Bool → Bool
or_denied none = false
or_denied (some answer) = answer

-- `(allowed, exists)`
unfoldable pub agent_allowed : Env → String → String → String → World → Bool × Bool
unfolding get_agent
agent_allowed env id user_id action w =
    let rec = get_agent id w.store in
    if rec.agent_id == ""
    then (false, false)
    else if user_id == ""
    then (false, true)
    else if rec.org_id == ""
    then (rec.user_id == user_id, true)
    else (or_denied (env.check w.calls ("agent:" ⧺ id) action ("user:" ⧺ encode user_id)), true)

abbrev is_disabled : Option Organization → Bool
is_disabled none = false
is_disabled (some org) = org.disabled

unfoldable pub org_is_disabled : String → Store → Bool
unfolding get_org
org_is_disabled org_id s = if org_id == "" then false else is_disabled (get_org org_id s)

abbrev pub tuple : String → String → String → Tuple
tuple resource relation subject = record {
  resource = resource;
  relation = relation;
  subject = subject;
}

-- One of the two writes of `writeAuthorityTuples`: it is skipped for an empty id, and it is not
-- reported if it fails.
abbrev pub write_authority : Env → String → String → String → String → World → List Tuple × World
write_authority env agent_id relation kind id w =
    let resource = "agent:" ⧺ agent_id in
    let subject = kind ⧺ encode id in
    let (ok, w') = call env (write_relationship resource relation subject) w in
    if id == "" then ([], w) else (if ok then tuple resource relation subject ∷ [] else [], w')

unfoldable pub write_authority_tuples : Env → String → String → String → World → List Tuple × World
write_authority_tuples env agent_id user_id org_id w =
    let (owner, w1) = write_authority env agent_id "owner" "user:" user_id w in
    let (org, w2) = write_authority env agent_id "org" "organization:" org_id w1 in
    (owner ++ org, w2)
