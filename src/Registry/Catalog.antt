-- ===== src/Registry/Catalog.antt =====
-- cmd/registry/main.go: the handlers of the agent templates. A template name is global; a template
-- belongs to an organization or, with an empty one, to the global catalog. The organization of a
-- request is the one that the trusted caller forwards, empty for a realm administrator.
pub mod Scope
pub mod Listing
use spawnly.Prelude.{
  ℕ, String, Bool, true, false, not, ◌&&◌, ◌||◌, Option, none, some, List, [], ◌∷◌, map, ◌==◌, ◌-◌,
  ltb, leb, length, Result, ok, err, select, if◌then◌else◌,
}
use spawnly.Prelude.Text.{codes, every, is_lower, is_digit, one_of, has_part}
use spawnly.Registry.Types.{AgentTemplate, status_active, status_disabled}
use spawnly.Registry.Schema.{SchemaError, validate_template}
use spawnly.Registry.Store.{
  Store, get_template, put_template, update_template_status, delete_template, list_templates,
}
use spawnly.Registry.Registration.{Refusal}
use spawnly.Registry.World.{Response, reply, error, not_found, unauthorized}

-- The class of the inner characters of `validOrgID`, and that of the first and the last.
abbrev is_alnum : ℕ → Bool
is_alnum c = is_lower c || is_digit c

abbrev is_label_char : ℕ → Bool
is_label_char c = is_alnum c || one_of (b'-' ∷ []) c

abbrev last_char : ℕ → List ℕ → ℕ
last_char c [] = c
last_char c (d ∷ cs) = last_char d cs

abbrev is_label : List ℕ → Bool
is_label [] = false
is_label (c ∷ cs) =
    is_alnum c && every is_label_char cs && is_alnum (last_char c cs) && leb (length (c ∷ cs)) 63

-- cmd/registry/orgs.go: `validOrgID`
unfoldable pub valid_org_id : String → Bool
valid_org_id org = is_label (codes org)

-- `validAgentType`
unfoldable pub valid_agent_type : String → Bool
valid_agent_type agent_type = not (agent_type == "") && not (has_part agent_type "/")

abbrev pub is_template_status : String → Bool
is_template_status status =
    status == "" || status == status_active || status == status_disabled || status == "deprecated"

-- The organization under which a template is stored: that of the request, or, where the request has
-- none, that of the template which it replaces. `none` is a name that another scope holds.
abbrev pub scope_for : String → Option AgentTemplate → Option String
scope_for org none = some org
scope_for org (some existing) =
    if org == ""
    then some existing.org_id
    else if not (existing.org_id == org)
    then none
    else some org

abbrev pub is_bad_org : String → Bool
is_bad_org org = not (org == "") && not (valid_org_id org)

abbrev checked :
    AgentTemplate → Option SchemaError → (SchemaError → String) → Store → Response {0} Unit × Store
checked t none show s = (reply 201 tt, put_template t s)
checked t (some e) show s = (error 400 (show e), s)

abbrev scoped :
    AgentTemplate → Option String → (SchemaError → String) → Store → Response {0} Unit × Store
scoped t none show s = (error 409 "agent type already exists", s)
scoped t (some org) show s =
    let t' : AgentTemplate = record t { org_id = org } in
    if not (is_template_status t.status)
    then (error 400 "invalid status", s)
    else checked t' (validate_template s.schema t') show s

-- `POST /v1/templates`; `show` is the text of the error that `ValidateTemplate` returns.
unfoldable pub post_template :
    Bool
    → String
    → Result AgentTemplate
    → (SchemaError → String)
    → Store
    → Response {0} Unit × Store
unfolding valid_org_id get_template put_template validate_template
post_template authed org body show s = if not authed then (unauthorized, s) else elim body [
  | err e ↦ (error 400 e, s)
  | ok t ↦
      if is_bad_org org
      then (error 400 "invalid orgId", s)
      else scoped t (scope_for org (get_template t.agent_type s)) show s
]

-- `templateInScope`, for a request that has an organization.
abbrev pub in_scope : Option AgentTemplate → String → Bool
in_scope none scope_org = false
in_scope (some t) scope_org = t.org_id == scope_org

abbrev found_or : Option AgentTemplate × Store → Response AgentTemplate × Store
found_or (none, s) = (not_found, s)
found_or (some t, s) = (reply 200 t, s)

-- `PATCH /v1/templates/{type}`
unfoldable pub patch_template :
    Bool → String → String → Result String → Store → Response AgentTemplate × Store
unfolding valid_agent_type get_template update_template_status
patch_template authed org agent_type body s =
    if not authed
    then (unauthorized, s)
    else if not (valid_agent_type agent_type)
    then (error 400 "invalid agent type", s)
    else elim body [
      | err e ↦ (error 400 e, s)
      | ok status ↦
          if not (status == status_active) && not (status == status_disabled)
          then (error 400 "invalid status", s)
          else if not (org == "") && not (in_scope (get_template agent_type s) org)
          then (not_found, s)
          else found_or (update_template_status agent_type status s)
    ]

abbrev remove : Option AgentTemplate → String → String → Store → Response {0} Unit × Store
remove none org agent_type s = (not_found, s)
remove (some t) org agent_type s =
    if not (org == "") && not (t.org_id == org)
    then (not_found, s)
    else if not (t.status == status_disabled)
    then (error 409 "template must be disabled before deletion", s)
    else (reply 204 tt, (delete_template agent_type s).1)

-- `DELETE /v1/templates/{type}`
unfoldable pub remove_template : Bool → String → String → Store → Response {0} Unit × Store
unfolding valid_agent_type get_template delete_template
remove_template authed org agent_type s =
    if not authed
    then (unauthorized, s)
    else if not (valid_agent_type agent_type)
    then (error 400 "invalid agent type", s)
    else remove (get_template agent_type s) org agent_type s

unfoldable pub filter_templates_visible : List AgentTemplate → String → List AgentTemplate
filter_templates_visible tpls org = select (λ t. t.org_id == "" || t.org_id == org) tpls

unfoldable pub filter_templates_own_org : List AgentTemplate → String → List AgentTemplate
filter_templates_own_org tpls org = select (λ t. t.org_id == org) tpls

-- `GET /v1/templates?detail=full`
unfoldable pub get_templates_full : Bool → String → Store → Response (List AgentTemplate)
unfolding list_templates filter_templates_own_org
get_templates_full authed org s =
    let tpls = list_templates true s in
    if not authed
    then unauthorized
    else reply 200 (if not (org == "") then filter_templates_own_org tpls org else tpls)

pub record Spawnable : Type 0 where
  pub agent_type : String
  pub requires_tenant : Bool

abbrev spawnable : AgentTemplate → Spawnable
spawnable t = record { agent_type = t.agent_type; requires_tenant = t.requires_tenant }

-- `GET /v1/templates?detail=spawn`, and without a detail
unfoldable pub get_templates_spawn : String → Store → Response (List Spawnable)
unfolding list_templates filter_templates_visible
get_templates_spawn org s =
    reply 200 (map spawnable (filter_templates_visible (list_templates false s) org))

unfoldable pub get_template_types : String → Store → Response (List String)
unfolding list_templates filter_templates_visible
get_template_types org s =
    reply 200 (map (λ t. t.agent_type) (filter_templates_visible (list_templates false s) org))

abbrev shown : Option AgentTemplate → Response AgentTemplate
shown none = not_found
shown (some t) = reply 200 t

-- `GET /v1/templates/{type}`
unfoldable pub show_template : Bool → String → Store → Response AgentTemplate
unfolding get_template
show_template authed agent_type s =
    if not authed then unauthorized else shown (get_template agent_type s)
