-- ===== src/Registry/Dynamostore/Items.antt =====
-- internal/registry/dynamostore/store.go: the items of templates, agents, organizations and events, how
-- they are read, and what the updates make of them.
use spawnly.Prelude.{
  String, Bool, true, false, not, ◌&&◌, Option, none, some, List, [], ◌∷◌, ◌==◌, ◌⧺◌, if◌then◌else◌,
}
use spawnly.Registry.Types.{AgentTemplate, AgentRecord, Organization, Event, status_disabled}
use spawnly.Registry.Dynamostore.{
  Item, Answer, Body, returned, failed, other, template, agent, event, org, consent, request,
  marker,
}
use spawnly.Registry.Dynamostore.Keys.{
  sk_meta, gsi1_template, gsi1_agent, gsi1_org, tpl_pk, ag_pk, org_pk,
}

abbrev pub tpl_item : AgentTemplate → Item
tpl_item t = record {
  pk = tpl_pk t.agent_type;
  sk = sk_meta;
  gsi1pk = gsi1_template;
  gsi1sk = t.agent_type;
  gsi2pk = "";
  body = template t;
}

-- The index of children holds no roots.
abbrev parent_key : String → String
parent_key parent_id = if parent_id == "" then "" else "PARENT#" ⧺ parent_id

abbrev pub agent_item : AgentRecord → Item
agent_item r = record {
  pk = ag_pk r.agent_id;
  sk = sk_meta;
  gsi1pk = gsi1_agent;
  gsi1sk = r.agent_id;
  gsi2pk = parent_key r.parent_id;
  body = agent r;
}

abbrev pub org_item : Organization → Item
org_item o = record {
  pk = org_pk o.org_id;
  sk = sk_meta;
  gsi1pk = gsi1_org;
  gsi1sk = o.org_id;
  gsi2pk = "";
  body = org o;
}

abbrev pub event_item : String → String → Event → Item
event_item agent_id sk e = record {
  pk = ag_pk agent_id;
  sk = sk;
  gsi1pk = "";
  gsi1sk = "";
  gsi2pk = "";
  body = event e;
}

-- `unmarshal` into the struct of a kind. No key leads to an item of another kind; here that is an error.
abbrev pub misread {ℓ} : {A : Type ℓ} → Answer A
misread = failed (other "unmarshal")

abbrev pub as_template : Body → Answer AgentTemplate
as_template (template t) = returned t
as_template (agent r) = misread
as_template (event e) = misread
as_template (org o) = misread
as_template (consent c) = misread
as_template (request r) = misread
as_template (marker id) = misread

abbrev pub as_agent : Body → Answer AgentRecord
as_agent (template t) = misread
as_agent (agent r) = returned r
as_agent (event e) = misread
as_agent (org o) = misread
as_agent (consent c) = misread
as_agent (request r) = misread
as_agent (marker id) = misread

abbrev pub as_event : Body → Answer Event
as_event (template t) = misread
as_event (agent r) = misread
as_event (event e) = returned e
as_event (org o) = misread
as_event (consent c) = misread
as_event (request r) = misread
as_event (marker id) = misread

abbrev pub as_org : Body → Answer Organization
as_org (template t) = misread
as_org (agent r) = misread
as_org (event e) = misread
as_org (org o) = returned o
as_org (consent c) = misread
as_org (request r) = misread
as_org (marker id) = misread

module _ {ℓ} {A : Type ℓ} (read : Body → Answer A) where
  -- The object of an item that may be missing.
  abbrev pub read_item : Option Item → Answer (Option A)
  read_item none = returned none
  read_item (some i) = elim (read i.body) [ returned a ↦ returned (some a) | failed e ↦ failed e ]

  abbrev pub add : Answer A → Answer (List A) → Answer (List A)
  add (returned a) (returned rest) = returned (a ∷ rest)
  add (returned a) (failed e) = failed e
  add (failed e) rest = failed e

  -- The loop over the items of a query: the first that cannot be read ends it.
  abbrev pub read_items : List Item → Answer (List A)
  read_items [] = returned []
  read_items (i ∷ is) = add (read i.body) (read_items is)

abbrev pub spawnable_types : List AgentTemplate → List String
spawnable_types [] = []
spawnable_types (t ∷ ts) =
    let rest = spawnable_types ts in
    if t.status == status_disabled then rest else t.agent_type ∷ rest

abbrev pub shown : Bool → List AgentTemplate → List AgentTemplate
shown include_disabled [] = []
shown include_disabled (t ∷ ts) =
    let rest = shown include_disabled ts in
    if not include_disabled && t.status == status_disabled then rest else t ∷ rest

abbrev pub undismissed : List AgentRecord → List AgentRecord
undismissed [] = []
undismissed (r ∷ rs) = let rest = undismissed rs in if r.dismissed then rest else r ∷ rest

-- What an update expression makes of an item that is not there; its condition rules that out.
abbrev no_item : Item
no_item = record { pk = ""; sk = ""; gsi1pk = ""; gsi1sk = ""; gsi2pk = ""; body = marker "" }

-- `attribute_exists(pk)`
abbrev pub exists : Option Item → Bool
exists none = false
exists (some i) = true

abbrev pub always : Option Item → Bool
always i = true

abbrev pub set_status : String → Body → Body
set_status status (template t) = template (record t { status = status })
set_status status (agent r) = agent (record r { status = status })
set_status status other_body = other_body

abbrev pub set_dismissed : Body → Body
set_dismissed (agent r) = agent (record r { dismissed = true })
set_dismissed other_body = other_body

abbrev pub on_body : (Body → Body) → Option Item → Item
on_body f none = no_item
on_body f (some i) = record i { body = f i.body }
