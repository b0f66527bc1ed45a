-- ===== src/Registry/Dynamostore/Catalog.antt =====
-- internal/registry/dynamostore/store.go: templates, agents, organizations and events.
use spawnly.Prelude.{ℕ, String, Bool, true, false, Option, none, some, List, ◌⧺◌, if◌then◌else◌}
use spawnly.Registry.Types.{AgentTemplate, AgentRecord, Organization, Event, no_agent}
use spawnly.Registry.Store.{event_id, padded}
use spawnly.Registry.Dynamostore.{
  DbError, Answer, Service, Body, returned, failed, table, gsi1, gsi2, then_, then_or,
  is_cond_failed,
}
use spawnly.Registry.Dynamostore.Items.{
  tpl_item, agent_item, org_item, event_item, as_template, as_agent, as_event, as_org, read_item,
  read_items, spawnable_types, shown, undismissed, exists, always, set_status, set_dismissed,
  on_body,
}
use spawnly.Registry.Dynamostore.Keys.{
  sk_meta, gsi1_template, gsi1_agent, gsi1_org, tpl_pk, ag_pk, org_pk,
}

module _ {T : Type 0} (db : Service T) where
  unfoldable pub put_template : AgentTemplate → T → Answer {0} Unit × T
  put_template t = db.put_item (tpl_item t)

  unfoldable pub get_template : String → T → Answer (Option AgentTemplate) × T
  get_template agent_type s =
      then_ (db.get_item false (tpl_pk agent_type, sk_meta) s)
        (λ i s1. (read_item as_template i, s1))

  unfoldable pub list_template_items : T → Answer (List AgentTemplate) × T
  list_template_items s =
      then_ (db.query (record { index = gsi1; hash = gsi1_template; begins = "" }) s)
        (λ is s1. (read_items as_template is, s1))

  unfoldable pub list_template_types : T → Answer (List String) × T
  unfolding list_template_items
  list_template_types s =
      then_ (list_template_items s) (λ ts s1. (returned (spawnable_types ts), s1))

  unfoldable pub list_templates : Bool → T → Answer (List AgentTemplate) × T
  unfolding list_template_items
  list_templates include_disabled s =
      then_ (list_template_items s) (λ ts s1. (returned (shown include_disabled ts), s1))

  abbrev absent {ℓ} : {A : Type ℓ} → A → DbError → T → Answer A × T
  absent nothing e s = if is_cond_failed e then (returned nothing, s) else (failed e, s)

  unfoldable pub update_template_status : String → String → T → Answer (Option AgentTemplate) × T
  unfolding is_cond_failed
  update_template_status agent_type status s =
      then_or
        (db.update_item
          (record {
            key = (tpl_pk agent_type, sk_meta);
            test = exists;
            change = on_body (set_status status);
          })
          s)
        (absent none) (λ i s1. (read_item as_template (some i), s1))

  unfoldable pub delete_template : String → T → Answer Bool × T
  delete_template agent_type s =
      then_ (db.delete_item (tpl_pk agent_type, sk_meta) always s)
        (λ i s1. (returned (exists i), s1))

  unfoldable pub register_agent : AgentRecord → T → Answer {0} Unit × T
  register_agent r = db.put_item (agent_item r)

  abbrev pub or_no_agent : Answer (Option AgentRecord) → Answer AgentRecord
  or_no_agent (returned none) = returned no_agent
  or_no_agent (returned (some r)) = returned r
  or_no_agent (failed e) = failed e

  unfoldable pub get_agent : String → T → Answer AgentRecord × T
  get_agent id s =
      then_ (db.get_item false (ag_pk id, sk_meta) s)
        (λ i s1. (or_no_agent (read_item as_agent i), s1))

  unfoldable pub list_agents : T → Answer (List AgentRecord) × T
  list_agents s =
      then_ (db.query (record { index = gsi1; hash = gsi1_agent; begins = "" }) s)
        (λ is s1. then_ (read_items as_agent is, s1) (λ rs s2. (returned (undismissed rs), s2)))

  unfoldable pub cond_set : String → (Body → Body) → T → Answer Bool × T
  unfolding is_cond_failed
  cond_set id f s =
      then_or
        (db.update_item (record { key = (ag_pk id, sk_meta); test = exists; change = on_body f }) s)
        (absent false) (λ i s1. (returned true, s1))

  unfoldable pub dismiss_agent : String → T → Answer Bool × T
  unfolding cond_set
  dismiss_agent id = cond_set id set_dismissed

  unfoldable pub update_agent_status : String → String → T → Answer Bool × T
  unfolding cond_set
  update_agent_status id status = cond_set id (set_status status)

  unfoldable pub list_children : String → T → Answer (List AgentRecord) × T
  list_children parent_id s =
      then_ (db.query (record { index = gsi2; hash = "PARENT#" ⧺ parent_id; begins = "" }) s)
        (λ is s1. (read_items as_agent is, s1))

  unfoldable pub put_org : Organization → T → Answer {0} Unit × T
  put_org o = db.put_item (org_item o)

  -- The only of these reads that is consistent.
  unfoldable pub get_org : String → T → Answer (Option Organization) × T
  get_org id s = then_ (db.get_item true (org_pk id, sk_meta) s) (λ i s1. (read_item as_org i, s1))

  unfoldable pub list_orgs : T → Answer (List Organization) × T
  list_orgs s =
      then_ (db.query (record { index = gsi1; hash = gsi1_org; begins = "" }) s)
        (λ is s1. (read_items as_org is, s1))

  unfoldable pub delete_org : String → T → Answer Bool × T
  delete_org id s =
      then_ (db.delete_item (org_pk id, sk_meta) always s) (λ i s1. (returned (exists i), s1))

  -- The id and the sort key are made of the same time and random bytes, which are arguments.
  unfoldable pub append_event : String → Event → ℕ → String → T → Answer Event × T
  unfolding event_id padded
  append_event agent_id e nano suffix s =
      let id = event_id nano suffix in
      let stored : Event = record e { id = id; timestamp = nano } in
      then_ (db.put_item (event_item agent_id ("EV#" ⧺ padded nano ⧺ "#" ⧺ suffix) stored) s)
        (λ _ s1. (returned stored, s1))

  unfoldable pub get_events : String → T → Answer (List Event) × T
  get_events agent_id s =
      then_ (db.query (record { index = table; hash = ag_pk agent_id; begins = "EV#" }) s)
        (λ is s1. (read_items as_event is, s1))
