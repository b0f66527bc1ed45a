-- ===== src/Registry/Dynamostore/Refinement/Catalog.antt =====
-- Templates, agents and organizations of internal/registry/dynamostore/store.go beside those of the
-- in-memory store of cmd/registry/main.go.
use mathlib.Core.Option
use spawnly.Prelude.{ℕ, String, ◌≡◌, refl, ap, true, false, Option, none, some}
use spawnly.Prelude.Assoc.{lookup, insert, erase}
use spawnly.Registry.Types.{AgentTemplate, AgentRecord, Organization}
use spawnly.Registry.Store
use spawnly.Registry.Store.{Store}
use spawnly.Registry.Dynamostore.{Contents, Service, Works, returned}
use spawnly.Registry.Dynamostore.Items.{
  tpl_item, agent_item, org_item, as_template, as_org, read_item,
}
use spawnly.Registry.Dynamostore.Catalog.{
  put_template, get_template, update_template_status, delete_template, register_agent,
  dismiss_agent, update_agent_status, put_org, get_org, delete_org,
}
use spawnly.Registry.Dynamostore.Refinement.{
  templates, agents, orgs, Represents, Simulates, Represents-set, Others-templates, Others-agents,
  Others-orgs,
}
use spawnly.Registry.Dynamostore.Refinement.Calls.{
  lands, reads, changes, removes, stored-insert, stored-erase, gone-absent,
}

module _ (stamp : ℕ → String) {T : Type 0} (db : Service T) (contents : T → Contents)
    (works : Works db contents) (t : T) (s : Store) (r : Represents stamp (contents t) s) where
  pub put_template_lem :
      (v : AgentTemplate)
      → Simulates stamp contents (put_template db v t) (tt, Store.put_template v s)
  unfolding put_template Store.put_template
  put_template_lem v =
      lands stamp contents (db.put_item (tpl_item v) t) tt _ (Store.put_template v s)
        (works.puts (tpl_item v) t)
        (Represents-set stamp (contents t) s (Store.put_template v s) templates v.agent_type
          (some (tpl_item v)) r (stored-insert (λ _. tpl_item) v.agent_type v s.templates)
          (Others-templates stamp s _))

  pub get_template_lem :
      (x : String)
      → works.Settled t
      → Simulates stamp contents (get_template db x t) (Store.get_template x s, s)
  unfolding get_template Store.get_template
  get_template_lem x now =
      reads stamp db contents works t s r false templates x (λ i s1. (read_item as_template i, s1))
        (lookup x s.templates) now (λ t'. ap (λ a. (a, t')) (back (lookup x s.templates)))
    where
      back : (o : Option AgentTemplate) → read_item as_template (Option.map tpl_item o) ≡ returned o
      back none = refl
      back (some v) = refl

  pub update_template_status_lem :
      (x status : String)
      → Simulates stamp contents
          (update_template_status db x status t)
          (Store.update_template_status x status s)
  unfolding update_template_status Store.update_template_status
  update_template_status_lem x status =
      let new =
        λ (v : AgentTemplate). let v' : AgentTemplate = record v { status = status } in v' in
      let next = λ (v : AgentTemplate).
        let s' : Store = record s { templates = insert x (new v) s.templates } in s' in
      changes stamp db contents works t s r templates x tpl_item (lookup x s.templates) _ _ _ none
        (λ v. some (new v)) next refl refl (λ i. refl) (λ t'. refl) (λ v t'. refl)
        (λ v e.
          Represents-set stamp (contents t) s (next v) templates x (some (tpl_item (new v))) r
            (stored-insert (λ _. tpl_item) x (new v) s.templates) (Others-templates stamp s _))

  pub delete_template_lem :
      (x : String) → Simulates stamp contents (delete_template db x t) (Store.delete_template x s)
  unfolding delete_template Store.delete_template
  delete_template_lem x =
      let next = λ (v : AgentTemplate).
        let s' : Store = record s { templates = erase x s.templates } in s' in
      removes stamp db contents works t s r templates x tpl_item (lookup x s.templates) next refl
        (λ v e.
          Represents-set stamp (contents t) s (next v) templates x none r
            (stored-erase (λ _. tpl_item) x s.templates) (Others-templates stamp s _))
        (λ e.
          Represents-set stamp (contents t) s s templates x none r
            (gone-absent (λ _. tpl_item) x s.templates e) (λ g y h. refl))

  pub register_agent_lem :
      (v : AgentRecord)
      → Simulates stamp contents (register_agent db v t) (tt, Store.register_agent v s)
  unfolding register_agent Store.register_agent
  register_agent_lem v =
      lands stamp contents (db.put_item (agent_item v) t) tt _ (Store.register_agent v s)
        (works.puts (agent_item v) t)
        (Represents-set stamp (contents t) s (Store.register_agent v s) agents v.agent_id
          (some (agent_item v)) r (stored-insert (λ _. agent_item) v.agent_id v s.agents)
          (Others-agents stamp s _))

  pub dismiss_agent_lem :
      (x : String) → Simulates stamp contents (dismiss_agent db x t) (Store.dismiss_agent x s)
  unfolding dismiss_agent Store.dismiss_agent
  dismiss_agent_lem x =
      let new = λ (v : AgentRecord). let v' : AgentRecord = record v { dismissed = true } in v' in
      let next = λ (v : AgentRecord).
        let s' : Store = record s { agents = insert x (new v) s.agents } in s' in
      changes stamp db contents works t s r agents x agent_item (lookup x s.agents) _ _ _ false
        (λ v. true) next refl refl (λ i. refl) (λ t'. refl) (λ v t'. refl)
        (λ v e.
          Represents-set stamp (contents t) s (next v) agents x (some (agent_item (new v))) r
            (stored-insert (λ _. agent_item) x (new v) s.agents) (Others-agents stamp s _))

  pub update_agent_status_lem :
      (x status : String)
      → Simulates stamp contents (update_agent_status db x status t) (Store.update_agent x status s)
  unfolding update_agent_status Store.update_agent
  update_agent_status_lem x status =
      let new = λ (v : AgentRecord). let v' : AgentRecord = record v { status = status } in v' in
      let next = λ (v : AgentRecord).
        let s' : Store = record s { agents = insert x (new v) s.agents } in s' in
      changes stamp db contents works t s r agents x agent_item (lookup x s.agents) _ _ _ false
        (λ v. true) next refl refl (λ i. refl) (λ t'. refl) (λ v t'. refl)
        (λ v e.
          Represents-set stamp (contents t) s (next v) agents x (some (agent_item (new v))) r
            (stored-insert (λ _. agent_item) x (new v) s.agents) (Others-agents stamp s _))

  pub put_org_lem :
      (v : Organization) → Simulates stamp contents (put_org db v t) (tt, Store.put_org v s)
  unfolding put_org Store.put_org
  put_org_lem v =
      lands stamp contents (db.put_item (org_item v) t) tt _ (Store.put_org v s)
        (works.puts (org_item v) t)
        (Represents-set stamp (contents t) s (Store.put_org v s) orgs v.org_id (some (org_item v)) r
          (stored-insert (λ _. org_item) v.org_id v s.orgs) (Others-orgs stamp s _))

  pub get_org_lem : (x : String) → Simulates stamp contents (get_org db x t) (Store.get_org x s, s)
  unfolding get_org Store.get_org
  get_org_lem x =
      reads stamp db contents works t s r true orgs x (λ i s1. (read_item as_org i, s1))
        (lookup x s.orgs) tt (λ t'. ap (λ a. (a, t')) (back (lookup x s.orgs)))
    where
      back : (o : Option Organization) → read_item as_org (Option.map org_item o) ≡ returned o
      back none = refl
      back (some v) = refl

  pub delete_org_lem :
      (x : String) → Simulates stamp contents (delete_org db x t) (Store.delete_org x s)
  unfolding delete_org Store.delete_org
  delete_org_lem x =
      let next = λ (v : Organization). let s' : Store = record s { orgs = erase x s.orgs } in s' in
      removes stamp db contents works t s r orgs x org_item (lookup x s.orgs) next refl
        (λ v e.
          Represents-set stamp (contents t) s (next v) orgs x none r
            (stored-erase (λ _. org_item) x s.orgs) (Others-orgs stamp s _))
        (λ e.
          Represents-set stamp (contents t) s s orgs x none r
            (gone-absent (λ _. org_item) x s.orgs e) (λ g y h. refl))
