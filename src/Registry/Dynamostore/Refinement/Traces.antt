-- ===== src/Registry/Dynamostore/Refinement/Traces.antt =====
-- Sequences of calls of internal/registry/dynamostore/store.go beside the same calls of the in-memory
-- store of cmd/registry/main.go.
use spawnly.Prelude.{
  ℕ, String, ◌≡◌, refl, sym, subst, Bool, true, false, Option, List, [], ◌∷◌, map, arith,
}
use spawnly.Registry.Store
use spawnly.Registry.Store.{Store}
use spawnly.Registry.Requests
use spawnly.Registry.Dynamostore.{
  Contents, Key, Item, Service, Works, Answer, returned, failed, then_,
}
use spawnly.Registry.Dynamostore.Items.{as_template, as_agent, as_org, read_item}
use spawnly.Registry.Dynamostore.Consents.{as_consent}
use spawnly.Registry.Dynamostore.Requests.{as_request, read_request}
use spawnly.Registry.Dynamostore.Catalog as Items
use spawnly.Registry.Dynamostore.Consents
use spawnly.Registry.Dynamostore.Requests as Table
use spawnly.Registry.Dynamostore.Refinement.{Represents, Simulates}
use spawnly.Registry.Dynamostore.Refinement.Catalog.{
  put_template_lem, get_template_lem, update_template_status_lem, delete_template_lem,
  register_agent_lem, dismiss_agent_lem, update_agent_status_lem, put_org_lem, get_org_lem,
  delete_org_lem,
}
use spawnly.Registry.Dynamostore.Refinement.Reads.{
  get_agent_lem, find_consent_lem, get_consent_request_lem,
}
use spawnly.Registry.Dynamostore.Refinement.Served.{
  Call, Reply, put_template, get_template, delete_template, update_template_status, register_agent,
  get_agent, dismiss_agent, update_agent_status, put_org, get_org, delete_org, find_consent,
  get_consent_request, wait, done, found, a_template, an_agent, an_org, a_consent, a_request, reply,
  in_memory, answer, kind, caught_up, may_follow, in_time, in_memory_all, on_table, on_table_all,
}

module _ (stamp : ℕ → String) {T : Type 0} (db : Service T) (contents : T → Contents)
    (works : Works db contents) (pass : T → T) (passes : (t : T) → contents (pass t) ≡ contents t)
    (settles : (t : T) → works.Settled (pass t)) where
  same :
      {A : Type 0} (f : A → Reply) (r : Answer A × T) (p : A × Store)
      → Simulates stamp contents r p
      → Simulates stamp contents (answer f r) (reply f p)
  same f (returned b, t) (a, s) (e, r) = (cc e, r)
  same f (failed x, t) (a, s) (e, r) = cc e

  -- A read leaves replicas that have caught up as they are.
  read-Settled :
      {A : Type 0} (f : A → Reply) (b : Bool) (key : Key) (g : Option Item → Answer A) (t : T)
      → works.Settled t
      → works.Settled (answer f (then_ (db.get_item b key t) (λ i t'. (g i, t')))).1
  read-Settled {A = A} f b key g t now =
      through (db.get_item b key t) (works.keeps_settled b key t now)
    where
      ends : (r : Answer A × T) → (answer f r).1 ≡ r.1
      ends (returned a, t') = refl
      ends (failed e, t') = refl

      through :
          (m : Answer (Option Item) × T)
          → works.Settled m.1
          → works.Settled (answer f (then_ m (λ i t'. (g i, t')))).1
      through (returned i, t') h = subst works.Settled (sym (ends (g i, t'))) h
      through (failed e, t') h = h

  module _ (t : T) (s : Store) (r : Represents stamp (contents t) s) where
    on_table-Settled :
        (c : Call) (b : Bool)
        → (b ≡ true → works.Settled t)
        → caught_up b (kind c) ≡ true
        → works.Settled (on_table db pass c t).1
    unfolding Items.get_template Items.get_agent Items.get_org Consents.find_consent
        Table.get_consent_request read_request
    on_table-Settled (get_template x) b now h =
        read-Settled a_template false _ (read_item as_template) t (now h)
    on_table-Settled (get_agent x) b now h =
        read-Settled an_agent false _ (λ i. Items.or_no_agent db (read_item as_agent i)) t (now h)
    on_table-Settled (get_consent_request x) b now h =
        read-Settled a_request false _ (read_item as_request) t (now h)
    on_table-Settled (get_org x) b now h = read-Settled an_org true _ (read_item as_org) t (now h)
    on_table-Settled (find_consent u p c) b now h =
        read-Settled a_consent true _ (read_item as_consent) t (now h)
    on_table-Settled wait b now h = settles t
    on_table-Settled (put_template v) b now h = absurd (cc h)
    on_table-Settled (delete_template x) b now h = absurd (cc h)
    on_table-Settled (update_template_status x v) b now h = absurd (cc h)
    on_table-Settled (register_agent v) b now h = absurd (cc h)
    on_table-Settled (dismiss_agent x) b now h = absurd (cc h)
    on_table-Settled (update_agent_status x v) b now h = absurd (cc h)
    on_table-Settled (put_org v) b now h = absurd (cc h)
    on_table-Settled (delete_org x) b now h = absurd (cc h)

    on_table_lem :
        (c : Call) (b : Bool)
        → (b ≡ true → works.Settled t)
        → may_follow b (kind c) ≡ true
        → Simulates stamp contents (on_table db pass c t) (in_memory c s)
    on_table_lem (put_template v) b now h =
        same {A = Unit {0}} (λ _. done) _ (tt, Store.put_template v s)
          (put_template_lem stamp db contents works t s r v)
    on_table_lem (get_template x) b now h =
        same (a_template) _ (Store.get_template x s, s)
          (get_template_lem stamp db contents works t s r x (now h))
    on_table_lem (delete_template x) b now h =
        same (found) _ (Store.delete_template x s)
          (delete_template_lem stamp db contents works t s r x)
    on_table_lem (update_template_status x v) b now h =
        same (a_template) _ (Store.update_template_status x v s)
          (update_template_status_lem stamp db contents works t s r x v)
    on_table_lem (register_agent v) b now h =
        same {A = Unit {0}} (λ _. done) _ (tt, Store.register_agent v s)
          (register_agent_lem stamp db contents works t s r v)
    on_table_lem (get_agent x) b now h =
        same (an_agent) _ (Store.get_agent x s, s)
          (get_agent_lem stamp db contents works t s r x (now h))
    on_table_lem (dismiss_agent x) b now h =
        same (found) _ (Store.dismiss_agent x s) (dismiss_agent_lem stamp db contents works t s r x)
    on_table_lem (update_agent_status x v) b now h =
        same (found) _ (Store.update_agent x v s)
          (update_agent_status_lem stamp db contents works t s r x v)
    on_table_lem (put_org v) b now h =
        same {A = Unit {0}} (λ _. done) _ (tt, Store.put_org v s)
          (put_org_lem stamp db contents works t s r v)
    on_table_lem (get_org x) b now h =
        same (an_org) _ (Store.get_org x s, s) (get_org_lem stamp db contents works t s r x)
    on_table_lem (delete_org x) b now h =
        same (found) _ (Store.delete_org x s) (delete_org_lem stamp db contents works t s r x)
    on_table_lem (find_consent u p c) b now h =
        same (a_consent) _ (Requests.find_consent u p c s, s)
          (find_consent_lem stamp db contents works t s r u p c)
    on_table_lem (get_consent_request x) b now h =
        same (a_request) _ (Requests.get_consent_request x s, s)
          (get_consent_request_lem stamp db contents works t s r x (now h))
    on_table_lem wait b now h = (refl, subst (λ c. Represents stamp c s) (sym (passes t)) r)

  -- Any list of these calls gives, on a table that stands for a state of the in-memory store, the
  -- answers of the in-memory store in their order, none of them an error, and leaves a table that
  -- stands for its last state. The reads of templates, agents and requests are not consistent: the list
  -- has no write between one of them and the last time in which the replicas caught up, or between it
  -- and a beginning at which they had. A consistent read may come directly after any call.
  pub calls_agree :
      (cs : List Call) (b : Bool) (t : T) (s : Store)
      → (b ≡ true → works.Settled t)
      → in_time b cs ≡ true
      → Represents stamp (contents t) s
      → ((on_table_all db pass cs t).0 ≡ map returned (in_memory_all cs s).0)
        × Represents stamp (contents (on_table_all db pass cs t).1) (in_memory_all cs s).1
  calls_agree [] b t s now h r = (refl, r)
  calls_agree (c ∷ cs) b t s now h r =
      let may : may_follow b (kind c) ≡ true = ground arith in
      let later : in_time (caught_up b (kind c)) cs ≡ true = ground arith in
      let (e, r1) = on_table_lem t s r c b now may in
      let (es, r2) =
        calls_agree cs (caught_up b (kind c)) (on_table db pass c t).1 (in_memory c s).1
          (on_table-Settled t s r c b now) later r1 in
      (cc (e, es), r2)
