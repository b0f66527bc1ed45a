-- ===== src/Registry/Dynamostore/Refinement/Served.antt =====
-- The calls of internal/registry/dynamostore/store.go that reach one item, the same calls of the in-memory
-- store of cmd/registry/main.go, and what they are to the replicas of the table.
use spawnly.Prelude.{String, Bool, true, false, ◌&&◌, Option, List, [], ◌∷◌}
use spawnly.Consent.{ConsentRecord, ConsentRequest}
use spawnly.Registry.Types.{AgentTemplate, AgentRecord, Organization}
use spawnly.Registry.Store
use spawnly.Registry.Store.{Store}
use spawnly.Registry.Requests
use spawnly.Registry.Dynamostore.{Service, Answer, returned, failed}
use spawnly.Registry.Dynamostore.Consents.{as_consent}
use spawnly.Registry.Dynamostore.Requests.{as_request, read_request}
use spawnly.Registry.Dynamostore.Catalog as Items
use spawnly.Registry.Dynamostore.Consents
use spawnly.Registry.Dynamostore.Requests as Table

-- The calls of the store's interface that reach one item by its key, and the time between two calls in
-- which the replicas of the table catch up.
pub data Call : Type 0 where
  put_template : AgentTemplate → Call
  get_template delete_template : String → Call
  update_template_status : String → String → Call
  register_agent : AgentRecord → Call
  get_agent dismiss_agent : String → Call
  update_agent_status : String → String → Call
  put_org : Organization → Call
  get_org delete_org : String → Call
  find_consent : String → String → String → Call
  get_consent_request : String → Call
  wait : Call

-- What a call is to the replicas: a read that is not consistent, a consistent read, a write, or the time
-- in which they catch up.
pub data Kind : Type 0 where
  late_read consistent_read write catch_up : Kind

abbrev pub kind : Call → Kind
kind (get_template x) = late_read
kind (get_agent x) = late_read
kind (get_consent_request x) = late_read
kind (get_org x) = consistent_read
kind (find_consent u p c) = consistent_read
kind wait = catch_up
kind _ = write

-- Whether the replicas have caught up after a call of this kind, if it is known before it.
abbrev pub caught_up : Bool → Kind → Bool
caught_up b late_read = b
caught_up b consistent_read = b
caught_up b write = false
caught_up b catch_up = true

abbrev pub may_follow : Bool → Kind → Bool
may_follow b late_read = b
may_follow b _ = true

-- Whether no write comes between a read that is not consistent and the last time in which the replicas
-- caught up; the first argument tells whether they have at the beginning.
abbrev pub in_time : Bool → List Call → Bool
in_time b [] = true
in_time b (c ∷ cs) = may_follow b (kind c) && in_time (caught_up b (kind c)) cs

pub data Reply : Type 0 where
  done : Reply
  found : Bool → Reply
  a_template : Option AgentTemplate → Reply
  an_agent : AgentRecord → Reply
  an_org : Option Organization → Reply
  a_consent : Option ConsentRecord → Reply
  a_request : Option ConsentRequest → Reply

abbrev pub reply : {A : Type 0} → (A → Reply) → A × Store → Reply × Store
reply f (a, s) = (f a, s)

abbrev pub answer : {A T : Type 0} → (A → Reply) → Answer A × T → Answer Reply × T
answer f (returned a, t) = (returned (f a), t)
answer f (failed e, t) = (failed e, t)

abbrev pub in_memory : Call → Store → Reply × Store
in_memory (put_template v) s = (done, Store.put_template v s)
in_memory (get_template x) s = (a_template (Store.get_template x s), s)
in_memory (delete_template x) s = reply found (Store.delete_template x s)
in_memory (update_template_status x v) s = reply a_template (Store.update_template_status x v s)
in_memory (register_agent v) s = (done, Store.register_agent v s)
in_memory (get_agent x) s = (an_agent (Store.get_agent x s), s)
in_memory (dismiss_agent x) s = reply found (Store.dismiss_agent x s)
in_memory (update_agent_status x v) s = reply found (Store.update_agent x v s)
in_memory (put_org v) s = (done, Store.put_org v s)
in_memory (get_org x) s = (an_org (Store.get_org x s), s)
in_memory (delete_org x) s = reply found (Store.delete_org x s)
in_memory (find_consent u p c) s = (a_consent (Requests.find_consent u p c s), s)
in_memory (get_consent_request x) s = (a_request (Requests.get_consent_request x s), s)
in_memory wait s = (done, s)

abbrev pub in_memory_all : List Call → Store → List Reply × Store
in_memory_all [] s = ([], s)
in_memory_all (c ∷ cs) s =
    let (a, s1) = in_memory c s in let (rest, s2) = in_memory_all cs s1 in (a ∷ rest, s2)

module _ {T : Type 0} (db : Service T) (pass : T → T) where
  abbrev pub on_table : Call → T → Answer Reply × T
  on_table (put_template v) t = answer (λ _. done) (Items.put_template db v t)
  on_table (get_template x) t = answer a_template (Items.get_template db x t)
  on_table (delete_template x) t = answer found (Items.delete_template db x t)
  on_table (update_template_status x v) t =
      answer a_template (Items.update_template_status db x v t)
  on_table (register_agent v) t = answer (λ _. done) (Items.register_agent db v t)
  on_table (get_agent x) t = answer an_agent (Items.get_agent db x t)
  on_table (dismiss_agent x) t = answer found (Items.dismiss_agent db x t)
  on_table (update_agent_status x v) t = answer found (Items.update_agent_status db x v t)
  on_table (put_org v) t = answer (λ _. done) (Items.put_org db v t)
  on_table (get_org x) t = answer an_org (Items.get_org db x t)
  on_table (delete_org x) t = answer found (Items.delete_org db x t)
  on_table (find_consent u p c) t = answer a_consent (Consents.find_consent db u p c t)
  on_table (get_consent_request x) t = answer a_request (Table.get_consent_request db x t)
  on_table wait t = (returned done, pass t)

  abbrev pub on_table_all : List Call → T → List (Answer Reply) × T
  on_table_all [] t = ([], t)
  on_table_all (c ∷ cs) t =
      let (a, t1) = on_table c t in let (rest, t2) = on_table_all cs t1 in (a ∷ rest, t2)
