-- ===== src/Registry/Dynamostore/Refinement/Reads.antt =====
-- Reads of agents, consents and requests of internal/registry/dynamostore/store.go beside those of the
-- in-memory store of cmd/registry/main.go.
use mathlib.Core.Option
use spawnly.Prelude.{ℕ, String, ◌≡◌, refl, ap, ◌∙◌, ◌⧺◌, Bool, true, false, Option, none, some}
use spawnly.Prelude.Assoc.{lookup}
use spawnly.Consent.{ConsentRecord, ConsentRequest, consent_edge_key}
use spawnly.Registry.Types.{AgentRecord}
use spawnly.Registry.Store
use spawnly.Registry.Store.{Store, or_no_agent}
use spawnly.Registry.Requests
use spawnly.Registry.Dynamostore.{Contents, Service, Works, Current, returned}
use spawnly.Registry.Dynamostore.Keys.{sk_meta}
use spawnly.Registry.Dynamostore.Items.{agent_item, as_agent, read_item}
use spawnly.Registry.Dynamostore.Catalog
use spawnly.Registry.Dynamostore.Consents.{con_item, as_consent, find_consent}
use spawnly.Registry.Dynamostore.Requests.{creq_item, as_request, read_request, get_consent_request}
use spawnly.Registry.Dynamostore.Refinement.{agents, consents, requests, tag, Represents, Simulates}
use spawnly.Registry.Dynamostore.Refinement.Calls.{
  reads, answers, get_item-then_, get_item-Represents,
}

module _ (stamp : ℕ → String) {T : Type 0} (db : Service T) (contents : T → Contents)
    (works : Works db contents) (t : T) (s : Store) (r : Represents stamp (contents t) s) where
  pub get_agent_lem :
      (x : String)
      → works.Settled t
      → Simulates stamp contents (Catalog.get_agent db x t) (Store.get_agent x s, s)
  unfolding Catalog.get_agent Store.get_agent
  get_agent_lem x now =
      reads stamp db contents works t s r false agents x
        (λ i s1. (Catalog.or_no_agent db (read_item as_agent i), s1))
        (or_no_agent (lookup x s.agents)) now (λ t'. ap (λ a. (a, t')) (back (lookup x s.agents)))
    where
      back :
          (o : Option AgentRecord)
          → Catalog.or_no_agent db (read_item as_agent (Option.map agent_item o))
            ≡ returned (or_no_agent o)
      back none = refl
      back (some v) = refl

  pub find_consent_lem :
      (user_id parent_type child_type : String)
      → Simulates stamp contents
          (find_consent db user_id parent_type child_type t)
          (Requests.find_consent user_id parent_type child_type s, s)
  unfolding find_consent Requests.find_consent
  find_consent_lem user_id parent_type child_type =
      let x = consent_edge_key user_id parent_type child_type in
      reads stamp db contents works t s r true consents x (λ i s1. (read_item as_consent i, s1))
        (lookup x s.consents) tt (λ t'. ap (λ a. (a, t')) (back x (lookup x s.consents)))
    where
      back :
          (x : String) (o : Option ConsentRecord)
          → read_item as_consent (Option.map (con_item x) o) ≡ returned o
      back x none = refl
      back x (some v) = refl

  pub read_request_lem :
      (b : Bool) (id : String)
      → Current works b t
      → read_request db b id t ≡ (
        returned (lookup id s.consent_requests),
        (db.get_item b (tag requests ⧺ id, sk_meta) t).1,
      )
  unfolding read_request
  read_request_lem b id now =
      get_item-then_ stamp db contents works t s r b requests id
        (λ i s1. (read_item as_request i, s1)) now
      ∙ ap (λ a. (a, (db.get_item b (tag requests ⧺ id, sk_meta) t).1))
          (back (lookup id s.consent_requests))
    where
      back :
          (o : Option ConsentRequest)
          → read_item as_request (Option.map (creq_item stamp) o) ≡ returned o
      back none = refl
      back (some cr) = refl

  pub get_consent_request_lem :
      (x : String)
      → works.Settled t
      → Simulates stamp contents (get_consent_request db x t) (Requests.get_consent_request x s, s)
  unfolding get_consent_request Requests.get_consent_request
  get_consent_request_lem x now =
      answers stamp contents (get_consent_request db x t) _ (lookup x s.consent_requests) _ s
        (read_request_lem false x now) refl
        (get_item-Represents stamp db contents works t s r false requests x)
