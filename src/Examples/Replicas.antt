-- ===== src/Examples/Replicas.antt =====
-- The store of internal/registry/dynamostore/store.go on a concrete table with a replica that lags.
use spawnly.Prelude.{◌≡◌, refl, ap, false, none, List, [], ◌∷◌, map, if◌then◌else◌}
use spawnly.Prelude.Text.{decimal}
use spawnly.Registry.Types.{Organization}
use spawnly.Registry.Dynamostore.{Contents, Service, Works, Answer, returned}
use spawnly.Registry.Dynamostore.Refinement.{Represents}
use spawnly.Registry.Dynamostore.Refinement.Served.{
  Call, put_template, update_template_status, get_template, register_agent, dismiss_agent,
  delete_template, put_org, get_org, wait, on_table_all, in_memory_all,
}
use spawnly.Examples.Data.{planner, root_agent}
use spawnly.Registry.Dynamostore.Refinement.Traces.{calls_agree}
use spawnly.Examples.Tables.{plain, plain-Works, bare, empty, empty-Represents}

abbrev acme : Organization
acme = record {
  org_id = "acme";
  name = "Acme";
  removal_disposition = "";
  disabled = false;
  anchor = none;
  substrate = none;
  created_at = 1;
}

abbrev calls : List Call
calls =
    put_template planner
    ∷ update_template_status "planner" "disabled"
    ∷ wait
    ∷ get_template "planner"
    ∷ put_org acme
    ∷ get_org "acme"
    ∷ register_agent root_agent
    ∷ dismiss_agent "a"
    ∷ dismiss_agent "nobody"
    ∷ delete_template "planner"
    ∷ []

-- A table with one replica, which answers the reads that are not consistent and takes over the contents
-- when time passes.
abbrev Replicated : Type 0
Replicated = Contents × Contents

abbrev on_first :
    {A : Type 0} → Replicated → (Contents → Answer A × Contents) → Answer A × Replicated
on_first (c, replica) f = let (a, c') = f c in (a, (c', replica))

abbrev replicated : Service Replicated
replicated = record {
  get_item = λ b k t. (returned (if b then t.0 k else t.1 k), t);
  put_item = λ i t. on_first t (plain.put_item i);
  update_item = λ u t. on_first t (plain.update_item u);
  delete_item = λ k test t. on_first t (plain.delete_item k test);
  query = λ q t. on_first t (plain.query q);
  transact_write_items = λ ws t. on_first t (plain.transact_write_items ws);
}

abbrev first_of : Replicated → Contents
first_of t = t.0

abbrev catch_up : Replicated → Replicated
catch_up t = (t.0, t.0)

abbrev replicated-Works : Works replicated first_of
replicated-Works = record {
  Settled = λ t. t.1 ≡ t.0;
  gets = λ k t. (refl, refl);
  late_gets = λ k t h. ap (λ c. returned (c k)) h;
  late_keeps = λ k t. refl;
  keeps_settled = λ b k t h. h;
  puts = λ i t. plain-Works.puts i t.0;
  updates = λ u t. plain-Works.updates u t.0;
  update_refused = λ u t. plain-Works.update_refused u t.0;
  deletes = λ k test t. plain-Works.deletes k test t.0;
  delete_refused = λ k test t. plain-Works.delete_refused k test t.0;
  transacts = λ ws t. plain-Works.transacts ws t.0;
  transact_refused = λ ws t. plain-Works.transact_refused ws t.0;
}

calls_agree_example :
    ((on_table_all replicated catch_up calls (empty, empty)).0
      ≡ map returned (in_memory_all calls bare).0)
    × Represents decimal
        (first_of (on_table_all replicated catch_up calls (empty, empty)).1)
        (in_memory_all calls bare).1
calls_agree_example =
    calls_agree decimal replicated first_of replicated-Works catch_up (λ t. refl) (λ t. refl) calls
      false (empty, empty) bare (λ h. cc h) refl empty-Represents
