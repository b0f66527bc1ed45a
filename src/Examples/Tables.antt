-- ===== src/Examples/Tables.antt =====
-- The store of internal/registry/dynamostore/store.go on a concrete table.
use mathlib.Core.List.{Memᴰ}
use spawnly.Prelude.{
  ℕ, ◌<◌, String, ◌≡◌, refl, Bool, false, Option, none, some, List, [], ◌∷◌, if◌then◌else◌,
}
use spawnly.Prelude.Text.{decimal, digits, spell}
use spawnly.Prelude.Assoc.{lookup, insert}
use spawnly.Consent.{ConsentRequest, consent_denied, open_request_key}
use spawnly.Registry.Store.{Store}
use spawnly.Registry.Requests
use spawnly.Registry.Requests.{open_key_of, request_id, resolved}
use spawnly.Registry.Requests.Index.{IsConsistent}
use spawnly.Registry.Requests.Consistency.{create_consent_request-IsConsistent}
use spawnly.Registry.Dynamostore.{
  Item, Key, Contents, Service, Works, Answer, Update, Write, returned, failed, condition_failed,
  cancelled, set_item, key_of, passes, commit,
}
use spawnly.Registry.Dynamostore.Requests as Table
use spawnly.Registry.Dynamostore.Requests.{creq_item, open_item, txn_conflict_budget}
use spawnly.Registry.Dynamostore.Resolution
use spawnly.Registry.Dynamostore.Keys.{sk_meta, creq_pk, open_pk}
use spawnly.Registry.Dynamostore.Refinement.{
  templates, agents, orgs, consents, requests, markers, Represents, Simulates, Represents-set,
  Others-requests, Others-markers,
}
use spawnly.Registry.Dynamostore.Refinement.Calls.{stored-insert}
use spawnly.Registry.Dynamostore.Refinement.Opening.{open_as}
use spawnly.Registry.Dynamostore.Refinement.Rounds.{paired, made, create_consent_request_refines}
use spawnly.Registry.Dynamostore.Refinement.Resolution.{denial_refines}
use spawnly.Registry.Dynamostore.Requests.{opening, pivot}
use spawnly.Registry.Dynamostore.Interleaving.{System, Step, Reach, apply_update, marker_at}
use spawnly.Registry.Dynamostore.Interleaving.Unique.{one_open_request}
use spawnly.Examples.Data.{schema, asked, deadline}

-- A table that answers every call at once.
abbrev update_here : Update → Contents → Answer Item × Contents
update_here u c =
    if u.test (c u.key)
    then (returned (u.change (c u.key)), set_item u.key (some (u.change (c u.key))) c)
    else (failed condition_failed, c)

abbrev delete_here : Key → (Option Item → Bool) → Contents → Answer (Option Item) × Contents
delete_here k test c =
    if test (c k) then (returned (c k), set_item k none c) else (failed condition_failed, c)

abbrev transact_here : List Write → Contents → Answer {0} Unit × Contents
transact_here ws c =
    if passes ws c
    then (returned tt, commit ws c)
    else (failed (cancelled ("ConditionalCheckFailed" ∷ [])), c)

abbrev pub plain : Service Contents
plain = record {
  get_item = λ b k c. (returned (c k), c);
  put_item = λ i c. (returned tt, set_item (key_of i) (some i) c);
  update_item = update_here;
  delete_item = delete_here;
  query = λ q c. (returned [], c);
  transact_write_items = transact_here;
}

abbrev pub contents : Contents → Contents
contents c = c

abbrev pub plain-Works : Works plain contents
plain-Works = record {
  Settled = λ c. Unit;
  gets = λ k c. (refl, refl);
  late_gets = λ k c h. refl;
  late_keeps = λ k c. refl;
  keeps_settled = λ b k c h. h;
  puts = λ i c. (refl, refl);
  updates = λ u c h. rw h (refl, refl);
  update_refused = λ u c h. rw h (refl, refl);
  deletes = λ k test c h. rw h (refl, refl);
  delete_refused = λ k test c h. rw h (refl, refl);
  transacts = λ ws c h. rw h (refl, refl);
  transact_refused = λ ws c h. rw h ("ConditionalCheckFailed" ∷ [], refl, refl, refl);
}

abbrev pub bare : Store
bare = record {
  templates = [];
  agents = [];
  events = [];
  schema = schema;
  consents = [];
  consent_requests = [];
  open_requests = [];
  orgs = [];
}

abbrev pub empty : Contents
empty k = none

pub empty-Represents : Represents decimal empty bare
unfolding lookup
empty-Represents templates x = refl
empty-Represents agents x = refl
empty-Represents orgs x = refl
empty-Represents consents x = refl
empty-Represents requests x = refl
empty-Represents markers x = refl

abbrev one_time : ℕ → ℕ
one_time n = 1

abbrev one_text : ℕ → String
one_text n = "ab"

create_consent_request_refines_example :
    (k : ℕ) × (k < txn_conflict_budget)
    × Simulates decimal contents
        (Table.create_consent_request plain decimal one_time one_text asked empty)
        (paired (open_as (made one_time one_text asked k) bare))
create_consent_request_refines_example =
    create_consent_request_refines decimal plain contents plain-Works one_time one_text asked empty
      bare empty-Represents

-- A table and a store with one pending request.
abbrev opened_request : Store
opened_request = record bare {
  consent_requests = insert "creq-1" asked [];
  open_requests = insert "agent:b" "creq-1" [];
}

abbrev with_marker : Contents
with_marker = set_item (open_pk "agent:b", sk_meta) (some (open_item "agent:b" "creq-1")) empty

abbrev with_request : Contents
with_request = set_item (creq_pk "creq-1", sk_meta) (some (creq_item decimal asked)) with_marker

with_request-Represents : Represents decimal with_request opened_request
with_request-Represents =
    let marked : Store = record bare { open_requests = insert "agent:b" "creq-1" [] } in
    Represents-set decimal with_marker marked opened_request requests "creq-1"
      (some (creq_item decimal asked))
      (Represents-set decimal empty bare marked markers "agent:b"
        (some (open_item "agent:b" "creq-1")) empty-Represents
        (stored-insert open_item "agent:b" "creq-1" []) (Others-markers decimal bare _))
      (stored-insert (λ _. creq_item decimal) "creq-1" asked []) (Others-requests decimal marked _)

opened_request-IsConsistent : IsConsistent opened_request
unfolding Requests.create_consent_request request_id decimal digits spell lookup insert
    open_request_key
opened_request-IsConsistent =
    let bare-IsConsistent : IsConsistent bare = record {
      named = λ id cr h. cc h;
      open_is_pending = λ key id h. cc h;
      pending_is_open = λ id cr h p. cc h;
    } in
    create_consent_request-IsConsistent asked 1 bare bare-IsConsistent refl

denial_refines_example :
    Simulates decimal contents
      (Resolution.resolve_consent_request plain deadline "creq-1" "alice" false none 5 "ab"
        with_request)
      (Requests.resolve_consent_request deadline "creq-1" "alice" false none 5 opened_request)
denial_refines_example =
    denial_refines decimal plain contents plain-Works opened_request "creq-1" 5
      opened_request-IsConsistent deadline "alice" "ab" none with_request tt with_request-Represents

-- A call opens a request, another denies it and frees its marker, and a third opens a request of the
-- same key.
abbrev asked_again : ConsentRequest
asked_again = record asked { id = "creq-2" }

abbrev start : System
start = record { contents = empty; seen = []; due = [] }

abbrev first_open : System
first_open = record start { contents = commit (opening decimal "agent:b" asked) empty }

abbrev denied : System
denied = record {
  contents = apply_update (pivot "creq-1" "alice" consent_denied 5) first_open.contents;
  seen = [];
  due = ("agent:b", "creq-1") ∷ [];
}

abbrev freed : System
freed = record denied { contents = set_item (open_pk "agent:b", sk_meta) none denied.contents }

abbrev second_open : System
second_open = record freed {
  contents = commit (opening decimal "agent:b" asked_again) freed.contents;
}

path : Reach decimal start second_open
unfolding open_request_key
path =
    Reach.next
      (Reach.next
        (Reach.next (Reach.next Reach.here (Step.opens asked refl refl))
          (Step.resolves "creq-1" "alice" consent_denied 5 asked refl refl refl))
        (Step.frees "agent:b" "creq-1" (Memᴰ.head refl) refl))
      (Step.opens asked_again refl refl)

one_open_request_example :
    ◌≡◌ {A = String} "creq-2" "creq-2"
    × (marker_at second_open.contents (open_key_of asked_again) ≡ some "creq-2")
one_open_request_example =
    one_open_request decimal start second_open (λ id. refl) (λ key. refl) refl refl path "creq-2"
      "creq-2" asked_again asked_again refl refl refl refl refl
