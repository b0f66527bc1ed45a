-- ===== src/Registry/Dynamostore/Interleaving.antt =====
-- internal/registry/dynamostore/store.go under concurrency: each write of the table is atomic, and the
-- writes of concurrent calls come in any order. What a call remembers between two of its own accesses
-- is part of the state.
pub mod Keeping
pub mod Writes
pub mod Readings
pub mod Unique
pub mod OpenKeys
pub mod Filing
pub mod Sharing
pub mod Running
pub mod Accesses
pub mod Calls
pub mod Opening
pub mod Creating
pub mod Resolving
pub mod Sweeping
pub mod Approving
pub mod Runs
use mathlib.Core.List.{Memᴰ}
use spawnly.Prelude.{
  ℕ, String, ◌≡◌, Bool, true, false, Option, none, some, List, [], ◌∷◌, ◌==◌, ◌⧺◌,
}
use spawnly.Consent.{ConsentRequest, ConsentRecord, consent_pending}
use spawnly.Registry.Requests.{open_key_of}
use spawnly.Registry.Dynamostore.{
  Item, Key, Contents, Body, Update, template, agent, event, org, consent, request, marker,
  set_item, passes, commit,
}
use spawnly.Registry.Dynamostore.Keys.{sk_meta, creq_pk, open_pk}
use spawnly.Registry.Dynamostore.Requests.{creq_item, opening, approval, pivot, points_at}
use spawnly.Registry.Dynamostore.Refinement.{Family, requests, markers, tag}

-- `seen`: a key and the id that a call read from its marker. `due`: a key and an id whose marker a call is
-- about to remove.
pub record System : Type 0 where
  pub contents : Contents
  pub seen : List (String × String)
  pub due : List (String × String)

abbrev request_of_body : Body → Option ConsentRequest
request_of_body (request cr) = some cr
request_of_body (template t) = none
request_of_body (agent r) = none
request_of_body (event e) = none
request_of_body (org o) = none
request_of_body (consent c) = none
request_of_body (marker id) = none

abbrev pub request_of : Option Item → Option ConsentRequest
request_of none = none
request_of (some i) = request_of_body i.body

abbrev marker_of_body : Body → Option String
marker_of_body (marker id) = some id
marker_of_body (request cr) = none
marker_of_body (template t) = none
marker_of_body (agent r) = none
marker_of_body (event e) = none
marker_of_body (org o) = none
marker_of_body (consent c) = none

abbrev pub marker_of : Option Item → Option String
marker_of none = none
marker_of (some i) = marker_of_body i.body

abbrev pub request_at : Contents → String → Option ConsentRequest
request_at c id = request_of (c (creq_pk id, sk_meta))

abbrev pub marker_at : Contents → String → Option String
marker_at c key = marker_of (c (open_pk key, sk_meta))

abbrev pub apply_update : Update → Contents → Contents
apply_update u c = set_item u.key (some (u.change (c u.key))) c

abbrev pub is_elsewhere : Family → Bool
is_elsewhere requests = false
is_elsewhere markers = false
is_elsewhere _ = true

-- One access of one of the concurrent calls, as far as it changes the table or what the call remembers.
-- The id of a new request is one that no request has.
pub data Step (stamp : ℕ → String) (s : System) : System → Type 0 where
  -- `CreateConsentRequest` wins its transaction.
  opens :
      (cr : ConsentRequest)
      → request_at s.contents cr.id ≡ none
      → passes (opening stamp (open_key_of cr) cr) s.contents ≡ true
      → Step stamp s (record s { contents = commit (opening stamp (open_key_of cr) cr) s.contents })
  -- `CreateApprovedConsentRequest`
  opens_resolved :
      (cr : ConsentRequest)
      → request_at s.contents cr.id ≡ none
      → (cr.status == consent_pending) ≡ false
      → Step stamp s (record s {
        contents = set_item (creq_pk cr.id, sk_meta) (some (creq_item stamp cr)) s.contents;
      })
  -- The pivot of a denial, of the sweep or of the backstop; its call then owes the removal of the marker.
  resolves :
      (id user_id status : String) (now : ℕ) (cr : ConsentRequest)
      → request_at s.contents id ≡ some cr
      → (status == consent_pending) ≡ false
      → (pivot id user_id status now).test (s.contents (creq_pk id, sk_meta)) ≡ true
      → Step stamp s (record s {
        contents = apply_update (pivot id user_id status now) s.contents;
        due = (open_key_of cr, id) ∷ s.due;
      })
  -- The transaction of an approval.
  approves :
      (id user_id cand : String) (now : ℕ) (grant : ConsentRecord) (cr : ConsentRequest)
      → request_at s.contents id ≡ some cr
      → passes (approval id user_id now grant cand) s.contents ≡ true
      → Step stamp s (record s {
        contents = commit (approval id user_id now grant cand) s.contents;
        due = (open_key_of cr, id) ∷ s.due;
      })
  -- A call that lost its transaction reads the marker,
  reads_marker :
      (key id : String)
      → marker_at s.contents key ≡ some id
      → Step stamp s (record s { seen = (key, id) ∷ s.seen })
  -- and then finds that the request is not pending.
  finds_stale :
      (key id : String) (cr : ConsentRequest)
      → Memᴰ (key, id) s.seen
      → request_at s.contents id ≡ some cr
      → (cr.status == consent_pending) ≡ false
      → Step stamp s (record s { due = (key, id) ∷ s.due })
  -- or that there is no request.
  finds_none :
      (key id : String)
      → Memᴰ (key, id) s.seen
      → request_at s.contents id ≡ none
      → Step stamp s (record s { due = (key, id) ∷ s.due })
  -- The conditional removal of a marker.
  frees :
      (key id : String)
      → Memᴰ (key, id) s.due
      → points_at id (s.contents (open_pk key, sk_meta)) ≡ true
      → Step stamp s (record s { contents = set_item (open_pk key, sk_meta) none s.contents })
  -- Any write of a template, an agent, an event, an organization or a consent.
  elsewhere :
      (f : Family) (x sk : String) (i : Option Item)
      → is_elsewhere f ≡ true
      → request_of i ≡ none
      → Step stamp s (record s { contents = set_item (tag f ⧺ x, sk) i s.contents })

pub data Reach (stamp : ℕ → String) (s : System) : System → Type 0 where
  here : Reach stamp s s
  next : {t u : System} → Reach stamp s t → Step stamp t u → Reach stamp s u
