-- ===== src/Registry/Dynamostore/Interleaving/Writes.antt =====
-- internal/registry/dynamostore/store.go: what each write makes of the requests and the markers of the table.
use spawnly.Prelude.{
  ℕ, String, ◌≡◌, refl, ap, true, Option, none, some, ◌==◌, ◌⧺◌, if◌then◌else◌, arith, ap_if,
  eq→path,
}
use spawnly.Consent.{ConsentRequest}
use spawnly.Registry.Requests.{resolved}
use spawnly.Registry.Dynamostore.{
  Item, Contents, set_item, Body, template, agent, event, org, consent, request, marker,
}
use spawnly.Registry.Dynamostore.Keys.{sk_meta, creq_pk, open_pk, clash, apart}
use spawnly.Prelude.Text.{codes}
use spawnly.Registry.Dynamostore.Requests.{missing, resolve_item, points_at}
use spawnly.Registry.Dynamostore.Refinement.{
  Family, templates, agents, orgs, consents, requests, markers, tag, same_key-own, same_key-apart,
}
use spawnly.Registry.Dynamostore.Interleaving.{
  request_of, marker_of, request_at, marker_at, is_elsewhere,
}

-- What a write of one item makes of the requests and the markers.
module _ (c : Contents) (a : String) (i : Option Item) where
  pub request_at-request :
      (id : String)
      → request_at (set_item (creq_pk a, sk_meta) i c) id
        ≡ (if a == id then request_of i else request_at c id)
  request_at-request id =
      rw (same_key-own "CREQ#" a id) (ap_if request_of (a == id) i (c (creq_pk id, sk_meta)))

  pub marker_at-request :
      (key : String) → marker_at (set_item (creq_pk a, sk_meta) i c) key ≡ marker_at c key
  marker_at-request key = rw (same_key-apart "CREQ#" "OPEN#" a key refl) refl

  pub request_at-marker :
      (id : String) → request_at (set_item (open_pk a, sk_meta) i c) id ≡ request_at c id
  request_at-marker id = rw (same_key-apart "OPEN#" "CREQ#" a id refl) refl

  pub marker_at-marker :
      (key : String)
      → marker_at (set_item (open_pk a, sk_meta) i c) key
        ≡ (if a == key then marker_of i else marker_at c key)
  marker_at-marker key =
      rw (same_key-own "OPEN#" a key) (ap_if marker_of (a == key) i (c (open_pk key, sk_meta)))

-- A write under any other partition key.
module _ (c : Contents) (t x sk : String) (i : Option Item)
    (far : clash (codes t) (codes "CREQ#") ≡ true)
    (away : clash (codes t) (codes "OPEN#") ≡ true) where
  pub request_at-other : (id : String) → request_at (set_item (t ⧺ x, sk) i c) id ≡ request_at c id
  request_at-other id = rw (apart t "CREQ#" x id far) refl

  pub marker_at-other : (key : String) → marker_at (set_item (t ⧺ x, sk) i c) key ≡ marker_at c key
  marker_at-other key = rw (apart t "OPEN#" x key away) refl

-- The pivot changes the status of the request that is there.
pub request_of-resolve_item :
    (o : Option Item) (cr : ConsentRequest) (status : String) (now : ℕ)
    → request_of o ≡ some cr
    → request_of (some (resolve_item status now o)) ≡ some (resolved cr status now)
request_of-resolve_item none cr status now h = cc h
request_of-resolve_item (some i) cr status now h = ground arith

pub missing-none : (o : Option Item) → missing o ≡ true → o ≡ none
missing-none none h = refl
missing-none (some i) h = cc h

pub points_at-marker_of :
    (id : String) (o : Option Item) → points_at id o ≡ true → marker_of o ≡ some id
points_at-marker_of id none h = cc h
points_at-marker_of id (some i) h = body_points-marker_of id i.body h
  where
    body_points-marker_of :
        (id : String) (b : Body)
        → points_at id (some (record i { body = b })) ≡ true
        → marker_of (some (record i { body = b })) ≡ some id
    body_points-marker_of id (marker at) h = ap some (eq→path at id h)
    body_points-marker_of id (request cr) h = cc h
    body_points-marker_of id (template t) h = cc h
    body_points-marker_of id (agent r) h = cc h
    body_points-marker_of id (event e) h = cc h
    body_points-marker_of id (org o) h = cc h
    body_points-marker_of id (consent r) h = cc h

pub is_elsewhere-clash :
    (f : Family)
    → is_elsewhere f ≡ true
    → (clash (codes (tag f)) (codes "CREQ#") ≡ true)
      × (clash (codes (tag f)) (codes "OPEN#") ≡ true)
is_elsewhere-clash templates h = (refl, refl)
is_elsewhere-clash agents h = (refl, refl)
is_elsewhere-clash orgs h = (refl, refl)
is_elsewhere-clash consents h = (refl, refl)
is_elsewhere-clash requests h = cc h
is_elsewhere-clash markers h = cc h
