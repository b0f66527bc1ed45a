-- ===== src/Registry/Dynamostore/Requests.antt =====
-- internal/registry/dynamostore/store.go: the consent requests and their open markers. A request and
-- its marker are written in one transaction; so are a request that is approved and its grant. A marker
-- is removed on its own, and only if it still points at the request.
use spawnly.Prelude.{
  ℕ, zero, suc, String, Bool, true, false, not, ◌&&◌, ◌||◌, Option, none, some, List, [], ◌∷◌, ◌==◌,
  ◌⧺◌, if◌then◌else◌,
}
use spawnly.Consent.{
  ConsentRecord, ConsentRequest, open_request_key, consent_pending, consent_approved,
}
use spawnly.Registry.Requests.{edge_of, open_key_of, resolved}
use spawnly.Registry.Dynamostore.{
  Item, Answer, Service, Update, Write, Body, returned, failed, other, put, update, template, agent,
  event, org, consent, request, marker, gsi1, gsi2, then_, then_or, is_cond_failed,
  is_txn_cond_failed, is_txn_conflict,
}
use spawnly.Registry.Dynamostore.Keys.{sk_meta, gsi1_creq, creq_pk, open_pk, gen_id}
use spawnly.Registry.Dynamostore.Items.{misread, read_item, read_items, always}
use spawnly.Registry.Dynamostore.Consents.{consent_upsert_update}

-- `txnConflictBudget`
abbrev pub txn_conflict_budget : ℕ
txn_conflict_budget = 5

abbrev pub as_request : Body → Answer ConsentRequest
as_request (request r) = returned r
as_request (template t) = misread
as_request (agent r) = misread
as_request (event e) = misread
as_request (org o) = misread
as_request (consent c) = misread
as_request (marker id) = misread

abbrev pub as_marker : Body → Answer String
as_marker (marker id) = returned id
as_marker (template t) = misread
as_marker (agent r) = misread
as_marker (event e) = misread
as_marker (org o) = misread
as_marker (consent c) = misread
as_marker (request r) = misread

-- `creqItem`; `stamp` is the text of a time in RFC 3339 with nanoseconds.
abbrev pub creq_item : (ℕ → String) → ConsentRequest → Item
creq_item stamp cr = record {
  pk = creq_pk cr.id;
  sk = sk_meta;
  gsi1pk = gsi1_creq;
  gsi1sk = cr.user_id ⧺ "#" ⧺ stamp cr.created_at ⧺ "#" ⧺ cr.id;
  gsi2pk = "EDGE#" ⧺ edge_of cr;
  body = request cr;
}

abbrev pub open_item : String → String → Item
open_item key id = record {
  pk = open_pk key;
  sk = sk_meta;
  gsi1pk = "";
  gsi1sk = "";
  gsi2pk = "";
  body = marker id;
}

-- `attribute_not_exists(pk)`
abbrev pub missing : Option Item → Bool
missing none = true
missing (some i) = false

abbrev body_points : String → Body → Bool
body_points id (marker at) = at == id
body_points id other_body = false

-- `requestId = :rid`
abbrev pub points_at : String → Option Item → Bool
points_at id none = false
points_at id (some i) = body_points id i.body

abbrev body_pending : String → Body → Bool
body_pending user_id (request cr) =
    cr.status == consent_pending && (user_id == "" || cr.user_id == user_id)
body_pending user_id other_body = false

-- The condition of the pivot: pending, and of the user where one is named.
abbrev pub is_pending_of : String → Option Item → Bool
is_pending_of user_id none = false
is_pending_of user_id (some i) = body_pending user_id i.body

abbrev pub resolve_body : String → ℕ → Body → Body
resolve_body status now (request cr) = request (resolved cr status now)
resolve_body status now other_body = other_body

abbrev pub resolve_item : String → ℕ → Option Item → Item
resolve_item status now none = open_item "" ""
resolve_item status now (some i) = record i { body = resolve_body status now i.body }

-- The conditional flip of a pending request.
abbrev pub pivot : String → String → String → ℕ → Update
pivot id user_id status now = record {
  key = (creq_pk id, sk_meta);
  test = is_pending_of user_id;
  change = resolve_item status now;
}

abbrev pub new_request : ConsentRequest → String → ℕ → ConsentRequest
new_request req id now = record req { id = id; status = consent_pending; created_at = now }

-- The transaction that opens a request.
abbrev pub opening : (ℕ → String) → String → ConsentRequest → List Write
opening stamp key cr = put missing (open_item key cr.id) ∷ put always (creq_item stamp cr) ∷ []

-- The transaction that approves a request.
abbrev pub approval : String → String → ℕ → ConsentRecord → String → List Write
approval id user_id now grant cand =
    update (pivot id user_id consent_approved now) ∷ update (consent_upsert_update grant cand) ∷ []

module _ {T : Type 0} (db : Service T) where
  -- `getConsentRequest`; the public read is not consistent.
  unfoldable pub read_request : Bool → String → T → Answer (Option ConsentRequest) × T
  read_request consistent id s =
      then_ (db.get_item consistent (creq_pk id, sk_meta) s) (λ i s1. (read_item as_request i, s1))

  unfoldable pub get_consent_request : String → T → Answer (Option ConsentRequest) × T
  unfolding read_request
  get_consent_request = read_request false

  -- The request of an open marker, and the id that the marker holds.
  unfoldable pub read_open_request : String → T → Answer (Option ConsentRequest × String) × T
  unfolding read_request
  read_open_request key s = then_ (db.get_item true (open_pk key, sk_meta) s) (λ i s1.
      then_ (read_item as_marker i, s1)
        (λ id s2. elim id [
          | none ↦ (returned (none, ""), s2)
          | some at ↦ then_ (read_request true at s2) (λ cr s3. (returned (cr, at), s3))
        ]))

  unfoldable pub delete_open_marker_if : String → String → T → Answer {0} Unit × T
  unfolding is_cond_failed
  delete_open_marker_if key id s =
      then_or (db.delete_item (open_pk key, sk_meta) (points_at id) s)
        (λ e s1. if is_cond_failed e then (returned tt, s1) else (failed e, s1))
        (λ _ s1. (returned tt, s1))

  -- Its error is only logged.
  unfoldable pub free_open_marker : String → String → T → T
  unfolding delete_open_marker_if
  free_open_marker key id s = (delete_open_marker_if key id s).1

  -- After a marker was met: its request if that is pending; else the marker is stale, and after its
  -- removal comes the next round.
  unfoldable pub after_marker :
      String
      → (T → Answer (ConsentRequest × Bool) × T)
      → Option ConsentRequest × String
      → T
      → Answer (ConsentRequest × Bool) × T
  unfolding delete_open_marker_if
  after_marker key again found s =
      let next = then_ (delete_open_marker_if key found.1 s) (λ _ s1. again s1) in
      elim found.0 [
        | none ↦ next
        | some existing ↦
            if existing.status == consent_pending then (returned (existing, false), s) else next
      ]

  -- The rounds of `CreateConsentRequest`; each has its time and its random bytes.
  unfoldable pub create_rounds :
      (ℕ → String)
      → (ℕ → ℕ)
      → (ℕ → String)
      → ℕ
      → ConsentRequest
      → T
      → Answer (ConsentRequest × Bool) × T
  unfolding is_txn_cond_failed is_txn_conflict read_open_request after_marker gen_id
      open_request_key
  create_rounds stamp time random zero req s =
      (failed (other ("create consent request: persistent contention on " ⧺ open_key_of req)), s)
  create_rounds stamp time random (suc attempts) req s =
      let key = open_key_of req in
      let now = time attempts in
      let fresh = new_request req (gen_id "creq" now (random attempts)) now in
      let again = create_rounds stamp time random attempts req in
      then_or (db.transact_write_items (opening stamp key fresh) s)
        (λ e s1. elim (is_txn_cond_failed e) [
          | true ↦ then_ (read_open_request key s1) (after_marker key again)
          | false ↦ elim (is_txn_conflict e) [ true ↦ again s1 | false ↦ (failed e, s1) ]
        ])
        (λ _ s1. (returned (fresh, true), s1))

  unfoldable pub create_consent_request :
      (ℕ → String)
      → (ℕ → ℕ)
      → (ℕ → String)
      → ConsentRequest
      → T
      → Answer (ConsentRequest × Bool) × T
  unfolding create_rounds
  create_consent_request stamp time random = create_rounds stamp time random txn_conflict_budget

  unfoldable pub create_approved_consent_request :
      (ℕ → String) → ConsentRequest → ℕ → String → T → Answer ConsentRequest × T
  unfolding gen_id
  create_approved_consent_request stamp req now random s =
      let cr : ConsentRequest = record req {
        id = gen_id "creq" now random;
        status = consent_approved;
        created_at = now;
        resolved_at = some now;
      } in
      then_ (db.put_item (creq_item stamp cr) s) (λ _ s1. (returned cr, s1))

  abbrev of_status : String → List ConsentRequest → List ConsentRequest
  of_status status [] = []
  of_status status (cr ∷ crs) =
      let rest = of_status status crs in
      if not (status == "") && not (cr.status == status) then rest else cr ∷ rest

  unfoldable pub list_consent_requests : String → String → T → Answer (List ConsentRequest) × T
  list_consent_requests user_id status s =
      let begins = if user_id == "" then "" else user_id ⧺ "#" in
      then_ (db.query (record { index = gsi1; hash = gsi1_creq; begins = begins }) s) (λ is s1.
        then_ (read_items as_request is, s1) (λ crs s2. (returned (of_status status crs), s2)))

  unfoldable pub requests_by_edge : String → T → Answer (List ConsentRequest) × T
  requests_by_edge edge s =
      then_ (db.query (record { index = gsi2; hash = "EDGE#" ⧺ edge; begins = "" }) s)
        (λ is s1. (read_items as_request is, s1))
