-- ===== src/Registry/Requests.antt =====
-- cmd/registry/main.go: the consents of the in-memory store, and the consent requests that the
-- registry brokers from pending to approved or denied.
pub mod Sweep
pub mod Index
pub mod Consistency
pub mod Resolution
use spawnly.Prelude.{
  ℕ, String, Bool, true, false, not, ◌&&◌, ◌||◌, Option, none, some, List, [], ◌∷◌, ◌==◌, ◌⧺◌,
  select, if◌then◌else◌,
}
use spawnly.Prelude.Assoc.{Map, lookup, insert, erase, values, keys}
use spawnly.Prelude.Text.{decimal}
use spawnly.Consent.{
  ConsentRecord, ConsentRequest, consent_edge_key, open_request_key, consent_pending,
  consent_approved, consent_denied, evaluate_consent,
}
use spawnly.Registry.Types.{AgentTemplate, ChildSpawnPolicy}
use spawnly.Registry.Store.{Store, get_template}

-- `fmt.Sprintf("consent-%d", …)` and `fmt.Sprintf("creq-%d", …)`
unfoldable pub consent_id : ℕ → String
consent_id nano = "consent-" ⧺ decimal nano

unfoldable pub request_id : ℕ → String
request_id nano = "creq-" ⧺ decimal nano

abbrev pub edge_of : ConsentRequest → String
edge_of cr = consent_edge_key cr.user_id cr.parent_type cr.child_type

abbrev pub open_key_of : ConsentRequest → String
open_key_of cr = open_request_key cr.user_id cr.parent_type cr.child_type cr.agent_id

-- The id of a consent: that of the record it replaces, or a fresh one.
abbrev kept_id : Option ConsentRecord → ℕ → String
kept_id none now = consent_id now
kept_id (some existing) now = existing.id

-- `upsertConsent` and `upsertConsentLocked`
unfoldable pub upsert_consent : ConsentRecord → ℕ → Store → ConsentRecord × Store
upsert_consent rec now s =
    let key = consent_edge_key rec.user_id rec.parent_type rec.child_type in
    let rec' : ConsentRecord = record rec { id = kept_id (lookup key s.consents) now } in
    (rec', record s { consents = insert key rec' s.consents })

unfoldable pub find_consent : String → String → String → Store → Option ConsentRecord
find_consent user_id parent_type child_type s =
    lookup (consent_edge_key user_id parent_type child_type) s.consents

unfoldable pub list_consents : String → Store → List ConsentRecord
list_consents user_id s =
    select (λ rec. user_id == "" || rec.user_id == user_id) (values s.consents)

-- The entry at which the loop of `revokeConsent` stops.
unfoldable pub consent_named : String → String → Map ConsentRecord → Option (String × ConsentRecord)
consent_named id user_id [] = none
consent_named id user_id ((key, rec) ∷ m) =
    if rec.id == id && (user_id == "" || rec.user_id == user_id)
    then some (key, rec)
    else consent_named id user_id m

unfoldable pub revoke_consent : String → String → Store → Bool × Store
revoke_consent id user_id s = elim (consent_named id user_id s.consents) [
  | none ↦ (false, s)
  | some (key, rec) ↦
      (true, record s { consents = insert key (record rec { revoked = true }) s.consents })
]

unfoldable pub create_consent_request : ConsentRequest → ℕ → Store → ConsentRequest × Bool × Store
create_consent_request req now s =
    let key = open_key_of req in
    let cr : ConsentRequest = record req {
      id = request_id now;
      status = consent_pending;
      created_at = now;
    } in
    let fresh : ConsentRequest × Bool × Store = (
      cr,
      true,
      record s {
        consent_requests = insert cr.id cr s.consent_requests;
        open_requests = insert key cr.id s.open_requests;
      },
    ) in
    elim (lookup key s.open_requests) [
      | none ↦ fresh
      | some id ↦ elim (lookup id s.consent_requests) [
        | none ↦ fresh
        | some existing ↦ if existing.status == consent_pending then (existing, false, s) else fresh
      ]
    ]

unfoldable pub create_approved_consent_request : ConsentRequest → ℕ → Store → ConsentRequest × Store
create_approved_consent_request req now s =
    let cr : ConsentRequest = record req {
      id = request_id now;
      status = consent_approved;
      created_at = now;
      resolved_at = some now;
    } in
    (cr, record s { consent_requests = insert cr.id cr s.consent_requests })

unfoldable pub get_consent_request : String → Store → Option ConsentRequest
get_consent_request id s = lookup id s.consent_requests

unfoldable pub list_consent_requests : String → String → Store → List ConsentRequest
list_consent_requests user_id status s =
    select
      (λ cr.
        not (not (user_id == "") && not (cr.user_id == user_id))
        && not (not (status == "") && not (cr.status == status)))
      (values s.consent_requests)

-- Writing back a request that is no longer pending, and dropping its entry among the open ones.
unfoldable pub settle : String → ConsentRequest → Store → Store
settle id cr s = record s {
  consent_requests = insert id cr s.consent_requests;
  open_requests = erase (open_key_of cr) s.open_requests;
}

abbrev pub resolved : ConsentRequest → String → ℕ → ConsentRequest
resolved cr status now = record cr { status = status; resolved_at = some now }

unfoldable pub approve_pending_consent_request : String → ℕ → Store → Option ConsentRequest × Store
approve_pending_consent_request id now s = elim (lookup id s.consent_requests) [
  | none ↦ (none, s)
  | some cr ↦
      if not (cr.status == consent_pending)
      then (some cr, s)
      else let cr' = resolved cr consent_approved now in (some cr', settle id cr' s)
]

-- One round of the sweep over the other requests, for the grant that an approval has stored.
unfoldable pub sweep_one : ConsentRecord → String → String → ℕ → String → Store → Store
sweep_one granted key id now rid s = elim (lookup rid s.consent_requests) [
  | none ↦ s
  | some other ↦
      if rid == id || not (other.status == consent_pending)
      then s
      else if not (edge_of other == key)
      then s
      else if (evaluate_consent granted other.scopes now).granted
      then settle rid (resolved other consent_approved now) s
      else s
]

-- The `range` over the requests meets each of them at its present value.
unfoldable pub sweep : ConsentRecord → String → String → ℕ → List String → Store → Store
sweep granted key id now [] s = s
sweep granted key id now (rid ∷ rids) s =
    sweep granted key id now rids (sweep_one granted key id now rid s)

-- `time.ParseDuration` and `Add`: the time that lies a duration after another, or `none` where the
-- text is no duration.
module _ (deadline : String → ℕ → Option ℕ) where
  unfoldable pub consent_expiry : String → String → ℕ → Store → Option ℕ
  consent_expiry parent_type child_type from s = elim (get_template parent_type s) [
    | none ↦ none
    | some tpl ↦ elim (lookup child_type tpl.delegation.child_policies) [
      | none ↦ none
      | some cp ↦ if cp.consent_ttl == "" then none else deadline cp.consent_ttl from
    ]
  ]

  abbrev scopes_or : Option (List String) → List String → List String
  scopes_or none asked = asked
  scopes_or (some scopes) asked = scopes

  -- The grant that an approval of the request stores.
  abbrev pub grant_of : ConsentRequest → Option (List String) → ℕ → Store → ConsentRecord
  grant_of cr scopes now s = record {
    id = "";
    user_id = cr.user_id;
    parent_type = cr.parent_type;
    child_type = cr.child_type;
    scopes = scopes_or scopes cr.scopes;
    granted_at = now;
    expires_at = consent_expiry cr.parent_type cr.child_type now s;
    revoked = false;
  }

  -- The part of `resolveConsentRequest` that approves a pending request.
  unfoldable pub approve :
      String → ConsentRequest → Option (List String) → ℕ → Store → ConsentRequest × Store
  approve id cr scopes now s =
      let cr' = resolved cr consent_approved now in
      let (granted, s') = upsert_consent (grant_of cr scopes now s) now (settle id cr' s) in
      (cr', sweep granted (edge_of cr) id now (keys s'.consent_requests) s')

  -- `scopes` is `none` for a nil slice. The read before the lock and the read under it are one: no
  -- request is ever removed, and its user never changes.
  unfoldable pub resolve_consent_request :
      String → String → Bool → Option (List String) → ℕ → Store → Option ConsentRequest × Store
  resolve_consent_request id user_id yea scopes now s = elim (lookup id s.consent_requests) [
    | none ↦ (none, s)
    | some cr ↦
        let (cr', s') = approve id cr scopes now s in
        let denied = resolved cr consent_denied now in
        if not (user_id == "") && not (cr.user_id == user_id)
        then (none, s)
        else if not (cr.status == consent_pending)
        then (some cr, s)
        else if not yea
        then (some denied, settle id denied s)
        else (some cr', s')
  ]
