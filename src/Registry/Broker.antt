-- ===== src/Registry/Broker.antt =====
-- cmd/registry/main.go: the handlers of the consents and of the consent requests, which only callers
-- of the control plane reach. Each reading of the clock in a handler is an argument.
pub mod Backstop
pub mod Opening
use spawnly.Prelude.{
  ℕ, String, Bool, true, false, not, ◌||◌, Option, none, some, List, [], ◌∷◌, ◌==◌, Result, ok, err,
  if◌then◌else◌,
}
use spawnly.Consent.{
  ConsentRecord, ConsentRequest, ConsentDecision, consent_pending, evaluate_consent, valid_user_id,
}
use spawnly.Registry.Store.{Store}
use spawnly.Registry.Registration.{is_invalid_user}
use spawnly.Registry.World.{Response, reply, error, not_found, unauthorized}
use spawnly.Registry.Requests.{
  upsert_consent, find_consent, list_consents, revoke_consent, create_consent_request,
  create_approved_consent_request, get_consent_request, list_consent_requests,
  approve_pending_consent_request, consent_expiry, resolve_consent_request,
}

pub record ConsentBody : Type 0 where
  pub user_id : String
  pub parent_type : String
  pub child_type : String
  pub scopes : List String

abbrev pub covers : Option ConsentRecord → List String → ℕ → Bool
covers none scopes now = false
covers (some rec) scopes now = (evaluate_consent rec scopes now).granted

abbrev decision_of : Option ConsentRecord → List String → ℕ → ConsentDecision
decision_of none scopes now = record { granted = false; reason = "no consent on record" }
decision_of (some rec) scopes now = evaluate_consent rec scopes now

-- `GET /v1/consents/check`
unfoldable pub get_consents_check :
    Bool → String → String → String → List String → ℕ → Store → Response ConsentDecision
get_consents_check authed user_id parent_type child_type scopes now s =
    if not authed
    then unauthorized
    else reply 200 (decision_of (find_consent user_id parent_type child_type s) scopes now)

-- `GET /v1/consents` and `GET /v1/consent-requests`
unfoldable pub get_consents : Bool → String → Store → Response (List ConsentRecord)
get_consents authed user_id s =
    if not authed then unauthorized else reply 200 (list_consents user_id s)

unfoldable pub get_consent_requests :
    Bool → String → String → Store → Response (List ConsentRequest)
get_consent_requests authed user_id status s =
    if not authed then unauthorized else reply 200 (list_consent_requests user_id status s)

-- `POST /v1/consents/{id}/revoke`
unfoldable pub post_consent_revoke : Bool → String → String → Store → Response {0} Unit × Store
post_consent_revoke authed id user_id s =
    let (found, s') = revoke_consent id user_id s in
    if not authed
    then (unauthorized, s)
    else if not found
    then (not_found, s')
    else (reply 204 tt, s')

-- The guards that the two creating handlers share.
abbrev pub names_edge : String → String → String → Bool
names_edge user_id parent_type child_type =
    not (user_id == "" || parent_type == "" || child_type == "")

-- The answer of `POST /v1/consent-requests`, with the request that the webhook is told of, if any.
pub record Opened : Type 0 where
  pub response : Response ConsentRequest
  pub notified : Option ConsentRequest
  pub store : Store

abbrev refuse : Response ConsentRequest → Store → Opened
refuse r s = record { response = r; notified = none; store = s }

abbrev shorted : ConsentRequest × Store → Opened
shorted (out, s) = record { response = reply 201 out; notified = none; store = s }

abbrev opened : ConsentRequest × Bool × Store → Opened
opened (out, created, s) = record {
  response = reply (if created then 201 else 200) out;
  notified = if created then some out else none;
  store = s;
}

-- What follows the guards: a covering consent needs no human.
unfoldable pub open_request : ConsentRequest → ℕ → ℕ → Store → Opened
open_request cr checked_at made_at s =
    if covers (find_consent cr.user_id cr.parent_type cr.child_type s) cr.scopes checked_at
    then shorted (create_approved_consent_request cr made_at s)
    else opened (create_consent_request cr made_at s)

-- `POST /v1/consent-requests`; the body is the request, without the fields that the store fills in.
unfoldable pub post_consent_requests : Bool → Result ConsentRequest → ℕ → ℕ → Store → Opened
post_consent_requests authed body checked_at made_at s =
    if not authed then refuse unauthorized s else elim body [
      | err e ↦ refuse (error 400 e) s
      | ok cr ↦
          if not (names_edge cr.user_id cr.parent_type cr.child_type)
          then refuse (error 400 "userId, parentType and childType are required") s
          else if is_invalid_user cr.user_id
          then refuse (error 400 "invalid userId") s
          else open_request cr checked_at made_at s
    ]

abbrev or_same : ConsentRequest → Option ConsentRequest × Store → ConsentRequest × Store
or_same cr (none, s) = (cr, s)
or_same cr (some cr', s) = (cr', s)

unfoldable pub backstop_pending_consent_request :
    ConsentRequest → ℕ → ℕ → Store → ConsentRequest × Store
backstop_pending_consent_request cr checked_at made_at s =
    if not (cr.status == consent_pending)
    then (cr, s)
    else if not
        (covers (find_consent cr.user_id cr.parent_type cr.child_type s) cr.scopes checked_at)
    then (cr, s)
    else or_same cr (approve_pending_consent_request cr.id made_at s)

abbrev backed : Option ConsentRequest → ℕ → ℕ → Store → Response ConsentRequest × Store
backed none checked_at made_at s = (not_found, s)
backed (some cr) checked_at made_at s =
    let (out, s') = backstop_pending_consent_request cr checked_at made_at s in (reply 200 out, s')

-- `GET /v1/consent-requests/{id}`
unfoldable pub poll_consent_request :
    Bool → String → ℕ → ℕ → Store → Response ConsentRequest × Store
poll_consent_request authed id checked_at made_at s =
    if not authed then (unauthorized, s) else backed (get_consent_request id s) checked_at made_at s

abbrev answered : Option ConsentRequest × Store → Response ConsentRequest × Store
answered (none, s) = (not_found, s)
answered (some cr, s) = (reply 200 cr, s)

module _ (deadline : String → ℕ → Option ℕ) where
  -- `POST /v1/consents`
  unfoldable pub post_consents :
      Bool → Result ConsentBody → ℕ → ℕ → Store → Response ConsentRecord × Store
  post_consents authed body now made_at s = if not authed then (unauthorized, s) else elim body [
    | err e ↦ (error 400 e, s)
    | ok req ↦
        let granted : ConsentRecord = record {
          id = "";
          user_id = req.user_id;
          parent_type = req.parent_type;
          child_type = req.child_type;
          scopes = req.scopes;
          granted_at = now;
          expires_at = consent_expiry deadline req.parent_type req.child_type now s;
          revoked = false;
        } in
        let (rec, s') = upsert_consent granted made_at s in
        if not (names_edge req.user_id req.parent_type req.child_type)
        then (error 400 "userId, parentType and childType are required", s)
        else if is_invalid_user req.user_id
        then (error 400 "invalid userId", s)
        else (reply 201 rec, s')
  ]

  -- `POST /v1/consent-requests/{id}/approve` and `…/deny`. The body of an approval is optional: its
  -- scopes are `none` if it is missing.
  unfoldable pub post_resolve :
      Bool
      → String
      → String
      → Bool
      → Option (List String)
      → ℕ
      → Store
      → Response ConsentRequest × Store
  post_resolve authed id user_id yea scopes now s =
      if not authed
      then (unauthorized, s)
      else answered (resolve_consent_request deadline id user_id yea scopes now s)
