-- ===== src/Registry/Dynamostore/Resolution.antt =====
-- internal/registry/dynamostore/store.go: the resolution of consent requests, and the sweep after an
-- approval.
use spawnly.Prelude.{
  ℕ, zero, suc, String, Bool, true, false, not, ◌&&◌, ◌||◌, Option, none, some, List, [], ◌∷◌, ◌==◌,
  if◌then◌else◌,
}
use spawnly.Consent.{
  ConsentRecord, ConsentRequest, consent_edge_key, open_request_key, consent_pending,
  consent_approved, consent_denied, evaluate_consent,
}
use spawnly.Registry.Requests.{open_key_of, resolved}
use spawnly.Registry.Dynamostore.{
  DbError, Answer, Service, returned, failed, other, then_, then_or, is_cond_failed,
  is_txn_cond_failed, is_txn_conflict,
}
use spawnly.Registry.Dynamostore.Keys.{gen_id}
use spawnly.Registry.Dynamostore.Consents.{consent_expiry, edge_key_of}
use spawnly.Registry.Dynamostore.Requests.{
  read_request, get_consent_request, free_open_marker, requests_by_edge, pivot, approval,
  txn_conflict_budget,
}

abbrev pub scopes_or : Option (List String) → List String → List String
scopes_or none asked = asked
scopes_or (some scopes) asked = scopes

-- The grant of an approval, before it has an id.
abbrev pub grant_for : ConsentRequest → Option (List String) → ℕ → Option ℕ → ConsentRecord
grant_for cr scopes now expiry = record {
  id = "";
  user_id = cr.user_id;
  parent_type = cr.parent_type;
  child_type = cr.child_type;
  scopes = scopes_or scopes cr.scopes;
  granted_at = now;
  expires_at = expiry;
  revoked = false;
}

module _ {T : Type 0} (db : Service T) where
  abbrev pub settled : Option ConsentRequest → Option ConsentRequest
  settled none = none
  settled (some cr) = if cr.status == consent_pending then none else some cr

  unfoldable pub resolve_recover : String → T → Answer (Option ConsentRequest) × T
  unfolding read_request
  resolve_recover id s = then_ (read_request db true id s) (λ cr s1. (returned (settled cr), s1))

  -- `retryOnTxnConflict`, with the last error.
  unfoldable pub retry : (T → Answer {0} Unit × T) → ℕ → DbError → T → Answer {0} Unit × T
  unfolding is_txn_conflict
  retry call zero last s = (failed last, s)
  retry call (suc attempts) last s =
      then_or (call s)
        (λ e s1. elim (is_txn_conflict e) [
          | true ↦ retry call attempts e s1
          | false ↦ (failed e, s1)
        ])
        (λ a s1. (returned a, s1))

  unfoldable pub retry_on_txn_conflict : (T → Answer {0} Unit × T) → T → Answer {0} Unit × T
  unfolding retry
  retry_on_txn_conflict call = retry call txn_conflict_budget (other "")

  -- One round of the sweep; `other_cr` is the request as the query found it.
  unfoldable pub sweep_one : String → ConsentRecord → ℕ → ConsentRequest → T → T
  unfolding evaluate_consent free_open_marker open_request_key
  sweep_one id granted now other_cr s =
      if other_cr.id == id || not (other_cr.status == consent_pending)
      then s
      else if not (evaluate_consent granted other_cr.scopes now).granted
      then s
      else let (a, s1) = db.update_item (pivot other_cr.id "" consent_approved now) s in
        elim a [
          | returned i ↦ free_open_marker db (open_key_of other_cr) other_cr.id s1
          | failed e ↦ s1
        ]

  unfoldable pub sweep_all : String → ConsentRecord → ℕ → List ConsentRequest → T → T
  unfolding sweep_one
  sweep_all id granted now [] s = s
  sweep_all id granted now (cr ∷ crs) s =
      sweep_all id granted now crs (sweep_one id granted now cr s)

  unfoldable pub sweep : String → ConsentRecord → ℕ → T → T
  unfolding requests_by_edge sweep_all consent_edge_key
  sweep id granted now s =
      let (a, s1) = requests_by_edge db (edge_key_of granted) s in
      elim a [ returned crs ↦ sweep_all id granted now crs s1 | failed e ↦ s1 ]

  -- A failed condition means that the request was resolved already.
  abbrev pub recover_or : String → DbError → T → Answer (Option ConsentRequest) × T
  recover_or id e s =
      if is_txn_cond_failed e || is_cond_failed e then resolve_recover id s else (failed e, s)

  unfoldable pub deny :
      String → String → ConsentRequest → ℕ → T → Answer (Option ConsentRequest) × T
  unfolding resolve_recover free_open_marker open_request_key is_cond_failed
  deny id user_id cr now s =
      then_or (db.update_item (pivot id user_id consent_denied now) s)
        (λ e s1. if is_cond_failed e then resolve_recover id s1 else (failed e, s1))
        (λ _ s1. (
          returned (some (resolved cr consent_denied now)),
          free_open_marker db (open_key_of cr) id s1,
        ))

  unfoldable pub approve :
      String
      → String
      → ConsentRequest
      → ConsentRecord
      → ℕ
      → String
      → T
      → Answer (Option ConsentRequest) × T
  unfolding retry_on_txn_conflict resolve_recover free_open_marker sweep open_request_key gen_id
      is_cond_failed is_txn_cond_failed consent_edge_key
  approve id user_id cr grant now random s =
      then_or
        (retry_on_txn_conflict
          (db.transact_write_items (approval id user_id now grant (gen_id "consent" now random))) s)
        (recover_or id)
        (λ _ s1. (
          returned (some (resolved cr consent_approved now)),
          sweep id grant now (free_open_marker db (open_key_of cr) id s1),
        ))

  unfoldable pub resolve_consent_request :
      (String → ℕ → Option ℕ)
      → String
      → String
      → Bool
      → Option (List String)
      → ℕ
      → String
      → T
      → Answer (Option ConsentRequest) × T
  unfolding get_consent_request consent_expiry deny approve
  resolve_consent_request deadline id user_id yea scopes now random s =
      then_ (get_consent_request db id s) (λ found s1. elim found [
        | none ↦ (returned none, s1)
        | some cr ↦
            if not (user_id == "") && not (cr.user_id == user_id)
            then (returned none, s1)
            else if not yea
            then deny id user_id cr now s1
            else then_ (consent_expiry db deadline cr.parent_type cr.child_type now s1)
                (λ expiry s2. approve id user_id cr (grant_for cr scopes now expiry) now random s2)
      ])

  unfoldable pub approve_pending_consent_request :
      String → ℕ → T → Answer (Option ConsentRequest) × T
  unfolding get_consent_request resolve_recover free_open_marker open_request_key is_cond_failed
  approve_pending_consent_request id now s = then_ (get_consent_request db id s) (λ found s1.
      elim found [
        | none ↦ (returned none, s1)
        | some cr ↦
            if not (cr.status == consent_pending)
            then (returned (some cr), s1)
            else then_or (db.update_item (pivot id "" consent_approved now) s1)
                (λ e s2. if is_cond_failed e then resolve_recover id s2 else (failed e, s2))
                (λ _ s2. (
                  returned (some (resolved cr consent_approved now)),
                  free_open_marker db (open_key_of cr) id s2,
                ))
      ])
