-- ===== src/Registry/Requests/Consistency.antt =====
-- The consent requests of the registry (cmd/registry/main.go):
-- the pending index under their operations.
use spawnly.Prelude.{
  ℕ, String, ◌≡◌, refl, inl, inr, Bool, true, false, not, ◌&&◌, ◌⊎◌, Option, none, some, List, [],
  ◌∷◌, ◌==◌, eq→path, path→eq, Bool-cases, Option-cases, if◌then◌else◌,
}
use spawnly.Prelude.Assoc.{lookup}
use spawnly.Consent.{
  ConsentRecord, ConsentRequest, consent_pending, consent_approved, consent_denied,
}
use spawnly.Registry.Store.{Store}
use spawnly.Registry.Requests.{
  edge_of, open_key_of, settle, resolved, sweep_one, sweep, request_id, create_consent_request,
  create_approved_consent_request, approve_pending_consent_request, upsert_consent, approve,
  resolve_consent_request,
}
use spawnly.Registry.Requests.Index.{IsConsistent, settle-Agree, fresh-Agree, resolved-Agree}
use spawnly.Registry.Requests.Sweep.{is_covered, is_covered_parts, sweep_one-eq, sweep_one-absent}

settle-IsConsistent :
    (s : Store) (id status : String) (cr : ConsentRequest) (now : ℕ)
    → IsConsistent s
    → lookup id s.consent_requests ≡ some cr
    → cr.status ≡ consent_pending
    → (status == consent_pending) ≡ false
    → IsConsistent (settle id (resolved cr status now) s)
unfolding settle
settle-IsConsistent s id status cr now h at pending closed =
    settle-Agree s.consent_requests s.open_requests h id cr (resolved cr status now) at pending
      closed refl refl

module _ (granted : ConsentRecord) (key id : String) (now : ℕ) where
  sweep_one-IsConsistent :
      (rid : String) (s : Store)
      → IsConsistent s
      → IsConsistent (sweep_one granted key id now rid s)
  sweep_one-IsConsistent rid s h = elim (Option-cases (lookup rid s.consent_requests)) [
    | inl e ↦ rw (sweep_one-absent granted key id now rid s e) h
    | inr (other, e) ↦
        rw (sweep_one-eq granted key id now rid s other e)
          (elim (Bool-cases (is_covered granted key id now rid other)) [
            | inl c ↦ rw c (
                settle-IsConsistent s rid consent_approved other now h e
                  (is_covered_parts granted key id now rid other c).1 refl)
            | inr c ↦ rw c h
          ])
  ]

  pub sweep-IsConsistent :
      (rids : List String) (s : Store)
      → IsConsistent s
      → IsConsistent (sweep granted key id now rids s)
  unfolding sweep
  sweep-IsConsistent [] s h = h
  sweep-IsConsistent (rid ∷ rids) s h =
      sweep-IsConsistent rids (sweep_one granted key id now rid s) (sweep_one-IsConsistent rid s h)

-- A request is created under an id that no request has.
pub create_consent_request-IsConsistent :
    (req : ConsentRequest) (now : ℕ) (s : Store)
    → IsConsistent s
    → lookup (request_id now) s.consent_requests ≡ none
    → IsConsistent (create_consent_request req now s).2
unfolding create_consent_request
create_consent_request-IsConsistent req now s h unused =
    elim (Option-cases (lookup (open_key_of req) s.open_requests)) [
      | inl e ↦
          rw (e, create_consent_request)
            (fresh-Agree s.consent_requests s.open_requests h (request_id now) _ unused refl e refl)
      | inr (id, e) ↦
          let (cr, found, pending, keyed) = h.open_is_pending (open_key_of req) id e in
          rw (e, create_consent_request)
            (rw (found, create_consent_request) (rw (path→eq cr.status consent_pending pending) h))
    ]

pub create_approved_consent_request-IsConsistent :
    (req : ConsentRequest) (now : ℕ) (s : Store)
    → IsConsistent s
    → lookup (request_id now) s.consent_requests ≡ none
    → IsConsistent (create_approved_consent_request req now s).1
unfolding create_approved_consent_request
create_approved_consent_request-IsConsistent req now s h unused =
    resolved-Agree s.consent_requests s.open_requests h (request_id now) _ unused refl refl

pub approve_pending_consent_request-IsConsistent :
    (id : String) (now : ℕ) (s : Store)
    → IsConsistent s
    → IsConsistent (approve_pending_consent_request id now s).1
unfolding approve_pending_consent_request
approve_pending_consent_request-IsConsistent id now s h =
    elim (Option-cases (lookup id s.consent_requests)) [
      | inl e ↦ rw (e, approve_pending_consent_request) h
      | inr (cr, e) ↦
          rw (e, approve_pending_consent_request)
            (elim (Bool-cases (cr.status == consent_pending)) [
              | inl c ↦ rw c (
                  settle-IsConsistent s id consent_approved cr now h e
                    (eq→path cr.status consent_pending c) refl)
              | inr c ↦ rw c h
            ])
    ]

module _ (deadline : String → ℕ → Option ℕ) where
  approve-IsConsistent :
      (id : String) (cr : ConsentRequest) (scopes : Option (List String)) (now : ℕ) (s : Store)
      → IsConsistent s
      → lookup id s.consent_requests ≡ some cr
      → cr.status ≡ consent_pending
      → IsConsistent (approve deadline id cr scopes now s).1
  unfolding approve upsert_consent
  approve-IsConsistent id cr scopes now s h e c =
      sweep-IsConsistent _ (edge_of cr) id now _ _
        (settle-IsConsistent s id consent_approved cr now h e c refl)

  -- Approving or denying, with the sweep that an approval starts, keeps the two maps in step.
  pub resolve_consent_request-IsConsistent :
      (id user_id : String) (yea : Bool) (scopes : Option (List String)) (now : ℕ) (s : Store)
      → IsConsistent s
      → IsConsistent (resolve_consent_request deadline id user_id yea scopes now s).1
  unfolding resolve_consent_request
  resolve_consent_request-IsConsistent id user_id yea scopes now s h =
      elim (Option-cases (lookup id s.consent_requests)) [
        | inl e ↦ rw (e, resolve_consent_request) h
        | inr (cr, e) ↦
            rw (e, resolve_consent_request)
              (by_tests cr e (not (user_id == "") && not (cr.user_id == user_id)) yea
                (Bool-cases (cr.status == consent_pending)))
      ]
    where
      by_tests :
          (cr : ConsentRequest)
          → lookup id s.consent_requests ≡ some cr
          → (other_user yes' : Bool)
          → ((cr.status == consent_pending) ≡ true) ⊎ ((cr.status == consent_pending) ≡ false)
          → IsConsistent
              (let r : Option ConsentRequest × Store =
                  (if other_user
                    then (none, s)
                    else if not (cr.status == consent_pending)
                    then (some cr, s)
                    else if not yes'
                    then (
                      some (resolved cr consent_denied now),
                      settle id (resolved cr consent_denied now) s,
                    )
                    else (
                      some (approve deadline id cr scopes now s).0,
                      (approve deadline id cr scopes now s).1,
                    )) in
                r).1
      by_tests cr e true y c = h
      by_tests cr e false y (inr c) = rw c h
      by_tests cr e false false (inl c) =
          rw c
            (settle-IsConsistent s id consent_denied cr now h e (eq→path _ consent_pending c) refl)
      by_tests cr e false true (inl c) =
          rw c (approve-IsConsistent id cr scopes now s h e (eq→path _ consent_pending c))
