-- ===== src/Registry/Requests/Resolution.antt =====
-- What approving, denying and revoking change, for every request and every consent.
use mathlib.Core.Option
use spawnly.Prelude.{
  ℕ, String, ◌≡◌, refl, ◌∙◌, ap, inl, inr, Bool, true, false, not, ◌&&◌, Option, some, List, [],
  ◌∷◌, ◌==◌, eq_refl, eq→path, path→eq, Bool-cases, Option-cases, if_cases, if◌then◌else◌,
}
use spawnly.Prelude.Assoc.{lookup, insert, lookup-insert}
use spawnly.Consent.{
  ConsentRecord, ConsentRequest, consent_pending, consent_approved, consent_denied,
}
use spawnly.Registry.Store.{Store}
use spawnly.Registry.Requests.{
  edge_of, settle, resolved, sweep, upsert_consent, kept_id, approve, resolve_consent_request,
  grant_of, sweep_one,
}
use spawnly.Registry.Requests.Sweep.{
  swept, lookup-sweep_all, sweep_one-eq, sweep_one-absent, is_covered,
}

consents-sweep_one :
    (granted : ConsentRecord) (key id : String) (now : ℕ) (rid : String) (s : Store)
    → (sweep_one granted key id now rid s).consents ≡ s.consents
unfolding settle
consents-sweep_one granted key id now rid s = elim (Option-cases (lookup rid s.consent_requests)) [
  | inl e ↦ rw (sweep_one-absent granted key id now rid s e)
  | inr (other, e) ↦ rw (sweep_one-eq granted key id now rid s other e) (
      if_cases (λ (t : Store). t.consents ≡ s.consents) (is_covered granted key id now rid other) _
        _ (λ _. refl) (λ _. refl))
]

consents-sweep :
    (granted : ConsentRecord) (key id : String) (now : ℕ) (rids : List String) (s : Store)
    → (sweep granted key id now rids s).consents ≡ s.consents
unfolding sweep
consents-sweep granted key id now [] s = refl
consents-sweep granted key id now (rid ∷ rids) s =
    consents-sweep granted key id now rids (sweep_one granted key id now rid s)
    ∙ consents-sweep_one granted key id now rid s

swept_other :
    (granted : ConsentRecord) (key id : String) (now : ℕ) (cr : ConsentRequest)
    → swept granted key id now id cr ≡ cr
unfolding swept is_covered
swept_other granted key id now cr = rw (eq_refl id)

module _ (deadline : String → ℕ → Option ℕ) (id user_id : String) (cr : ConsentRequest) (s : Store)
    (at : lookup id s.consent_requests ≡ some cr) where
  -- The grant that an approval stores, with the id of the record it replaces.
  abbrev pub stored_grant : Option (List String) → ℕ → ConsentRecord
  stored_grant scopes now = record (grant_of deadline cr scopes now s) {
    id = kept_id (lookup (edge_of cr) s.consents) now;
  }

  approve_requests :
      (scopes : Option (List String)) (now : ℕ) (j : String)
      → lookup j (approve deadline id cr scopes now s).1.consent_requests ≡ (
          if id == j
          then some (resolved cr consent_approved now)
          else Option.map
              (swept (stored_grant scopes now) (edge_of cr) id now j)
              (lookup j s.consent_requests))
  unfolding approve upsert_consent settle
  approve_requests scopes now j =
      lookup-sweep_all (stored_grant scopes now) (edge_of cr) id now j _
      ∙ rw lookup-insert (elim (Bool-cases (id == j)) [
        | inl e ↦ rw (e, ← eq→path id j e) (ap some (swept_other _ _ id now _))
        | inr e ↦ rw e
      ])

  approve_consents :
      (scopes : Option (List String)) (now : ℕ)
      → (approve deadline id cr scopes now s).1.consents
        ≡ insert (edge_of cr) (stored_grant scopes now) s.consents
  unfolding approve upsert_consent settle
  approve_consents scopes now = consents-sweep _ _ id now _ _

  -- The tests that let a caller resolve the request.
  abbrev pub MayResolve : Type 0
  MayResolve =
      ((not (user_id == "") && not (cr.user_id == user_id)) ≡ false) × (cr.status ≡ consent_pending)

  resolve_eq :
      (yea : Bool) (scopes : Option (List String)) (now : ℕ)
      → MayResolve
      → resolve_consent_request deadline id user_id yea scopes now s ≡ (
          if not yea
          then (some (resolved cr consent_denied now), settle id (resolved cr consent_denied now) s)
          else (some (resolved cr consent_approved now), (approve deadline id cr scopes now s).1))
  unfolding resolve_consent_request approve
  resolve_eq yea scopes now (mine, pending) =
      rw (at, resolve_consent_request)
        (rw (mine, resolve_consent_request) (rw (path→eq cr.status consent_pending pending)))

  -- Approving a pending request of the caller stores the grant for its edge, marks the request
  -- approved, approves every other pending request of the same edge that the grant covers, and
  -- changes no other request and no other consent.
  pub resolve_consent_request_approves :
      (scopes : Option (List String)) (now : ℕ)
      → MayResolve
      → let r = resolve_consent_request deadline id user_id true scopes now s in
        (r.0 ≡ some (resolved cr consent_approved now))
        × ((j : String)
            → lookup j r.1.consent_requests ≡ (
                if id == j
                then some (resolved cr consent_approved now)
                else Option.map
                    (swept (stored_grant scopes now) (edge_of cr) id now j)
                    (lookup j s.consent_requests)))
        × (r.1.consents ≡ insert (edge_of cr) (stored_grant scopes now) s.consents)
  resolve_consent_request_approves scopes now may =
      rw (resolve_eq true scopes now may)
        (refl, approve_requests scopes now, approve_consents scopes now)

  -- Denying a pending request of the caller marks that request denied, and changes no other request
  -- and no consent.
  pub resolve_consent_request_denies :
      (scopes : Option (List String)) (now : ℕ)
      → MayResolve
      → let r = resolve_consent_request deadline id user_id false scopes now s in
        (r.0 ≡ some (resolved cr consent_denied now))
        × ((j : String)
            → lookup j r.1.consent_requests ≡ (
                if id == j
                then some (resolved cr consent_denied now)
                else lookup j s.consent_requests))
        × (r.1.consents ≡ s.consents)
  unfolding settle
  resolve_consent_request_denies scopes now may =
      rw (resolve_eq false scopes now may)
        (refl, (λ j. lookup-insert id j (resolved cr consent_denied now) s.consent_requests), refl)
