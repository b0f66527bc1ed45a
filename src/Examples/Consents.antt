-- ===== src/Examples/Consents.antt =====
-- The theorems on consents and consent requests.
use mathlib.Core.Option
use spawnly.Prelude.{String, ◌≡◌, refl, ◌↔◌, true, false, none, some, [], ◌∷◌, ◌==◌, if◌then◌else◌}
use spawnly.Prelude.Assoc.{lookup, insert}
use spawnly.Prelude.Text.{decimal, digits, spell}
use spawnly.Consent.{evaluate_consent, is_expired, consent_approved}
use spawnly.Consent.Coverage.{Covers, evaluate_consent_exact, evaluate_consent_empty_scope}
use spawnly.Registry.Store.{Store}
use spawnly.Registry.World.{reply}
use spawnly.Registry.Requests.{
  create_consent_request, resolve_consent_request, request_id, resolved, edge_of,
}
use spawnly.Registry.Requests.Index.{IsConsistent}
use spawnly.Registry.Requests.Consistency.{
  create_consent_request-IsConsistent, resolve_consent_request-IsConsistent,
}
use spawnly.Registry.Requests.Sweep.{swept}
use spawnly.Registry.Requests.Resolution.{stored_grant, resolve_consent_request_approves}
use spawnly.Registry.Broker.{poll_consent_request}
use spawnly.Registry.Broker.Backstop.{settled_view, poll_consent_request_exact}
use spawnly.Examples.Data.{deadline, store, asked, consent}

evaluate_consent_exact_example : ((evaluate_consent consent ("read" ∷ []) 10).granted ≡ true) ↔ (
    (consent.revoked ≡ false)
    × (is_expired consent.expires_at 10 ≡ false)
    × Covers consent.scopes ("read" ∷ []))
evaluate_consent_exact_example = evaluate_consent_exact consent ("read" ∷ []) 10 (refl, tt)

evaluate_consent_empty_scope_example :
    (evaluate_consent consent ("" ∷ "delete" ∷ []) 10).granted ≡ true
evaluate_consent_empty_scope_example =
    evaluate_consent_empty_scope consent ("delete" ∷ []) 10 refl refl refl

-- The store without requests, and with the one that is asked first.
abbrev quiet : Store
quiet = record store { consent_requests = []; open_requests = [] }

quiet-IsConsistent : IsConsistent quiet
unfolding lookup
quiet-IsConsistent = record {
  named = λ id cr h. cc h;
  open_is_pending = λ key id h. cc h;
  pending_is_open = λ id cr h p. cc h;
}

abbrev waiting : Store
waiting = (create_consent_request asked 1 quiet).2

waiting-IsConsistent : IsConsistent waiting
unfolding lookup
waiting-IsConsistent = create_consent_request-IsConsistent asked 1 quiet quiet-IsConsistent refl

is_asked : lookup "creq-1" waiting.consent_requests ≡ some asked
unfolding create_consent_request request_id decimal digits spell lookup insert
is_asked = refl

resolve_consent_request-IsConsistent_example :
    IsConsistent
      (resolve_consent_request deadline "creq-1" "alice" true (some ("read" ∷ [])) 7 waiting).1
resolve_consent_request-IsConsistent_example =
    resolve_consent_request-IsConsistent deadline "creq-1" "alice" true (some ("read" ∷ [])) 7
      waiting waiting-IsConsistent

resolve_consent_request_approves_example :
    let r = resolve_consent_request deadline "creq-1" "alice" true none 7 waiting in
    let granted = stored_grant deadline "creq-1" "alice" asked waiting is_asked none 7 in
    (r.0 ≡ some (resolved asked consent_approved 7))
    × ((j : String)
        → lookup j r.1.consent_requests ≡ (
            if "creq-1" == j
            then some (resolved asked consent_approved 7)
            else Option.map
                (swept granted (edge_of asked) "creq-1" 7 j)
                (lookup j waiting.consent_requests)))
    × (r.1.consents ≡ insert (edge_of asked) granted waiting.consents)
resolve_consent_request_approves_example =
    resolve_consent_request_approves deadline "creq-1" "alice" asked waiting is_asked none 7
      (refl, refl)

poll_consent_request_exact_example :
    let r = poll_consent_request true "creq-1" 8 9 waiting in
    (r.0 ≡ reply 200 (settled_view asked 8 9 waiting))
    × ((j : String)
        → lookup j r.1.consent_requests ≡ (
            if "creq-1" == j
            then some (settled_view asked 8 9 waiting)
            else lookup j waiting.consent_requests))
    × (r.1.consents ≡ waiting.consents)
    × IsConsistent r.1
poll_consent_request_exact_example =
    poll_consent_request_exact "creq-1" 8 9 waiting asked is_asked refl waiting-IsConsistent
