-- ===== src/Registry/Dynamostore/Refinement/Opening.antt =====
-- The opening of a consent request, in internal/registry/dynamostore/store.go and in the in-memory
-- store: what the in-memory store does, whatever the id of the new request.

use spawnly.Prelude.{
  ℕ, String, ◌≡◌, refl, Bool, true, false, Option, none, some, ◌==◌, if◌then◌else◌,
}
use spawnly.Prelude.Assoc.{lookup, insert, erase}
use spawnly.Consent.{ConsentRequest, consent_pending}
use spawnly.Registry.Requests
use spawnly.Registry.Requests.{open_key_of, request_id}
use spawnly.Registry.Store.{Store}
use spawnly.Registry.Dynamostore.Requests.{new_request}

abbrev pub opened : Store → ConsentRequest → Store
opened s cr = record s {
  consent_requests = insert cr.id cr s.consent_requests;
  open_requests = insert (open_key_of cr) cr.id s.open_requests;
}

-- What `createConsentRequest` does with a new request, whatever its id.
abbrev pub open_as : ConsentRequest → Store → ConsentRequest × Bool × Store
open_as cr s =
    let key = open_key_of cr in
    let fresh : ConsentRequest × Bool × Store = (
      cr,
      true,
      record s {
        consent_requests = insert cr.id cr s.consent_requests;
        open_requests = insert key cr.id s.open_requests;
      },
    ) in
    elim (lookup key s.open_requests) [
      | none ↦ fresh
      | some id ↦ elim (lookup id s.consent_requests) [
        | none ↦ fresh
        | some existing ↦ if existing.status == consent_pending then (existing, false, s) else fresh
      ]
    ]

-- What it does where a marker leads to these requests.
abbrev pub settle_as :
    ConsentRequest → Store → Option ConsentRequest → ConsentRequest × Bool × Store
settle_as cr s o =
    let fresh : ConsentRequest × Bool × Store = (cr, true, opened s cr) in
    elim o [
      | none ↦ fresh
      | some existing ↦ if existing.status == consent_pending then (existing, false, s) else fresh
    ]

pub open_as-some :
    (cr : ConsentRequest) (s : Store) (id : String)
    → lookup (open_key_of cr) s.open_requests ≡ some id
    → open_as cr s ≡ settle_as cr s (lookup id s.consent_requests)
open_as-some cr s id e = rw (e, open_as) refl

create_consent_request-open_as :
    (req : ConsentRequest) (now : ℕ) (s : Store)
    → Requests.create_consent_request req now s ≡ open_as (new_request req (request_id now) now) s
unfolding Requests.create_consent_request
create_consent_request-open_as req now s = refl

abbrev pub without_marker : String → Store → Store
without_marker key s = record s { open_requests = erase key s.open_requests }
