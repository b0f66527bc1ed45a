-- ===== src/Registry/Broker/Opening.antt =====
-- The opening of a consent request, for every state of the store.
use spawnly.Prelude.{
  ℕ, ◌≡◌, refl, ◌⊎◌, inl, inr, Bool, true, false, Option, none, some, Bool-cases, Option-cases,
  path→eq, if◌then◌else◌,
}
use spawnly.Prelude.Assoc.{lookup}
use spawnly.Consent.{ConsentRequest, consent_pending, consent_approved}
use spawnly.Registry.Store.{Store}
use spawnly.Registry.World.{reply}
use spawnly.Registry.Requests.{
  find_consent, create_consent_request, create_approved_consent_request, request_id, open_key_of,
}
use spawnly.Registry.Requests.Index.{IsConsistent}
use spawnly.Registry.Requests.Consistency.{
  create_consent_request-IsConsistent, create_approved_consent_request-IsConsistent,
}
use spawnly.Registry.Broker.{covers, Opened, open_request}

abbrev pub is_none {ℓ} : {A : Type ℓ} → Option A → Bool
is_none none = true
is_none (some x) = false

-- The outcome without a covering consent: a pending request for the same key, which is new, and told
-- to the webhook, exactly if there was no open one.
abbrev pub Asks : ConsentRequest → Store → Opened → Type 0
Asks cr s o =
    let created = is_none (lookup (open_key_of cr) s.open_requests) in
    (out : ConsentRequest) × (o.response ≡ reply (if created then 201 else 200) out)
    × (o.notified ≡ (if created then some out else none))
    × (out.status ≡ consent_pending)
    × (open_key_of out ≡ open_key_of cr)

-- The outcome with a covering consent.
abbrev pub Grants : Opened → Type 0
Grants o =
    (out : ConsentRequest) × (o.response ≡ reply 201 out)
    × (o.notified ≡ none)
    × (out.status ≡ consent_approved)

module _ (cr : ConsentRequest) (checked_at made_at : ℕ) (s : Store) (h : IsConsistent s) where
  asks :
      covers (find_consent cr.user_id cr.parent_type cr.child_type s) cr.scopes checked_at ≡ false
      → Asks cr s (open_request cr checked_at made_at s)
  unfolding open_request create_consent_request
  asks bare = elim (Option-cases (lookup (open_key_of cr) s.open_requests)) [
    | inl e ↦ rw (bare, open_request) (rw (e, create_consent_request) (_, refl, refl, refl, refl))
    | inr (id, e) ↦
        let (existing, found, pending, keyed) = h.open_is_pending (open_key_of cr) id e in
        rw (bare, open_request)
          (rw (e, create_consent_request)
            (rw (found, create_consent_request)
              (rw (path→eq existing.status consent_pending pending)
                (existing, refl, refl, pending, keyed))))
  ]

  keeps :
      lookup (request_id made_at) s.consent_requests ≡ none
      → IsConsistent (open_request cr checked_at made_at s).store
  unfolding open_request
  keeps unused =
      elim (Bool-cases
        (covers (find_consent cr.user_id cr.parent_type cr.child_type s) cr.scopes checked_at)) [
          | inl e ↦
              rw (e, open_request)
                (create_approved_consent_request-IsConsistent cr made_at s h unused)
          | inr e ↦ rw (e, open_request) (create_consent_request-IsConsistent cr made_at s h unused)
        ]

  -- Opening a request that a stored consent covers answers with an approved request and tells nobody;
  -- otherwise it answers with a pending request for the same key, which is new and told to the webhook
  -- exactly if none was open. If no request has the id of a new one, the index stays in step.
  pub open_request_exact :
      lookup (request_id made_at) s.consent_requests ≡ none
      → let o = open_request cr checked_at made_at s in
        let covered =
          covers (find_consent cr.user_id cr.parent_type cr.child_type s) cr.scopes checked_at in
        (((covered ≡ true) × Grants o) ⊎ ((covered ≡ false) × Asks cr s o)) × IsConsistent o.store
  unfolding open_request create_approved_consent_request
  open_request_exact unused = (
    elim (Bool-cases
        (covers (find_consent cr.user_id cr.parent_type cr.child_type s) cr.scopes checked_at)) [
          | inl e ↦ inl (e, rw (e, open_request) (_, refl, refl, refl))
          | inr e ↦ inr (e, asks e)
        ],
    keeps unused,
  )
