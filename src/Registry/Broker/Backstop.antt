-- ===== src/Registry/Broker/Backstop.antt =====
-- The read-time backstop, the opening of a request and the resolution of one, as handlers.
use spawnly.Prelude.{
  ℕ, String, ◌≡◌, refl, ◌∙◌, ap, inl, inr, Bool, true, false, ◌&&◌, some, ◌==◌, arith, Bool-cases,
  eq→path, if◌then◌else◌,
}
use spawnly.Prelude.Assoc.{lookup, lookup-insert}
use spawnly.Consent.{ConsentRequest, consent_pending, consent_approved}
use spawnly.Registry.Store.{Store}
use spawnly.Registry.World.{reply}
use spawnly.Registry.Requests.{
  find_consent, resolved, settle, approve_pending_consent_request, get_consent_request,
}
use spawnly.Registry.Requests.Index.{IsConsistent}
use spawnly.Registry.Requests.Consistency.{approve_pending_consent_request-IsConsistent}
use spawnly.Registry.Broker.{
  covers, or_same, backstop_pending_consent_request, poll_consent_request,
}

-- A pending request that a stored consent covers at the time of the check.
abbrev pub is_due : ConsentRequest → ℕ → Store → Bool
is_due cr checked_at s =
    cr.status == consent_pending
    && covers (find_consent cr.user_id cr.parent_type cr.child_type s) cr.scopes checked_at

-- The request as a poll returns it.
abbrev pub settled_view : ConsentRequest → ℕ → ℕ → Store → ConsentRequest
settled_view cr checked_at made_at s =
    if is_due cr checked_at s then resolved cr consent_approved made_at else cr

is_due_parts :
    (cr : ConsentRequest) (checked_at : ℕ) (s : Store)
    → is_due cr checked_at s ≡ true
    → ((cr.status == consent_pending) ≡ true)
      × (covers (find_consent cr.user_id cr.parent_type cr.child_type s) cr.scopes checked_at
          ≡ true)
is_due_parts cr checked_at s due = both (cr.status == consent_pending) _ due
  where
    both : (a b : Bool) → (a && b) ≡ true → (a ≡ true) × (b ≡ true)
    both a b h = ground arith

module _ (id : String) (checked_at made_at : ℕ) (s : Store) (cr : ConsentRequest)
    (at : lookup id s.consent_requests ≡ some cr) (named : cr.id ≡ id) where
  approves :
      is_due cr checked_at s ≡ true
      → approve_pending_consent_request id made_at s ≡ (
        some (resolved cr consent_approved made_at),
        settle id (resolved cr consent_approved made_at) s,
      )
  unfolding approve_pending_consent_request
  approves due =
      rw (at, approve_pending_consent_request)
        (rw ((is_due_parts cr checked_at s due).0, approve_pending_consent_request) refl)

  flips :
      is_due cr checked_at s ≡ true
      → backstop_pending_consent_request cr checked_at made_at s
        ≡ (resolved cr consent_approved made_at, settle id (resolved cr consent_approved made_at) s)
  unfolding backstop_pending_consent_request
  flips due =
      let (pending, covered) = is_due_parts cr checked_at s due in
      rw (pending, backstop_pending_consent_request)
        (rw (covered, backstop_pending_consent_request)
          (ap (or_same cr)
            (ap (λ x. approve_pending_consent_request x made_at s) named ∙ approves due)))

  waits :
      is_due cr checked_at s ≡ false
      → backstop_pending_consent_request cr checked_at made_at s ≡ (cr, s)
  unfolding backstop_pending_consent_request
  waits idle = elim (Bool-cases (cr.status == consent_pending)) [
    | inr a ↦ rw (a, backstop_pending_consent_request) refl
    | inl a ↦
        let b : covers (find_consent cr.user_id cr.parent_type cr.child_type s) cr.scopes checked_at
            ≡ false =
          rw a at idle in
        rw (a, backstop_pending_consent_request) (rw (b, backstop_pending_consent_request) refl)
  ]

  backstop-IsConsistent :
      IsConsistent s → IsConsistent (backstop_pending_consent_request cr checked_at made_at s).1
  backstop-IsConsistent h = elim (Bool-cases (is_due cr checked_at s)) [
    | inl due ↦
        let kept : IsConsistent (approve_pending_consent_request id made_at s).1 =
          approve_pending_consent_request-IsConsistent id made_at s h in
        rw (flips due) (rw (approves due) at kept)
    | inr idle ↦ rw (waits idle) h
  ]

  -- A caller that polls a known request is shown it approved if it is pending and a stored consent
  -- covers it, and as it is otherwise. The poll stores what it shows, changes no other request and no
  -- consent, and keeps the index of open requests in step.
  pub poll_consent_request_exact :
      IsConsistent s
      → let r = poll_consent_request true id checked_at made_at s in
        (r.0 ≡ reply 200 (settled_view cr checked_at made_at s))
        × ((j : String)
            → lookup j r.1.consent_requests ≡ (
                if id == j
                then some (settled_view cr checked_at made_at s)
                else lookup j s.consent_requests))
        × (r.1.consents ≡ s.consents)
        × IsConsistent r.1
  unfolding poll_consent_request get_consent_request settle
  poll_consent_request_exact h =
      rw (at, poll_consent_request)
        (elim (Bool-cases (is_due cr checked_at s)) [
          | inl due ↦ (
            rw (flips due, due) refl,
            (λ j.
                rw (flips due, due)
                  (lookup-insert id j (resolved cr consent_approved made_at) s.consent_requests)),
            rw (flips due) refl,
            backstop-IsConsistent h,
          )
          | inr idle ↦ (
            rw (waits idle, idle) refl,
            (λ j. rw (waits idle, idle) (stays j)),
            rw (waits idle) refl,
            backstop-IsConsistent h,
          )
        ])
    where
      stays :
          (j : String)
          → lookup j s.consent_requests ≡ (if id == j then some cr else lookup j s.consent_requests)
      stays j = elim (Bool-cases (id == j)) [
        | inl e ↦ rw (e, ← eq→path id j e) at
        | inr e ↦ rw e refl
      ]
