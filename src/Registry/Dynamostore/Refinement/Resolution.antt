-- ===== src/Registry/Dynamostore/Refinement/Resolution.antt =====
-- The resolution of one consent request, in internal/registry/dynamostore/store.go and in the in-memory
-- store: the flip of the status, and the marker that is freed after it.
use mathlib.Core.Option
use spawnly.Prelude.{
  ℕ, String, ◌≡◌, refl, sym, ap, ◌∙◌, subst, inl, inr, true, false, not, ◌&&◌, ◌||◌, Option, none,
  some, List, ◌==◌, ◌⧺◌, if◌then◌else◌, Bool-cases, Option-cases, eq_refl, eq→path, arith,
}
use spawnly.Prelude.Assoc.{lookup, insert, erase}
use spawnly.Consent.{ConsentRequest, consent_pending, consent_approved, consent_denied}
use spawnly.Registry.Store.{Store}
use spawnly.Registry.Requests
use spawnly.Registry.Requests.{open_key_of, resolved, settle}
use spawnly.Registry.Requests.Index.{IsConsistent}
use spawnly.Registry.Dynamostore.{
  Key, Item, DbError, Answer, Contents, Service, Works, returned, failed, condition_failed,
  set_item, then_or, is_cond_failed,
}
use spawnly.Registry.Dynamostore.Keys.{sk_meta}
use spawnly.Registry.Dynamostore.Requests.{
  creq_item, open_item, pivot, points_at, read_request, get_consent_request, free_open_marker,
  delete_open_marker_if,
}
use spawnly.Registry.Dynamostore.Resolution
use spawnly.Registry.Dynamostore.Resolution.{settled, resolve_recover, deny}
use spawnly.Registry.Dynamostore.Refinement.{
  markers, requests, tag, Represents, Simulates, Represents-set, Others-requests, Others-markers,
}
use spawnly.Registry.Dynamostore.Refinement.Reads.{read_request_lem}
use spawnly.Registry.Dynamostore.Refinement.Calls.{
  answers, get_item-Represents, stored-insert, stored-erase, then_or-returned, then_or-failed,
}

module _ (stamp : ℕ → String) {T : Type 0} (db : Service T) (contents : T → Contents)
    (works : Works db contents) where
  -- A marker that holds the id is freed.
  free_open_marker_lem :
      (t : T) (s : Store) (key id : String)
      → Represents stamp (contents t) s
      → lookup key s.open_requests ≡ some id
      → Represents stamp
          (contents (free_open_marker db key id t))
          (record s { open_requests = erase key s.open_requests })
  unfolding free_open_marker delete_open_marker_if
  free_open_marker_lem t s key id r e =
      let at : Key = (tag markers ⧺ key, sk_meta) in
      let marked : contents t at ≡ some (open_item key id) =
        r markers key ∙ ap (Option.map (open_item key)) e in
      let m = db.delete_item at (points_at id) t in
      let (done, left) =
        works.deletes at (points_at id) t (ap (points_at id) marked ∙ eq_refl id) in
      let s' : Store = record s { open_requests = erase key s.open_requests } in
      subst (λ c. Represents stamp c s')
        (sym (
          ap (λ p. contents p.1)
            (then_or-returned m _ (λ _ s1. (returned tt, s1)) (contents t at) done)
          ∙ left))
        (Represents-set stamp (contents t) s s' markers key none r
          (stored-erase open_item key s.open_requests) (Others-markers stamp s _))

  module _ (t : T) (s : Store) (r : Represents stamp (contents t) s) (id : String)
      (cr : ConsentRequest) (at : lookup id s.consent_requests ≡ some cr) (user_id status : String)
      (now : ℕ) where
    -- A pending request is flipped and its marker freed: `settle`.
    pub pivot_lem :
        (fails : DbError → T → Answer (Option ConsentRequest) × T)
        → lookup (open_key_of cr) s.open_requests ≡ some id
        → (cr.status == consent_pending) ≡ true
        → (user_id == "" || cr.user_id == user_id) ≡ true
        → let cr' = resolved cr status now in
          Simulates stamp contents
            (then_or
              (db.update_item (pivot id user_id status now) t)
              fails
              (λ _ s1. (returned (some cr'), free_open_marker db (open_key_of cr) id s1)))
            (some cr', settle id cr' s)
    unfolding settle
    pivot_lem fails marked pending own =
        let cr' = resolved cr status now in
        let u = pivot id user_id status now in
        let key : Key = (tag requests ⧺ id, sk_meta) in
        let m = db.update_item u t in
        let here : contents t key ≡ some (creq_item stamp cr) =
          r requests id ∙ ap (Option.map (creq_item stamp)) at in
        let (done, left) = works.updates u t (ap u.test here ∙ rw (pending, own) refl) in
        let flipped : Store = record s { consent_requests = insert id cr' s.consent_requests } in
        let r1 : Represents stamp (contents m.1) flipped =
          subst (λ c. Represents stamp c flipped)
            (sym (left ∙ ap (λ i. set_item key (some (u.change i)) (contents t)) here))
            (Represents-set stamp (contents t) s flipped requests id (some (creq_item stamp cr')) r
              (stored-insert (λ _. creq_item stamp) id cr' s.consent_requests)
              (Others-requests stamp s _)) in
        answers stamp contents (then_or m fails _) (free_open_marker db (open_key_of cr) id m.1)
          (some cr') _ (settle id cr' s)
          (then_or-returned m fails
            (λ _ s1. (returned (some cr'), free_open_marker db (open_key_of cr) id s1))
            (u.change (contents t key)) done)
          refl (free_open_marker_lem m.1 flipped (open_key_of cr) id r1 marked)

    -- A request that is not pending stays, and is what the call answers.
    pub resolve_recover_lem :
        (cr.status == consent_pending) ≡ false
        → Simulates stamp contents (resolve_recover db id t) (some cr, s)
    unfolding resolve_recover read_request
    resolve_recover_lem over =
        answers stamp contents (resolve_recover db id t)
          (db.get_item true (tag requests ⧺ id, sk_meta) t).1 (some cr) _ s
          (rw (read_request_lem stamp db contents works t s r true id tt, at, over) refl) refl
          (get_item-Represents stamp db contents works t s r true requests id)

  recover : String → DbError → T → Answer (Option ConsentRequest) × T
  recover id e s = if is_cond_failed e then resolve_recover db id s else (failed e, s)

  -- A flip that its condition refuses.
  stays_lem :
      (t : T) (s : Store) (id : String) (cr : ConsentRequest) (user_id status : String) (now : ℕ)
      (k : Item → T → Answer (Option ConsentRequest) × T)
      → Represents stamp (contents t) s
      → lookup id s.consent_requests ≡ some cr
      → (cr.status == consent_pending) ≡ false
      → Simulates stamp contents
          (then_or (db.update_item (pivot id user_id status now) t) (recover id) k)
          (some cr, s)
  unfolding recover is_cond_failed
  stays_lem t s id cr user_id status now k r at over =
      let u = pivot id user_id status now in
      let m = db.update_item u t in
      let here : contents t (tag requests ⧺ id, sk_meta) ≡ some (creq_item stamp cr) =
        r requests id ∙ ap (Option.map (creq_item stamp)) at in
      let (refused, kept) = works.update_refused u t (ap u.test here ∙ rw over refl) in
      subst (λ q. Simulates stamp contents q (some cr, s))
        (sym (then_or-failed m _ k condition_failed refused))
        (resolve_recover_lem m.1 s (subst (λ c. Represents stamp c s) (sym kept) r) id cr at user_id
          status now over)

  module _ (s : Store) (id : String) (now : ℕ) (consistent : IsConsistent s) where
    deny_lem :
        (cr : ConsentRequest) (user_id : String) (t : T)
        → Represents stamp (contents t) s
        → lookup id s.consent_requests ≡ some cr
        → (not (user_id == "") && not (cr.user_id == user_id)) ≡ false
        → let denied = resolved cr consent_denied now in
          Simulates stamp contents (deny db id user_id cr now t) (
            if not (cr.status == consent_pending)
            then (some cr, s)
            else (some denied, settle id denied s))
    unfolding deny recover is_cond_failed
    deny_lem cr user_id t r at own = elim (Bool-cases (cr.status == consent_pending)) [
      | inl pending ↦ rw pending (
          pivot_lem t s r id cr at user_id consent_denied now _
            (consistent.pending_is_open id cr at (eq→path cr.status consent_pending pending))
            pending (ground arith))
      | inr over ↦ rw over (stays_lem t s id cr user_id consent_denied now _ r at over)
    ]

    -- A denial answers what the in-memory store answers on every branch (no such request, a request of
    -- another user, one that is not pending, one that is), and leaves a table that stands for its next
    -- state, if the markers of that store agree with its requests and the replicas of the table have
    -- caught up when the call begins.
    pub denial_refines :
        (deadline : String → ℕ → Option ℕ) (user_id random : String) (scopes : Option (List String))
        (t : T)
        → works.Settled t
        → Represents stamp (contents t) s
        → Simulates stamp contents
            (Resolution.resolve_consent_request db deadline id user_id false scopes now random t)
            (Requests.resolve_consent_request deadline id user_id false scopes now s)
    unfolding Resolution.resolve_consent_request Requests.resolve_consent_request
        get_consent_request
    denial_refines deadline user_id random scopes t caught_up r =
        let t1 = (db.get_item false (tag requests ⧺ id, sk_meta) t).1 in
        let r1 = get_item-Represents stamp db contents works t s r false requests id in
        let read = read_request_lem stamp db contents works t s r false id caught_up in
        elim (Option-cases (lookup id s.consent_requests)) [
          | inl e ↦ rw (read, e, Requests.resolve_consent_request) (refl, r1)
          | inr (cr, e) ↦
              rw (read, e, Requests.resolve_consent_request)
                (elim (Bool-cases (not (user_id == "") && not (cr.user_id == user_id))) [
                  | inl foreign ↦ rw foreign (refl, r1)
                  | inr own ↦ rw own (deny_lem cr user_id t1 r1 e own)
                ])
        ]

    -- The approval by the backstop answers what the in-memory store answers, for a request that is
    -- missing, settled or pending, and leaves a table that stands for its next state, if the markers of
    -- that store agree with its requests and the replicas of the table have caught up when it begins.
    pub backstop_refines :
        (t : T)
        → works.Settled t
        → Represents stamp (contents t) s
        → Simulates stamp contents
            (Resolution.approve_pending_consent_request db id now t)
            (Requests.approve_pending_consent_request id now s)
    unfolding Resolution.approve_pending_consent_request Requests.approve_pending_consent_request
        get_consent_request recover is_cond_failed
    backstop_refines t caught_up r =
        let t1 = (db.get_item false (tag requests ⧺ id, sk_meta) t).1 in
        let r1 = get_item-Represents stamp db contents works t s r false requests id in
        let read = read_request_lem stamp db contents works t s r false id caught_up in
        elim (Option-cases (lookup id s.consent_requests)) [
          | inl e ↦ rw (read, e, Requests.approve_pending_consent_request) (refl, r1)
          | inr (cr, e) ↦
              rw (read, e, Requests.approve_pending_consent_request)
                (elim (Bool-cases (cr.status == consent_pending)) [
                  | inl pending ↦ rw pending (
                      pivot_lem t1 s r1 id cr e "" consent_approved now _
                        (consistent.pending_is_open id cr e
                          (eq→path cr.status consent_pending pending))
                        pending refl)
                  | inr over ↦ rw over (refl, r1)
                ])
        ]
