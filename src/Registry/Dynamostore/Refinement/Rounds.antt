-- ===== src/Registry/Dynamostore/Refinement/Rounds.antt =====
-- The rounds in which internal/registry/dynamostore/store.go opens a consent request.
use mathlib.Core.Option
use spawnly.Prelude.{
  ℕ, suc, ◌<◌, String, ◌≡◌, refl, sym, ap, ◌∙◌, subst, inl, inr, Bool, true, Option, none, some,
  ◌==◌, ◌⧺◌, Bool-cases, Option-cases, eq_refl, arith,
}
use spawnly.Prelude.Assoc.{lookup, insert, erase, lookup-erase, lookup-insert-erase}
use spawnly.Consent.{ConsentRequest, consent_pending}
use spawnly.Registry.Requests.{open_key_of}
use spawnly.Registry.Store.{Store}
use spawnly.Registry.Dynamostore.{
  Key, Contents, Service, Works, returned, cancelled, set_item, then_, is_txn_cond_failed,
}
use spawnly.Registry.Dynamostore.Keys.{sk_meta, gen_id}
use spawnly.Registry.Dynamostore.Requests.{
  creq_item, open_item, new_request, opening, create_rounds, create_consent_request,
  read_open_request, delete_open_marker_if, points_at, after_marker, txn_conflict_budget,
}
use spawnly.Registry.Dynamostore.Refinement.{
  Family, requests, markers, tag, view, Represents, Simulates, Represents-set, Others-requests,
  Others-markers,
}
use spawnly.Registry.Dynamostore.Refinement.Calls.{
  get_item-then_, get_item-Represents, stored-insert, stored-erase, answers, then_or-returned,
  then_or-failed,
}
use spawnly.Registry.Dynamostore.Refinement.Reads.{read_request_lem}
use spawnly.Registry.Dynamostore.Refinement.Opening.{
  opened, without_marker, open_as, settle_as, open_as-some,
}

-- The request that a round makes, with the time and the random bytes of that round.
abbrev pub made : (ℕ → ℕ) → (ℕ → String) → ConsentRequest → ℕ → ConsentRequest
made time random req k = new_request req (gen_id "creq" (time k) (random k)) (time k)

abbrev pub paired : ConsentRequest × Bool × Store → (ConsentRequest × Bool) × Store
paired p = ((p.0, p.1), p.2)

module _ (stamp : ℕ → String) {T : Type 0} (db : Service T) (contents : T → Contents)
    (works : Works db contents) (time : ℕ → ℕ) (random : ℕ → String) (req : ConsentRequest) where
  abbrev key : String
  key = open_key_of req

  abbrev fresh_at : ℕ → ConsentRequest
  fresh_at = made time random req

  -- No marker: the first round opens the request.
  unmarked :
      (n : ℕ) (t : T) (s : Store)
      → Represents stamp (contents t) s
      → lookup key s.open_requests ≡ none
      → Simulates stamp contents
          (create_rounds db stamp time random (suc n) req t)
          ((fresh_at n, true), opened s (fresh_at n))
  unfolding create_rounds
  unmarked n t s r e =
      let fresh = fresh_at n in
      let marked : Store = record s { open_requests = insert key fresh.id s.open_requests } in
      let bare : contents t (tag markers ⧺ key, sk_meta) ≡ none =
        r markers key ∙ ap (Option.map (open_item key)) e in
      let m = db.transact_write_items (opening stamp key fresh) t in
      let (done, left) = works.transacts (opening stamp key fresh) t (rw bare refl) in
      let r1 =
        Represents-set stamp (contents t) s marked markers key (some (open_item key fresh.id)) r
          (stored-insert open_item key fresh.id s.open_requests) (Others-markers stamp s _) in
      let r2 =
        Represents-set stamp
          (set_item (tag markers ⧺ key, sk_meta) (some (open_item key fresh.id)) (contents t))
          marked (opened s fresh) requests fresh.id (some (creq_item stamp fresh)) r1
          (stored-insert (λ _. creq_item stamp) fresh.id fresh s.consent_requests)
          (Others-requests stamp marked _) in
      answers stamp contents (create_rounds db stamp time random (suc n) req t) m.1 (fresh, true) _
        (opened s fresh) (then_or-returned m _ _ tt done) left r2

  -- What a marker that is there leads to.
  read_open_request_lem :
      (t : T) (s : Store) (id : String)
      → Represents stamp (contents t) s
      → lookup key s.open_requests ≡ some id
      → (t' : T) × (read_open_request db key t ≡ (returned (lookup id s.consent_requests, id), t'))
        × Represents stamp (contents t') s
  unfolding read_open_request
  read_open_request_lem t s id r e =
      let t1 = (db.get_item true (tag markers ⧺ key, sk_meta) t).1 in
      let r1 = get_item-Represents stamp db contents works t s r true markers key in
      let t2 = (db.get_item true (tag requests ⧺ id, sk_meta) t1).1 in
      (
        t2,
        get_item-then_ stamp db contents works t s r true markers key _ tt
            ∙ rw e (
                ap (λ m. then_ m (λ cr s3. (returned (cr, id), s3)))
                  (read_request_lem stamp db contents works t1 s r1 true id tt)),
        get_item-Represents stamp db contents works t1 s r1 true requests id,
      )

  -- A marker that stands makes the transaction fail; what follows reads it.
  marked-step :
      (n : ℕ) (t : T) (s : Store) (id : String)
      → Represents stamp (contents t) s
      → lookup key s.open_requests ≡ some id
      → (t' : T) × (create_rounds db stamp time random (suc n) req t
          ≡ after_marker db key
              (create_rounds db stamp time random n req)
              (lookup id s.consent_requests, id)
              t')
        × Represents stamp (contents t') s
  unfolding create_rounds is_txn_cond_failed
  marked-step n t s id r e =
      let marked : contents t (tag markers ⧺ key, sk_meta) ≡ some (open_item key id) =
        r markers key ∙ ap (Option.map (open_item key)) e in
      let ws = opening stamp key (fresh_at n) in
      let m = db.transact_write_items ws t in
      let (reasons, refused, has, kept) = works.transact_refused ws t (rw marked refl) in
      let r1 = subst (λ c. Represents stamp c s) (sym kept) r in
      let (t', reads, r') = read_open_request_lem m.1 s id r1 e in
      (
        t',
        then_or-failed m _ _ (cancelled reasons) refused
            ∙ rw has (
                ap (λ q. then_ q (after_marker db key (create_rounds db stamp time random n req)))
                  reads),
        r',
      )

  -- Erasing the marker first makes no difference to the entries.
  opened-erase :
      (s : Store) (cr : ConsentRequest) (g : Family) (x : String)
      → view stamp (opened (without_marker (open_key_of cr) s) cr) g x
        ≡ view stamp (opened s cr) g x
  opened-erase s cr markers x =
      ap (Option.map (open_item x)) (lookup-insert-erase (open_key_of cr) x cr.id s.open_requests)
  opened-erase s cr _ x = refl

  stale :
      (n : ℕ) (t : T) (s : Store) (id : String)
      → Represents stamp (contents t) s
      → lookup key s.open_requests ≡ some id
      → Simulates stamp contents
          (then_
            (delete_open_marker_if db key id t)
            (λ _ s1. create_rounds db stamp time random (suc n) req s1))
          ((fresh_at n, true), opened s (fresh_at n))
  unfolding delete_open_marker_if
  stale n t s id r e =
      let at : Key = (tag markers ⧺ key, sk_meta) in
      let marked : contents t at ≡ some (open_item key id) =
        r markers key ∙ ap (Option.map (open_item key)) e in
      let m = db.delete_item at (points_at id) t in
      let (done, left) =
        works.deletes at (points_at id) t (ap (points_at id) marked ∙ eq_refl id) in
      let r1 =
        subst (λ c. Represents stamp c (without_marker key s)) (sym left)
          (Represents-set stamp (contents t) s (without_marker key s) markers key none r
            (stored-erase open_item key s.open_requests) (Others-markers stamp s _)) in
      let gone : lookup key (erase key s.open_requests) ≡ none =
        rw (lookup-erase, eq_refl key) refl in
      let (answer, r2) = unmarked n m.1 (without_marker key s) r1 gone in
      subst (λ q. Simulates stamp contents q ((fresh_at n, true), opened s (fresh_at n)))
        (sym (
          ap (λ q. then_ q (λ _ s1. create_rounds db stamp time random (suc n) req s1))
            (then_or-returned m _ (λ _ s1. (returned tt, s1)) (contents t at) done)))
        (answer, λ g x. r2 g x ∙ opened-erase s (fresh_at n) g x)

  stale_marker :
      (n : ℕ) (t : T) (s : Store) (id : String) (o : Option ConsentRequest)
      → Represents stamp (contents t) s
      → lookup key s.open_requests ≡ some id
      → let again = create_rounds db stamp time random (suc n) req in
        Simulates stamp contents
          (after_marker db key again (o, id) t)
          (paired (settle_as (fresh_at n) s o))
  unfolding after_marker
  stale_marker n t s id none r e = stale n t s id r e
  stale_marker n t s id (some cr) r e = elim (Bool-cases (cr.status == consent_pending)) [
    | inl pending ↦ rw pending (refl, r)
    | inr over ↦ rw over (stale n t s id r e)
  ]

  -- `CreateConsentRequest` returns within its budget of rounds, and it does what the in-memory store does
  -- with a request of the id of one of these rounds: it opens the request, or answers the pending one of
  -- the same key and changes nothing, and also where the marker is stale.
  pub create_consent_request_refines :
      (t : T) (s : Store)
      → Represents stamp (contents t) s
      → (k : ℕ) × (k < txn_conflict_budget)
        × Simulates stamp contents
            (create_consent_request db stamp time random req t)
            (paired (open_as (made time random req k) s))
  unfolding create_consent_request
  create_consent_request_refines t s r = elim (Option-cases (lookup key s.open_requests)) [
    | inl e ↦ (4, omega arith, rw (e, open_as) (unmarked 4 t s r e))
    | inr (id, e) ↦
        let (t', step, r') = marked-step 4 t s id r e in
        (
          3,
          omega arith,
          subst
              (λ p.
                Simulates stamp contents (create_consent_request db stamp time random req t)
                  (paired p))
              (sym (open_as-some (fresh_at 3) s id e))
              (subst
                (λ q.
                  Simulates stamp contents q
                    (paired (settle_as (fresh_at 3) s (lookup id s.consent_requests))))
                (sym step) (stale_marker 3 t' s id (lookup id s.consent_requests) r' e)),
        )
  ]
