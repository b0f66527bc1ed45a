-- ===== src/Registry/Dynamostore/Interleaving/Resolving.antt =====
-- internal/registry/dynamostore/store.go: denials and the backstop on a shared table, and requests that are
-- approved from the start.
use mathlib.Core.List.{Memᴰ}
use spawnly.Prelude.{
  ℕ, String, ◌≡◌, refl, ap, ◌∙◌, inl, inr, Bool, true, false, Option, none, some, List, [], ◌∷◌,
  ◌==◌, if◌then◌else◌, Bool-cases, Option-cases,
}
use spawnly.Consent.{ConsentRequest, consent_pending, consent_approved}
use spawnly.Registry.Requests.{open_key_of, resolved}
use spawnly.Registry.Dynamostore.{
  Answer, Service, returned, failed, set_item, then_, then_or, is_cond_failed,
}
use spawnly.Registry.Dynamostore.Keys.{sk_meta, creq_pk, gen_id}
use spawnly.Registry.Dynamostore.Requests.{
  creq_item, pivot, read_request, get_consent_request, free_open_marker,
  create_approved_consent_request,
}
use spawnly.Registry.Dynamostore.Resolution.{resolve_recover, approve_pending_consent_request}
use spawnly.Registry.Dynamostore.Interleaving.{System}
use spawnly.Registry.Dynamostore.Interleaving.OpenKeys.{Keeps}
use spawnly.Registry.Dynamostore.Interleaving.Sharing.{
  Company, opens_resolved, resolves, frees, Fresh, Shares,
}
use spawnly.Registry.Dynamostore.Interleaving.Running.{Holds-Moves}
use spawnly.Registry.Dynamostore.Interleaving.Accesses.{Holds-opens_resolved}
use spawnly.Registry.Dynamostore.Interleaving.Calls.{
  then_or_cases, At, read_request_lem, Found-Keeps, write_lem, pivot_lem, free_open_marker_lem,
}
use spawnly.Registry.Dynamostore.Interleaving.Opening.{End, At-End}

module _ (stamp : ℕ → String) (company : Company) {T : Type 0} (db : Service T)
    (system : T → System) (shares : Shares stamp company db system) (s0 : System) where
  abbrev Ended {ℓ} : {A : Type ℓ} → Answer A × T → Type 0
  Ended m = End stamp company db system shares s0 m

  abbrev On : T → Type 0
  On = At stamp company db system shares s0 [] []

  read_lem : (b : Bool) (id : String) (t : T) → On t → On (read_request db b id t).1
  read_lem b id t h =
      let (between, found) = read_request_lem stamp company db system shares s0 b id t in
      Holds-Moves stamp company s0 [] [] (system t) (system (read_request db b id t).1) between.0 h

  pub resolve_recover_lem : (id : String) (t : T) → On t → Ended (resolve_recover db id t)
  unfolding resolve_recover
  resolve_recover_lem id t h =
      let m = read_request db true id t in
      then_or_cases Ended m _ _ (λ e f. read_lem true id t h) (λ o f. read_lem true id t h)

  -- A pivot, and the marker that is freed after it.
  pub settle_lem :
      (id user_id status key : String) (now : ℕ) (t : T) (answer : Option ConsentRequest)
      → company.may (resolves id user_id status)
      → company.may (frees key id)
      → On t
      → Keeps id key (system t).contents
      → (status == consent_pending) ≡ false
      → Ended (
          then_or
            (db.update_item (pivot id user_id status now) t)
            (λ e s1. if is_cond_failed e then resolve_recover db id s1 else (failed e, s1))
            (λ _ s1. (returned answer, free_open_marker db key id s1)))
  settle_lem id user_id status key now t answer may may_free h kept over =
      let m = db.update_item (pivot id user_id status now) t in
      let (left, owed) =
        pivot_lem stamp company db system shares s0 [] [] id user_id status key now t may h kept
          over in
      then_or_cases Ended m _ _
        (λ e f. elim (Bool-cases (is_cond_failed e)) [
          | inl c ↦ rw c (resolve_recover_lem id m.1 left)
          | inr c ↦ rw c left
        ])
        (λ a f.
          let due : List (String × String) = (key, id) ∷ [] in
          At-End stamp company db system shares s0 [] due (free_open_marker db key id m.1) (
            free_open_marker_lem stamp company db system shares s0 [] due key id m.1 may_free
              (owed a f) (Memᴰ.head refl)))

  -- What is done with a request that was read.
  pub found_lem :
      (id : String) (t : T) (k : Option ConsentRequest → T → Answer (Option ConsentRequest) × T)
      → On t
      → ((t1 : T) → On t1 → Ended (k none t1))
      → ((cr : ConsentRequest) (t1 : T)
          → On t1
          → Keeps id (open_key_of cr) (system t1).contents
          → Ended (k (some cr) t1))
      → Ended (then_ (get_consent_request db id t) k)
  unfolding get_consent_request
  found_lem id t k h nothing something =
      let m = read_request db false id t in
      let (between, found) = read_request_lem stamp company db system shares s0 false id t in
      let left = read_lem false id t h in
      then_or_cases Ended m _ k (λ e f. left)
        (λ o f. elim (Option-cases o) [
          | inl e ↦ rw e (nothing m.1 left)
          | inr (cr, e) ↦ rw e (
              something cr m.1 left (
                Found-Keeps stamp company db system shares s0 false id (system m.1) cr
                  (found (some cr) (f ∙ ap returned e))))
        ])

  pub backstop_lem :
      (id : String) (now : ℕ) (t : T)
      → company.may (resolves id "" consent_approved)
      → ((key : String) → company.may (frees key id))
      → On t
      → Ended (approve_pending_consent_request db id now t)
  unfolding approve_pending_consent_request
  backstop_lem id now t may may_free h =
      found_lem id t _ h (λ t1 h1. h1)
        (λ cr t1 h1 kept. elim (Bool-cases (cr.status == consent_pending)) [
          | inr over ↦ rw over h1
          | inl pending ↦ rw pending (
              settle_lem id "" consent_approved (open_key_of cr) now t1
                (some (resolved cr consent_approved now)) may (may_free (open_key_of cr)) h1 kept
                refl)
        ])

  pub create_approved_lem :
      (req : ConsentRequest) (now : ℕ) (random : String) (t : T)
      → company.own (gen_id "creq" now random)
      → company.may (
          opens_resolved (record req {
            id = gen_id "creq" now random;
            status = consent_approved;
            created_at = now;
            resolved_at = some now;
          }))
      → On t
      → Fresh company (system t)
      → Ended (create_approved_consent_request db stamp req now random t)
  unfolding create_approved_consent_request
  create_approved_lem req now random t mine may h fresh =
      let cr : ConsentRequest = record req {
        id = gen_id "creq" now random;
        status = consent_approved;
        created_at = now;
        resolved_at = some now;
      } in
      let m = db.put_item (creq_item stamp cr) t in
      let (either, done) =
        write_lem stamp company db system shares s0 [] [] m t (λ c. true)
          (set_item (creq_pk cr.id, sk_meta) (some (creq_item stamp cr))) [] h
          (shares.puts (creq_item stamp cr) t)
          (λ u b at won.
            Holds-opens_resolved stamp company s0 [] [] u at cr may (b.1 fresh cr.id mine) refl) in
      let left : On m.1 = elim either [ inl a ↦ a | inr a ↦ a ] in
      then_or_cases Ended m _ _ (λ e f. left) (λ a f. left)
