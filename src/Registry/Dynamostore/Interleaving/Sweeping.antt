-- ===== src/Registry/Dynamostore/Interleaving/Sweeping.antt =====
-- internal/registry/dynamostore/store.go: an approval, and its sweep, on a shared table.
use mathlib.Core.List.{Memᴰ}
use spawnly.Prelude.{
  ℕ, String, ◌≡◌, refl, sym, ap, ◌∙◌, subst, inl, inr, Bool, true, not, ◌||◌, none, some, List, [],
  ◌∷◌, ◌==◌, ◌⧺◌, Bool-cases,
}
use spawnly.Consent.{
  ConsentRecord, ConsentRequest, consent_pending, consent_approved, evaluate_consent,
}
use spawnly.Registry.Requests.{open_key_of}
use spawnly.Registry.Dynamostore.{
  Item, Answer, Query, Service, Contents, Key, returned, failed, gsi2, set_item, key_of,
  is_cond_failed,
}
use spawnly.Registry.Dynamostore.Keys.{sk_meta, creq_pk, open_pk}
use spawnly.Registry.Dynamostore.Consents.{edge_key_of}
use spawnly.Registry.Dynamostore.Requests.{
  pivot, points_at, requests_by_edge, free_open_marker, delete_open_marker_if,
}
use spawnly.Registry.Dynamostore.Resolution.{sweep_one, sweep_all, sweep}
use spawnly.Registry.Dynamostore.Interleaving.{System, Reach, request_of, apply_update}
use spawnly.Registry.Dynamostore.Interleaving.Keeping.{Pairs}
use spawnly.Registry.Dynamostore.Interleaving.Readings.{
  read_items-Memᴰ, pending_request, Answer-cases,
}
use spawnly.Registry.Dynamostore.Interleaving.Writes.{request_at-marker}
use spawnly.Registry.Dynamostore.Interleaving.OpenKeys.{
  Keeps, Keeps-same, Keeps-resolved, Reach-Keeps,
}
use spawnly.Registry.Dynamostore.Interleaving.Filing.{Filed, Reach-Filed}
use spawnly.Registry.Dynamostore.Interleaving.Sharing.{
  Company, Moves-Reach, resolves, frees, Happened, Reach-trans, Ends, Shares, Finds,
}
use spawnly.Registry.Dynamostore.Interleaving.Running.{Holds-Moves, Holds-Reach}
use spawnly.Registry.Dynamostore.Interleaving.Calls.{
  then_or_cases, At, pivot_lem, free_open_marker_lem,
}
use spawnly.Registry.Dynamostore.Interleaving.Opening.{At-End}

module _ (stamp : ℕ → String) (company : Company) {T : Type 0} (db : Service T)
    (system : T → System) (shares : Shares stamp company db system) (s0 : System) where
  abbrev On : Pairs → Pairs → T → Type 0
  On = At stamp company db system shares s0

  -- A write that keeps the open key of a request where it takes place.
  pub write-Keeps {ℓ} :
      {A : Type ℓ} (m : Answer A × T) (t : T) (test : Contents → Bool)
      (change : Contents → Contents) (id key : String)
      → Ends stamp company system m (system t) test change
      → ((c : Contents) → test c ≡ true → Keeps id key c → Keeps id key (change c))
      → Keeps id key (system t).contents
      → Keeps id key (system m.1).contents
  write-Keeps m t test change id key (inl (e, f, b)) step kept =
      Reach-Keeps id key stamp (system t) (system m.1)
        (Moves-Reach stamp company (system t) (system m.1) b.0) kept
  write-Keeps m t test change id key (inr (u, b, won, left, answer)) step kept =
      subst (λ z. Keeps id key z.contents) (sym left)
        (step u.contents won
          (Reach-Keeps id key stamp (system t) u (Moves-Reach stamp company (system t) u b.0) kept))

  pivot-Keeps :
      (a id key user_id status : String) (now : ℕ) (t : T)
      → Keeps id key (system t).contents
      → Keeps id key (system (db.update_item (pivot a user_id status now) t).1).contents
  pivot-Keeps a id key user_id status now t kept =
      let p = pivot a user_id status now in
      write-Keeps (db.update_item p t) t (λ c. p.test (c p.key)) (apply_update p) id key
        (shares.updates p t)
        (λ c won k.
          let (cr, at) = pending_request user_id (c (creq_pk a, sk_meta)) won in
          Keeps-resolved id key c a user_id status now cr at k)
        kept

  free-Keeps :
      (at a id key : String) (t : T)
      → Keeps id key (system t).contents
      → Keeps id key (system (free_open_marker db at a t)).contents
  unfolding free_open_marker delete_open_marker_if is_cond_failed
  free-Keeps at a id key t kept =
      let k : Key = (open_pk at, sk_meta) in
      let m = db.delete_item k (points_at a) t in
      let left : Keeps id key (system m.1).contents =
        write-Keeps m t (λ c. points_at a (c k)) (set_item k none) id key
          (shares.deletes k (points_at a) t)
          (λ c won. Keeps-same id key c (set_item k none c) (request_at-marker c at none id))
          kept in
      then_or_cases (λ (q : Answer {0} Unit × T). Keeps id key (system q.1).contents) m _ _
        (λ e f. elim (Bool-cases (is_cond_failed e)) [ inl c ↦ rw c left | inr c ↦ rw c left ])
        (λ x f. left)

  -- The ways in which a round of the sweep ends.
  sweep_one_cases :
      (P : T → Type 0) (id : String) (granted : ConsentRecord) (now : ℕ) (cr : ConsentRequest)
      (t : T)
      → P t
      → P (db.update_item (pivot cr.id "" consent_approved now) t).1
      → ((i : Item)
          → (db.update_item (pivot cr.id "" consent_approved now) t).0 ≡ returned i
          → P (
              free_open_marker db
                (open_key_of cr)
                cr.id
                (db.update_item (pivot cr.id "" consent_approved now) t).1))
      → P (sweep_one db id granted now cr t)
  unfolding sweep_one
  sweep_one_cases P id granted now cr t skip lost done =
      let m = db.update_item (pivot cr.id "" consent_approved now) t in
      elim (Bool-cases (cr.id == id || not (cr.status == consent_pending))) [
        | inl c ↦ rw c skip
        | inr c ↦ rw c (elim (Bool-cases (not (evaluate_consent granted cr.scopes now).granted)) [
          | inl d ↦ rw d skip
          | inr d ↦
              rw d
                (elim (Answer-cases m.0) [ inl (i, f) ↦ rw f (done i f) | inr (e, f) ↦ rw f lost ])
        ])
      ]

  module _ (id : String) (granted : ConsentRecord) (now : ℕ)
      (may_sweep : (x : String) → company.may (resolves x "" consent_approved))
      (may_free : (key x : String) → company.may (frees key x)) where
    sweep_one_lem :
        (cr : ConsentRequest) (t : T)
        → On [] [] t
        → Keeps cr.id (open_key_of cr) (system t).contents
        → On [] [] (sweep_one db id granted now cr t)
    sweep_one_lem cr t h kept =
        let key = open_key_of cr in
        let m = db.update_item (pivot cr.id "" consent_approved now) t in
        let (left, owed) =
          pivot_lem stamp company db system shares s0 [] [] cr.id "" consent_approved key now t
            (may_sweep cr.id) h kept refl in
        sweep_one_cases (On [] []) id granted now cr t h left (λ i f.
          let due : Pairs = (key, cr.id) ∷ [] in
          At-End stamp company db system shares s0 [] due (free_open_marker db key cr.id m.1) (
            free_open_marker_lem stamp company db system shares s0 [] due key cr.id m.1
              (may_free key cr.id) (owed i f) (Memᴰ.head refl)))

    sweep_one-Keeps :
        (cr : ConsentRequest) (t : T) (a key : String)
        → Keeps a key (system t).contents
        → Keeps a key (system (sweep_one db id granted now cr t)).contents
    sweep_one-Keeps cr t a key kept =
        let m = db.update_item (pivot cr.id "" consent_approved now) t in
        let left = pivot-Keeps cr.id a key "" consent_approved now t kept in
        sweep_one_cases (λ t'. Keeps a key (system t').contents) id granted now cr t kept left
          (λ i f. free-Keeps (open_key_of cr) cr.id a key m.1 left)

    sweep_all_lem :
        (crs : List ConsentRequest) (t : T)
        → On [] [] t
        → ((cr : ConsentRequest) → Memᴰ cr crs → Keeps cr.id (open_key_of cr) (system t).contents)
        → On [] [] (sweep_all db id granted now crs t)
    unfolding sweep_all
    sweep_all_lem [] t h kept = h
    sweep_all_lem (cr ∷ crs) t h kept =
        sweep_all_lem crs (sweep_one db id granted now cr t)
          (sweep_one_lem cr t h (kept cr (Memᴰ.head refl)))
          (λ other m. sweep_one-Keeps cr t other.id (open_key_of other) (kept other (Memᴰ.tail m)))

    -- The requests that a sweep finds, on the table as it is after the query.
    abbrev Known : Answer (List ConsentRequest) × T → Type 0
    Known m =
        On [] [] m.1
        × ((crs : List ConsentRequest)
            → m.0 ≡ returned crs
            → (cr : ConsentRequest) → Memᴰ cr crs
            → Keeps cr.id (open_key_of cr) (system m.1).contents)

    module _ (origin : System) (before : Reach stamp origin s0)
        (query_finds : Finds stamp company db system origin) (filed : Filed origin.contents) where
      requests_by_edge_lem :
          (edge : String) (t : T) → On [] [] t → Known (requests_by_edge db edge t)
      unfolding requests_by_edge
      requests_by_edge_lem edge t h =
          let q : Query = record { index = gsi2; hash = "EDGE#" ⧺ edge; begins = "" } in
          let m = db.query q t in
          let (σ0, δ0, since) = Holds-Reach stamp company s0 [] [] (system t) h in
          let past_of : Happened stamp origin (system t) = (
            σ0,
            δ0,
            Reach-trans stamp origin s0 (record (system t) { seen = σ0; due = δ0 }) before since,
          ) in
          let left =
            Holds-Moves stamp company s0 [] [] (system t) (system m.1) (query_finds.unchanged q t).0
              h in
          then_or_cases Known m _ _ (λ e f. (left, λ crs x. absurd (cc x)))
            (λ is f. (
              left,
              λ crs g cr at.
                  let (i, there, body) = read_items-Memᴰ is crs g cr at in
                  let (v, (σ, δ, past), later, stood) =
                    query_finds.finds q t is past_of f i there in
                  let here : request_of (v.contents (key_of i)) ≡ some cr =
                    ap request_of stood ∙ body in
                  let own_key =
                    Reach-Filed stamp origin (record v { seen = σ; due = δ }) past filed (key_of i)
                      cr here in
                  Reach-Keeps cr.id (open_key_of cr) stamp v (system m.1) later
                    (cr, ap (λ k. request_of (v.contents k)) (sym own_key) ∙ here, refl),
            ))

      swept_lem :
          (m : Answer (List ConsentRequest) × T)
          → Known m
          → On [] []
              (elim m.0 [ returned crs ↦ sweep_all db id granted now crs m.1 | failed e ↦ m.1 ])
      swept_lem (returned crs, t) (h, known) = sweep_all_lem crs t h (known crs refl)
      swept_lem (failed e, t) (h, known) = h

      pub sweep_lem : (t : T) → On [] [] t → On [] [] (sweep db id granted now t)
      unfolding sweep
      sweep_lem t h =
          swept_lem (requests_by_edge db (edge_key_of granted) t)
            (requests_by_edge_lem (edge_key_of granted) t h)
