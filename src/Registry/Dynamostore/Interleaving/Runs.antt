-- ===== src/Registry/Dynamostore/Interleaving/Runs.antt =====
-- internal/registry/dynamostore/store.go: the calls for consent requests, in company of others.
use spawnly.Prelude.{
  ℕ, String, ◌≡◌, refl, ◌⊎◌, inl, inr, Bool, true, false, Option, none, some, List, [], ◌==◌,
}
use spawnly.Consent.{ConsentRequest, consent_pending, consent_approved, consent_denied}
use spawnly.Registry.Requests.{open_key_of}
use spawnly.Registry.Dynamostore.{Service}
use spawnly.Registry.Dynamostore.Keys.{gen_id}
use spawnly.Registry.Dynamostore.Requests.{create_consent_request, create_approved_consent_request}
use spawnly.Registry.Dynamostore.Resolution.{
  resolve_consent_request, approve_pending_consent_request,
}
use spawnly.Registry.Dynamostore.Interleaving.{System, Reach, request_at, marker_at}
use spawnly.Registry.Dynamostore.Interleaving.Unique.{Sound, Reach-Sound, one_open_request}
use spawnly.Registry.Dynamostore.Refinement.Rounds.{made}
use spawnly.Registry.Dynamostore.Interleaving.Keeping.{Pairs}
use spawnly.Registry.Dynamostore.Interleaving.OpenKeys.{Keeps, Reach-Keeps}
use spawnly.Registry.Dynamostore.Interleaving.Filing.{Filed}
use spawnly.Registry.Dynamostore.Interleaving.Sharing.{
  Company, Act, opens, opens_resolved, resolves, approves, reads, finds, frees, Fresh, Shares,
  Finds, Reach-trans,
}
use spawnly.Registry.Dynamostore.Interleaving.Running.{Run, Holds, Holds-Reach}
use spawnly.Registry.Dynamostore.Interleaving.Creating.{create_consent_request_lem}
use spawnly.Registry.Dynamostore.Interleaving.Resolving.{backstop_lem, create_approved_lem}
use spawnly.Registry.Dynamostore.Interleaving.Approving.{resolve_consent_request_lem}

-- A call with its arguments, its time and its random bytes.
pub data Call : Type 0 where
  create : (ℕ → ℕ) → (ℕ → String) → ConsentRequest → Call
  create_approved : ConsentRequest → ℕ → String → Call
  resolve :
      (String → ℕ → Option ℕ) → String → String → Bool → Option (List String) → ℕ → String → Call
  approve_pending : String → ℕ → Call

-- The ids that a call may give to a request, and the empty one, which none has.
abbrev pub Own : Call → String → Type 0
Own (create time random req) id = (id ≡ "") ⊎ ((k : ℕ) × (id ≡ gen_id "creq" (time k) (random k)))
Own (create_approved req now random) id = (id ≡ "") ⊎ (id ≡ gen_id "creq" now random)
Own (resolve deadline x user_id yea scopes now random) id = id ≡ ""
Own (approve_pending x now) id = id ≡ ""

-- The request of `CreateApprovedConsentRequest`.
abbrev approved_from : ConsentRequest → ℕ → String → ConsentRequest
approved_from req now random = record req {
  id = gen_id "creq" now random;
  status = consent_approved;
  created_at = now;
  resolved_at = some now;
}

-- The steps that a call may do. An opening is of its request, with an id of its own, and it looks at and
-- removes the marker of that open key alone. A denial and the backstop resolve their one request. An
-- approval approves its request, and its sweep approves any, without a test of the user.
abbrev pub May : Call → Act → Type 0
May (create time random req) (opens cr) = (k : ℕ) × (cr ≡ made time random req k)
May (create time random req) (reads key) = key ≡ open_key_of req
May (create time random req) (finds key id) = key ≡ open_key_of req
May (create time random req) (frees key id) = key ≡ open_key_of req
May (create time random req) _ = ⊥
May (create_approved req now random) (opens_resolved cr) = cr ≡ approved_from req now random
May (create_approved req now random) _ = ⊥
May (resolve deadline id user_id true scopes now random) (approves x user) =
    (x ≡ id) × (user ≡ user_id)
May (resolve deadline id user_id true scopes now random) (resolves x user status) =
    (user ≡ "") × (status ≡ consent_approved)
May (resolve deadline id user_id true scopes now random) (frees key x) = Unit
May (resolve deadline id user_id true scopes now random) _ = ⊥
May (resolve deadline id user_id false scopes now random) (resolves x user status) =
    (x ≡ id) × (user ≡ user_id) × (status ≡ consent_denied)
May (resolve deadline id user_id false scopes now random) (frees key x) = x ≡ id
May (resolve deadline id user_id false scopes now random) _ = ⊥
May (approve_pending id now) (resolves x user status) =
    (x ≡ id) × (user ≡ "") × (status ≡ consent_approved)
May (approve_pending id now) (frees key x) = x ≡ id
May (approve_pending id now) _ = ⊥

-- A call among others whose steps are these.
abbrev pub beside : (System → System → Type 0) → Call → Company
beside others c = record { own = Own c; may = May c; others = others }

-- From one table, steps of the others and steps that the call may do lead to another.
abbrev pub Ran : (ℕ → String) → (System → System → Type 0) → Call → System → System → Type 0
Ran stamp others c s u = (σ : Pairs) × (δ : Pairs) × Run stamp (beside others c) s u σ δ

-- The table that a call leaves.
abbrev pub perform : {T : Type 0} → Service T → (ℕ → String) → Call → T → T
perform db stamp (create time random req) t = (create_consent_request db stamp time random req t).1
perform db stamp (create_approved req now random) t =
    (create_approved_consent_request db stamp req now random t).1
perform db stamp (resolve deadline id user_id yea scopes now random) t =
    (resolve_consent_request db deadline id user_id yea scopes now random t).1
perform db stamp (approve_pending id now) t = (approve_pending_consent_request db id now t).1

-- A new table.
abbrev pub new : System
new = record { contents = λ k. none; seen = []; due = [] }

new-Sound : Sound new
new-Sound = record {
  marked = λ id cr h p. cc h;
  backed = λ key id h. cc h;
  known = λ key id m. elim m [ ];
  finished = λ key id m. elim m [ ];
}

new-Filed : Filed new.contents
new-Filed k cr h = absurd (cc h)

module _ (stamp : ℕ → String) {T : Type 0} (db : Service T) (system : T → System)
    (others : System → System → Type 0) where
  perform_lem :
      (c : Call) (s0 : System) (t : T)
      → Shares stamp (beside others c) db system
      → Finds stamp (beside others c) db system new
      → Reach stamp new s0
      → Fresh (beside others c) (system t)
      → Holds stamp (beside others c) s0 [] [] (system t)
      → Holds stamp (beside others c) s0 [] [] (system (perform db stamp c t))
  perform_lem (create time random req) s0 t shares query_finds before fresh h =
      create_consent_request_lem stamp (beside others (create time random req)) db system shares s0
        (Reach-Sound stamp new s0 new-Sound before) (inl refl) time random req (λ k. inr (k, refl))
        (refl, (λ id. refl), (λ id. refl)) (λ k. (k, refl)) t h fresh
  perform_lem (create_approved req now random) s0 t shares query_finds before fresh h =
      create_approved_lem stamp (beside others (create_approved req now random)) db system shares s0
        req now random t (inr refl) refl h fresh
  perform_lem (resolve deadline id user_id yea scopes now random) s0 t shares query_finds before
        fresh h =
      resolve_consent_request_lem stamp
        (beside others (resolve deadline id user_id yea scopes now random)) db system shares s0 new
        before query_finds new-Filed deadline id user_id random yea scopes now t (yes yea) (no yea)
        h
    where
      yes :
          (yea : Bool)
          → yea ≡ true
          → May (resolve deadline id user_id yea scopes now random) (approves id user_id)
            × ((x : String)
                → May
                    (resolve deadline id user_id yea scopes now random)
                    (resolves x "" consent_approved))
            × ((key x : String)
                → May (resolve deadline id user_id yea scopes now random) (frees key x))
      yes true e = ((refl, refl), (λ x. (refl, refl)), (λ key x. tt))
      yes false e = absurd (cc e)

      no :
          (yea : Bool)
          → yea ≡ false
          → May
              (resolve deadline id user_id yea scopes now random)
              (resolves id user_id consent_denied)
            × ((key : String)
                → May (resolve deadline id user_id yea scopes now random) (frees key id))
      no true e = absurd (cc e)
      no false e = ((refl, refl, refl), (λ key. refl))
  perform_lem (approve_pending id now) s0 t shares query_finds before fresh h =
      backstop_lem stamp (beside others (approve_pending id now)) db system shares s0 id now t
        (refl, refl, refl) (λ key. refl) h

  -- Whatever steps other calls do between its accesses, a call of `CreateConsentRequest`,
  -- `CreateApprovedConsentRequest`, `ResolveConsentRequest` or `ApprovePendingConsentRequest` changes
  -- the table that it finds only by the steps that `May` allows to it, between steps of the others, also
  -- if it fails half way or an answer is lost; so every request that was there is still there with its
  -- open key, two pending requests of one open key still have the same id, and the key's marker holds
  -- that id. The service is one that others share
  -- (`Shares`, `Finds`), the table is reached from a new one, and the ids that the call may make, and
  -- the empty one, are fresh and nobody else's. Which steps the others do is a parameter.
  pub call_in_company :
      (c : Call) (t : T)
      → Shares stamp (beside others c) db system
      → Finds stamp (beside others c) db system new
      → Fresh (beside others c) (system t)
      → Reach stamp new (system t)
      → let u = system (perform db stamp c t) in
        Ran stamp others c (system t) u
        × ((id : String) (cr : ConsentRequest)
            → request_at (system t).contents id ≡ some cr
            → Keeps id (open_key_of cr) u.contents)
        × ((id id' : String) (cr cr' : ConsentRequest)
            → request_at u.contents id ≡ some cr
            → request_at u.contents id' ≡ some cr'
            → (cr.status == consent_pending) ≡ true
            → (cr'.status == consent_pending) ≡ true
            → open_key_of cr ≡ open_key_of cr'
            → (id ≡ id') × (marker_at u.contents (open_key_of cr) ≡ some id))
  call_in_company c t shares query_finds fresh r =
      let company = beside others c in
      let s = system t in
      let u = system (perform db stamp c t) in
      let h =
        perform_lem c s t shares query_finds r fresh ([], [], Run.start, (λ p m. m), (λ p m. m)) in
      let (σ, δ, path) = Holds-Reach stamp company s [] [] u h in
      let w : System = record u { seen = σ; due = δ } in
      (
        (h.0, h.1, h.2),
        (λ id cr at. Reach-Keeps id (open_key_of cr) stamp s w path (cr, at, refl)),
        one_open_request stamp new w (λ id. refl) (λ key. refl) refl refl
            (Reach-trans stamp new s w r path),
      )
