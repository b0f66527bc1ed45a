-- ===== src/Registry/Dynamostore/Interleaving/Approving.antt =====
-- internal/registry/dynamostore/store.go: an approval on a shared table.
use mathlib.Core.List.{Memᴰ}
use spawnly.Prelude.{
  ℕ, zero, suc, String, ◌≡◌, refl, inl, inr, Bool, true, false, not, ◌&&◌, ◌||◌, Option, some, List,
  [], ◌∷◌, ◌==◌, Bool-cases,
}
use spawnly.Consent.{ConsentRecord, ConsentRequest, consent_approved, consent_denied}
use spawnly.Registry.Requests.{open_key_of, resolved}
use spawnly.Registry.Types.{AgentTemplate}
use spawnly.Registry.Dynamostore.{
  Answer, Service, DbError, returned, other, passes, commit, is_cond_failed, is_txn_cond_failed,
  is_txn_conflict,
}
use spawnly.Registry.Dynamostore.Keys.{sk_meta, tpl_pk, gen_id}
use spawnly.Registry.Dynamostore.Catalog.{get_template}
use spawnly.Registry.Dynamostore.Consents.{consent_expiry}
use spawnly.Registry.Dynamostore.Requests.{approval, free_open_marker, txn_conflict_budget}
use spawnly.Registry.Dynamostore.Resolution.{
  retry, retry_on_txn_conflict, approve, grant_for, deny, resolve_consent_request,
}
use spawnly.Registry.Dynamostore.Interleaving.{System, Step, Reach}
use spawnly.Registry.Dynamostore.Interleaving.Keeping.{Pairs}
use spawnly.Registry.Dynamostore.Interleaving.OpenKeys.{Keeps, Step-Keeps, Reach-Keeps}
use spawnly.Registry.Dynamostore.Interleaving.Filing.{Filed}
use spawnly.Registry.Dynamostore.Interleaving.Sharing.{
  Company, Moves-Reach, resolves, approves, frees, Between, Shares, Finds,
}
use spawnly.Registry.Dynamostore.Interleaving.Running.{Holds-Moves}
use spawnly.Registry.Dynamostore.Interleaving.Accesses.{Holds-approves}
use spawnly.Registry.Dynamostore.Interleaving.Calls.{
  then_or_cases, At, write_lem, free_open_marker_lem,
}
use spawnly.Registry.Dynamostore.Interleaving.Opening.{End, At-End}
use spawnly.Registry.Dynamostore.Interleaving.Resolving.{resolve_recover_lem, found_lem, settle_lem}
use spawnly.Registry.Dynamostore.Interleaving.Sweeping.{write-Keeps, sweep_lem}

module _ (stamp : ℕ → String) (company : Company) {T : Type 0} (db : Service T)
    (system : T → System) (shares : Shares stamp company db system) (s0 : System) where
  abbrev On : Pairs → Pairs → T → Type 0
  On = At stamp company db system shares s0

  abbrev Ended {ℓ} : {A : Type ℓ} → Answer A × T → Type 0
  Ended m = End stamp company db system shares s0 m

  module _ (id user_id cand key : String) (now : ℕ) (grant : ConsentRecord) where
    abbrev tries : T → Answer {0} Unit × T
    tries = db.transact_write_items (approval id user_id now grant cand)

    abbrev due : Pairs
    due = (key, id) ∷ []

    -- After an approval, the call owes the removal of the marker.
    abbrev Approved : Answer {0} Unit × T → Type 0
    Approved m = On [] [] m.1 × ((a : Unit {0}) → m.0 ≡ returned a → On [] due m.1)

    tries_lem :
        (t : T)
        → company.may (approves id user_id)
        → On [] [] t
        → Keeps id key (system t).contents
        → Approved (tries t) × Keeps id key (system (tries t).1).contents
    tries_lem t may h kept =
        let ws = approval id user_id now grant cand in
        let ends = shares.transacts ws t in
        let (either, done) =
          write_lem stamp company db system shares s0 [] [] (tries t) t (passes ws) (commit ws) due
            h ends
            (λ u b at won.
              Holds-approves stamp company s0 [] [] u at key id user_id now
                (Reach-Keeps id key stamp (system t) u (Moves-Reach stamp company (system t) u b.0)
                  kept)
                cand grant may won) in
        (
          (
            elim either [
              | inl a ↦ a
              | inr a ↦ At-End stamp company db system shares s0 [] due (tries t).1 a
            ],
            done,
          ),
          write-Keeps stamp company db system shares s0 (tries t) t (passes ws) (commit ws) id key
              ends
              (λ c won k.
                Step-Keeps id key stamp (record { contents = c; seen = []; due = [] })
                  (record { contents = commit ws c; seen = []; due = (open_key_of k.0, id) ∷ [] })
                  (Step.approves id user_id cand now grant k.0 k.1 won) k)
              kept,
        )

    retry_lem :
        (n : ℕ) (last : DbError) (t : T)
        → company.may (approves id user_id)
        → On [] [] t
        → Keeps id key (system t).contents
        → Approved (retry db tries n last t)
    unfolding retry
    retry_lem zero last t may h kept = (h, λ a f. absurd (cc f))
    retry_lem (suc n) last t may h kept =
        let ((left, owed), kept') = tries_lem t may h kept in
        then_or_cases Approved (tries t) _ _
          (λ e f. elim (Bool-cases (is_txn_conflict e)) [
            | inl c ↦ rw c (retry_lem n e (tries t).1 may left kept')
            | inr c ↦ rw c (left, λ a g. absurd (cc g))
          ])
          (λ a f. (left, λ x g. owed a f))

  -- The lifetime of the grant is read from the template of the parent.
  get_template_lem :
      (x : String) (t : T) → Between stamp company (system t) (system (get_template db x t).1)
  unfolding get_template
  get_template_lem x t =
      let m = db.get_item false (tpl_pk x, sk_meta) t in
      let (between, out) = shares.gets false (tpl_pk x, sk_meta) t in
      then_or_cases
        (λ (q : Answer (Option AgentTemplate) × T). Between stamp company (system t) (system q.1)) m
        _ _ (λ e f. between) (λ i f. between)

  consent_expiry_lem :
      (deadline : String → ℕ → Option ℕ) (parent child : String) (now : ℕ) (t : T)
      → Between stamp company (system t) (system (consent_expiry db deadline parent child now t).1)
  unfolding consent_expiry
  consent_expiry_lem deadline parent child now t =
      let between = get_template_lem parent t in
      then_or_cases (λ (q : Answer (Option ℕ) × T). Between stamp company (system t) (system q.1))
        (get_template db parent t) _ _ (λ e f. between) (λ i f. between)

  module _ (origin : System) (before : Reach stamp origin s0)
      (query_finds : Finds stamp company db system origin) (filed : Filed origin.contents) where
    approve_lem :
        (id user_id : String) (cr : ConsentRequest) (grant : ConsentRecord) (now : ℕ)
        (random : String) (t : T)
        → company.may (approves id user_id)
        → ((x : String) → company.may (resolves x "" consent_approved))
        → ((key x : String) → company.may (frees key x))
        → On [] [] t
        → Keeps id (open_key_of cr) (system t).contents
        → Ended (approve db id user_id cr grant now random t)
    unfolding approve retry_on_txn_conflict
    approve_lem id user_id cr grant now random t may may_sweep may_free h kept =
        let key = open_key_of cr in
        let cand = gen_id "consent" now random in
        let call = tries id user_id cand key now grant in
        let m = retry_on_txn_conflict db call t in
        let (left, owed) =
          retry_lem id user_id cand key now grant txn_conflict_budget (other "") t may h kept in
        then_or_cases Ended m _ _
          (λ e f. elim (Bool-cases (is_txn_cond_failed e || is_cond_failed e)) [
            | inl c ↦ rw c (resolve_recover_lem stamp company db system shares s0 id m.1 left)
            | inr c ↦ rw c left
          ])
          (λ a f.
            let due' : Pairs = (key, id) ∷ [] in
            let freed = free_open_marker db key id m.1 in
            sweep_lem stamp company db system shares s0 id grant now may_sweep may_free origin
              before query_finds filed freed
              (At-End stamp company db system shares s0 [] due' freed (
                free_open_marker_lem stamp company db system shares s0 [] due' key id m.1
                  (may_free key id) (owed a f) (Memᴰ.head refl))))

    pub resolve_consent_request_lem :
        (deadline : String → ℕ → Option ℕ) (id user_id random : String) (yea : Bool)
        (scopes : Option (List String)) (now : ℕ) (t : T)
        → (yea ≡ true
            → company.may (approves id user_id)
              × ((x : String) → company.may (resolves x "" consent_approved))
              × ((key x : String) → company.may (frees key x)))
        → (yea ≡ false
            → company.may (resolves id user_id consent_denied)
              × ((key : String) → company.may (frees key id)))
        → On [] [] t
        → Ended (resolve_consent_request db deadline id user_id yea scopes now random t)
    unfolding resolve_consent_request deny
    resolve_consent_request_lem deadline id user_id random yea scopes now t may_approve may_deny h =
        found_lem stamp company db system shares s0 id t _ h (λ t1 h1. h1)
          (λ cr t1 h1 kept. elim (Bool-cases (not (user_id == "") && not (cr.user_id == user_id))) [
            | inl foreign ↦ rw foreign h1
            | inr mine ↦ rw mine (elim (Bool-cases yea) [
              | inr denial ↦ rw denial (
                  settle_lem stamp company db system shares s0 id user_id consent_denied
                    (open_key_of cr) now t1 (some (resolved cr consent_denied now))
                    (may_deny denial).0 ((may_deny denial).1 (open_key_of cr)) h1 kept refl)
              | inl approval ↦
                  let m = consent_expiry db deadline cr.parent_type cr.child_type now t1 in
                  let between = consent_expiry_lem deadline cr.parent_type cr.child_type now t1 in
                  let h2 =
                    Holds-Moves stamp company s0 [] [] (system t1) (system m.1) between.0 h1 in
                  rw approval (
                    then_or_cases Ended m _ _ (λ e f. h2)
                      (λ expiry f.
                        approve_lem id user_id cr (grant_for cr scopes now expiry) now random m.1
                          (may_approve approval).0 (may_approve approval).1 (may_approve approval).2
                          h2
                          (Reach-Keeps id (open_key_of cr) stamp (system t1) (system m.1)
                            (Moves-Reach stamp company (system t1) (system m.1) between.0) kept)))
            ])
          ])
