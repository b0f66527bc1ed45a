-- ===== src/Registry/Dynamostore/Interleaving/Creating.antt =====
-- internal/registry/dynamostore/store.go: the rounds of `CreateConsentRequest` on a shared table.
use spawnly.Prelude.{ℕ, zero, suc, String, ◌≡◌, ap, ◌⊎◌, inl, inr, [], Bool-cases}
use spawnly.Consent.{ConsentRequest}
use spawnly.Registry.Requests.{open_key_of}
use spawnly.Registry.Dynamostore.{
  DbError, Service, failed, other, passes, commit, is_txn_cond_failed, is_txn_conflict,
}
use spawnly.Registry.Dynamostore.Keys.{gen_id}
use spawnly.Registry.Dynamostore.Requests.{
  opening, read_open_request, create_rounds, create_consent_request, txn_conflict_budget,
}
use spawnly.Registry.Dynamostore.Refinement.Rounds.{made}
use spawnly.Registry.Dynamostore.Interleaving.{System}
use spawnly.Registry.Dynamostore.Interleaving.Keeping.{Pairs}
use spawnly.Registry.Dynamostore.Interleaving.Unique.{Sound}
use spawnly.Registry.Dynamostore.Interleaving.Sharing.{Company, opens, Fresh, Shares}
use spawnly.Registry.Dynamostore.Interleaving.Running.{Holds-Moves}
use spawnly.Registry.Dynamostore.Interleaving.Accesses.{Holds-opens}
use spawnly.Registry.Dynamostore.Interleaving.Calls.{then_or_cases, At, write_lem}
use spawnly.Registry.Dynamostore.Interleaving.Opening.{
  End, At-End, MayOpen, read_open_request_lem, after_marker_lem,
}

module _ (stamp : ℕ → String) (company : Company) {T : Type 0} (db : Service T)
    (system : T → System) (shares : Shares stamp company db system) (s0 : System) (start : Sound s0)
    (nameless : company.own "") (time : ℕ → ℕ) (random : ℕ → String) (req : ConsentRequest)
    (mine : (k : ℕ) → company.own (gen_id "creq" (time k) (random k)))
    (allowed : MayOpen stamp company db system shares s0 (open_key_of req))
    (may_open : (k : ℕ) → company.may (opens (made time random req k))) where
  abbrev On : Pairs → Pairs → T → Type 0
  On = At stamp company db system shares s0

  -- The transaction of a round: unless its answer is lost, a failure leaves the ids of the call free.
  opening_lem :
      (seen due : Pairs) (k : ℕ) (t : T)
      → On seen due t
      → Fresh company (system t)
      → let m =
          db.transact_write_items (opening stamp (open_key_of req) (made time random req k)) t in
        On seen due m.1
        × ((e : DbError)
            → m.0 ≡ failed e
            → Fresh company (system m.1) ⊎ ((text : String) × (e ≡ other text)))
  opening_lem seen due k t h fresh =
      let cr = made time random req k in
      let ws = opening stamp (open_key_of req) cr in
      let m = db.transact_write_items ws t in
      let ends = shares.transacts ws t in
      let (either, done) =
        write_lem stamp company db system shares s0 seen due m t (passes ws) (commit ws) due h ends
          (λ u b at won.
            Holds-opens stamp company s0 seen due u at cr (may_open k) (b.1 fresh cr.id (mine k))
              won) in
      (
        elim either [ inl a ↦ a | inr a ↦ a ],
        λ e f. elim ends [
          | inl (e', f', b) ↦ inl (b.1 fresh)
          | inr (u, b, won, left, inl (a, f')) ↦ absurd (cc (f, f'))
          | inr (u, b, won, left, inr (text, f')) ↦ inr (text, cc (f, f'))
        ],
      )

  rounds_lem :
      (n : ℕ) (seen due : Pairs) (t : T)
      → On seen due t
      → Fresh company (system t)
      → End stamp company db system shares s0 (create_rounds db stamp time random n req t)
  unfolding create_rounds
  rounds_lem zero seen due t h fresh = At-End stamp company db system shares s0 seen due t h
  rounds_lem (suc n) seen due t h fresh =
      let key = open_key_of req in
      let over = At-End stamp company db system shares s0 in
      let again = create_rounds db stamp time random n req in
      let m = db.transact_write_items (opening stamp key (made time random req n)) t in
      let (left, free) = opening_lem seen due n t h fresh in
      then_or_cases (End stamp company db system shares s0) m _ _
        (λ e f. elim (free e f) [
          | inr (text, q) ↦
              rw (ap is_txn_cond_failed q) (rw (ap is_txn_conflict q) (over seen due m.1 left))
          | inl fresh1 ↦ elim (Bool-cases (is_txn_cond_failed e)) [
            | inl met ↦
                let r = read_open_request db key m.1 in
                let (b, found) =
                  read_open_request_lem stamp company db system shares s0 key allowed seen due m.1
                    left in
                rw met (
                  then_or_cases (End stamp company db system shares s0) r _ _
                    (λ e1 f1.
                      over seen due r.1
                        (Holds-Moves stamp company s0 seen due (system m.1) (system r.1) b.0 left))
                    (λ p f1.
                      after_marker_lem stamp company db system shares s0 key allowed start nameless
                        seen due r.1 p.0 p.1 again (found p f1) (b.1 fresh1) (rounds_lem n)))
            | inr unmet ↦ rw unmet (elim (Bool-cases (is_txn_conflict e)) [
              | inl conflict ↦ rw conflict (rounds_lem n seen due m.1 left fresh1)
              | inr failure ↦ rw failure (over seen due m.1 left)
            ])
          ]
        ])
        (λ a f. over seen due m.1 left)

  pub create_consent_request_lem :
      (t : T)
      → On [] [] t
      → Fresh company (system t)
      → End stamp company db system shares s0 (create_consent_request db stamp time random req t)
  unfolding create_consent_request
  create_consent_request_lem t h fresh = rounds_lem txn_conflict_budget [] [] t h fresh
