-- ===== src/Registry/Dynamostore/Interleaving/Accesses.antt =====
-- internal/registry/dynamostore/store.go: each access of a call on a shared table is a step, or nothing.
use mathlib.Core.List.{Memᴰ}
use spawnly.Prelude.{ℕ, String, ◌≡◌, subst, true, false, none, some, ◌∷◌, ◌==◌}
use spawnly.Consent.{ConsentRecord, ConsentRequest, consent_pending}
use spawnly.Registry.Requests.{open_key_of}
use spawnly.Registry.Dynamostore.{set_item, commit, passes}
use spawnly.Registry.Dynamostore.Keys.{sk_meta, creq_pk, open_pk}
use spawnly.Registry.Dynamostore.Requests.{creq_item, opening, approval, pivot, points_at}
use spawnly.Registry.Dynamostore.Interleaving.{System, Step, request_at, marker_at, apply_update}
use spawnly.Registry.Dynamostore.Interleaving.Keeping.{Pairs}
use spawnly.Registry.Dynamostore.Interleaving.OpenKeys.{Keeps}
use spawnly.Registry.Dynamostore.Interleaving.Sharing.{
  Company, opens, opens_resolved, resolves, approves, reads, finds, frees,
}
use spawnly.Registry.Dynamostore.Interleaving.Running.{Run, Within, Holds, Within-both}

-- What this call remembers.
module _ (stamp : ℕ → String) (company : Company) (s0 : System) (seen due : Pairs) (u : System)
    (holds : Holds stamp company s0 seen due u) where
  pub Holds-seen :
      (key id : String)
      → company.may (reads key)
      → marker_at u.contents key ≡ some id
      → Holds stamp company s0 ((key, id) ∷ seen) due u
  Holds-seen key id may at =
      let (σ, δ, run, c, d) = holds in
      let p : String × String = (key, id) in
      (p ∷ σ, δ, Run.ours run (Step.reads_marker key id at) may, Within-both p seen σ c, d)

  pub Holds-stale :
      (key id : String) (cr : ConsentRequest)
      → company.may (finds key id)
      → Memᴰ (key, id) seen
      → request_at u.contents id ≡ some cr
      → (cr.status == consent_pending) ≡ false
      → Holds stamp company s0 seen ((key, id) ∷ due) u
  Holds-stale key id cr may m at over =
      let (σ, δ, run, c, d) = holds in
      let p : String × String = (key, id) in
      let step = Step.finds_stale key id cr (c p m) at over in
      (σ, p ∷ δ, Run.ours run step may, c, Within-both p due δ d)

  pub Holds-missing :
      (key id : String)
      → company.may (finds key id)
      → Memᴰ (key, id) seen
      → request_at u.contents id ≡ none
      → Holds stamp company s0 seen ((key, id) ∷ due) u
  Holds-missing key id may m at =
      let (σ, δ, run, c, d) = holds in
      let p : String × String = (key, id) in
      let step = Step.finds_none key id (c p m) at in
      (σ, p ∷ δ, Run.ours run step may, c, Within-both p due δ d)

  -- The writes of this call.
  pub Holds-frees :
      (key id : String)
      → company.may (frees key id)
      → Memᴰ (key, id) due
      → points_at id (u.contents (open_pk key, sk_meta)) ≡ true
      → Holds stamp company s0 seen due
          (record u { contents = set_item (open_pk key, sk_meta) none u.contents })
  Holds-frees key id may m points =
      let (σ, δ, run, c, d) = holds in
      (σ, δ, Run.ours run (Step.frees key id (d (key, id) m) points) may, c, d)

  pub Holds-opens :
      (cr : ConsentRequest)
      → company.may (opens cr)
      → request_at u.contents cr.id ≡ none
      → passes (opening stamp (open_key_of cr) cr) u.contents ≡ true
      → Holds stamp company s0 seen due
          (record u { contents = commit (opening stamp (open_key_of cr) cr) u.contents })
  Holds-opens cr may new won =
      let (σ, δ, run, c, d) = holds in (σ, δ, Run.ours run (Step.opens cr new won) may, c, d)

  pub Holds-opens_resolved :
      (cr : ConsentRequest)
      → company.may (opens_resolved cr)
      → request_at u.contents cr.id ≡ none
      → (cr.status == consent_pending) ≡ false
      → Holds stamp company s0 seen due (record u {
        contents = set_item (creq_pk cr.id, sk_meta) (some (creq_item stamp cr)) u.contents;
      })
  Holds-opens_resolved cr may new over =
      let (σ, δ, run, c, d) = holds in
      (σ, δ, Run.ours run (Step.opens_resolved cr new over) may, c, d)

  module _ (key id user_id : String) (now : ℕ) (kept : Keeps id key u.contents) where
    pub Holds-resolves :
        (status : String)
        → company.may (resolves id user_id status)
        → (status == consent_pending) ≡ false
        → (pivot id user_id status now).test (u.contents (creq_pk id, sk_meta)) ≡ true
        → Holds stamp company s0 seen
            ((key, id) ∷ due)
            (record u { contents = apply_update (pivot id user_id status now) u.contents })
    Holds-resolves status may over test =
        let (σ, δ, run, c, d) = holds in
        let (cr, at, e) = kept in
        let p : String × String = (open_key_of cr, id) in
        (
          σ,
          p ∷ δ,
          Run.ours run (Step.resolves id user_id status now cr at over test) may,
          c,
          subst (λ k. Within ((k, id) ∷ due) (p ∷ δ)) e (Within-both p due δ d),
        )

    pub Holds-approves :
        (cand : String) (grant : ConsentRecord)
        → company.may (approves id user_id)
        → passes (approval id user_id now grant cand) u.contents ≡ true
        → Holds stamp company s0 seen
            ((key, id) ∷ due)
            (record u { contents = commit (approval id user_id now grant cand) u.contents })
    Holds-approves cand grant may won =
        let (σ, δ, run, c, d) = holds in
        let (cr, at, e) = kept in
        let p : String × String = (open_key_of cr, id) in
        (
          σ,
          p ∷ δ,
          Run.ours run (Step.approves id user_id cand now grant cr at won) may,
          c,
          subst (λ k. Within ((k, id) ∷ due) (p ∷ δ)) e (Within-both p due δ d),
        )
