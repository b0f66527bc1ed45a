-- ===== src/Registrant/Binding.antt =====
-- internal/registrant/orgaware.go: an identity that verifies is bound to the organization of its record.
use spawnly.Prelude.{
  String, subst, ◌≡◌, refl, ap, ◌∙◌, ◌⊎◌, inl, inr, true, false, Option, none, some, ◌==◌, Result,
  ok, err, Bool-cases, Option-cases, eq→path, arith,
}
use spawnly.Attestor.{CallerIdentity, session_name_from_arn}
use spawnly.Registry.Types.{AgentRecord, AttestationAnchor, Organization, placement_substrate}
use spawnly.Registry.Anchor.{attests}
use spawnly.Registrant.{
  Identity, OrgAware, looks_like_sts_credential, looks_like_spiffe_svid, bind_spire_org,
  is_active_sts, bind_anchor, bind_record, verify_sts, chosen, then_bind, verify,
}

pub Result-cases {ℓ} :
    {A : Type ℓ} (r : Result A) → ((a : A) × (r ≡ ok a)) ⊎ ((e : String) × (r ≡ err e))
Result-cases (ok a) = inl (a, refl)
Result-cases (err e) = inr (e, refl)

-- The anchor of an organization, active, names what AWS attests of the caller.
abbrev pub Anchored : OrgAware → AgentRecord → CallerIdentity → Type 0
Anchored v rec caller =
    (org : Organization) × (anchor : AttestationAnchor) × (v.store.get_org rec.org_id
      ≡ ok (some org))
    × (org.anchor ≡ some anchor)
    × (is_active_sts anchor ≡ true)
    × (attests anchor caller ≡ true)

bind_anchor_lem :
    (agent_id : String) (caller : CallerIdentity) (o : Option AttestationAnchor) (id : Identity)
    → bind_anchor agent_id caller o ≡ ok id
    → (anchor : AttestationAnchor) × (o ≡ some anchor)
      × (is_active_sts anchor ≡ true)
      × (attests anchor caller ≡ true)
      × (id.agent_id ≡ agent_id)
bind_anchor_lem agent_id caller none id h = cc h
bind_anchor_lem agent_id caller (some anchor) id h =
    (anchor, refl, ground arith, ground arith, ground arith)

bind_spire_org_same :
    (v : OrgAware) (found id : Identity) → bind_spire_org v found ≡ ok id → found ≡ id
unfolding bind_spire_org
bind_spire_org_same v found id h = elim (Result-cases (v.store.get_agent found.agent_id)) [
  | inl (rec, g) ↦ ground arith
  | inr (e, g) ↦ ground arith
]

bind_spire_org_org :
    (v : OrgAware) (id : Identity)
    → bind_spire_org v id ≡ ok id
    → (id.org_id == "") ≡ false
    → (rec : AgentRecord) × (v.store.get_agent id.agent_id ≡ ok rec)
      × ((rec.agent_id == "") ≡ false)
      × (rec.org_id ≡ id.org_id)
unfolding bind_spire_org
bind_spire_org_org v id h named = elim (Result-cases (v.store.get_agent id.agent_id)) [
  | inl (rec, g) ↦ (rec, g, ground arith, ground (arith, eq→path rec.org_id id.org_id))
  | inr (e, g) ↦ absurd (ground arith)
]

bind_spire_org_platform :
    (v : OrgAware) (id : Identity)
    → bind_spire_org v id ≡ ok id
    → (id.org_id == "") ≡ true
    → id.platform_svid ≡ true
    → (rec : AgentRecord) → v.store.get_agent id.agent_id ≡ ok rec
    → (rec.agent_id == "") ≡ false
    → (rec.placement == placement_substrate) ≡ false
unfolding bind_spire_org
bind_spire_org_platform v id h no_org platform rec g there = ground arith

module _ (v : OrgAware) (cred : String) (id : Identity) where
  abbrev Bound : CallerIdentity → String → AgentRecord → Type 0
  Bound caller agent_id rec =
      (((rec.org_id == "") ≡ true) × (v.def cred ≡ ok id))
      ⊎ (((rec.org_id == "") ≡ false) × Anchored v rec caller × (id.agent_id ≡ agent_id))

  bind_record_lem :
      (agent_id : String) (caller : CallerIdentity) (rec : AgentRecord)
      → bind_record v cred agent_id caller rec ≡ ok id
      → ((rec.agent_id == "") ≡ false) × Bound caller agent_id rec
  bind_record_lem agent_id caller rec h = elim (Bool-cases (rec.agent_id == "")) [
    | inl e ↦ cc (rw (e, bind_record) at h)
    | inr e ↦
        let h1 = rw (e, bind_record) at h in
        elim (Bool-cases (rec.org_id == "")) [
          | inl no_org ↦ (e, inl (no_org, rw no_org at h1))
          | inr some_org ↦
              let h2 = rw some_org at h1 in
              elim (Result-cases (v.store.get_org rec.org_id)) [
                | inr (x, g) ↦ cc (rw (g, bind_record) at h2)
                | inl (o, g) ↦ elim (Option-cases o) [
                  | inl absent ↦ cc (rw (g, absent, bind_record) at h2)
                  | inr (org, there) ↦
                      let (anchor, at, active, named, agent) =
                        bind_anchor_lem agent_id caller org.anchor id
                          (rw (g, there, bind_record) at h2) in
                      (e, inr (some_org, (org, anchor, g ∙ ap ok there, at, active, named), agent))
                ]
              ]
        ]
  ]

  -- A presigned AWS request that verifies was answered by AWS for the session of an agent that has a
  -- record. If that record has an organization, the organization has an active STS anchor, whose account
  -- and role are the ones AWS attests, and the identity is that agent; if it has none, the wrapped
  -- verifier has accepted the credential.
  pub verify_binds_sts :
      looks_like_sts_credential v cred ≡ true
      → verify v cred ≡ ok id
      → (caller : CallerIdentity) × (agent_id : String) × (rec : AgentRecord) × (v.replay cred
          ≡ ok caller)
        × (session_name_from_arn caller.arn ≡ ok agent_id)
        × (v.store.get_agent agent_id ≡ ok rec)
        × ((rec.agent_id == "") ≡ false)
        × ((((rec.org_id == "") ≡ true) × (v.def cred ≡ ok id))
            ⊎ (((rec.org_id == "") ≡ false) × Anchored v rec caller × (id.agent_id ≡ agent_id)))
  unfolding verify
  verify_binds_sts shaped h =
      let h1 = rw shaped at h in
      elim (Result-cases (v.replay cred)) [
        | inr (e, r) ↦ cc (rw (r, verify_sts) at h1)
        | inl (caller, r) ↦
            let h2 = rw (r, verify_sts) at h1 in
            elim (Result-cases (session_name_from_arn caller.arn)) [
              | inr (e, n) ↦ cc (rw (n, verify_sts) at h2)
              | inl (agent_id, n) ↦
                  let h3 = rw (n, verify_sts) at h2 in
                  elim (Result-cases (v.store.get_agent agent_id)) [
                    | inr (e, g) ↦ cc (rw (g, verify_sts) at h3)
                    | inl (rec, g) ↦
                        let (named, bound) =
                          bind_record_lem agent_id caller rec (rw (g, verify_sts) at h3) in
                        (caller, agent_id, rec, r, n, g, named, bound)
                  ]
            ]
      ]

  -- Any other credential that verifies was accepted by one of the wrapped verifiers with this identity.
  -- If the identity has an organization, its agent's record is of that organization; if it is a platform
  -- identity without one, its agent's record, where the store answers, is not placed on a substrate.
  pub verify_binds_svid :
      looks_like_sts_credential v cred ≡ false
      → verify v cred ≡ ok id
      → (chosen v (looks_like_spiffe_svid v cred) v.spiffe cred ≡ ok id)
        × ((id.org_id == "") ≡ false
            → (rec : AgentRecord) × (v.store.get_agent id.agent_id ≡ ok rec)
              × ((rec.agent_id == "") ≡ false)
              × (rec.org_id ≡ id.org_id))
        × ((id.org_id == "") ≡ true
            → id.platform_svid ≡ true
            → (rec : AgentRecord) → v.store.get_agent id.agent_id ≡ ok rec
            → (rec.agent_id == "") ≡ false
            → (rec.placement == placement_substrate) ≡ false)
  unfolding verify
  verify_binds_svid shaped h =
      let h1 = rw shaped at h in
      elim (Result-cases (chosen v (looks_like_spiffe_svid v cred) v.spiffe cred)) [
        | inr (e, c) ↦ cc (rw (c, then_bind) at h1)
        | inl (found, c) ↦
            let h2 = rw (c, then_bind) at h1 in
            let same = bind_spire_org_same v found id h2 in
            let h3 = subst (λ z. bind_spire_org v z ≡ ok id) same h2 in
            (
              c ∙ ap ok same,
              bind_spire_org_org v id h3,
              λ no_org platform rec g there.
                  bind_spire_org_platform v id h3 no_org platform rec g there,
            )
      ]
