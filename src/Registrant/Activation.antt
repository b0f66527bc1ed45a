-- ===== src/Registrant/Activation.antt =====
-- cmd/registry/anchor.go and internal/registrant/orgaware.go together: what an activation is good for,
-- and what a new registration of the anchor takes away.
use spawnly.Prelude.{
  String, subst, ◌≡◌, refl, sym, ap, ◌∙◌, inl, inr, true, false, none, some, ◌==◌, Result, ok, err,
  Option-cases, path→eq, arith,
}
use spawnly.Prelude.Assoc.{lookup, lookup-insert_at}
use spawnly.Attestor.{CallerIdentity, session_name_from_arn}
use spawnly.Registry.Types.{AgentRecord, AttestationAnchor, Organization}
use spawnly.Registry.Store.{Store, get_agent, get_org, put_org}
use spawnly.Registry.World.{Env, World, reply}
use spawnly.Registry.Anchor.{
  AnchorBody, put_anchor, activate_anchor, attests, as_active, anchor_active,
}
use spawnly.Registrant.Binding.{Result-cases}
use spawnly.Registrant.{
  OrgStore, OrgAware, looks_like_sts_credential, bind_anchor, bind_record, verify_sts, verify,
}

-- The registry's own store, as the verifier reads it.
abbrev pub store_of : Store → OrgStore
store_of s = record { get_agent = λ id. ok (get_agent id s); get_org = λ id. ok (get_org id s) }

-- What the verifier answers for a session of an agent of an organization.
verify_lem :
    (v : OrgAware) (cred agent_id : String) (caller : CallerIdentity) (rec : AgentRecord)
    (org : Organization)
    → looks_like_sts_credential v cred ≡ true
    → v.replay cred ≡ ok caller
    → session_name_from_arn caller.arn ≡ ok agent_id
    → v.store.get_agent agent_id ≡ ok rec
    → (rec.agent_id == "") ≡ false
    → (rec.org_id == "") ≡ false
    → v.store.get_org rec.org_id ≡ ok (some org)
    → verify v cred ≡ bind_anchor agent_id caller org.anchor
unfolding verify
verify_lem v cred agent_id caller rec org shaped r n g there owned at =
    rw (shaped, r, verify_sts, n, g, bind_record, there, owned, at) refl

activate_anchor_lem :
    (env : Env) (replay : String → Result CallerIdentity) (id cred : String) (w w' : World)
    (org org' : Organization)
    → lookup id w.store.orgs ≡ some org
    → activate_anchor env replay id (ok cred) w ≡ (reply 200 org', w')
    → (anchor : AttestationAnchor) × (caller : CallerIdentity) × (replay cred ≡ ok caller)
      × ((anchor.type == "sts") ≡ true)
      × (attests anchor caller ≡ true)
      × (org'.anchor ≡ some (as_active anchor (env.time w.ticks)))
      × (org'.org_id ≡ org.org_id)
      × (w'.store ≡ put_org org' w.store)
unfolding activate_anchor get_org
activate_anchor_lem env replay id cred w w' org org' at h = elim (Option-cases org.anchor) [
  | inl e ↦ cc (rw (e, activate_anchor) at (rw (at, activate_anchor) at h))
  | inr (anchor, e) ↦
      let h1 = rw (e, activate_anchor) at (rw (at, activate_anchor) at h) in
      elim (Result-cases (replay cred)) [
        | inr (x, r) ↦ absurd (ground arith)
        | inl (caller, r) ↦ (
          anchor,
          caller,
          r,
          ground arith,
          ground arith,
          ground arith,
          ground arith,
          ground arith,
        )
      ]
]

put_anchor_lem :
    (id : String) (body : AnchorBody) (w w' : World) (org org' : Organization)
    → lookup id w.store.orgs ≡ some org
    → put_anchor id (ok body) w ≡ (reply 200 org', w')
    → (anchor : AttestationAnchor) × (org'.anchor ≡ some anchor)
      × (anchor.status ≡ "pending")
      × (org'.org_id ≡ org.org_id)
      × (w'.store ≡ put_org org' w.store)
unfolding put_anchor get_org
put_anchor_lem id body w w' org org' at h =
    let h1 = rw (at, put_anchor) at h in
    (
      record {
        type = "sts";
        aws_account_id = body.aws_account_id;
        role_arn_pattern = body.role_arn_pattern;
        status = "pending";
        activated_at = none;
      },
      ground arith,
      refl,
      ground arith,
      ground arith,
    )

admitted :
    (anchor : AttestationAnchor) (caller : CallerIdentity) (agent_id : String)
    → anchor.status ≡ anchor_active
    → (anchor.type == "sts") ≡ true
    → (caller.account == "") ≡ false
    → attests anchor caller ≡ true
    → bind_anchor agent_id caller (some anchor)
      ≡ ok (record {
        agent_id = agent_id;
        org_id = "";
        subject = caller.arn;
        issuer = "aws-sts";
        platform_svid = false;
      })
admitted anchor caller agent_id active sts account matched =
    ground (arith, path→eq anchor.status anchor_active active)

unproved :
    (anchor : AttestationAnchor) (caller : CallerIdentity) (agent_id : String)
    → anchor.status ≡ "pending"
    → bind_anchor agent_id caller (some anchor) ≡ err "org has no active STS anchor"
unproved anchor caller agent_id pending = rw pending refl

module _ (env : Env) (v : OrgAware) (id cred agent_id : String) (w w' : World)
    (org org' : Organization) (shaped : looks_like_sts_credential v cred ≡ true)
    (at : lookup id w.store.orgs ≡ some org) (filed : org.org_id ≡ id)
    (there : ((get_agent agent_id w.store).agent_id == "") ≡ false)
    (owned : (get_agent agent_id w.store).org_id ≡ id) (named : (id == "") ≡ false) where
  -- The credential that activates the anchor of an organization registers the agents of that
  -- organization: after the 200, the verifier over the registry's own store accepts the same credential,
  -- for the agent whose session it is, if that agent's record is of the organization and the account
  -- that AWS attests is not empty.
  pub activation_admits :
      (caller : CallerIdentity)
      → activate_anchor env v.replay id (ok cred) w ≡ (reply 200 org', w')
      → v.replay cred ≡ ok caller
      → (caller.account == "") ≡ false
      → session_name_from_arn caller.arn ≡ ok agent_id
      → let v' : OrgAware = record v { store = store_of w'.store } in
        verify v' cred
        ≡ ok (record {
          agent_id = agent_id;
          org_id = "";
          subject = caller.arn;
          issuer = "aws-sts";
          platform_svid = false;
        })
  unfolding put_org get_org get_agent
  activation_admits caller h r account n =
      let (anchor, caller', r', sts, matched, anchored, kept, stored) =
        activate_anchor_lem env v.replay id cred w w' org org' at h in
      let same : caller' ≡ caller = cc (r, r') in
      let v' : OrgAware = record v { store = store_of w'.store } in
      let rec = get_agent agent_id w.store in
      let reads : v'.store.get_agent agent_id ≡ ok rec =
        ap (λ s. ok (get_agent agent_id s)) stored in
      let finds : v'.store.get_org rec.org_id ≡ ok (some org') =
        ap (λ s. ok (get_org rec.org_id s)) stored
        ∙ ap ok (
            lookup-insert_at rec.org_id org'.org_id org' w.store.orgs
              (owned ∙ sym (kept ∙ filed))) in
      verify_lem v' cred agent_id caller rec org' shaped r n reads there (rw owned named) finds
      ∙ rw anchored (
          admitted (as_active anchor (env.time w.ticks)) caller agent_id refl sts account
            (subst (λ c. attests anchor c ≡ true) same matched))

  -- A new registration of the anchor takes the old proof away: after the 200, no presigned AWS request
  -- for a session of an agent of the organization verifies over the registry's own store.
  pub registration_resets :
      (caller : CallerIdentity) (body : AnchorBody)
      → put_anchor id (ok body) w ≡ (reply 200 org', w')
      → v.replay cred ≡ ok caller
      → session_name_from_arn caller.arn ≡ ok agent_id
      → let v' : OrgAware = record v { store = store_of w'.store } in
        verify v' cred ≡ err "org has no active STS anchor"
  unfolding put_org get_org get_agent put_anchor
  registration_resets caller body h r n =
      let (anchor, anchored, pending, kept, stored) = put_anchor_lem id body w w' org org' at h in
      let v' : OrgAware = record v { store = store_of w'.store } in
      let rec = get_agent agent_id w.store in
      let reads : v'.store.get_agent agent_id ≡ ok rec =
        ap (λ s. ok (get_agent agent_id s)) stored in
      let finds : v'.store.get_org rec.org_id ≡ ok (some org') =
        ap (λ s. ok (get_org rec.org_id s)) stored
        ∙ ap ok (
            lookup-insert_at rec.org_id org'.org_id org' w.store.orgs
              (owned ∙ sym (kept ∙ filed))) in
      verify_lem v' cred agent_id caller rec org' shaped r n reads there (rw owned named) finds
      ∙ rw anchored (unproved anchor caller agent_id pending)
