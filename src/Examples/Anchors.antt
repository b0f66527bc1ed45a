-- ===== src/Examples/Anchors.antt =====
-- The verification of a presigned AWS request and of an SVID at a concrete store.
use spawnly.Prelude.{
  String, ◌≡◌, ◌⊎◌, refl, true, false, none, some, [], ◌∷◌, ◌==◌, if◌then◌else◌, ok, err, Option, ℕ,
}
use spawnly.Prelude.Assoc.{lookup}
use spawnly.Prelude.Text.{has_part}
use spawnly.Attestor.{CallerIdentity, session_name_from_arn, match_role_arn_pattern, glob}
use spawnly.Registry.Types.{AgentRecord, AttestationAnchor, Organization, placement_substrate}
use spawnly.Registry.Store.{get_agent, get_org}
use spawnly.Registry.World.{World, reply}
use spawnly.Registry.Anchor.{AnchorBody, put_anchor, activate_anchor, is_account_id}
use spawnly.Registry.Anchor.CatchAll.{catch_all, any_role_activates}
use spawnly.Registrant.{Identity, OrgAware, looks_like_spiffe_svid, chosen, bind_spire_org, verify}
use spawnly.Registrant.Binding.{Anchored, verify_binds_sts, verify_binds_svid}
use spawnly.Registrant.Activation.{store_of, activation_admits, registration_resets}
use spawnly.Examples.Data.{env, store, world, root_agent}

abbrev caller : CallerIdentity
caller = record {
  account = "123456789012";
  arn = "arn:aws:sts::123456789012:assumed-role/worker/w-1";
}

abbrev worker : AgentRecord
worker = record root_agent { agent_id = "w-1"; org_id = "acme"; placement = "remote" }

abbrev anchor : String → AttestationAnchor
anchor status = record {
  type = "sts";
  aws_account_id = "123456789012";
  role_arn_pattern = "arn:aws:sts::*/worker/*";
  status = status;
  activated_at = none;
}

abbrev acme : String → Organization
acme status = record {
  org_id = "acme";
  name = "Acme";
  removal_disposition = "";
  disabled = false;
  anchor = some (anchor status);
  substrate = none;
  created_at = 1;
}

abbrev with_status : String → World
with_status status = record world {
  store = record store { agents = ("w-1", worker) ∷ []; orgs = ("acme", acme status) ∷ [] };
}

abbrev identity : Identity
identity = record {
  agent_id = "w-1";
  org_id = "acme";
  subject = "spiffe://spawnly/org/acme/agent/w-1";
  issuer = "spiffe-svid";
  platform_svid = false;
}

-- The credential "sts" is a presigned request, and every other one an SVID of the worker.
abbrev aware : OrgAware
aware = record {
  def = λ cred. ok identity;
  spiffe = none;
  store = store_of (with_status "active").store;
  replay = λ cred. ok caller;
  presigned = λ cred. if cred == "sts" then some ("GET", "https://sts") else none;
  sub_of = λ cred. none;
}

abbrev sts_identity : Identity
sts_identity = record {
  agent_id = "w-1";
  org_id = "";
  subject = caller.arn;
  issuer = "aws-sts";
  platform_svid = false;
}

verify_binds_sts_example :
    (c : CallerIdentity) × (agent_id : String) × (rec : AgentRecord) × (aware.replay "sts" ≡ ok c)
    × (session_name_from_arn c.arn ≡ ok agent_id)
    × (aware.store.get_agent agent_id ≡ ok rec)
    × ((rec.agent_id == "") ≡ false)
    × ((((rec.org_id == "") ≡ true) × (aware.def "sts" ≡ ok sts_identity))
        ⊎ (((rec.org_id == "") ≡ false)
            × Anchored aware rec c
            × (sts_identity.agent_id ≡ agent_id)))
unfolding verify session_name_from_arn match_role_arn_pattern glob has_part get_agent get_org lookup
verify_binds_sts_example = verify_binds_sts aware "sts" sts_identity refl refl

verify_binds_svid_example :
    (chosen aware (looks_like_spiffe_svid aware "svid") aware.spiffe "svid" ≡ ok identity)
    × ((identity.org_id == "") ≡ false
        → (rec : AgentRecord) × (aware.store.get_agent identity.agent_id ≡ ok rec)
          × ((rec.agent_id == "") ≡ false)
          × (rec.org_id ≡ identity.org_id))
    × ((identity.org_id == "") ≡ true
        → identity.platform_svid ≡ true
        → (rec : AgentRecord) → aware.store.get_agent identity.agent_id ≡ ok rec
        → (rec.agent_id == "") ≡ false
        → (rec.placement == placement_substrate) ≡ false)
unfolding verify bind_spire_org get_agent lookup
verify_binds_svid_example = verify_binds_svid aware "svid" identity refl refl

abbrev unproven : World
unproven = with_status "pending"

abbrev proved : Organization
proved = record (acme "pending") {
  anchor = some (record (anchor "pending") { status = "active"; activated_at = some 1000 });
}

activation_admits_example :
    verify
      (record aware {
        store = store_of (activate_anchor env aware.replay "acme" (ok "sts") unproven).1.store;
      })
      "sts"
    ≡ ok sts_identity
unfolding activate_anchor match_role_arn_pattern glob get_org get_agent lookup session_name_from_arn
    has_part
activation_admits_example =
    activation_admits env aware "acme" "sts" "w-1" unproven
      (activate_anchor env aware.replay "acme" (ok "sts") unproven).1 (acme "pending") proved refl
      refl refl refl refl refl caller refl refl refl refl

abbrev body : AnchorBody
body = record { type = "sts"; aws_account_id = "123456789012"; role_arn_pattern = "arn:aws:sts::*" }

abbrev reset : Organization
reset = record (acme "active") {
  anchor = some (record (anchor "pending") { role_arn_pattern = "arn:aws:sts::*" });
}

registration_resets_example :
    verify
      (record aware {
        store = store_of (put_anchor "acme" (ok body) (with_status "active")).1.store;
      })
      "sts"
    ≡ err "org has no active STS anchor"
unfolding put_anchor is_account_id get_org get_agent lookup session_name_from_arn has_part
registration_resets_example =
    registration_resets env aware "acme" "sts" "w-1" (with_status "active")
      (put_anchor "acme" (ok body) (with_status "active")).1 (acme "active") reset refl refl refl
      refl refl refl caller body refl refl refl

abbrev catch_all_anchor : String → Option ℕ → Organization
catch_all_anchor status at = record (acme "active") {
  anchor = some (record {
    type = "sts";
    aws_account_id = "123456789012";
    role_arn_pattern = catch_all;
    status = status;
    activated_at = at;
  });
}

any_role_activates_example :
    let r =
      put_anchor "acme"
        (ok
          (record { type = "sts"; aws_account_id = "123456789012"; role_arn_pattern = catch_all }))
        (with_status "active") in
    (r.0 ≡ reply 200 (catch_all_anchor "pending" none))
    × ((activate_anchor env aware.replay "acme" (ok "sts") r.1).0
        ≡ reply 200 (catch_all_anchor "active" (some 1000)))
unfolding lookup is_account_id
any_role_activates_example =
    any_role_activates env aware.replay "acme" "sts" "123456789012" (with_status "active")
      (acme "active") refl refl refl refl caller refl refl (_, refl, refl)
