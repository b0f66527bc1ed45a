-- ===== src/Registrant.antt =====
-- internal/registrant/registrant.go and orgaware.go: who may register as which agent. The verifiers that
-- check signatures, the decoding of a credential, and the replay against AWS are arguments.
pub mod Binding
pub mod Activation
use spawnly.Prelude.{
  String, Bool, true, false, not, ◌&&◌, ◌||◌, Option, none, some, List, [], ◌∷◌, ◌==◌,
  if◌then◌else◌, Result, ok, err,
}
use text.Mathlib.Text.{starts_with}
use spawnly.Attestor.{CallerIdentity, session_name_from_arn, match_role_arn_pattern}
use spawnly.Registry.Types.{AgentRecord, AttestationAnchor, Organization, placement_substrate}
use spawnly.Registry.Anchor.{anchor_active}

pub record Identity : Type 0 where
  pub agent_id : String
  pub org_id : String
  pub subject : String
  pub issuer : String
  pub platform_svid : Bool

-- `orgStore`; an agent that is not there is the zero record.
pub record OrgStore : Type 0 where
  pub get_agent : String → Result AgentRecord
  pub get_org : String → Result (Option Organization)

-- `OrgAwareVerifier`, the wrapped verifiers and the decoders: `presigned` gives the method and the URL of
-- a presigned request, `sub_of` the `sub` of a token. A request is its credential.
pub record OrgAware : Type 0 where
  pub def : String → Result Identity
  pub spiffe : Option (String → Result Identity)
  pub store : OrgStore
  pub replay : String → Result CallerIdentity
  pub presigned : String → Option (String × String)
  pub sub_of : String → Option String

abbrev is_request : Option (String × String) → Bool
is_request none = false
is_request (some (method, url)) = not (method == "") && not (url == "")

abbrev pub looks_like_sts_credential : OrgAware → String → Bool
looks_like_sts_credential v cred = not (cred == "") && is_request (v.presigned cred)

abbrev is_spiffe_id : Option String → Bool
is_spiffe_id none = false
is_spiffe_id (some sub) = starts_with sub "spiffe://"

abbrev pub looks_like_spiffe_svid : OrgAware → String → Bool
looks_like_spiffe_svid v cred = is_spiffe_id (v.sub_of cred)

-- A store that fails lets a platform identity pass.
abbrev pub needs_org_svid : Result AgentRecord → Bool
needs_org_svid (err e) = false
needs_org_svid (ok rec) = not (rec.agent_id == "") && rec.placement == placement_substrate

abbrev pub is_of_org : String → AgentRecord → Bool
is_of_org org rec = not (rec.agent_id == "") && not (rec.org_id == "") && rec.org_id == org

unfoldable pub bind_spire_org : OrgAware → Identity → Result Identity
bind_spire_org v id =
    if id.org_id == ""
    then (if id.platform_svid && needs_org_svid (v.store.get_agent id.agent_id)
        then err "platform SVID cannot authenticate a substrate-placed record"
        else ok id)
    else elim (v.store.get_agent id.agent_id) [
      | err e ↦ err e
      | ok rec ↦
          if is_of_org id.org_id rec
          then ok id
          else err "SVID org does not match the agent record's org"
    ]

abbrev pub is_active_sts : AttestationAnchor → Bool
is_active_sts anchor = anchor.status == anchor_active && anchor.type == "sts"

abbrev anchor_of : Option Organization → Option AttestationAnchor
anchor_of none = none
anchor_of (some org) = org.anchor

-- Binds what AWS attests to the anchor of the record's organization.
abbrev pub bind_anchor : String → CallerIdentity → Option AttestationAnchor → Result Identity
bind_anchor agent_id caller none = err "org has no active STS anchor"
bind_anchor agent_id caller (some anchor) =
    if not (is_active_sts anchor)
    then err "org has no active STS anchor"
    else if caller.account == "" || not (caller.account == anchor.aws_account_id)
    then err "STS account is not the agent's org anchor account"
    else if not (match_role_arn_pattern anchor.role_arn_pattern caller.arn)
    then err "STS role ARN does not match the org anchor pattern"
    else ok (record {
      agent_id = agent_id;
      org_id = "";
      subject = caller.arn;
      issuer = "aws-sts";
      platform_svid = false;
    })

abbrev pub bind_record : OrgAware → String → String → CallerIdentity → AgentRecord → Result Identity
bind_record v cred agent_id caller rec =
    if rec.agent_id == ""
    then err "unknown agent for STS credential"
    else if rec.org_id == ""
    then v.def cred
    else elim (v.store.get_org rec.org_id) [
      | err e ↦ err e
      | ok org ↦ bind_anchor agent_id caller (anchor_of org)
    ]

abbrev pub verify_sts : OrgAware → String → Result Identity
verify_sts v cred = elim (v.replay cred) [
  | err e ↦ err e
  | ok caller ↦ elim (session_name_from_arn caller.arn) [
    | err e ↦ err e
    | ok agent_id ↦ elim (v.store.get_agent agent_id) [
      | err e ↦ err e
      | ok rec ↦ bind_record v cred agent_id caller rec
    ]
  ]
]

abbrev pub chosen : OrgAware → Bool → Option (String → Result Identity) → String → Result Identity
chosen v svid none = v.def
chosen v svid (some spiffe) = if svid then spiffe else v.def

abbrev pub then_bind : OrgAware → Result Identity → Result Identity
then_bind v (err e) = err e
then_bind v (ok id) = bind_spire_org v id

unfoldable pub verify : OrgAware → String → Result Identity
unfolding bind_spire_org session_name_from_arn match_role_arn_pattern
verify v cred =
    if not (looks_like_sts_credential v cred)
    then then_bind v (chosen v (looks_like_spiffe_svid v cred) v.spiffe cred)
    else verify_sts v cred
