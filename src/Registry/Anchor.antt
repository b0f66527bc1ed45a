-- ===== src/Registry/Anchor.antt =====
-- cmd/registry/anchor.go and substrate.go: the attestation anchor and the substrate of an organization,
-- each of which is pending when it is recorded, and active once it is proved. Every handler is behind the
-- control-plane gate.
pub mod CatchAll
use spawnly.Prelude.{
  ℕ, suc, String, Bool, true, false, not, ◌&&◌, Option, none, some, List, [], ◌∷◌, ◌==◌,
  if◌then◌else◌, Result, ok, err,
}
use spawnly.Prelude.Text.{codes, every, is_digit}
use text.Mathlib.Text.{starts_with}
use spawnly.Attestor.{CallerIdentity, match_role_arn_pattern}
use spawnly.Registry.Types.{AttestationAnchor, Organization, Substrate}
use spawnly.Registry.Store.{get_org, put_org}
use spawnly.Registry.World.{Env, World, Response, reply, error, not_found, set_store}

abbrev pub anchor_pending : String
anchor_pending = "pending"

abbrev pub anchor_active : String
anchor_active = "active"

abbrev substrate_pending : String
substrate_pending = "pending"

abbrev substrate_active : String
substrate_active = "active"

pub record AnchorBody : Type 0 where
  pub type : String
  pub aws_account_id : String
  pub role_arn_pattern : String

abbrev has_twelve : List ℕ → Bool
has_twelve (_ ∷ _ ∷ _ ∷ _ ∷ _ ∷ _ ∷ _ ∷ _ ∷ _ ∷ _ ∷ _ ∷ _ ∷ []) = true
has_twelve _ = false

-- `awsAccountID`
unfoldable pub is_account_id : String → Bool
is_account_id s = has_twelve (codes s) && every is_digit (codes s)

abbrev pub store_org : Organization → World → World
store_org org w = set_store (put_org org w.store) w

-- `PUT /v1/orgs/{id}/anchor`
unfoldable pub put_anchor : String → Result AnchorBody → World → Response Organization × World
unfolding is_account_id get_org
put_anchor id body w = elim body [
  | err e ↦ (error 400 e, w)
  | ok b ↦
      if not (b.type == "sts")
      then (error 400 "unsupported anchor type", w)
      else if not (is_account_id b.aws_account_id)
      then (error 400 "invalid awsAccountId", w)
      else if not (starts_with b.role_arn_pattern "arn:")
      then (error 400 "invalid roleArnPattern", w)
      else elim (get_org id w.store) [
        | none ↦ (not_found, w)
        | some org ↦
            let anchor : AttestationAnchor = record {
              type = "sts";
              aws_account_id = b.aws_account_id;
              role_arn_pattern = b.role_arn_pattern;
              status = anchor_pending;
              activated_at = none;
            } in
            let org' : Organization = record org { anchor = some anchor } in
            (reply 200 org', store_org org' w)
      ]
]

-- `DELETE /v1/orgs/{id}/anchor`
unfoldable pub delete_anchor : String → World → Response {0} Unit × World
unfolding get_org
delete_anchor id w = elim (get_org id w.store) [
  | none ↦ (not_found, w)
  | some org ↦
      let org' : Organization = record org { anchor = none } in (reply 204 tt, store_org org' w)
]

-- Whether what AWS attests is what the anchor names.
abbrev pub attests : AttestationAnchor → CallerIdentity → Bool
attests anchor caller =
    caller.account == anchor.aws_account_id
    && match_role_arn_pattern anchor.role_arn_pattern caller.arn

abbrev pub as_active : AttestationAnchor → ℕ → AttestationAnchor
as_active anchor now = record anchor { status = anchor_active; activated_at = some now }

abbrev activation_failed : World → Response Organization × World
activation_failed w = (error 400 "activation failed", w)

-- `POST /v1/orgs/{id}/anchor/activate`, with `activateAnchor`: every refusal is the same. `replay` is
-- `attestor.VerifyCallerIdentity`.
unfoldable pub activate_anchor :
    Env
    → (String → Result CallerIdentity)
    → String
    → Result String
    → World
    → Response Organization × World
unfolding get_org match_role_arn_pattern
activate_anchor env replay id body w = elim body [
  | err e ↦ activation_failed w
  | ok credential ↦ elim (get_org id w.store) [
    | none ↦ activation_failed w
    | some org ↦ elim org.anchor [
      | none ↦ activation_failed w
      | some anchor ↦
          if not (anchor.type == "sts")
          then activation_failed w
          else if credential == ""
          then activation_failed w
          else elim (replay credential) [
            | err e ↦ activation_failed w
            | ok caller ↦
                if not (attests anchor caller)
                then activation_failed w
                else let org' : Organization = record org {
                  anchor = some (as_active anchor (env.time w.ticks));
                } in
                  (reply 200 org', store_org org' (record w { ticks = suc w.ticks }))
          ]
    ]
  ]
]

-- `PUT /v1/orgs/{id}/substrate`; the body is the fingerprint and the serial of the certificate.
unfoldable pub put_substrate :
    Env → String → Result (String × String) → World → Response Organization × World
unfolding get_org
put_substrate env id body w = elim body [
  | err e ↦ (error 400 e, w)
  | ok (fingerprint, serial) ↦
      if fingerprint == ""
      then (error 400 "certFingerprint is required", w)
      else elim (get_org id w.store) [
        | none ↦ (not_found, w)
        | some org ↦
            let substrate : Substrate = record {
              status = substrate_pending;
              cert_fingerprint = fingerprint;
              cert_serial = serial;
              issued_at = env.time w.ticks;
              activated_at = none;
            } in
            let org' : Organization = record org { substrate = some substrate } in
            (reply 200 org', store_org org' (record w { ticks = suc w.ticks }))
      ]
]

abbrev substrate_of : Option Organization → Option (Organization × Substrate)
substrate_of none = none
substrate_of (some org) = elim org.substrate [ none ↦ none | some sub ↦ some (org, sub) ]

-- `POST /v1/orgs/{id}/substrate/activate`
unfoldable pub activate_substrate : Env → String → World → Response Substrate × World
unfolding get_org
activate_substrate env id w = elim (substrate_of (get_org id w.store)) [
  | none ↦ (not_found, w)
  | some (org, sub) ↦
      if sub.status == substrate_active
      then (reply 200 sub, w)
      else let sub' : Substrate = record sub {
        status = substrate_active;
        activated_at = some (env.time w.ticks);
      } in
        (
          reply 200 sub',
          store_org (record org { substrate = some sub' }) (record w { ticks = suc w.ticks }),
        )
]

-- `DELETE /v1/orgs/{id}/substrate`
unfoldable pub delete_substrate : String → World → Response {0} Unit × World
unfolding get_org
delete_substrate id w = elim (get_org id w.store) [
  | none ↦ (not_found, w)
  | some org ↦
      let org' : Organization = record org { substrate = none } in (reply 204 tt, store_org org' w)
]
