-- ===== src/Consent.antt =====
-- internal/registry/consent.go: consent records, the keys of the consent edges, and the decision
-- whether a stored consent covers a new spawn. Times are nanoseconds since the epoch; a nil slice
-- and an empty one are the same list.
pub mod Coverage
use spawnly.Prelude.Text.{codes, every, is_lower, is_upper, is_digit, one_of}
use spawnly.Prelude.{
  ℕ, String, Bool, true, false, ◌&&◌, ◌||◌, not, Option, none, some, List, [], ◌∷◌, ltb, ◌==◌, ◌⧺◌,
  contains, if◌then◌else◌,
}

-- The class `[A-Za-z0-9._:@-]`.
abbrev pub is_user_id_char : ℕ → Bool
is_user_id_char c =
    is_lower c || is_upper c || is_digit c || one_of (b'.' ∷ b'_' ∷ b':' ∷ b'@' ∷ b'-' ∷ []) c

unfoldable pub valid_user_id : String → Bool
valid_user_id user_id = not (user_id == "") && every is_user_id_char (codes user_id)

pub record ConsentRecord : Type 0 where
  pub id : String
  pub user_id : String
  pub parent_type : String
  pub child_type : String
  pub scopes : List String
  pub granted_at : ℕ
  pub expires_at : Option ℕ
  pub revoked : Bool

pub record ConsentDecision : Type 0 where
  pub granted : Bool
  pub reason : String

-- `ConsentRequestStatus` is a string type; these are its constants.
abbrev pub consent_pending : String
consent_pending = "pending"

abbrev pub consent_approved : String
consent_approved = "approved"

abbrev pub consent_denied : String
consent_denied = "denied"

pub record ConsentRequest : Type 0 where
  pub id : String
  pub user_id : String
  pub parent_type : String
  pub child_type : String
  pub agent_id : String
  pub scopes : List String
  pub binding_message : String
  pub status : String
  pub created_at : ℕ
  pub resolved_at : Option ℕ
  pub external_ref : String

unfoldable pub consent_edge_key : String → String → String → String
consent_edge_key user_id parent_type child_type = user_id ⧺ "|" ⧺ parent_type ⧺ "|" ⧺ child_type

unfoldable pub open_request_key : String → String → String → String → String
open_request_key user_id parent_type child_type agent_id =
    if not (agent_id == "")
    then "agent:" ⧺ agent_id
    else consent_edge_key user_id parent_type child_type

-- The set that the source builds from `granted` is the list itself, asked by `contains`.
unfoldable pub first_uncovered_scope : List String → List String → String
first_uncovered_scope granted [] = ""
first_uncovered_scope granted (sc ∷ rest) =
    if not (contains granted sc) then sc else first_uncovered_scope granted rest

-- `rec.ExpiresAt != nil && now.After(*rec.ExpiresAt)`
abbrev pub is_expired : Option ℕ → ℕ → Bool
is_expired none now = false
is_expired (some t) now = ltb t now

-- The reason puts a scope between plain quotes, where the code writes it with Go's escapes.
unfoldable pub evaluate_consent : ConsentRecord → List String → ℕ → ConsentDecision
evaluate_consent rec requested now =
    let sc = first_uncovered_scope rec.scopes requested in
    if rec.revoked
    then record { granted = false; reason = "consent revoked" }
    else if is_expired rec.expires_at now
    then record { granted = false; reason = "consent expired" }
    else if not (sc == "")
    then record { granted = false; reason = "scope \"" ⧺ sc ⧺ "\" not previously granted" }
    else record { granted = true; reason = "matched" }
