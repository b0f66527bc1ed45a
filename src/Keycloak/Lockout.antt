-- ===== src/Keycloak/Lockout.antt =====
-- internal/orgdirectory/keycloak/keycloak.go: accounts that were locked before their reasons were kept.
use spawnly.Prelude.{
  String, subst, ◌≡◌, refl, sym, ap, ◌∙◌, ◌⊎◌, inl, inr, Bool, true, false, not, some, List, [],
  ◌∷◌, ◌==◌, All, arith,
}
use spawnly.Keycloak.{Rep}
use spawnly.Keycloak.Reps.{
  heal, first_user_attr, disabled_by_admin, disabled_by_org, note_reason, set_user_attr,
  add_to_user_attr_set, disable_rep, enable_rep,
}
use spawnly.Keycloak.Reasons.{suspending, is_banned, IsSound, ban_lem, add_lem}
use spawnly.Keycloak.Lifecycle.{
  Edit, disable, enable, apply_edit, apply_edits, apply_edit-Follows, turn_off_lem,
  banned-attributes,
}

-- Locked, for no reason that the attributes name.
abbrev pub IsLegacy : Rep → Type 0
IsLegacy rep = (rep.enabled ≡ some false) × (is_banned rep ≡ false) × (suspending rep ≡ [])

-- An edit by an organization.
abbrev pub IsOrgs : Edit → Type 0
IsOrgs (disable org) = (org == "") ≡ false
IsOrgs (enable org) = (org == "") ≡ false

abbrev IsLocked : Rep → Type 0
IsLocked rep = IsLegacy rep ⊎ (IsSound rep × (is_banned rep ≡ true))

heal-IsLegacy : (rep : Rep) → IsLegacy rep → heal rep ≡ set_user_attr disabled_by_admin "true" rep
heal-IsLegacy rep (off, unbanned, none) =
    rw (off, none, negated (first_user_attr rep disabled_by_admin == "") unbanned) refl
  where
    negated : (b : Bool) → not b ≡ false → b ≡ true
    negated b h = ground arith

disable-IsLegacy :
    (org : String) (rep : Rep)
    → (org == "") ≡ false
    → IsLegacy rep
    → IsLocked (apply_edit (disable org) rep)
disable-IsLegacy org rep named legacy =
    let q = (set_user_attr disabled_by_admin "true" rep).1 in
    let p = add_to_user_attr_set disabled_by_org org q in
    let (kept, banned) = ban_lem rep in
    let (_, still) = add_lem q org in
    let (off, same) = turn_off_lem (note_reason org rep) in
    let noted : (note_reason org rep).1 ≡ p.1 = rw (named, heal-IsLegacy rep legacy) refl in
    let rep' = (disable_rep org rep).1 in
    let now : is_banned rep' ≡ true =
      banned-attributes p.1 rep' (same ∙ ap (λ r. r.attributes) noted) ∙ still ∙ banned in
    inr (off ∙ ap some (ground (arith, now)), now)

enable-IsLegacy :
    (org : String) (rep : Rep)
    → (org == "") ≡ false
    → IsLegacy rep
    → apply_edit (enable org) rep ≡ rep
enable-IsLegacy org rep named (off, unbanned, none) =
    let edited : enable_rep org rep ≡ (false, rep) = rw (named, none) refl in ap (λ p. p.1) edited

apply_edit-IsLocked : (e : Edit) (rep : Rep) → IsOrgs e → IsLocked rep → IsLocked (apply_edit e rep)
apply_edit-IsLocked (disable org) rep named (inl legacy) = disable-IsLegacy org rep named legacy
apply_edit-IsLocked (enable org) rep named (inl legacy) =
    subst IsLocked (sym (enable-IsLegacy org rep named legacy)) (inl legacy)
apply_edit-IsLocked (disable org) rep named (inr (sound, banned)) =
    let (sound', banned', _) = apply_edit-Follows (disable org) rep sound in
    inr (sound', banned' ∙ rw (named, banned) refl)
apply_edit-IsLocked (enable org) rep named (inr (sound, banned)) =
    let (sound', banned', _) = apply_edit-Follows (enable org) rep sound in
    inr (sound', banned' ∙ rw (named, banned) refl)

apply_edits-IsLocked :
    (es : List Edit) (rep : Rep) → All IsOrgs es → IsLocked rep → IsLocked (apply_edits es rep)
apply_edits-IsLocked [] rep named locked = locked
apply_edits-IsLocked (e ∷ es) rep (named, rest) locked =
    apply_edits-IsLocked es (apply_edit e rep) rest (apply_edit-IsLocked e rep named locked)

-- An account that is locked for no reason that its attributes name stays locked, whatever organizations
-- suspend it and lift their suspensions.
pub lockout_kept :
    (es : List Edit) (rep : Rep)
    → rep.enabled ≡ some false
    → is_banned rep ≡ false
    → suspending rep ≡ []
    → All IsOrgs es
    → (apply_edits es rep).enabled ≡ some false
lockout_kept es rep off unbanned none named =
    elim (apply_edits-IsLocked es rep named (inl (off, unbanned, none))) [
      | inl (off', _, _) ↦ off'
      | inr (sound, banned) ↦ sound ∙ ap some (ground (arith, banned))
    ]

-- The lock of an admin stays, whatever organizations do after it.
pub banned_stays :
    (es : List Edit) (rep : Rep)
    → All IsOrgs es
    → (apply_edits es (apply_edit (disable "") rep)).enabled ≡ some false
banned_stays es rep named =
    let rep' = apply_edit (disable "") rep in
    let p = set_user_attr disabled_by_admin "true" rep in
    let (off, same) = turn_off_lem (note_reason "" rep) in
    let now : is_banned rep' ≡ true = banned-attributes p.1 rep' same ∙ (ban_lem rep).1 in
    elim (apply_edits-IsLocked es rep' named (inr (off ∙ ap some (ground (arith, now)), now))) [
      | inl (off', _, _) ↦ off'
      | inr (sound, banned) ↦ sound ∙ ap some (ground (arith, banned))
    ]
