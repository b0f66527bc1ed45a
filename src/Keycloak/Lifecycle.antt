-- ===== src/Keycloak/Lifecycle.antt =====
-- internal/orgdirectory/keycloak/keycloak.go: the reasons for which an account is locked, as a platform
-- admin and each organization give them and take them back.
use spawnly.Prelude.{
  String, subst, ◌≡◌, ◌↔◌, refl, sym, ap, ◌∙◌, inl, inr, Bool, true, false, not, ◌&&◌, ◌||◌, Option,
  none, some, List, [], ◌∷◌, ◌==◌, contains, Bool-cases, eq_refl, arith, eq→path,
}
use spawnly.Keycloak.{Rep}
use spawnly.Keycloak.Reps.{
  disabled_by_org, disabled_by_admin, first_user_attr, set_user_attr, add_to_user_attr_set,
  is_none_left, remove_from_user_attr_set, clear_user_attr, is_off, is_same, heal, turn_off,
  turn_on, may_log_in, disable_rep, enable_rep, note_reason, turn_on_if,
}
use spawnly.Keycloak.Reasons.{
  suspending, is_banned, IsSound, contains-none_left, none_left-contains, ban_lem, lift_lem,
  add_lem, remove_lem,
}

-- An admin is the organization with the empty name.
pub data Edit : Type 0 where
  disable enable : String → Edit

abbrev pub apply_edit : Edit → Rep → Rep
apply_edit (disable org) rep = (disable_rep org rep).1
apply_edit (enable org) rep = (enable_rep org rep).1

abbrev pub banned_after : Edit → Bool → Bool
banned_after (disable org) banned = org == "" || banned
banned_after (enable org) banned = not (org == "") && banned

abbrev pub suspends_after : Edit → String → Bool → Bool
suspends_after (disable org) o before = (not (org == "") && org == o) || before
suspends_after (enable org) o before = not (not (org == "") && org == o) && before

-- What is to hold of a representation after an edit.
abbrev pub Follows : Edit → Rep → Rep → Type 0
Follows e rep rep' =
    IsSound rep'
    × (is_banned rep' ≡ banned_after e (is_banned rep))
    × ((o : String)
        → contains (suspending rep') o ≡ suspends_after e o (contains (suspending rep) o))

heal-IsSound : (rep : Rep) → IsSound rep → heal rep ≡ (false, rep)
heal-IsSound rep sound =
    rw (sound, never (first_user_attr rep disabled_by_admin == "") (is_none_left (suspending rep)))
      refl
  where
    never : (f n : Bool) → (not (f && n) && n && f) ≡ false
    never f n = ground arith

pub turn_off_lem :
    (p : Bool × Rep)
    → ((turn_off p).1.enabled ≡ some false) × ((turn_off p).1.attributes ≡ p.1.attributes)
turn_off_lem (changed, rep) = elim (Bool-cases (is_off rep.enabled)) [
  | inl e ↦ rw e (off rep.enabled e, refl)
  | inr e ↦ rw e (refl, refl)
]
  where
    off : (o : Option Bool) → is_off o ≡ true → o ≡ some false
    off none h = cc h
    off (some true) h = cc h
    off (some false) h = refl

turn_on_lem :
    (p : Bool × Rep)
    → ((turn_on p).1.enabled ≡ some (may_log_in p.1)) × ((turn_on p).1.attributes ≡ p.1.attributes)
turn_on_lem (changed, rep) = elim (Bool-cases (is_same rep.enabled (may_log_in rep))) [
  | inl e ↦ rw e (same rep.enabled (may_log_in rep) e, refl)
  | inr e ↦ rw e (refl, refl)
]
  where
    same : (o : Option Bool) (b : Bool) → is_same o b ≡ true → o ≡ some b
    same none b h = cc h
    same (some true) b h = cc
    same (some false) true h = cc h
    same (some false) false h = refl

-- The reasons are read off the attributes.
module _ (rep rep' : Rep) (same : rep'.attributes ≡ rep.attributes) where
  pub suspending-attributes : suspending rep' ≡ suspending rep
  suspending-attributes = rw same refl

  pub banned-attributes : is_banned rep' ≡ is_banned rep
  banned-attributes = rw same refl

  pub may_log_in-attributes : may_log_in rep' ≡ may_log_in rep
  may_log_in-attributes = rw same refl

module _ (e : Edit) (rep : Rep) (p : Bool × Rep)
    (banned : is_banned p.1 ≡ banned_after e (is_banned rep))
    (suspends : (o : String)
      → contains (suspending p.1) o ≡ suspends_after e o (contains (suspending rep) o)) where
  turn_on-Follows : Follows e rep (turn_on p).1
  turn_on-Follows =
      let (on, same) = turn_on_lem p in
      let rep' = (turn_on p).1 in
      (
        on ∙ ap some (sym (may_log_in-attributes p.1 rep' same)),
        banned-attributes p.1 rep' same ∙ banned,
        λ o. ap (λ vs. contains vs o) (suspending-attributes p.1 rep' same) ∙ suspends o,
      )

  turn_off-Follows : may_log_in p.1 ≡ false → Follows e rep (turn_off p).1
  turn_off-Follows locked =
      let (off, same) = turn_off_lem p in
      let rep' = (turn_off p).1 in
      (
        off ∙ ap some (sym (may_log_in-attributes p.1 rep' same ∙ locked)),
        banned-attributes p.1 rep' same ∙ banned,
        λ o. ap (λ vs. contains vs o) (suspending-attributes p.1 rep' same) ∙ suspends o,
      )

disable-Follows :
    (org : String) (rep : Rep) → IsSound rep → Follows (disable org) rep (disable_rep org rep).1
disable-Follows org rep sound = elim (Bool-cases (org == "")) [
  | inl e ↦
      let p = set_user_attr disabled_by_admin "true" rep in
      let (kept, banned) = ban_lem rep in
      let noted : note_reason org rep ≡ p = rw e refl in
      subst (λ q. Follows (disable org) rep (turn_off q).1) (sym noted)
        (turn_off-Follows (disable org) rep p (rw e banned)
          (λ o. rw e (ap (λ vs. contains vs o) kept)) (ground (arith, banned)))
  | inr e ↦
      let p = add_to_user_attr_set disabled_by_org org rep in
      let (added, kept) = add_lem rep org in
      let noted : note_reason org rep ≡ (p.0, p.1) = rw (e, heal-IsSound rep sound) refl in
      let locked : is_none_left (suspending p.1) ≡ false =
        contains-none_left (suspending p.1) org (added org ∙ rw (eq_refl org) refl) in
      subst (λ q. Follows (disable org) rep (turn_off q).1) (sym noted)
        (turn_off-Follows (disable org) rep (p.0, p.1) (rw e kept) (λ o. rw e (added o))
          (rw locked (and_false (first_user_attr p.1 disabled_by_admin == ""))))
]
  where
    and_false : (b : Bool) → (b && false) ≡ false
    and_false b = ground arith

enable-Follows :
    (org : String) (rep : Rep) → IsSound rep → Follows (enable org) rep (enable_rep org rep).1
enable-Follows org rep sound = elim (Bool-cases (org == "")) [
  | inl e ↦
      let p = clear_user_attr disabled_by_admin rep in
      let (kept, lifted) = lift_lem rep in
      let edited : enable_rep org rep ≡ turn_on p = rw e refl in
      subst (λ q. Follows (enable org) rep q.1) (sym edited)
        (turn_on-Follows (enable org) rep p (rw e lifted)
          (λ o. rw e (ap (λ vs. contains vs o) kept)))
  | inr e ↦
      let p = remove_from_user_attr_set disabled_by_org org rep in
      let (removed, kept) = remove_lem rep org in
      let edited : enable_rep org rep ≡ turn_on_if p = rw e refl in
      subst (λ q. Follows (enable org) rep q.1) (sym edited)
        (elim (Bool-cases (contains (suspending rep) org)) [
          | inl h ↦
              let same : turn_on_if p ≡ turn_on (true, p.1) = rw h refl in
              subst (λ q. Follows (enable org) rep q.1) (sym same)
                (turn_on-Follows (enable org) rep (true, p.1) (rw e kept) (λ o. rw e (removed o)))
          | inr h ↦
              let same : turn_on_if p ≡ (false, rep) = rw h refl in
              subst (λ q. Follows (enable org) rep q.1) (sym same)
                (sound, rw e refl, λ o. rw e (ground (arith, h, eq→path org o)))
        ])
]

-- Any edits, one after another.
abbrev pub apply_edits : List Edit → Rep → Rep
apply_edits [] rep = rep
apply_edits (e ∷ es) rep = apply_edits es (apply_edit e rep)

abbrev pub banned_in_the_end : List Edit → Bool → Bool
banned_in_the_end [] banned = banned
banned_in_the_end (e ∷ es) banned = banned_in_the_end es (banned_after e banned)

abbrev pub suspends_in_the_end : List Edit → String → Bool → Bool
suspends_in_the_end [] o before = before
suspends_in_the_end (e ∷ es) o before = suspends_in_the_end es o (suspends_after e o before)

pub apply_edit-Follows : (e : Edit) (rep : Rep) → IsSound rep → Follows e rep (apply_edit e rep)
apply_edit-Follows (disable org) = disable-Follows org
apply_edit-Follows (enable org) = enable-Follows org

apply_edits_lem :
    (es : List Edit) (rep : Rep)
    → IsSound rep
    → let rep' = apply_edits es rep in
      IsSound rep'
      × (is_banned rep' ≡ banned_in_the_end es (is_banned rep))
      × ((o : String)
          → contains (suspending rep') o ≡ suspends_in_the_end es o (contains (suspending rep) o))
apply_edits_lem [] rep sound = (sound, refl, λ o. refl)
apply_edits_lem (e ∷ es) rep sound =
    let (sound1, banned1, suspends1) = apply_edit-Follows e rep sound in
    let (sound2, banned2, suspends2) = apply_edits_lem es (apply_edit e rep) sound1 in
    (
      sound2,
      banned2 ∙ ap (banned_in_the_end es) banned1,
      λ o. suspends2 o ∙ ap (suspends_in_the_end es o) (suspends1 o),
    )

contained : (vs : List String) → ((o : String) → contains vs o ≡ false) → is_none_left vs ≡ true
contained [] h = refl
contained (v ∷ vs) h = ground (arith, h v, eq_refl v)

-- The edits, one after another, as their independent reasons say.
pub apply_edits_exact :
    (es : List Edit) (rep : Rep)
    → rep.enabled ≡ some (may_log_in rep)
    → ((apply_edits es rep).enabled ≡ some true) ↔ (
        (banned_in_the_end es (is_banned rep) ≡ false)
        × ((o : String) → suspends_in_the_end es o (contains (suspending rep) o) ≡ false))
apply_edits_exact es rep sound =
    let rep' = apply_edits es rep in
    let (sound', banned, suspends) = apply_edits_lem es rep sound in
    let f = first_user_attr rep' disabled_by_admin == "" in
    (
      λ on.
          let free : may_log_in rep' ≡ true = cc (sound', on) in
          (
            sym banned ∙ ground arith,
            λ o. sym (suspends o) ∙ none_left-contains (suspending rep') (ground arith) o,
          ),
      λ (unbanned, free).
          sound'
          ∙ ap some
              (ground (arith, banned, contained (suspending rep') (λ o. suspends o ∙ free o))),
    )
