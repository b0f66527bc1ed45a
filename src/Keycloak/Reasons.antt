-- ===== src/Keycloak/Reasons.antt =====
-- internal/orgdirectory/keycloak/keycloak.go: the reasons for which an account is locked, and what
-- each change of the attributes does to them.
use spawnly.Prelude.{
  String, ◌≡◌, refl, sym, ◌∙◌, inl, inr, Bool, true, false, not, ◌&&◌, ◌||◌, some, List, [], ◌∷◌,
  ◌++◌, ◌==◌, contains, contains-append, Bool-cases, Option-cases, eq_refl, arith, eq→path, path→eq,
}
use spawnly.Prelude.Assoc.{lookup, lookup-insert, lookup-erase}
use spawnly.Keycloak.{Rep}
use spawnly.Keycloak.Reps.{
  disabled_by_org, disabled_by_admin, first_of, user_attr_set, first_user_attr, write_attr,
  drop_attr, set_user_attr, add_to_user_attr_set, without, is_none_left, remove_from_user_attr_set,
  clear_user_attr, may_log_in,
}

-- The organizations that lock an account, and whether an admin does.
abbrev pub suspending : Rep → List String
suspending rep = user_attr_set rep disabled_by_org

abbrev pub is_banned : Rep → Bool
is_banned rep = not (first_user_attr rep disabled_by_admin == "")

-- An account may log in exactly if nobody locks it.
abbrev pub IsSound : Rep → Type 0
IsSound rep = rep.enabled ≡ some (may_log_in rep)

contains-without :
    (val : String) (vs : List String) (o : String)
    → contains (without val vs) o ≡ (not (val == o) && contains vs o)
contains-without val [] o = ground arith
contains-without val (v ∷ vs) o = ground (
  arith,
  contains-without val vs o,
  eq→path v val,
  eq→path v o,
  eq_refl o,
  path→eq val o,
  path→eq v o,
  eq→path val o,
)

pub none_left-contains :
    (vs : List String) → is_none_left vs ≡ true → (o : String) → contains vs o ≡ false
none_left-contains [] h o = refl
none_left-contains (v ∷ vs) h o = cc h

pub contains-none_left :
    (vs : List String) (o : String) → contains vs o ≡ true → is_none_left vs ≡ false
contains-none_left [] o h = cc h
contains-none_left (v ∷ vs) o h = refl

module _ (rep : Rep) (vals : List String) where
  pub suspending-write : suspending (write_attr disabled_by_org vals rep) ≡ vals
  suspending-write = rw lookup-insert refl

  pub suspending-ban : suspending (write_attr disabled_by_admin vals rep) ≡ suspending rep
  suspending-ban = rw lookup-insert refl

  pub banned-ban : is_banned (write_attr disabled_by_admin vals rep) ≡ not (first_of vals == "")
  banned-ban = rw lookup-insert refl

  pub banned-write : is_banned (write_attr disabled_by_org vals rep) ≡ is_banned rep
  banned-write = rw lookup-insert refl

module _ (rep : Rep) where
  pub suspending-drop : suspending (drop_attr disabled_by_org rep) ≡ []
  suspending-drop = rw lookup-erase refl

  pub suspending-lift : suspending (drop_attr disabled_by_admin rep) ≡ suspending rep
  suspending-lift = rw lookup-erase refl

  pub banned-lift : is_banned (drop_attr disabled_by_admin rep) ≡ false
  banned-lift = rw lookup-erase refl

  pub banned-drop : is_banned (drop_attr disabled_by_org rep) ≡ is_banned rep
  banned-drop = rw lookup-erase refl

  -- What each change of the attributes does to the reasons.
  pub ban_lem :
      let rep' = (set_user_attr disabled_by_admin "true" rep).1 in
      (suspending rep' ≡ suspending rep) × (is_banned rep' ≡ true)
  ban_lem = elim (Bool-cases (first_user_attr rep disabled_by_admin == "true")) [
    | inl e ↦ rw e (refl, rw (eq→path (first_user_attr rep disabled_by_admin) "true" e) refl)
    | inr e ↦ rw e (suspending-ban rep ("true" ∷ []), banned-ban rep ("true" ∷ []))
  ]

  pub lift_lem :
      let rep' = (clear_user_attr disabled_by_admin rep).1 in
      (suspending rep' ≡ suspending rep) × (is_banned rep' ≡ false)
  lift_lem = elim (Option-cases (lookup disabled_by_admin rep.attributes)) [
    | inl e ↦ rw e (refl, rw e refl)
    | inr (vs, e) ↦ rw e (suspending-lift, banned-lift)
  ]

  module _ (org : String) where
    pub add_lem :
        let rep' = (add_to_user_attr_set disabled_by_org org rep).1 in
        ((o : String) → contains (suspending rep') o ≡ (org == o || contains (suspending rep) o))
        × (is_banned rep' ≡ is_banned rep)
    add_lem = elim (Bool-cases (contains (suspending rep) org)) [
      | inl e ↦ rw e (λ o. ground (arith, e, eq→path org o), refl)
      | inr e ↦ rw e (
        λ o.
            rw
              (
                suspending-write rep (suspending rep ++ (org ∷ [])),
                contains-append (suspending rep) (org ∷ []) o,
              )
              (ground arith),
        banned-write rep (suspending rep ++ (org ∷ [])),
      )
    ]

    pub remove_lem :
        let rep' = (remove_from_user_attr_set disabled_by_org org rep).1 in
        ((o : String)
          → contains (suspending rep') o ≡ (not (org == o) && contains (suspending rep) o))
        × (is_banned rep' ≡ is_banned rep)
    remove_lem = elim (Bool-cases (contains (suspending rep) org)) [
      | inl e ↦ elim (Bool-cases (is_none_left (without org (suspending rep)))) [
        | inl gone ↦
            rw (e, gone)
              (
                λ o. rw suspending-drop (
                    sym (none_left-contains (without org (suspending rep)) gone o)
                    ∙ contains-without org (suspending rep) o),
                banned-drop,
              )
        | inr left ↦
            rw (e, left)
              (
                λ o.
                    rw (suspending-write rep (without org (suspending rep)))
                      (contains-without org (suspending rep) o),
                banned-write rep (without org (suspending rep)),
              )
      ]
      | inr e ↦ rw e (λ o. ground (arith, e, eq→path org o), refl)
    ]
