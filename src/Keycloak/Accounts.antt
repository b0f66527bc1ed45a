-- ===== src/Keycloak/Accounts.antt =====
-- internal/orgdirectory/keycloak/keycloak.go: the calls that lock and unlock an account, on a Keycloak
-- that answers and that no one else edits meanwhile.
use spawnly.Prelude.{
  String, ◌≡◌, ◌↔◌, refl, sym, ap, ◌∙◌, inl, inr, Bool, true, false, Option, some, List, [], ◌∷◌,
  ◌==◌, contains, if◌then◌else◌, Bool-cases, eq_refl, eq→path,
}
use spawnly.Keycloak.{Rep, Admin}
use spawnly.Keycloak.Reps.{may_log_in}
use spawnly.Keycloak.Users.{disable_user, enable_user}
use spawnly.Keycloak.Reasons.{suspending, is_banned}
use spawnly.Keycloak.Lifecycle.{
  Edit, disable, enable, apply_edit, apply_edits, banned_in_the_end, suspends_in_the_end,
  apply_edits_exact,
}
use spawnly.Keycloak.Editing.{Answers, Replaced, disable_user_lem, enable_user_lem}

module _ {K : Type 0} (api : Admin K) where
  -- The calls, one after another; an edit says which.
  abbrev pub call : String → Edit → K → K
  call username (disable org) k = (disable_user api username org k).1
  call username (enable org) k = (enable_user api username org k).1

  abbrev pub calls : String → List Edit → K → K
  calls username [] k = k
  calls username (e ∷ es) k = calls username es (call username e k)

module _ {K : Type 0} (api : Admin K) (id_of : K → String → Option String)
    (rep_of : K → String → Option Rep) (answers : Answers api id_of rep_of) where
  call_lem :
      (username id : String) (e : Edit) (k : K) (rep : Rep)
      → id_of k username ≡ some id
      → rep_of k id ≡ some rep
      → Replaced id_of rep_of k id (apply_edit e rep) (call api username e k)
  call_lem username id (disable org) k rep found at =
      (disable_user_lem api id_of rep_of answers username id org k rep found at).1
  call_lem username id (enable org) k rep found at =
      (enable_user_lem api id_of rep_of answers username id org k rep found at).1

  pub calls_lem :
      (es : List Edit) (username id : String) (k : K) (rep : Rep)
      → id_of k username ≡ some id
      → rep_of k id ≡ some rep
      → Replaced id_of rep_of k id (apply_edits es rep) (calls api username es k)
  calls_lem [] username id k rep found at = (
    refl,
    λ j. elim (Bool-cases (id == j)) [
      | inl e ↦ rw e (ap (rep_of k) (sym (eq→path id j e)) ∙ at)
      | inr e ↦ rw e refl
    ],
  )
  calls_lem (e ∷ es) username id k rep found at =
      let (ids, reps) = call_lem username id e k rep found at in
      let k1 = call api username e k in
      let rep1 = apply_edit e rep in
      let (ids', reps') =
        calls_lem es username id k1 rep1 (ap (λ f. f username) ids ∙ found)
          (reps id ∙ rw (eq_refl id) refl) in
      (
        ids' ∙ ids,
        λ j.
            reps' j
            ∙ ap (λ o. if id == j then some (apply_edits es rep1) else o) (reps j)
            ∙ twice (id == j) (some (apply_edits es rep1)) (some rep1) (rep_of k j),
      )
    where
      twice :
          (b : Bool) (x y z : Option Rep)
          → (if b then x else (if b then y else z)) ≡ (if b then x else z)
      twice true x y z = refl
      twice false x y z = refl

  -- After any calls of `DisableUser` and `EnableUser` for one account, by any organizations and by admins
  -- in any order, the account may log in exactly if the last admin call was no ban and the last call of
  -- each organization was no suspension (what no call touched counts as at the start), and no other
  -- account has changed, if the account is there and may log in at the start exactly if nobody locks it.
  pub calls_exact :
      (es : List Edit) (username id : String) (k : K) (rep : Rep)
      → id_of k username ≡ some id
      → rep_of k id ≡ some rep
      → rep.enabled ≡ some (may_log_in rep)
      → (rep' : Rep) × (rep_of (calls api username es k) id ≡ some rep')
        × ((rep'.enabled ≡ some true) ↔ (
            (banned_in_the_end es (is_banned rep) ≡ false)
            × ((o : String) → suspends_in_the_end es o (contains (suspending rep) o) ≡ false)))
        × ((j : String) → (id == j) ≡ false → rep_of (calls api username es k) j ≡ rep_of k j)
  calls_exact es username id k rep found at sound =
      let (ids, reps) = calls_lem es username id k rep found at in
      (
        apply_edits es rep,
        reps id ∙ rw (eq_refl id) refl,
        apply_edits_exact es rep sound,
        λ j e. reps j ∙ rw e refl,
      )
