-- ===== src/Keycloak/Editing.antt =====
-- internal/orgdirectory/keycloak/keycloak.go: one lock or unlock of an account, on a Keycloak that answers
-- and that no one else edits meanwhile.
use spawnly.Prelude.{
  String, ◌≡◌, refl, sym, ap, ◌∙◌, subst, inl, inr, Bool, true, false, Option, some, List, ◌==◌,
  if◌then◌else◌, Bool-cases, eq→path, arith,
}
use spawnly.Keycloak.{Rep, UserRep, Admin, done, failed, status_is, or_fine, or_error}
use spawnly.Keycloak.Requests.{and_or-done}
use spawnly.Keycloak.Reps.{disable_rep, enable_rep}
use spawnly.Keycloak.Users.{
  user_named, write_back, resolve_user_id, edit_user, disable_found, disable_user, enable_found,
  enable_user,
}
use spawnly.Keycloak.Lifecycle.{disable, enable, apply_edit}

-- What the requests on users do, over the ids of the user names and the representations of the ids.
pub record Answers {K : Type 0} (api : Admin K) (id_of : K → String → Option String)
    (rep_of : K → String → Option Rep) : Type 0 where
  pub names :
      (username : String) (k : K)
      → (us : List UserRep) × ((api.get_users_named username k).0 ≡ done us)
        × (user_named username us ≡ id_of k username)
        × (id_of (api.get_users_named username k).1 ≡ id_of k)
        × (rep_of (api.get_users_named username k).1 ≡ rep_of k)
  pub reads :
      (id : String) (k : K) (rep : Rep)
      → rep_of k id ≡ some rep
      → ((api.get_user id k).0 ≡ done rep)
        × (id_of (api.get_user id k).1 ≡ id_of k)
        × (rep_of (api.get_user id k).1 ≡ rep_of k)
  pub writes :
      (id : String) (k : K) (rep : Rep)
      → ((api.put_user id rep k).0 ≡ done tt)
        × (id_of (api.put_user id rep k).1 ≡ id_of k)
        × ((j : String)
            → rep_of (api.put_user id rep k).1 j ≡ (if id == j then some rep else rep_of k j))
  pub logs_out :
      (id : String) (k : K)
      → ((api.logout_user id k).0 ≡ done tt)
        × (id_of (api.logout_user id k).1 ≡ id_of k)
        × (rep_of (api.logout_user id k).1 ≡ rep_of k)

-- One representation is replaced.
abbrev pub Replaced :
    {K : Type 0}
    → (K → String → Option String)
    → (K → String → Option Rep)
    → K
    → String
    → Rep
    → K
    → Type 0
Replaced id_of rep_of k id rep k' =
    (id_of k' ≡ id_of k) × ((j : String) → rep_of k' j ≡ (if id == j then some rep else rep_of k j))

-- An edit that reports no change makes none.
disable_rep-same :
    (org : String) (rep : Rep) → (disable_rep org rep).0 ≡ false → (disable_rep org rep).1 ≡ rep
disable_rep-same org rep h = ground arith

enable_rep-same :
    (org : String) (rep : Rep) → (enable_rep org rep).0 ≡ false → (enable_rep org rep).1 ≡ rep
enable_rep-same org rep h = ground arith

module _ {K : Type 0} (api : Admin K) (id_of : K → String → Option String)
    (rep_of : K → String → Option Rep) (answers : Answers api id_of rep_of) where
  resolve_user_id_lem :
      (username : String) (k : K)
      → ((resolve_user_id api username k).0 ≡ done (id_of k username))
        × (id_of (resolve_user_id api username k).1 ≡ id_of k)
        × (rep_of (resolve_user_id api username k).1 ≡ rep_of k)
  unfolding resolve_user_id
  resolve_user_id_lem username k =
      let (us, got, named, ids, reps) = answers.names username k in
      let m = api.get_users_named username k in
      rw
        (and_or-done m (λ e k. (failed e, k)) (λ us k1. (done (user_named username us), k1)) us got)
        (ap done named, ids, reps)

  write_back_lem :
      (id : String) (p : Bool × Rep) (k : K) (rep : Rep)
      → rep_of k id ≡ some rep
      → (p.0 ≡ false → p.1 ≡ rep)
      → ((write_back api id p k).0 ≡ done p.0)
        × Replaced id_of rep_of k id p.1 (write_back api id p k).1
  unfolding status_is
  write_back_lem id (false, rep') k rep at same = (
    refl,
    (
      refl,
      λ j. elim (Bool-cases (id == j)) [
        | inl e ↦ rw e (ap (rep_of k) (sym (eq→path id j e)) ∙ at ∙ ap some (sym (same refl)))
        | inr e ↦ rw e refl
      ],
    ),
  )
  write_back_lem id (true, rep') k rep at same =
      let (put, ids, reps) = answers.writes id k rep' in
      let m = api.put_user id rep' k in
      rw
        (and_or-done m (λ e k1. if status_is e 404 then (done true, k1) else (failed e, k1))
          (λ _ k1. (done true, k1)) tt put)
        (refl, (ids, reps))

  edit_user_lem :
      (id : String) (mut : Rep → Bool × Rep) (k : K) (rep : Rep)
      → rep_of k id ≡ some rep
      → ((mut rep).0 ≡ false → (mut rep).1 ≡ rep)
      → ((edit_user api id mut k).0 ≡ done (mut rep).0)
        × Replaced id_of rep_of k id (mut rep).1 (edit_user api id mut k).1
  unfolding edit_user
  edit_user_lem id mut k rep at same =
      let (got, ids, reps) = answers.reads id k rep at in
      let m = api.get_user id k in
      let (back, (ids', reps')) =
        write_back_lem id (mut rep) m.1 rep (ap (λ r. r id) reps ∙ at) same in
      rw
        (and_or-done m (λ e k1. if status_is e 404 then (done false, k1) else (failed e, k1))
          (λ r k1. write_back api id (mut r) k1) rep got)
        (
          back,
          (ids' ∙ ids, λ j. reps' j ∙ ap (λ r. if id == j then some (mut rep).1 else r j) reps),
        )

  -- The two calls, for an account that is there.
  module _ (username id : String) (org : String) (k : K) (rep : Rep)
      (found : id_of k username ≡ some id) (at : rep_of k id ≡ some rep) where
    pub disable_user_lem :
        ((disable_user api username org k).0 ≡ done tt)
        × Replaced id_of rep_of k id
            (apply_edit (disable org) rep)
            (disable_user api username org k).1
    unfolding disable_user
    disable_user_lem =
        let (resolved, ids, reps) = resolve_user_id_lem username k in
        let m = resolve_user_id api username k in
        let step : disable_user api username org k ≡ disable_found api org (some id) m.1 =
          and_or-done m (λ e k1. (failed e, k1)) (disable_found api org) (some id)
            (resolved ∙ ap done found) in
        let (edited, (ids', reps')) =
          edit_user_lem id (disable_rep org) m.1 rep (ap (λ r. r id) reps ∙ at)
            (disable_rep-same org rep) in
        let m' = edit_user api id (disable_rep org) m.1 in
        let (out, ids'', reps'') = answers.logs_out id m'.1 in
        let next : disable_user api username org k ≡ or_fine 404 (api.logout_user id m'.1) =
          step
          ∙ and_or-done m' (λ e k1. (failed e, k1)) (λ _ k1. or_fine 404 (api.logout_user id k1))
              (disable_rep org rep).0 edited in
        let last : disable_user api username org k ≡ (done tt, (api.logout_user id m'.1).1) =
          next
          ∙ and_or-done (api.logout_user id m'.1) (or_error 404) (λ _ k1. (done tt, k1)) tt out in
        subst (λ q. (q.0 ≡ done tt) × Replaced id_of rep_of k id (apply_edit (disable org) rep) q.1)
          (sym last)
          (
            refl,
            (
              ids'' ∙ ids' ∙ ids,
              λ j.
                  ap (λ r. r j) reps''
                  ∙ reps' j
                  ∙ ap (λ r. if id == j then some (disable_rep org rep).1 else r j) reps,
            ),
          )

    pub enable_user_lem :
        ((enable_user api username org k).0 ≡ done (enable_rep org rep).0)
        × Replaced id_of rep_of k id
            (apply_edit (enable org) rep)
            (enable_user api username org k).1
    unfolding enable_user
    enable_user_lem =
        let (resolved, ids, reps) = resolve_user_id_lem username k in
        let m = resolve_user_id api username k in
        let step : enable_user api username org k ≡ enable_found api org (some id) m.1 =
          and_or-done m (λ e k1. (failed e, k1)) (enable_found api org) (some id)
            (resolved ∙ ap done found) in
        let (edited, (ids', reps')) =
          edit_user_lem id (enable_rep org) m.1 rep (ap (λ r. r id) reps ∙ at)
            (enable_rep-same org rep) in
        subst
          (λ q.
            (q.0 ≡ done (enable_rep org rep).0)
            × Replaced id_of rep_of k id (apply_edit (enable org) rep) q.1)
          (sym step)
          (
            edited,
            (
              ids' ∙ ids,
              λ j. reps' j ∙ ap (λ r. if id == j then some (enable_rep org rep).1 else r j) reps,
            ),
          )
