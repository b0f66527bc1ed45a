-- ===== src/Registry/Orgs/Creation/Converging.antt =====
-- cmd/registry/orgs.go: `POST /v1/orgs` for an organization that exists.
use spawnly.Prelude.{
  suc, String, ◌≡◌, refl, sym, ◌∙◌, ap, subst, inl, inr, Bool, true, false, Option, none, some,
  ◌==◌, Result, ok, err, Bool-cases, if_cases, eq_refl, length,
}
use spawnly.Prelude.Assoc.{lookup-insert}
use spawnly.Consent.{valid_user_id}
use spawnly.Prelude.Text.{trim_space}
use spawnly.Registry.Types.{Organization, ℤ}
use spawnly.Registry.Store.{Store, get_org, put_org, list_orgs}
use spawnly.Registry.World.{Env, Response, reply, error}
use spawnly.Registry.Directory.{Directory, Site, ask, attempt, set_world, role_admin}
use spawnly.Spicedb.Client.{write_relationship}
use spawnly.Registry.Orgs.Settings.{redirect_uri, post_logout_uri}
use spawnly.Registry.Orgs.{write_store, tell, org_tuple}
use spawnly.Registry.Orgs.Creation.{
  OrgBody, new_org_id, org_record, create_org, post_orgs, wire_admin, at_capacity,
  register_satellite, unwind_create, created_status,
}

-- What holds of the body and of the state if a handler replies with a body.
abbrev pub Succeeds {ℓ} : {A D : Type 0} → (A → Site D → Type ℓ) → Response A × Site D → Type ℓ
Succeeds P (reply code a, s) = P a s
Succeeds P (error code text, s) = Unit

module _ {D : Type 0} where
  attempt-Succeeds {ℓ} :
      {A C : Type 0} (P : C → Site D → Type ℓ) (x : Result A × Site D) (f : String → Response C)
      (k : A → Site D → Response C × Site D)
      → ((e : String) → Succeeds P (f e, x.1))
      → ((a : A) → Succeeds P (k a x.1))
      → Succeeds P (attempt x f k)
  attempt-Succeeds P (ok a, s) f k fails goes = goes a
  attempt-Succeeds P (err e, s) f k fails goes = fails e

  attempt-store :
      {A C : Type 0} (x : Result A × Site D) (f : String → C) (k : A → Site D → C × Site D)
      → ((a : A) → (k a x.1).1.world.store ≡ x.1.world.store)
      → (attempt x f k).1.world.store ≡ x.1.world.store
  attempt-store (ok a, s) f k goes = goes a
  attempt-store (err e, s) f k goes = refl

  answered {ℓ} :
      {C : Type 0} (P : C → Site D → Type ℓ) (r : Result {0} Unit) (x y : Response C × Site D)
      → Succeeds P x
      → Succeeds P y
      → Succeeds P (elim r [ ok _ ↦ x | err e ↦ y ])
  answered P (ok u) x y p q = p
  answered P (err e) x y p q = q

  module _ (env : Env) (dir : Directory D) where
    wire_admin-store :
        (id user : String) (s : Site D)
        → (wire_admin env dir id user s).1.world.store ≡ s.world.store
    wire_admin-store id user s =
        let told = tell env dir (org_tuple write_relationship id role_admin user) s in
        let joined : Bool × Site D =
          attempt (ask (dir.add_member id user) told.1) (λ _. false) (λ _ s2. (true, s2)) in
        if_cases (λ (x : Bool × Site D). x.1.world.store ≡ s.world.store) told.0 joined
          (false, told.1)
          (λ _.
            attempt-store (ask (dir.add_member id user) told.1) (λ _. false) (λ _ s2. (true, s2))
              (λ _. refl))
          (λ _. refl)

    register_satellite-Succeeds {ℓ} :
        (P : Organization → Site D → Type ℓ) (apex_domain id user : String)
        (prev : Option Organization) (org : Organization) (s : Site D)
        → ((s' : Site D) → s'.world ≡ s.world → P org s')
        → Succeeds P (register_satellite env dir apex_domain id user prev org s)
    register_satellite-Succeeds P apex_domain id user prev org s h =
        let uri = redirect_uri id apex_domain in
        let out = post_logout_uri id apex_domain in
        let asked = ask (dir.register_org_redirect_uris uri out) s in
        elim (Bool-cases (apex_domain == "")) [
          | inl e ↦ rw e (h s refl)
          | inr e ↦ rw e (
              answered P asked.0 (reply (created_status prev) org, asked.1)
                (
                  error 500 "org create failed",
                  unwind_create env dir id user prev
                      (ask (dir.remove_org_redirect_uris uri out) asked.1).1,
                )
                (h asked.1 refl) tt)
        ]

    create_org-Succeeds {ℓ} :
        (P : Organization → Site D → Type ℓ) (apex_domain : String) (quote : String → String)
        (id name user : String) (prev : Option Organization) (s : Site D)
        → (let org = org_record prev id name (env.time s.world.ticks) in
            (s' : Site D) → s'.world.store ≡ put_org org s.world.store → P org s')
        → Succeeds P (create_org env dir apex_domain quote id name user prev s)
    unfolding create_org
    create_org-Succeeds P apex_domain quote id name user prev s h =
        let asked = ask (dir.create_org id name) s in
        let org = org_record prev id name (env.time s.world.ticks) in
        let w = record s.world { ticks = suc s.world.ticks } in
        let s2 = write_store env dir org (set_world w asked.1) in
        let wired = wire_admin env dir id user s2 in
        attempt-Succeeds P asked _ _
          (λ e.
            if_cases (λ (r : Response Organization). Succeeds P (r, asked.1)) (dir.is_conflict e) _
              _ (λ _. tt) (λ _. tt))
          (λ _.
            if_cases (Succeeds P) wired.0
              (register_satellite env dir apex_domain id user prev org wired.1)
              (error 500 "org create failed", unwind_create env dir id user prev wired.1)
              (λ _.
                register_satellite-Succeeds P apex_domain id user prev org wired.1
                  (λ s' e. h s' (ap (λ v. v.store) e ∙ wire_admin-store id user s2)))
              (λ _. tt))

-- What a record shares with the one before it, and what it lacks.
abbrev pub Replaces : Organization → Organization → Type 0
Replaces prev org =
    (org.anchor ≡ prev.anchor)
    × (org.disabled ≡ prev.disabled)
    × (org.removal_disposition ≡ prev.removal_disposition)
    × (org.created_at ≡ prev.created_at)
    × (org.substrate ≡ none)

-- If the creation of an organization that exists succeeds, the reply is the record that is then stored
-- under its id; it has the anchor, the suspension, the removal disposition and the creation time of
-- the record before, and no substrate, also if that one had a substrate.
pub post_orgs_forgets :
    {D : Type 0} (env : Env) (dir : Directory D) (apex_domain : String) (max_orgs : ℤ)
    (quote : String → String) (uuid : String) (self_serve : Bool) (body : OrgBody) (s : Site D)
    (id : String) (prev : Organization)
    → new_org_id uuid body ≡ ok id
    → get_org id s.world.store ≡ some prev
    → Succeeds
        (λ org s'. (get_org id s'.world.store ≡ some org) × Replaces prev org)
        (post_orgs env dir apex_domain max_orgs quote uuid self_serve (ok body) s)
unfolding post_orgs get_org put_org org_record
post_orgs_forgets {D} env dir apex_domain max_orgs quote uuid false body s id prev named at =
    let P : Organization → Site D → Type 0 =
      λ org s'. (get_org id s'.world.store ≡ some org) × Replaces prev org in
    let name = trim_space body.name in
    let record_of = λ (o : Option Organization). org_record o id name (env.time s.world.ticks) in
    let kept =
      subst
        (λ (o : Option Organization).
          (s' : Site D) → s'.world.store ≡ put_org (record_of o) s.world.store → P (record_of o) s')
        (sym at)
        (λ s' e. (
          ap (λ (t : Store). get_org id t) e
              ∙ lookup-insert id id (record_of (some prev)) s.world.store.orgs
              ∙ rw (eq_refl id) refl,
          (refl, refl, refl, refl, refl),
        )) in
    let made =
      create_org-Succeeds env dir P apex_domain quote id name body.admin_user
        (get_org id s.world.store) s kept in
    rw (named, post_orgs)
      (elim (Bool-cases (valid_user_id body.admin_user)) [
        | inr bad ↦ rw (bad, post_orgs) tt
        | inl good ↦ rw (good, post_orgs) made
      ])
post_orgs_forgets env dir apex_domain max_orgs quote uuid true body s id prev named at =
    rw (named, post_orgs)
      (elim (Bool-cases (valid_user_id body.admin_user)) [
        | inr bad ↦ rw (bad, post_orgs) tt
        | inl good ↦
            rw (good, post_orgs)
              (elim (Bool-cases (at_capacity max_orgs (length (list_orgs s.world.store)))) [
                | inl e ↦ rw (at, post_orgs) (rw e tt)
                | inr e ↦ rw (at, post_orgs) (rw e tt)
              ])
      ])
