-- ===== src/Registry/Catalog/Scope.antt =====
-- What a caller with an organization can change in the catalog.
use spawnly.Prelude.{
  String, ◌≡◌, refl, subst, ◌⊎◌, inl, inr, Bool, true, false, not, ◌&&◌, Option, none, some, ◌==◌,
  Result, ok, err, Bool-cases, Option-cases, eq→path, if_cases, arith,
}
use spawnly.Prelude.Assoc.{Map, lookup, insert, erase, lookup-insert, lookup-erase}
use spawnly.Registry.Types.{AgentTemplate, status_active, status_disabled}
use spawnly.Registry.Schema.{SchemaError}
use spawnly.Registry.Store.{
  Store, get_template, put_template, update_template_status, delete_template,
}
use spawnly.Registry.World.{Response}
use spawnly.Registry.Catalog.{
  scope_for, is_bad_org, is_template_status, checked, scoped, in_scope, found_or, remove,
  post_template, patch_template, remove_template, valid_agent_type,
}

-- A name that is free or that a template of the organization has.
abbrev pub Ours : String → Option AgentTemplate → Type 0
Ours org none = Unit
Ours org (some t) = t.org_id ≡ org

-- Every name keeps its template, or is the organization's before and after.
abbrev pub Within : String → Map AgentTemplate → Map AgentTemplate → Type 0
Within org m m' =
    (j : String) → (lookup j m' ≡ lookup j m) ⊎ (Ours org (lookup j m) × Ours org (lookup j m'))

module _ (org : String) (m : Map AgentTemplate) where
  Within-same : Within org m m
  Within-same j = inl refl

  Within-insert :
      (k : String) (t : AgentTemplate)
      → Ours org (lookup k m)
      → t.org_id ≡ org
      → Within org m (insert k t m)
  Within-insert k t before after j = elim (Bool-cases (k == j)) [
    | inl e ↦
        inr (subst (λ x. Ours org (lookup x m)) (eq→path k j e) before, rw (lookup-insert, e) after)
    | inr e ↦ inl (rw (lookup-insert, e) refl)
  ]

  Within-erase : (k : String) → Ours org (lookup k m) → Within org m (erase k m)
  Within-erase k before j = elim (Bool-cases (k == j)) [
    | inl e ↦
        inr (subst (λ x. Ours org (lookup x m)) (eq→path k j e) before, rw (lookup-erase, e) tt)
    | inr e ↦ inl (rw (lookup-erase, e) refl)
  ]

scope_for-Ours :
    (org to : String) (o : Option AgentTemplate)
    → (org == "") ≡ false
    → scope_for org o ≡ some to
    → Ours org o × (to ≡ org)
scope_for-Ours org to none named h = (tt, cc h)
scope_for-Ours org to (some t) named h = elim (Bool-cases (t.org_id == org)) [
  | inl e ↦ (eq→path t.org_id org e, cc (rw (named, e) at h))
  | inr e ↦ cc (rw (named, e) at h)
]

in_scope-Ours : (org : String) (o : Option AgentTemplate) → in_scope o org ≡ true → Ours org o
in_scope-Ours org none h = tt
in_scope-Ours org (some t) h = eq→path t.org_id org h

module _ (org : String) (s : Store) (named : (org == "") ≡ false) where
  checked-Within :
      (t : AgentTemplate) (o : Option SchemaError) (show : SchemaError → String)
      → Ours org (lookup t.agent_type s.templates)
      → t.org_id ≡ org
      → Within org s.templates (checked t o show s).1.templates
  unfolding put_template
  checked-Within t none show before after =
      Within-insert org s.templates t.agent_type t before after
  checked-Within t (some e) show before after = Within-same org s.templates

  scoped-Within :
      (t : AgentTemplate) (show : SchemaError → String)
      → Within org s.templates
          (scoped t (scope_for org (lookup t.agent_type s.templates)) show s).1.templates
  scoped-Within t show = elim (Option-cases (scope_for org (lookup t.agent_type s.templates))) [
    | inl e ↦ rw e (Within-same org s.templates)
    | inr (to, e) ↦
        let (before, after) = scope_for-Ours org to (lookup t.agent_type s.templates) named e in
        rw e (
          if_cases (λ (r : Response {0} Unit × Store). Within org s.templates r.1.templates)
            (not (is_template_status t.status)) _ _ (λ _. Within-same org s.templates)
            (λ _. checked-Within (record t { org_id = to }) _ show before after))
  ]

  abbrev Keeps {ℓ} : {A : Type ℓ} → Response A × Store → Type 0
  Keeps r = Within org s.templates r.1.templates

  post-Within :
      (authed : Bool) (body : Result AgentTemplate) (show : SchemaError → String)
      → Keeps (post_template authed org body show s)
  unfolding post_template get_template
  post-Within authed (err e) show =
      if_cases Keeps (not authed) _ _ (λ _. Within-same org s.templates)
        (λ _. Within-same org s.templates)
  post-Within authed (ok t) show =
      if_cases Keeps (not authed) _ _ (λ _. Within-same org s.templates)
        (λ _.
          if_cases Keeps (is_bad_org org) _ _ (λ _. Within-same org s.templates)
            (λ _. scoped-Within t show))

  updates-Within :
      (agent_type status : String)
      → in_scope (lookup agent_type s.templates) org ≡ true
      → Keeps (found_or (update_template_status agent_type status s))
  unfolding update_template_status
  updates-Within agent_type status h = elim (Option-cases (lookup agent_type s.templates)) [
    | inl e ↦ rw (e, update_template_status) (Within-same org s.templates)
    | inr (t, e) ↦
        let ours : t.org_id ≡ org = eq→path t.org_id org (rw e at h) in
        rw (e, update_template_status)
          (Within-insert org s.templates agent_type (record t { status = status }) (rw e ours) ours)
  ]

  patch-Within :
      (authed : Bool) (agent_type : String) (body : Result String)
      → Keeps (patch_template authed org agent_type body s)
  unfolding patch_template get_template
  patch-Within authed agent_type (err e) =
      if_cases Keeps (not authed) _ _ (λ _. Within-same org s.templates)
        (λ _.
          if_cases Keeps (not (valid_agent_type agent_type)) _ _ (λ _. Within-same org s.templates)
            (λ _. Within-same org s.templates))
  patch-Within authed agent_type (ok status) =
      if_cases Keeps (not authed) _ _ (λ _. Within-same org s.templates)
        (λ _.
          if_cases Keeps (not (valid_agent_type agent_type)) _ _ (λ _. Within-same org s.templates)
            (λ _.
              if_cases Keeps (not (status == status_active) && not (status == status_disabled)) _ _
                (λ _. Within-same org s.templates)
                (λ _.
                  if_cases Keeps
                    (not (org == "") && not (in_scope (lookup agent_type s.templates) org)) _ _
                    (λ _. Within-same org s.templates)
                    (λ h. updates-Within agent_type status (inside (org == "") _ named h)))))
    where
      inside : (a b : Bool) → a ≡ false → (not a && not b) ≡ false → b ≡ true
      inside a b n h = ground arith

  removes-Within :
      (agent_type : String) → Keeps (remove (lookup agent_type s.templates) org agent_type s)
  unfolding delete_template
  removes-Within agent_type = elim (Option-cases (lookup agent_type s.templates)) [
    | inl e ↦ rw e (Within-same org s.templates)
    | inr (t, e) ↦ rw e (
        if_cases Keeps (not (org == "") && not (t.org_id == org)) _ _
          (λ _. Within-same org s.templates)
          (λ h.
            if_cases Keeps (not (t.status == status_disabled)) _ _
              (λ _. Within-same org s.templates)
              (λ _.
                rw (e, delete_template)
                  (Within-erase org s.templates agent_type
                    (rw e (eq→path t.org_id org (inside (org == "") (t.org_id == org) named h)))))))
  ]
    where
      inside : (a b : Bool) → a ≡ false → (not a && not b) ≡ false → b ≡ true
      inside a b n h = ground arith

  remove-Within :
      (authed : Bool) (agent_type : String) → Keeps (remove_template authed org agent_type s)
  unfolding remove_template get_template
  remove-Within authed agent_type =
      if_cases Keeps (not authed) _ _ (λ _. Within-same org s.templates)
        (λ _.
          if_cases Keeps (not (valid_agent_type agent_type)) _ _ (λ _. Within-same org s.templates)
            (λ _. removes-Within agent_type))

-- A caller with an organization, by creating, by setting a status and by deleting, changes only names
-- that are free or held by templates of that organization, and leaves them free or held by such
-- templates; every other name keeps its template.
pub catalog_scoped :
    (org : String) (s : Store) (authed : Bool) (agent_type : String) (body : Result AgentTemplate)
    (status : Result String) (show : SchemaError → String)
    → (org == "") ≡ false
    → Within org s.templates (post_template authed org body show s).1.templates
      × Within org s.templates (patch_template authed org agent_type status s).1.templates
      × Within org s.templates (remove_template authed org agent_type s).1.templates
catalog_scoped org s authed agent_type body status show named = (
  post-Within org s named authed body show,
  patch-Within org s named authed agent_type status,
  remove-Within org s named authed agent_type,
)
