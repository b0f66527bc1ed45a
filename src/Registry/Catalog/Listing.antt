-- ===== src/Registry/Catalog/Listing.antt =====
-- Which templates the listings show, and what a deletion needs.
use spawnly.Prelude.{
  String, ◌≡◌, refl, ap, ◌⊎◌, inl, inr, Bool, true, false, not, ◌&&◌, ◌||◌, some, List, [], ◌∷◌,
  map, ◌==◌, select, Bool-cases, Option-cases, arith, eq→path,
}
use spawnly.Prelude.Assoc.{lookup, erase, values}
use spawnly.Registry.Types.{AgentTemplate, status_disabled}
use spawnly.Registry.Store.{Store, list_templates, delete_template, get_template}
use spawnly.Registry.World.{reply}
use spawnly.Registry.Catalog.{
  remove, remove_template, valid_agent_type, filter_templates_visible, filter_templates_own_org,
  get_template_types, get_templates_full,
}

select-select {ℓ} :
    {A : Type ℓ} (p q : A → Bool) (xs : List A)
    → select p (select q xs) ≡ select (λ x. q x && p x) xs
select-select p q [] = refl
select-select p q (x ∷ xs) = elim (Bool-cases (q x)) [
  | inl a ↦ elim (Bool-cases (p x)) [
    | inl b ↦ rw (a, b) (ap (◌∷◌ x) (select-select p q xs))
    | inr b ↦ rw (a, b) (select-select p q xs)
  ]
  | inr a ↦ rw a (select-select p q xs)
]

select-all {ℓ} :
    {A : Type ℓ} (p : A → Bool) → ((x : A) → p x ≡ true) → (xs : List A) → select p xs ≡ xs
select-all p h [] = refl
select-all p h (x ∷ xs) = rw (h x) (ap (◌∷◌ x) (select-all p h xs))

-- For a caller with an organization, the listing of the names that it may spawn holds exactly those of the templates that are not
-- disabled and are global or of the caller's organization; the full listing for an organization holds
-- exactly its own templates, disabled ones included.
pub listings_exact :
    (org : String) (s : Store)
    → (org == "") ≡ false
    → (get_template_types org s
        ≡ reply 200 (
            map
              (λ t. t.agent_type)
              (select
                (λ t. not (t.status == status_disabled) && (t.org_id == "" || t.org_id == org))
                (values s.templates))))
      × (get_templates_full true org s
          ≡ reply 200 (select (λ t. t.org_id == org) (values s.templates)))
unfolding get_template_types get_templates_full list_templates filter_templates_visible
    filter_templates_own_org
listings_exact org s named = (
  ap (λ ts. reply 200 (map (λ t. t.agent_type) ts)) (select-select _ _ (values s.templates)),
  rw named (
      ap (λ ts. reply 200 (select (λ t. t.org_id == org) ts))
        (select-all (λ t. not (not true && t.status == status_disabled)) (λ t. refl)
          (values s.templates))),
)

remove-some :
    (org agent_type : String) (s : Store) (t : AgentTemplate)
    → lookup agent_type s.templates ≡ some t
    → (remove (some t) org agent_type s).0 ≡ reply 204 tt
    → (t.status ≡ status_disabled)
      × ((org ≡ "") ⊎ (t.org_id ≡ org))
      × ((remove (some t) org agent_type s).1.templates ≡ erase agent_type s.templates)
unfolding delete_template
remove-some org agent_type s t e h = elim (Bool-cases (not (org == "") && not (t.org_id == org))) [
  | inl a ↦ cc (rw a at h)
  | inr a ↦ elim (Bool-cases (t.status == status_disabled)) [
    | inr b ↦ cc (rw (a, b) at h)
    | inl b ↦ (
      eq→path t.status status_disabled b,
      elim (Bool-cases (org == "")) [
        | inl c ↦ inl (eq→path org "" c)
        | inr c ↦ inr (eq→path t.org_id org (inside (org == "") (t.org_id == org) c a))
      ],
      rw (a, b) (rw (e, delete_template) refl),
    )
  ]
]
  where
    inside : (a b : Bool) → a ≡ false → (not a && not b) ≡ false → b ≡ true
    inside a b n h = ground arith

-- A template is deleted only if it is disabled: a successful deletion finds the template, disabled and
-- within the caller's scope, and frees its name and no other.
pub remove_template_exact :
    (org agent_type : String) (s : Store)
    → (remove_template true org agent_type s).0 ≡ reply 204 tt
    → (t : AgentTemplate) × (lookup agent_type s.templates ≡ some t)
      × (t.status ≡ status_disabled)
      × ((org ≡ "") ⊎ (t.org_id ≡ org))
      × ((remove_template true org agent_type s).1.templates ≡ erase agent_type s.templates)
unfolding remove_template get_template
remove_template_exact org agent_type s h = elim (Bool-cases (valid_agent_type agent_type)) [
  | inr a ↦ cc (rw (a, remove_template) at h)
  | inl a ↦ elim (Option-cases (lookup agent_type s.templates)) [
    | inl e ↦ cc (rw (e, remove_template) at (rw (a, remove_template) at h))
    | inr (t, e) ↦
        let gone : (remove (some t) org agent_type s).0 ≡ reply 204 tt =
          rw (e, remove_template) at (rw (a, remove_template) at h) in
        let (disabled, mine, erased) = remove-some org agent_type s t e gone in
        (t, e, disabled, mine, rw (a, remove_template) (rw (e, remove_template) erased))
  ]
]
