-- ===== src/Registry/Registration/Relations.antt =====
-- The writes to SpiceDB that a registration and a status change make, and the resource types that a
-- terminal agent is cleaned of.
use spawnly.Prelude.{
  String, ◌≡◌, refl, sym, ◌∙◌, ap, inl, inr, Bool, true, false, not, ◌&&◌, ◌||◌, List, [], ◌∷◌,
  ◌++◌, ◌==◌, arith, Bool-cases, if_cases, if◌then◌else◌, contains, contains-append, eq→path,
  eq_refl,
}
use spawnly.Spicedb.Client.{Call}
use spawnly.Registry.Types.{SpiceDbRelationTemplate, AgentTemplate}
use spawnly.Registry.World.{Env, World}
use spawnly.Registry.Authority.{write_authority, write_authority_tuples}
use spawnly.Registry.Registration.{
  resource_types, relation_resource_types, is_skipped, resource_type,
}

-- A world with the same store as another and with more calls.
abbrev pub Calls : World → World → Type 0
Calls w w' =
    (w'.store ≡ w.store) × (w'.ticks ≡ w.ticks) × (cs : List Call) × (w'.calls ≡ cs ++ w.calls)

append_assoc : (xs ys zs : List Call) → (xs ++ ys) ++ zs ≡ xs ++ (ys ++ zs)
append_assoc [] ys zs = refl
append_assoc (x ∷ xs) ys zs = ap (◌∷◌ x) (append_assoc xs ys zs)

pub Calls-trans : (u v w : World) → Calls u v → Calls v w → Calls u w
Calls-trans u v w (s, t, cs, c) (s', t', cs', c') =
    (s' ∙ s, t' ∙ t, cs' ++ cs, c' ∙ ap (λ x. cs' ++ x) c ∙ sym (append_assoc cs' cs u.calls))

write_authority-Calls :
    (env : Env) (agent_id relation kind id : String) (w : World)
    → Calls w (write_authority env agent_id relation kind id w).1
write_authority-Calls env agent_id relation kind id w = elim (Bool-cases (id == "")) [
  | inl e ↦ rw e (refl, refl, [], refl)
  | inr e ↦ rw e (refl, refl, _ ∷ [], refl)
]

pub write_authority_tuples-Calls :
    (env : Env) (agent_id user_id org_id : String) (w : World)
    → Calls w (write_authority_tuples env agent_id user_id org_id w).1
unfolding write_authority_tuples
write_authority_tuples-Calls env agent_id user_id org_id w =
    let w' = (write_authority env agent_id "owner" "user:" user_id w).1 in
    Calls-trans w w' (write_authority env agent_id "org" "organization:" org_id w').1
      (write_authority-Calls env agent_id "owner" "user:" user_id w)
      (write_authority-Calls env agent_id "org" "organization:" org_id w')

-- Some relation of the list is written for an agent and has this type.
unfoldable pub writes : Bool → String → List SpiceDbRelationTemplate → Bool
writes has_tenant t [] = false
writes has_tenant t (rel ∷ rels) =
    (not (is_skipped has_tenant rel) && resource_type rel == t) || writes has_tenant t rels

-- One round of the loop.
abbrev added : List String → String → List String
added out x = if x == "" || contains out x then out else out ++ x ∷ []

contains-added_self :
    (out : List String) (t : String) → contains (added out t) t ≡ (contains out t || not (t == ""))
contains-added_self out t = elim (Bool-cases (t == "")) [
  | inl a ↦ rw a (or_false (contains out t))
  | inr a ↦ elim (Bool-cases (contains out t)) [
    | inl b ↦ rw (a, b) b
    | inr b ↦ rw (a, b) (contains-append out (t ∷ []) t ∙ rw (b, eq_refl t))
  ]
]
  where
    or_false : (x : Bool) → x ≡ (x || false)
    or_false x = ground arith

contains-added_other :
    (out : List String) (x t : String)
    → (x == t) ≡ false
    → contains (added out x) t ≡ contains out t
contains-added_other out x t h =
    if_cases (λ l. contains l t ≡ contains out t) (x == "" || contains out x) out (out ++ x ∷ [])
      (λ e. refl) (λ e. contains-append out (x ∷ []) t ∙ rw h (or_false (contains out t)))
  where
    or_false : (x : Bool) → (x || false) ≡ x
    or_false x = ground arith

pub contains-resource_types :
    (has_tenant : Bool) (out : List String) (rels : List SpiceDbRelationTemplate) (t : String)
    → contains (resource_types has_tenant out rels) t
      ≡ (contains out t || (not (t == "") && writes has_tenant t rels))
unfolding resource_types writes
contains-resource_types has_tenant out [] t = ground arith
contains-resource_types has_tenant out (rel ∷ rels) t =
    elim (Bool-cases (is_skipped has_tenant rel)) [
      | inl a ↦ rw a (contains-resource_types has_tenant out rels t)
      | inr a ↦ elim (Bool-cases (resource_type rel == t)) [
        | inl b ↦
            let same = eq→path (resource_type rel) t b in
            rw (a, same, eq_refl t)
              (contains-resource_types has_tenant (added out t) rels t
                ∙ rw (contains-added_self out t)
                    (absorb (contains out t) (not (t == "")) (writes has_tenant t rels)))
        | inr b ↦
            rw (a, b)
              (contains-resource_types has_tenant (added out (resource_type rel)) rels t
                ∙ rw (contains-added_other out (resource_type rel) t b))
      ]
    ]
  where
    absorb : (a b c : Bool) → ((a || b) || (b && c)) ≡ (a || (b && true))
    absorb a b c = ground arith

-- The types whose relationships are deleted for a terminal agent are exactly those, other than the
-- empty text, of the template's relations that are written when such an agent registers.
pub relation_resource_types_exact :
    (tpl : AgentTemplate) (has_tenant : Bool) (t : String)
    → contains (relation_resource_types tpl has_tenant) t
      ≡ (not (t == "") && writes has_tenant t tpl.authz.spice_db_relations)
unfolding relation_resource_types
relation_resource_types_exact tpl has_tenant t =
    contains-resource_types has_tenant [] tpl.authz.spice_db_relations t
