-- ===== src/Spiffe/Path/Claims.antt =====
-- The organization that a path names, over `ParsePath` (internal/spiffe/path.go).
use spawnly.Prelude.{
  ℕ, ◌≡◌, refl, subst, ◌⊎◌, Bool, true, false, not, ◌&&◌, some, List, [], ◌∷◌, arith, Bool-cases,
  Option-cases, inl, inr, ok,
}
use spawnly.Prelude.Text.{Bytes, one_of}
use spawnly.Spiffe.Path.{
  scheme, org_segment, agent_segment, substrate_agent_leaf, is_empty, same, split, base, ParsedSvid,
  strip_prefix, authority, path_of, Claim, claim_of, org_claim, platform, workload, substrate,
  malformed, parsed, parse_path,
}

one_of-eq : (c d : ℕ) → one_of (d ∷ []) c ≡ true → c ≡ d
one_of-eq c d h = ground arith

same-eq : (x y : Bytes) → same x y ≡ true → x ≡ y
unfolding same
same-eq [] [] h = refl
same-eq [] (d ∷ ds) h = cc h
same-eq (c ∷ cs) [] h = cc h
same-eq (c ∷ cs) (d ∷ ds) h =
    let (a, b) = parts (one_of (d ∷ []) c) (same cs ds) h in
    rw (one_of-eq c d a, same-eq cs ds b) refl
  where
    parts : (a b : Bool) → (a && b) ≡ true → (a ≡ true) × (b ≡ true)
    parts a b h = ground arith

-- The second segment, after the empty one before the first slash, is "org".
abbrev pub claims_org : List Bytes → Bool
claims_org [] = false
claims_org (lead ∷ []) = false
claims_org (lead ∷ first ∷ rest) = same first org_segment

-- What the segments are, for each claim.
abbrev pub Shape : List Bytes → Claim → Type 0
Shape segs platform = claims_org segs ≡ false
Shape segs (workload org) =
    (is_empty org ≡ false)
    × (lead x : Bytes) × (xs : List Bytes) × (segs
        ≡ lead ∷ org_segment ∷ org ∷ agent_segment ∷ x ∷ xs)
Shape segs (substrate org) =
    (is_empty org ≡ false)
    × (lead : Bytes) × (segs ≡ lead ∷ org_segment ∷ org ∷ substrate_agent_leaf ∷ [])
Shape segs malformed = claims_org segs ≡ true

org_claim-Shape :
    (lead first org kind : Bytes) (rest : List Bytes)
    → same first org_segment ≡ true
    → Shape (lead ∷ first ∷ org ∷ kind ∷ rest) (org_claim org kind rest)
org_claim-Shape lead first org kind [] h =
    elim (Bool-cases (not (is_empty org) && same kind substrate_agent_leaf)) [
      | inr a ↦ rw a h
      | inl a ↦
          let (full, leaf) = parts (is_empty org) (same kind substrate_agent_leaf) a in
          rw a (
            full,
            lead,
            rw (same-eq first org_segment h, same-eq kind substrate_agent_leaf leaf) refl,
          )
    ]
  where
    parts : (a b : Bool) → (not a && b) ≡ true → (a ≡ false) × (b ≡ true)
    parts a b h = ground arith
org_claim-Shape lead first org kind (x ∷ xs) h =
    elim (Bool-cases (not (is_empty org) && same kind agent_segment)) [
      | inr a ↦ rw a h
      | inl a ↦
          let (full, leaf) = parts (is_empty org) (same kind agent_segment) a in
          rw a (
            full,
            lead,
            x,
            xs,
            rw (same-eq first org_segment h, same-eq kind agent_segment leaf) refl,
          )
    ]
  where
    parts : (a b : Bool) → (not a && b) ≡ true → (a ≡ false) × (b ≡ true)
    parts a b h = ground arith

claim_of-Shape : (segs : List Bytes) → Shape segs (claim_of segs)
unfolding claim_of
claim_of-Shape [] = refl
claim_of-Shape (lead ∷ []) = refl
claim_of-Shape (lead ∷ first ∷ []) = elim (Bool-cases (same first org_segment)) [
  | inl a ↦ rw a a
  | inr a ↦ rw a a
]
claim_of-Shape (lead ∷ first ∷ org ∷ []) = elim (Bool-cases (same first org_segment)) [
  | inl a ↦ rw a a
  | inr a ↦ rw a a
]
claim_of-Shape (lead ∷ first ∷ org ∷ kind ∷ rest) = elim (Bool-cases (same first org_segment)) [
  | inl a ↦ rw a (org_claim-Shape lead first org kind rest a)
  | inr a ↦ rw a a
]

-- The claim that a parsed id makes with these segments.
abbrev pub Claimed : List Bytes → ParsedSvid → Type 0
Claimed segs r =
    ((claims_org segs ≡ false) × (r.org_id ≡ []) × (r.substrate_agent ≡ false))
    ⊎ (Shape segs (workload r.org_id) × (r.substrate_agent ≡ false))
    ⊎ (Shape segs (substrate r.org_id) × (r.substrate_agent ≡ true))

ok-injective : {a b : ParsedSvid} → ok a ≡ ok b → a ≡ b
ok-injective h = cc

abbrev Parts : Bytes → Bytes → List Bytes → ParsedSvid → Type 0
Parts td agent segs r = (r.trust_domain ≡ td) × (r.agent_id ≡ agent) × Claimed segs r

parsed-Parts :
    (td agent : Bytes) (segs : List Bytes) (c : Claim) (r : ParsedSvid)
    → Shape segs c
    → parsed td agent c ≡ ok r
    → Parts td agent segs r
parsed-Parts td agent segs platform r s h =
    subst (Parts td agent segs) (ok-injective h) (refl, refl, inl (s, refl, refl))
parsed-Parts td agent segs (workload org) r s h =
    subst (Parts td agent segs) (ok-injective h) (refl, refl, inr (inl (s, refl)))
parsed-Parts td agent segs (substrate org) r s h =
    subst (Parts td agent segs) (ok-injective h) (refl, refl, inr (inr (s, refl)))
parsed-Parts td agent segs malformed r s h = cc h

-- An id that parses starts with the scheme and a trust domain that is not empty, and its agent is its
-- last segment. If its path begins with "org", it has exactly one of the two shapes of an
-- organization, whose name is not empty and is the one it parses to; otherwise it claims none.
pub parse_path_sound :
    (id : Bytes) (r : ParsedSvid)
    → parse_path id ≡ ok r
    → (rest : Bytes) × (strip_prefix scheme id ≡ some rest)
      × (is_empty (authority rest) ≡ false)
      × (r.trust_domain ≡ authority rest)
      × (r.agent_id ≡ base id)
      × Claimed (split (path_of rest)) r
unfolding parse_path
parse_path_sound id r h = elim (Option-cases (strip_prefix scheme id)) [
  | inl e ↦ cc (rw (e, parse_path) at h)
  | inr (rest, e) ↦ elim (Bool-cases (is_empty (authority rest))) [
    | inl a ↦ cc (rw (a, parse_path) at (rw (e, parse_path) at h))
    | inr a ↦
        let segs = split (path_of rest) in
        let (td, agent, claimed) =
          parsed-Parts (authority rest) (base id) segs (claim_of segs) r (claim_of-Shape segs)
            (rw (a, parse_path) at (rw (e, parse_path) at h)) in
        (rest, e, a, td, agent, claimed)
  ]
]
