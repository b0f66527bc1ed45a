-- ===== src/Spiffe/Path/RoundTrip.antt =====
-- Building a SPIFFE id and parsing it (internal/spiffe/path.go).
use spawnly.Prelude.{
  ◌≡◌, refl, sym, ◌∙◌, ap, Bool, true, false, ◌||◌, none, List, [], ◌∷◌, ◌++◌, arith, All,
  Bool-cases, Option-cases, inl, inr, ok,
}
use spawnly.Prelude.Text.{Bytes, codes}
use spawnly.Spiffe.Path.{
  org_segment, agent_segment, substrate_agent_leaf, is_slash, is_empty, has_slash, same, join,
  split, last_of, base, valid_segment, invalid_segment, bad_base, build_org_agent_path,
  build_substrate_agent_path, strip_prefix, authority, path_of, claim_of, parsed, parse_path,
}
use spawnly.Spiffe.Path.Segments.{IsSegment, Named, split-join, base-join}

authority-stops : (td rest : Bytes) → IsSegment td → authority (td ++ b'/' ∷ rest) ≡ td
unfolding authority has_slash
authority-stops [] rest h = refl
authority-stops (c ∷ cs) rest h =
    let (a, b) = parts (is_slash c) (has_slash cs) h in rw (a, authority-stops cs rest b)
  where
    parts : (a b : Bool) → (a || b) ≡ false → (a ≡ false) × (b ≡ false)
    parts a b h = ground arith

path_of-starts : (td rest : Bytes) → IsSegment td → path_of (td ++ b'/' ∷ rest) ≡ b'/' ∷ rest
unfolding path_of has_slash
path_of-starts [] rest h = refl
path_of-starts (c ∷ cs) rest h =
    let (a, b) = parts (is_slash c) (has_slash cs) h in rw (a, path_of-starts cs rest b)
  where
    parts : (a b : Bool) → (a || b) ≡ false → (a ≡ false) × (b ≡ false)
    parts a b h = ground arith

-- A segment of an id: it is not empty and has no slash.
abbrev pub IsName : Bytes → Type 0
IsName x = (is_empty x ≡ false) × IsSegment x

valid_segment-IsName : (x : Bytes) → valid_segment x ≡ none → IsName x
unfolding valid_segment
valid_segment-IsName x h = elim (Bool-cases (is_empty x)) [
  | inl a ↦ cc (rw a at h)
  | inr a ↦ elim (Bool-cases (has_slash x)) [ inl b ↦ cc (rw (a, b) at h) | inr b ↦ (a, b) ]
]

invalid_segment-All : (xs : List Bytes) → invalid_segment xs ≡ none → All IsName xs
unfolding invalid_segment
invalid_segment-All [] h = tt
invalid_segment-All (x ∷ xs) h = elim (Option-cases (valid_segment x)) [
  | inl e ↦ (valid_segment-IsName x e, invalid_segment-All xs (rw (e, invalid_segment) at h))
  | inr (m, e) ↦ cc (rw (e, invalid_segment) at h)
]

bad_base-names : (td org : Bytes) → bad_base td org ≡ none → IsName td × IsName org
unfolding bad_base
bad_base-names td org h = elim (Bool-cases (is_empty td)) [
  | inl a ↦ cc (rw a at h)
  | inr a ↦ elim (Bool-cases (has_slash td)) [
    | inl b ↦ cc (rw (a, b) at h)
    | inr b ↦ elim (Option-cases (valid_segment org)) [
      | inr (m, e) ↦ cc (rw (e, bad_base) at (rw (a, b) at h))
      | inl e ↦ ((a, b), valid_segment-IsName org e)
    ]
  ]
]

base-id :
    (td s : Bytes) (segs : List Bytes)
    → IsName td
    → All IsSegment (s ∷ segs)
    → Named (s ∷ segs)
    → base (join (codes "spiffe:" ∷ [] ∷ td ∷ s ∷ segs)) ≡ last_of (s ∷ segs)
unfolding last_of has_slash
base-id td s segs name h n =
    base-join (codes "spiffe:") ([] ∷ td ∷ s ∷ segs) (refl, (refl, (name.1, h))) n

split-path :
    (s : Bytes) (segs : List Bytes)
    → All IsSegment (s ∷ segs)
    → split (b'/' ∷ join (s ∷ segs)) ≡ [] ∷ s ∷ segs
unfolding join has_slash
split-path s segs h = split-join [] (s ∷ segs) (refl, h)

-- The parse of an id with these segments after its trust domain.
parse-joined :
    (td s : Bytes) (segs : List Bytes)
    → IsName td
    → All IsSegment (s ∷ segs)
    → Named (s ∷ segs)
    → parse_path (join (codes "spiffe:" ∷ [] ∷ td ∷ s ∷ segs))
      ≡ parsed td (last_of (s ∷ segs)) (claim_of ([] ∷ s ∷ segs))
unfolding parse_path join strip_prefix
parse-joined td s segs name h n =
    rw
      (
        authority-stops td (join (s ∷ segs)) name.1,
        name.0,
        path_of-starts td (join (s ∷ segs)) name.1,
      )
      (rw (base-id td s segs name h n, split-path s segs h) refl)

All-IsSegment : (xs : List Bytes) → All IsName xs → All IsSegment xs
All-IsSegment [] h = tt
All-IsSegment (x ∷ xs) h = (h.0.1, All-IsSegment xs h.1)

Named-last : (x : Bytes) (xs : List Bytes) → All IsName (x ∷ xs) → Named (x ∷ xs)
unfolding last_of
Named-last x [] h = h.0.0
Named-last x (y ∷ ys) h = Named-last y ys h.1

build-names :
    (td org : Bytes) (segs : List Bytes) (id : Bytes)
    → build_org_agent_path td org segs ≡ ok id
    → (x : Bytes) × (xs : List Bytes) × (segs ≡ x ∷ xs)
      × IsName td
      × IsName org
      × All IsName (x ∷ xs)
      × (join (codes "spiffe:" ∷ [] ∷ td ∷ org_segment ∷ org ∷ agent_segment ∷ x ∷ xs) ≡ id)
unfolding build_org_agent_path join
build-names td org [] id h = elim (Option-cases (bad_base td org)) [
  | inr (m, e) ↦ cc (rw (e, build_org_agent_path) at h)
  | inl e ↦ cc (rw (e, build_org_agent_path) at h)
]
build-names td org (x ∷ xs) id h = elim (Option-cases (bad_base td org)) [
  | inr (m, e) ↦ cc (rw (e, build_org_agent_path) at h)
  | inl e ↦ elim (Option-cases (invalid_segment (x ∷ xs))) [
    | inr (m, f) ↦ cc (rw (f, build_org_agent_path) at (rw (e, build_org_agent_path) at h))
    | inl f ↦
        let (t, o) = bad_base-names td org e in
        (
          x,
          xs,
          refl,
          t,
          o,
          invalid_segment-All (x ∷ xs) f,
          ok-injective (rw (f, build_org_agent_path) at (rw (e, build_org_agent_path) at h)),
        )
  ]
]
  where
    ok-injective : {a b : Bytes} → ok a ≡ ok b → a ≡ b
    ok-injective h = cc

-- An id that is built for an agent of an organization parses to the trust domain and the organization
-- that it was built for and to the last of its segments, and not as a substrate agent.
pub parse_path-build_org_agent_path :
    (td org : Bytes) (segs : List Bytes) (id : Bytes)
    → build_org_agent_path td org segs ≡ ok id
    → parse_path id
      ≡ ok (record {
        trust_domain = td;
        org_id = org;
        agent_id = last_of segs;
        substrate_agent = false;
      })
unfolding claim_of has_slash last_of same
parse_path-build_org_agent_path td org segs id h =
    let (x, xs, is, t, o, names, built) = build-names td org segs id h in
    let parts : All IsSegment (org_segment ∷ org ∷ agent_segment ∷ x ∷ xs) =
      (refl, (o.1, (refl, All-IsSegment (x ∷ xs) names))) in
    rw (← built, is)
      (parse-joined td org_segment (org ∷ agent_segment ∷ x ∷ xs) t parts (Named-last x xs names)
        ∙ rw (o.0) refl)

-- An id that is built for the substrate agent of an organization parses to the trust domain and the
-- organization that it was built for, as a substrate agent.
pub parse_path-build_substrate_agent_path :
    (td org id : Bytes)
    → build_substrate_agent_path td org ≡ ok id
    → parse_path id
      ≡ ok (record {
        trust_domain = td;
        org_id = org;
        agent_id = substrate_agent_leaf;
        substrate_agent = true;
      })
unfolding claim_of has_slash last_of same build_substrate_agent_path join
parse_path-build_substrate_agent_path td org id h = elim (Option-cases (bad_base td org)) [
  | inr (m, e) ↦ cc (rw (e, build_substrate_agent_path) at h)
  | inl e ↦
      let (t, o) = bad_base-names td org e in
      let parts : All IsSegment (org_segment ∷ org ∷ substrate_agent_leaf ∷ []) =
        (refl, (o.1, (refl, tt))) in
      let built : join (codes "spiffe:" ∷ [] ∷ td ∷ org_segment ∷ org ∷ substrate_agent_leaf ∷ [])
          ≡ id =
        ok-injective (rw (e, build_substrate_agent_path) at h) in
      ap parse_path (sym built)
      ∙ parse-joined td org_segment (org ∷ substrate_agent_leaf ∷ []) t parts refl
      ∙ rw (o.0) refl
]
  where
    ok-injective : {a b : Bytes} → ok a ≡ ok b → a ≡ b
    ok-injective h = cc
