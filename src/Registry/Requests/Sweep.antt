-- ===== src/Registry/Requests/Sweep.antt =====
-- What the sweep of an approval does to each request: `swept` says it of one request, and the loop
-- over the map does it to all.
use mathlib.Core.Option
use spawnly.Prelude.{
  ℕ, String, ◌≡◌, refl, ◌∙◌, ap, inl, inr, arith, Bool, true, false, not, ◌&&◌, ◌||◌, Option, none,
  some, List, [], ◌∷◌, ◌==◌, eq_refl, eq→path, contains, Bool-cases, Option-cases, if◌then◌else◌,
}
use spawnly.Prelude.Assoc.{lookup, keys, lookup-insert, lookup_not_key}
use spawnly.Consent.{
  ConsentRecord, ConsentRequest, consent_pending, consent_approved, evaluate_consent,
}
use spawnly.Registry.Store.{Store}
use spawnly.Registry.Requests.{edge_of, settle, resolved, sweep_one, sweep}

-- Whether the sweep for a grant settles a request: it is pending, has another id, is for the edge of
-- the grant, and the grant covers its scopes.
unfoldable pub is_covered : ConsentRecord → String → String → ℕ → String → ConsentRequest → Bool
is_covered granted key id now rid other =
    not (rid == id)
    && (other.status == consent_pending)
    && (edge_of other == key)
    && (evaluate_consent granted other.scopes now).granted

unfoldable pub swept :
    ConsentRecord → String → String → ℕ → String → ConsentRequest → ConsentRequest
swept granted key id now rid other =
    if is_covered granted key id now rid other then resolved other consent_approved now else other

four_parts :
    (a b c d : Bool)
    → (not a && b && c && d) ≡ true
    → (a ≡ false) × (b ≡ true) × (c ≡ true) × (d ≡ true)
four_parts a b c d h = ground arith

-- What a covered request is, field by field.
pub is_covered_parts :
    (granted : ConsentRecord) (key id : String) (now : ℕ) (rid : String) (other : ConsentRequest)
    → is_covered granted key id now rid other ≡ true
    → ((rid == id) ≡ false)
      × (other.status ≡ consent_pending)
      × (edge_of other ≡ key)
      × ((evaluate_consent granted other.scopes now).granted ≡ true)
unfolding is_covered
is_covered_parts granted key id now rid other h =
    let (a, b, c, d) = four_parts _ _ _ _ h in
    (a, eq→path other.status consent_pending b, eq→path (edge_of other) key c, d)

module _ (granted : ConsentRecord) (key id : String) (now : ℕ) where
  pub sweep_one-eq :
      (rid : String) (s : Store) (other : ConsentRequest)
      → lookup rid s.consent_requests ≡ some other
      → sweep_one granted key id now rid s ≡ (
          if is_covered granted key id now rid other
          then settle rid (resolved other consent_approved now) s
          else s)
  unfolding sweep_one is_covered
  sweep_one-eq rid s other h =
      rw (h, sweep_one)
        (by_tests (rid == id) (other.status == consent_pending) (edge_of other == key)
          (evaluate_consent granted other.scopes now).granted _ _)
    where
      by_tests :
          (a b c d : Bool) (t u : Store)
          → (if a || not b then u else if not c then u else if d then t else u)
            ≡ (if not a && b && c && d then t else u)
      by_tests true b c d t u = refl
      by_tests false false c d t u = refl
      by_tests false true false d t u = refl
      by_tests false true true d t u = refl

  swept_settled :
      (rid : String) (other : ConsentRequest)
      → swept granted key id now rid (resolved other consent_approved now)
        ≡ resolved other consent_approved now
  unfolding swept is_covered
  swept_settled rid other = elim (Bool-cases (rid == id)) [ inl e ↦ rw e | inr e ↦ rw e ]

  swept_twice :
      (rid : String) (other : ConsentRequest)
      → swept granted key id now rid (swept granted key id now rid other)
        ≡ swept granted key id now rid other
  unfolding swept
  swept_twice rid other = elim (Bool-cases (is_covered granted key id now rid other)) [
    | inl e ↦ rw (e, swept) (swept_settled rid other)
    | inr e ↦ rw (e, swept) (rw e)
  ]

  pub sweep_one-absent :
      (rid : String) (s : Store)
      → lookup rid s.consent_requests ≡ none
      → sweep_one granted key id now rid s ≡ s
  unfolding sweep_one
  sweep_one-absent rid s h = rw (h, sweep_one)

  lookup-sweep_one_self :
      (rid : String) (s : Store)
      → lookup rid (sweep_one granted key id now rid s).consent_requests
        ≡ Option.map (swept granted key id now rid) (lookup rid s.consent_requests)
  unfolding swept settle
  lookup-sweep_one_self rid s = elim (Option-cases (lookup rid s.consent_requests)) [
    | inl e ↦ rw (sweep_one-absent rid s e) (rw e)
    | inr (other, e) ↦
        rw (sweep_one-eq rid s other e)
          (elim (Bool-cases (is_covered granted key id now rid other)) [
            | inl c ↦ rw (c, e) (rw (c, lookup-insert, eq_refl rid))
            | inr c ↦ rw (c, e) (rw c)
          ])
  ]

  lookup-sweep_one_eq :
      (rid j : String) (s : Store)
      → rid ≡ j
      → lookup j (sweep_one granted key id now rid s).consent_requests
        ≡ Option.map (swept granted key id now j) (lookup j s.consent_requests)
  lookup-sweep_one_eq rid j s e = rw e (lookup-sweep_one_self j s)

  lookup-sweep_one_ne :
      (rid j : String) (s : Store)
      → (rid == j) ≡ false
      → lookup j (sweep_one granted key id now rid s).consent_requests ≡ lookup j s.consent_requests
  unfolding settle
  lookup-sweep_one_ne rid j s h = elim (Option-cases (lookup rid s.consent_requests)) [
    | inl e ↦ rw (sweep_one-absent rid s e)
    | inr (other, e) ↦
        rw (sweep_one-eq rid s other e)
          (elim (Bool-cases (is_covered granted key id now rid other)) [
            | inl c ↦ rw c (rw (lookup-insert, h))
            | inr c ↦ rw c
          ])
  ]

  map-swept_twice :
      (j : String) (o : Option ConsentRequest)
      → Option.map (swept granted key id now j) (Option.map (swept granted key id now j) o)
        ≡ Option.map (swept granted key id now j) o
  map-swept_twice j none = refl
  map-swept_twice j (some cr) = ap some (swept_twice j cr)

  lookup-sweep :
      (rids : List String) (j : String) (s : Store)
      → lookup j (sweep granted key id now rids s).consent_requests ≡ (
          if contains rids j
          then Option.map (swept granted key id now j) (lookup j s.consent_requests)
          else lookup j s.consent_requests)
  unfolding sweep
  lookup-sweep [] j s = refl
  lookup-sweep (rid ∷ rids) j s =
      lookup-sweep rids j (sweep_one granted key id now rid s) ∙ elim (Bool-cases (rid == j)) [
        | inl e ↦
            rw (e, lookup-sweep_one_eq rid j s (eq→path rid j e))
              (elim (Bool-cases (contains rids j)) [
                | inl c ↦ rw c (map-swept_twice j (lookup j s.consent_requests))
                | inr c ↦ rw c
              ])
        | inr e ↦ rw (e, lookup-sweep_one_ne rid j s e)
      ]

  -- The sweep over every request settles exactly the covered ones.
  pub lookup-sweep_all :
      (j : String) (s : Store)
      → lookup j (sweep granted key id now (keys s.consent_requests) s).consent_requests
        ≡ Option.map (swept granted key id now j) (lookup j s.consent_requests)
  lookup-sweep_all j s =
      lookup-sweep (keys s.consent_requests) j s
      ∙ elim (Bool-cases (contains (keys s.consent_requests) j)) [
        | inl e ↦ rw e
        | inr e ↦ rw (e, lookup_not_key j s.consent_requests e)
      ]
