-- ===== src/Consent/Coverage.antt =====
-- What `EvaluateConsent` grants, and the empty scope that ends its search early.
use spawnly.Prelude.{
  ℕ, String, ◌≡◌, refl, ◌↔◌, Bool, true, not, if◌then◌else◌, false, ◌&&◌, List, [], ◌∷◌, ◌==◌,
  arith, contains, All,
}
use spawnly.Consent.{
  ConsentRecord, ConsentDecision, first_uncovered_scope, is_expired, evaluate_consent,
}

-- Every requested scope is among the granted ones.
abbrev pub Covers : List String → List String → Type 0
Covers granted = All (λ sc. contains granted sc ≡ true)

abbrev pub NoEmptyScope : List String → Type 0
NoEmptyScope = All (λ sc. (sc == "") ≡ false)

pub first_uncovered_scope-Covers :
    (granted requested : List String)
    → NoEmptyScope requested
    → (first_uncovered_scope granted requested == "") ≡ true
    → Covers granted requested
unfolding first_uncovered_scope
first_uncovered_scope-Covers granted [] h e = tt
first_uncovered_scope-Covers granted (sc ∷ rest) h e =
    ground (arith, first_uncovered_scope-Covers granted rest h.1)

pub Covers-first_uncovered_scope :
    (granted requested : List String)
    → Covers granted requested
    → first_uncovered_scope granted requested ≡ ""
unfolding first_uncovered_scope
Covers-first_uncovered_scope granted [] h = refl
Covers-first_uncovered_scope granted (sc ∷ rest) h =
    ground (arith, Covers-first_uncovered_scope granted rest h.1)

pub evaluate_consent-granted :
    (rec : ConsentRecord) (requested : List String) (now : ℕ)
    → (evaluate_consent rec requested now).granted ≡ (
        not rec.revoked
        && not (is_expired rec.expires_at now)
        && (first_uncovered_scope rec.scopes requested == ""))
unfolding evaluate_consent
evaluate_consent-granted rec requested now =
    by_tests rec.revoked (is_expired rec.expires_at now)
      (first_uncovered_scope rec.scopes requested == "") _ _ _
  where
    by_tests :
        (a b c : Bool) (r₁ r₂ r₃ : String)
        → (if a
            then record { granted = false; reason = r₁ }
            else if b
            then record { granted = false; reason = r₂ }
            else if not c
            then record { granted = false; reason = r₃ }
            else let d : ConsentDecision = record { granted = true; reason = "matched" } in
              d).granted
          ≡ (not a && not b && c)
    by_tests true b c _ _ _ = refl
    by_tests false true c _ _ _ = refl
    by_tests false false true _ _ _ = refl
    by_tests false false false _ _ _ = refl

and_parts : (a b c : Bool) → (not a && not b && c) ≡ true → (a ≡ false) × (b ≡ false) × (c ≡ true)
and_parts a b c h = ground arith

-- Where no requested scope is the empty text, a consent is granted exactly when the record is not
-- revoked, has not expired, and its scopes contain every requested scope.
pub evaluate_consent_exact :
    (rec : ConsentRecord) (requested : List String) (now : ℕ)
    → NoEmptyScope requested
    → ((evaluate_consent rec requested now).granted ≡ true) ↔ (
        (rec.revoked ≡ false)
        × (is_expired rec.expires_at now ≡ false)
        × Covers rec.scopes requested)
evaluate_consent_exact rec requested now h = rw evaluate_consent-granted (
  λ g.
      let (live, fresh, covered) = and_parts _ _ _ g in
      (live, fresh, first_uncovered_scope-Covers rec.scopes requested h covered),
  λ g. rw (g.0, g.1, Covers-first_uncovered_scope rec.scopes requested g.2),
)

-- A request whose first scope is the empty text, which was not granted, is granted whatever else it
-- asks for, unless the record is revoked or has expired.
pub evaluate_consent_empty_scope :
    (rec : ConsentRecord) (more : List String) (now : ℕ)
    → contains rec.scopes "" ≡ false
    → rec.revoked ≡ false
    → is_expired rec.expires_at now ≡ false
    → (evaluate_consent rec ("" ∷ more) now).granted ≡ true
unfolding first_uncovered_scope
evaluate_consent_empty_scope rec more now h r e =
    rw (evaluate_consent-granted, r, e, first_uncovered_scope, h)
