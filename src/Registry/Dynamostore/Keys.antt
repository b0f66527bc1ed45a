-- ===== src/Registry/Dynamostore/Keys.antt =====
-- internal/registry/dynamostore/store.go: the keys of the table, and when two of them are the same.
use Prim.Native.Char.{code}
use Prim.Native.Nat.{compare, Ordering}
use text.Mathlib.TextLemmas.{nil-append, cons-append, append_cancel_left}
use spawnly.Prelude.{
  ℕ, String, ◌≡◌, sym, ap, ◌∙◌, inl, inr, Bool, true, false, List, [], ◌∷◌, ◌++◌, arith, ◌==◌, ◌⧺◌,
  path→eq, eq→path, ne→eq_false, Bool-cases,
}
use spawnly.Prelude.Text.{codes, decimal}

abbrev pub sk_meta : String
sk_meta = "META"

abbrev pub gsi1_template : String
gsi1_template = "TPL"

abbrev pub gsi1_agent : String
gsi1_agent = "AG"

abbrev pub gsi1_consent : String
gsi1_consent = "CON"

abbrev pub gsi1_creq : String
gsi1_creq = "CREQ"

abbrev pub gsi1_org : String
gsi1_org = "ORG"

abbrev pub tpl_pk : String → String
tpl_pk agent_type = "TPL#" ⧺ agent_type

abbrev pub ag_pk : String → String
ag_pk agent_id = "AG#" ⧺ agent_id

abbrev pub con_pk : String → String
con_pk edge = "CON#" ⧺ edge

abbrev pub creq_pk : String → String
creq_pk id = "CREQ#" ⧺ id

abbrev pub open_pk : String → String
open_pk key = "OPEN#" ⧺ key

abbrev pub org_pk : String → String
org_pk id = "ORG#" ⧺ id

-- `genID`, for the time and for the text of `randHex(4)`.
unfoldable pub gen_id : String → ℕ → String → String
gen_id prefix nano random = prefix ⧺ "-" ⧺ decimal nano ⧺ "-" ⧺ random

codes-append : (s t : String) → codes (s ⧺ t) ≡ codes s ++ codes t
codes-append String.[] t = ap codes (nil-append t)
codes-append (String.◌∷◌ c s) t =
    ap codes (cons-append c s t) ∙ ap (λ cs. code c ∷ cs) (codes-append s t)

-- Two texts that differ in a character that both have.
abbrev pub clash : List ℕ → List ℕ → Bool
clash [] ys = false
clash (x ∷ xs) [] = false
clash (x ∷ xs) (y ∷ ys) = elim (compare x y) [ Ordering.eq ↦ clash xs ys | _ ↦ true ]

clash-append : (s t x y : List ℕ) → clash s t ≡ true → s ++ x ≡ t ++ y → ⊥
clash-append [] t x y h e = cc h
clash-append (a ∷ s) [] x y h e = cc h
clash-append (a ∷ s) (b ∷ t) x y h e = ground (arith, clash-append s t x y)

-- Keys with prefixes that clash are not the same, and keys with one prefix are the same if the rest is.
pub apart : (s t x y : String) → clash (codes s) (codes t) ≡ true → (s ⧺ x == t ⧺ y) ≡ false
apart s t x y h = ne→eq_false (s ⧺ x) (t ⧺ y) (λ p.
    clash-append (codes s) (codes t) (codes x) (codes y) h
      (sym (codes-append s x) ∙ ap codes p ∙ codes-append t y))

pub alike : (s x y : String) → (s ⧺ x == s ⧺ y) ≡ (x == y)
alike s x y = elim (Bool-cases (x == y)) [
  | inl e ↦ path→eq (s ⧺ x) (s ⧺ y) (ap (λ z. s ⧺ z) (eq→path x y e)) ∙ sym e
  | inr e ↦
      ne→eq_false (s ⧺ x) (s ⧺ y)
        (λ p. let q = path→eq x y (append_cancel_left s x y p) in absurd (cc (e, q)))
      ∙ sym e
]
