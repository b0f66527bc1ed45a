-- ===== src/Prelude/Assoc.antt =====
-- Go maps with text keys, as association lists. A Go map has no order, and a `range` over one may
-- take any: the model ranges in the order of the list.
use Prim.Native.String.{String}
use mathlib.Core.Path.{◌≡◌, refl}
use mathlib.Core.Bool.{false}
use mathlib.Core.Logic.{◌⊎◌, inl, inr}
use mathlib.Core.Option.{Option, none, some}
use mathlib.Core.List.{List, [], ◌∷◌}
use native.Mathlib.Omega.{arith}
use text.Mathlib.Text.{◌==◌}
use text.Mathlib.TextPositions.{eq_refl}
use text.Mathlib.TextEquality.{eq_iff}
use spawnly.Prelude.Lists.{contains}
use spawnly.Prelude.Tests.{Bool-cases, some-injective, if◌then◌else◌}

abbrev pub Map {ℓ} : Type ℓ → Type ℓ
Map V = List (String × V)

module _ {ℓ} {V : Type ℓ} where
  unfoldable pub lookup : String → Map V → Option V
  lookup k [] = none
  lookup k ((j, v) ∷ m) = if j == k then some v else lookup k m

  -- `m[k] = v`
  unfoldable pub insert : String → V → Map V → Map V
  insert k v [] = (k, v) ∷ []
  insert k v ((j, w) ∷ m) = if j == k then (k, v) ∷ m else (j, w) ∷ insert k v m

  -- `delete(m, k)`
  unfoldable pub erase : String → Map V → Map V
  erase k [] = []
  erase k ((j, v) ∷ m) = let rest = erase k m in if j == k then rest else (j, v) ∷ rest

  -- What a `range` over the map yields.
  unfoldable pub values : Map V → List V
  values [] = []
  values ((j, v) ∷ m) = v ∷ values m

  unfoldable pub keys : Map V → List String
  keys [] = []
  keys ((j, v) ∷ m) = j ∷ keys m

  pub lookup-insert :
      (k at : String) (new : V) (m : Map V)
      → lookup at (insert k new m) ≡ (if k == at then some new else lookup at m)
  unfolding lookup insert
  lookup-insert k at new [] = refl
  lookup-insert k at new ((top, old) ∷ rest) =
      let below = lookup-insert k at new rest in
      ground (arith, below, eq_iff top at, eq_iff top k, eq_iff k at)

  pub lookup-erase :
      (k j : String) (m : Map V) → lookup j (erase k m) ≡ (if k == j then none else lookup j m)
  unfolding lookup erase
  lookup-erase k j [] = ground arith
  lookup-erase k j ((i, w) ∷ m) =
      ground (arith, eq_iff k j, eq_iff i k, eq_iff i j, lookup-erase k j m)

  pub lookup_not_key : (k : String) (m : Map V) → contains (keys m) k ≡ false → lookup k m ≡ none
  unfolding lookup keys
  lookup_not_key k [] h = refl
  lookup_not_key k ((i, w) ∷ m) h = ground (arith, lookup_not_key k m)

  -- Where an entry of a map comes from, after a write and after a delete.
  pub lookup-insert_cases :
      (k j : String) (v w : V) (m : Map V)
      → lookup j (insert k v m) ≡ some w
      → ((k ≡ j) × (v ≡ w)) ⊎ (((k == j) ≡ false) × (lookup j m ≡ some w))
  lookup-insert_cases k j v w m e = elim (Bool-cases (k == j)) [
    | inl hit ↦
        let same : some v ≡ some w = rw (lookup-insert, hit) at e in
        inl ((eq_iff k j).0 hit, some-injective same)
    | inr miss ↦ inr (miss, rw (lookup-insert, miss) at e)
  ]

  pub lookup-erase_cases :
      (k j : String) (w : V) (m : Map V)
      → lookup j (erase k m) ≡ some w
      → ((k == j) ≡ false) × (lookup j m ≡ some w)
  lookup-erase_cases k j w m e = elim (Bool-cases (k == j)) [
    | inl hit ↦ let gone : ◌≡◌ {A = Option V} none (some w) = rw (lookup-erase, hit) at e in cc gone
    | inr miss ↦ (miss, rw (lookup-erase, miss) at e)
  ]

  pub lookup-insert_self : (k : String) (v : V) (m : Map V) → lookup k (insert k v m) ≡ some v
  lookup-insert_self k v m = rw (lookup-insert, eq_refl k)

  pub lookup-insert_at :
      (j k : String) (v : V) (m : Map V) → j ≡ k → lookup j (insert k v m) ≡ some v
  lookup-insert_at j k v m e = rw e (lookup-insert_self k v m)

  pub lookup-insert_ne :
      (k j : String) (v : V) (m : Map V) → (k == j) ≡ false → lookup j (insert k v m) ≡ lookup j m
  lookup-insert_ne k j v m h = rw (lookup-insert, h)

  pub lookup-erase_ne :
      (k j : String) (m : Map V) → (k == j) ≡ false → lookup j (erase k m) ≡ lookup j m
  lookup-erase_ne k j m h = rw (lookup-erase, h)

  pub lookup-insert-erase :
      (k j : String) (v : V) (m : Map V)
      → lookup j (insert k v (erase k m)) ≡ lookup j (insert k v m)
  lookup-insert-erase k j v m =
      ground (arith, lookup-insert k j v (erase k m), lookup-insert k j v m, lookup-erase k j m)
