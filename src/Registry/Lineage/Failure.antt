-- ===== src/Registry/Lineage/Failure.antt =====
-- The registry's `depth` (cmd/registry/main.go) over reads that may fail.
use spawnly.Prelude.{
  ℕ, zero, suc, ◌+◌, ◌<◌, String, ◌≡◌, refl, ◌∙◌, ap, sym, subst, inl, inr, true, false, List, [],
  ◌∷◌, arith, ◌==◌, Bool-cases, contains, ok, err, eq→path,
}
use spawnly.Registry.Types.{AgentRecord}
use spawnly.Registry.Lineage.{Reads, failed, climb, depth}

-- A lineage along which the reads succeed, up to one that fails with the error.
pub data Broken (r : Reads) (e : String) : String → ℕ → Type 0 where
  broken : {id : String} → (id == "") ≡ false → r.get_agent id ≡ err e → Broken r e id 0
  above :
      {id : String} {n : ℕ} (rec : AgentRecord)
      → (id == "") ≡ false
      → r.get_agent id ≡ ok rec
      → (rec.agent_id == "") ≡ false
      → Broken r e rec.parent_id n
      → Broken r e id (suc n)

ok-injective : {a b : AgentRecord} → ok a ≡ ok b → a ≡ b
ok-injective h = cc

module _ (r : Reads) (e : String) where
  Broken-unique : (id : String) (m n : ℕ) → Broken r e id m → Broken r e id n → m ≡ n
  Broken-unique id m n (broken k h) (broken k' h') = refl
  Broken-unique id m n (broken k h) (above rec k' h' f l) = cc (h, h')
  Broken-unique id m n (above rec k h f l) (broken k' h') = cc (h, h')
  Broken-unique id m n (above {n = a} rec k h f l) (above {n = b} rec' k' h' f' l') =
      let same : rec.parent_id ≡ rec'.parent_id =
        ap (λ x. x.parent_id) (ok-injective (sym h ∙ h')) in
      ap suc (Broken-unique rec'.parent_id a b (subst (λ p. Broken r e p a) same l) l')

  abbrev Further : List String → ℕ → Type 0
  Further seen n = (x : String) (m : ℕ) → contains seen x ≡ true → Broken r e x m → n < m

  Further-cons :
      (cur : String) (seen : List String) (n : ℕ)
      → Broken r e cur (suc n)
      → Further seen (suc n)
      → Further (cur ∷ seen) n
  Further-cons cur seen n l far x m h k = elim (Bool-cases (cur == x)) [
    | inl q ↦
        omega (
          arith,
          Broken-unique x (suc n) m (subst (λ y. Broken r e y (suc n)) (eq→path cur x q) l) k,
        )
    | inr q ↦ omega (arith, far x m (rw q at h) k)
  ]

  climb-Broken :
      (fuel d : ℕ) (seen : List String) (cur : String) (n : ℕ)
      → n < fuel
      → Broken r e cur n
      → Further seen n
      → climb r fuel d seen cur ≡ failed e
  unfolding climb
  climb-Broken zero d seen cur n h l far = absurd (omega arith)
  climb-Broken (suc fuel) d seen cur _ h (broken named at) far =
      elim (Bool-cases (contains seen cur)) [
        | inl old ↦ absurd (omega (arith, far cur 0 old (broken named at)))
        | inr new ↦ rw (named, climb) (rw (new, climb) (rw (at, climb)))
      ]
  climb-Broken (suc fuel) d seen cur _ h (above {n = n} rec named at known l) far =
      elim (Bool-cases (contains seen cur)) [
        | inl old ↦ absurd (omega (arith, far cur (suc n) old (above rec named at known l)))
        | inr new ↦
            rw (named, climb)
              (rw (new, climb)
                (rw (at, climb)
                  (rw (known, climb)
                    (climb-Broken fuel (d + 1) (cur ∷ seen) rec.parent_id n (omega arith) l
                      (Further-cons cur seen n (above rec named at known l) far)))))
      ]

-- If the reads succeed along a lineage up to one that fails, then `depth` fails with that error, for
-- any fuel above the length of the lineage: it never counts the lineage short.
pub depth_fails :
    (r : Reads) (e id : String) (n fuel : ℕ)
    → Broken r e id n
    → n < fuel
    → depth r fuel id ≡ failed e
unfolding depth
depth_fails r e id n fuel l h = climb-Broken r e fuel 0 [] id n h l (λ x m old k. cc old)
