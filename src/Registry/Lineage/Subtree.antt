-- ===== src/Registry/Lineage/Subtree.antt =====
-- The registry's `subtree` (cmd/registry/main.go) over the in-memory store: lemmas on its rounds and on
-- what it has seen.

use spawnly.Prelude.{
  ℕ, zero, suc, ◌+◌, ◌≤◌, String, ◌≡◌, refl, ap, inl, inr, false, List, [], ◌∷◌, ◌++◌, arith, ◌==◌,
  eq_refl, eq_sym, eq→path, Bool-cases, contains, length, length-append, select, if◌then◌else◌,
}
use spawnly.Prelude.Assoc.{values}
use spawnly.Registry.Types.{AgentRecord}
use spawnly.Registry.Store.{Store, list_children}
use spawnly.Registry.Lineage.{store_reads, done, ids_of, walk}

abbrev pub children : String → List AgentRecord → List AgentRecord
children p = select (λ r. r.parent_id == p)

-- How many agents have a parent that the walk has not expanded.
unfoldable pub unclaimed : List String → List AgentRecord → ℕ
unclaimed seen [] = 0
unclaimed seen (r ∷ rs) =
    let rest = unclaimed seen rs in if contains seen r.parent_id then rest else suc rest

unclaimed-cons :
    (cur : String) (seen : List String) (rs : List AgentRecord)
    → contains seen cur ≡ false
    → unclaimed (cur ∷ seen) rs + length (children cur rs) ≡ unclaimed seen rs
unfolding unclaimed
unclaimed-cons cur seen [] h = omega arith
unclaimed-cons cur seen (r ∷ rs) h = elim (Bool-cases (r.parent_id == cur)) [
  | inl e ↦
      let same = eq→path r.parent_id cur e in
      rw (same, eq_refl cur, h) (omega (arith, unclaimed-cons cur seen rs h))
  | inr e ↦
      rw (eq_sym cur r.parent_id, e)
        (elim (Bool-cases (contains seen r.parent_id)) [
          | inl c ↦ rw c (unclaimed-cons cur seen rs h)
          | inr c ↦ rw c (omega (arith, unclaimed-cons cur seen rs h))
        ])
]

pub unclaimed-nil : (rs : List AgentRecord) → unclaimed [] rs ≡ length rs
unfolding unclaimed
unclaimed-nil [] = refl
unclaimed-nil (r ∷ rs) = ap suc (unclaimed-nil rs)

length-ids_of : (rs : List AgentRecord) → length (ids_of rs) ≡ length rs
length-ids_of [] = refl
length-ids_of (r ∷ rs) = ap suc (length-ids_of rs)

module _ (s : Store) where
  -- Enough fuel: one round for each id that waits, and one for each agent that may still join.
  pub walk_ends :
      (fuel : ℕ) (out seen queue : List String)
      → length queue + unclaimed seen (values s.agents) ≤ fuel
      → (nodes : List String) × (walk (store_reads s) fuel out seen queue ≡ done nodes)
  unfolding walk store_reads list_children
  walk_ends zero out seen [] h = (out, refl)
  walk_ends zero out seen (cur ∷ queue) h = absurd (omega arith)
  walk_ends (suc fuel) out seen [] h = (out, refl)
  walk_ends (suc fuel) out seen (cur ∷ queue) h = elim (Bool-cases (contains seen cur)) [
    | inl old ↦ rw (old, walk) (walk_ends fuel out seen queue (omega arith))
    | inr new ↦
        let born = children cur (values s.agents) in
        let fits : length (queue ++ ids_of born) + unclaimed (cur ∷ seen) (values s.agents) ≤ fuel =
          omega (
            arith,
            length-append queue (ids_of born),
            length-ids_of born,
            unclaimed-cons cur seen (values s.agents) new,
          ) in
        rw (new, walk) (walk_ends fuel (out ++ cur ∷ []) (cur ∷ seen) (queue ++ ids_of born) fits)
  ]
