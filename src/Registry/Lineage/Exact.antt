-- ===== src/Registry/Lineage/Exact.antt =====
-- The result of `subtree` over the in-memory store.
use spawnly.Prelude.{
  ℕ, zero, suc, String, ◌≡◌, refl, ◌∙◌, sym, subst, inl, inr, ◌↔◌, Bool, true, false, ◌||◌, some,
  List, [], ◌∷◌, ◌++◌, arith, ◌==◌, eq_sym, Bool-cases, contains, contains-append, length, IsUnique,
}
use spawnly.Prelude.Assoc.{values}
use spawnly.Registry.Store.{Store, get_agent, list_children}
use spawnly.Registry.Lineage.{store_reads, done, ids_of, walk, subtree}
use spawnly.Registry.Lineage.Subtree.{children, unclaimed-nil, walk_ends}
use spawnly.Registry.Lineage.Descent.{
  Descends, Inv, Inv-skip, Inv-expand, Inv-start, Inv-finds, walk-Inv, done-injective,
}

IsUnique-concat :
    (xs : List String) (c : String) → contains xs c ≡ false → IsUnique xs → IsUnique (xs ++ c ∷ [])
IsUnique-concat [] c h u = (refl, tt)
IsUnique-concat (x ∷ xs) c h u = (
  rw (contains-append xs (c ∷ []) x, u.0, eq_sym c x) (apart (x == c) (contains xs c) h),
  IsUnique-concat xs c (rest (x == c) (contains xs c) h) u.1,
)
  where
    apart : (a b : Bool) → (a || b) ≡ false → (a || false) ≡ false
    apart a b h = ground arith

    rest : (a b : Bool) → (a || b) ≡ false → b ≡ false
    rest a b h = ground arith

module _ (s : Store) (root : String) where
  walk-IsUnique :
      (fuel : ℕ) (out seen queue nodes : List String)
      → Inv s root out seen queue
      → IsUnique out
      → walk (store_reads s) fuel out seen queue ≡ done nodes
      → IsUnique nodes
  unfolding walk store_reads list_children
  walk-IsUnique zero out seen [] nodes v u e = subst IsUnique (done-injective e) u
  walk-IsUnique zero out seen (cur ∷ queue) nodes v u e = cc
  walk-IsUnique (suc fuel) out seen [] nodes v u e = subst IsUnique (done-injective e) u
  walk-IsUnique (suc fuel) out seen (cur ∷ queue) nodes v u e =
      elim (Bool-cases (contains seen cur)) [
        | inl old ↦
            walk-IsUnique fuel out seen queue nodes (Inv-skip s root out seen queue cur old v) u
              (rw (old, walk) at e)
        | inr new ↦
            walk-IsUnique fuel (out ++ cur ∷ []) (cur ∷ seen)
              (queue ++ ids_of (children cur (values s.agents))) nodes
              (Inv-expand s root out seen queue cur v)
              (IsUnique-concat out cur (sym (v.same cur) ∙ new) u) (rw (new, walk) at e)
      ]

-- Enough rounds for any walk: one for each agent, and one for the root.
abbrev pub walk_fuel : Store → ℕ
walk_fuel s = suc (length (values s.agents))

-- For a known id and this fuel, `subtree` ends with a list that holds exactly the agent itself and
-- the agents that descend from it along the ParentID edges, each of them once; also where the edges
-- form a cycle.
pub subtree_exact :
    (s : Store) (id : String)
    → ((get_agent id s).agent_id == "") ≡ false
    → (nodes : List String) × (subtree (store_reads s) (walk_fuel s) id ≡ done (some nodes))
      × ((x : String) → (contains nodes x ≡ true) ↔ Descends s id x)
      × IsUnique nodes
unfolding subtree store_reads
subtree_exact s id known =
    let (nodes, e) =
      walk_ends s (walk_fuel s) [] [] (id ∷ []) (omega (arith, unclaimed-nil (values s.agents))) in
    let (seen, v) = walk-Inv s id (walk_fuel s) [] [] (id ∷ []) nodes (Inv-start s id) e in
    (
      nodes,
      rw (known, e),
      (λ x. (v.sound_out x, Inv-finds s id nodes seen x v)),
      walk-IsUnique s id (walk_fuel s) [] [] (id ∷ []) nodes (Inv-start s id) tt e,
    )
