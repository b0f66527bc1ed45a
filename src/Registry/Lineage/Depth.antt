-- ===== src/Registry/Lineage/Depth.antt =====
-- The registry's `depth` (cmd/registry/main.go) over the in-memory store: lemmas on the way up a lineage.
use spawnly.Prelude.{
  ℕ, zero, suc, ◌+◌, ◌≤◌, ◌<◌, String, ◌≡◌, refl, ◌∙◌, ap, subst, inl, inr, Bool, true, false, not,
  ◌&&◌, some, List, [], ◌∷◌, arith, ◌==◌, eq_sym, eq_refl, Bool-cases, contains, length, eq→path,
  path→eq, if◌then◌else◌, Option-cases,
}
use spawnly.Prelude.Assoc.{Map, lookup}
use spawnly.Registry.Types.{AgentRecord}
use spawnly.Registry.Store.{Store, get_agent}
use spawnly.Registry.Lineage.{store_reads, done, climb, depth}

-- How many keys of the map the walk has not met.
unseen : List String → Map AgentRecord → ℕ
unseen seen [] = 0
unseen seen ((k, r) ∷ m) = let rest = unseen seen m in if contains seen k then rest else suc rest

unseen-nil : (m : Map AgentRecord) → unseen [] m ≡ length m
unfolding unseen
unseen-nil [] = refl
unseen-nil (e ∷ m) = ap suc (unseen-nil m)

unseen-cons-le :
    (cur : String) (seen : List String) (m : Map AgentRecord)
    → unseen (cur ∷ seen) m ≤ unseen seen m
unfolding unseen
unseen-cons-le cur seen [] = omega arith
unseen-cons-le cur seen ((k, r) ∷ m) = elim (Bool-cases (contains seen k)) [
  | inl c ↦ elim (Bool-cases (cur == k)) [
    | inl e ↦ rw (e, c) (unseen-cons-le cur seen m)
    | inr e ↦ rw (e, c) (unseen-cons-le cur seen m)
  ]
  | inr c ↦ elim (Bool-cases (cur == k)) [
    | inl e ↦ rw (e, c) (omega (arith, unseen-cons-le cur seen m))
    | inr e ↦ rw (e, c) (omega (arith, unseen-cons-le cur seen m))
  ]
]

unseen-cons-lt :
    (cur : String) (seen : List String) (m : Map AgentRecord) (r : AgentRecord)
    → contains seen cur ≡ false
    → lookup cur m ≡ some r
    → unseen (cur ∷ seen) m < unseen seen m
unfolding unseen lookup
unseen-cons-lt cur seen [] r new h = cc
unseen-cons-lt cur seen ((k, c) ∷ m) r new h = elim (Bool-cases (k == cur)) [
  | inl e ↦ rw (eq→path k cur e, eq_refl cur, new) (omega (arith, unseen-cons-le cur seen m))
  | inr e ↦
      let later = unseen-cons-lt cur seen m r new (rw e at h) in
      rw (eq_sym cur k, e)
        (elim (Bool-cases (contains seen k)) [
          | inl c ↦ rw c later
          | inr c ↦ rw c (omega (arith, later))
        ])
]

-- A lineage of a length: the agents from the named one up to one whose parent is not an agent.
pub data Lineage (s : Store) : String → ℕ → Type 0 where
  ends : {id : String} → ((get_agent id s).agent_id == "") ≡ true → Lineage s id 0
  nameless : {id : String} → id ≡ "" → Lineage s id 0
  under :
      {id : String} {n : ℕ}
      → (id == "") ≡ false
      → ((get_agent id s).agent_id == "") ≡ false
      → Lineage s (get_agent id s).parent_id n
      → Lineage s id (suc n)

module _ (s : Store) where
  found :
      (id : String)
      → ((get_agent id s).agent_id == "") ≡ false
      → (r : AgentRecord) × (lookup id s.agents ≡ some r)
  unfolding get_agent
  found id h = elim (Option-cases (lookup id s.agents)) [
    | inl e ↦ let gone = rw (e, get_agent) at h in cc gone
    | inr f ↦ f
  ]

  -- One round for each agent that the walk has not met, and one for the test that ends it.
  climb_ends :
      (fuel d : ℕ) (seen : List String) (cur : String)
      → unseen seen s.agents < fuel
      → (n : ℕ) × (climb (store_reads s) fuel d seen cur ≡ done n) × (n ≤ d + unseen seen s.agents)
  unfolding climb store_reads
  climb_ends zero d seen cur h = absurd (omega arith)
  climb_ends (suc fuel) d seen cur h =
      elim (Bool-cases (not (cur == "") && not (contains seen cur))) [
        | inr stop ↦ (d, rw (stop, climb), omega arith)
        | inl go ↦ elim (Bool-cases ((get_agent cur s).agent_id == "")) [
          | inl gone ↦ (d, rw (go, climb) (rw (gone, climb)), omega arith)
          | inr known ↦
              let (r, at) = found cur known in
              let falls = unseen-cons-lt cur seen s.agents r (unmet (cur == "") _ go) at in
              let (n, e, bound) =
                climb_ends fuel (d + 1) (cur ∷ seen) (get_agent cur s).parent_id
                  (omega (arith, falls)) in
              (n, rw (go, climb) (rw (known, climb) e), omega (arith, falls, bound))
        ]
      ]
    where
      unmet : (a b : Bool) → (not a && not b) ≡ true → b ≡ false
      unmet a b h = ground arith

  Lineage-unique : (id : String) (m n : ℕ) → Lineage s id m → Lineage s id n → m ≡ n
  Lineage-unique id m n (ends g) (ends g') = refl
  Lineage-unique id m n (ends g) (nameless e) = refl
  Lineage-unique id m n (ends g) (under e k l) = cc (g, k)
  Lineage-unique id m n (nameless e) (ends g) = refl
  Lineage-unique id m n (nameless e) (nameless e') = refl
  Lineage-unique id m n (nameless e) (under e' k l) = cc (path→eq id "" e, e')
  Lineage-unique id m n (under e k l) (ends g) = cc (g, k)
  Lineage-unique id m n (under e k l) (nameless e') = cc (path→eq id "" e', e)
  Lineage-unique id m n (under {n = a} e k l) (under {n = b} e' k' l') =
      ap suc (Lineage-unique (get_agent id s).parent_id a b l l')

  -- The agents met so far have longer lineages, so the walk meets none of them again.
  abbrev Above : List String → ℕ → Type 0
  Above seen n = (x : String) (m : ℕ) → contains seen x ≡ true → Lineage s x m → n < m

  Above-cons :
      (cur : String) (seen : List String) (n : ℕ)
      → Lineage s cur (suc n)
      → Above seen (suc n)
      → Above (cur ∷ seen) n
  Above-cons cur seen n l above x m h k = elim (Bool-cases (cur == x)) [
    | inl e ↦
        omega (
          arith,
          Lineage-unique x (suc n) m (subst (λ y. Lineage s y (suc n)) (eq→path cur x e) l) k,
        )
    | inr e ↦ omega (arith, above x m (rw e at h) k)
  ]

  climb-Lineage :
      (fuel d : ℕ) (seen : List String) (cur : String) (n : ℕ)
      → unseen seen s.agents < fuel
      → Lineage s cur n
      → Above seen n
      → climb (store_reads s) fuel d seen cur ≡ done (d + n)
  unfolding climb store_reads
  climb-Lineage zero d seen cur n h l above = absurd (omega arith)
  climb-Lineage (suc fuel) d seen cur n h (nameless e) above =
      rw (path→eq cur "" e, climb) (ap done (omega arith))
  climb-Lineage (suc fuel) d seen cur n h (ends gone) above =
      elim (Bool-cases (not (cur == "") && not (contains seen cur))) [
        | inr stop ↦ rw (stop, climb) (ap done (omega arith))
        | inl go ↦ rw (go, climb) (rw (gone, climb) (ap done (omega arith)))
      ]
  climb-Lineage (suc fuel) d seen cur _ h (under {n = n} named known l) above =
      elim (Bool-cases (contains seen cur)) [
        | inl old ↦ absurd (omega (arith, above cur (suc n) old (under named known l)))
        | inr new ↦
            let (r, at) = found cur known in
            let falls = unseen-cons-lt cur seen s.agents r new at in
            rw (named, climb)
              (rw (new, climb)
                (rw (known, climb)
                  (climb-Lineage fuel (d + 1) (cur ∷ seen) (get_agent cur s).parent_id n
                      (omega (arith, falls)) l (Above-cons cur seen n (under named known l) above)
                    ∙ ap done (omega arith))))
      ]

-- Enough rounds for any climb.
abbrev pub climb_fuel : Store → ℕ
climb_fuel s = suc (length s.agents)

-- `depth` ends with this fuel, also where the ParentID edges form a cycle, and counts no more agents
-- than the store has.
pub depth_total :
    (s : Store) (id : String)
    → (n : ℕ) × (depth (store_reads s) (climb_fuel s) id ≡ done n) × (n ≤ length s.agents)
unfolding depth
depth_total s id =
    let (n, e, bound) = climb_ends s (climb_fuel s) 0 [] id (omega (arith, unseen-nil s.agents)) in
    (n, e, omega (arith, bound, unseen-nil s.agents))

-- Where the lineage of an agent ends, `depth` is its length.
pub depth_exact :
    (s : Store) (id : String) (n : ℕ)
    → Lineage s id n
    → depth (store_reads s) (climb_fuel s) id ≡ done n
unfolding depth
depth_exact s id n l =
    climb-Lineage s (climb_fuel s) 0 [] id n (omega (arith, unseen-nil s.agents)) l
      (λ x m h k. cc h)
    ∙ ap done (omega arith)
