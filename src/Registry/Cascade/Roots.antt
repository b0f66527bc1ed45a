-- ===== src/Registry/Cascade/Roots.antt =====
-- The cascades of the registry: lemmas on the roots that one starts from.
use mathlib.Core.List.{Memᴰ}
use spawnly.Prelude.{
  ℕ, zero, suc, String, ◌≡◌, refl, sym, ◌∙◌, ap, subst, inl, inr, Bool, true, false, not, ◌&&◌,
  List, ◌==◌, arith, contains, select, Bool-cases, path→eq,
}
use spawnly.Prelude.Assoc.{values}
use spawnly.Registry.Types.{AgentRecord}
use spawnly.Registry.Store.{Store, get_agent, list_agents}
use spawnly.Registry.Lineage.{ids_of}
use spawnly.Registry.Lineage.Descent.{Descends, here, spawned}
use spawnly.Registry.Lineage.Depth.{Lineage, ends, nameless, under}
use spawnly.Registry.Cascade.Filed.{IsFiled, IsFiled-lookup, Memᴰ-select, ids_of-Memᴰ}

-- The test by which a cascade skips a root.
abbrev pub is_covered : List String → AgentRecord → Bool
is_covered scope a = not (a.parent_id == "") && contains scope a.parent_id

abbrev pub scope_of : (AgentRecord → Bool) → Store → List String
scope_of p s = ids_of (select p (list_agents s))

-- A root that the cascade starts from and under which an agent lies.
abbrev pub Above : (AgentRecord → Bool) → Store → String → Type 0
Above p s id =
    (a : AgentRecord) × Memᴰ a (select p (list_agents s))
    × (is_covered (scope_of p s) a ≡ false)
    × (((get_agent a.agent_id s).agent_id == "") ≡ false)
    × Descends s a.agent_id id

module _ (p : AgentRecord → Bool) (s : Store) (filed : IsFiled s.agents) where
  found : (r : AgentRecord) → Memᴰ r (values s.agents) → get_agent r.agent_id s ≡ r
  unfolding get_agent
  found r m = rw (IsFiled-lookup s.agents r filed m) refl

  Lineage-up :
      (id : String) (n : ℕ)
      → Lineage s id n
      → (id == "") ≡ false
      → ((get_agent id s).agent_id == "") ≡ false
      → (m : ℕ) × (n ≡ suc m) × Lineage s (get_agent id s).parent_id m
  Lineage-up id n (ends gone) named known = absurd (cc (gone, known))
  Lineage-up id n (nameless e) named known = absurd (cc (path→eq id "" e, named))
  Lineage-up id n (under {n = m} e k l) named known = (m, refl, l)

  stored : (r : AgentRecord) → Memᴰ r (select p (list_agents s)) → Memᴰ r (values s.agents)
  unfolding list_agents
  stored r m =
      (Memᴰ-select (λ x. not x.dismissed) (values s.agents) r
        (Memᴰ-select p (list_agents s) r m).0).0

  covered_parts :
      (r : AgentRecord)
      → is_covered (scope_of p s) r ≡ true
      → ((r.parent_id == "") ≡ false) × (contains (scope_of p s) r.parent_id ≡ true)
  covered_parts r h = both (r.parent_id == "") (contains (scope_of p s) r.parent_id) h
    where
      both : (a b : Bool) → (not a && b) ≡ true → (a ≡ false) × (b ≡ true)
      both a b h = ground arith

  -- A covered agent lies under the root of its parent.
  ascend :
      (k : ℕ) (r : AgentRecord)
      → ((q : AgentRecord)
          → Memᴰ q (select p (list_agents s))
          → (q.agent_id == "") ≡ false
          → Lineage s q.agent_id k
          → Above p s q.agent_id)
      → Memᴰ r (select p (list_agents s))
      → is_covered (scope_of p s) r ≡ true
      → Lineage s (get_agent r.agent_id s).parent_id k
      → Above p s r.agent_id
  ascend k r above m e up =
      let (named, within) = covered_parts r e in
      let (q, m', same) = ids_of-Memᴰ (select p (list_agents s)) r.parent_id within in
      let from : Lineage s q.agent_id k =
        subst (λ x. Lineage s x k)
          (ap (λ (x : AgentRecord). x.parent_id) (found r (stored r m)) ∙ sym same) up in
      let (a, listed, top, known, under_a) = above q m' (rw same named) from in
      (a, listed, top, known, spawned r under_a (stored r m) (sym same))

  -- Every agent of the scope that has a lineage lies under a root.
  pub root-Above :
      (n : ℕ) (r : AgentRecord)
      → Memᴰ r (select p (list_agents s))
      → (r.agent_id == "") ≡ false
      → Lineage s r.agent_id n
      → Above p s r.agent_id
  root-Above zero r m named l = elim (Bool-cases (is_covered (scope_of p s) r)) [
    | inr e ↦ (r, m, e, rw (found r (stored r m)) named, here)
    | inl e ↦
        let (k, q, up) = Lineage-up r.agent_id zero l named (rw (found r (stored r m)) named) in
        absurd (omega (arith, q))
  ]
  root-Above (suc n) r m named l = elim (Bool-cases (is_covered (scope_of p s) r)) [
    | inr e ↦ (r, m, e, rw (found r (stored r m)) named, here)
    | inl e ↦
        let (k, q, up) = Lineage-up r.agent_id (suc n) l named (rw (found r (stored r m)) named) in
        ascend n r (root-Above n) m e
          (subst (λ x. Lineage s (get_agent r.agent_id s).parent_id x) (omega (arith, q)) up)
  ]
