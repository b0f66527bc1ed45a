-- ===== src/Registry/Cascade/Similar.antt =====
-- The cascades of the registry: a relation on agents, between those before and those after them.
use mathlib.Core.Option
use mathlib.Core.List.{Memᴰ}
use mathlib.Core.List.Memᴰ
use spawnly.Prelude.{
  String, ◌≡◌, refl, sym, ◌∙◌, ap, subst, inl, inr, false, some, List, [], ◌∷◌, ◌==◌, map,
  Bool-cases, Option-cases, some-injective,
}
use spawnly.Prelude.Assoc.{Map, lookup, insert, values}
use spawnly.Registry.Types.{AgentRecord}
use spawnly.Registry.Store.{Store, get_agent, update_agent, append_event}
use spawnly.Registry.Lineage.Descent.{Descends, here, spawned}
use spawnly.Registry.World.{Env, World}
use spawnly.Registry.Cascade.{revocable_status, revoke_node, over_nodes}
use spawnly.Registry.Cascade.Nodes.{with_status, flipped, revoke_node-Acts}

-- The id and the parent of each record, in order.
abbrev shape : AgentRecord → String × String
shape r = (r.agent_id, r.parent_id)

abbrev shapes : Map AgentRecord → List (String × String)
unfolding values
shapes m = map shape (values m)

shapes-insert :
    (id status : String) (r : AgentRecord) (m : Map AgentRecord)
    → lookup id m ≡ some r
    → map shape (values (insert id (with_status status r) m)) ≡ map shape (values m)
unfolding lookup insert values
shapes-insert id status r [] h = cc h
shapes-insert id status r ((k, c) ∷ m) h = elim (Bool-cases (k == id)) [
  | inl e ↦ let same : some c ≡ some r = rw e at h in rw (e, some-injective same) refl
  | inr e ↦ rw e (ap (◌∷◌ (shape c)) (shapes-insert id status r m (rw e at h)))
]

-- A later state of the store, as revocations leave it.
pub record Sim (s s' : Store) : Type 0 where
  pub shaped : map shape (values s'.agents) ≡ map shape (values s.agents)
  pub stays :
      (j : String)
      → revocable_status (get_agent j s).status ≡ false
      → revocable_status (get_agent j s').status ≡ false
  pub known : (j : String) → (get_agent j s').agent_id ≡ (get_agent j s).agent_id

pub Sim-refl : (s : Store) → Sim s s
Sim-refl s = record { shaped = refl; stays = λ j h. h; known = λ j. refl }

pub Sim-trans : (s t u : Store) → Sim s t → Sim t u → Sim s u
Sim-trans s t u a b = record {
  shaped = b.shaped ∙ a.shaped;
  stays = λ j h. b.stays j (a.stays j h);
  known = λ j. b.known j ∙ a.known j;
}

map-shape-Memᴰ :
    (rs qs : List AgentRecord) (r : AgentRecord)
    → map shape qs ≡ map shape rs
    → Memᴰ r rs
    → (q : AgentRecord) × Memᴰ q qs × (q.agent_id ≡ r.agent_id) × (q.parent_id ≡ r.parent_id)
map-shape-Memᴰ [] qs r e m = absurd (Memᴰ.not-nil m)
map-shape-Memᴰ (c ∷ rs) [] r e m = cc e
map-shape-Memᴰ (c ∷ rs) (q ∷ qs) r e (Memᴰ.head h) =
    let first : shape q ≡ shape c = ap (top c) e in
    (
      q,
      Memᴰ.head refl,
      ap (λ x. x.0) first ∙ sym (ap (λ x. x.agent_id) h),
      ap (λ x. x.1) first ∙ sym (ap (λ x. x.parent_id) h),
    )
  where
    top : AgentRecord → List (String × String) → String × String
    top c [] = shape c
    top c (x ∷ xs) = x
map-shape-Memᴰ (c ∷ rs) (q ∷ qs) r e (Memᴰ.tail m) =
    let (q', m', a, b) = map-shape-Memᴰ rs qs r (ap rest e) m in (q', Memᴰ.tail m', a, b)
  where
    rest : List (String × String) → List (String × String)
    rest [] = []
    rest (x ∷ xs) = xs

-- Descent is the same in both.
pub Sim-Descends :
    (s s' : Store) (root x : String) → Sim s s' → Descends s root x → Descends s' root x
Sim-Descends s s' root x sim here = here
Sim-Descends s s' root x sim (spawned {p = p} r d m e) =
    let (q, m', a, b) = map-shape-Memᴰ (values s.agents) (values s'.agents) r sim.shaped m in
    subst (Descends s' root) a (spawned q (Sim-Descends s s' root p sim d) m' (b ∙ e))

-- A record that a revocation has met is not revocable.
flipped-settled :
    (r : AgentRecord) → revocable_status (flipped revocable_status "revoked" r).status ≡ false
unfolding revocable_status
flipped-settled r = elim (Bool-cases (revocable_status r.status)) [
  | inl e ↦ rw e refl
  | inr e ↦ rw (e, e) refl
]

flipped-id : (r : AgentRecord) → (flipped revocable_status "revoked" r).agent_id ≡ r.agent_id
flipped-id r = elim (Bool-cases (revocable_status r.status)) [
  | inl e ↦ rw e refl
  | inr e ↦ rw e refl
]

pub met-settled :
    (j : String) (s s' : Store)
    → lookup j s'.agents ≡ Option.map (flipped revocable_status "revoked") (lookup j s.agents)
    → revocable_status (get_agent j s').status ≡ false
unfolding get_agent revocable_status
met-settled j s s' h = elim (Option-cases (lookup j s.agents)) [
  | inl e ↦ rw (h, e) refl
  | inr (r, e) ↦ rw (h, e) (flipped-settled r)
]

met-id :
    (j : String) (s s' : Store)
    → lookup j s'.agents ≡ Option.map (flipped revocable_status "revoked") (lookup j s.agents)
    → (get_agent j s').agent_id ≡ (get_agent j s).agent_id
unfolding get_agent
met-id j s s' h = elim (Option-cases (lookup j s.agents)) [
  | inl e ↦ rw (h, e) refl
  | inr (r, e) ↦ rw (h, e) (flipped-id r)
]

revoke_node-shapes :
    (env : Env) (id : String) (w : World)
    → map shape (values (revoke_node env id w).1.store.agents) ≡ map shape (values w.store.agents)
unfolding get_agent update_agent append_event revocable_status revoke_node values
revoke_node-shapes env id w = elim (Option-cases (lookup id w.store.agents)) [
  | inl e ↦ rw (e, revoke_node) refl
  | inr (r, e) ↦ elim (Bool-cases (revocable_status r.status)) [
    | inl p ↦
        rw (e, revoke_node)
          (rw (p, revoke_node)
            (rw (e, update_agent) (shapes-insert id "revoked" r w.store.agents e)))
    | inr p ↦ rw (e, revoke_node) (rw (p, revoke_node) refl)
  ]
]

-- One revocation.
revoke_node-Sim : (env : Env) (id : String) (w : World) → Sim w.store (revoke_node env id w).1.store
unfolding get_agent
revoke_node-Sim env id w =
    let (_, changed, _) = revoke_node-Acts env id w in
    record {
      shaped = revoke_node-shapes env id w;
      stays = λ j h. elim (Bool-cases (id == j)) [
        | inl e ↦ met-settled j w.store (revoke_node env id w).1.store (rw e at (changed j))
        | inr e ↦ rw (rw e at (changed j)) h
      ];
      known = λ j. elim (Bool-cases (id == j)) [
        | inl e ↦ met-id j w.store (revoke_node env id w).1.store (rw e at (changed j))
        | inr e ↦ rw (rw e at (changed j)) refl
      ];
    }

-- The revocations of a list of nodes.
pub over_nodes-Sim :
    (env : Env) (ids : List String) (w : World)
    → Sim w.store (over_nodes (revoke_node env) ids w).1.store
unfolding over_nodes
over_nodes-Sim env [] w = Sim-refl w.store
over_nodes-Sim env (id ∷ ids) w =
    let w' = (revoke_node env id w).1 in
    Sim-trans w.store w'.store (over_nodes (revoke_node env) ids w').1.store
      (revoke_node-Sim env id w) (over_nodes-Sim env ids w')
