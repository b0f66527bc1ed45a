-- ===== src/Registry/Cascade/Filed.antt =====
-- Records that are stored under their own ids, each id once, as registrations store them.
use mathlib.Core.List.{Memᴰ}
use mathlib.Core.List.Memᴰ
use spawnly.Prelude.{
  String, ◌≡◌, refl, sym, ◌∙◌, inl, inr, Bool, true, false, ◌||◌, some, List, [], ◌∷◌, ◌==◌, arith,
  contains, select, Bool-cases, Option-cases, eq_refl, eq_sym, eq→path, some-injective,
}
use spawnly.Prelude.Assoc.{Map, lookup, insert, values, keys}
use spawnly.Registry.Types.{AgentRecord}
use spawnly.Registry.Store.{Store, register_agent, dismiss_agent, update_agent}
use spawnly.Registry.Lineage.{ids_of}

abbrev pub IsFiled : Map AgentRecord → Type 0
IsFiled [] = Unit
IsFiled ((k, r) ∷ m) = (r.agent_id ≡ k) × (contains (keys m) k ≡ false) × IsFiled m

IsFiled-keys :
    (m : Map AgentRecord) (r : AgentRecord)
    → IsFiled m
    → Memᴰ r (values m)
    → contains (keys m) r.agent_id ≡ true
unfolding keys values
IsFiled-keys [] r f h = absurd (Memᴰ.not-nil h)
IsFiled-keys ((k, c) ∷ m) r f (Memᴰ.head e) = rw (e, f.0, eq_refl k) refl
IsFiled-keys ((k, c) ∷ m) r f (Memᴰ.tail h) = later (k == r.agent_id) _ (IsFiled-keys m r f.2 h)
  where
    later : (a b : Bool) → b ≡ true → (a || b) ≡ true
    later a b h = ground arith

-- A record among the values is found under its id.
pub IsFiled-lookup :
    (m : Map AgentRecord) (r : AgentRecord)
    → IsFiled m
    → Memᴰ r (values m)
    → lookup r.agent_id m ≡ some r
unfolding lookup values
IsFiled-lookup [] r f h = absurd (Memᴰ.not-nil h)
IsFiled-lookup ((k, c) ∷ m) r f (Memᴰ.head e) = rw (e, f.0, eq_refl k) refl
IsFiled-lookup ((k, c) ∷ m) r f (Memᴰ.tail h) = elim (Bool-cases (k == r.agent_id)) [
  | inl e ↦
      let twice : contains (keys m) k ≡ true =
        rw (eq→path k r.agent_id e) (IsFiled-keys m r f.2 h) in
      absurd (cc (twice, f.1))
  | inr e ↦ rw e (IsFiled-lookup m r f.2 h)
]

-- A record that is found is among the values.
pub lookup-Memᴰ :
    (m : Map AgentRecord) (id : String) (r : AgentRecord) → lookup id m ≡ some r → Memᴰ r (values m)
unfolding lookup values
lookup-Memᴰ [] id r h = cc h
lookup-Memᴰ ((k, c) ∷ m) id r h = elim (Bool-cases (k == id)) [
  | inl e ↦ let same : some c ≡ some r = rw e at h in Memᴰ.head (sym (some-injective same))
  | inr e ↦ Memᴰ.tail (lookup-Memᴰ m id r (rw e at h))
]

pub lookup-IsFiled :
    (m : Map AgentRecord) (id : String) (r : AgentRecord)
    → IsFiled m
    → lookup id m ≡ some r
    → r.agent_id ≡ id
unfolding lookup
lookup-IsFiled [] id r f h = cc h
lookup-IsFiled ((k, c) ∷ m) id r f h = elim (Bool-cases (k == id)) [
  | inl e ↦
      let same : some c ≡ some r = rw e at h in rw (← some-injective same) (f.0 ∙ eq→path k id e)
  | inr e ↦ lookup-IsFiled m id r f.2 (rw e at h)
]

-- The records of a list that pass a test.
pub select-Memᴰ :
    (p : AgentRecord → Bool) (rs : List AgentRecord) (r : AgentRecord)
    → Memᴰ r rs
    → p r ≡ true
    → Memᴰ r (select p rs)
select-Memᴰ p [] r m h = absurd (Memᴰ.not-nil m)
select-Memᴰ p (c ∷ rs) r (Memᴰ.head e) h =
    let passes : p c ≡ true = rw (← e) h in rw passes (Memᴰ.head e)
select-Memᴰ p (c ∷ rs) r (Memᴰ.tail m) h = elim (Bool-cases (p c)) [
  | inl e ↦ rw e (Memᴰ.tail (select-Memᴰ p rs r m h))
  | inr e ↦ rw e (select-Memᴰ p rs r m h)
]

Memᴰ-kept :
    (p : AgentRecord → Bool) (c : AgentRecord) (rs : List AgentRecord) (r : AgentRecord)
    → (Memᴰ r (select p rs) → Memᴰ r rs × (p r ≡ true))
    → p c ≡ true
    → Memᴰ r (c ∷ select p rs)
    → Memᴰ r (c ∷ rs) × (p r ≡ true)
Memᴰ-kept p c rs r below e (Memᴰ.head q) = (Memᴰ.head q, rw q e)
Memᴰ-kept p c rs r below e (Memᴰ.tail m) = let (m', t) = below m in (Memᴰ.tail m', t)

pub Memᴰ-select :
    (p : AgentRecord → Bool) (rs : List AgentRecord) (r : AgentRecord)
    → Memᴰ r (select p rs)
    → Memᴰ r rs × (p r ≡ true)
Memᴰ-select p [] r h = absurd (Memᴰ.not-nil h)
Memᴰ-select p (c ∷ rs) r h = elim (Bool-cases (p c)) [
  | inl e ↦ Memᴰ-kept p c rs r (Memᴰ-select p rs r) e (rw e at h)
  | inr e ↦ let (m, t) = Memᴰ-select p rs r (rw e at h) in (Memᴰ.tail m, t)
]

-- A record with an id of the list.
pub ids_of-Memᴰ :
    (rs : List AgentRecord) (id : String)
    → contains (ids_of rs) id ≡ true
    → (r : AgentRecord) × Memᴰ r rs × (r.agent_id ≡ id)
ids_of-Memᴰ [] id h = cc h
ids_of-Memᴰ (c ∷ rs) id h = elim (Bool-cases (c.agent_id == id)) [
  | inl e ↦ (c, Memᴰ.head refl, eq→path c.agent_id id e)
  | inr e ↦ let (r, m, q) = ids_of-Memᴰ rs id (rw e at h) in (r, Memᴰ.tail m, q)
]

keys-insert :
    (k j : String) (r : AgentRecord) (m : Map AgentRecord)
    → contains (keys (insert k r m)) j ≡ (k == j || contains (keys m) j)
unfolding keys insert
keys-insert k j r [] = refl
keys-insert k j r ((i, c) ∷ m) = elim (Bool-cases (i == k)) [
  | inl e ↦ rw (e, eq→path i k e) (twice (k == j) (contains (keys m) j))
  | inr e ↦ rw (e, keys-insert k j r m) (swap (i == j) (k == j) (contains (keys m) j))
]
  where
    twice : (a b : Bool) → (a || b) ≡ (a || (a || b))
    twice a b = ground arith

    swap : (a b c : Bool) → (a || (b || c)) ≡ (b || (a || c))
    swap a b c = ground arith

pub insert-IsFiled :
    (k : String) (r : AgentRecord) (m : Map AgentRecord)
    → r.agent_id ≡ k
    → IsFiled m
    → IsFiled (insert k r m)
unfolding insert keys
insert-IsFiled k r [] e f = (e, refl, tt)
insert-IsFiled k r ((i, c) ∷ m) e f = elim (Bool-cases (i == k)) [
  | inl q ↦ rw q (e, rw (← eq→path i k q) f.1, f.2)
  | inr q ↦ rw q (f.0, rw (keys-insert k i r m, eq_sym k i, q) f.1, insert-IsFiled k r m e f.2)
]

-- Registering an agent, dismissing it and setting its status keep every record stored under its own id
-- and each id stored once.
pub agents-IsFiled :
    (r : AgentRecord) (id status : String) (s : Store)
    → IsFiled s.agents
    → IsFiled (register_agent r s).agents
      × IsFiled (dismiss_agent id s).1.agents
      × IsFiled (update_agent id status s).1.agents
unfolding register_agent dismiss_agent update_agent
agents-IsFiled r id status s f = (
  insert-IsFiled r.agent_id r s.agents refl f,
  elim (Option-cases (lookup id s.agents)) [
    | inl e ↦ rw (e, dismiss_agent) f
    | inr (c, e) ↦
        rw (e, dismiss_agent)
          (insert-IsFiled id (record c { dismissed = true }) s.agents
            (lookup-IsFiled s.agents id c f e) f)
  ],
  elim (Option-cases (lookup id s.agents)) [
    | inl e ↦ rw (e, update_agent) f
    | inr (c, e) ↦
        rw (e, update_agent)
          (insert-IsFiled id (record c { status = status }) s.agents
            (lookup-IsFiled s.agents id c f e) f)
  ],
)
