-- ===== src/Registry/Cascade/Nodes.antt =====
-- What revoking and resuming a list of nodes does to the records and to SpiceDB.
use mathlib.Core.Option
use spawnly.Prelude.{
  String, ◌≡◌, refl, ◌∙◌, ap, inl, inr, Bool, true, false, ◌||◌, Option, none, some, List, [], ◌∷◌,
  ◌==◌, ◌⧺◌, arith, eq→path, eq_sym, Bool-cases, Option-cases, contains, select, IsUnique,
  if◌then◌else◌,
}
use spawnly.Prelude.Assoc.{lookup, lookup-insert}
use spawnly.Spicedb.Client.{Call, write_relationship, delete_relationship}
use spawnly.Registry.Types.{AgentRecord}
use spawnly.Registry.Store.{Store, get_agent, update_agent, append_event}
use spawnly.Registry.World.{Env, World}
use spawnly.Registry.Cascade.{revocable_status, flip, revoke_node, resume_node, over_nodes}

abbrev pub with_status : String → AgentRecord → AgentRecord
with_status status r = record r { status = status }

-- The records before and after a change of status, for those whose status passes the test.
abbrev pub flipped : (String → Bool) → String → AgentRecord → AgentRecord
flipped p status r = if p r.status then with_status status r else r

abbrev pub is_revoked : String → Bool
is_revoked status = status == "revoked"

-- What the two node operations share: at a node that passes the test they change the status and make
-- one call, and elsewhere they do nothing.
abbrev pub Acts :
    (Env → String → World → Bool × World) → (String → Bool) → String → (String → Call) → Type 0
Acts f p status c =
    (env : Env) (id : String) (w : World)
    → ((f env id w).0 ≡ p (get_agent id w.store).status)
      × ((j : String)
          → lookup j (f env id w).1.store.agents ≡ (
              if id == j
              then Option.map (flipped p status) (lookup j w.store.agents)
              else lookup j w.store.agents))
      × ((f env id w).1.calls
          ≡ (if p (get_agent id w.store).status then c id ∷ w.calls else w.calls))

flip-agents :
    (env : Env) (id status : String) (c : Call) (event : String) (w : World) (j : String)
    → lookup j (flip env id status c event w).store.agents ≡ (
        if id == j
        then Option.map (with_status status) (lookup j w.store.agents)
        else lookup j w.store.agents)
unfolding update_agent append_event
flip-agents env id status c event w j = elim (Option-cases (lookup id w.store.agents)) [
  | inl e ↦ elim (Bool-cases (id == j)) [
    | inl q ↦ rw (e, update_agent) (rw (q, ← eq→path id j q, e))
    | inr q ↦ rw (e, update_agent) (rw q)
  ]
  | inr (r, e) ↦ elim (Bool-cases (id == j)) [
    | inl q ↦ rw (e, update_agent) (rw (lookup-insert, q, ← eq→path id j q, e))
    | inr q ↦ rw (e, update_agent) (rw (lookup-insert, q))
  ]
]

flip-calls :
    (env : Env) (id status : String) (c : Call) (event : String) (w : World)
    → (flip env id status c event w).calls ≡ c ∷ w.calls
flip-calls env id status c event w = refl

-- A node that does not pass the test is left as it is by the change of records.
kept_record :
    (p : String → Bool) (status id j : String) (s : Store)
    → p (get_agent id s).status ≡ false
    → lookup j s.agents
      ≡ (if id == j then Option.map (flipped p status) (lookup j s.agents) else lookup j s.agents)
unfolding get_agent
kept_record p status id j s h = elim (Bool-cases (id == j)) [
  | inl q ↦ elim (Option-cases (lookup id s.agents)) [
    | inl e ↦ rw (q, ← eq→path id j q, e)
    | inr (r, e) ↦ let stays : p r.status ≡ false = rw e at h in rw (q, ← eq→path id j q, e, stays)
  ]
  | inr q ↦ rw q
]

changed_record :
    (p : String → Bool) (status id j : String) (s : Store)
    → p (get_agent id s).status ≡ true
    → (if id == j then Option.map (with_status status) (lookup j s.agents) else lookup j s.agents)
      ≡ (if id == j then Option.map (flipped p status) (lookup j s.agents) else lookup j s.agents)
unfolding get_agent
changed_record p status id j s h = elim (Bool-cases (id == j)) [
  | inl q ↦ elim (Option-cases (lookup id s.agents)) [
    | inl e ↦ rw (q, ← eq→path id j q, e)
    | inr (r, e) ↦ let goes : p r.status ≡ true = rw e at h in rw (q, ← eq→path id j q, e, goes)
  ]
  | inr q ↦ rw q
]

-- What revoking and resuming a node ask of SpiceDB.
abbrev pub disable_call : String → Call
disable_call id = delete_relationship ("agent:" ⧺ id) "enabled" ("agent:" ⧺ id)

abbrev pub enable_call : String → Call
enable_call id = write_relationship ("agent:" ⧺ id) "enabled" ("agent:" ⧺ id)

pub revoke_node-Acts : Acts revoke_node revocable_status "revoked" disable_call
unfolding revoke_node
revoke_node-Acts env id w = elim (Bool-cases (revocable_status (get_agent id w.store).status)) [
  | inl e ↦
      rw (e, revoke_node)
        (
          refl,
          (λ j.
              flip-agents env id "revoked" (disable_call id) "agent_revoked" w j
              ∙ changed_record revocable_status "revoked" id j w.store e),
          refl,
        )
  | inr e ↦
      rw (e, revoke_node) (refl, (λ j. kept_record revocable_status "revoked" id j w.store e), refl)
]

pub resume_node-Acts : Acts resume_node is_revoked "active" enable_call
unfolding resume_node
resume_node-Acts env id w = elim (Bool-cases (is_revoked (get_agent id w.store).status)) [
  | inl e ↦
      rw (e, resume_node)
        (
          refl,
          (λ j.
              flip-agents env id "active" (enable_call id) "agent_resumed" w j
              ∙ changed_record is_revoked "active" id j w.store e),
          refl,
        )
  | inr e ↦ rw (e, resume_node) (refl, (λ j. kept_record is_revoked "active" id j w.store e), refl)
]

-- The calls of a run over nodes, newest first.
abbrev pub logged : (String → Call) → List String → List Call → List Call
logged c [] cs = cs
logged c (id ∷ ids) cs = logged c ids (c id ∷ cs)

module _ (f : Env → String → World → Bool × World) (p : String → Bool) (status : String)
    (c : String → Call) (acts : Acts f p status c) (settled : p status ≡ false) (env : Env) where
  flipped-idempotent :
      (r : AgentRecord) → flipped p status (flipped p status r) ≡ flipped p status r
  flipped-idempotent r = elim (Bool-cases (p r.status)) [
    | inl e ↦ rw (e, settled)
    | inr e ↦ rw (e, e)
  ]

  map-flipped :
      (o : Option AgentRecord)
      → Option.map (flipped p status) (Option.map (flipped p status) o)
        ≡ Option.map (flipped p status) o
  map-flipped none = refl
  map-flipped (some r) = ap some (flipped-idempotent r)

  -- Every listed node, and no other, is given the status if it passes the test.
  pub over_nodes-agents :
      (ids : List String) (w : World) (j : String)
      → lookup j (over_nodes (f env) ids w).1.store.agents ≡ (
          if contains ids j
          then Option.map (flipped p status) (lookup j w.store.agents)
          else lookup j w.store.agents)
  unfolding over_nodes
  over_nodes-agents [] w j = refl
  over_nodes-agents (id ∷ ids) w j =
      over_nodes-agents ids (f env id w).1 j
      ∙ rw ((acts env id w).1 j) (elim (Bool-cases (id == j)) [
        | inl e ↦ elim (Bool-cases (contains ids j)) [
          | inl k ↦ rw (e, k) (map-flipped (lookup j w.store.agents))
          | inr k ↦ rw (e, k)
        ]
        | inr e ↦ rw e
      ])

  -- One call for each node that is listed as changed, in order.
  pub over_nodes-calls :
      (ids : List String) (w : World)
      → (over_nodes (f env) ids w).1.calls ≡ logged c (over_nodes (f env) ids w).0 w.calls
  unfolding over_nodes
  over_nodes-calls [] w = refl
  over_nodes-calls (id ∷ ids) w = elim (Bool-cases (p (get_agent id w.store).status)) [
    | inl e ↦
        let hit : (f env id w).0 ≡ true = (acts env id w).0 ∙ e in
        let made : (f env id w).1.calls ≡ c id ∷ w.calls = (acts env id w).2 ∙ rw e in
        rw hit (over_nodes-calls ids (f env id w).1 ∙ rw made)
    | inr e ↦
        let hit : (f env id w).0 ≡ false = (acts env id w).0 ∙ e in
        let made : (f env id w).1.calls ≡ w.calls = (acts env id w).2 ∙ rw e in
        rw hit (over_nodes-calls ids (f env id w).1 ∙ rw made)
  ]

  get_agent-apart :
      (id j : String) (w : World)
      → (id == j) ≡ false
      → get_agent j (f env id w).1.store ≡ get_agent j w.store
  unfolding get_agent
  get_agent-apart id j w h = rw ((acts env id w).1 j, h)

  select-apart :
      (id : String) (ids : List String) (w : World)
      → contains ids id ≡ false
      → select (λ j. p (get_agent j (f env id w).1.store).status) ids
        ≡ select (λ j. p (get_agent j w.store).status) ids
  select-apart id [] w h = refl
  select-apart id (j ∷ ids) w h = rw (
    get_agent-apart id j w (eq_sym id j ∙ near (j == id) (contains ids id) h),
    select-apart id ids w (far (j == id) (contains ids id) h),
  )
    where
      near : (a b : Bool) → (a || b) ≡ false → a ≡ false
      near a b h = ground arith

      far : (a b : Bool) → (a || b) ≡ false → b ≡ false
      far a b h = ground arith

  -- Where no node stands twice, the nodes listed as changed are those that passed the test before.
  pub over_nodes-changed :
      (ids : List String) (w : World)
      → IsUnique ids
      → (over_nodes (f env) ids w).0 ≡ select (λ j. p (get_agent j w.store).status) ids
  unfolding over_nodes
  over_nodes-changed [] w u = refl
  over_nodes-changed (id ∷ ids) w u =
      rw ((acts env id w).0, over_nodes-changed ids (f env id w).1 u.1, select-apart id ids w u.0)
