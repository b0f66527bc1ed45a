-- ===== src/Registry/Cascade/Suspension.antt =====
-- The suspensions of an organization and of a user (cmd/registry/orgs.go, users.go).
use mathlib.Core.List.{Memᴰ}
use mathlib.Core.List.Memᴰ
use mathlib.Core.Path.{fun_ext}
use spawnly.Prelude.{
  ℕ, String, ◌≡◌, refl, sym, ◌∙◌, subst, inl, inr, Bool, true, false, not, ◌&&◌, some, List, [],
  ◌∷◌, ◌==◌, arith, contains, select, All, Bool-cases, path→eq, if_cases, if◌then◌else◌,
}
use spawnly.Prelude.Assoc.{lookup, values}
use spawnly.Registry.Types.{AgentRecord}
use spawnly.Registry.Store.{get_agent, list_agents}
use spawnly.Registry.Lineage.Descent.{Descends}
use spawnly.Registry.Lineage.Depth.{Lineage}
use spawnly.Registry.World.{Env, World}
use spawnly.Registry.Control.Revocation.{nodes_of-IsSubtree}
use spawnly.Registry.Cascade.{
  revocable_status, revoke_node, over_nodes, nodes_of, or_none, cascade_over_roots,
  revoke_cascade_roots, revoke_owned_roots, suspend_org_agents, suspend_user_agents,
}
use spawnly.Registry.Cascade.Nodes.{disable_call, revoke_node-Acts, over_nodes-agents}
use spawnly.Registry.Cascade.Filed.{IsFiled, lookup-IsFiled, lookup-Memᴰ, select-Memᴰ}
use spawnly.Registry.Cascade.Similar.{
  Sim, Sim-refl, Sim-trans, Sim-Descends, met-settled, over_nodes-Sim,
}
use spawnly.Registry.Cascade.Roots.{is_covered, scope_of, root-Above}

-- The world after one root.
abbrev revoked : Env → AgentRecord → World → World
revoked env a w = (over_nodes (revoke_node env) (or_none (nodes_of a.agent_id w.store)) w).1

abbrev next : Env → List String → AgentRecord → World → World
next env scope a w = if is_covered scope a then w else revoked env a w

module _ (env : Env) (scope : List String) where
  next-Sim : (a : AgentRecord) (w : World) → Sim w.store (next env scope a w).store
  next-Sim a w =
      if_cases (λ (v : World). Sim w.store v.store) (is_covered scope a) w (revoked env a w)
        (λ _. Sim-refl w.store) (λ _. over_nodes-Sim env (or_none (nodes_of a.agent_id w.store)) w)

  cascade-Sim :
      (roots : List AgentRecord) (w : World)
      → Sim w.store (cascade_over_roots env roots scope w).store
  unfolding cascade_over_roots
  cascade-Sim [] w = Sim-refl w.store
  cascade-Sim (a ∷ roots) w =
      let w' = next env scope a w in
      Sim-trans w.store w'.store (cascade_over_roots env roots scope w').store (next-Sim a w)
        (cascade-Sim roots w')

  -- A root that is not covered leaves nothing under it revocable.
  next-settles :
      (a : AgentRecord) (w : World) (x : String)
      → is_covered scope a ≡ false
      → ((get_agent a.agent_id w.store).agent_id == "") ≡ false
      → Descends w.store a.agent_id x
      → revocable_status (get_agent x (next env scope a w).store).status ≡ false
  unfolding revocable_status
  next-settles a w x top known d =
      let (nodes, e, is) = nodes_of-IsSubtree a.agent_id w.store known in
      let within : contains nodes x ≡ true = (is.0 x).1 d in
      let after = (over_nodes (revoke_node env) nodes w).1 in
      let met : revocable_status (get_agent x after.store).status ≡ false =
        met-settled x w.store after.store (
          over_nodes-agents revoke_node revocable_status "revoked" disable_call revoke_node-Acts
            refl env nodes w x
          ∙ rw within refl) in
      rw top (rw (e, revoked) met)

  cascade-settles :
      (roots : List AgentRecord) (w : World) (a : AgentRecord) (x : String)
      → Memᴰ a roots
      → is_covered scope a ≡ false
      → ((get_agent a.agent_id w.store).agent_id == "") ≡ false
      → Descends w.store a.agent_id x
      → revocable_status (get_agent x (cascade_over_roots env roots scope w).store).status ≡ false
  unfolding cascade_over_roots
  cascade-settles [] w a x m top known d = absurd (Memᴰ.not-nil m)
  cascade-settles (c ∷ roots) w a x (Memᴰ.head h) top known d =
      let w' = next env scope c w in
      (cascade-Sim roots w').stays x (
        next-settles c w x (rw (← h) top) (rw (← h) known)
          (subst (λ (b : AgentRecord). Descends w.store b.agent_id x) h d))
  cascade-settles (c ∷ roots) w a x (Memᴰ.tail m) top known d =
      let w' = next env scope c w in
      let sim = next-Sim c w in
      cascade-settles roots w' a x m top (rw (sim.known a.agent_id) known)
        (Sim-Descends w.store w'.store a.agent_id x sim d)

-- A cascade that starts from every listed agent of its scope settles the agents of that scope.
revoke_cascade_roots-settles :
    (env : Env) (p : AgentRecord → Bool) (w : World) (id : String) (r : AgentRecord) (n : ℕ)
    → IsFiled w.store.agents
    → lookup id w.store.agents ≡ some r
    → (id == "") ≡ false
    → p r ≡ true
    → r.dismissed ≡ false
    → Lineage w.store id n
    → revocable_status (get_agent id (revoke_cascade_roots env p p w).store).status ≡ false
unfolding revoke_cascade_roots list_agents
revoke_cascade_roots-settles env p w id r n filed at named within shown l =
    let same = lookup-IsFiled w.store.agents id r filed at in
    let listed =
      select-Memᴰ (λ x. not x.dismissed) (values w.store.agents) r
        (lookup-Memᴰ w.store.agents id r at) (rw shown refl) in
    let member = select-Memᴰ p (list_agents w.store) r listed within in
    let (a, root, top, known, under_a) =
      root-Above p w.store filed n r member (rw same named)
        (subst (λ x. Lineage w.store x n) (sym same) l) in
    cascade-settles env (scope_of p w.store) (select p (list_agents w.store)) w a id root top known
      (subst (Descends w.store a.agent_id) same under_a)

-- After the suspension of an organization, every agent of it that is not dismissed, and whose lineage
-- ends, has a status that is neither active nor pending.
pub suspend_org_agents_settles :
    (env : Env) (org_id : String) (w : World) (id : String) (r : AgentRecord) (n : ℕ)
    → IsFiled w.store.agents
    → lookup id w.store.agents ≡ some r
    → (id == "") ≡ false
    → r.org_id ≡ org_id
    → r.dismissed ≡ false
    → Lineage w.store id n
    → revocable_status (get_agent id (suspend_org_agents env org_id w).store).status ≡ false
unfolding suspend_org_agents
suspend_org_agents_settles env org_id w id r n filed at named within shown l =
    revoke_cascade_roots-settles env (λ a. a.org_id == org_id) w id r n filed at named
      (path→eq r.org_id org_id within) shown l

-- After the suspension of a user's agents, every agent of the user that is not dismissed, and whose
-- lineage ends, has a status that is neither active nor pending.
pub suspend_user_agents_settles :
    (env : Env) (user : String) (w : World) (id : String) (r : AgentRecord) (n : ℕ)
    → IsFiled w.store.agents
    → lookup id w.store.agents ≡ some r
    → (id == "") ≡ false
    → r.user_id ≡ user
    → r.dismissed ≡ false
    → Lineage w.store id n
    → revocable_status (get_agent id (suspend_user_agents env user w).store).status ≡ false
unfolding suspend_user_agents revoke_owned_roots
suspend_user_agents_settles env user w id r n filed at named within shown l =
    let p = λ (a : AgentRecord). a.user_id == user in
    subst
      (λ (q : AgentRecord → Bool).
        revocable_status (get_agent id (revoke_cascade_roots env p q w).store).status ≡ false)
      (fun_ext (λ a. sym (and_true (a.user_id == user))))
      (revoke_cascade_roots-settles env p w id r n filed at named (path→eq r.user_id user within)
        shown l)
  where
    and_true : (a : Bool) → (a && true) ≡ a
    and_true a = ground arith

none_listed :
    (org_id : String) (rs : List AgentRecord)
    → All (λ r. (r.org_id == org_id && not r.dismissed) ≡ false) rs
    → select (λ a. a.org_id == org_id) (select (λ x. not x.dismissed) rs) ≡ []
none_listed org_id [] h = refl
none_listed org_id (r ∷ rs) h = elim (Bool-cases r.dismissed) [
  | inl e ↦ rw e (none_listed org_id rs h.1)
  | inr e ↦
      let other : (r.org_id == org_id) ≡ false = plain (r.org_id == org_id) (rw e at h.0) in
      rw e (rw other (none_listed org_id rs h.1))
]
  where
    plain : (a : Bool) → (a && true) ≡ false → a ≡ false
    plain a h = ground arith

-- The suspension of an organization all of whose agents are dismissed changes nothing, also where
-- they are still active.
pub suspend_org_agents_skips_dismissed :
    (env : Env) (org_id : String) (w : World)
    → All (λ r. (r.org_id == org_id && not r.dismissed) ≡ false) (values w.store.agents)
    → suspend_org_agents env org_id w ≡ w
unfolding suspend_org_agents revoke_cascade_roots list_agents cascade_over_roots
suspend_org_agents_skips_dismissed env org_id w h =
    rw (none_listed org_id (values w.store.agents) h) refl
