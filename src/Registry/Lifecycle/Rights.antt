-- ===== src/Registry/Lifecycle/Rights.antt =====
-- Who may post events and set statuses, and what that changes.

use spawnly.Prelude.{
  String, ◌≡◌, refl, inl, inr, Bool, true, not, ◌&&◌, ◌||◌, Option, some, [], ◌∷◌, ◌++◌, ◌==◌,
  eq_refl, eq→path, ok, Bool-cases, if◌then◌else◌,
}
use spawnly.Prelude.Assoc.{lookup, lookup-insert}
use spawnly.Spicedb.Client.{delete_agent_relationships}
use spawnly.Registry.Types.{AgentRecord, Event}
use spawnly.Registry.Store.{
  get_agent, get_template, update_agent, get_events, append_event, event_id,
}
use spawnly.Registry.World.{Env, World, reply, unauthorized}
use spawnly.Registry.Cascade.Nodes.{with_status, disable_call}
use spawnly.Registry.Lifecycle.{
  is_self, is_child, may_post, post_event, is_terminal, types_or, clean_up, patch_agent,
}

-- The event as it is stored.
abbrev pub stamped : Env → World → Event → Event
stamped env w e = record e {
  id = event_id (env.time w.ticks) (env.random w.ticks);
  timestamp = env.time w.ticks;
}

-- An event is appended to those of its agent, with the server's id and time, exactly if the caller is
-- of the control plane, or proves the agent's own id or that of a child of the agent; otherwise
-- nothing changes. No other agent's events change, and no record does.
pub post_event_exact :
    (env : Env) (authed : Bool) (identity : Option String) (agent_id : String) (e : Event)
    (w : World)
    → let r = post_event env authed identity agent_id (ok e) w in
      let allowed = authed || is_self identity agent_id || is_child identity agent_id w.store in
      (r.0 ≡ (if allowed then reply 201 (stamped env w e) else unauthorized))
      × ((j : String)
          → get_events j r.1.store ≡ (
              if allowed && agent_id == j
              then get_events j w.store ++ stamped env w e ∷ []
              else get_events j w.store))
      × (r.1.store.agents ≡ w.store.agents)
unfolding post_event append_event get_events
post_event_exact env authed identity agent_id e w =
    elim (Bool-cases (may_post authed identity agent_id w.store)) [
      | inr shut ↦ rw (shut, post_event) (refl, (λ j. refl), refl)
      | inl free ↦
          rw (free, post_event)
            (
              refl,
              (λ j. elim (Bool-cases (agent_id == j)) [
                | inl q ↦ rw (lookup-insert, q, eq→path agent_id j q) refl
                | inr q ↦ rw (lookup-insert, q) refl
              ]),
              refl,
            )
    ]

clean_up-store : (env : Env) (id : String) (w : World) → (clean_up env id w).store ≡ w.store
unfolding clean_up
clean_up-store env id w = refl

-- A caller of the control plane, and an agent that proves its own id, set the status of a known agent.
-- No other record changes. Only a terminal status calls SpiceDB: it deletes the agent's relationships
-- of its template's types, and then its `enabled` tuple.
pub patch_agent_exact :
    (env : Env) (authed : Bool) (identity : Option String) (agent_id status : String) (w : World)
    (rec : AgentRecord)
    → (authed || is_self identity agent_id) ≡ true
    → lookup agent_id w.store.agents ≡ some rec
    → let r = patch_agent env authed identity agent_id (ok status) w in
      let types = types_or (get_template rec.agent_type w.store) (not (rec.tenant_id == "")) in
      (r.0 ≡ reply 200 tt)
      × ((j : String)
          → lookup j r.1.store.agents
            ≡ (if agent_id == j then some (with_status status rec) else lookup j w.store.agents))
      × (r.1.calls ≡ (
          if is_terminal status
          then disable_call agent_id ∷ delete_agent_relationships agent_id types ∷ w.calls
          else w.calls))
unfolding patch_agent update_agent clean_up get_agent get_template
patch_agent_exact env authed identity agent_id status w rec allowed at =
    elim (Bool-cases (is_terminal status)) [
      | inl e ↦
          rw (allowed, patch_agent)
            (rw (at, update_agent)
              (rw (e, patch_agent)
                (
                  refl,
                  (λ j. lookup-insert agent_id j (with_status status rec) w.store.agents),
                  rw (lookup-insert, eq_refl agent_id) refl,
                )))
      | inr e ↦
          rw (allowed, patch_agent)
            (rw (at, update_agent)
              (rw (e, patch_agent)
                (
                  refl,
                  (λ j. lookup-insert agent_id j (with_status status rec) w.store.agents),
                  refl,
                )))
    ]
