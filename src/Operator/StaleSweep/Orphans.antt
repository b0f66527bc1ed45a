-- ===== src/Operator/StaleSweep/Orphans.antt =====
-- Which agents the sweep fails.
use spawnly.Prelude.{
  String, ◌≡◌, refl, ◌∙◌, ap, inl, inr, Bool, true, false, not, ◌&&◌, List, [], ◌∷◌, ◌++◌, some,
  Result, ok, err, Bool-cases, contains, select, if◌then◌else◌,
}
use spawnly.Registry.Types.{AgentRecord}
use spawnly.Registry.Lineage.{ids_of}
use spawnly.Operator.StaleSweep.{
  Action, fail, post, is_elsewhere, stale_sweep_statuses, stale_event, sweep_agent, sweep_agents,
  sweep,
}

-- An agent of this cluster whose status needs a workload, and that has none.
abbrev pub is_orphan : List String → AgentRecord → Bool
is_orphan live a =
    not (is_elsewhere a) && stale_sweep_statuses a.status && not (contains live a.agent_id)

abbrev pub failed_ids : List Action → List String
failed_ids [] = []
failed_ids (fail id ∷ xs) = id ∷ failed_ids xs
failed_ids (post id e ∷ xs) = failed_ids xs

abbrev pub posted_ids : List Action → List String
posted_ids [] = []
posted_ids (fail id ∷ xs) = posted_ids xs
posted_ids (post id e ∷ xs) = id ∷ posted_ids xs

failed_ids-append : (xs ys : List Action) → failed_ids (xs ++ ys) ≡ failed_ids xs ++ failed_ids ys
failed_ids-append [] ys = refl
failed_ids-append (fail id ∷ xs) ys = ap (◌∷◌ id) (failed_ids-append xs ys)
failed_ids-append (post id e ∷ xs) ys = failed_ids-append xs ys

posted_ids-append : (xs ys : List Action) → posted_ids (xs ++ ys) ≡ posted_ids xs ++ posted_ids ys
posted_ids-append [] ys = refl
posted_ids-append (fail id ∷ xs) ys = posted_ids-append xs ys
posted_ids-append (post id e ∷ xs) ys = ap (◌∷◌ id) (posted_ids-append xs ys)

module _ (trigger : String) (has_events : Bool) (takes : String → Bool) (live : List String) where
  sweep_agent-orphan :
      (a : AgentRecord)
      → sweep_agent trigger has_events takes live a ≡ (
          if is_orphan live a
          then fail a.agent_id
            ∷ (if takes a.agent_id && has_events
                then post a.agent_id (stale_event trigger a) ∷ []
                else [])
          else [])
  unfolding sweep_agent
  sweep_agent-orphan a =
      ladder (is_elsewhere a) (stale_sweep_statuses a.status) (contains live a.agent_id) _
    where
      ladder :
          (x y z : Bool) (xs : List Action)
          → (if x then [] else if not y then [] else if z then [] else xs)
            ≡ (if not x && y && not z then xs else [])
      ladder true y z xs = refl
      ladder false false z xs = refl
      ladder false true true xs = refl
      ladder false true false xs = refl

  failed-sweep_agents :
      (agents : List AgentRecord)
      → failed_ids (sweep_agents trigger has_events takes live agents)
        ≡ ids_of (select (is_orphan live) agents)
  unfolding sweep_agents
  failed-sweep_agents [] = refl
  failed-sweep_agents (a ∷ agents) =
      failed_ids-append (sweep_agent trigger has_events takes live a) _
      ∙ rw (failed-sweep_agents agents, sweep_agent-orphan a)
          (elim (Bool-cases (is_orphan live a)) [
            | inr e ↦ rw e refl
            | inl e ↦ elim (Bool-cases (takes a.agent_id && has_events)) [
              | inl t ↦ rw (e, t) refl
              | inr t ↦ rw (e, t) refl
            ]
          ])

  posted-sweep_agents :
      (agents : List AgentRecord)
      → posted_ids (sweep_agents trigger has_events takes live agents)
        ≡ ids_of (select (λ a. is_orphan live a && (takes a.agent_id && has_events)) agents)
  unfolding sweep_agents
  posted-sweep_agents [] = refl
  posted-sweep_agents (a ∷ agents) =
      posted_ids-append (sweep_agent trigger has_events takes live a) _
      ∙ rw (posted-sweep_agents agents, sweep_agent-orphan a)
          (elim (Bool-cases (is_orphan live a)) [
            | inr e ↦ rw e refl
            | inl e ↦ elim (Bool-cases (takes a.agent_id && has_events)) [
              | inl t ↦ rw (e, t) refl
              | inr t ↦ rw (e, t) refl
            ]
          ])

-- A sweep whose two listings succeed fails exactly the agents of this cluster that are active, awaiting
-- consent or revoked and have no workload, in order, and posts an event for exactly those whose failure
-- the registry takes, if there is an events client. A sweep with a listing that fails does nothing and
-- returns its error.
pub sweep_exact :
    (trigger : String) (has_events : Bool) (takes : String → Bool) (listed : List AgentRecord)
    (live : List String) (workloads : Result (List String)) (e : String)
    → let run = sweep trigger has_events takes in
      let actions = (run (ok listed) (ok live)).1 in
      (failed_ids actions ≡ ids_of (select (is_orphan live) listed))
      × (posted_ids actions
          ≡ ids_of (select (λ a. is_orphan live a && (takes a.agent_id && has_events)) listed))
      × (run (err e) workloads ≡ (some e, []))
      × (run (ok listed) (err e) ≡ (some e, []))
unfolding sweep
sweep_exact trigger has_events takes listed live workloads e = (
  failed-sweep_agents trigger has_events takes live listed,
  posted-sweep_agents trigger has_events takes live listed,
  refl,
  refl,
)
