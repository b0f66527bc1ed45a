-- ===== src/Operator/StaleSweep.antt =====
-- internal/operator/stalesweep.go: marking failed the agents whose workload is gone. What the registry
-- and the cluster answer to the two listings is an argument, as is whether the registry takes the
-- failure of an agent; what the sweep asks of the outside is its result.
pub mod Orphans
use spawnly.Prelude.{
  String, Bool, true, false, not, ◌&&◌, ◌||◌, List, [], ◌∷◌, ◌++◌, ◌==◌, ◌⧺◌, Option, none, some,
  Result, ok, err, contains, if◌then◌else◌,
}
use spawnly.Registry.Types.{
  AgentRecord, Event, Payload, fields, source_operator, placement_remote, placement_substrate,
}
use spawnly.Registry.World.{event_of}

-- The map of the statuses that need a workload.
unfoldable pub stale_sweep_statuses : String → Bool
stale_sweep_statuses status =
    status == "active" || status == "awaiting-consent" || status == "revoked"

-- `Registry.Fail` and `Events.PostEvent`
pub data Action : Type 0 where
  fail : String → Action
  post : String → Event → Action

unfoldable pub stale_event : String → AgentRecord → Event
stale_event trigger a =
    let reason = "no workload found — marked failed by " ⧺ trigger ⧺ " reconciliation" in
    event_of source_operator "reconcile.stale"
      (fields (("reason", reason) ∷ ("wasStatus", a.status) ∷ []))

abbrev pub is_elsewhere : AgentRecord → Bool
is_elsewhere a = a.placement == placement_remote || a.placement == placement_substrate

-- What the sweep does to one agent: it posts the event only if the failure was taken.
unfoldable pub sweep_agent :
    String → Bool → (String → Bool) → List String → AgentRecord → List Action
sweep_agent trigger has_events takes live a =
    if is_elsewhere a
    then []
    else if not (stale_sweep_statuses a.status)
    then []
    else if contains live a.agent_id
    then []
    else fail a.agent_id
      ∷ (if takes a.agent_id && has_events
          then post a.agent_id (stale_event trigger a) ∷ []
          else [])

unfoldable pub sweep_agents :
    String → Bool → (String → Bool) → List String → List AgentRecord → List Action
sweep_agents trigger has_events takes live [] = []
sweep_agents trigger has_events takes live (a ∷ agents) =
    sweep_agent trigger has_events takes live a ++ sweep_agents trigger has_events takes live agents

-- The error that `Sweep` returns, and what it did; the agents are listed before the workloads.
unfoldable pub sweep :
    String
    → Bool
    → (String → Bool)
    → Result (List AgentRecord)
    → Result (List String)
    → Option String × List Action
sweep trigger has_events takes (err e) workloads = (some e, [])
sweep trigger has_events takes (ok agents) (err e) = (some e, [])
sweep trigger has_events takes (ok agents) (ok live) =
    (none, sweep_agents trigger has_events takes live agents)
