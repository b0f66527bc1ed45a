-- ===== src/Registry/Lineage.antt =====
-- cmd/registry/main.go: `subtree`, `depth` and the handler of `GET /v1/agents/{id}/chain`, the walks
-- along the ParentID edges. They read through the `Store` interface, whose methods may fail.
pub mod Subtree
pub mod Descent
pub mod Exact
pub mod Depth
pub mod Failure
use spawnly.Prelude.{
  ℕ, zero, suc, ◌+◌, String, Bool, true, false, not, ◌&&◌, Option, none, some, List, [], ◌∷◌, ◌++◌,
  map, ◌==◌, Result, ok, err, contains, length, if◌then◌else◌,
}
use spawnly.Registry.Types.{AgentRecord}
use spawnly.Registry.Store.{Store, get_agent, list_children}

-- `GetAgent` and `ListChildren` of `registry.Store`, at one state of the store.
pub record Reads : Type 0 where
  pub get_agent : String → Result AgentRecord
  pub list_children : String → Result (List AgentRecord)

-- The in-memory store's reads, which never fail.
unfoldable pub store_reads : Store → Reads
store_reads s = record {
  get_agent = λ id. ok (get_agent id s);
  list_children = λ id. ok (list_children id s);
}

-- The end of a loop: by its test, by an error, or because the model's fuel is used up.
pub data Outcome {ℓ} (A : Type ℓ) : Type ℓ where
  done : A → Outcome A
  failed : String → Outcome A
  out_of_fuel : Outcome A

abbrev pub ids_of : List AgentRecord → List String
ids_of = map (λ c. c.agent_id)

-- The loop of `subtree`; `seen` is the set of the ids in `out`.
unfoldable pub walk : Reads → ℕ → List String → List String → List String → Outcome (List String)
walk r zero out seen [] = done out
walk r zero out seen (cur ∷ queue) = out_of_fuel
walk r (suc fuel) out seen [] = done out
walk r (suc fuel) out seen (cur ∷ queue) = elim (contains seen cur) [
  | true ↦ walk r fuel out seen queue
  | false ↦ elim (r.list_children cur) [
    | err e ↦ failed e
    | ok children ↦ walk r fuel (out ++ cur ∷ []) (cur ∷ seen) (queue ++ ids_of children)
  ]
]

abbrev pub as_some : Outcome (List String) → Outcome (Option (List String))
as_some (done out) = done (some out)
as_some (failed e) = failed e
as_some out_of_fuel = out_of_fuel

-- `none` is the nil slice of an unknown id.
unfoldable pub subtree : Reads → ℕ → String → Outcome (Option (List String))
unfolding walk
subtree r fuel id = elim (r.get_agent id) [
  | err e ↦ failed e
  | ok root ↦ if root.agent_id == "" then done none else as_some (walk r fuel [] [] (id ∷ []))
]

-- The loop of `depth`.
unfoldable pub climb : Reads → ℕ → ℕ → List String → String → Outcome ℕ
climb r zero d seen cur = if not (cur == "") && not (contains seen cur) then out_of_fuel else done d
climb r (suc fuel) d seen cur = elim (not (cur == "") && not (contains seen cur)) [
  | false ↦ done d
  | true ↦ elim (r.get_agent cur) [
    | err e ↦ failed e
    | ok rec ↦ elim (rec.agent_id == "") [
      | true ↦ done d
      | false ↦ climb r fuel (d + 1) (cur ∷ seen) rec.parent_id
    ]
  ]
]

unfoldable pub depth : Reads → ℕ → String → Outcome ℕ
depth r fuel id = climb r fuel 0 [] id

pub record ChainNode : Type 0 where
  pub agent_id : String
  pub agent_type : String
  pub status : String
  pub parent_id : String

abbrev pub node_of : AgentRecord → ChainNode
node_of r = record {
  agent_id = r.agent_id;
  agent_type = r.agent_type;
  status = r.status;
  parent_id = r.parent_id;
}

abbrev or_unknown : Result AgentRecord → Option AgentRecord
or_unknown (ok r) = if r.agent_id == "" then none else some r
or_unknown (err e) = none

-- The loop of the chain handler, whose 32 rounds bound it. An error of a read ends it as an unknown
-- parent does.
unfoldable pub chain_from : Reads → ℕ → List String → AgentRecord → List ChainNode
chain_from r zero seen cur = []
chain_from r (suc rounds) seen cur = elim (contains seen cur.agent_id) [
  | true ↦ []
  | false ↦ elim (cur.parent_id == "") [
    | true ↦ node_of cur ∷ []
    | false ↦ elim (or_unknown (r.get_agent cur.parent_id)) [
      | none ↦ node_of cur ∷ []
      | some parent ↦ node_of cur ∷ chain_from r rounds (cur.agent_id ∷ seen) parent
    ]
  ]
]
