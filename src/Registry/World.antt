-- ===== src/Registry/World.antt =====
-- cmd/registry/main.go: what a handler of the registry works on, the store and SpiceDB, and what it
-- answers. The outside of the process is an `Env`: the clock, the random bytes, `time.ParseDuration`,
-- and the replies of SpiceDB, which may depend on all the calls made to it so far.
use spawnly.Prelude.{ℕ, suc, String, Bool, Option, List, ◌∷◌}
use spawnly.Spicedb.Client.{Call}
use spawnly.Registry.Types.{Event, Payload}
use spawnly.Registry.Store.{Store, append_event}

-- The clock and the random bytes are read once for each tick.
pub record Env : Type 0 where
  pub time : ℕ → ℕ
  pub random : ℕ → String
  pub deadline : String → ℕ → Option ℕ
  pub accepts : List Call → Bool
  pub check : List Call → String → String → String → Option Bool

-- `calls` has the newest call first.
pub record World : Type 0 where
  pub store : Store
  pub calls : List Call
  pub ticks : ℕ

-- What a handler writes: a status with a body, or `http.Error`.
pub data Response {ℓ} (A : Type ℓ) : Type ℓ where
  reply : ℕ → A → Response A
  error : ℕ → String → Response A

abbrev pub not_found {ℓ} : {A : Type ℓ} → Response A
not_found = error 404 "not found"

abbrev pub unauthorized {ℓ} : {A : Type ℓ} → Response A
unauthorized = error 401 "unauthorized"

-- A call to SpiceDB, and whether it succeeds.
abbrev pub call : Env → Call → World → Bool × World
call env c w = let calls = c ∷ w.calls in (env.accepts calls, record w { calls = calls })

abbrev pub event_of : String → String → Payload → Event
event_of source type payload = record {
  id = "";
  timestamp = 0;
  source = source;
  type = type;
  payload = payload;
}

-- `AppendEvent` at the next tick.
abbrev pub emit : Env → String → Event → World → Event × World
emit env id e w =
    let (stored, s) = append_event id e (env.time w.ticks) (env.random w.ticks) w.store in
    (stored, record w { store = s; ticks = suc w.ticks })

abbrev pub set_store : Store → World → World
set_store s w = record w { store = s }
