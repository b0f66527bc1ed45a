-- ===== src/Registry/Authority/Rules.antt =====
-- The rules of `agentAllowed`.
use spawnly.Prelude.{
  String, ◌≡◌, refl, ◌⊎◌, ◌↔◌, inl, inr, Bool, true, false, Option, none, some, ◌==◌, ◌⧺◌,
  Bool-cases, eq→path, path→eq, if◌then◌else◌,
}
use spawnly.Spicedb.ObjectId.{encode}
use spawnly.Registry.Types.{AgentRecord}
use spawnly.Registry.Store.{get_agent}
use spawnly.Registry.World.{Env, World}
use spawnly.Registry.Authority.{agent_allowed, or_denied}

-- What grants a caller an action on an agent, for its record and SpiceDB's answer: the agent is known,
-- the caller is named, and either the agent has no organization and the caller owns it, or it has one
-- and SpiceDB answers yes.
abbrev pub Holds : AgentRecord → String → Option Bool → Type 0
Holds rec user_id answer =
    ((rec.agent_id == "") ≡ false)
    × ((user_id == "") ≡ false)
    × (((rec.org_id ≡ "") × (rec.user_id ≡ user_id))
        ⊎ (((rec.org_id == "") ≡ false) × (answer ≡ some true)))

abbrev pub Grants : Env → String → String → String → World → Type 0
Grants env id user_id action w =
    Holds (get_agent id w.store) user_id
      (env.check w.calls ("agent:" ⧺ id) action ("user:" ⧺ encode user_id))

or_denied-true : (o : Option Bool) → or_denied o ≡ true → o ≡ some true
or_denied-true none h = cc h
or_denied-true (some true) h = refl
or_denied-true (some false) h = cc h

-- The decision as a function of the record and of SpiceDB's answer.
abbrev decision : AgentRecord → String → Option Bool → Bool × Bool
decision rec user_id answer =
    if rec.agent_id == ""
    then (false, false)
    else if user_id == ""
    then (false, true)
    else if rec.org_id == ""
    then (rec.user_id == user_id, true)
    else (or_denied answer, true)

decision-Holds :
    (rec : AgentRecord) (user_id : String) (answer : Option Bool)
    → (decision rec user_id answer).0 ≡ true
    → Holds rec user_id answer
decision-Holds rec user_id answer h = elim (Bool-cases (rec.agent_id == "")) [
  | inl a ↦ cc (rw a at h)
  | inr a ↦ elim (Bool-cases (user_id == "")) [
    | inl b ↦ cc (rw b at (rw a at h))
    | inr b ↦ elim (Bool-cases (rec.org_id == "")) [
      | inl c ↦
          let mine : (rec.user_id == user_id) ≡ true = rw c at (rw b at (rw a at h)) in
          (a, b, inl (eq→path rec.org_id "" c, eq→path rec.user_id user_id mine))
      | inr c ↦
          let yes : or_denied answer ≡ true = rw c at (rw b at (rw a at h)) in
          (a, b, inr (c, or_denied-true answer yes))
    ]
  ]
]

Holds-decision :
    (rec : AgentRecord) (user_id : String) (answer : Option Bool)
    → Holds rec user_id answer
    → (decision rec user_id answer).0 ≡ true
Holds-decision rec user_id answer (a, b, inl (c, mine)) =
    rw a (rw b (rw (path→eq rec.org_id "" c) (path→eq rec.user_id user_id mine)))
Holds-decision rec user_id answer (a, b, inr (c, granted)) = rw a (rw b (rw c (rw granted)))

-- A caller is allowed an action on an agent exactly if the agent is known, the caller is named, and
-- the caller owns an agent without organization or SpiceDB answers yes for one with an organization;
-- so an error of SpiceDB is a denial.
pub agent_allowed_exact :
    (env : Env) (id user_id action : String) (w : World)
    → ((agent_allowed env id user_id action w).0 ≡ true) ↔ Grants env id user_id action w
unfolding agent_allowed
agent_allowed_exact env id user_id action w =
    let rec = get_agent id w.store in
    let answer = env.check w.calls ("agent:" ⧺ id) action ("user:" ⧺ encode user_id) in
    (decision-Holds rec user_id answer, Holds-decision rec user_id answer)
