-- ===== src/Registry/Admission/Guards.antt =====
-- How `POST /v1/agents` ends, guard by guard, and what a registration does to the records and to
-- SpiceDB.
use spawnly.Prelude.{
  ℕ, String, ◌≡◌, refl, ◌∙◌, ap, inl, inr, true, false, not, ◌&&◌, Option, none, some, List, [],
  ◌∷◌, ◌++◌, ◌==◌, ◌⧺◌, Result, ok, err, Bool-cases, Option-cases, some-injective,
}
use spawnly.Prelude.Assoc.{insert}
use spawnly.Spicedb.Client.{Call, write_relationship}
use spawnly.Registry.Types.{AgentRecord, AgentTemplate, SpiceDbRelationTemplate}
use spawnly.Registry.Store.{Store, get_agent, get_template, append_event}
use spawnly.Registry.World.{Env, World, Response, reply, error}
use spawnly.Registry.Authority.{org_is_disabled}
use spawnly.Prelude.Text.{every, codes}
use spawnly.Registry.Registration.{is_agent_id_char, is_invalid_user, valid_agent_id, is_skipped}
use spawnly.Registry.Registration.Relations.{Calls, Calls-trans, write_authority_tuples-Calls}
use spawnly.Registry.Admission.{
  RegisterBody, is_final, identity_refusal, register_refusal, registered, write_relations,
  record_agent, grant, register, admit, post_agents,
}

-- A request is refused with the state as it was, or admitted with the record of the proven id.
pub data Ended (env : Env) (identity : Option String) (w : World)
    : Response AgentRecord × World → Type 0 where
  turned_away : (code : ℕ) (message : String) → Ended env identity w (error code message, w)
  let_in :
      (id : String) (req : RegisterBody) (tpl : AgentTemplate)
      → identity ≡ some id
      → valid_agent_id id ≡ true
      → register_refusal id req (some tpl) (get_agent id w.store) w.store ≡ none
      → get_template req.agent_type w.store ≡ some tpl
      → Ended env identity w (
        reply 201 (registered id req tpl (get_agent id w.store)),
        register env (registered id req tpl (get_agent id w.store)) tpl w,
      )

identity_refusal-none :
    (identity : Option String)
    → identity_refusal identity ≡ none
    → (id : String) × (identity ≡ some id) × (valid_agent_id id ≡ true)
unfolding identity_refusal valid_agent_id
identity_refusal-none none h = cc h
identity_refusal-none (some id) h = elim (Bool-cases (id == "")) [
  | inl a ↦ cc (rw a at h)
  | inr a ↦ elim (Bool-cases (every is_agent_id_char (codes id))) [
    | inl b ↦ (id, refl, rw (a, b))
    | inr b ↦ cc (rw (a, b) at h)
  ]
]

admit-Ended :
    (env : Env) (id : String) (req : RegisterBody) (w : World)
    → valid_agent_id id ≡ true
    → register_refusal id req (get_template req.agent_type w.store) (get_agent id w.store) w.store
      ≡ none
    → Ended env (some id) w (admit env id req (get_template req.agent_type w.store) w)
unfolding get_agent
admit-Ended env id req w valid h = elim (Option-cases (get_template req.agent_type w.store)) [
  | inl e ↦ rw e (turned_away 400 "unknown agent type")
  | inr (tpl, e) ↦ rw e (let_in id req tpl refl valid (rw e at h) e)
]

post_agents-named :
    (env : Env) (id : String) (body : Result RegisterBody) (w : World)
    → identity_refusal (some id) ≡ none
    → valid_agent_id id ≡ true
    → Ended env (some id) w (post_agents env (some id) body w)
unfolding post_agents
post_agents-named env id (err m) w e valid = rw (e, post_agents) (turned_away 400 m)
post_agents-named env id (ok req) w e valid =
    elim (Option-cases (
      register_refusal id req (get_template req.agent_type w.store) (get_agent id w.store)
        w.store)) [
          | inr ((code, message), h) ↦
              rw (e, post_agents) (rw (h, post_agents) (turned_away code message))
          | inl h ↦ rw (e, post_agents) (rw (h, post_agents) (admit-Ended env id req w valid h))
        ]

pub post_agents-Ended :
    (env : Env) (identity : Option String) (body : Result RegisterBody) (w : World)
    → Ended env identity w (post_agents env identity body w)
unfolding post_agents identity_refusal
post_agents-Ended env none body w = turned_away 401 "unauthorized"
post_agents-Ended env (some id) body w = elim (Option-cases (identity_refusal (some id))) [
  | inr ((code, message), e) ↦ rw (e, post_agents) (turned_away code message)
  | inl e ↦
      let (id', named, valid) = identity_refusal-none (some id) e in
      post_agents-named env id body w e (rw (some-injective named) valid)
]

write_relations-Calls :
    (env : Env) (id tenant : String) (rels : List SpiceDbRelationTemplate) (w : World)
    → Calls w (write_relations env id tenant rels w).1
unfolding write_relations
write_relations-Calls env id tenant [] w = (refl, refl, [], refl)
write_relations-Calls env id tenant (rel ∷ rels) w =
    elim (Bool-cases (is_skipped (not (tenant == "")) rel)) [
      | inl e ↦ rw e (write_relations-Calls env id tenant rels w)
      | inr e ↦ rw e (
          Calls-trans w _ _ (refl, refl, _ ∷ [], refl) (write_relations-Calls env id tenant rels _))
    ]

record_agent-agents :
    (env : Env) (rec : AgentRecord) (w : World)
    → (record_agent env rec w).store.agents ≡ insert rec.agent_id rec w.store.agents
unfolding record_agent append_event
record_agent-agents env rec w = refl

pub grant-Calls :
    (env : Env) (rec : AgentRecord) (tpl : AgentTemplate) (w : World)
    → let self = "agent:" ⧺ rec.agent_id in
      ((grant env rec tpl w).1.store ≡ w.store)
      × (before after : List Call) × ((grant env rec tpl w).1.calls
          ≡ before ++ write_relationship self "enabled" self ∷ after)
unfolding grant
grant-Calls env rec tpl w =
    let relations = write_relations env rec.agent_id rec.tenant_id tpl.authz.spice_db_relations w in
    let wrote =
      write_relations-Calls env rec.agent_id rec.tenant_id tpl.authz.spice_db_relations w in
    let asked = write_authority_tuples-Calls env rec.agent_id rec.user_id rec.org_id _ in
    (asked.0 ∙ wrote.0, asked.2, relations.1.calls, asked.3)

pub register-agents :
    (env : Env) (rec : AgentRecord) (tpl : AgentTemplate) (w : World)
    → (register env rec tpl w).store.agents ≡ insert rec.agent_id rec w.store.agents
unfolding register append_event
register-agents env rec tpl w =
    ap (λ (s : Store). s.agents) (grant-Calls env rec tpl (record_agent env rec w)).0
    ∙ record_agent-agents env rec w

pub guards :
    (id : String) (req : RegisterBody) (tpl : AgentTemplate) (existing : AgentRecord) (s : Store)
    → register_refusal id req (some tpl) existing s ≡ none
    → ((not (existing.agent_id == "") && is_final existing.status) ≡ false)
      × (org_is_disabled existing.org_id s ≡ false)
unfolding register_refusal
guards id req tpl existing s h = elim (Bool-cases (is_invalid_user req.user_id)) [
  | inl a ↦ cc (rw a at h)
  | inr a ↦ elim (Bool-cases (not (existing.agent_id == "") && is_final existing.status)) [
    | inl b ↦ cc (rw b at (rw a at h))
    | inr b ↦ elim (Bool-cases (org_is_disabled existing.org_id s)) [
      | inl c ↦ cc (rw c at (rw b at (rw a at h)))
      | inr c ↦ (b, c)
    ]
  ]
]

-- A registration that passes every guard.
pub post_agents-admits :
    (env : Env) (id : String) (req : RegisterBody) (tpl : AgentTemplate) (w : World)
    → identity_refusal (some id) ≡ none
    → get_template req.agent_type w.store ≡ some tpl
    → register_refusal id req (some tpl) (get_agent id w.store) w.store ≡ none
    → post_agents env (some id) (ok req) w ≡ (
      reply 201 (registered id req tpl (get_agent id w.store)),
      register env (registered id req tpl (get_agent id w.store)) tpl w,
    )
unfolding post_agents
post_agents-admits env id req tpl w proven typed free =
    rw (proven, post_agents) (rw typed (rw (free, post_agents) (rw typed refl)))
