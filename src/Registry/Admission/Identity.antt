-- ===== src/Registry/Admission/Identity.antt =====
-- What a workload that registers itself can and cannot change.
use spawnly.Prelude.{
  ℕ, String, ◌≡◌, refl, sym, ◌∙◌, ap, subst, ◌⊎◌, inl, inr, true, false, Option, none, some, ◌==◌,
  eq_refl, eq→path, Result, Bool-cases, if◌then◌else◌,
}
use spawnly.Prelude.Assoc.{lookup, lookup-insert}
use spawnly.Registry.Types.{AgentRecord, AgentTemplate}
use spawnly.Registry.Store.{Store, get_agent}
use spawnly.Registry.World.{Env, World, Response, reply, error}
use spawnly.Registry.Authority.{org_is_disabled}
use spawnly.Registry.Registration.{valid_agent_id}
use spawnly.Registry.Admission.{
  RegisterBody, is_final, register_refusal, registered, register, post_agents,
}
use spawnly.Registry.Admission.Guards.{
  Ended, turned_away, let_in, guards, register-agents, post_agents-Ended,
}

-- The fields of the record that a self-registration may not choose once the record exists, and the
-- state of the agent and of its organization at which it is let in.
abbrev pub IsKept : AgentRecord → AgentRecord → Store → Type 0
IsKept rec existing s =
    ((existing.agent_id ≡ "")
      ⊎ ((is_final existing.status ≡ false)
          × (rec.user_id ≡ existing.user_id)
          × (rec.parent_id ≡ existing.parent_id)))
    × (rec.org_id ≡ existing.org_id)
    × (rec.placement ≡ existing.placement)
    × (org_is_disabled existing.org_id s ≡ false)
    × (rec.status ≡ "active")

registered-IsKept :
    (id : String) (req : RegisterBody) (tpl : AgentTemplate) (existing : AgentRecord) (s : Store)
    → register_refusal id req (some tpl) existing s ≡ none
    → IsKept (registered id req tpl existing) existing s
unfolding registered
registered-IsKept id req tpl existing s h =
    let (final, enabled) = guards id req tpl existing s h in
    (
      elim (Bool-cases (existing.agent_id == "")) [
        | inl new ↦ inl (eq→path existing.agent_id "" new)
        | inr known ↦ inr (rw known at final, rw known refl, rw known refl)
      ],
      refl,
      refl,
      enabled,
      refl,
    )

abbrev Success : Env → Option String → World → Response AgentRecord × World → AgentRecord → Type 0
Success env identity w r rec =
    (identity ≡ some rec.agent_id)
    × (valid_agent_id rec.agent_id ≡ true)
    × IsKept rec (get_agent rec.agent_id w.store) w.store
    × ((j : String)
        → lookup j r.1.store.agents
          ≡ (if rec.agent_id == j then some rec else lookup j w.store.agents))

reply-injective : (a b : AgentRecord) → reply 201 a ≡ reply 201 b → a ≡ b
reply-injective a b h = cc

Ended-Success :
    (env : Env) (identity : Option String) (w : World) (r : Response AgentRecord × World)
    → Ended env identity w r
    → (rec : AgentRecord) → r.0 ≡ reply 201 rec
    → Success env identity w r rec
unfolding registered
Ended-Success env identity w _ (turned_away code message) rec h = cc h
Ended-Success env identity w _ (let_in id req tpl named valid free at) rec h =
    let made = registered id req tpl (get_agent id w.store) in
    let stored = register env made tpl w in
    subst (Success env identity w (reply 201 made, stored)) (reply-injective made rec h) (
      named,
      valid,
      registered-IsKept id req tpl (get_agent id w.store) w.store free,
      (λ j. rw (register-agents env made tpl w) (lookup-insert id j made w.store.agents)),
    )

Ended-cleared :
    (env : Env) (identity : Option String) (w : World) (r : Response AgentRecord × World)
    → Ended env identity w r
    → (rec : AgentRecord) → r.0 ≡ reply 201 rec
    → (rec.consent_required ≡ false) × (rec.dismissed ≡ false)
unfolding registered
Ended-cleared env identity w _ (turned_away code message) rec h = cc h
Ended-cleared env identity w _ (let_in id req tpl named valid free at) rec h =
    let same = reply-injective (registered id req tpl (get_agent id w.store)) rec h in
    (sym (ap (λ x. x.consent_required) same), sym (ap (λ x. x.dismissed) same))

Ended-error :
    (env : Env) (identity : Option String) (w : World) (r : Response AgentRecord × World)
    → Ended env identity w r
    → (code : ℕ) (message : String) → r.0 ≡ error code message
    → r.1 ≡ w
Ended-error env identity w _ (turned_away c m) code message h = refl
Ended-error env identity w _ (let_in id req tpl named valid free at) code message h = cc h

-- A registration that is answered with a record was made with that record's id, which is valid and
-- proven. If the record existed, its status was not final, and its owner and its parent stay as they
-- were; its organization, which is not disabled, and its placement always stay. The record is active,
-- and no other record changes.
pub post_agents_keeps :
    (env : Env) (identity : Option String) (body : Result RegisterBody) (w : World)
    (rec : AgentRecord)
    → let r = post_agents env identity body w in
      r.0 ≡ reply 201 rec
      → (identity ≡ some rec.agent_id)
        × (valid_agent_id rec.agent_id ≡ true)
        × IsKept rec (get_agent rec.agent_id w.store) w.store
        × ((j : String)
            → lookup j r.1.store.agents
              ≡ (if rec.agent_id == j then some rec else lookup j w.store.agents))
post_agents_keeps env identity body w =
    Ended-Success env identity w (post_agents env identity body w)
      (post_agents-Ended env identity body w)

-- A registration that is answered with an error leaves the store, SpiceDB and the event log as they
-- were.
pub post_agents_fails :
    (env : Env) (identity : Option String) (body : Result RegisterBody) (w : World) (code : ℕ)
    (message : String)
    → (post_agents env identity body w).0 ≡ error code message
    → (post_agents env identity body w).1 ≡ w
post_agents_fails env identity body w =
    Ended-error env identity w (post_agents env identity body w)
      (post_agents-Ended env identity body w)

-- A registration that is answered with a record stores that record, and it says that no consent is
-- required and that the agent is not dismissed, whatever the record that was there said.
pub post_agents_forgets :
    (env : Env) (identity : Option String) (body : Result RegisterBody) (w : World)
    (rec : AgentRecord)
    → let r = post_agents env identity body w in
      r.0 ≡ reply 201 rec
      → (lookup rec.agent_id r.1.store.agents ≡ some rec)
        × (rec.consent_required ≡ false)
        × (rec.dismissed ≡ false)
post_agents_forgets env identity body w rec h =
    let r = post_agents env identity body w in
    let (named, valid, kept, stored) = post_agents_keeps env identity body w rec h in
    (
      stored rec.agent_id ∙ rw (eq_refl rec.agent_id) refl,
      (Ended-cleared env identity w r (post_agents-Ended env identity body w) rec h).0,
      (Ended-cleared env identity w r (post_agents-Ended env identity body w) rec h).1,
    )
