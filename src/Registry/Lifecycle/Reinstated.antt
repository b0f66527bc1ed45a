-- ===== src/Registry/Lifecycle/Reinstated.antt =====
-- A revoked agent and its own two handlers: setting its status, and registering again.

use spawnly.Prelude.{
  String, ◌≡◌, refl, ◌∙◌, ap, false, none, some, List, ◌∷◌, ◌++◌, ◌==◌, ◌⧺◌, eq_refl, ok,
}
use spawnly.Prelude.Assoc.{lookup, insert, lookup-insert_self}
use spawnly.Spicedb.Client.{Call}
use spawnly.Registry.Types.{AgentRecord, AgentTemplate}
use spawnly.Registry.Store.{get_agent, get_template, get_org, update_agent}
use spawnly.Registry.World.{Env, World, reply, error}
use spawnly.Registry.Authority.{org_is_disabled}
use spawnly.Registry.Cascade.Nodes.{with_status, enable_call}
use spawnly.Registry.Registration.{is_invalid_user}
use spawnly.Registry.Admission.{
  RegisterBody, identity_refusal, register_refusal, registered, register, record_agent, post_agents,
}
use spawnly.Registry.Admission.Guards.{grant-Calls, post_agents-admits}
use spawnly.Registry.Lifecycle.{patch_agent}

-- SpiceDB was asked to enable the agent.
abbrev pub WasEnabled : String → World → Type 0
WasEnabled id w = (before after : List Call) × (w.calls ≡ before ++ enable_call id ∷ after)

pub register-WasEnabled :
    (env : Env) (rec : AgentRecord) (tpl : AgentTemplate) (w : World)
    → WasEnabled rec.agent_id (register env rec tpl w)
unfolding register
register-WasEnabled env rec tpl w =
    let made = grant-Calls env rec tpl (record_agent env rec w) in (made.1, made.2, made.3)

module _ (env : Env) (id : String) (req : RegisterBody) (rec : AgentRecord) (tpl : AgentTemplate)
    (w : World) (proven : identity_refusal (some id) ≡ none)
    (at : lookup id w.store.agents ≡ some rec) (known : (rec.agent_id == "") ≡ false)
    (user : is_invalid_user req.user_id ≡ false)
    (typed : get_template req.agent_type w.store ≡ some tpl)
    (enabled : org_is_disabled rec.org_id w.store ≡ false) where
  conflicts :
      rec.status ≡ "revoked"
      → (post_agents env (some id) (ok req) w).0
        ≡ error 409 ("agent " ⧺ id ⧺ " is " ⧺ rec.status ⧺ "; re-registration refused")
  unfolding post_agents register_refusal get_agent
  conflicts revoked = rw (proven, post_agents) (rw (typed, at, user, known) (rw revoked refl))

  abbrev patched : World
  patched = record w {
    store = record w.store { agents = insert id (with_status "active" rec) w.store.agents };
  }

  patches : patch_agent env false (some id) id (ok "active") w ≡ (reply 200 tt, patched)
  unfolding patch_agent update_agent
  patches = rw (eq_refl id, patch_agent) (rw (at, update_agent) refl)

  rereads : get_agent id patched.store ≡ with_status "active" rec
  unfolding get_agent
  rereads = rw (lookup-insert_self id (with_status "active" rec) w.store.agents)

  passes : register_refusal id req (some tpl) (with_status "active" rec) patched.store ≡ none
  unfolding register_refusal org_is_disabled get_org
  passes = rw user (rw known (rw enabled refl))

  admits : post_agents env (some id) (ok req) patched ≡ (
    reply 201 (registered id req tpl (with_status "active" rec)),
    register env (registered id req tpl (with_status "active" rec)) tpl patched,
  )
  unfolding get_template
  admits =
      post_agents-admits env id req tpl patched proven typed (rw rereads passes)
      ∙ ap
          (λ x. (
            reply 201 (registered id req tpl x),
            register env (registered id req tpl x) tpl patched,
          ))
          rereads

  -- A revoked agent may not register again, but it may set its own status to active, and then the same
  -- registration is admitted and SpiceDB is asked to enable the agent.
  pub self_patch_lifts_revocation :
      rec.status ≡ "revoked"
      → let first = post_agents env (some id) (ok req) w in
        let patch = patch_agent env false (some id) id (ok "active") w in
        let second = post_agents env (some id) (ok req) patch.1 in
        (first.0 ≡ error 409 ("agent " ⧺ id ⧺ " is " ⧺ rec.status ⧺ "; re-registration refused"))
        × (patch.0 ≡ reply 200 tt)
        × (second.0 ≡ reply 201 (registered id req tpl (with_status "active" rec)))
        × WasEnabled id second.1
  unfolding registered
  self_patch_lifts_revocation revoked = rw patches (
    conflicts revoked,
    refl,
    ap (λ r. r.0) admits,
    rw admits
        (register-WasEnabled env (registered id req tpl (with_status "active" rec)) tpl patched),
  )
