-- ===== src/Registry/Registration/Preregistration.antt =====
-- What a preregistration accepts and stores.
use spawnly.Prelude.{
  ℕ, String, ◌≡◌, refl, ◌∙◌, ap, ◌⊎◌, Bool, true, false, not, ◌&&◌, none, some, List, [], ◌∷◌, ◌==◌,
  Bool-cases, Option-cases, inl, inr, Result, ok, err, if◌then◌else◌,
}
use spawnly.Prelude.Assoc.{lookup, insert, lookup-insert}
use spawnly.Registry.Types.{AgentRecord, valid_placement, Tuple}
use spawnly.Registry.Store.{Store, register_agent, append_event}
use spawnly.Registry.World.{Env, World, Response, reply, error, set_store}
use spawnly.Registry.Authority.{org_is_disabled}
use spawnly.Registry.Registration.{
  valid_agent_id, is_invalid_user, preregister_refusal, pending, note_tuples, preregister,
  post_preregister,
}
use spawnly.Registry.Registration.Relations.{write_authority_tuples-Calls}

note_tuples-agents :
    (env : Env) (id : String) (ts : List Tuple) (w : World)
    → (note_tuples env id ts w).store.agents ≡ w.store.agents
unfolding append_event
note_tuples-agents env id [] w = refl
note_tuples-agents env id (t ∷ ts) w = refl

preregister-agents :
    (env : Env) (rec : AgentRecord) (w : World)
    → (preregister env rec w).store.agents ≡ insert rec.agent_id (pending rec) w.store.agents
unfolding preregister append_event register_agent
preregister-agents env rec w =
    note_tuples-agents env rec.agent_id _ _
    ∙ ap (λ (s : Store). s.agents)
        (write_authority_tuples-Calls env rec.agent_id rec.user_id rec.org_id
          (set_store (register_agent (pending rec) w.store) w)).0

-- The conditions on a record that a preregistration accepts.
abbrev pub IsAcceptable : AgentRecord → Store → Type 0
IsAcceptable rec s =
    ((rec.agent_id == "") ≡ false)
    × (is_invalid_user rec.user_id ≡ false)
    × ((not (rec.org_id == "") && not (valid_agent_id rec.org_id)) ≡ false)
    × (org_is_disabled rec.org_id s ≡ false)
    × (valid_placement rec.placement ≡ true)

refusal-IsAcceptable :
    (rec : AgentRecord) (s : Store) → preregister_refusal rec s ≡ none → IsAcceptable rec s
unfolding preregister_refusal
refusal-IsAcceptable rec s h = elim (Bool-cases (rec.agent_id == "")) [
  | inl a ↦ cc (rw (a, preregister_refusal) at h)
  | inr a ↦ elim (Bool-cases (is_invalid_user rec.user_id)) [
    | inl b ↦ cc (rw (a, b, preregister_refusal) at h)
    | inr b ↦ elim (Bool-cases (not (rec.org_id == "") && not (valid_agent_id rec.org_id))) [
      | inl c ↦ cc (rw (a, b, c, preregister_refusal) at h)
      | inr c ↦ elim (Bool-cases (org_is_disabled rec.org_id s)) [
        | inl d ↦ cc (rw (a, b, c, d, preregister_refusal) at h)
        | inr d ↦ elim (Bool-cases (valid_placement rec.placement)) [
          | inr e ↦ cc (rw (a, b, c, d, e, preregister_refusal) at h)
          | inl e ↦ (a, b, c, d, e)
        ]
      ]
    ]
  ]
]

-- What ends a preregistration: an error, with nothing changed; or a caller of the control plane sent
-- an acceptable record, which is stored as pending, and no other record changes.
abbrev pub Ends : Bool → Result AgentRecord → World → Response {0} Unit × World → Type 0
Ends authed body w r =
    ((code : ℕ) × (message : String) × (r ≡ (error code message, w)))
    ⊎ ((rec : AgentRecord) × (r.0 ≡ reply 201 tt)
        × (authed ≡ true)
        × (body ≡ ok rec)
        × IsAcceptable rec w.store
        × ((j : String)
            → lookup j r.1.store.agents
              ≡ (if rec.agent_id == j then some (pending rec) else lookup j w.store.agents)))

decoded :
    (env : Env) (rec : AgentRecord) (w : World)
    → Ends true (ok rec) w (post_preregister env true (ok rec) w)
unfolding post_preregister
decoded env rec w = elim (Option-cases (preregister_refusal rec w.store)) [
  | inr ((code, message), e) ↦ rw (e, post_preregister) (inl (code, message, refl))
  | inl e ↦
      rw (e, post_preregister)
        (inr (
          rec,
          refl,
          refl,
          refl,
          refusal-IsAcceptable rec w.store e,
          (λ j.
              rw (preregister-agents env rec w)
                (lookup-insert rec.agent_id j (pending rec) w.store.agents)),
        ))
]

-- A preregistration either is answered with an error and changes nothing, or it was sent by a caller
-- of the control plane, for a named agent with a well-formed owner and organization, which is not
-- disabled, and a known placement; then its record is stored as pending, and no other record changes.
pub post_preregister_exact :
    (env : Env) (authed : Bool) (body : Result AgentRecord) (w : World)
    → Ends authed body w (post_preregister env authed body w)
unfolding post_preregister
post_preregister_exact env false body w = inl (401, "unauthorized", refl)
post_preregister_exact env true (err e) w = inl (400, e, refl)
post_preregister_exact env true (ok rec) w = decoded env rec w
