-- ===== src/Registry/Control/Spawning.antt =====
-- The spawn-policy handler: when it allows a spawn, and when it asks for consent.
use spawnly.Prelude.{
  ℕ, ◌+◌, ◌≤◌, String, ◌≡◌, refl, sym, subst, ◌⊎◌, ◌↔◌, inl, inr, true, false, some, ◌==◌, arith,
  Bool-cases, Option-cases, contains, some-injective, ltb, ◌&&◌,
}
use spawnly.Prelude.Assoc.{lookup}
use spawnly.Registry.Types.{AgentRecord, AgentTemplate, SpawnDecision, ℤ, pos, negsuc}
use spawnly.Registry.Store.{Store, get_agent, get_template}
use spawnly.Registry.Lineage.Depth.{Lineage, depth_exact}
use spawnly.Registry.World.{reply}
use spawnly.Registry.Control.{
  get_spawn_policy, is_too_deep, needs_consent, decide_spawn, refusal, spawn_decision,
}

-- A chain of this length may grow by one agent.
abbrev pub HasRoom : ℤ → ℕ → Type 0
HasRoom (pos m) n = (m ≡ 0) ⊎ (n + 1 ≤ m)
HasRoom (negsuc m) n = Unit

is_too_deep-HasRoom : (max : ℤ) (n : ℕ) → (is_too_deep max n ≡ false) ↔ HasRoom max n
is_too_deep-HasRoom (pos m) n = (room m n, fits m n)
  where
    room : (m n : ℕ) → (ltb 0 m && ltb m (n + 1)) ≡ false → (m ≡ 0) ⊎ (n + 1 ≤ m)
    room m n h = ground arith

    fits : (m n : ℕ) → (m ≡ 0) ⊎ (n + 1 ≤ m) → (ltb 0 m && ltb m (n + 1)) ≡ false
    fits m n h = ground arith
is_too_deep-HasRoom (negsuc m) n = ((λ h. tt), (λ h. refl))

-- The rule for a parent's template: it names the child type, and the chain has room for one more.
abbrev pub Permits : AgentTemplate → String → ℕ → Type 0
Permits tpl child_type n =
    (contains tpl.delegation.allowed_child_types child_type ≡ true)
    × HasRoom tpl.delegation.max_depth n

spawn_decision-Permits :
    (rec : AgentRecord) (tpl : AgentTemplate) (child_type : String) (n : ℕ)
    → let d = spawn_decision rec tpl child_type n in
      ((d.allowed ≡ true) ↔ Permits tpl child_type n)
      × ((d.consent_required ≡ true) ↔ (
          Permits tpl child_type n
          × (needs_consent (lookup child_type tpl.delegation.child_policies) ≡ true)))
spawn_decision-Permits rec tpl child_type n =
    let pol = tpl.delegation in
    let (room, fits) = is_too_deep-HasRoom pol.max_depth n in
    elim (Bool-cases (contains pol.allowed_child_types child_type)) [
      | inr a ↦ rw a ((cc, (λ h. absurd (cc (a, h.0)))), (cc, (λ h. absurd (cc (a, h.0.0)))))
      | inl a ↦ elim (Bool-cases (is_too_deep pol.max_depth n)) [
        | inl b ↦ rw a (
            rw b ((cc, (λ h. absurd (cc (b, fits h.1)))), (cc, (λ h. absurd (cc (b, fits h.0.1))))))
        | inr b ↦
            rw a (
              rw b (((λ h. (refl, room b)), (λ h. refl)), ((λ h. ((refl, room b), h)), (λ h. h.1))))
      ]
    ]

-- What lets an agent with a lineage of this length spawn a child: it is known, its template exists,
-- and the template permits the child.
abbrev pub MaySpawn : Store → String → String → ℕ → Type 0
MaySpawn s parent_id child_type n =
    (((get_agent parent_id s).agent_id == "") ≡ false)
    × (tpl : AgentTemplate) × (get_template (get_agent parent_id s).agent_type s ≡ some tpl)
    × Permits tpl child_type n

-- The template of the parent asks for the user's consent to the child type.
abbrev pub AsksConsent : Store → String → String → Type 0
AsksConsent s parent_id child_type =
    (tpl : AgentTemplate) × (get_template (get_agent parent_id s).agent_type s ≡ some tpl)
    × (needs_consent (lookup child_type tpl.delegation.child_policies) ≡ true)

decide_spawn-MaySpawn :
    (s : Store) (parent_id child_type : String) (n : ℕ)
    → ((get_agent parent_id s).agent_id == "") ≡ false
    → let rec = get_agent parent_id s in
      let d = decide_spawn rec (get_template rec.agent_type s) child_type n in
      ((d.allowed ≡ true) ↔ MaySpawn s parent_id child_type n)
      × ((d.consent_required ≡ true)
          ↔ (MaySpawn s parent_id child_type n × AsksConsent s parent_id child_type))
decide_spawn-MaySpawn s parent_id child_type n known =
    let rec = get_agent parent_id s in
    elim (Option-cases (get_template rec.agent_type s)) [
      | inl e ↦ rw e ((cc, (λ (k, t, at, h). cc (e, at))), (cc, (λ ((k, t, at, h), c). cc (e, at))))
      | inr (tpl, e) ↦
          let (allows, asks) = spawn_decision-Permits rec tpl child_type n in
          rw e (
            (
              (λ h. (known, tpl, refl, allows.0 h)),
              (λ (k, t, at, h).
                  allows.1 (subst (λ u. Permits u child_type n) (sym (some-injective at)) h)),
            ),
            (
              (λ h. ((known, tpl, refl, (asks.0 h).0), (tpl, refl, (asks.0 h).1))),
              (λ ((k, t, at, h), (u, of, c)). asks.1 (
                subst (λ u. Permits u child_type n) (sym (some-injective at)) h,
                subst (λ u. needs_consent (lookup child_type u.delegation.child_policies) ≡ true)
                    (sym (some-injective of)) c,
              )),
            ),
          )
    ]

-- For a parent whose lineage has a length, the spawn policy allows the child exactly if the parent is
-- known and its template names the child type and has room for one more agent in the chain, and it
-- asks for the user's consent exactly if it allows the child and the template asks for it.
pub get_spawn_policy_exact :
    (s : Store) (parent_id child_type : String) (n : ℕ)
    → Lineage s parent_id n
    → (d : SpawnDecision) × (get_spawn_policy parent_id child_type s ≡ reply 200 d)
      × ((d.allowed ≡ true) ↔ MaySpawn s parent_id child_type n)
      × ((d.consent_required ≡ true)
          ↔ (MaySpawn s parent_id child_type n × AsksConsent s parent_id child_type))
unfolding get_spawn_policy
get_spawn_policy_exact s parent_id child_type n l =
    let rec = get_agent parent_id s in
    elim (Bool-cases (rec.agent_id == "")) [
      | inl e ↦ (
        refusal "unknown parent",
        rw (e, get_spawn_policy),
        ((λ h. cc h), (λ h. absurd (cc (e, h.0)))),
        ((λ h. cc h), (λ h. absurd (cc (e, h.0.0)))),
      )
      | inr e ↦
          let (allows, asks) = decide_spawn-MaySpawn s parent_id child_type n e in
          (
            decide_spawn rec (get_template rec.agent_type s) child_type n,
            rw (e, get_spawn_policy) (rw (depth_exact s parent_id n l)),
            allows,
            asks,
          )
    ]
