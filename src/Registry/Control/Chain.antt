-- ===== src/Registry/Control/Chain.antt =====
-- The handler of `GET /v1/agents/{id}/chain` (cmd/registry/main.go) over the in-memory store.
use spawnly.Prelude.{
  ℕ, zero, suc, ◌<◌, String, ◌≡◌, refl, ◌∙◌, sym, ap, subst, inl, inr, Bool, true, false, ◌||◌,
  List, [], ◌∷◌, arith, ◌==◌, Bool-cases, contains, length, eq→path, take, take-nil, Option-cases,
}
use spawnly.Prelude.Assoc.{lookup}
use spawnly.Registry.Types.{AgentRecord}
use spawnly.Registry.Store.{Store, get_agent}
use spawnly.Registry.World.{reply}
use spawnly.Registry.Lineage.{ChainNode, node_of, store_reads, chain_from}
use spawnly.Registry.Cascade.Filed.{IsFiled, lookup-IsFiled}
use spawnly.Registry.Control.{get_chain}

-- The nodes from an agent up to the first one whose parent is not an agent.
pub data Ancestry (s : Store) : String → List ChainNode → Type 0 where
  top :
      {id : String}
      → ((get_agent id s).agent_id == "") ≡ false
      → ((get_agent id s).parent_id == ""
          || (get_agent (get_agent id s).parent_id s).agent_id == "")
        ≡ true
      → Ancestry s id (node_of (get_agent id s) ∷ [])
  below :
      {id : String} {nodes : List ChainNode}
      → ((get_agent id s).agent_id == "") ≡ false
      → ((get_agent id s).parent_id == "") ≡ false
      → Ancestry s (get_agent id s).parent_id nodes
      → Ancestry s id (node_of (get_agent id s) ∷ nodes)

module _ (s : Store) where
  Ancestry-known :
      (id : String) (nodes : List ChainNode)
      → Ancestry s id nodes
      → ((get_agent id s).agent_id == "") ≡ false
  Ancestry-known id _ (top k e) = k
  Ancestry-known id _ (below k e a) = k

  rootless :
      (id : String) (nodes : List ChainNode)
      → ((get_agent id s).parent_id == "") ≡ false
      → ((get_agent id s).parent_id == ""
          || (get_agent (get_agent id s).parent_id s).agent_id == "")
        ≡ true
      → Ancestry s (get_agent id s).parent_id nodes
      → ⊥
  rootless id nodes named e a =
      clash _ _ named e (Ancestry-known (get_agent id s).parent_id nodes a)
    where
      clash : (a b : Bool) → a ≡ false → (a || b) ≡ true → b ≡ false → ⊥
      clash a b h e k = ground arith

  Ancestry-length :
      (id : String) (ms ns : List ChainNode)
      → Ancestry s id ms
      → Ancestry s id ns
      → length ms ≡ length ns
  Ancestry-length id _ _ (top k e) (top k' e') = refl
  Ancestry-length id _ _ (top k e) (below {nodes = ns} k' n a) = absurd (rootless id ns n e a)
  Ancestry-length id _ _ (below {nodes = ms} k n a) (top k' e) = absurd (rootless id ms n e a)
  Ancestry-length id _ _ (below {nodes = ms} k n a) (below {nodes = ns} k' n' a') =
      ap suc (Ancestry-length (get_agent id s).parent_id ms ns a a')

  -- The agents met so far have longer ancestries.
  abbrev Above : List String → List ChainNode → Type 0
  Above seen nodes =
      (x : String) (ms : List ChainNode)
      → contains seen x ≡ true
      → Ancestry s x ms
      → length nodes < length ms

  Above-cons :
      (id : String) (seen : List String) (n : ChainNode) (nodes : List ChainNode)
      → Ancestry s id (n ∷ nodes)
      → Above seen (n ∷ nodes)
      → Above (id ∷ seen) nodes
  Above-cons id seen n nodes a above x ms h b = elim (Bool-cases (id == x)) [
    | inl e ↦ omega (
      arith,
      Ancestry-length x (n ∷ nodes) ms (subst (λ y. Ancestry s y (n ∷ nodes)) (eq→path id x e) a) b,
    )
    | inr e ↦ omega (arith, above x ms (rw e at h) b)
  ]

  unmet :
      (id : String) (seen : List String) (nodes : List ChainNode)
      → Ancestry s id nodes
      → Above seen nodes
      → contains seen id ≡ false
  unmet id seen nodes a above = elim (Bool-cases (contains seen id)) [
    | inl old ↦ absurd (omega (arith, above id nodes old a))
    | inr new ↦ new
  ]

  get_agent-id :
      (id : String)
      → IsFiled s.agents
      → ((get_agent id s).agent_id == "") ≡ false
      → (get_agent id s).agent_id ≡ id
  unfolding get_agent
  get_agent-id id filed known = elim (Option-cases (lookup id s.agents)) [
    | inl e ↦ let gone = rw (e, get_agent) at known in cc gone
    | inr (r, e) ↦ rw (e, get_agent) (lookup-IsFiled s.agents id r filed e)
  ]

  last_round :
      (rounds : ℕ) (seen : List String) (cur : AgentRecord)
      → contains seen cur.agent_id ≡ false
      → (cur.parent_id == "" || (get_agent cur.parent_id s).agent_id == "") ≡ true
      → chain_from (store_reads s) (suc rounds) seen cur ≡ node_of cur ∷ []
  unfolding chain_from store_reads
  last_round rounds seen cur new e = elim (Bool-cases (cur.parent_id == "")) [
    | inl rootless ↦ rw (new, chain_from) (rw (rootless, chain_from) refl)
    | inr named ↦
        let gone : ((get_agent cur.parent_id s).agent_id == "") ≡ true = rw named at e in
        rw (new, chain_from) (rw (named, chain_from) (rw (gone, chain_from) refl))
  ]

  round :
      (rounds : ℕ) (seen : List String) (cur : AgentRecord)
      → contains seen cur.agent_id ≡ false
      → (cur.parent_id == "") ≡ false
      → ((get_agent cur.parent_id s).agent_id == "") ≡ false
      → chain_from (store_reads s) (suc rounds) seen cur
        ≡ node_of cur
          ∷ chain_from (store_reads s) rounds (cur.agent_id ∷ seen) (get_agent cur.parent_id s)
  unfolding chain_from store_reads
  round rounds seen cur new named known =
      rw (new, chain_from) (rw (named, chain_from) (rw (known, chain_from) refl))

  chain_from-take :
      (rounds : ℕ) (seen : List String) (id : String) (nodes : List ChainNode)
      → IsFiled s.agents
      → Ancestry s id nodes
      → Above seen nodes
      → chain_from (store_reads s) rounds seen (get_agent id s) ≡ take rounds nodes
  unfolding chain_from
  chain_from-take zero seen id nodes filed a above = refl
  chain_from-take (suc rounds) seen id _ filed (top k e) above =
      last_round rounds seen (get_agent id s)
        (ap (contains seen) (get_agent-id id filed k) ∙ unmet id seen _ (top k e) above) e
      ∙ ap (λ ns. node_of (get_agent id s) ∷ ns) (sym (take-nil rounds))
  chain_from-take (suc rounds) seen id _ filed (below {nodes = nodes} k named a) above =
      let own = get_agent-id id filed k in
      let parent = (get_agent id s).parent_id in
      round rounds seen (get_agent id s)
        (ap (contains seen) own ∙ unmet id seen _ (below k named a) above) named
        (Ancestry-known parent nodes a)
      ∙ ap
          (λ x.
            node_of (get_agent id s)
            ∷ chain_from (store_reads s) rounds (x ∷ seen) (get_agent parent s))
          own
      ∙ ap (λ ns. node_of (get_agent id s) ∷ ns)
          (chain_from-take rounds (id ∷ seen) parent nodes filed a
            (Above-cons id seen _ nodes (below k named a) above))

-- Where every record is filed under its id and the ancestry of a known agent ends, the chain handler
-- replies with the nodes of that ancestry
-- from the agent upward: all of them if
-- they are at most 32, and else the first 32.
pub get_chain_exact :
    (s : Store) (id : String) (nodes : List ChainNode)
    → IsFiled s.agents
    → Ancestry s id nodes
    → get_chain id s ≡ reply 200 (take 32 nodes)
unfolding get_chain
get_chain_exact s id nodes filed a =
    rw (Ancestry-known s id nodes a)
      (ap (reply 200) (chain_from-take s 32 [] id nodes filed a (λ x ms h b. cc h)))
