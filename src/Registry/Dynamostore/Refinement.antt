-- ===== src/Registry/Dynamostore/Refinement.antt =====
-- The table of internal/registry/dynamostore/store.go stands for a state of the in-memory store: which
-- item stands under which key.
pub mod Calls
pub mod Catalog
pub mod Reads
pub mod Opening
pub mod Rounds
pub mod Resolution
pub mod Served
pub mod Traces
use mathlib.Core.Option
use spawnly.Prelude.{
  ℕ, String, ◌≡◌, refl, sym, ap, ◌∙◌, subst, ◌⊎◌, inl, inr, Bool, true, false, ◌&&◌, Option, none,
  some, ◌==◌, ◌⧺◌, if◌then◌else◌, eq_refl, arith,
}
use spawnly.Prelude.Text.{codes}
use spawnly.Prelude.Assoc.{Map, lookup}
use spawnly.Consent.{ConsentRecord, ConsentRequest}
use spawnly.Registry.Store.{Store}
use spawnly.Registry.Types.{AgentTemplate, AgentRecord, Organization}
use spawnly.Registry.Dynamostore.{Item, Contents, Answer, returned, set_item, same_key}
use spawnly.Registry.Dynamostore.Keys.{sk_meta, clash, apart, alike}
use spawnly.Registry.Dynamostore.Items.{tpl_item, agent_item, org_item}
use spawnly.Registry.Dynamostore.Consents.{con_item}
use spawnly.Registry.Dynamostore.Requests.{creq_item, open_item}

-- The kinds of items that stand under a partition key of their own.
pub data Family : Type 0 where
  templates agents orgs consents requests markers : Family

abbrev pub tag : Family → String
tag templates = "TPL#"
tag agents = "AG#"
tag orgs = "ORG#"
tag consents = "CON#"
tag requests = "CREQ#"
tag markers = "OPEN#"

-- The item that stands for an entry of the in-memory store.
abbrev pub view : (ℕ → String) → Store → Family → String → Option Item
view stamp s templates x = Option.map tpl_item (lookup x s.templates)
view stamp s agents x = Option.map agent_item (lookup x s.agents)
view stamp s orgs x = Option.map org_item (lookup x s.orgs)
view stamp s consents x = Option.map (con_item x) (lookup x s.consents)
view stamp s requests x = Option.map (creq_item stamp) (lookup x s.consent_requests)
view stamp s markers x = Option.map (open_item x) (lookup x s.open_requests)

abbrev pub Represents : (ℕ → String) → Contents → Store → Type 0
Represents stamp c s = (f : Family) (x : String) → c (tag f ⧺ x, sk_meta) ≡ view stamp s f x

-- A call of the table that answers as the in-memory store does and leaves a table that stands for its
-- next state.
abbrev pub Simulates :
    {A T : Type 0} → (ℕ → String) → (T → Contents) → Answer A × T → A × Store → Type 0
Simulates stamp contents r (a, s) = (r.0 ≡ returned a) × Represents stamp (contents r.1) s

tags : (f g : Family) → (f ≡ g) ⊎ (clash (codes (tag f)) (codes (tag g)) ≡ true)
tags templates templates = inl refl
tags agents agents = inl refl
tags orgs orgs = inl refl
tags consents consents = inl refl
tags requests requests = inl refl
tags markers markers = inl refl
tags _ _ = inr refl

-- The key of an entry, under the same tag and under another.
pub same_key-own : (s x y : String) → same_key (s ⧺ x, sk_meta) (s ⧺ y, sk_meta) ≡ (x == y)
same_key-own s x y = rw (alike s x y, eq_refl sk_meta) (and_true (x == y))
  where
    and_true : (b : Bool) → (b && true) ≡ b
    and_true b = ground arith

pub same_key-apart :
    (s t x y : String)
    → clash (codes s) (codes t) ≡ true
    → same_key (s ⧺ x, sk_meta) (t ⧺ y, sk_meta) ≡ false
same_key-apart s t x y h = rw (apart s t x y h)

-- The entries of the other families, where one map of the state is replaced.
abbrev pub Others : (ℕ → String) → Family → Store → Store → Type 0
Others stamp f s s' =
    (g : Family) (x : String)
    → clash (codes (tag f)) (codes (tag g)) ≡ true
    → view stamp s' g x ≡ view stamp s g x

module _ (stamp : ℕ → String) (c : Contents) (s : Store) where
  -- A write under the key of one entry, where the next state differs in that entry only.
  pub Represents-set :
      (s' : Store) (f : Family) (a : String) (o : Option Item)
      → Represents stamp c s
      → ((x : String) → view stamp s' f x ≡ (if a == x then o else view stamp s f x))
      → Others stamp f s s'
      → Represents stamp (set_item (tag f ⧺ a, sk_meta) o c) s'
  Represents-set s' f a o r own others g x = elim (tags f g) [
    | inl e ↦
        subst (λ h. set_item (tag f ⧺ a, sk_meta) o c (tag h ⧺ x, sk_meta) ≡ view stamp s' h x) e
          (rw (same_key-own (tag f) a x, r f x) (sym (own x)))
    | inr e ↦ rw (same_key-apart (tag f) (tag g) a x e) (r g x ∙ sym (others g x e))
  ]

module _ (stamp : ℕ → String) (s : Store) where
  pub Others-templates :
      (m : Map AgentTemplate) → Others stamp templates s (record s { templates = m })
  Others-templates m templates x h = cc h
  Others-templates m _ x h = refl

  pub Others-agents : (m : Map AgentRecord) → Others stamp agents s (record s { agents = m })
  Others-agents m agents x h = cc h
  Others-agents m _ x h = refl

  pub Others-orgs : (m : Map Organization) → Others stamp orgs s (record s { orgs = m })
  Others-orgs m orgs x h = cc h
  Others-orgs m _ x h = refl

  pub Others-consents :
      (m : Map ConsentRecord) → Others stamp consents s (record s { consents = m })
  Others-consents m consents x h = cc h
  Others-consents m _ x h = refl

  pub Others-requests :
      (m : Map ConsentRequest) → Others stamp requests s (record s { consent_requests = m })
  Others-requests m requests x h = cc h
  Others-requests m _ x h = refl

  pub Others-markers : (m : Map String) → Others stamp markers s (record s { open_requests = m })
  Others-markers m markers x h = cc h
  Others-markers m _ x h = refl
