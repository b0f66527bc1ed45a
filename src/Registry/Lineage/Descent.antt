-- ===== src/Registry/Lineage/Descent.antt =====
-- The invariant of the loop of `subtree`, and what the loop has found when it ends.
use mathlib.Core.List.{Memᴰ}
use spawnly.Prelude.{
  ℕ, zero, suc, String, ◌≡◌, refl, ◌∙◌, sym, subst, ◌⊎◌, inl, inr, Bool, true, false, ◌||◌, List,
  [], ◌∷◌, ◌++◌, arith, ◌==◌, eq_refl, eq→path, Bool-cases, contains, contains-append,
}
use spawnly.Prelude.Assoc.{values}
use spawnly.Registry.Types.{AgentRecord}
use spawnly.Registry.Store.{Store, list_children}
use spawnly.Registry.Lineage.{store_reads, done, ids_of, walk}
use spawnly.Registry.Lineage.Subtree.{children}

-- The agents that a walk from `root` is to find.
pub data Descends (s : Store) (root : String) : String → Type 0 where
  here : Descends s root root
  spawned :
      {p : String} (r : AgentRecord)
      → Descends s root p
      → Memᴰ r (values s.agents)
      → r.parent_id ≡ p
      → Descends s root r.agent_id

born_of :
    (p x : String) (rs : List AgentRecord)
    → contains (ids_of (children p rs)) x ≡ true
    → (r : AgentRecord) × Memᴰ r rs × (r.parent_id ≡ p) × (r.agent_id ≡ x)
born_of p x [] h = cc
born_of p x (r ∷ rs) h = elim (Bool-cases (r.parent_id == p)) [
  | inl e ↦ elim (Bool-cases (r.agent_id == x)) [
    | inl hit ↦ (r, Memᴰ.head refl, eq→path r.parent_id p e, eq→path r.agent_id x hit)
    | inr miss ↦
        let later : contains (ids_of (children p rs)) x ≡ true = rw miss at (rw e at h) in
        let (c, m, q, k) = born_of p x rs later in (c, Memᴰ.tail m, q, k)
  ]
  | inr e ↦
      let later : contains (ids_of (children p rs)) x ≡ true = rw e at h in
      let (c, m, q, k) = born_of p x rs later in (c, Memᴰ.tail m, q, k)
]

born_is_found :
    (r : AgentRecord) (rs : List AgentRecord)
    → Memᴰ r rs
    → contains (ids_of (children r.parent_id rs)) r.agent_id ≡ true
born_is_found r [] m = elim m [ ]
born_is_found r (c ∷ rs) (Memᴰ.head e) =
    rw (← e) (rw (eq_refl r.parent_id) (rw (eq_refl r.agent_id)))
born_is_found r (c ∷ rs) (Memᴰ.tail m) = elim (Bool-cases (c.parent_id == r.parent_id)) [
  | inl e ↦ rw e (elim (Bool-cases (c.agent_id == r.agent_id)) [
    | inl k ↦ rw k
    | inr k ↦ rw k (born_is_found r rs m)
  ])
  | inr e ↦ rw e (born_is_found r rs m)
]

-- An id that stood at the head of the queue is still there, if it has been found.
drop_head :
    (out queue : List String) (cur x : String)
    → contains out cur ≡ true
    → (contains out x || (cur == x || contains queue x)) ≡ true
    → (contains out x || contains queue x) ≡ true
drop_head out queue cur x found h = elim (Bool-cases (cur == x)) [
  | inl e ↦ rw (rw (eq→path cur x e) at found)
  | inr e ↦ rw e at h
]

or_split : (a b : Bool) → (a || b) ≡ true → (a ≡ true) ⊎ (b ≡ true)
or_split a b h = ground arith

in_tail : (a b : Bool) → b ≡ true → (a || b) ≡ true
in_tail a b h = ground arith

in_head : (a b : Bool) → (a || false) ≡ true → (a || b) ≡ true
in_head a b h = ground arith

in_one : (a : Bool) → (a || false) ≡ true → a ≡ true
in_one a h = ground arith

pub done-injective : {xs ys : List String} → done xs ≡ done ys → xs ≡ ys
done-injective h = cc

expand_same : (a b : Bool) → (b || a) ≡ (a || (b || false))
expand_same a b = ground arith

keep_found : (a b c d : Bool) → (a || (b || c)) ≡ true → ((a || (b || false)) || (c || d)) ≡ true
keep_found a b c d h = ground arith

add_born : (a b c d : Bool) → d ≡ true → ((a || (b || false)) || (c || d)) ≡ true
add_born a b c d h = ground arith

-- What holds at each round: all ids found descend from the root, and the children of an expanded
-- id have been found or wait.
pub record Inv (s : Store) (root : String) (out seen queue : List String) : Type 0 where
  pub sound_out : (x : String) → contains out x ≡ true → Descends s root x
  pub sound_queue : (x : String) → contains queue x ≡ true → Descends s root x
  pub same : (x : String) → contains seen x ≡ contains out x
  pub rooted : (contains out root || contains queue root) ≡ true
  pub closed :
      (r : AgentRecord)
      → Memᴰ r (values s.agents)
      → contains out r.parent_id ≡ true
      → (contains out r.agent_id || contains queue r.agent_id) ≡ true

module _ (s : Store) (root : String) where
  pub Inv-skip :
      (out seen queue : List String) (cur : String)
      → contains seen cur ≡ true
      → Inv s root out seen (cur ∷ queue)
      → Inv s root out seen queue
  Inv-skip out seen queue cur old v =
      let found : contains out cur ≡ true = sym (v.same cur) ∙ old in
      record {
        sound_out = v.sound_out;
        sound_queue = λ x h. v.sound_queue x (in_tail (cur == x) (contains queue x) h);
        same = v.same;
        rooted = drop_head out queue cur root found v.rooted;
        closed = λ r m h. drop_head out queue cur r.agent_id found (v.closed r m h);
      }

  pub Inv-expand :
      (out seen queue : List String) (cur : String)
      → Inv s root out seen (cur ∷ queue)
      → Inv s root (out ++ cur ∷ []) (cur ∷ seen) (queue ++ ids_of (children cur (values s.agents)))
  Inv-expand out seen queue cur v = record {
    sound_out = λ x h. elim (or_split _ _ (rw (contains-append out (cur ∷ []) x) at h)) [
      | inl old ↦ v.sound_out x old
      | inr new ↦ v.sound_queue x (in_head (cur == x) (contains queue x) new)
    ];
    sound_queue = λ x h. elim (or_split _ _ (rw (contains-append queue born x) at h)) [
      | inl old ↦ v.sound_queue x (in_tail (cur == x) (contains queue x) old)
      | inr new ↦
          let (r, m, p, k) = born_of cur x (values s.agents) new in
          subst (Descends s root) k (spawned r (v.sound_queue cur (rw (eq_refl cur))) m p)
    ];
    same = λ x.
        rw (contains-append out (cur ∷ []) x, v.same x) (expand_same (contains out x) (cur == x));
    rooted = stays root v.rooted;
    closed = λ r m h. elim (or_split _ _ (rw (contains-append out (cur ∷ []) r.parent_id) at h)) [
      | inl old ↦ stays r.agent_id (v.closed r m old)
      | inr new ↦ joins r.agent_id (born_here r m (in_one (cur == r.parent_id) new))
    ];
  }
    where
      born : List String
      born = ids_of (children cur (values s.agents))

      born_here :
          (r : AgentRecord)
          → Memᴰ r (values s.agents)
          → (cur == r.parent_id) ≡ true
          → contains born r.agent_id ≡ true
      born_here r m e = rw (eq→path cur r.parent_id e) (born_is_found r (values s.agents) m)

      stays :
          (x : String)
          → (contains out x || (cur == x || contains queue x)) ≡ true
          → (contains (out ++ cur ∷ []) x || contains (queue ++ born) x) ≡ true
      stays x h =
          rw (contains-append out (cur ∷ []) x, contains-append queue born x)
            (keep_found (contains out x) (cur == x) (contains queue x) (contains born x) h)

      joins :
          (x : String)
          → contains born x ≡ true
          → (contains (out ++ cur ∷ []) x || contains (queue ++ born) x) ≡ true
      joins x h =
          rw (contains-append out (cur ∷ []) x, contains-append queue born x)
            (add_born (contains out x) (cur == x) (contains queue x) (contains born x) h)

  pub walk-Inv :
      (fuel : ℕ) (out seen queue nodes : List String)
      → Inv s root out seen queue
      → walk (store_reads s) fuel out seen queue ≡ done nodes
      → (seen' : List String) × Inv s root nodes seen' []
  unfolding walk store_reads list_children
  walk-Inv zero out seen [] nodes v e = (seen, rw (← done-injective e) v)
  walk-Inv zero out seen (cur ∷ queue) nodes v e = cc
  walk-Inv (suc fuel) out seen [] nodes v e = (seen, rw (← done-injective e) v)
  walk-Inv (suc fuel) out seen (cur ∷ queue) nodes v e = elim (Bool-cases (contains seen cur)) [
    | inl old ↦
        walk-Inv fuel out seen queue nodes (Inv-skip out seen queue cur old v) (rw (old, walk) at e)
    | inr new ↦
        walk-Inv fuel (out ++ cur ∷ []) (cur ∷ seen)
          (queue ++ ids_of (children cur (values s.agents))) nodes (Inv-expand out seen queue cur v)
          (rw (new, walk) at e)
  ]

  pub Inv-start : Inv s root [] [] (root ∷ [])
  Inv-start = record {
    sound_out = λ x h. cc;
    sound_queue = λ x h. subst (Descends s root) (eq→path root x (in_one (root == x) h)) here;
    same = λ x. refl;
    rooted = rw (eq_refl root);
    closed = λ r m h. cc;
  }

  -- When nothing waits, what has been found is what descends from the root.
  pub Inv-finds :
      (nodes seen : List String) (x : String)
      → Inv s root nodes seen []
      → Descends s root x
      → contains nodes x ≡ true
  Inv-finds nodes seen x v here = in_one (contains nodes root) v.rooted
  Inv-finds nodes seen x v (spawned {p = p} r d m e) =
      in_one (contains nodes r.agent_id) (v.closed r m (rw e (Inv-finds nodes seen p v d)))
