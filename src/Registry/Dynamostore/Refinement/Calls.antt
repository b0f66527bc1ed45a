-- ===== src/Registry/Dynamostore/Refinement/Calls.antt =====
-- How a call of the table is followed by the rest of an operation, for a service that works.
use mathlib.Core.Option
use spawnly.Prelude.{
  ℕ, String, ◌≡◌, refl, sym, ap, ◌∙◌, subst, inl, inr, Bool, true, false, Option, none, some, ◌==◌,
  ◌⧺◌, if◌then◌else◌, Bool-cases, eq→path,
}
use spawnly.Prelude.Assoc.{Map, lookup, insert, erase, lookup-insert, lookup-erase}
use spawnly.Registry.Store.{Store}
use spawnly.Registry.Dynamostore.{
  Item, Key, Contents, Answer, DbError, Service, Update, Works, Current, returned, failed,
  condition_failed, then_, then_or, Leaves, set_item,
}
use spawnly.Registry.Dynamostore.Refinement.{Family, tag, view, Represents, Simulates}
use spawnly.Registry.Dynamostore.Keys.{sk_meta}
use spawnly.Registry.Dynamostore.Items.{exists, always}

module _ {T : Type 0} {A B : Type 0} where
  pub then_-returned :
      (m : Answer A × T) (k : A → T → Answer B × T) (a : A) → m.0 ≡ returned a → then_ m k ≡ k a m.1
  then_-returned (returned b, t) k a e = let same : b ≡ a = cc e in ap (λ z. k z t) same
  then_-returned (failed x, t) k a e = cc e

  pub then_or-returned :
      (m : Answer A × T) (f : DbError → T → Answer B × T) (k : A → T → Answer B × T) (a : A)
      → m.0 ≡ returned a
      → then_or m f k ≡ k a m.1
  then_or-returned (returned b, t) f k a e = let same : b ≡ a = cc e in ap (λ z. k z t) same
  then_or-returned (failed x, t) f k a e = cc e

  pub then_or-failed :
      (m : Answer A × T) (f : DbError → T → Answer B × T) (k : A → T → Answer B × T) (e : DbError)
      → m.0 ≡ failed e
      → then_or m f k ≡ f e m.1
  then_or-failed (returned b, t) f k x e = cc e
  then_or-failed (failed y, t) f k x e = let same : y ≡ x = cc e in ap (λ z. f z t) same

module _ (stamp : ℕ → String) {T : Type 0} (contents : T → Contents) where
  -- A call that leaves these contents simulates, if they stand for the next state.
  pub lands :
      {A : Type 0} (m : Answer A × T) (a : A) (c : Contents) (s : Store)
      → Leaves contents m a c
      → Represents stamp c s
      → Simulates stamp contents m (a, s)
  lands m a c s l r = (l.0, subst (λ d. Represents stamp d s) (sym l.1) r)

  -- The same for an operation that ends in another answer over the state of the call.
  pub answers :
      {A : Type 0} (m : Answer A × T) (t : T) (a : A) (c : Contents) (s : Store)
      → m ≡ (returned a, t)
      → contents t ≡ c
      → Represents stamp c s
      → Simulates stamp contents m (a, s)
  answers m t a c s e l r = (
    ap (λ p. p.0) e,
    subst (λ d. Represents stamp d s) (sym l ∙ ap contents (sym (ap (λ p. p.1) e))) r,
  )

module _ {V : Type 0} (f : String → V → Item) where
  pub stored-insert :
      (a : String) (v : V) (m : Map V) (x : String)
      → Option.map (f x) (lookup x (insert a v m))
        ≡ (if a == x then some (f a v) else Option.map (f x) (lookup x m))
  stored-insert a v m x = elim (Bool-cases (a == x)) [
    | inl e ↦ rw (lookup-insert, e) (ap (λ y. some (f y v)) (sym (eq→path a x e)))
    | inr e ↦ rw (lookup-insert, e) refl
  ]

  pub stored-erase :
      (a : String) (m : Map V) (x : String)
      → Option.map (f x) (lookup x (erase a m))
        ≡ (if a == x then none else Option.map (f x) (lookup x m))
  stored-erase a m x = elim (Bool-cases (a == x)) [
    | inl e ↦ rw (lookup-erase, e) refl
    | inr e ↦ rw (lookup-erase, e) refl
  ]

  pub gone-absent :
      (a : String) (m : Map V)
      → lookup a m ≡ none
      → (x : String)
      → Option.map (f x) (lookup x m) ≡ (if a == x then none else Option.map (f x) (lookup x m))
  gone-absent a m e x = elim (Bool-cases (a == x)) [
    | inl same ↦ rw (same, ← eq→path a x same, e) refl
    | inr other ↦ rw other refl
  ]

module _ (stamp : ℕ → String) {T : Type 0} (db : Service T) (contents : T → Contents)
    (works : Works db contents) (t : T) (s : Store) (r : Represents stamp (contents t) s) where
  -- A read that finds the contents.
  current_lem :
      (b : Bool) (k : Key)
      → Current works b t
      → Leaves contents (db.get_item b k t) (contents t k) (contents t)
  current_lem true k h = works.gets k t
  current_lem false k h = (works.late_gets k t h, works.late_keeps k t)

  pub get_item-then_ :
      {A : Type 0} (b : Bool) (f : Family) (x : String) (k : Option Item → T → Answer A × T)
      → Current works b t
      → then_ (db.get_item b (tag f ⧺ x, sk_meta) t) k
        ≡ k (view stamp s f x) (db.get_item b (tag f ⧺ x, sk_meta) t).1
  get_item-then_ b f x k h =
      let m = db.get_item b (tag f ⧺ x, sk_meta) t in
      then_-returned m k (contents t (tag f ⧺ x, sk_meta)) (current_lem b (tag f ⧺ x, sk_meta) h).0
      ∙ ap (λ i. k i m.1) (r f x)

  pub get_item-Represents :
      (b : Bool) (f : Family) (x : String)
      → Represents stamp (contents (db.get_item b (tag f ⧺ x, sk_meta) t).1) s
  get_item-Represents b f x =
      subst (λ c. Represents stamp c s) (sym (kept b (tag f ⧺ x, sk_meta))) r
    where
      kept : (b : Bool) (k : Key) → contents (db.get_item b k t).1 ≡ contents t
      kept true k = (works.gets k t).1
      kept false k = works.late_keeps k t

  -- A read of an entry.
  pub reads :
      {A : Type 0} (b : Bool) (f : Family) (x : String) (k : Option Item → T → Answer A × T) (a : A)
      → Current works b t
      → ((t' : T) → k (view stamp s f x) t' ≡ (returned a, t'))
      → Simulates stamp contents (then_ (db.get_item b (tag f ⧺ x, sk_meta) t) k) (a, s)
  reads b f x k a now h =
      let key : Key = (tag f ⧺ x, sk_meta) in
      let m = db.get_item b key t in
      let (read, kept) = current_lem b key now in
      answers stamp contents (then_ m k) m.1 a (contents t) s
        (then_-returned m k (contents t key) read ∙ ap (λ i. k i m.1) (r f x) ∙ h m.1) kept r

  -- An update of an entry whose condition holds.
  pub updates :
      {A : Type 0} (f : Family) (x : String) (u : Update) (fails : DbError → T → Answer A × T)
      (k : Item → T → Answer A × T) (a : A) (s' : Store)
      → u.key ≡ (tag f ⧺ x, sk_meta)
      → u.test (view stamp s f x) ≡ true
      → ((t' : T) → k (u.change (view stamp s f x)) t' ≡ (returned a, t'))
      → Represents stamp
          (set_item (tag f ⧺ x, sk_meta) (some (u.change (view stamp s f x))) (contents t))
          s'
      → Simulates stamp contents (then_or (db.update_item u t) fails k) (a, s')
  updates f x u fails k a s' at passes h r' =
      let m = db.update_item u t in
      let here : contents t u.key ≡ view stamp s f x = ap (contents t) at ∙ r f x in
      let (done, left) = works.updates u t (ap u.test here ∙ passes) in
      answers stamp contents (then_or m fails k) m.1 a
        (set_item (tag f ⧺ x, sk_meta) (some (u.change (view stamp s f x))) (contents t)) s'
        (then_or-returned m fails k (u.change (contents t u.key)) done
          ∙ ap (λ i. k (u.change i) m.1) here
          ∙ h m.1)
        (left
          ∙ ap (λ i. set_item u.key (some (u.change i)) (contents t)) here
          ∙ ap (λ key. set_item key (some (u.change (view stamp s f x))) (contents t)) at)
        r'

  -- An update that its condition refuses.
  pub update_refused :
      {A : Type 0} (f : Family) (x : String) (u : Update) (fails : DbError → T → Answer A × T)
      (k : Item → T → Answer A × T) (a : A)
      → u.key ≡ (tag f ⧺ x, sk_meta)
      → u.test (view stamp s f x) ≡ false
      → ((t' : T) → fails condition_failed t' ≡ (returned a, t'))
      → Simulates stamp contents (then_or (db.update_item u t) fails k) (a, s)
  update_refused f x u fails k a at refuses h =
      let m = db.update_item u t in
      let here : contents t u.key ≡ view stamp s f x = ap (contents t) at ∙ r f x in
      let (done, left) = works.update_refused u t (ap u.test here ∙ refuses) in
      answers stamp contents (then_or m fails k) m.1 a (contents t) s
        (then_or-failed m fails k condition_failed done ∙ h m.1) left r

  -- A deletion with no condition.
  pub deletes :
      {A : Type 0} (f : Family) (x : String) (test : Option Item → Bool)
      (fails : DbError → T → Answer A × T) (k : Option Item → T → Answer A × T) (a : A) (s' : Store)
      → test (view stamp s f x) ≡ true
      → ((t' : T) → k (view stamp s f x) t' ≡ (returned a, t'))
      → Represents stamp (set_item (tag f ⧺ x, sk_meta) none (contents t)) s'
      → Simulates stamp contents
          (then_or (db.delete_item (tag f ⧺ x, sk_meta) test t) fails k)
          (a, s')
  deletes f x test fails k a s' passes h r' =
      let key : Key = (tag f ⧺ x, sk_meta) in
      let m = db.delete_item key test t in
      let (done, left) = works.deletes key test t (ap test (r f x) ∙ passes) in
      answers stamp contents (then_or m fails k) m.1 a (set_item key none (contents t)) s'
        (then_or-returned m fails k (contents t key) done ∙ ap (λ i. k i m.1) (r f x) ∙ h m.1) left
        r'

  -- An update of an entry that changes it if it is there.
  pub changes :
      {A V : Type 0} (f : Family) (x : String) (item : V → Item) (o : Option V) (u : Update)
      (fails : DbError → T → Answer A × T) (k : Item → T → Answer A × T) (nothing : A)
      (result : V → A) (s' : V → Store)
      → view stamp s f x ≡ Option.map item o
      → u.key ≡ (tag f ⧺ x, sk_meta)
      → ((i : Option Item) → u.test i ≡ exists i)
      → ((t' : T) → fails condition_failed t' ≡ (returned nothing, t'))
      → ((v : V) (t' : T) → k (u.change (some (item v))) t' ≡ (returned (result v), t'))
      → ((v : V)
          → o ≡ some v
          → Represents stamp
              (set_item (tag f ⧺ x, sk_meta) (some (u.change (some (item v)))) (contents t))
              (s' v))
      → Simulates stamp contents
          (then_or (db.update_item u t) fails k)
          (elim o [ none ↦ (nothing, s) | some v ↦ (result v, s' v) ])
  changes f x item none u fails k nothing result s' e at test refused done rep =
      update_refused f x u fails k nothing at (test (view stamp s f x) ∙ ap exists e) refused
  changes f x item (some v) u fails k nothing result s' e at test refused done rep =
      let read = λ (i : Option Item). k (u.change i) in
      updates f x u fails k (result v) (s' v) at (test (view stamp s f x) ∙ ap exists e)
        (λ t'. ap (λ i. read i t') e ∙ done v t')
        (subst
          (λ i.
            Represents stamp (set_item (tag f ⧺ x, sk_meta) (some (u.change i)) (contents t))
              (s' v))
          (sym e) (rep v refl))

  -- The removal of an entry, if it is there.
  pub removes :
      {V : Type 0} (f : Family) (x : String) (item : V → Item) (o : Option V) (s' : V → Store)
      → view stamp s f x ≡ Option.map item o
      → ((v : V)
          → o ≡ some v
          → Represents stamp (set_item (tag f ⧺ x, sk_meta) none (contents t)) (s' v))
      → (o ≡ none → Represents stamp (set_item (tag f ⧺ x, sk_meta) none (contents t)) s)
      → Simulates stamp contents
          (then_ (db.delete_item (tag f ⧺ x, sk_meta) always t) (λ i t'. (returned (exists i), t')))
          (elim o [ none ↦ (false, s) | some v ↦ (true, s' v) ])
  removes f x item none s' e some_rep none_rep =
      deletes f x always _ _ false s refl (λ t'. ap (λ i. (returned (exists i), t')) e)
        (none_rep refl)
  removes f x item (some v) s' e some_rep none_rep =
      deletes f x always _ _ true (s' v) refl (λ t'. ap (λ i. (returned (exists i), t')) e)
        (some_rep v refl)
