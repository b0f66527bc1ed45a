-- ===== src/Registry/Dynamostore/Interleaving/Sharing.antt =====
-- internal/registry/dynamostore/store.go: one call of the store, on a table that other calls use at the same
-- time. Before each of its accesses come accesses of the others (`Moves`). A write that takes
-- place may still answer with an error, when the answer is lost.
use mathlib.Core.List.{Memᴰ}
use spawnly.Prelude.{ℕ, String, ◌≡◌, ◌⊎◌, Bool, true, Option, none, some, List}
use spawnly.Consent.{ConsentRequest}
use spawnly.Registry.Dynamostore.{
  Item, Key, Contents, DbError, Answer, Query, Service, Update, Write, returned, failed, other,
  set_item, key_of, passes, commit,
}
use spawnly.Registry.Dynamostore.Interleaving.Keeping.{Pairs}
use spawnly.Registry.Dynamostore.Interleaving.{System, Step, Reach, request_at, apply_update}

-- What a step does, without the time, the grant and the table.
pub data Act : Type 0 where
  opens opens_resolved : ConsentRequest → Act
  resolves : String → String → String → Act
  approves : String → String → Act
  reads : String → Act
  finds frees : String → String → Act
  elsewhere : Act

abbrev pub act : {stamp : ℕ → String} {s u : System} → Step stamp s u → Act
act (Step.opens cr new won) = opens cr
act (Step.opens_resolved cr new over) = opens_resolved cr
act (Step.resolves id user_id status now cr at over test) = resolves id user_id status
act (Step.approves id user_id cand now grant cr at won) = approves id user_id
act (Step.reads_marker key id at) = reads key
act (Step.finds_stale key id cr m at over) = finds key id
act (Step.finds_none key id m at) = finds key id
act (Step.frees key id m points) = frees key id
act (Step.elsewhere f x sk i far plain) = elsewhere

-- A call among others: the ids that only it may give to a request, the steps that it may do, and those
-- that the others do.
pub record Company : Type 1 where
  pub own : String → Type 0
  pub may : Act → Type 0
  pub others : System → System → Type 0

-- No request has one of these ids.
abbrev pub Fresh : Company → System → Type 0
Fresh company s = (id : String) → company.own id → request_at s.contents id ≡ none

-- Steps of the others.
pub data Moves (stamp : ℕ → String) (company : Company) (s : System) : System → Type 0 where
  stay : Moves stamp company s s
  move :
      {t u : System}
      → Moves stamp company s t
      → Step stamp t u
      → company.others t u
      → Moves stamp company s u

pub Moves-Reach :
    (stamp : ℕ → String) (company : Company) (s u : System)
    → Moves stamp company s u
    → Reach stamp s u
Moves-Reach stamp company s u Moves.stay = Reach.here
Moves-Reach stamp company s u (Moves.move {t} m step theirs) =
    Reach.next (Moves-Reach stamp company s t m) step

-- What the others do before an access; they make no request of an id of this call.
abbrev pub Between : (ℕ → String) → Company → System → System → Type 0
Between stamp company s u = Moves stamp company s u × (Fresh company s → Fresh company u)

module _ (stamp : ℕ → String) (company : Company) {T : Type 0} (system : T → System) where
  -- How a write ends that starts at `s`: refused, or done on a table that passes its test, whatever is
  -- answered then.
  abbrev pub Ends {ℓ} :
      {A : Type ℓ} → Answer A × T → System → (Contents → Bool) → (Contents → Contents) → Type ℓ
  Ends {A} m s test change =
      ((e : DbError) × (m.0 ≡ failed e) × Between stamp company s (system m.1))
      ⊎ ((u : System) × Between stamp company s u
          × (test u.contents ≡ true)
          × (system m.1 ≡ record u { contents = change u.contents })
          × (((a : A) × (m.0 ≡ returned a)) ⊎ ((text : String) × (m.0 ≡ failed (other text)))))

  -- How a read ends. One that is not consistent sees the table as it was before.
  abbrev pub Sees {ℓ} : {A : Type ℓ} → Answer A × T → System → Bool → (Contents → A) → Type ℓ
  Sees m s consistent value =
      Between stamp company s (system m.1)
      × (((e : DbError) × (m.0 ≡ failed e))
          ⊎ ((v : System) × Reach stamp v (system m.1)
              × (consistent ≡ true → v ≡ system m.1)
              × (m.0 ≡ returned (value v.contents))))

-- A service whose calls are accesses of a table that others use, too.
pub record Shares {T : Type 0} (stamp : ℕ → String) (company : Company) (db : Service T)
    (system : T → System) : Type 0 where
  pub gets :
      (b : Bool) (k : Key) (t : T)
      → Sees stamp company system (db.get_item b k t) (system t) b (λ c. c k)
  pub puts :
      (i : Item) (t : T)
      → Ends stamp company system
          (db.put_item i t)
          (system t)
          (λ c. true)
          (set_item (key_of i) (some i))
  pub updates :
      (w : Update) (t : T)
      → Ends stamp company system
          (db.update_item w t)
          (system t)
          (λ c. w.test (c w.key))
          (apply_update w)
  pub deletes :
      (k : Key) (test : Option Item → Bool) (t : T)
      → Ends stamp company system
          (db.delete_item k test t)
          (system t)
          (λ c. test (c k))
          (set_item k none)
  pub transacts :
      (ws : List Write) (t : T)
      → Ends stamp company system (db.transact_write_items ws t) (system t) (passes ws) (commit ws)

pub Reach-trans :
    (stamp : ℕ → String) (s v u : System) → Reach stamp s v → Reach stamp v u → Reach stamp s u
Reach-trans stamp s v u r Reach.here = r
Reach-trans stamp s v u r (Reach.next {t} r' step) = Reach.next (Reach-trans stamp s v t r r') step

Moves-trans :
    (stamp : ℕ → String) (company : Company) (s v u : System)
    → Moves stamp company s v
    → Moves stamp company v u
    → Moves stamp company s u
Moves-trans stamp company s v u m Moves.stay = m
Moves-trans stamp company s v u m (Moves.move {t} m' step theirs) =
    Moves.move (Moves-trans stamp company s v t m m') step theirs

pub Between-trans :
    (stamp : ℕ → String) (company : Company) (s t u : System)
    → Between stamp company s t
    → Between stamp company t u
    → Between stamp company s u
Between-trans stamp company s t u (m, f) (m', f') =
    (Moves-trans stamp company s t u m m', λ x. f' (f x))

-- What a query answers: items of the table, each as it is or was at some time since `s0`.
abbrev pub Happened : (ℕ → String) → System → System → Type 0
Happened stamp s0 v = (σ : Pairs) × (δ : Pairs) × Reach stamp s0 (record v { seen = σ; due = δ })

pub record Finds {T : Type 0} (stamp : ℕ → String) (company : Company) (db : Service T)
    (system : T → System) (s0 : System) : Type 0 where
  pub unchanged : (q : Query) (t : T) → Between stamp company (system t) (system (db.query q t).1)
  pub finds :
      (q : Query) (t : T) (is : List Item)
      → Happened stamp s0 (system t)
      → (db.query q t).0 ≡ returned is
      → (i : Item) → Memᴰ i is
      → (v : System) × Happened stamp s0 v
        × Reach stamp v (system (db.query q t).1)
        × (v.contents (key_of i) ≡ some i)
