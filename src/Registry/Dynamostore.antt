-- ===== src/Registry/Dynamostore.antt =====
-- internal/registry/dynamostore/store.go: the registry's store on one DynamoDB table.
--
-- DynamoDB and its client are outside of the repository: they are a `Service`, a parameter, and `Works`
-- states what its documentation says of a table that no one else writes, where a read that is not
-- consistent may miss the writes before it until the replicas have caught up. An item is its keys and its domain object: the marshalling of the client is left out.
pub mod Keys
pub mod Items
pub mod Catalog
pub mod Consents
pub mod Requests
pub mod Resolution
pub mod Refinement
pub mod Interleaving
use spawnly.Prelude.{
  String, Bool, true, false, ◌&&◌, ◌≡◌, Option, none, some, List, [], ◌∷◌, ◌==◌, contains,
  if◌then◌else◌,
}
use mathlib.Core.List.{Memᴰ}
use spawnly.Consent.{ConsentRecord, ConsentRequest}
use spawnly.Registry.Types.{AgentTemplate, AgentRecord, Organization, Event}

-- What stands beside the keys of an item.
pub data Body : Type 0 where
  template : AgentTemplate → Body
  agent : AgentRecord → Body
  event : Event → Body
  org : Organization → Body
  consent : ConsentRecord → Body
  request : ConsentRequest → Body
  marker : String → Body

-- `templateItem`, `agentItem`, `eventItem`, `orgItem` and the items that are built key by key. A key that
-- is left out of an index is the empty text.
pub record Item : Type 0 where
  pub pk : String
  pub sk : String
  pub gsi1pk : String
  pub gsi1sk : String
  pub gsi2pk : String
  pub body : Body

abbrev pub Key : Type 0
Key = String × String

abbrev pub same_key : Key → Key → Bool
same_key (p, s) (p', s') = p == p' && s == s'

abbrev pub key_of : Item → Key
key_of i = (i.pk, i.sk)

-- A `ConditionalCheckFailedException`, a `TransactionCanceledException` with the codes of its reasons,
-- or any other error.
pub data DbError : Type 0 where
  condition_failed : DbError
  cancelled : List String → DbError
  other : String → DbError

pub data Answer {ℓ} (A : Type ℓ) : Type ℓ where
  returned : A → Answer A
  failed : DbError → Answer A

-- The condition and the update expression of a write, as functions of the item under its key.
pub record Update : Type 0 where
  pub key : Key
  pub test : Option Item → Bool
  pub change : Option Item → Item

pub data Write : Type 0 where
  put : (Option Item → Bool) → Item → Write
  update : Update → Write

-- The part of a `QueryInput` that differs: the index, the value of its partition key, and the beginning
-- of its sort key.
pub data Index : Type 0 where
  table gsi1 gsi2 : Index

pub record Query : Type 0 where
  pub index : Index
  pub hash : String
  pub begins : String

-- The calls of the client. `get_item` is told whether the read is to be consistent; `update_item` returns
-- the new item, `delete_item` the old one, `query` the items of all pages.
pub record Service (T : Type 0) : Type 0 where
  pub get_item : Bool → Key → T → Answer (Option Item) × T
  pub put_item : Item → T → Answer {0} Unit × T
  pub update_item : Update → T → Answer Item × T
  pub delete_item : Key → (Option Item → Bool) → T → Answer (Option Item) × T
  pub query : Query → T → Answer (List Item) × T
  pub transact_write_items : List Write → T → Answer {0} Unit × T

-- Goes on with what a call returned, or ends with its error.
module _ {T : Type 0} where
  abbrev pub then_or {ℓ κ} :
      {A : Type ℓ} {B : Type κ}
      → Answer A × T
      → (DbError → T → Answer B × T)
      → (A → T → Answer B × T)
      → Answer B × T
  then_or (returned a, t) failure go_on = go_on a t
  then_or (failed e, t) failure go_on = failure e t

  abbrev pub then_ {ℓ κ} :
      {A : Type ℓ} {B : Type κ} → Answer A × T → (A → T → Answer B × T) → Answer B × T
  then_ m go_on = then_or m (λ e t. (failed e, t)) go_on

unfoldable pub is_cond_failed : DbError → Bool
is_cond_failed condition_failed = true
is_cond_failed (cancelled reasons) = false
is_cond_failed (other text) = false

unfoldable pub txn_cancel_has : DbError → String → Bool
txn_cancel_has condition_failed code = false
txn_cancel_has (cancelled reasons) code = contains reasons code
txn_cancel_has (other text) code = false

unfoldable pub is_txn_cond_failed : DbError → Bool
unfolding txn_cancel_has
is_txn_cond_failed e = txn_cancel_has e "ConditionalCheckFailed"

unfoldable pub is_txn_conflict : DbError → Bool
unfolding txn_cancel_has
is_txn_conflict e = txn_cancel_has e "TransactionConflict"

-- The contents of a table, and what a write makes of them.
abbrev pub Contents : Type 0
Contents = Key → Option Item

abbrev pub set_item : Key → Option Item → Contents → Contents
set_item k i c j = if same_key k j then i else c j

abbrev pub passes_one : Write → Contents → Bool
passes_one (put test i) c = test (c (key_of i))
passes_one (update u) c = u.test (c u.key)

abbrev pub commit_one : Write → Contents → Contents
commit_one (put test i) c = set_item (key_of i) (some i) c
commit_one (update u) c = set_item u.key (some (u.change (c u.key))) c

-- The conditions of a transaction are on the contents before it.
abbrev pub passes : List Write → Contents → Bool
passes [] c = true
passes (w ∷ ws) c = passes_one w c && passes ws c

abbrev pub commit : List Write → Contents → Contents
commit [] c = c
commit (w ∷ ws) c = commit ws (commit_one w c)

-- A call that answers this and leaves these contents.
abbrev pub Leaves {ℓ} :
    {A : Type ℓ} {T : Type 0} → (T → Contents) → Answer A × T → A → Contents → Type ℓ
Leaves contents r a c = (r.0 ≡ returned a) × (contents r.1 ≡ c)

-- A service whose calls succeed, unless their condition fails, over the contents of its table. A
-- consistent read finds these contents; another read finds them where the replicas have caught up
-- (`Settled`), may fail or find anything else where they have not, and changes nothing. Reads leave
-- replicas that have caught up as they are; a write need not.
pub record Works {T : Type 0} (db : Service T) (contents : T → Contents) : Type 1 where
  pub Settled : T → Type 0
  pub gets : (k : Key) (t : T) → Leaves contents (db.get_item true k t) (contents t k) (contents t)
  pub late_gets :
      (k : Key) (t : T) → Settled t → (db.get_item false k t).0 ≡ returned (contents t k)
  pub late_keeps : (k : Key) (t : T) → contents (db.get_item false k t).1 ≡ contents t
  pub keeps_settled : (b : Bool) (k : Key) (t : T) → Settled t → Settled (db.get_item b k t).1
  pub puts :
      (i : Item) (t : T)
      → Leaves contents (db.put_item i t) tt (set_item (key_of i) (some i) (contents t))
  pub updates :
      (u : Update) (t : T)
      → u.test (contents t u.key) ≡ true
      → let i = u.change (contents t u.key) in
        Leaves contents (db.update_item u t) i (set_item u.key (some i) (contents t))
  pub update_refused :
      (u : Update) (t : T)
      → u.test (contents t u.key) ≡ false
      → ((db.update_item u t).0 ≡ failed condition_failed)
        × (contents (db.update_item u t).1 ≡ contents t)
  pub deletes :
      (k : Key) (test : Option Item → Bool) (t : T)
      → test (contents t k) ≡ true
      → Leaves contents (db.delete_item k test t) (contents t k) (set_item k none (contents t))
  pub delete_refused :
      (k : Key) (test : Option Item → Bool) (t : T)
      → test (contents t k) ≡ false
      → ((db.delete_item k test t).0 ≡ failed condition_failed)
        × (contents (db.delete_item k test t).1 ≡ contents t)
  pub transacts :
      (ws : List Write) (t : T)
      → passes ws (contents t) ≡ true
      → Leaves contents (db.transact_write_items ws t) tt (commit ws (contents t))
  pub transact_refused :
      (ws : List Write) (t : T)
      → passes ws (contents t) ≡ false
      → (reasons : List String) × ((db.transact_write_items ws t).0 ≡ failed (cancelled reasons))
        × (contains reasons "ConditionalCheckFailed" ≡ true)
        × (contents (db.transact_write_items ws t).1 ≡ contents t)

-- Where a read finds the contents of the table: a consistent one everywhere.
module _ {T : Type 0} {db : Service T} {contents : T → Contents} (works : Works db contents) where
  abbrev pub Current : Bool → T → Type 0
  Current true t = Unit
  Current false t = works.Settled t
