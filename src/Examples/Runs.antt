-- ===== src/Examples/Runs.antt =====
-- An approval with its sweep on a concrete table that is shared.
use mathlib.Core.List.{Memᴰ}
use mathlib.Core.Option
use spawnly.Prelude.{
  String, ◌≡◌, refl, sym, ap, ◌∙◌, subst, inl, inr, true, Option, none, some, List, [], ◌∷◌, ◌==◌,
  if◌then◌else◌, Bool-cases,
}
use spawnly.Prelude.Text.{decimal}
use spawnly.Consent.{ConsentRequest, consent_pending, open_request_key}
use spawnly.Registry.Requests.{open_key_of}
use spawnly.Registry.Dynamostore.{
  Item, Key, Contents, Service, returned, condition_failed, cancelled, same_key, key_of, passes,
  commit,
}
use spawnly.Registry.Dynamostore.Keys.{sk_meta, creq_pk}
use spawnly.Registry.Dynamostore.Requests.{opening}
use spawnly.Registry.Dynamostore.Resolution.{resolve_consent_request}
use spawnly.Registry.Dynamostore.Interleaving.{System, Step, Reach, request_at, marker_at}
use spawnly.Registry.Dynamostore.Interleaving.OpenKeys.{Keeps}
use spawnly.Registry.Dynamostore.Interleaving.Filing.{same_key→path}
use spawnly.Registry.Dynamostore.Interleaving.Sharing.{Company, Moves, Shares, Finds}
use spawnly.Registry.Dynamostore.Interleaving.Runs.{
  Call, resolve, beside, Ran, perform, new, call_in_company,
}
use spawnly.Examples.Data.{asked, deadline}
use spawnly.Examples.Tables.{plain}

abbrev listed : Key → Option Item → List Item
listed k none = []
listed k (some i) = if same_key (key_of i) k then i ∷ [] else []

abbrev second : Key
second = (creq_pk "creq-2", sk_meta)

-- A query finds the second request, if it is there.
abbrev db : Service Contents
db = record plain { query = λ q c. (returned (listed second (c second)), c) }

abbrev system : Contents → System
system c = record { contents = c; seen = []; due = [] }

db-Shares : (company : Company) → Shares decimal company db system
db-Shares company = record {
  gets = λ b k c. ((Moves.stay, λ f. f), inr (system c, Reach.here, (λ e. refl), refl));
  puts = λ i c. inr (system c, (Moves.stay, λ f. f), refl, refl, inl (tt, refl));
  updates = λ w c. elim (Bool-cases (w.test (c w.key))) [
    | inl e ↦
        inr (system c, (Moves.stay, λ f. f), e, rw e refl, inl (w.change (c w.key), rw e refl))
    | inr e ↦ inl (condition_failed, rw e refl, rw e (Moves.stay, λ f. f))
  ];
  deletes = λ k test c. elim (Bool-cases (test (c k))) [
    | inl e ↦ inr (system c, (Moves.stay, λ f. f), e, rw e refl, inl (c k, rw e refl))
    | inr e ↦ inl (condition_failed, rw e refl, rw e (Moves.stay, λ f. f))
  ];
  transacts = λ ws c. elim (Bool-cases (passes ws c)) [
    | inl e ↦ inr (system c, (Moves.stay, λ f. f), e, rw e refl, inl (tt, rw e refl))
    | inr e ↦ inl (cancelled ("ConditionalCheckFailed" ∷ []), rw e refl, rw e (Moves.stay, λ f. f))
  ];
}

listed_lem :
    (k : Key) (o : Option Item) (i : Item) → Memᴰ i (listed k o) → (k ≡ key_of i) × (o ≡ some i)
listed_lem k none i m = elim m [ ]
listed_lem k (some j) i m = elim (Bool-cases (same_key (key_of j) k)) [
  | inl e ↦
      let (same, here) = one i j (rw e at m) in
      (sym (same_key→path (key_of j) k e) ∙ ap key_of (sym same), ap some (sym same))
  | inr e ↦ absurd (never i (rw e at m))
]
  where
    one : (a b : Item) → Memᴰ a (b ∷ []) → (a ≡ b) × (a ≡ b)
    one a b (Memᴰ.head e) = (e, e)
    one a b (Memᴰ.tail m) = elim m [ ]

    never : (a : Item) → Memᴰ a [] → ⊥
    never a m = elim m [ ]

db-Finds : (company : Company) → Finds decimal company db system new
db-Finds company = record {
  unchanged = λ q c. (Moves.stay, λ f. f);
  finds = λ q c is past f i m.
      let found : listed second (c second) ≡ is = cc f in
      let (same, here) = listed_lem second (c second) i (subst (Memᴰ i) (sym found) m) in
      (system c, past, Reach.here, ap c (sym same) ∙ here);
}

-- Two requests for one edge, of two agents.
abbrev other_agent : ConsentRequest
other_agent = record asked { id = "creq-2"; agent_id = "c" }

abbrev first_open : Contents
first_open = commit (opening decimal (open_key_of asked) asked) new.contents

abbrev two_open : Contents
two_open = commit (opening decimal (open_key_of other_agent) other_agent) first_open

two_open-Reach : Reach decimal new (system two_open)
unfolding open_request_key
two_open-Reach =
    Reach.next (Reach.next Reach.here (Step.opens asked refl refl))
      (Step.opens other_agent refl refl)

abbrev approval : Call
approval = resolve deadline "creq-1" "alice" true none 5 "ab"

-- Nobody else is there.
abbrev Nobody : System → System → Type 0
Nobody s u = ⊥

call_in_company_example :
    let u = system (perform db decimal approval two_open) in
    Ran decimal Nobody approval (system two_open) u
    × ((id : String) (cr : ConsentRequest)
        → request_at two_open id ≡ some cr
        → Keeps id (open_key_of cr) u.contents)
    × ((id id' : String) (cr cr' : ConsentRequest)
        → request_at u.contents id ≡ some cr
        → request_at u.contents id' ≡ some cr'
        → (cr.status == consent_pending) ≡ true
        → (cr'.status == consent_pending) ≡ true
        → open_key_of cr ≡ open_key_of cr'
        → (id ≡ id') × (marker_at u.contents (open_key_of cr) ≡ some id))
unfolding open_request_key
call_in_company_example =
    call_in_company decimal db system Nobody approval two_open (db-Shares (beside Nobody approval))
      (db-Finds (beside Nobody approval)) (λ id e. rw e refl) two_open-Reach

-- The approval resolves the other request, too.
swept :
    Option.map
      (λ (cr : ConsentRequest). cr.status)
      (request_at (perform db decimal approval two_open) "creq-2")
    ≡ some "approved"
unfolding resolve_consent_request spawnly.Consent.first_uncovered_scope
swept = refl
