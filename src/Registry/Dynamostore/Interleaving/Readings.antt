-- ===== src/Registry/Dynamostore/Interleaving/Readings.antt =====
-- internal/registry/dynamostore/store.go: what the items say that a call has read.
use mathlib.Core.List.{Memᴰ}
use spawnly.Prelude.{
  String, ◌≡◌, refl, sym, ap, ◌∙◌, subst, ◌⊎◌, inl, inr, true, Option, none, some, List, [], ◌∷◌,
}
use spawnly.Consent.{ConsentRequest}
use spawnly.Registry.Dynamostore.{
  Item, Body, template, agent, event, org, consent, request, marker, Answer, DbError, returned,
  failed,
}
use spawnly.Registry.Dynamostore.Items.{read_item, read_items, add}
use spawnly.Registry.Dynamostore.Requests.{as_request, as_marker, is_pending_of}
use spawnly.Registry.Dynamostore.Interleaving.{request_of, marker_of}

pub read_item-request_of :
    (i : Option Item) (o : Option ConsentRequest)
    → read_item as_request i ≡ returned o
    → request_of i ≡ o
read_item-request_of none o h = cc h
read_item-request_of (some i) o h = of_body i.body h
  where
    of_body :
        (b : Body)
        → read_item as_request (some (record i { body = b })) ≡ returned o
        → request_of (some (record i { body = b })) ≡ o
    of_body (request cr) h = cc h
    of_body (marker id) h = cc h
    of_body (template t) h = cc h
    of_body (agent r) h = cc h
    of_body (event e) h = cc h
    of_body (org x) h = cc h
    of_body (consent c) h = cc h

pub read_item-marker_of :
    (i : Option Item) (o : Option String) → read_item as_marker i ≡ returned o → marker_of i ≡ o
read_item-marker_of none o h = cc h
read_item-marker_of (some i) o h = of_body i.body h
  where
    of_body :
        (b : Body)
        → read_item as_marker (some (record i { body = b })) ≡ returned o
        → marker_of (some (record i { body = b })) ≡ o
    of_body (request cr) h = cc h
    of_body (marker id) h = cc h
    of_body (template t) h = cc h
    of_body (agent r) h = cc h
    of_body (event e) h = cc h
    of_body (org x) h = cc h
    of_body (consent c) h = cc h

added :
    (a : Answer ConsentRequest) (r : Answer (List ConsentRequest)) (crs : List ConsentRequest)
    → add {0} as_request a r ≡ returned crs
    → (x : ConsentRequest) × (xs : List ConsentRequest) × (a ≡ returned x)
      × (r ≡ returned xs)
      × (crs ≡ x ∷ xs)
added (returned x) (returned xs) crs h = (x, xs, refl, refl, cc h)
added (returned x) (failed e) crs h = cc h
added (failed e) r crs h = cc h

-- The requests that were read with the items of a query.
pub read_items-Memᴰ :
    (is : List Item) (crs : List ConsentRequest)
    → read_items as_request is ≡ returned crs
    → (cr : ConsentRequest) → Memᴰ cr crs
    → (i : Item) × Memᴰ i is × (request_of (some i) ≡ some cr)
read_items-Memᴰ [] crs h cr m = nothing crs (cc h) cr m
  where
    nothing :
        (crs : List ConsentRequest)
        → crs ≡ []
        → (cr : ConsentRequest) → Memᴰ cr crs
        → (i : Item) × Memᴰ i [] × (request_of (some i) ≡ some cr)
    nothing [] e cr m = elim m [ ]
    nothing (x ∷ xs) e cr m = cc e
read_items-Memᴰ (i ∷ is) crs h cr m =
    let (x, xs, f, g, e) = added (as_request i.body) (read_items as_request is) crs h in
    either x xs f g (subst (Memᴰ cr) e m) (read_items-Memᴰ is xs g)
  where
    either :
        (x : ConsentRequest) (xs : List ConsentRequest)
        → as_request i.body ≡ returned x
        → read_items as_request is ≡ returned xs
        → Memᴰ cr (x ∷ xs)
        → ((cr' : ConsentRequest)
            → Memᴰ cr' xs
            → (i' : Item) × Memᴰ i' is × (request_of (some i') ≡ some cr'))
        → (i' : Item) × Memᴰ i' (i ∷ is) × (request_of (some i') ≡ some cr)
    either x xs f g (Memᴰ.head e) rest = (
      i,
      Memᴰ.head refl,
      read_item-request_of (some i) (some x) (rw (f, read_item) refl) ∙ ap some (sym e),
    )
    either x xs f g (Memᴰ.tail m') rest = let (i', at, r) = rest cr m' in (i', Memᴰ.tail at, r)

pub Answer-cases {ℓ} :
    {A : Type ℓ} (a : Answer A) → ((x : A) × (a ≡ returned x)) ⊎ ((e : DbError) × (a ≡ failed e))
Answer-cases (returned x) = inl (x, refl)
Answer-cases (failed e) = inr (e, refl)

pub pending_request :
    (user_id : String) (o : Option Item)
    → is_pending_of user_id o ≡ true
    → (cr : ConsentRequest) × (request_of o ≡ some cr)
pending_request user_id none h = cc h
pending_request user_id (some i) h = of_body i.body h
  where
    of_body :
        (b : Body)
        → is_pending_of user_id (some (record i { body = b })) ≡ true
        → (cr : ConsentRequest) × (request_of (some (record i { body = b })) ≡ some cr)
    of_body (request cr) h = (cr, refl)
    of_body (marker id) h = cc h
    of_body (template t) h = cc h
    of_body (agent r) h = cc h
    of_body (event e) h = cc h
    of_body (org x) h = cc h
    of_body (consent c) h = cc h
