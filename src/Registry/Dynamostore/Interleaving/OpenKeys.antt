-- ===== src/Registry/Dynamostore/Interleaving/OpenKeys.antt =====
-- internal/registry/dynamostore/store.go: a request keeps its open key, whatever calls do.
use spawnly.Prelude.{
  ℕ, String, ◌≡◌, refl, sym, ap, ◌∙◌, inl, inr, none, some, ◌==◌, Bool-cases, eq→path,
}
use spawnly.Consent.{ConsentRequest, consent_approved}
use spawnly.Registry.Requests.{open_key_of, resolved}
use spawnly.Registry.Dynamostore.{Item, Contents, set_item}
use spawnly.Registry.Dynamostore.Keys.{sk_meta, creq_pk, open_pk}
use spawnly.Registry.Dynamostore.Consents.{edge_key_of, consent_upsert_update}
use spawnly.Registry.Dynamostore.Requests.{creq_item, open_item, resolve_item, pivot}
use spawnly.Registry.Dynamostore.Refinement.{tag}
use spawnly.Registry.Dynamostore.Interleaving.{
  System, Step, Reach, request_at, request_of, apply_update,
}
use spawnly.Registry.Dynamostore.Interleaving.Writes.{
  request_at-request, request_at-marker, request_at-other, request_of-resolve_item,
  is_elsewhere-clash,
}

-- There is a request of this id, and its open key is this one.
abbrev pub Keeps : String → String → Contents → Type 0
Keeps id key c = (cr : ConsentRequest) × (request_at c id ≡ some cr) × (open_key_of cr ≡ key)

module _ (id key : String) where
  -- A request that is written has the open key of the request that it takes the place of.
  Keeps-set :
      (c : Contents) (a : String) (i : Item) (new : ConsentRequest)
      → request_of (some i) ≡ some new
      → ((old : ConsentRequest) → request_at c a ≡ some old → open_key_of new ≡ open_key_of old)
      → Keeps id key c
      → Keeps id key (set_item (creq_pk a, sk_meta) (some i) c)
  Keeps-set c a i new at same (cr, there, e) = elim (Bool-cases (a == id)) [
    | inl q ↦ (
      new,
      request_at-request c a (some i) id ∙ rw q at,
      same cr (ap (request_at c) (eq→path a id q) ∙ there) ∙ e,
    )
    | inr q ↦ (cr, request_at-request c a (some i) id ∙ rw q there, e)
  ]

  pub Keeps-same :
      (c c' : Contents) → request_at c' id ≡ request_at c id → Keeps id key c → Keeps id key c'
  Keeps-same c c' same (cr, there, e) = (cr, same ∙ there, e)

  Keeps-new :
      (c : Contents) (i : Item) (new : ConsentRequest)
      → request_of (some i) ≡ some new
      → request_at c new.id ≡ none
      → Keeps id key c
      → Keeps id key (set_item (creq_pk new.id, sk_meta) (some i) c)
  Keeps-new c i new at free = Keeps-set c new.id i new at (λ old h. absurd (cc (h, free)))

  pub Keeps-resolved :
      (c : Contents) (a user_id status : String) (now : ℕ) (cr : ConsentRequest)
      → request_at c a ≡ some cr
      → Keeps id key c
      → Keeps id key (apply_update (pivot a user_id status now) c)
  Keeps-resolved c a user_id status now cr at =
      Keeps-set c a (resolve_item status now (c (creq_pk a, sk_meta))) (resolved cr status now)
        (request_of-resolve_item (c (creq_pk a, sk_meta)) cr status now at)
        (λ old h. ap (λ o. elim o [ none ↦ "" | some r ↦ open_key_of r ]) (sym at ∙ h))

  pub Step-Keeps :
      (stamp : ℕ → String) (s u : System)
      → Step stamp s u
      → Keeps id key s.contents
      → Keeps id key u.contents
  Step-Keeps stamp s u (Step.opens cr new won) k =
      let marker = some (open_item (open_key_of cr) cr.id) in
      let c = set_item (open_pk (open_key_of cr), sk_meta) marker s.contents in
      let same : (x : String) → request_at c x ≡ request_at s.contents x =
        request_at-marker s.contents (open_key_of cr) marker in
      Keeps-new c (creq_item stamp cr) cr refl (same cr.id ∙ new)
        (Keeps-same s.contents c (same id) k)
  Step-Keeps stamp s u (Step.opens_resolved cr new over) k =
      Keeps-new s.contents (creq_item stamp cr) cr refl new k
  Step-Keeps stamp s u (Step.resolves a user_id status now cr at over test) k =
      Keeps-resolved s.contents a user_id status now cr at k
  Step-Keeps stamp s u (Step.approves a user_id cand now grant cr at won) k =
      let c = apply_update (pivot a user_id consent_approved now) s.contents in
      let w = consent_upsert_update grant cand in
      Keeps-same c u.contents
        (request_at-other c "CON#" (edge_key_of grant) sk_meta (some (w.change (c w.key))) refl refl
          id)
        (Keeps-resolved s.contents a user_id consent_approved now cr at k)
  Step-Keeps stamp s u (Step.reads_marker at a m) k = k
  Step-Keeps stamp s u (Step.finds_stale at a cr m h over) k = k
  Step-Keeps stamp s u (Step.finds_none at a m h) k = k
  Step-Keeps stamp s u (Step.frees at a m points) k =
      Keeps-same s.contents u.contents (request_at-marker s.contents at none id) k
  Step-Keeps stamp s u (Step.elsewhere f x sk i far plain) k =
      let away = is_elsewhere-clash f far in
      Keeps-same s.contents u.contents (request_at-other s.contents (tag f) x sk i away.0 away.1 id)
        k

  pub Reach-Keeps :
      (stamp : ℕ → String) (s u : System)
      → Reach stamp s u
      → Keeps id key s.contents
      → Keeps id key u.contents
  Reach-Keeps stamp s u Reach.here k = k
  Reach-Keeps stamp s u (Reach.next {t} r step) k =
      Step-Keeps stamp t u step (Reach-Keeps stamp s t r k)
