-- ===== src/Registry/Dynamostore/Interleaving/Filing.antt =====
-- internal/registry/dynamostore/store.go: a consent request stands under the key of its id.
use spawnly.Prelude.{
  ℕ, String, ◌≡◌, refl, sym, ap, ◌∙◌, inl, inr, true, Option, none, some, ◌⧺◌, Bool-cases, eq→path,
  arith,
}
use spawnly.Consent.{ConsentRecord, ConsentRequest, consent_approved}
use spawnly.Registry.Requests.{open_key_of}
use spawnly.Registry.Dynamostore.{Item, Key, Contents, same_key, set_item}
use spawnly.Registry.Dynamostore.Keys.{sk_meta, creq_pk, open_pk}
use spawnly.Registry.Dynamostore.Consents.{regrant, consent_upsert_update}
use spawnly.Registry.Dynamostore.Requests.{creq_item, open_item, resolve_item, pivot}
use spawnly.Registry.Dynamostore.Refinement.{tag}
use spawnly.Registry.Dynamostore.Interleaving.{
  System, Step, Reach, request_at, request_of, apply_update,
}
use spawnly.Registry.Dynamostore.Interleaving.Writes.{request_of-resolve_item}

abbrev pub Filed : Contents → Type 0
Filed c =
    (k : Key) (cr : ConsentRequest) → request_of (c k) ≡ some cr → k ≡ (creq_pk cr.id, sk_meta)

pub same_key→path : (k j : Key) → same_key k j ≡ true → k ≡ j
same_key→path (p, q) (p', q') h = ground (arith, eq→path p p', eq→path q q')

Filed-set :
    (c : Contents) (k : Key) (o : Option Item)
    → Filed c
    → ((cr : ConsentRequest) → request_of o ≡ some cr → k ≡ (creq_pk cr.id, sk_meta))
    → Filed (set_item k o c)
Filed-set c k o filed own j cr h = elim (Bool-cases (same_key k j)) [
  | inl e ↦ sym (same_key→path k j e) ∙ own cr (rw e at h)
  | inr e ↦ filed j cr (rw e at h)
]

Filed-without :
    (c : Contents) (k : Key) (o : Option Item)
    → Filed c
    → request_of o ≡ none
    → Filed (set_item k o c)
Filed-without c k o filed plain = Filed-set c k o filed (λ cr h. absurd (cc (h, plain)))

Filed-opened :
    (stamp : ℕ → String) (c : Contents) (cr : ConsentRequest)
    → Filed c
    → Filed (set_item (creq_pk cr.id, sk_meta) (some (creq_item stamp cr)) c)
Filed-opened stamp c cr filed =
    Filed-set c (creq_pk cr.id, sk_meta) (some (creq_item stamp cr)) filed
      (λ cr' h. ap (λ o. elim o [ none ↦ ("", "") | some r ↦ (creq_pk r.id, sk_meta) ]) h)

Filed-resolved :
    (c : Contents) (id user_id status : String) (now : ℕ) (cr : ConsentRequest)
    → request_at c id ≡ some cr
    → Filed c
    → Filed (apply_update (pivot id user_id status now) c)
Filed-resolved c id user_id status now cr at filed =
    let k : Key = (creq_pk id, sk_meta) in
    let i = resolve_item status now (c k) in
    Filed-set c k (some i) filed (λ cr' h.
      filed k cr at
      ∙ ap (λ o. elim o [ none ↦ ("", "") | some r ↦ (creq_pk r.id, sk_meta) ])
          (sym (request_of-resolve_item (c k) cr status now at) ∙ h))

regrant-plain :
    (grant : ConsentRecord) (cand : String) (o : Option Item)
    → request_of (some (regrant grant cand o)) ≡ none
regrant-plain grant cand none = refl
regrant-plain grant cand (some i) = refl

Step-Filed :
    (stamp : ℕ → String) (s u : System) → Step stamp s u → Filed s.contents → Filed u.contents
Step-Filed stamp s u (Step.opens cr new won) f =
    let k : Key = (open_pk (open_key_of cr), sk_meta) in
    let o = some (open_item (open_key_of cr) cr.id) in
    Filed-opened stamp (set_item k o s.contents) cr (Filed-without s.contents k o f refl)
Step-Filed stamp s u (Step.opens_resolved cr new over) f = Filed-opened stamp s.contents cr f
Step-Filed stamp s u (Step.resolves a user_id status now cr at over test) f =
    Filed-resolved s.contents a user_id status now cr at f
Step-Filed stamp s u (Step.approves a user_id cand now grant cr at won) f =
    let c = apply_update (pivot a user_id consent_approved now) s.contents in
    let w = consent_upsert_update grant cand in
    Filed-without c w.key (some (w.change (c w.key)))
      (Filed-resolved s.contents a user_id consent_approved now cr at f)
      (regrant-plain grant cand (c w.key))
Step-Filed stamp s u (Step.reads_marker at a m) f = f
Step-Filed stamp s u (Step.finds_stale at a cr m h over) f = f
Step-Filed stamp s u (Step.finds_none at a m h) f = f
Step-Filed stamp s u (Step.frees at a m points) f =
    Filed-without s.contents (open_pk at, sk_meta) none f refl
Step-Filed stamp s u (Step.elsewhere g x sk i far plain) f =
    Filed-without s.contents (tag g ⧺ x, sk) i f plain

pub Reach-Filed :
    (stamp : ℕ → String) (s u : System) → Reach stamp s u → Filed s.contents → Filed u.contents
Reach-Filed stamp s u Reach.here f = f
Reach-Filed stamp s u (Reach.next {t} r step) f =
    Step-Filed stamp t u step (Reach-Filed stamp s t r f)
