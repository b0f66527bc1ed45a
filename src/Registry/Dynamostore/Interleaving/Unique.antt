-- ===== src/Registry/Dynamostore/Interleaving/Unique.antt =====
-- internal/registry/dynamostore/store.go: concurrent calls leave at most one pending request under a key.
use mathlib.Core.List.{Memᴰ}
use spawnly.Prelude.{
  ℕ, String, ◌≡◌, refl, ap, ◌∙◌, true, false, Option, none, some, [], ◌∷◌, ◌==◌, ◌⧺◌, if◌then◌else◌,
  arith, eq_refl,
}
use spawnly.Consent.{ConsentRequest, consent_pending, consent_approved}
use spawnly.Registry.Requests.{open_key_of, resolved}
use spawnly.Registry.Dynamostore.{Item, set_item, passes, commit}
use spawnly.Registry.Dynamostore.Keys.{sk_meta, creq_pk, open_pk, clash}
use spawnly.Prelude.Text.{codes}
use spawnly.Registry.Dynamostore.Consents.{edge_key_of, consent_upsert_update}
use spawnly.Registry.Dynamostore.Requests.{
  resolve_item, creq_item, open_item, opening, pivot, points_at,
}
use spawnly.Registry.Dynamostore.Refinement.{tag}
use spawnly.Registry.Dynamostore.Interleaving.{
  System, Step, Reach, request_of, marker_of, request_at, marker_at, apply_update,
}
use spawnly.Registry.Dynamostore.Interleaving.Keeping.{
  Kept, Kept-opened, Kept-resolved, Kept-freed, Kept-elsewhere, Kept-seen, Kept-due, Kept-unique,
  is_pending, is_over, Pairs,
}
use spawnly.Registry.Dynamostore.Interleaving.Writes.{
  request_at-request, marker_at-request, request_at-marker, marker_at-marker, request_at-other,
  marker_at-other, request_of-resolve_item, missing-none, points_at-marker_of, is_elsewhere-clash,
}

abbrev pub Sound : System → Type 0
Sound s = Kept (request_at s.contents) (marker_at s.contents) s.seen s.due

module _ (s : System) (kept : Sound s) where
  -- The five writes.
  opens-Sound :
      (stamp : ℕ → String) (cr : ConsentRequest)
      → request_at s.contents cr.id ≡ none
      → passes (opening stamp (open_key_of cr) cr) s.contents ≡ true
      → Sound (record s { contents = commit (opening stamp (open_key_of cr) cr) s.contents })
  opens-Sound stamp cr new won =
      let key = open_key_of cr in
      let c1 = set_item (open_pk key, sk_meta) (some (open_item key cr.id)) s.contents in
      let c2 = set_item (creq_pk cr.id, sk_meta) (some (creq_item stamp cr)) c1 in
      Kept-opened (request_at s.contents) (request_at c2) (marker_at s.contents) (marker_at c2)
        s.seen s.due kept cr.id cr new
        (ap marker_of (missing-none (s.contents (open_pk key, sk_meta)) (ground arith)))
        (λ id. rw (
          request_at-request c1 cr.id (some (creq_item stamp cr)) id,
          request_at-marker s.contents key (some (open_item key cr.id)) id,
        ))
        (λ k. rw (
          marker_at-request c1 cr.id (some (creq_item stamp cr)) k,
          marker_at-marker s.contents key (some (open_item key cr.id)) k,
        ))

  -- A request of the table is replaced by one that is over.
  request-Sound :
      (id : String) (i : Item) (cr : ConsentRequest)
      → request_of (some i) ≡ some cr
      → is_pending cr ≡ false
      → Sound (record s { contents = set_item (creq_pk id, sk_meta) (some i) s.contents })
  request-Sound id i cr at over =
      let c = set_item (creq_pk id, sk_meta) (some i) s.contents in
      Kept-resolved (request_at s.contents) (request_at c) (marker_at s.contents) (marker_at c)
        s.seen s.due kept id cr over
        (λ x.
          request_at-request s.contents id (some i) x
          ∙ ap (λ z. if id == x then z else request_at s.contents x) at)
        (marker_at-request s.contents id (some i))

  elsewhere-Sound :
      (t x sk : String) (i : Option Item)
      → clash (codes t) (codes "CREQ#") ≡ true
      → clash (codes t) (codes "OPEN#") ≡ true
      → Sound (record s { contents = set_item (t ⧺ x, sk) i s.contents })
  elsewhere-Sound t x sk i far away =
      let c = set_item (t ⧺ x, sk) i s.contents in
      Kept-elsewhere (request_at s.contents) (request_at c) (marker_at s.contents) (marker_at c)
        s.seen s.due kept (request_at-other s.contents t x sk i far away)
        (marker_at-other s.contents t x sk i far away)

  frees-Sound :
      (key id : String)
      → Memᴰ (key, id) s.due
      → points_at id (s.contents (open_pk key, sk_meta)) ≡ true
      → Sound (record s { contents = set_item (open_pk key, sk_meta) none s.contents })
  frees-Sound key id owed points =
      let c = set_item (open_pk key, sk_meta) none s.contents in
      Kept-freed (request_at s.contents) (request_at c) (marker_at s.contents) (marker_at c) s.seen
        s.due kept key id owed (points_at-marker_of id (s.contents (open_pk key, sk_meta)) points)
        (request_at-marker s.contents key none) (marker_at-marker s.contents key none)

-- A request that is over stays where only its marker or a consent is written.
module _ (s : System) (kept : Sound s) (key id : String) where
  due-Sound :
      is_over (request_at s.contents id) ≡ true → Sound (record s { due = (key, id) ∷ s.due })
  due-Sound = Kept-due (request_at s.contents) (marker_at s.contents) s.seen s.due kept key id

  seen-Sound : marker_at s.contents key ≡ some id → Sound (record s { seen = (key, id) ∷ s.seen })
  seen-Sound = Kept-seen (request_at s.contents) (marker_at s.contents) s.seen s.due kept key id

module _ (stamp : ℕ → String) (s : System) (kept : Sound s) where
  -- A pivot, and the removal that its call then owes.
  pivot-Sound :
      (id user_id status : String) (now : ℕ) (cr : ConsentRequest)
      → request_at s.contents id ≡ some cr
      → (status == consent_pending) ≡ false
      → Sound (record s { contents = apply_update (pivot id user_id status now) s.contents })
        × (is_over (request_at (apply_update (pivot id user_id status now) s.contents) id) ≡ true)
  pivot-Sound id user_id status now cr at over =
      let i = resolve_item status now (s.contents (creq_pk id, sk_meta)) in
      let e = request_of-resolve_item (s.contents (creq_pk id, sk_meta)) cr status now at in
      (
        request-Sound s kept id i (resolved cr status now) e over,
        rw (request_at-request s.contents id (some i) id, eq_refl id, e, over) refl,
      )

  Step-Sound : (s' : System) → Step stamp s s' → Sound s'
  Step-Sound s' (Step.opens cr new won) = opens-Sound s kept stamp cr new won
  Step-Sound s' (Step.opens_resolved cr new over) =
      request-Sound s kept cr.id (creq_item stamp cr) cr refl over
  Step-Sound s' (Step.resolves id user_id status now cr at over test) =
      let p = pivot-Sound id user_id status now cr at over in
      due-Sound (record s { contents = apply_update (pivot id user_id status now) s.contents }) p.0
        (open_key_of cr) id p.1
  Step-Sound s' (Step.approves id user_id cand now grant cr at won) =
      let p = pivot-Sound id user_id consent_approved now cr at refl in
      let c = apply_update (pivot id user_id consent_approved now) s.contents in
      let u = consent_upsert_update grant cand in
      let i = some (u.change (c u.key)) in
      due-Sound (record s { contents = apply_update u c })
        (elsewhere-Sound (record s { contents = c }) p.0 "CON#" (edge_key_of grant) sk_meta i refl
          refl)
        (open_key_of cr) id
        (ap is_over (request_at-other c "CON#" (edge_key_of grant) sk_meta i refl refl id) ∙ p.1)
  Step-Sound s' (Step.reads_marker key id at) = seen-Sound s kept key id at
  Step-Sound s' (Step.finds_stale key id cr m at over) =
      due-Sound s kept key id (rw at (rw over refl))
  Step-Sound s' (Step.finds_none key id m at) = absurd (cc (kept.known key id m, at))
  Step-Sound s' (Step.frees key id owed points) = frees-Sound s kept key id owed points
  Step-Sound s' (Step.elsewhere f x sk i far plain) =
      let away = is_elsewhere-clash f far in elsewhere-Sound s kept (tag f) x sk i away.0 away.1

pub Reach-Sound : (stamp : ℕ → String) (s s' : System) → Sound s → Reach stamp s s' → Sound s'
Reach-Sound stamp s s' kept Reach.here = kept
Reach-Sound stamp s s' kept (Reach.next {t} r step) =
    Step-Sound stamp t (Reach-Sound stamp s t kept r) s' step

nowhere : (ps : Pairs) (p : String × String) {P : Type 0} → ps ≡ [] → Memᴰ p ps → P
nowhere [] p e m = elim m [ ]
nowhere (q ∷ ps) p e m = cc e

-- In every state that concurrent calls reach from a table without requests and markers, two pending
-- requests of one open key have the same id, and the key's marker holds that id.
pub one_open_request :
    (stamp : ℕ → String) (s s' : System)
    → ((id : String) → request_at s.contents id ≡ none)
    → ((key : String) → marker_at s.contents key ≡ none)
    → s.seen ≡ []
    → s.due ≡ []
    → Reach stamp s s'
    → (id id' : String) (cr cr' : ConsentRequest) → request_at s'.contents id ≡ some cr
    → request_at s'.contents id' ≡ some cr'
    → (cr.status == consent_pending) ≡ true
    → (cr'.status == consent_pending) ≡ true
    → open_key_of cr ≡ open_key_of cr'
    → (id ≡ id') × (marker_at s'.contents (open_key_of cr) ≡ some id)
one_open_request stamp s s' no_request no_marker no_seen no_due r id id' cr cr' h h' p p' e =
    let start : Sound s = record {
      marked = λ x c q _. absurd (cc (q, no_request x));
      backed = λ k x q. absurd (cc (q, no_marker k));
      known = λ k x m. nowhere s.seen (k, x) no_seen m;
      finished = λ k x m. nowhere s.due (k, x) no_due m;
    } in
    let kept = Reach-Sound stamp s s' start r in
    (
      Kept-unique (request_at s'.contents) (marker_at s'.contents) s'.seen s'.due kept id id' cr cr'
          h h' p p' e,
      kept.marked id cr h p,
    )
