-- ===== src/Registry/Dynamostore/Interleaving/Opening.antt =====
-- internal/registry/dynamostore/store.go: `CreateConsentRequest` on a shared table.
use mathlib.Core.List.{Memᴰ}
use spawnly.Prelude.{
  ℕ, String, ◌≡◌, refl, sym, ap, ◌∙◌, subst, ◌⊎◌, inl, inr, Bool, true, Option, none, some, [], ◌∷◌,
  ◌==◌, if◌then◌else◌, Bool-cases,
}
use spawnly.Consent.{ConsentRequest, consent_pending}
use spawnly.Registry.Dynamostore.{Key, Answer, Service, returned, failed, then_, is_cond_failed}
use spawnly.Registry.Dynamostore.Keys.{sk_meta, open_pk}
use spawnly.Registry.Dynamostore.Items.{read_item}
use spawnly.Registry.Dynamostore.Requests.{
  as_marker, points_at, read_request, read_open_request, delete_open_marker_if, after_marker,
}
use spawnly.Registry.Dynamostore.Interleaving.{System, request_at, marker_at}
use spawnly.Registry.Dynamostore.Interleaving.Keeping.{Pairs}
use spawnly.Registry.Dynamostore.Interleaving.Writes.{request_at-marker, points_at-marker_of}
use spawnly.Registry.Dynamostore.Interleaving.Unique.{Sound, Reach-Sound}
use spawnly.Registry.Dynamostore.Interleaving.Sharing.{
  Company, reads, finds, frees, Fresh, Between, Shares, Between-trans,
}
use spawnly.Registry.Dynamostore.Interleaving.Running.{Holds-Moves, Holds-Reach}
use spawnly.Registry.Dynamostore.Interleaving.Accesses.{Holds-seen, Holds-stale, Holds-missing}
use spawnly.Registry.Dynamostore.Interleaving.Readings.{read_item-marker_of}
use spawnly.Registry.Dynamostore.Interleaving.Calls.{
  then_or_cases, At, Found, read_request_lem, delete_open_marker_if_lem,
}

module _ (stamp : ℕ → String) (company : Company) {T : Type 0} (db : Service T)
    (system : T → System) (shares : Shares stamp company db system) (s0 : System) where
  abbrev On : Pairs → Pairs → T → Type 0
  On = At stamp company db system shares s0

  -- The call has ended.
  abbrev pub End {ℓ} : {A : Type ℓ} → Answer A × T → Type 0
  End m = On [] [] m.1

  pub At-End : (seen due : Pairs) (t : T) → On seen due t → On [] [] t
  At-End seen due t (σ, δ, run, c, d) = (σ, δ, run, (λ q m. elim m [ ]), (λ q m. elim m [ ]))

  -- What a call that opens requests of this key does to its marker.
  abbrev pub MayOpen : String → Type 0
  MayOpen key =
      company.may (reads key)
      × ((id : String) → company.may (finds key id))
      × ((id : String) → company.may (frees key id))

  module _ (key : String) (allowed : MayOpen key) where
    -- The request of a marker: there was no marker, or its request is this.
    abbrev pub Met : Pairs → Pairs → T → Option ConsentRequest × String → Type 0
    Met seen due t (o, id) =
        ((id ≡ "") × (o ≡ none) × On seen due t)
        ⊎ (On ((key, id) ∷ seen) due t
            × Found stamp company db system shares s0 true id (system t) o)

    module _ (seen due : Pairs) (t : T) where
      abbrev pub Reads : Answer (Option ConsentRequest × String) × T → Type 0
      Reads m =
          Between stamp company (system t) (system m.1)
          × ((p : Option ConsentRequest × String) → m.0 ≡ returned p → Met seen due m.1 p)

      -- What follows the read of the marker.
      marker_read :
          (o : Option String) (t1 : T)
          → Between stamp company (system t) (system t1)
          → On seen due t1
          → marker_at (system t1).contents key ≡ o
          → Reads (elim o [
            | none ↦ (returned (none, ""), t1)
            | some at ↦ then_ (read_request db true at t1) (λ cr s3. (returned (cr, at), s3))
          ])
      marker_read none t1 b h at = (b, λ p q. subst (Met seen due t1) (cc q) (inl (refl, refl, h)))
      marker_read (some id) t1 b h at =
          let (b', found) = read_request_lem stamp company db system shares s0 true id t1 in
          let m = read_request db true id t1 in
          let b2 = Between-trans stamp company (system t) (system t1) (system m.1) b b' in
          let p : String × String = (key, id) in
          then_or_cases Reads m _ _ (λ e f. (b2, λ p q. absurd (cc q)))
            (λ o f. (
              b2,
              λ p' q. subst (Met seen due m.1) (cc q) (
                  inr (
                    Holds-Moves stamp company s0 (p ∷ seen) due (system t1) (system m.1) b'.0
                        (Holds-seen stamp company s0 seen due (system t1) h key id allowed.0 at),
                    found o f,
                  )),
            ))

    pub read_open_request_lem :
        (seen due : Pairs) (t : T) → On seen due t → Reads seen due t (read_open_request db key t)
    unfolding read_open_request
    read_open_request_lem seen due t h =
        let k : Key = (open_pk key, sk_meta) in
        let g = db.get_item true k t in
        let (between, out) = shares.gets true k t in
        let h1 = Holds-Moves stamp company s0 seen due (system t) (system g.1) between.0 h in
        then_or_cases (Reads seen due t) g _ _ (λ e f. (between, λ p q. absurd (cc q)))
          (λ i f. elim out [
            | inl (e, f') ↦ absurd (cc (f, f'))
            | inr (v, r, now, f') ↦
                let same : i ≡ v.contents k = cc (f, f') in
                let here : i ≡ (system g.1).contents k = same ∙ ap (λ u. u.contents k) (now refl) in
                then_or_cases (Reads seen due t) (read_item as_marker i, g.1) _ _
                  (λ e q. (between, λ p x. absurd (cc x)))
                  (λ o q.
                    marker_read seen due t o g.1 between h1
                      (read_item-marker_of ((system g.1).contents k) o (rw (← here) q)))
          ])

    -- A marker is removed only if its request is over.
    removal_lem :
        (id : String) (t : T)
        → Fresh company (system t)
        → Fresh company (system (delete_open_marker_if db key id t).1)
    unfolding delete_open_marker_if is_cond_failed
    removal_lem id t fresh =
        let k : Key = (open_pk key, sk_meta) in
        let m = db.delete_item k (points_at id) t in
        let left : Fresh company (system m.1) = elim (shares.deletes k (points_at id) t) [
          | inl (e, f, b) ↦ b.1 fresh
          | inr (u, b, won, at, answer) ↦ λ x mine.
              ap (λ z. request_at z.contents x) at
              ∙ request_at-marker u.contents key none x
              ∙ b.1 fresh x mine
        ] in
        then_or_cases (λ (q : Answer {0} Unit × T). Fresh company (system q.1)) m
          (λ e s1. if is_cond_failed e then (returned tt, s1) else (failed e, s1))
          (λ _ s1. (returned tt, s1))
          (λ e f. elim (Bool-cases (is_cond_failed e)) [ inl c ↦ rw c left | inr c ↦ rw c left ])
          (λ a f. left)

    module _ (start : Sound s0) (nameless : company.own "") where
      -- No marker holds the empty id, since no request has it.
      unmarked :
          (seen due : Pairs) (t : T) (u : System)
          → On seen due t
          → Fresh company (system t)
          → Between stamp company (system t) u
          → points_at "" (u.contents (open_pk key, sk_meta)) ≡ true
          → ⊥
      unmarked seen due t u h fresh (r, keep) points =
          let (σ, δ, path) =
            Holds-Reach stamp company s0 seen due u
              (Holds-Moves stamp company s0 seen due (system t) u r h) in
          let sound = Reach-Sound stamp s0 (record u { seen = σ; due = δ }) start path in
          let backed =
            sound.backed key ""
              (points_at-marker_of "" (u.contents (open_pk key, sk_meta)) points) in
          cc (backed, keep fresh "" nameless)

      -- The removal of a stale marker, and the next round.
      next_round :
          (seen due : Pairs) (id : String) (t : T) (again : T → Answer (ConsentRequest × Bool) × T)
          → On seen due t
          → ((u : System)
              → Between stamp company (system t) u
              → points_at id (u.contents (open_pk key, sk_meta)) ≡ true
              → Memᴰ (key, id) due)
          → Fresh company (system t)
          → ((t' : T) → On seen due t' → Fresh company (system t') → End (again t'))
          → End (then_ (delete_open_marker_if db key id t) (λ _ s1. again s1))
      next_round seen due id t again h owed fresh go_on =
          let m = delete_open_marker_if db key id t in
          let left =
            delete_open_marker_if_lem stamp company db system shares s0 seen due key id t
              (allowed.2 id) h owed in
          then_or_cases End m _ _ (λ e f. At-End seen due m.1 left)
            (λ a f. go_on m.1 left (removal_lem id t fresh))

      pub after_marker_lem :
          (seen due : Pairs) (t : T) (o : Option ConsentRequest) (id : String)
          (again : T → Answer (ConsentRequest × Bool) × T)
          → Met seen due t (o, id)
          → Fresh company (system t)
          → ((seen' due' : Pairs) (t' : T)
              → On seen' due' t'
              → Fresh company (system t')
              → End (again t'))
          → End (after_marker db key again (o, id) t)
      unfolding after_marker
      after_marker_lem seen due t none id again (inl (e, x, h)) fresh go_on =
          next_round seen due id t again h
            (λ u b points. absurd (
              unmarked seen due t u h fresh b
                (subst (λ z. points_at z (u.contents (open_pk key, sk_meta)) ≡ true) e points)))
            fresh (go_on seen due)
      after_marker_lem seen due t (some cr) id again (inl (e, x, h)) fresh go_on = absurd (cc x)
      after_marker_lem seen due t none id again (inr (h, (v, r, now, at))) fresh go_on =
          let p : String × String = (key, id) in
          let here : request_at (system t).contents id ≡ none =
            ap (λ z. request_at z.contents id) (sym (now refl)) ∙ at in
          next_round (p ∷ seen) (p ∷ due) id t again
            (Holds-missing stamp company s0 (p ∷ seen) due (system t) h key id (allowed.1 id)
              (Memᴰ.head refl) here)
            (λ u b points. Memᴰ.head refl) fresh (go_on (p ∷ seen) (p ∷ due))
      after_marker_lem seen due t (some cr) id again (inr (h, (v, r, now, at))) fresh go_on =
          let p : String × String = (key, id) in
          let here : request_at (system t).contents id ≡ some cr =
            ap (λ z. request_at z.contents id) (sym (now refl)) ∙ at in
          elim (Bool-cases (cr.status == consent_pending)) [
            | inl pending ↦ rw pending (At-End (p ∷ seen) due t h)
            | inr over ↦ rw over (
                next_round (p ∷ seen) (p ∷ due) id t again
                  (Holds-stale stamp company s0 (p ∷ seen) due (system t) h key id cr (allowed.1 id)
                    (Memᴰ.head refl) here over)
                  (λ u b points. Memᴰ.head refl) fresh (go_on (p ∷ seen) (p ∷ due)))
          ]
