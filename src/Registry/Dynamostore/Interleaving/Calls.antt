-- ===== src/Registry/Dynamostore/Interleaving/Calls.antt =====
-- internal/registry/dynamostore/store.go: the parts of a call on a shared table.
use mathlib.Core.List.{Memᴰ}
use spawnly.Prelude.{
  ℕ, String, ◌≡◌, refl, sym, subst, ◌⊎◌, inl, inr, Bool, true, false, Option, none, some, ◌∷◌, ◌==◌,
  if◌then◌else◌, Bool-cases,
}
use spawnly.Consent.{ConsentRequest, consent_pending}
use spawnly.Registry.Requests.{open_key_of}
use spawnly.Registry.Dynamostore.{
  Item, Key, Contents, DbError, Answer, Service, returned, failed, set_item, then_or,
  is_cond_failed,
}
use spawnly.Registry.Dynamostore.Keys.{sk_meta, creq_pk, open_pk}
use spawnly.Registry.Dynamostore.Items.{read_item}
use spawnly.Registry.Dynamostore.Requests.{
  as_request, pivot, points_at, read_request, delete_open_marker_if, free_open_marker,
}
use spawnly.Registry.Dynamostore.Interleaving.{System, Reach, request_at, apply_update}
use spawnly.Registry.Dynamostore.Interleaving.Keeping.{Pairs}
use spawnly.Registry.Dynamostore.Interleaving.OpenKeys.{Keeps, Reach-Keeps}
use spawnly.Registry.Dynamostore.Interleaving.Sharing.{
  Company, Moves-Reach, resolves, frees, Between, Ends, Shares,
}
use spawnly.Registry.Dynamostore.Interleaving.Running.{Holds, Holds-Moves}
use spawnly.Registry.Dynamostore.Interleaving.Accesses.{Holds-frees, Holds-resolves}
use spawnly.Registry.Dynamostore.Interleaving.Readings.{read_item-request_of}

-- Goes on from what a call answered.
pub then_or_cases {ℓ κ λ'} :
    {A : Type ℓ} {B : Type κ} {T : Type 0} (P : Answer B × T → Type λ') (m : Answer A × T)
    (failure : DbError → T → Answer B × T) (go_on : A → T → Answer B × T)
    → ((e : DbError) → m.0 ≡ failed e → P (failure e m.1))
    → ((a : A) → m.0 ≡ returned a → P (go_on a m.1))
    → P (then_or m failure go_on)
then_or_cases P (returned a, t) failure go_on f g = g a refl
then_or_cases P (failed e, t) failure go_on f g = f e refl

module _ (stamp : ℕ → String) (company : Company) {T : Type 0} (db : Service T)
    (system : T → System) (shares : Shares stamp company db system) (s0 : System) where
  -- The tables that this call reaches are reached by steps.
  abbrev pub At : Pairs → Pairs → T → Type 0
  At seen due t = Holds stamp company s0 seen due (system t)

  -- What a read of a request says.
  abbrev pub Found : Bool → String → System → Option ConsentRequest → Type 0
  Found consistent id u o =
      (v : System) × Reach stamp v u × (consistent ≡ true → v ≡ u) × (request_at v.contents id ≡ o)

  pub read_request_lem :
      (b : Bool) (id : String) (t : T)
      → let m = read_request db b id t in
        Between stamp company (system t) (system m.1)
        × ((o : Option ConsentRequest) → m.0 ≡ returned o → Found b id (system m.1) o)
  unfolding read_request
  read_request_lem b id t =
      let k : Key = (creq_pk id, sk_meta) in
      let g = db.get_item b k t in
      let (between, out) = shares.gets b k t in
      let P : Answer (Option ConsentRequest) × T → Type 0 = λ m.
        Between stamp company (system t) (system m.1)
        × ((o : Option ConsentRequest) → m.0 ≡ returned o → Found b id (system m.1) o) in
      then_or_cases P g (λ e s. (failed e, s)) (λ i s1. (read_item as_request i, s1))
        (λ e f. (between, λ o h. absurd (cc h)))
        (λ i f. elim out [
          | inl (e, f') ↦ absurd (cc (f, f'))
          | inr (v, r, now, f') ↦
              let same : i ≡ v.contents k = cc (f, f') in
              (between, λ o h. (v, r, now, read_item-request_of (v.contents k) o (rw (← same) h)))
        ])

  -- A request that was found has its open key from then on.
  pub Found-Keeps :
      (b : Bool) (id : String) (u : System) (cr : ConsentRequest)
      → Found b id u (some cr)
      → Keeps id (open_key_of cr) u.contents
  Found-Keeps b id u cr (v, r, now, at) = Reach-Keeps id (open_key_of cr) stamp v u r (cr, at, refl)

  module _ (seen due : Pairs) where
    At-Between :
        (t : T) (u : System)
        → At seen due t
        → Between stamp company (system t) u
        → Holds stamp company s0 seen due u
    At-Between t u h b = Holds-Moves stamp company s0 seen due (system t) u b.0 h

    -- A write that is a step where it takes place.
    pub write_lem {ℓ} :
        {A : Type ℓ} (m : Answer A × T) (t : T) (test : Contents → Bool)
        (change : Contents → Contents) (due' : Pairs)
        → At seen due t
        → Ends stamp company system m (system t) test change
        → ((u : System)
            → Between stamp company (system t) u
            → Holds stamp company s0 seen due u
            → test u.contents ≡ true
            → Holds stamp company s0 seen due' (record u { contents = change u.contents }))
        → (At seen due m.1 ⊎ At seen due' m.1) × ((a : A) → m.0 ≡ returned a → At seen due' m.1)
    write_lem m t test change due' h (inl (e, f, b)) step =
        (inl (At-Between t (system m.1) h b), λ a f'. absurd (cc (f, f')))
    write_lem m t test change due' h (inr (u, b, won, left, answer)) step =
        let done =
          subst (Holds stamp company s0 seen due') (sym left) (step u b (At-Between t u h b) won) in
        (inr done, λ a f. done)

    pub At-less : (p : String × String) (t : T) → At seen (p ∷ due) t → At seen due t
    At-less p t (σ, δ, run, c, d) = (σ, δ, run, c, λ q m. d q (Memᴰ.tail m))

    -- The pivot of a request whose open key is known.
    pub pivot_lem :
        (id user_id status key : String) (now : ℕ) (t : T)
        → company.may (resolves id user_id status)
        → At seen due t
        → Keeps id key (system t).contents
        → (status == consent_pending) ≡ false
        → let m = db.update_item (pivot id user_id status now) t in
          At seen due m.1 × ((a : Item) → m.0 ≡ returned a → At seen ((key, id) ∷ due) m.1)
    pivot_lem id user_id status key now t may h kept over =
        let p = pivot id user_id status now in
        let m = db.update_item p t in
        let (either, done) =
          write_lem m t (λ c. p.test (c p.key)) (apply_update p) ((key, id) ∷ due) h
            (shares.updates p t)
            (λ u b at test.
              Holds-resolves stamp company s0 seen due u at key id user_id now
                (Reach-Keeps id key stamp (system t) u (Moves-Reach stamp company (system t) u b.0)
                  kept)
                status may over test) in
        (elim either [ inl a ↦ a | inr a ↦ At-less (key, id) m.1 a ], done)

    -- The removal of a marker that this call owes.
    pub delete_open_marker_if_lem :
        (key id : String) (t : T)
        → company.may (frees key id)
        → At seen due t
        → ((u : System)
            → Between stamp company (system t) u
            → points_at id (u.contents (open_pk key, sk_meta)) ≡ true
            → Memᴰ (key, id) due)
        → At seen due (delete_open_marker_if db key id t).1
    unfolding delete_open_marker_if is_cond_failed
    delete_open_marker_if_lem key id t may h owed =
        let k : Key = (open_pk key, sk_meta) in
        let m = db.delete_item k (points_at id) t in
        let (either, done) =
          write_lem m t (λ c. points_at id (c k)) (set_item k none) due h
            (shares.deletes k (points_at id) t)
            (λ u b at points.
              Holds-frees stamp company s0 seen due u at key id may (owed u b points) points) in
        let left : At seen due m.1 = elim either [ inl a ↦ a | inr a ↦ a ] in
        then_or_cases (λ q. At seen due q.1) m
          (λ e s1. if is_cond_failed e then (returned tt, s1) else (failed e, s1))
          (λ _ s1. (returned tt, s1))
          (λ e f. elim (Bool-cases (is_cond_failed e)) [ inl c ↦ rw c left | inr c ↦ rw c left ])
          (λ a f. left)

    pub free_open_marker_lem :
        (key id : String) (t : T)
        → company.may (frees key id)
        → At seen due t
        → Memᴰ (key, id) due
        → At seen due (free_open_marker db key id t)
    unfolding free_open_marker
    free_open_marker_lem key id t may h m = delete_open_marker_if_lem key id t may h (λ u b p. m)
