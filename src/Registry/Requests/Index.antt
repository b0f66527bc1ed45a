-- ===== src/Registry/Requests/Index.antt =====
-- The two maps that the registry keeps of consent requests (cmd/registry/main.go): the predicate that
-- relates the index of open requests to the requests.
use spawnly.Prelude.{
  String, ◌≡◌, some-injective, none-ne-some, ◌∙◌, ap, sym, inl, inr, false, none, some, ◌==◌,
  eq→path, path→eq, Bool-cases,
}
use spawnly.Prelude.Assoc.{
  Map, lookup, insert, erase, lookup-insert_cases, lookup-insert_self, lookup-insert_ne,
  lookup-erase_cases, lookup-erase_ne,
}
use spawnly.Consent.{ConsentRequest, consent_pending}
use spawnly.Registry.Store.{Store}
use spawnly.Registry.Requests.{open_key_of}

-- The conditions name the two maps, so that an operation on another field keeps them as they are.
pub record Agree (requests : Map ConsentRequest) (index : Map String) : Type 0 where
  pub named : (id : String) (cr : ConsentRequest) → lookup id requests ≡ some cr → cr.id ≡ id
  pub open_is_pending :
      (key id : String)
      → lookup key index ≡ some id
      → (cr : ConsentRequest) × (lookup id requests ≡ some cr)
        × (cr.status ≡ consent_pending)
        × (open_key_of cr ≡ key)
  pub pending_is_open :
      (id : String) (cr : ConsentRequest)
      → lookup id requests ≡ some cr
      → cr.status ≡ consent_pending
      → lookup (open_key_of cr) index ≡ some id

abbrev pub IsConsistent : Store → Type 0
IsConsistent s = Agree s.consent_requests s.open_requests

module _ (m : Map ConsentRequest) (o : Map String) (h : Agree m o) (id : String)
    (cr cr' : ConsentRequest) (at : lookup id m ≡ some cr) (pending : cr.status ≡ consent_pending)
    (closed : (cr'.status == consent_pending) ≡ false) (same_id : cr'.id ≡ cr.id)
    (same_key : open_key_of cr' ≡ open_key_of cr) where
  settle_named : (j : String) (c : ConsentRequest) → lookup j (insert id cr' m) ≡ some c → c.id ≡ j
  settle_named j c e = elim (lookup-insert_cases id j cr' c m e) [
    | inl (hit, same) ↦ rw (← same, same_id, h.named id cr at) hit
    | inr (miss, old) ↦ h.named j c old
  ]

  settle_open :
      (key i : String)
      → lookup key (erase (open_key_of cr') o) ≡ some i
      → (c : ConsentRequest) × (lookup i (insert id cr' m) ≡ some c)
        × (c.status ≡ consent_pending)
        × (open_key_of c ≡ key)
  settle_open key i e =
      let (off, old) = lookup-erase_cases (open_key_of cr') key i o e in
      let (c, found, waits, keyed) = h.open_is_pending key i old in
      elim (Bool-cases (id == i)) [
        | inl hit ↦
            let same : cr ≡ c =
              some-injective (sym at ∙ ap (λ k. lookup k m) (eq→path id i hit) ∙ found) in
            cc (off, path→eq (open_key_of cr') key (same_key ∙ ap open_key_of same ∙ keyed))
        | inr miss ↦ (c, lookup-insert_ne id i cr' m miss ∙ found, waits, keyed)
      ]

  settle_pending :
      (i : String) (c : ConsentRequest)
      → lookup i (insert id cr' m) ≡ some c
      → c.status ≡ consent_pending
      → lookup (open_key_of c) (erase (open_key_of cr') o) ≡ some i
  settle_pending i c e waits = elim (lookup-insert_cases id i cr' c m e) [
    | inl (hit, same) ↦
        cc (closed, path→eq cr'.status consent_pending (ap (λ x. x.status) same ∙ waits))
    | inr (miss, old) ↦
        let there : lookup (open_key_of c) o ≡ some i = h.pending_is_open i c old waits in
        elim (Bool-cases (open_key_of cr' == open_key_of c)) [
          | inl hit ↦
              let shared : lookup (open_key_of c) o ≡ some id =
                ap (λ k. lookup k o) (sym (eq→path _ _ hit) ∙ same_key)
                ∙ h.pending_is_open id cr at pending in
              cc (miss, path→eq id i (some-injective (sym shared ∙ there)))
          | inr off ↦ lookup-erase_ne _ _ o off ∙ there
        ]
  ]

  pub settle-Agree : Agree (insert id cr' m) (erase (open_key_of cr') o)
  settle-Agree = record {
    named = settle_named;
    open_is_pending = settle_open;
    pending_is_open = settle_pending;
  }

module _ (m : Map ConsentRequest) (o : Map String) (h : Agree m o) (nid : String)
    (cr : ConsentRequest) (unused : lookup nid m ≡ none) (same_id : cr.id ≡ nid) where
  fresh_ne : (i : String) (c : ConsentRequest) → lookup i m ≡ some c → (nid == i) ≡ false
  fresh_ne i c found = elim (Bool-cases (nid == i)) [
    | inl hit ↦
        absurd (none-ne-some (sym unused ∙ ap (λ k. lookup k m) (eq→path nid i hit) ∙ found))
    | inr miss ↦ miss
  ]

  fresh_named : (j : String) (c : ConsentRequest) → lookup j (insert nid cr m) ≡ some c → c.id ≡ j
  fresh_named j c e = elim (lookup-insert_cases nid j cr c m e) [
    | inl (hit, same) ↦ rw (← same, same_id) hit
    | inr (miss, old) ↦ h.named j c old
  ]

  module _ (vacant : lookup (open_key_of cr) o ≡ none) (waits : cr.status ≡ consent_pending) where
    fresh_open :
        (key i : String)
        → lookup key (insert (open_key_of cr) nid o) ≡ some i
        → (c : ConsentRequest) × (lookup i (insert nid cr m) ≡ some c)
          × (c.status ≡ consent_pending)
          × (open_key_of c ≡ key)
    fresh_open key i e = elim (lookup-insert_cases (open_key_of cr) key nid i o e) [
      | inl (hit, same) ↦ (cr, rw (← same) (lookup-insert_self nid cr m), waits, hit)
      | inr (miss, old) ↦
          let (c, found, pending, keyed) = h.open_is_pending key i old in
          (c, lookup-insert_ne nid i cr m (fresh_ne i c found) ∙ found, pending, keyed)
    ]

    fresh_pending :
        (i : String) (c : ConsentRequest)
        → lookup i (insert nid cr m) ≡ some c
        → c.status ≡ consent_pending
        → lookup (open_key_of c) (insert (open_key_of cr) nid o) ≡ some i
    fresh_pending i c e pending = elim (lookup-insert_cases nid i cr c m e) [
      | inl (hit, same) ↦ rw (← same, ← hit) (lookup-insert_self (open_key_of cr) nid o)
      | inr (miss, old) ↦
          let there : lookup (open_key_of c) o ≡ some i = h.pending_is_open i c old pending in
          elim (Bool-cases (open_key_of cr == open_key_of c)) [
            | inl hit ↦
                absurd (none-ne-some (sym vacant ∙ ap (λ k. lookup k o) (eq→path _ _ hit) ∙ there))
            | inr off ↦ lookup-insert_ne _ _ nid o off ∙ there
          ]
    ]

    pub fresh-Agree : Agree (insert nid cr m) (insert (open_key_of cr) nid o)
    fresh-Agree = record {
      named = fresh_named;
      open_is_pending = fresh_open;
      pending_is_open = fresh_pending;
    }

  -- A new request that is not pending needs no entry in the index.
  pub resolved-Agree : (cr.status == consent_pending) ≡ false → Agree (insert nid cr m) o
  resolved-Agree closed = record {
    named = fresh_named;
    open_is_pending = λ key i e.
        let (c, found, pending, keyed) = h.open_is_pending key i e in
        (c, lookup-insert_ne nid i cr m (fresh_ne i c found) ∙ found, pending, keyed);
    pending_is_open = λ i c e pending. elim (lookup-insert_cases nid i cr c m e) [
      | inl (hit, same) ↦
          cc (closed, path→eq cr.status consent_pending (ap (λ x. x.status) same ∙ pending))
      | inr (miss, old) ↦ h.pending_is_open i c old pending
    ];
  }
