-- ===== src/Registry/Dynamostore/Interleaving/Keeping.antt =====
-- internal/registry/dynamostore/store.go: what the requests, the markers and the memories of the calls
-- have to do with each other, and the five ways in which a write changes them.
use mathlib.Core.List.{Memᴰ}
use spawnly.Prelude.{
  String, ◌≡◌, Bool, true, false, not, Option, none, some, List, ◌∷◌, ◌==◌, if◌then◌else◌, arith,
  eq→path, path→eq, eq_iff, some-injective, ap, sym, subst, ◌∙◌,
}
use spawnly.Consent.{ConsentRequest, consent_pending}
use spawnly.Registry.Requests.{open_key_of}

abbrev pub is_pending : ConsentRequest → Bool
is_pending cr = cr.status == consent_pending

abbrev pub exists_at : Option ConsentRequest → Bool
exists_at none = false
exists_at (some cr) = true

abbrev pub is_over : Option ConsentRequest → Bool
is_over none = false
is_over (some cr) = not (is_pending cr)

-- The requests and the markers of a table, and what the calls remember.
abbrev pub Pairs : Type 0
Pairs = List (String × String)

pub record Kept (requests : String → Option ConsentRequest) (markers : String → Option String)
    (seen due : Pairs) : Type 0 where
  pub marked :
      (id : String) (cr : ConsentRequest)
      → requests id ≡ some cr
      → is_pending cr ≡ true
      → markers (open_key_of cr) ≡ some id
  pub backed : (key id : String) → markers key ≡ some id → exists_at (requests id) ≡ true
  pub known : (key id : String) → Memᴰ (key, id) seen → exists_at (requests id) ≡ true
  pub finished : (key id : String) → Memᴰ (key, id) due → is_over (requests id) ≡ true

module _ (requests requests' : String → Option ConsentRequest)
    (markers markers' : String → Option String) (seen due : Pairs)
    (kept : Kept requests markers seen due) where
  module _ (a : String) (cr : ConsentRequest) where
    -- A request and its marker appear together.
    pub Kept-opened :
        requests a ≡ none
        → markers (open_key_of cr) ≡ none
        → ((id : String) → requests' id ≡ (if a == id then some cr else requests id))
        → ((key : String) → markers' key ≡ (if open_key_of cr == key then some a else markers key))
        → Kept requests' markers' seen due
    Kept-opened new free r m = record {
      marked = λ id c h p. ground (
        arith,
        r id,
        m (open_key_of c),
        kept.marked id c,
        eq→path a id,
        eq→path (open_key_of cr) (open_key_of c),
        path→eq (open_key_of cr) (open_key_of c),
      );
      backed = λ key id h. ground (arith, r id, m key, kept.backed key id, eq_iff a id);
      known = λ key id h. ground (arith, r id, kept.known key id);
      finished = λ key id h. ground (arith, r id, kept.finished key id, eq→path a id);
    }

    -- A request that is not pending appears, or takes the place of another.
    pub Kept-resolved :
        is_pending cr ≡ false
        → ((id : String) → requests' id ≡ (if a == id then some cr else requests id))
        → ((key : String) → markers' key ≡ markers key)
        → Kept requests' markers' seen due
    Kept-resolved over r m = record {
      marked = λ id c h p. ground (arith, r id, m (open_key_of c), kept.marked id c);
      backed = λ key id h. ground (arith, r id, m key, kept.backed key id);
      known = λ key id h. ground (arith, r id, kept.known key id);
      finished = λ key id h. ground (arith, r id, kept.finished key id);
    }

  -- A marker goes whose request is over.
  pub Kept-freed :
      (at a : String)
      → Memᴰ (at, a) due
      → markers at ≡ some a
      → ((id : String) → requests' id ≡ requests id)
      → ((key : String) → markers' key ≡ (if at == key then none else markers key))
      → Kept requests' markers' seen due
  Kept-freed at a owed here r m = record {
    marked = λ id c h p. ground (
      arith,
      r id,
      m (open_key_of c),
      kept.marked id c,
      kept.finished at a owed,
      eq→path at (open_key_of c),
    );
    backed = λ key id h. ground (arith, r id, m key, kept.backed key id);
    known = λ key id h. ground (arith, r id, kept.known key id);
    finished = λ key id h. ground (arith, r id, kept.finished key id);
  }

  -- Nothing of the two changes.
  pub Kept-elsewhere :
      ((id : String) → requests' id ≡ requests id)
      → ((key : String) → markers' key ≡ markers key)
      → Kept requests' markers' seen due
  Kept-elsewhere r m = record {
    marked = λ id c h p. ground (arith, r id, m (open_key_of c), kept.marked id c);
    backed = λ key id h. ground (arith, r id, m key, kept.backed key id);
    known = λ key id h. ground (arith, r id, kept.known key id);
    finished = λ key id h. ground (arith, r id, kept.finished key id);
  }

module _ (requests : String → Option ConsentRequest) (markers : String → Option String)
    (seen due : Pairs) (kept : Kept requests markers seen due) (key id : String) where
  -- A call reads a marker.
  pub Kept-seen : markers key ≡ some id → Kept requests markers ((key, id) ∷ seen) due
  Kept-seen h = record {
    marked = kept.marked;
    backed = kept.backed;
    known = λ k i m. elim m [
      | Memᴰ.head e ↦
          subst (λ z. exists_at (requests z) ≡ true) (sym (ap (λ p. p.1) e)) (kept.backed key id h)
      | Memᴰ.tail m' ↦ kept.known k i m'
    ];
    finished = kept.finished;
  }

  -- A call is about to remove a marker.
  pub Kept-due : is_over (requests id) ≡ true → Kept requests markers seen ((key, id) ∷ due)
  Kept-due h = record {
    marked = kept.marked;
    backed = kept.backed;
    known = kept.known;
    finished = λ k i m. elim m [ Memᴰ.head e ↦ cc | Memᴰ.tail m' ↦ kept.finished k i m' ];
  }

-- One key has one pending request.
pub Kept-unique :
    (requests : String → Option ConsentRequest) (markers : String → Option String)
    (seen due : Pairs)
    → Kept requests markers seen due
    → (id id' : String) (cr cr' : ConsentRequest) → requests id ≡ some cr
    → requests id' ≡ some cr'
    → is_pending cr ≡ true
    → is_pending cr' ≡ true
    → open_key_of cr ≡ open_key_of cr'
    → id ≡ id'
Kept-unique requests markers seen due kept id id' cr cr' h h' p p' e =
    some-injective (sym (kept.marked id cr h p) ∙ ap markers e ∙ kept.marked id' cr' h' p')
