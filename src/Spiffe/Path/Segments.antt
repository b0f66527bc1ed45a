-- ===== src/Spiffe/Path/Segments.antt =====
-- Splitting and joining at slashes, and what `path.Base` makes of a joined path.
use spawnly.Prelude.{
  ℕ, ◌≡◌, refl, ◌∙◌, ap, Bool, true, false, ◌&&◌, ◌||◌, List, [], ◌∷◌, ◌++◌, arith, All,
  if◌then◌else◌,
}
use spawnly.Prelude.Text.{Bytes, one_of}
use spawnly.Spiffe.Path.{
  is_slash, is_empty, has_slash, same, join, split, trim_slashes, last_of, base, or_slash,
}

-- A segment of a path: it has no slash.
abbrev pub IsSegment : Bytes → Type 0
IsSegment x = has_slash x ≡ false

one_of_self : (c : ℕ) → one_of (c ∷ []) c ≡ true
one_of_self c = ground arith

pub same_self : (x : Bytes) → same x x ≡ true
unfolding same
same_self [] = refl
same_self (c ∷ cs) = rw (one_of_self c, same_self cs)

split-segment : (x : Bytes) → IsSegment x → split x ≡ x ∷ []
unfolding split has_slash
split-segment [] h = refl
split-segment (c ∷ cs) h =
    let (a, b) = parts (is_slash c) (has_slash cs) h in rw (a, split-segment cs b)
  where
    parts : (a b : Bool) → (a || b) ≡ false → (a ≡ false) × (b ≡ false)
    parts a b h = ground arith

split-cons : (x rest : Bytes) → IsSegment x → split (x ++ b'/' ∷ rest) ≡ x ∷ split rest
unfolding split has_slash
split-cons [] rest h = refl
split-cons (c ∷ cs) rest h =
    let (a, b) = parts (is_slash c) (has_slash cs) h in rw (a, split-cons cs rest b)
  where
    parts : (a b : Bool) → (a || b) ≡ false → (a ≡ false) × (b ≡ false)
    parts a b h = ground arith

-- Splitting undoes joining.
pub split-join :
    (x : Bytes) (xs : List Bytes) → All IsSegment (x ∷ xs) → split (join (x ∷ xs)) ≡ x ∷ xs
unfolding join
split-join x [] h = split-segment x h.0
split-join x (y ∷ ys) h = split-cons x (join (y ∷ ys)) h.0 ∙ ap (◌∷◌ x) (split-join y ys h.1)

-- The last segment is not empty.
abbrev pub Named : List Bytes → Type 0
Named xs = is_empty (last_of xs) ≡ false

trim-segment : (x : Bytes) → IsSegment x → trim_slashes x ≡ x
unfolding trim_slashes has_slash
trim-segment [] h = refl
trim-segment (c ∷ cs) h =
    let (a, b) = parts (is_slash c) (has_slash cs) h in rw (trim-segment cs b, a)
  where
    parts : (a b : Bool) → (a || b) ≡ false → (a ≡ false) × (b ≡ false)
    parts a b h = ground arith

trim-append :
    (x rest : Bytes)
    → trim_slashes rest ≡ rest
    → is_empty rest ≡ false
    → trim_slashes (x ++ rest) ≡ x ++ rest
unfolding trim_slashes
trim-append [] rest h e = h
trim-append (c ∷ cs) rest h e =
    rw (trim-append cs rest h e, append-nonempty cs rest e) (no_slash (is_slash c))
  where
    append-nonempty : (cs rest : Bytes) → is_empty rest ≡ false → is_empty (cs ++ rest) ≡ false
    append-nonempty [] rest e = e
    append-nonempty (c ∷ cs) rest e = refl

    no_slash : (b : Bool) → (if b && false then [] else c ∷ cs ++ rest) ≡ c ∷ cs ++ rest
    no_slash true = refl
    no_slash false = refl

join-nonempty : (x : Bytes) (xs : List Bytes) → Named (x ∷ xs) → is_empty (join (x ∷ xs)) ≡ false
unfolding join last_of
join-nonempty x [] h = h
join-nonempty [] (y ∷ ys) h = refl
join-nonempty (c ∷ cs) (y ∷ ys) h = refl

trim-join :
    (x : Bytes) (xs : List Bytes)
    → All IsSegment (x ∷ xs)
    → Named (x ∷ xs)
    → trim_slashes (join (x ∷ xs)) ≡ join (x ∷ xs)
unfolding join last_of
trim-join x [] h n = trim-segment x h.0
trim-join x (y ∷ ys) h n =
    trim-append x (b'/' ∷ join (y ∷ ys)) (trims (trim-join y ys h.1 n) (join-nonempty y ys n)) refl
  where
    trims :
        trim_slashes (join (y ∷ ys)) ≡ join (y ∷ ys)
        → is_empty (join (y ∷ ys)) ≡ false
        → trim_slashes (b'/' ∷ join (y ∷ ys)) ≡ b'/' ∷ join (y ∷ ys)
    trims t e = trim-append (b'/' ∷ []) (join (y ∷ ys)) t e

base-nonempty :
    (cs : Bytes) → is_empty cs ≡ false → base cs ≡ or_slash (last_of (split (trim_slashes cs)))
unfolding base
base-nonempty [] h = cc h
base-nonempty (c ∷ cs) h = refl

or_slash-nonempty : (cs : Bytes) → is_empty cs ≡ false → or_slash cs ≡ cs
or_slash-nonempty [] h = cc h
or_slash-nonempty (c ∷ cs) h = refl

-- The base of a joined path is its last segment.
pub base-join :
    (x : Bytes) (xs : List Bytes)
    → All IsSegment (x ∷ xs)
    → Named (x ∷ xs)
    → base (join (x ∷ xs)) ≡ last_of (x ∷ xs)
base-join x xs h n =
    base-nonempty (join (x ∷ xs)) (join-nonempty x xs n)
    ∙ rw (trim-join x xs h n, split-join x xs h) (or_slash-nonempty (last_of (x ∷ xs)) n)
