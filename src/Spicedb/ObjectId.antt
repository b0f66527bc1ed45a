-- ===== src/Spicedb/ObjectId.antt =====
-- internal/spicedb/objectid.go: `EncodeObjectID` maps the bytes of an id to an id that SpiceDB takes.
use mathlib.Core.Path.{ap₂}
use spawnly.Prelude.{
  ℕ, ◌+◌, ◌-◌, ◌*◌, ◌/◌, ◌%◌, ◌<◌, String, ◌≡◌, ◌⊎◌, refl, sym, ap, ◌∙◌, Bool, true, false, ◌&&◌,
  ◌||◌, [], ◌∷◌, arith, ltb, Bool-cases, inl, inr, All, if◌then◌else◌,
}
use spawnly.Prelude.Text.{Bytes, bytes, spell, is_lower, is_upper, is_digit, one_of}

abbrev pub safe_object_id_byte : ℕ → Bool
safe_object_id_byte c = is_lower c || is_upper c || is_digit c || one_of (b'_' ∷ b'-' ∷ []) c

unfoldable pub is_all_safe : Bytes → Bool
is_all_safe [] = true
is_all_safe (c ∷ cs) = safe_object_id_byte c && is_all_safe cs

unfoldable pub hex_digit : ℕ → ℕ
hex_digit n = if ltb n 10 then b'0' + n else b'A' + (n - 10)

-- The loop over the bytes.
unfoldable pub escape : Bytes → Bytes
escape [] = []
escape (c ∷ cs) =
    if safe_object_id_byte c
    then c ∷ escape cs
    else b'=' ∷ hex_digit (c / 16) ∷ hex_digit (c % 16) ∷ escape cs

unfoldable pub encode_object_id : Bytes → Bytes
unfolding is_all_safe escape hex_digit
encode_object_id raw = if is_all_safe raw then raw else escape raw

-- The encoding of a text; its result is ASCII.
unfoldable pub encode : String → String
unfolding encode_object_id bytes spell
encode raw = spell (encode_object_id (bytes raw))

encode_example : encode "user:alice@x.com" ≡ "user=3Aalice=40x=2Ecom"
unfolding encode
encode_example = refl

-- A decoder, to show that no two ids share an encoding.
unhex : ℕ → ℕ
unhex c = if ltb c b'A' then c - b'0' else c - b'A' + 10

decode : Bytes → Bytes
decode [] = []
decode (c ∷ []) = c ∷ []
decode (c ∷ h ∷ []) = c ∷ h ∷ []
decode (c ∷ h ∷ l ∷ rest) =
    if one_of (b'=' ∷ []) c
    then (unhex h * 16 + unhex l) ∷ decode rest
    else c ∷ decode (h ∷ l ∷ rest)

unhex-hex_digit : (n : ℕ) → n < 16 → unhex (hex_digit n) ≡ n
unfolding unhex hex_digit
unhex-hex_digit n h = ground arith

safe-ne-eq : (c : ℕ) → safe_object_id_byte c ≡ true → one_of (b'=' ∷ []) c ≡ false
safe-ne-eq c h = ground arith

decode-safe :
    (c : ℕ) (rest : Bytes) → safe_object_id_byte c ≡ true → decode (c ∷ rest) ≡ c ∷ decode rest
unfolding decode
decode-safe c [] h = refl
decode-safe c (x ∷ []) h = refl
decode-safe c (x ∷ y ∷ rest) h = rw (safe-ne-eq c h)

halves : (c a b : ℕ) → a ≡ c / 16 → b ≡ c % 16 → a * 16 + b ≡ c
halves c a b h k = omega arith

decode-escape : (cs : Bytes) → All (λ c. c < 256) cs → decode (escape cs) ≡ cs
unfolding escape decode
decode-escape [] h = refl
decode-escape (c ∷ cs) h = elim (Bool-cases (safe_object_id_byte c)) [
  | inl e ↦ rw e (decode-safe c (escape cs) e ∙ ap (◌∷◌ c) (decode-escape cs h.1))
  | inr e ↦ rw e (
      ap₂ (λ (x : ℕ) (xs : Bytes). x ∷ xs)
        (halves c _ _ (unhex-hex_digit (c / 16) (omega arith))
          (unhex-hex_digit (c % 16) (omega arith)))
        (decode-escape cs h.1))
]

both : (a b : Bool) → (a && b) ≡ true → (a ≡ true) × (b ≡ true)
both a b h = ground arith

decode_safe_all : (cs : Bytes) → is_all_safe cs ≡ true → decode cs ≡ cs
unfolding is_all_safe decode
decode_safe_all [] h = refl
decode_safe_all (c ∷ cs) h =
    let (a, b) = both (safe_object_id_byte c) (is_all_safe cs) h in
    decode-safe c cs a ∙ ap (◌∷◌ c) (decode_safe_all cs b)

decode-encode_object_id :
    (raw : Bytes) → All (λ c. c < 256) raw → decode (encode_object_id raw) ≡ raw
unfolding encode_object_id
decode-encode_object_id raw h = elim (Bool-cases (is_all_safe raw)) [
  | inl e ↦ rw e (decode_safe_all raw e)
  | inr e ↦ rw e (decode-escape raw h)
]

-- No two byte strings have one encoding.
pub encode_object_id_injective :
    (a b : Bytes)
    → All (λ c. c < 256) a
    → All (λ c. c < 256) b
    → encode_object_id a ≡ encode_object_id b
    → a ≡ b
encode_object_id_injective a b ha hb e =
    sym (decode-encode_object_id a ha) ∙ ap decode e ∙ decode-encode_object_id b hb

-- What SpiceDB takes in an object id: a safe byte, or the one that starts an escape.
abbrev pub IsIdByte : ℕ → Type 0
IsIdByte c = (safe_object_id_byte c || one_of (b'=' ∷ []) c) ≡ true

hex_digit-IsIdByte : (n : ℕ) → n < 16 → IsIdByte (hex_digit n)
unfolding hex_digit
hex_digit-IsIdByte n h = ground arith

escape-IsIdByte : (cs : Bytes) → All (λ c. c < 256) cs → All IsIdByte (escape cs)
unfolding escape
escape-IsIdByte [] h = tt
escape-IsIdByte (c ∷ cs) h = elim (Bool-cases (safe_object_id_byte c)) [
  | inl e ↦ rw e (rw e, escape-IsIdByte cs h.1)
  | inr e ↦ rw e (
    refl,
    (
      hex_digit-IsIdByte (c / 16) (omega arith),
      (hex_digit-IsIdByte (c % 16) (omega arith), escape-IsIdByte cs h.1),
    ),
  )
]

safe-IsIdByte : (cs : Bytes) → is_all_safe cs ≡ true → All IsIdByte cs
unfolding is_all_safe
safe-IsIdByte [] h = tt
safe-IsIdByte (c ∷ cs) h =
    let (a, b) = both (safe_object_id_byte c) (is_all_safe cs) h in (rw a, safe-IsIdByte cs b)

encode_object_id_identity : (raw : Bytes) → is_all_safe raw ≡ true → encode_object_id raw ≡ raw
unfolding encode_object_id
encode_object_id_identity raw h = rw h

encode_object_id-IsIdByte :
    (raw : Bytes) → All (λ c. c < 256) raw → All IsIdByte (encode_object_id raw)
unfolding encode_object_id
encode_object_id-IsIdByte raw h = elim (Bool-cases (is_all_safe raw)) [
  | inl e ↦ rw e (safe-IsIdByte raw e)
  | inr e ↦ rw e (escape-IsIdByte raw h)
]

-- The encoding leaves an id of safe bytes alone, and its result has only bytes that SpiceDB takes.
pub encode_object_id_range :
    (raw : Bytes)
    → All (λ c. c < 256) raw
    → ((is_all_safe raw ≡ false) ⊎ (encode_object_id raw ≡ raw))
      × All IsIdByte (encode_object_id raw)
encode_object_id_range raw h = (
  elim (Bool-cases (is_all_safe raw)) [
    | inl e ↦ inr (encode_object_id_identity raw e)
    | inr e ↦ inl e
  ],
  encode_object_id-IsIdByte raw h,
)
