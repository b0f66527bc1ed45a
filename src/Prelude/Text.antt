-- ===== src/Prelude/Text.antt =====
-- Texts as Go sees them: a `string` is its UTF-8 bytes. Also `%d` of the format package.
use Prim.Native.Char.{char, code, IsScalar}
use Prim.Native.Nat.{ℕ, zero, suc, ◌+◌, ◌-◌, ◌/◌, ◌%◌, ◌<◌, compare, Ordering}
use Prim.Native.String.{String, count}
use mathlib.Core.Bool.{Bool, true, false, ◌&&◌, ◌||◌}
use mathlib.Core.List.{List, [], ◌∷◌, ◌++◌}
use mathlib.Core.Path.{◌≡◌, refl}
use native.Mathlib.Omega.{arith}
use text.Mathlib.Text.{◌==◌, starts_with}
use spawnly.Prelude.Tests.{◌⧺◌, ltb, leb, if◌then◌else◌}

abbrev pub Bytes : Type 0
Bytes = List ℕ

-- The code points of a text: its bytes, if it is ASCII.
abbrev pub codes : String → List ℕ
codes String.[] = []
codes (String.◌∷◌ c s) = code c ∷ codes s

-- The UTF-8 encoding of a code point.
abbrev pub utf8 : ℕ → Bytes
utf8 n =
    if ltb n 128
    then n ∷ []
    else if ltb n 2048
    then (192 + n / 64) ∷ (128 + n % 64) ∷ []
    else if ltb n 65536
    then (224 + n / 4096) ∷ (128 + n / 64 % 64) ∷ (128 + n % 64) ∷ []
    else (240 + n / 262144) ∷ (128 + n / 4096 % 64) ∷ (128 + n / 64 % 64) ∷ (128 + n % 64) ∷ []

abbrev pub encode_points : List ℕ → Bytes
encode_points [] = []
encode_points (n ∷ ns) = utf8 n ++ encode_points ns

-- The bytes of a text.
unfoldable pub bytes : String → Bytes
bytes s = encode_points (codes s)

-- Every character of the text passes the test, and there is one: the regular expression `^[…]+$`.
abbrev pub every : (ℕ → Bool) → List ℕ → Bool
every p [] = true
every p (c ∷ cs) = p c && every p cs

abbrev pub one_of : List ℕ → ℕ → Bool
one_of [] c = false
one_of (d ∷ ds) c = elim (compare c d) [ Ordering.eq ↦ true | _ ↦ one_of ds c ]

abbrev pub is_lower : ℕ → Bool
is_lower c = leb b'a' c && leb c b'z'

abbrev pub is_upper : ℕ → Bool
is_upper c = leb b'A' c && leb c b'Z'

abbrev pub is_digit : ℕ → Bool
is_digit c = leb b'0' c && leb c b'9'

compare-lt : (n : ℕ) → n < 128 → compare n 55296 ≡ Ordering.lt
compare-lt n h = ground arith

pub ascii-IsScalar : (n : ℕ) → IsScalar (n % 128)
ascii-IsScalar n = rw (compare-lt (n % 128) (omega arith)) tt

-- The text that ASCII bytes spell.
unfoldable pub spell : Bytes → String
spell [] = String.[]
spell (n ∷ ns) = String.◌∷◌ (char (n % 128) (ascii-IsScalar n)) (spell ns)

-- The digits of a number; more fuel than the number has digits changes nothing.
unfoldable pub digits : ℕ → ℕ → Bytes → Bytes
digits zero n out = out
digits (suc fuel) n out =
    let rest = digits fuel (n / 10) ((b'0' + n % 10) ∷ out) in
    if ltb n 10 then (b'0' + n) ∷ out else rest

-- `%d`
unfoldable pub decimal : ℕ → String
unfolding digits spell
decimal n = spell (digits (suc n) n [])

decimal_time : decimal 1732632000000000001 ≡ "1732632000000000001"
unfolding decimal
decimal_time = refl

-- `unicode.IsSpace`
abbrev pub is_space : ℕ → Bool
is_space c =
    (leb 9 c && leb c 13)
    || (leb 0x2000 c && leb c 0x200a)
    || one_of (0x20 ∷ 0x85 ∷ 0xa0 ∷ 0x1680 ∷ 0x2028 ∷ 0x2029 ∷ 0x202f ∷ 0x205f ∷ 0x3000 ∷ []) c

trim_left : String → String
trim_left String.[] = ""
trim_left (String.◌∷◌ c s) =
    let rest = trim_left s in if is_space (code c) then rest else String.◌∷◌ c s

trim_right : String → String
trim_right String.[] = ""
trim_right (String.◌∷◌ c s) =
    let rest = trim_right s in if is_space (code c) && rest == "" then "" else String.◌∷◌ c rest

-- `strings.TrimSpace`
unfoldable pub trim_space : String → String
unfolding trim_left trim_right
trim_space s = trim_right (trim_left s)

-- `strings.SplitN(s, sep, 2)[0]`, for a separator of one character.
unfoldable pub before : ℕ → String → String
before sep String.[] = ""
before sep (String.◌∷◌ c s) = if one_of (sep ∷ []) (code c) then "" else String.◌∷◌ c (before sep s)

-- `strings.Contains`
unfoldable pub has_part : String → String → Bool
has_part String.[] part = part == ""
has_part (String.◌∷◌ c s) part = starts_with (String.◌∷◌ c s) part || has_part s part

-- The rest of `strings.ReplaceAll`, with `skip` characters of a match still to pass.
replace_from : String → String → ℕ → String → String
replace_from old new skip String.[] = ""
replace_from old new (suc skip) (String.◌∷◌ c s) = replace_from old new skip s
replace_from old new zero (String.◌∷◌ c s) =
    let matched = new ⧺ replace_from old new (count old - 1) s in
    let plain = String.◌∷◌ c (replace_from old new zero s) in
    if starts_with (String.◌∷◌ c s) old then matched else plain

-- `strings.ReplaceAll`, for a text to replace that is not empty.
unfoldable pub replace_all : String → String → String → String
unfolding replace_from
replace_all s old new = replace_from old new 0 s

replace_all_example : replace_all "agent:{{agent_id}}" "{{agent_id}}" "w-1" ≡ "agent:w-1"
unfolding replace_all
replace_all_example = refl

trim_space_example : before b':' (trim_space "  tenant:{{tenant_id}} ") ≡ "tenant"
unfolding trim_space before
trim_space_example = refl
