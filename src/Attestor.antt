-- ===== src/Attestor.antt =====
-- internal/attestor/aws_verify.go: what is read off the identity of a caller of AWS. The replay of a
-- presigned request against AWS is a call over the network, and an argument where it is used.
use Prim.Native.Char.{code}
use Prim.Native.String.{count}
use spawnly.Prelude.{
  ℕ, zero, suc, String, Bool, true, false, not, ◌&&◌, ◌||◌, List, [], ◌∷◌, ◌==◌, ◌⧺◌, Result, ok,
  err, if◌then◌else◌,
}
use spawnly.Prelude.Text.{codes, one_of, has_part}
use text.Mathlib.Text.{starts_with}

-- `CallerIdentity`
pub record CallerIdentity : Type 0 where
  pub account : String
  pub arn : String

abbrev role_marker : String
role_marker = ":assumed-role/"

abbrev drop_chars : ℕ → String → String
drop_chars zero s = s
drop_chars (suc n) String.[] = ""
drop_chars (suc n) (String.◌∷◌ c s) = drop_chars n s

-- What follows the first place of the marker.
abbrev after_marker : String → String
after_marker String.[] = ""
after_marker (String.◌∷◌ c s) =
    let later = after_marker s in
    if starts_with (String.◌∷◌ c s) role_marker
    then drop_chars (count role_marker) (String.◌∷◌ c s)
    else later

-- `strings.SplitN(rest, "/", 2)[1]`, and the empty text where there is no slash.
abbrev after_slash : String → String
after_slash String.[] = ""
after_slash (String.◌∷◌ c s) = if one_of (b'/' ∷ []) (code c) then s else after_slash s

-- The text of an error shows the ARN as it stands, where `%q` also escapes it.
unfoldable pub session_name_from_arn : String → Result String
unfolding has_part
session_name_from_arn arn =
    let name = after_slash (after_marker arn) in
    if not (has_part arn role_marker)
    then err ("ARN \"" ⧺ arn ⧺ "\" is not an assumed-role ARN")
    else if name == ""
    then err ("ARN \"" ⧺ arn ⧺ "\" has no session name")
    else ok name

-- The expression `.*` before the rest of a pattern; `.` is any character but a line feed.
abbrev pub skips : (List ℕ → Bool) → List ℕ → Bool
skips rest [] = rest []
skips rest (c ∷ cs) = rest (c ∷ cs) || (not (one_of (10 ∷ []) c) && skips rest cs)

abbrev pub starts : ℕ → (List ℕ → Bool) → List ℕ → Bool
starts x rest [] = false
starts x rest (c ∷ cs) = one_of (x ∷ []) c && rest cs

abbrev pub ends : List ℕ → Bool
ends [] = true
ends (c ∷ cs) = false

unfoldable pub glob : List ℕ → List ℕ → Bool
glob [] = ends
glob (x ∷ p) = if one_of (b'*' ∷ []) x then skips (glob p) else starts x (glob p)

unfoldable pub match_role_arn_pattern : String → String → Bool
unfolding glob
match_role_arn_pattern pattern arn =
    if pattern == "" || arn == "" then false else glob (codes pattern) (codes arn)
