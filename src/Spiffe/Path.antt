-- ===== src/Spiffe/Path.antt =====
-- internal/spiffe/path.go: building and parsing SPIFFE ids. A Go string is its bytes.
pub mod Segments
pub mod RoundTrip
pub mod Claims
use spawnly.Prelude.{
  ℕ, String, Bool, true, false, not, ◌&&◌, ◌||◌, Option, none, some, List, [], ◌∷◌, ◌++◌, Result,
  ok, err, ◌⧺◌, ltb, length, leb, if◌then◌else◌,
}
use spawnly.Prelude.Text.{Bytes, codes, one_of}

-- The texts of the contract, which are ASCII.
abbrev pub scheme : Bytes
scheme = codes "spiffe://"

abbrev pub org_segment : Bytes
org_segment = codes "org"

abbrev pub agent_segment : Bytes
agent_segment = codes "agent"

abbrev pub substrate_agent_leaf : Bytes
substrate_agent_leaf = codes "substrate-agent"

abbrev pub is_slash : ℕ → Bool
is_slash c = one_of (b'/' ∷ []) c

abbrev pub is_empty : Bytes → Bool
is_empty [] = true
is_empty (c ∷ cs) = false

unfoldable pub has_slash : Bytes → Bool
has_slash [] = false
has_slash (c ∷ cs) = is_slash c || has_slash cs

unfoldable pub same : Bytes → Bytes → Bool
same [] [] = true
same [] (d ∷ ds) = false
same (c ∷ cs) [] = false
same (c ∷ cs) (d ∷ ds) = one_of (d ∷ []) c && same cs ds

-- `strings.Join(…, "/")`
unfoldable pub join : List Bytes → Bytes
join [] = []
join (x ∷ []) = x
join (x ∷ y ∷ xs) = x ++ b'/' ∷ join (y ∷ xs)

abbrev push : ℕ → List Bytes → List Bytes
push c [] = (c ∷ []) ∷ []
push c (x ∷ xs) = (c ∷ x) ∷ xs

-- `strings.Split(…, "/")`
unfoldable pub split : Bytes → List Bytes
split [] = [] ∷ []
split (c ∷ cs) = if is_slash c then [] ∷ split cs else push c (split cs)

-- What `path.Base` does: it drops the slashes at the end, and takes what follows the last slash.
unfoldable pub trim_slashes : Bytes → Bytes
trim_slashes [] = []
trim_slashes (c ∷ cs) =
    let rest = trim_slashes cs in if is_slash c && is_empty rest then [] else c ∷ rest

unfoldable pub last_of : List Bytes → Bytes
last_of [] = []
last_of (x ∷ []) = x
last_of (x ∷ y ∷ xs) = last_of (y ∷ xs)

abbrev or_slash : Bytes → Bytes
or_slash [] = b'/' ∷ []
or_slash (c ∷ cs) = c ∷ cs

unfoldable pub base : Bytes → Bytes
base [] = b'.' ∷ []
base (c ∷ cs) = or_slash (last_of (split (trim_slashes (c ∷ cs))))

pub record ParsedSvid : Type 0 where
  pub trust_domain : Bytes
  pub org_id : Bytes
  pub agent_id : Bytes
  pub substrate_agent : Bool

-- `validSegment`, whose error is nil for `none`.
unfoldable pub valid_segment : Bytes → Option String
valid_segment s =
    if is_empty s
    then some "empty segment"
    else if has_slash s
    then some "segment contains '/'"
    else none

-- The first segment that is invalid.
unfoldable pub invalid_segment : List Bytes → Option String
invalid_segment [] = none
invalid_segment (x ∷ xs) = elim (valid_segment x) [ some e ↦ some e | none ↦ invalid_segment xs ]

-- The checks on the trust domain and the organization that the two builders share.
unfoldable pub bad_base : Bytes → Bytes → Option String
bad_base trust_domain org_id =
    if is_empty trust_domain
    then some "empty trust domain"
    else if has_slash trust_domain
    then some "trust domain contains '/'"
    else elim (valid_segment org_id) [ some e ↦ some ("invalid org id: " ⧺ e) | none ↦ none ]

abbrev bad_segments : List Bytes → Option String
bad_segments [] = some "at least one path segment (the agent id) is required"
bad_segments (x ∷ xs) = elim (invalid_segment (x ∷ xs)) [
  | some e ↦ some ("invalid path segment: " ⧺ e)
  | none ↦ none
]

unfoldable pub build_org_agent_path : Bytes → Bytes → List Bytes → Result Bytes
build_org_agent_path trust_domain org_id segments = elim (bad_base trust_domain org_id) [
  | some e ↦ err e
  | none ↦ elim (bad_segments segments) [
    | some e ↦ err e
    | none ↦ ok (
        scheme
        ++ (trust_domain ++ (codes "/org/" ++ (org_id ++ (codes "/agent/" ++ join segments)))))
  ]
]

unfoldable pub build_substrate_agent_path : Bytes → Bytes → Result Bytes
build_substrate_agent_path trust_domain org_id = elim (bad_base trust_domain org_id) [
  | some e ↦ err e
  | none ↦ ok (
      scheme
      ++ (trust_domain ++ (codes "/org/" ++ (org_id ++ (codes "/" ++ substrate_agent_leaf)))))
]

-- `strings.HasPrefix` and the slice after the prefix.
unfoldable pub strip_prefix : Bytes → Bytes → Option Bytes
strip_prefix [] s = some s
strip_prefix (p ∷ ps) [] = none
strip_prefix (p ∷ ps) (c ∷ cs) = if one_of (p ∷ []) c then strip_prefix ps cs else none

-- The slices before and from the first slash.
unfoldable pub authority : Bytes → Bytes
authority [] = []
authority (c ∷ cs) = if is_slash c then [] else c ∷ authority cs

unfoldable pub path_of : Bytes → Bytes
path_of [] = []
path_of (c ∷ cs) = if is_slash c then c ∷ cs else path_of cs

-- The claim of the path: none, an organization's agent, its substrate agent, or a malformed one.
pub data Claim : Type 0 where
  platform : Claim
  workload : Bytes → Claim
  substrate : Bytes → Claim
  malformed : Claim

-- The test `len(segs) == 4`, and that of `len(segs) >= 5`, on what follows the third segment.
abbrev org_claim : Bytes → Bytes → List Bytes → Claim
org_claim org kind [] =
    if not (is_empty org) && same kind substrate_agent_leaf then substrate org else malformed
org_claim org kind (x ∷ xs) =
    if not (is_empty org) && same kind agent_segment then workload org else malformed

unfoldable pub claim_of : List Bytes → Claim
claim_of [] = platform
claim_of (lead ∷ []) = platform
claim_of (lead ∷ first ∷ []) = if same first org_segment then malformed else platform
claim_of (lead ∷ first ∷ org ∷ []) = if same first org_segment then malformed else platform
claim_of (lead ∷ first ∷ org ∷ kind ∷ rest) =
    if same first org_segment then org_claim org kind rest else platform

abbrev parsed : Bytes → Bytes → Claim → Result ParsedSvid
parsed td agent platform =
    ok (record { trust_domain = td; org_id = []; agent_id = agent; substrate_agent = false })
parsed td agent (workload org) =
    ok (record { trust_domain = td; org_id = org; agent_id = agent; substrate_agent = false })
parsed td agent (substrate org) =
    ok (record { trust_domain = td; org_id = org; agent_id = agent; substrate_agent = true })
parsed td agent malformed = err "malformed org-scoped SPIFFE path"

unfoldable pub parse_path : Bytes → Result ParsedSvid
parse_path id = elim (strip_prefix scheme id) [
  | none ↦ err "not a spiffe:// URI"
  | some rest ↦
      if is_empty (authority rest)
      then err "empty trust domain"
      else parsed (authority rest) (base id) (claim_of (split (path_of rest)))
]
