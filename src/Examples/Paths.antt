-- ===== src/Examples/Paths.antt =====
-- The theorems on SPIFFE ids and on object ids.
use spawnly.Prelude.{◌<◌, ◌≡◌, refl, ◌⊎◌, false, some, [], ◌∷◌, ok, All, arith}
use spawnly.Prelude.Text.{Bytes, codes}
use spawnly.Spicedb.ObjectId.{encode_object_id, is_all_safe}
use spawnly.Spicedb.ObjectId.{IsIdByte, encode_object_id_injective, encode_object_id_range}
use spawnly.Spiffe.Path.{
  ParsedSvid, scheme, is_empty, has_slash, join, split, base, last_of, same, trim_slashes,
  strip_prefix, authority, path_of, claim_of, valid_segment, invalid_segment, bad_base,
  build_org_agent_path, build_substrate_agent_path, parse_path,
}
use spawnly.Spiffe.Path.RoundTrip.{parse_path-build_org_agent_path}
use spawnly.Spiffe.Path.Claims.{Claimed, parse_path_sound}

abbrev agent_path : Bytes
agent_path = codes "spiffe://td/org/acme/agent/w-1"

abbrev substrate_path : Bytes
substrate_path = codes "spiffe://td/org/acme/substrate-agent"

is_built : build_org_agent_path (codes "td") (codes "acme") (codes "w-1" ∷ []) ≡ ok agent_path
unfolding build_org_agent_path bad_base valid_segment invalid_segment has_slash join
is_built = refl

parse_path-build_org_agent_path_example :
    parse_path agent_path
    ≡ ok (record {
      trust_domain = codes "td";
      org_id = codes "acme";
      agent_id = last_of (codes "w-1" ∷ []);
      substrate_agent = false;
    })
parse_path-build_org_agent_path_example =
    parse_path-build_org_agent_path (codes "td") (codes "acme") (codes "w-1" ∷ []) agent_path
      is_built

is_built_substrate : build_substrate_agent_path (codes "td") (codes "acme") ≡ ok substrate_path
unfolding build_substrate_agent_path bad_base valid_segment has_slash
is_built_substrate = refl

abbrev platform_agent : ParsedSvid
platform_agent = record {
  trust_domain = codes "td";
  org_id = [];
  agent_id = codes "org";
  substrate_agent = false;
}

parses : parse_path (codes "spiffe://td/agent/org") ≡ ok platform_agent
unfolding parse_path strip_prefix authority path_of base split trim_slashes last_of claim_of same
parses = refl

parse_path_sound_example :
    (rest : Bytes) × (strip_prefix scheme (codes "spiffe://td/agent/org") ≡ some rest)
    × (is_empty (authority rest) ≡ false)
    × (codes "td" ≡ authority rest)
    × (codes "org" ≡ base (codes "spiffe://td/agent/org"))
    × Claimed (split (path_of rest)) platform_agent
parse_path_sound_example = parse_path_sound (codes "spiffe://td/agent/org") platform_agent parses

abbrev mail : Bytes
mail = codes "a@x"

mail-IsByte : All (λ c. c < 256) mail
mail-IsByte = (omega arith, (omega arith, (omega arith, tt)))

encode_object_id_injective_example : mail ≡ mail
encode_object_id_injective_example =
    encode_object_id_injective mail mail mail-IsByte mail-IsByte refl

encode_object_id_range_example :
    ((is_all_safe mail ≡ false) ⊎ (encode_object_id mail ≡ mail))
    × All IsIdByte (encode_object_id mail)
encode_object_id_range_example = encode_object_id_range mail mail-IsByte
