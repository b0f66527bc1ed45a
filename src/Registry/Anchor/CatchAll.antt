-- ===== src/Registry/Anchor/CatchAll.antt =====
-- cmd/registry/anchor.go: the pattern "arn:*", with MatchRoleArnPattern of internal/attestor/aws_verify.go.
use spawnly.Prelude.{
  ℕ, String, ◌≡◌, refl, sym, ap, inl, inr, Bool, true, false, not, none, some, List, [], ◌∷◌, ◌==◌,
  Result, ok, Bool-cases, eq→path, eq_refl, arith,
}
use spawnly.Prelude.Assoc.{lookup, insert, lookup-insert_at}
use spawnly.Prelude.Text.{codes, one_of, every}
use spawnly.Attestor.{CallerIdentity, match_role_arn_pattern, glob, skips, ends}
use spawnly.Registry.Types.{Organization}
use spawnly.Registry.Store.{get_org, put_org}
use spawnly.Registry.World.{Env, World, reply}
use spawnly.Registry.Anchor.{store_org, AnchorBody, is_account_id, put_anchor, activate_anchor}

abbrev pub catch_all : String
catch_all = "arn:*"

abbrev pub in_line : ℕ → Bool
in_line c = not (one_of (10 ∷ []) c)

-- The text of an ARN on one line.
abbrev pub IsArn : String → Type 0
IsArn arn =
    (rest : List ℕ) × (codes arn ≡ b'a' ∷ b'r' ∷ b'n' ∷ b':' ∷ rest) × (every in_line rest ≡ true)

skips-ends : (cs : List ℕ) → every in_line cs ≡ true → skips ends cs ≡ true
skips-ends [] h = refl
skips-ends (c ∷ cs) h = ground (arith, skips-ends cs)

pub match-catch_all : (arn : String) → IsArn arn → match_role_arn_pattern catch_all arn ≡ true
unfolding match_role_arn_pattern glob
match-catch_all arn (rest, text, line) = elim (Bool-cases (arn == "")) [
  | inl e ↦ absurd (cc (ap codes (eq→path arn "" e), text))
  | inr e ↦ rw e (rw text (skips-ends rest line))
]

module _ (env : Env) (replay : String → Result CallerIdentity) (id cred account : String)
    (w : World) (org : Organization) (at : lookup id w.store.orgs ≡ some org)
    (filed : org.org_id ≡ id) (digits : is_account_id account ≡ true)
    (given : (cred == "") ≡ false) where
  abbrev body : AnchorBody
  body = record { type = "sts"; aws_account_id = account; role_arn_pattern = catch_all }

  abbrev recorded : Organization
  recorded = record org {
    anchor = some (record {
      type = "sts";
      aws_account_id = account;
      role_arn_pattern = catch_all;
      status = "pending";
      activated_at = none;
    });
  }

  put_lem : put_anchor id (ok body) w ≡ (reply 200 recorded, store_org recorded w)
  unfolding put_anchor get_org
  put_lem = rw (digits, at, put_anchor) refl

  -- The pattern "arn:*" is accepted for the anchor of an organization that is there, with an account of
  -- twelve digits. After that, any credential that AWS answers with a role of that account, whichever it
  -- is, activates the anchor, if the text of the role's ARN is on one line.
  pub any_role_activates :
      (caller : CallerIdentity)
      → replay cred ≡ ok caller
      → caller.account ≡ account
      → IsArn caller.arn
      → let r = put_anchor id (ok body) w in
        (r.0 ≡ reply 200 recorded)
        × ((activate_anchor env replay id (ok cred) r.1).0
            ≡ reply 200 (record org {
              anchor = some (record {
                type = "sts";
                aws_account_id = account;
                role_arn_pattern = catch_all;
                status = "active";
                activated_at = some (env.time w.ticks);
              });
            }))
  unfolding activate_anchor get_org put_org
  any_role_activates caller attested same role =
      let there : lookup id (insert org.org_id recorded w.store.orgs) ≡ some recorded =
        lookup-insert_at id org.org_id recorded w.store.orgs (sym filed) in
      rw put_lem (
        refl,
        rw
            (
              there,
              activate_anchor,
              given,
              attested,
              same,
              eq_refl account,
              match-catch_all caller.arn role,
            )
            refl,
      )
