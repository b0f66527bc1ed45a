-- ===== src/Examples/Organizations.antt =====
-- The theorems on organizations.
use spawnly.Prelude.{String, ◌≡◌, refl, false, none, some, [], ◌∷◌, ok}
use spawnly.Prelude.Assoc.{lookup}
use spawnly.Registry.Types.{Organization, pos}
use spawnly.Registry.Store.{get_org}
use spawnly.Registry.Catalog.{valid_org_id}
use spawnly.Registry.Directory.{Site}
use spawnly.Registry.Orgs.Creation.{OrgBody, new_org_id, post_orgs}
use spawnly.Registry.Orgs.Creation.Converging.{Replaces, Succeeds, post_orgs_forgets}
use spawnly.Examples.Data.{directory, env, store, world}

abbrev acme : Organization
acme = record {
  org_id = "acme";
  name = "Acme";
  removal_disposition = "auto-revoke";
  disabled = false;
  anchor = none;
  substrate = some (record {
    status = "active";
    cert_fingerprint = "f";
    cert_serial = "s";
    issued_at = 1;
    activated_at = some 2;
  });
  created_at = 1;
}

abbrev site : Site String
site = record {
  world = record world { store = record store { orgs = ("acme", acme) ∷ [] } };
  backend = "";
}

abbrev body : OrgBody
body = record { org_id = "acme"; name = "Acme"; admin_user = "alice" }

post_orgs_forgets_example :
    Succeeds
      (λ org s'. (get_org "acme" s'.world.store ≡ some org) × Replaces acme org)
      (post_orgs env directory "" (pos 0) (λ s. s) "u" false (ok body) site)
unfolding new_org_id valid_org_id get_org lookup
post_orgs_forgets_example =
    post_orgs_forgets env directory "" (pos 0) (λ s. s) "u" false body site "acme" acme refl refl
