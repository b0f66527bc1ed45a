-- ===== src/Examples/Templates.antt =====
-- The theorems on the catalog of templates.
use spawnly.Prelude.{◌≡◌, refl, true, ok}
use spawnly.Prelude.Assoc.{lookup}
use spawnly.Prelude.Text.{has_part}
use spawnly.Registry.Store.{get_template, delete_template}
use spawnly.Registry.World.{reply}
use spawnly.Registry.Catalog.{post_template, patch_template, remove_template, valid_agent_type}
use spawnly.Registry.Catalog.Scope.{Within, catalog_scoped}
use spawnly.Examples.Data.{store, planner}

catalog_scoped_example :
    Within "acme" store.templates
      (post_template true "acme" (ok planner) (λ e. "mismatch") store).1.templates
    × Within "acme" store.templates
        (patch_template true "acme" "planner" (ok "disabled") store).1.templates
    × Within "acme" store.templates (remove_template true "acme" "planner" store).1.templates
catalog_scoped_example =
    catalog_scoped "acme" store true "planner" (ok planner) (ok "disabled") (λ e. "mismatch") refl

is_removed : (remove_template true "acme" "retired" store).0 ≡ reply 204 tt
unfolding remove_template valid_agent_type get_template delete_template lookup has_part
is_removed = refl
