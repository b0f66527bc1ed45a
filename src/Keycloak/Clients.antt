-- ===== src/Keycloak/Clients.antt =====
-- internal/orgdirectory/keycloak/keycloak.go: the redirect addresses of the dashboard's client. The
-- adapter's state beside the API is the cached id of that client; its lock makes an edit one step.
use Prim.Native.Char.{Char, code}
use spawnly.Prelude.{
  String, Bool, true, false, not, ◌&&◌, ◌||◌, Option, none, some, List, [], ◌∷◌, ◌++◌, ◌==◌, ◌⧺◌,
  contains, if◌then◌else◌,
}
use spawnly.Prelude.Text.{one_of}
use spawnly.Keycloak.{
  ClientRep, ClientMap, Admin, ApiError, Outcome, done, failed, other, status_is,
}
use spawnly.Keycloak.Reps.{without}

abbrev is_hash : Char → Bool
is_hash c = one_of (b'#' ∷ []) (code c)

abbrev onto_first : Char → List String → List String
onto_first c [] = String.◌∷◌ c String.[] ∷ []
onto_first c (p ∷ ps) = String.◌∷◌ c p ∷ ps

-- `strings.Split(s, postLogoutSep)`
unfoldable pub split_hashes : String → List String
split_hashes String.[] = "" ∷ []
split_hashes (String.◌∷◌ c String.[]) = String.◌∷◌ c String.[] ∷ []
split_hashes (String.◌∷◌ c (String.◌∷◌ d s)) = elim (is_hash c && is_hash d) [
  | true ↦ "" ∷ split_hashes s
  | false ↦ onto_first c (split_hashes (String.◌∷◌ d s))
]

abbrev drop_blank : List String → List String
drop_blank [] = []
drop_blank (p ∷ ps) = let rest = drop_blank ps in if p == "" || p == "+" then rest else p ∷ rest

unfoldable pub split_post_logout : String → List String
unfolding split_hashes
split_post_logout s = drop_blank (split_hashes s)

-- `strings.Join(uris, postLogoutSep)`
unfoldable pub join_hashes : List String → String
join_hashes [] = ""
join_hashes (p ∷ []) = p
join_hashes (p ∷ q ∷ ps) = p ⧺ "##" ⧺ join_hashes (q ∷ ps)

abbrev pub add_uri : List String → String → List String × Bool
add_uri uris want = if contains uris want then (uris, false) else (uris ++ (want ∷ []), true)

abbrev pub remove_uri : List String → String → List String × Bool
remove_uri uris want = (without want uris, contains uris want)

-- Writes the two lists that an edit makes, if it changed one of them.
abbrev edited : List String × Bool → List String × Bool → ClientMap → Bool × ClientMap
edited (uris, changed) (logouts, also) rep = (
  changed || also,
  record {
    redirect_uris = if changed then uris else rep.redirect_uris;
    post_logout = if also then join_hashes logouts else rep.post_logout;
  },
)

unfoldable pub register_edit : String → String → ClientMap → Bool × ClientMap
unfolding split_post_logout join_hashes
register_edit redirect_uri post_logout_uri rep =
    edited (add_uri rep.redirect_uris redirect_uri)
      (add_uri (split_post_logout rep.post_logout) post_logout_uri) rep

unfoldable pub remove_edit : String → String → ClientMap → Bool × ClientMap
unfolding split_post_logout join_hashes
remove_edit redirect_uri post_logout_uri rep =
    edited (remove_uri rep.redirect_uris redirect_uri)
      (remove_uri (split_post_logout rep.post_logout) post_logout_uri) rep

abbrev client_named : String → List ClientRep → Option String
client_named client_id [] = none
client_named client_id (r ∷ rs) =
    let rest = client_named client_id rs in if r.client_id == client_id then some r.id else rest

-- The state of Keycloak, and `dashboardUUID`.
pub record Cached (K : Type 0) : Type 0 where
  pub backend : K
  pub dashboard_uuid : String

module _ {K : Type 0} (api : Admin K) (dashboard_client_id : String) where
  abbrev request {ℓ} : {A : Type ℓ} → (K → Outcome A × K) → Cached K → Outcome A × Cached K
  request f s = let (a, k) = f s.backend in (a, record s { backend = k })

  abbrev found_client : Option String → Cached K → Outcome String × Cached K
  found_client none s =
      (failed (other ("dashboard client " ⧺ dashboard_client_id ⧺ " not found")), s)
  found_client (some id) s = (done id, record s { dashboard_uuid = id })

  unfoldable pub resolve_dashboard_client_id : Cached K → Outcome String × Cached K
  resolve_dashboard_client_id s =
      if not (s.dashboard_uuid == "")
      then (done s.dashboard_uuid, s)
      else let (a, s1) = request (api.get_clients dashboard_client_id) s in
        elim a [
          | done rs ↦ found_client (client_named dashboard_client_id rs) s1
          | failed e ↦ (failed e, s1)
        ]

  abbrev pub invalidate_dashboard_cache : String → Cached K → Cached K
  invalidate_dashboard_cache stale s =
      if s.dashboard_uuid == stale then record s { dashboard_uuid = "" } else s

  abbrev forget_if_gone : String → ApiError → Cached K → Outcome {0} Unit × Cached K
  forget_if_gone uuid e s =
      (failed e, if status_is e 404 then invalidate_dashboard_cache uuid s else s)

  abbrev put_if : String → Bool × ClientMap → Cached K → Outcome {0} Unit × Cached K
  put_if uuid (false, rep) s = (done tt, s)
  put_if uuid (true, rep) s =
      let (a, s1) = request (api.put_client uuid rep) s in
      elim a [ done _ ↦ (done tt, s1) | failed e ↦ forget_if_gone uuid e s1 ]

  unfoldable pub edit_dashboard_client :
      (ClientMap → Bool × ClientMap) → Cached K → Outcome {0} Unit × Cached K
  unfolding resolve_dashboard_client_id status_is
  edit_dashboard_client mut s =
      let (a, s1) = resolve_dashboard_client_id s in
      elim a [
        | failed e ↦ (failed e, s1)
        | done uuid ↦
            let (b, s2) = request (api.get_client uuid) s1 in
            elim b [ done rep ↦ put_if uuid (mut rep) s2 | failed e ↦ forget_if_gone uuid e s2 ]
      ]

  unfoldable pub register_org_redirect_uris :
      String → String → Cached K → Outcome {0} Unit × Cached K
  unfolding edit_dashboard_client register_edit
  register_org_redirect_uris redirect_uri post_logout_uri =
      edit_dashboard_client (register_edit redirect_uri post_logout_uri)

  unfoldable pub remove_org_redirect_uris : String → String → Cached K → Outcome {0} Unit × Cached K
  unfolding edit_dashboard_client remove_edit
  remove_org_redirect_uris redirect_uri post_logout_uri =
      edit_dashboard_client (remove_edit redirect_uri post_logout_uri)
