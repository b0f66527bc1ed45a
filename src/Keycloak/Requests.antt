-- ===== src/Keycloak/Requests.antt =====
-- How a request of the adapter is followed by the rest of an operation.
use spawnly.Prelude.{◌≡◌, ap}
use spawnly.Keycloak.{ApiError, Outcome, done, failed, and_or}

module _ {K A B : Type 0} where
  pub and_or-done :
      (m : Outcome A × K) (f : ApiError → K → Outcome B × K) (g : A → K → Outcome B × K) (a : A)
      → m.0 ≡ done a
      → and_or m f g ≡ g a m.1
  and_or-done (done b, k) f g a e = let same : b ≡ a = cc e in ap (λ z. g z k) same
  and_or-done (failed x, k) f g a e = cc e
