-- ===== src/Keycloak/Paging.antt =====
-- internal/orgdirectory/keycloak/keycloak.go: the loops over pages return the whole list.
use spawnly.Prelude.{
  ℕ, zero, suc, ◌+◌, ◌*◌, ◌<◌, String, ◌≡◌, refl, sym, ap, ◌∙◌, inl, inr, true, false, List, [],
  ◌∷◌, ◌++◌, ◌==◌, map, length, take, ltb, Bool-cases, arith,
}
use spawnly.Keycloak.Organizations.{org_of, as_member, resolve_org_id, list_members}
use spawnly.Keycloak.Users.{as_user, list_users}
use spawnly.Keycloak.{Admin, UserRep, OrgRep, Outcome, done, page_size, pages, after_page, failed}
use spawnly.Keycloak.Requests.{and_or-done}

module _ {A : Type 0} where
  abbrev pub drop : ℕ → List A → List A
  drop zero xs = xs
  drop (suc n) [] = []
  drop (suc n) (x ∷ xs) = drop n xs

  take-drop : (n : ℕ) (xs : List A) → take n xs ++ drop n xs ≡ xs
  take-drop zero xs = refl
  take-drop (suc n) [] = refl
  take-drop (suc n) (x ∷ xs) = ap (λ ys. x ∷ ys) (take-drop n xs)

  drop-nil : (n : ℕ) → drop n [] ≡ []
  drop-nil zero = refl
  drop-nil (suc n) = refl

  drop-add : (m n : ℕ) (xs : List A) → drop n (drop m xs) ≡ drop (m + n) xs
  drop-add zero n xs = let e : n ≡ 0 + n = omega arith in ap (λ k. drop k xs) e
  drop-add (suc m) n [] = drop-nil n ∙ sym (drop-nil (suc m + n))
  drop-add (suc m) n (x ∷ xs) =
      let e : suc (m + n) ≡ suc m + n = omega arith in drop-add m n xs ∙ ap (λ k. drop k (x ∷ xs)) e

  -- A page is short exactly at the end of the list.
  take_short : (n : ℕ) (xs : List A) → ltb (length (take n xs)) n ≡ true → take n xs ≡ xs
  take_short zero xs h = cc h
  take_short (suc n) [] h = refl
  take_short (suc n) (x ∷ xs) h = ap (λ ys. x ∷ ys) (take_short n xs (ground arith))

  length-drop :
      (n : ℕ) (xs : List A)
      → ltb (length (take n xs)) n ≡ false
      → n + length (drop n xs) ≡ length xs
  length-drop zero xs h = omega arith
  length-drop (suc n) [] h = absurd (ground arith)
  length-drop (suc n) (x ∷ xs) h = omega (arith, length-drop n xs (ground arith))

module _ {K A : Type 0} (page : ℕ → K → Outcome (List A) × K) (all : List A)
    (answers : (first : ℕ) (k : K)
      → (page first k).0 ≡ done (take page_size (drop first all))) where
  pages_lem :
      (rounds first : ℕ) (k : K)
      → length (drop first all) < rounds * page_size
      → (pages page rounds first k).0 ≡ done (drop first all)
  unfolding pages
  pages_lem zero first k fits = absurd (omega (arith, fits))
  pages_lem (suc rounds) first k fits =
      let rest = drop first all in
      let got = take page_size rest in
      let next = pages page rounds (first + page_size) in
      let m = page first k in
      let step : pages page (suc rounds) first k ≡ after_page page next got m.1 =
        and_or-done m (λ e k1. (failed e, k1)) (after_page page next) got (answers first k) in
      elim (Bool-cases (ltb (length got) page_size)) [
        | inl short ↦
            ap (λ p. p.0) step ∙ rw (short, after_page) (ap done (take_short page_size rest short))
        | inr full ↦
            let left = length-drop page_size rest full in
            let later : (next m.1).0 ≡ done (drop page_size rest) =
              pages_lem rounds (first + page_size) m.1
                (rw (← drop-add first page_size all) (omega (arith, left, fits)))
              ∙ ap done (sym (drop-add first page_size all)) in
            ap (λ p. p.0) step
            ∙ rw (full, after_page)
                (ap (λ p. p.0)
                    (and_or-done (next m.1) (λ e k1. (failed e, k1))
                      (λ ys k1. (done (got ++ ys), k1)) (drop page_size rest) later)
                  ∙ ap done (take-drop page_size rest))
      ]

module _ {K : Type 0} (api : Admin K) (of_org everyone : List UserRep) (rounds : ℕ)
    (org_fits : length of_org < rounds * page_size)
    (realm_fits : length everyone < rounds * page_size) where
  -- On a Keycloak that answers the page from `first` on by the next hundred entries, whatever its state,
  -- `ListMembers` returns the whole list of the members of an organization that is there, in its order,
  -- and `ListUsers` the whole list of the users of the realm, whatever the one and the other list are,
  -- for any bound on the rounds that exceeds the number of full pages of both.
  pub listings_complete :
      (org_id : String) (os : List OrgRep) (k : K)
      → ((first : ℕ) (k : K)
          → (api.get_members (org_of org_id os) first k).0
            ≡ done (take page_size (drop first of_org)))
      → ((first : ℕ) (k : K)
          → (api.get_users first k).0 ≡ done (take page_size (drop first everyone)))
      → (api.get_organizations org_id k).0 ≡ done os
      → (org_of org_id os == "") ≡ false
      → ((list_members api rounds org_id k).0 ≡ done (map as_member of_org))
        × ((list_users api rounds k).0 ≡ done (map as_user everyone))
  unfolding list_members list_users resolve_org_id
  listings_complete org_id os k members users got named =
      let uuid = org_of org_id os in
      let q = api.get_organizations org_id k in
      let found : resolve_org_id api org_id k ≡ (done uuid, q.1) =
        and_or-done q (λ e k1. (failed e, k1)) (λ os k1. (done (org_of org_id os), k1)) os got in
      let m = pages (api.get_members uuid) rounds 0 q.1 in
      let u = pages api.get_users rounds 0 k in
      (
        rw (found, named)
            (ap (λ p. p.0)
              (and_or-done m (λ e k1. (failed e, k1)) (λ us k1. (done (map as_member us), k1))
                of_org (pages_lem (api.get_members uuid) of_org members rounds 0 q.1 org_fits))),
        ap (λ p. p.0)
            (and_or-done u (λ e k1. (failed e, k1)) (λ us k1. (done (map as_user us), k1)) everyone
              (pages_lem api.get_users everyone users rounds 0 k realm_fits)),
      )
