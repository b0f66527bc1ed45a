-- ===== src/Registry/Dynamostore/Consents.antt =====
-- internal/registry/dynamostore/store.go: the consents. The id of a consent is kept when it is granted
-- again, and with it the key by which it is found.
use spawnly.Prelude.{
  ℕ, zero, suc, String, Bool, true, false, not, ◌&&◌, Option, none, some, List, [], ◌∷◌, ◌==◌, ◌⧺◌,
  if◌then◌else◌,
}
use spawnly.Prelude.Assoc.{lookup}
use spawnly.Consent.{ConsentRecord, consent_edge_key}
use spawnly.Registry.Types.{AgentTemplate}
use spawnly.Registry.Dynamostore.{
  Item, Answer, Service, Update, Body, returned, template, agent, event, org, consent, request,
  marker, gsi1, gsi2, then_,
}
use spawnly.Registry.Dynamostore.Keys.{sk_meta, gsi1_consent, con_pk, gen_id}
use spawnly.Registry.Dynamostore.Items.{misread, read_item, read_items, always, on_body}
use spawnly.Registry.Dynamostore.Catalog.{get_template}

abbrev pub edge_key_of : ConsentRecord → String
edge_key_of rec = consent_edge_key rec.user_id rec.parent_type rec.child_type

abbrev pub con_item : String → ConsentRecord → Item
con_item edge rec = record {
  pk = con_pk edge;
  sk = sk_meta;
  gsi1pk = gsi1_consent;
  gsi1sk = edge;
  gsi2pk = "CONID#" ⧺ rec.id;
  body = consent rec;
}

abbrev pub as_consent : Body → Answer ConsentRecord
as_consent (consent c) = returned c
as_consent (template t) = misread
as_consent (agent r) = misread
as_consent (event e) = misread
as_consent (org o) = misread
as_consent (request r) = misread
as_consent (marker id) = misread

-- The attribute `id` of an item, if it has one.
abbrev id_or : String → Body → String
id_or cand (consent old) = old.id
id_or cand other_body = cand

-- The update expression of a grant, with `if_not_exists` on the id and on its key.
abbrev pub regrant : ConsentRecord → String → Option Item → Item
regrant rec cand none = con_item (edge_key_of rec) (record rec { id = cand; revoked = false })
regrant rec cand (some i) = record i {
  gsi1pk = gsi1_consent;
  gsi1sk = edge_key_of rec;
  gsi2pk = if i.gsi2pk == "" then "CONID#" ⧺ cand else i.gsi2pk;
  body = consent (record rec { id = id_or cand i.body; revoked = false });
}

-- `cand` is the id that `genID("consent")` makes.
abbrev pub consent_upsert_update : ConsentRecord → String → Update
consent_upsert_update rec cand = record {
  key = (con_pk (edge_key_of rec), sk_meta);
  test = always;
  change = regrant rec cand;
}

abbrev set_revoked : Body → Body
set_revoked (consent c) = consent (record c { revoked = true })
set_revoked other_body = other_body

module _ {T : Type 0} (db : Service T) where
  unfoldable pub upsert_consent : ConsentRecord → ℕ → String → T → Answer ConsentRecord × T
  unfolding consent_edge_key gen_id
  upsert_consent rec nano random s =
      then_ (db.update_item (consent_upsert_update rec (gen_id "consent" nano random)) s)
        (λ i s1. (as_consent i.body, s1))

  unfoldable pub find_consent : String → String → String → T → Answer (Option ConsentRecord) × T
  unfolding consent_edge_key
  find_consent user_id parent_type child_type s =
      then_ (db.get_item true (con_pk (consent_edge_key user_id parent_type child_type), sk_meta) s)
        (λ i s1. (read_item as_consent i, s1))

  unfoldable pub list_consents : String → T → Answer (List ConsentRecord) × T
  list_consents user_id s =
      let begins = if user_id == "" then "" else user_id ⧺ "|" in
      then_ (db.query (record { index = gsi1; hash = gsi1_consent; begins = begins }) s)
        (λ is s1. (read_items as_consent is, s1))

  -- The index may lag: the query is made again while it finds nothing.
  consents_named : ℕ → String → T → Answer (List Item) × T
  consents_named zero id s = (returned [], s)
  consents_named (suc attempts) id s =
      then_ (db.query (record { index = gsi2; hash = "CONID#" ⧺ id; begins = "" }) s) (λ is s1.
        elim is [ [] ↦ consents_named attempts id s1 | i ∷ others ↦ (returned (i ∷ others), s1) ])

  abbrev revoke_row : String → Item → ConsentRecord → T → Answer Bool × T
  revoke_row user_id i rec s =
      if not (user_id == "") && not (rec.user_id == user_id)
      then (returned false, s)
      else then_
          (db.update_item
            (record { key = (i.pk, i.sk); test = always; change = on_body set_revoked }) s)
          (λ _ s1. (returned true, s1))

  unfoldable pub revoke_consent : String → String → T → Answer Bool × T
  unfolding consents_named
  revoke_consent id user_id s = then_ (consents_named 4 id s) (λ is s1. elim is [
    | [] ↦ (returned false, s1)
    | i ∷ others ↦ then_ (as_consent i.body, s1) (revoke_row user_id i)
  ])

  -- `time.ParseDuration` and `Add` are an argument, as for the in-memory store.
  abbrev expiry_of : (String → ℕ → Option ℕ) → String → ℕ → Option AgentTemplate → Option ℕ
  expiry_of deadline child_type from none = none
  expiry_of deadline child_type from (some tpl) =
      elim (lookup child_type tpl.delegation.child_policies) [
        | none ↦ none
        | some cp ↦ if cp.consent_ttl == "" then none else deadline cp.consent_ttl from
      ]

  unfoldable pub consent_expiry :
      (String → ℕ → Option ℕ) → String → String → ℕ → T → Answer (Option ℕ) × T
  unfolding get_template lookup
  consent_expiry deadline parent_type child_type from s =
      then_ (get_template db parent_type s)
        (λ tpl s1. (returned (expiry_of deadline child_type from tpl), s1))
