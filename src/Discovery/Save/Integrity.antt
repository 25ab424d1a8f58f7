-- ===== src/Discovery/Save/Integrity.antt =====
-- The tables that src/agents/discovery.py keeps: no property twice, no owner of a property twice,
-- and no owner without a property.
use property_management_lead.Common.{
  ℕ, ◌+◌, ◌≡◌, ◌≢◌, refl, Bool, Option, none, some, List, [], ◌∷◌, Text, codes, text_eq, strip,
  is_empty, eq_refl, if◌then◌else◌, arith, Bool-cases, inl, inr, Option-cases,
}
use property_management_lead.Common.Dict.{
  lookup, lookup-insert_or_replace, NodupKeys, insert_or_replace-NodupKeys,
}
use property_management_lead.Common.Result.{Result-cases}
use property_management_lead.Common.Value.{Runtime}
use property_management_lead.Discovery.Columns.{Row}
use property_management_lead.Discovery.Save.{
  Property, Tables, field_of, find_owner, update_owner, insert_owner, upsert_owner, upsert_property,
  save_owner, save_columns, bind_columns, fits, save_record, save_records, save_to_database,
  safe_int,
}
use property_management_lead.Discovery.Save.Owned.{
  IsOwned, IsOwned-more, update_owner-IsOwned, insert-IsOwned,
}

pub record IsConsistent (db : Tables) : Type 0 where
  pub nodup : NodupKeys db.properties
  pub owned : IsOwned db.properties db.next_id db.ownership

upsert_property-IsConsistent :
    (db : Tables) (apn : Text) (property : Property)
    → IsConsistent db
    → IsConsistent (upsert_property db apn property)
unfolding upsert_property
upsert_property-IsConsistent db apn property c = record {
  nodup = insert_or_replace-NodupKeys apn property db.properties c.nodup;
  owned =
      IsOwned-more _ _ db.next_id db.ownership
        (λ key h. rw lookup-insert_or_replace (ground (arith, h))) c.owned;
}

upsert_owner_new :
    (db : Tables) (apn name : Text) (mailing : Option Text) (absentee : Bool)
    → find_owner db.ownership apn name ≡ none
    → upsert_owner db apn name mailing absentee ≡ insert_owner db apn name mailing absentee
unfolding upsert_owner
upsert_owner_new db apn name mailing absentee e = rw (upsert_owner, e) refl

upsert_owner_known :
    (db : Tables) (apn name : Text) (mailing : Option Text) (absentee : Bool) (id : ℕ)
    → find_owner db.ownership apn name ≡ some id
    → upsert_owner db apn name mailing absentee
      ≡ record db { ownership = update_owner db.ownership id mailing absentee }
unfolding upsert_owner
upsert_owner_known db apn name mailing absentee id e = rw (upsert_owner, e) refl

insert_owner-IsConsistent :
    (db : Tables) (apn name : Text) (mailing : Option Text) (absentee : Bool)
    → lookup apn db.properties ≢ none
    → find_owner db.ownership apn name ≡ none
    → IsConsistent db
    → IsConsistent (insert_owner db apn name mailing absentee)
unfolding insert_owner
insert_owner-IsConsistent db apn name mailing absentee known e c = record {
  nodup = c.nodup;
  owned = insert-IsOwned db.properties db.next_id db.ownership _ refl known e c.owned;
}

upsert_owner-IsConsistent :
    (db : Tables) (apn name : Text) (mailing : Option Text) (absentee : Bool)
    → lookup apn db.properties ≢ none
    → IsConsistent db
    → IsConsistent (upsert_owner db apn name mailing absentee)
upsert_owner-IsConsistent db apn name mailing absentee known c =
    elim (Option-cases (find_owner db.ownership apn name)) [
      | inl e ↦
          rw (upsert_owner_new db apn name mailing absentee e)
            (insert_owner-IsConsistent db apn name mailing absentee known e c)
      | inr (id, e) ↦ rw (upsert_owner_known db apn name mailing absentee id e) (record {
        nodup = c.nodup;
        owned =
            update_owner-IsOwned db.properties db.next_id db.ownership id mailing absentee c.owned;
      })
    ]

module _ (runtime : Runtime) where
  save_owner-IsConsistent :
      (rec : Row) (apn address : Text) (name : Option Text) (db : Tables)
      → lookup apn db.properties ≢ none
      → IsConsistent db
      → IsConsistent (save_owner runtime rec apn address name db)
  unfolding save_owner
  save_owner-IsConsistent rec apn address none db known c = c
  save_owner-IsConsistent rec apn address (some name) db known c =
      elim (Bool-cases (is_empty name)) [
        | inl e ↦ rw e c
        | inr e ↦ rw e (upsert_owner-IsConsistent db apn name _ _ known c)
      ]

  save_columns-IsConsistent :
      (rec : Row) (apn : Text) (county address : Option Text) (db : Tables)
      → IsConsistent db
      → IsConsistent ((save_columns runtime rec apn county address db).1)
  unfolding save_columns upsert_property
  save_columns-IsConsistent rec apn none address db c = c
  save_columns-IsConsistent rec apn (some county) none db c = c
  save_columns-IsConsistent rec apn (some county) (some address) db c =
      save_owner-IsConsistent rec apn address _ _
        (rw lookup-insert_or_replace (ground (arith, eq_refl apn)))
        (upsert_property-IsConsistent db apn _ c)

  bind_columns-IsConsistent :
      (rec : Row) (apn : Text) (db : Tables)
      → IsConsistent db
      → IsConsistent ((bind_columns runtime rec apn db).1)
  unfolding bind_columns
  bind_columns-IsConsistent rec apn db c =
      elim (Bool-cases (fits (safe_int runtime (field_of rec (codes "assessed_value") none)))) [
        | inl e ↦ rw e (save_columns-IsConsistent rec apn _ _ db c)
        | inr e ↦ rw e c
      ]

  save_record-IsConsistent :
      (rec : Row) (apn : Option Text) (db : Tables)
      → IsConsistent db
      → IsConsistent ((save_record runtime rec apn db).1)
  unfolding save_record
  save_record-IsConsistent rec none db c = c
  save_record-IsConsistent rec (some text) db c =
      elim (Bool-cases (is_empty (strip runtime.unicode.is_space text))) [
        | inl e ↦ rw e c
        | inr e ↦ rw e (bind_columns-IsConsistent rec _ db c)
      ]

  pub save_records-IsConsistent :
      (recs : List Row) (saved : ℕ) (db : Tables)
      → IsConsistent db
      → IsConsistent ((save_records runtime saved recs db).1)
  unfolding save_records
  save_records-IsConsistent [] saved db c = c
  save_records-IsConsistent (rec ∷ recs) saved db c =
      let step = save_record-IsConsistent rec (field_of rec (codes "apn") (some [])) db c in
      elim (Result-cases ((save_record runtime rec (field_of rec (codes "apn") (some [])) db).0)) [
        | inl (stored, e) ↦
            rw (save_records, e)
              (save_records-IsConsistent recs (if stored then saved + 1 else saved) _ step)
        | inr (kind, message, e) ↦ rw (save_records, e) step
      ]

  -- Saving any records into consistent tables (no APN twice; each ownership row with an id below
  -- the next one, an APN in `properties`, and an APN and owner that no other row has) leaves
  -- consistent tables, whether it returns or raises half-way.
  pub save_to_database-IsConsistent :
      (recs : List Row) (db : Tables)
      → IsConsistent db
      → (db' : Tables) × ((save_to_database runtime recs (some db)).1 ≡ some db') × IsConsistent db'
  unfolding save_to_database
  save_to_database-IsConsistent recs db c = (_, refl, save_records-IsConsistent recs 0 db c)
