-- ===== src/Discovery/Save.antt =====
-- `save_to_database` of src/agents/discovery.py: the tables `properties` and `ownership`. Columns
-- that the method does not write are left out. An exception leaves what was executed before it.
mod Owned
pub mod Integrity
use property_management_lead.Common.{
  ℕ, zero, suc, ◌+◌, Bool, true, false, not, ◌&&◌, ◌||◌, Option, none, some, List, [], ◌∷◌, ◌++◌,
  map, Text, codes, text_eq, Unicode, strip, is_empty, ◌==◌, eqb, ltb, ◌^◌, if◌then◌else◌,
}
use property_management_lead.Common.Dict.{Dict, lookup, insert_or_replace}
use property_management_lead.Common.Result.{
  Kind, Result, ok, raised, other_error, overflow_error, database_error, runtime_error, ◌>>=◌,
}
use property_management_lead.Common.Value.{ℤ, pos, negsuc, Runtime}
use property_management_lead.Discovery.Address.{is_absentee_owner}
use property_management_lead.Discovery.Columns.{Row, no_strip}

pub record Property : Type 0 where
  pub county : Text
  pub property_address : Text
  pub property_type : Option Text
  pub assessed_value : Option ℤ

pub record Owner : Type 0 where
  pub id : ℕ
  pub apn : Text
  pub recorded_owner : Text
  pub mailing_address : Option Text
  pub is_absentee : Bool

pub record Tables : Type 0 where
  pub properties : Dict Text Property
  pub ownership : List Owner
  pub next_id : ℕ

-- `rec.get(key, default)`
unfoldable pub field_of : Row → Text → Option Text → Option Text
field_of record_ key default = elim (lookup key record_) [ none ↦ default | some value ↦ value ]

-- SELECT id FROM ownership WHERE apn = ? AND recorded_owner = ?
unfoldable pub find_owner : List Owner → Text → Text → Option ℕ
find_owner [] apn name = none
find_owner (o ∷ owners) apn name =
    let rest = find_owner owners apn name in
    if o.apn == apn && o.recorded_owner == name then some o.id else rest

-- UPDATE ownership … WHERE id = ?
unfoldable pub update_owner : List Owner → ℕ → Option Text → Bool → List Owner
update_owner owners id mailing absentee =
    map
      (λ (o : Owner).
        if eqb o.id id then record o { mailing_address = mailing; is_absentee = absentee } else o)
      owners

insert_owner : Tables → Text → Text → Option Text → Bool → Tables
insert_owner db apn name mailing absentee = record db {
  ownership =
      db.ownership
      ++ (record {
        id = db.next_id;
        apn = apn;
        recorded_owner = name;
        mailing_address = mailing;
        is_absentee = absentee;
      }
          ∷ []);
  next_id = db.next_id + 1;
}

unfoldable pub upsert_owner : Tables → Text → Text → Option Text → Bool → Tables
unfolding find_owner update_owner insert_owner
upsert_owner db apn name mailing absentee = elim (find_owner db.ownership apn name) [
  | none ↦ insert_owner db apn name mailing absentee
  | some id ↦ record db { ownership = update_owner db.ownership id mailing absentee }
]

-- A SQLite INTEGER has 64 bits, with sign.
unfoldable pub fits : Option ℤ → Bool
fits none = true
fits (some (pos n)) = ltb n (2 ^ 63)
fits (some (negsuc n)) = ltb n (2 ^ 63)

upsert_property : Tables → Text → Property → Tables
upsert_property db apn property = record db {
  properties = insert_or_replace apn property db.properties;
}

-- An effect on the tables that may raise.
abbrev pub Effect : Type 0 → Type 0
Effect A = Tables → Result A × Tables

module _ (runtime : Runtime) where
  -- `_safe_int`
  unfoldable pub safe_int : Option Text → Option ℤ
  safe_int none = none
  safe_int (some value) = runtime.parse_int value

  -- The owner part: nothing without a recorded owner.
  save_owner : Row → Text → Text → Option Text → Tables → Tables
  unfolding upsert_owner field_of
  save_owner rec apn address none db = db
  save_owner rec apn address (some name) db =
      if is_empty name
      then db
      else upsert_owner db apn name (field_of rec (codes "mailing_address") (some []))
          (is_absentee_owner runtime.unicode address (field_of rec (codes "mailing_address") none))

  -- The columns `county` and `property_address` are NOT NULL.
  save_columns : Row → Text → Option Text → Option Text → Effect (Unit {0})
  unfolding upsert_property save_owner safe_int
  save_columns rec apn (some county) (some address) db = (
    ok tt,
    save_owner rec apn address (field_of rec (codes "recorded_owner") (some [])) (
        upsert_property db apn (record {
          county = county;
          property_address = address;
          property_type = field_of rec (codes "property_type") none;
          assessed_value = safe_int (field_of rec (codes "assessed_value") none);
        })),
  )
  save_columns rec apn _ _ db = (raised database_error (codes "NOT NULL constraint failed"), db)

  -- The parameters are bound first.
  bind_columns : Row → Text → Effect (Unit {0})
  unfolding save_columns safe_int fits
  bind_columns rec apn db =
      if fits (safe_int (field_of rec (codes "assessed_value") none))
      then save_columns rec apn (field_of rec (codes "county") (some []))
          (field_of rec (codes "property_address") (some [])) db
      else (raised overflow_error (codes "Python int too large to convert to SQLite INTEGER"), db)

  -- One turn of the loop: whether the record was saved.
  save_record : Row → Option Text → Effect Bool
  unfolding bind_columns
  save_record rec none db = (raised other_error no_strip, db)
  save_record rec (some text) db =
      let apn = strip runtime.unicode.is_space text in
      if is_empty apn
      then (ok false, db)
      else (let (done, db') = bind_columns rec apn db in ((done >>= λ _. ok true), db'))

  -- The loop over the records, with the count of those saved.
  unfoldable pub save_records : ℕ → List Row → Effect ℕ
  unfolding save_record
  save_records saved [] db = (ok saved, db)
  save_records saved (rec ∷ recs) db =
      let (done, db') = save_record rec (field_of rec (codes "apn") (some [])) db in
      elim done [
        | ok stored ↦ save_records (if stored then saved + 1 else saved) recs db'
        | raised kind message ↦ (raised kind message, db')
      ]

  -- Without a connection nothing is saved.
  unfoldable pub save_to_database : List Row → Option Tables → Result ℕ × Option Tables
  unfolding save_records
  save_to_database recs none =
      (raised runtime_error (codes "DiscoveryAgent has no database connection"), none)
  save_to_database recs (some db) = let (done, db') = save_records 0 recs db in (done, some db')
