-- ===== src/Compliance.antt =====
-- src/compliance/dnc_checker.py: the Do-Not-Call check and the internal list that it reads.
-- The table `dnc_list` is its rows by primary key, the phone number, each with its `source`;
-- `added_at` is left out. Log lines are left out.
pub mod Numbers
pub mod Listed
use property_management_lead.Common.{
  ℕ, ◌≡◌, Bool, true, false, not, ◌&&◌, ◌||◌, Option, none, some, List, [], ◌∷◌, Text, codes,
  Unicode, length, take, drop, keep, contains, starts_with, strip, text_eq, is_empty, leb, eqb,
  if◌then◌else◌,
}
use property_management_lead.Common.Dict.{Dict, lookup, insert_or_ignore, erase}
use property_management_lead.Common.Result.{Result, ok, raised, database_error}

pub record DncConfig : Type 0 where
  pub enabled : Bool
  pub area_codes : List Text
  pub block_international : Bool

abbrev pub default_config : DncConfig
default_config = record { enabled = true; area_codes = []; block_international = true }

-- phone ↦ source, which may be NULL
abbrev pub DncList : Type 0
DncList = Dict Text (Option Text)

-- Where a statement of SQLite may raise: nowhere, at `execute`, or at `commit`.
pub data Fault : Type 0 where
  no_fault : Fault
  execute_fault commit_fault : Text → Fault

unfoldable pub strip_country_code : Text → Text
strip_country_code digits =
    if eqb (length digits) 11 && starts_with digits (codes "1")
    then drop 1 digits
    else if eqb (length digits) 12 && starts_with digits (codes "11")
    then drop 2 digits
    else digits

unfoldable pub get_area_code : Text → Option Text
get_area_code digits =
    if not (is_empty digits) && leb 3 (length digits) then some (take 3 digits) else none

-- `area_code and config.area_codes and area_code in config.area_codes`
area_is_blocked : List Text → Option Text → Bool
area_is_blocked area_codes none = false
area_is_blocked area_codes (some area) = not (is_empty area) && contains area_codes area

-- `db_conn is not None` and the SELECT finds a row
is_listed : Option DncList → Text → Bool
is_listed none phone = false
is_listed (some table) phone = elim (lookup phone table) [ none ↦ false | some source ↦ true ]

-- The checks on a normalised number.
blocks_number : DncConfig → Option DncList → Option Text → Bool
blocks_number config db none = false
blocks_number config db (some phone) =
    if area_is_blocked config.area_codes (get_area_code phone)
    then true
    else if is_listed db phone
    then true
    else false

-- The `try` block: what `execute` wrote stays visible on the connection if `commit` raises.
write_entry : DncList → Text → Option Text → Fault → Bool × DncList
write_entry table phone source no_fault = (true, insert_or_ignore phone source table)
write_entry table phone source (execute_fault message) = (false, table)
write_entry table phone source (commit_fault message) = (false, insert_or_ignore phone source table)

-- `cur.rowcount > 0`: the key was there.
delete_entry : DncList → Text → Fault → Result Bool × DncList
delete_entry table phone no_fault = (ok (is_listed (some table) phone), erase phone table)
delete_entry table phone (execute_fault message) = (raised database_error message, table)
delete_entry table phone (commit_fault message) = (raised database_error message, erase phone table)

module _ (unicode : Unicode) where
  unfoldable pub normalise_phone : Text → Option Text
  unfolding strip_country_code keep
  normalise_phone phone =
      let digits = strip_country_code (keep unicode.is_digit phone) in
      if eqb (length digits) 10 then some digits else none

  pub is_foreign : Text → Bool
  is_foreign phone =
      let clean = strip unicode.is_space phone in
      starts_with clean (codes "+") && not (starts_with clean (codes "+1"))

  check_with : Text → DncConfig → Option DncList → Bool
  unfolding blocks_number area_is_blocked is_listed
  check_with phone config db =
      if not config.enabled
      then false
      else if config.block_international && is_foreign phone
      then true
      else blocks_number config db (normalise_phone phone)

  -- `config` may be left out.
  unfoldable pub check_dnc : Text → Option DncConfig → Option DncList → Bool
  unfolding check_with
  check_dnc phone none db = check_with phone default_config db
  check_dnc phone (some config) db = check_with phone config db

  unfoldable pub add_dnc_number : DncList → Text → Option Text → Fault → Bool × DncList
  unfolding write_entry
  add_dnc_number table phone source fault = elim (normalise_phone phone) [
    | none ↦ (false, table)
    | some normalized ↦ write_entry table normalized source fault
  ]

  unfoldable pub remove_dnc_number : DncList → Text → Fault → Result Bool × DncList
  unfolding delete_entry is_listed
  remove_dnc_number table phone fault = elim (normalise_phone phone) [
    | none ↦ (ok false, table)
    | some normalized ↦ delete_entry table normalized fault
  ]
