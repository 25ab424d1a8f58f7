-- ===== src/Captcha/Sessions.antt =====
-- A session that src/captcha/handler.py saved can be resumed.
use property_management_lead.Common.{
  ◌≡◌, ◌≢◌, refl, ◌∙◌, Bool, false, Option, none, some, [], Text, text_eq, ◌==◌, eq_iff, eq_refl,
  arith,
}
use property_management_lead.Common.Dict.{
  Dict, lookup, insert_or_replace, lookup-insert_or_replace, NodupKeys, insert_or_replace-NodupKeys,
}
use property_management_lead.Common.Json.{Json, dict_value}
use property_management_lead.Common.Result.{ok}
use property_management_lead.Common.Value.{Value, object, entries, Fields}
use property_management_lead.Captcha.{
  Page, session_data, Sessions, created, save_session_state, resume_from_session, restore, caught,
}

restore-dumps :
    (json : Json) (fields : Fields)
    → json.loads (json.dumps (object fields)) ≡ ok (object fields)
    → restore json (json.dumps (object fields)) ≡ ok (entries fields)
unfolding restore dict_value caught
restore-dumps json fields back = rw (restore, back) refl

resume_found :
    (json : Json) (table : Dict Text Text) (id : Text) {text : Text}
    → lookup id table ≡ some text
    → resume_from_session json (some table) id ≡ restore json text
unfolding resume_from_session
resume_found json table id e = rw (resume_from_session, e) refl

resume_same :
    (json : Json) (table table' : Dict Text Text) (id : Text)
    → lookup id table ≡ lookup id table'
    → resume_from_session json (some table) id ≡ resume_from_session json (some table') id
unfolding resume_from_session
resume_same json table table' id e = rw (resume_from_session, e) refl

-- Where JSON reads back the session's data that it wrote, resuming under the id that saving
-- returned gives these data, whether or not there was a table before.
pub resume-save_session_state :
    (json : Json) (db : Sessions) (state_id : Text) (import_error : Bool) (page : Option Page)
    (target : Value)
    → json.loads (json.dumps (object (session_data import_error page target)))
      ≡ ok (object (session_data import_error page target))
    → let (id, db') = save_session_state json db state_id import_error page target in
      resume_from_session json db' id ≡ ok (entries (session_data import_error page target))
unfolding save_session_state resume_from_session
resume-save_session_state json db state_id import_error page target back =
    let saved = json.dumps (object (session_data import_error page target)) in
    let stored : lookup state_id (insert_or_replace state_id saved (created db)) ≡ some saved =
      rw (lookup-insert_or_replace, eq_refl state_id) refl in
    resume_found json (insert_or_replace state_id saved (created db)) state_id stored
    ∙ restore-dumps json (session_data import_error page target) back

-- Saving a session changes no other one.
pub resume-save_session_state_other :
    (json : Json) (table : Dict Text Text) (state_id other : Text) (import_error : Bool)
    (page : Option Page) (target : Value)
    → other ≢ state_id
    → resume_from_session json
        (save_session_state json (some table) state_id import_error page target).1
        other
      ≡ resume_from_session json (some table) other
unfolding save_session_state resume_from_session created
resume-save_session_state_other json table state_id other import_error page target apart =
    let differs : (other == state_id) ≡ false = ground (arith, eq_iff other state_id, apart) in
    resume_same json _ table other (rw (lookup-insert_or_replace, differs) refl)

-- The sessions, if there is a table of them, each id once.
abbrev pub UniqueSessions : Sessions → Type 0
UniqueSessions none = Unit
UniqueSessions (some table) = NodupKeys table

-- Saving a session keeps the ids apart.
pub save_session_state-UniqueSessions :
    (json : Json) (db : Sessions) (state_id : Text) (import_error : Bool) (page : Option Page)
    (target : Value)
    → UniqueSessions db
    → UniqueSessions (save_session_state json db state_id import_error page target).1
unfolding save_session_state created
save_session_state-UniqueSessions json none state_id import_error page target u =
    insert_or_replace-NodupKeys state_id _ [] tt
save_session_state-UniqueSessions json (some table) state_id import_error page target u =
    insert_or_replace-NodupKeys state_id _ table u
