-- ===== src/Tests/Captcha.antt =====
-- Runs of src/captcha/handler.py, with a JSON of one object.
use property_management_lead.Common.{
  ◌≡◌, refl, false, none, some, [], codes, text_eq, ◌==◌, if◌then◌else◌,
}
use property_management_lead.Common.Json.{Json}
use property_management_lead.Common.Result.{ok, raised, json_decode_error}
use property_management_lead.Common.Value.{str, object, array, nil, entries, Fields, end, field}
use property_management_lead.Captcha.{Page, session_data, save_session_state, resume_from_session}
use property_management_lead.Captcha.Sessions.{resume-save_session_state}

abbrev page : Page
page = record {
  capture = ok (array nil, (str (codes "{}"), str (codes "https://a.b")));
  url = str (codes "https://a.b");
}

abbrev session : Fields
session = field (codes "cookies") (array nil) (
    field (codes "local_storage") (str (codes "{}")) (
      field (codes "target") (str (codes "County"))
        (field (codes "url") (str (codes "https://a.b")) end)))

abbrev json : Json
json = record {
  dumps = λ value. codes "{...}";
  loads = λ s.
      if s == codes "{...}"
      then ok (object session)
      else raised json_decode_error (codes "Expecting value");
  dict_of = λ items. ok [];
}

resume-save_session_state_example :
    resume_from_session json
      (save_session_state json none (codes "17") false (some page) (str (codes "County"))).1
      (codes "17")
    ≡ ok (entries (session_data false (some page) (str (codes "County"))))
unfolding save_session_state session_data text_eq
resume-save_session_state_example =
    resume-save_session_state json none (codes "17") false (some page) (str (codes "County")) refl
