-- ===== src/Hubspot/Contact.antt =====
-- `upsert_contact` of src/utils/hubspot_client/__init__.py.
use property_management_lead.Common.{
  ℕ, none, some, List, [], ◌∷◌, ◌++◌, Text, codes, text_eq, if◌then◌else◌,
}
use property_management_lead.Common.Dict.{lookup, insert}
use property_management_lead.Common.Result.{
  Result, ok, raised, key_error, type_error, value_error, other_error, hubspot_error,
}
use property_management_lead.Common.Value.{
  Value, str, array, object, nil, cons, field, Object, entries, truthy, get, Runtime,
}
use property_management_lead.Hubspot.Window.{wait_if_needed}
use property_management_lead.Hubspot.Api.{Reply, request_error, response, Input, Call, parse_error}

module _ (runtime : Runtime) where
  -- `upsert_contact` posts one input, with the email among its properties.
  contact_input : Text → Object → Input
  contact_input email properties = record {
    id = str email;
    properties = elim (lookup (codes "email") properties) [
      | none ↦ insert (codes "email") (str email) properties
      | some value ↦ properties
    ];
  }

  -- `str(results[0].get("id", "")) if results else ""`
  first_id : Value → Result Text
  first_id (array (cons (object fields) rest)) =
      ok (runtime.to_str (get (entries fields) (codes "id") (str [])))
  first_id (array (cons value rest)) = raised other_error (codes "object has no attribute 'get'")
  first_id (str (c ∷ s)) = raised other_error (codes "'str' object has no attribute 'get'")
  first_id (object (field key value rest)) = raised key_error (codes "0")
  first_id value =
      if truthy value then raised type_error (codes "object is not subscriptable") else ok []

  contact_reply : Reply → Result Text
  unfolding first_id parse_error
  contact_reply (request_error message) = raised hubspot_error (codes "Request failed: " ++ message)
  contact_reply (response r) = if r.is_error then parse_error runtime r else elim r.json [
    | none ↦ raised value_error (codes "JSONDecodeError")
    | some body ↦ first_id (get body (codes "results") (array nil))
  ]

  unfoldable pub upsert_contact : (List Input → Reply) → List ℕ → ℕ → ℕ → Text → Object → Call Text
  unfolding contact_input contact_reply
  upsert_contact post timestamps now later email properties = record {
    timestamps = wait_if_needed timestamps now later;
    posted = some (contact_input email properties ∷ []);
    result = contact_reply (post (contact_input email properties ∷ []));
  }
