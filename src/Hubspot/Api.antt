-- ===== src/Hubspot/Api.antt =====
-- `batch_upsert` of src/utils/hubspot_client/__init__.py, and the errors that its calls raise.
-- What HubSpot answers is an argument; `is_error` is httpx's.
pub mod Batch
pub mod Errors
use property_management_lead.Common.{
  ℕ, ◌≡◌, Bool, true, false, ◌||◌, Option, none, some, List, [], ◌∷◌, ◌++◌, map, Text, codes,
  text_eq, ◌==◌, length, take, is_empty, eqb, if◌then◌else◌,
}
use property_management_lead.Common.Dict.{Dict, lookup, insert, erase}
use property_management_lead.Common.Result.{
  Kind, Result, ok, raised, key_error, type_error, value_error, other_error, hubspot_auth_error,
  hubspot_rate_limit_error, hubspot_validation_error, hubspot_error, ◌>>=◌,
}
use property_management_lead.Common.Value.{
  Value, null, int, str, array, object, pos, Items, nil, cons, Fields, end, field, Object, entries,
  truthy, get, Runtime,
}
use property_management_lead.Hubspot.Window.{wait_if_needed}

pub record Response : Type 0 where
  pub status : ℕ
  pub is_error : Bool
  pub text : Text
  -- `response.json()`, which raises if there is no value
  pub json : Option Object

pub data Reply : Type 0 where
  request_error : Text → Reply
  response : Response → Reply

-- An element of `inputs`: `idProperty` is always "email".
pub record Input : Type 0 where
  pub id : Value
  pub properties : Object

-- The timestamps after the call, the payload if one was posted, and what the call returned.
pub record Call (A : Type 0) : Type 0 where
  pub timestamps : List ℕ
  pub posted : Option (List Input)
  pub result : Result A

pub record Failure : Type 0 where
  pub email : Value
  pub error : Value

pub record Summary : Type 0 where
  pub total : ℕ
  pub succeeded : List Text
  pub failed : List Failure
  pub errors : List Text

abbrev pub empty_summary : Summary
empty_summary = record { total = 0; succeeded = []; failed = []; errors = [] }

-- The class of the exception, by status code.
unfoldable pub error_kind : ℕ → Kind
error_kind status =
    if eqb status 401 || eqb status 403
    then hubspot_auth_error
    else if eqb status 429
    then hubspot_rate_limit_error
    else if eqb status 400
    then hubspot_validation_error
    else hubspot_error

-- `"; ".join(…)` of the messages: one that is no text is a TypeError.
join_messages : List Value → Result Text
join_messages [] = ok []
join_messages (str s ∷ []) = ok s
join_messages (str s ∷ values) = join_messages values >>= λ rest. ok (s ++ (codes "; " ++ rest))
join_messages (value ∷ values) = raised type_error (codes "sequence item: expected str instance")

-- `e.get("message", "")` of the elements that are dicts.
error_messages : Items → List Value
error_messages nil = []
error_messages (cons (object fields) rest) =
    get (entries fields) (codes "message") (str []) ∷ error_messages rest
error_messages (cons value rest) = error_messages rest

-- The value of the "errors" key, if that is a list.
error_details : Option Value → Result Text
error_details (some (array items)) = join_messages (error_messages items)
error_details value = ok []

-- `result.get(key, [])` as the rows of a loop over dicts. What `for` cannot run over is a
-- TypeError, and a row that is no dict has no `get` (AttributeError).
object_rows : Items → Result (List Object)
object_rows nil = ok []
object_rows (cons (object fields) rest) = object_rows rest >>= λ rows. ok (entries fields ∷ rows)
object_rows (cons value rest) = raised other_error (codes "object has no attribute 'get'")

rows : Value → Result (List Object)
unfolding object_rows
rows (array items) = object_rows items
rows (str []) = ok []
rows (str (c ∷ s)) = raised other_error (codes "'str' object has no attribute 'get'")
rows (object end) = ok []
rows (object (field key value rest)) =
    raised other_error (codes "'str' object has no attribute 'get'")
rows value = raised type_error (codes "object is not iterable")

module _ (runtime : Runtime) where
  status_message : ℕ → Text
  status_message status = codes "HTTP " ++ runtime.to_str (int (pos status))

  -- `payload["message"]`, `payload["error"]` or the status.
  headline : Object → ℕ → Text
  headline payload status = elim (lookup (codes "message") payload) [
    | some message ↦ runtime.to_str message
    | none ↦ elim (lookup (codes "error") payload) [
      | some message ↦ runtime.to_str message
      | none ↦ status_message status
    ]
  ]

  with_details : Text → Text → Text
  with_details message [] = message
  with_details message (c ∷ details) = message ++ (codes " — " ++ c ∷ details)

  error_message : Response → Result Text
  unfolding error_details error_messages join_messages headline status_message with_details
  error_message r = elim r.json [
    | some payload ↦ do
      details ← error_details (lookup (codes "errors") payload)
      ok (with_details (headline payload r.status) details)
    | none ↦ ok (if is_empty r.text then status_message r.status else take 200 r.text)
  ]

  -- `raise self._parse_error(response)`
  unfoldable pub parse_error {ℓ} : {A : Type ℓ} → Response → Result A
  unfolding error_message error_kind
  parse_error r = error_message r >>= λ message. raised (error_kind r.status) message

  -- The elements of `inputs`: contacts with a truthy email, which is taken out of the properties.
  unfoldable pub inputs_of : List Object → List Input
  inputs_of [] = []
  inputs_of (contact ∷ contacts) =
      let rest = inputs_of contacts in
      let email = get contact (codes "email") (str []) in
      if truthy email
      then record { id = email; properties = erase (codes "email") contact } ∷ rest
      else rest

  -- `[str(r["id"]) for r in rows if r.get("id")]`
  succeeded_ids : List Object → List Text
  succeeded_ids [] = []
  succeeded_ids (row ∷ rows) =
      let rest = succeeded_ids rows in
      let id = get row (codes "id") null in if truthy id then runtime.to_str id ∷ rest else rest

  failure_of : Object → Failure
  failure_of err = record {
    email = get err (codes "id") (get err (codes "email") (str (codes "unknown")));
    error = get err (codes "message") (str (codes "Unknown error"));
  }

  raw_error : Failure → Text
  raw_error failure = runtime.to_str failure.email ++ (codes ": " ++ runtime.to_str failure.error)

  -- The summary of a successful answer.
  summarise : ℕ → Object → Result Summary
  unfolding rows object_rows succeeded_ids failure_of raw_error
  summarise total body = do
    results ← rows (get body (codes "results") (array nil))
    errs ← rows (get body (codes "errors") (array nil))
    ok (record {
      total = total;
      succeeded = succeeded_ids results;
      failed = map failure_of errs;
      errors = map raw_error (map failure_of errs);
    })

  -- What is left of `batch_upsert` once HubSpot has answered.
  batch_reply : ℕ → Reply → Result Summary
  unfolding summarise parse_error
  batch_reply total (request_error message) =
      raised hubspot_error (codes "Batch request failed: " ++ message)
  batch_reply total (response r) = if r.is_error then parse_error r else elim r.json [
    | none ↦ raised value_error (codes "JSONDecodeError")
    | some body ↦ summarise total body
  ]

  post_inputs : (List Input → Reply) → List ℕ → ℕ → ℕ → List Input → Call Summary
  unfolding batch_reply
  post_inputs post timestamps now later [] = record {
    timestamps = timestamps;
    posted = none;
    result = ok empty_summary;
  }
  post_inputs post timestamps now later (input ∷ inputs) = record {
    timestamps = wait_if_needed timestamps now later;
    posted = some (input ∷ inputs);
    result = batch_reply (length (input ∷ inputs)) (post (input ∷ inputs));
  }

  -- An empty list of contacts takes the same way as one without emails.
  unfoldable pub batch_upsert : (List Input → Reply) → List ℕ → ℕ → ℕ → List Object → Call Summary
  unfolding post_inputs inputs_of
  batch_upsert post timestamps now later contacts =
      post_inputs post timestamps now later (inputs_of contacts)
