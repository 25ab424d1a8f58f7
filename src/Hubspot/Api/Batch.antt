-- ===== src/Hubspot/Api/Batch.antt =====
-- What `batch_upsert` of src/utils/hubspot_client/__init__.py sends and answers.
use property_management_lead.Common.{
  keep, map, ap, eq_refl, length-map, ℕ, ◌≡◌, refl, ◌≢◌, Bool, true, none, some, List, [], ◌∷◌,
  Text, codes, text_eq, length, All, arith, Bool-cases, Option-cases, inl, inr,
}
use property_management_lead.Common.Dict.{lookup, erase, lookup-erase}
use property_management_lead.Common.Result.{Kind, ok, raised, >>=-eq-ok}
use property_management_lead.Common.Value.{Value, str, array, nil, Object, truthy, get, Runtime}
use property_management_lead.Hubspot.Api.Errors.{IsError, parse_error-IsError}
use property_management_lead.Hubspot.Api.{
  Response, Reply, request_error, response, Input, summarise, batch_reply, failure_of, raw_error,
  rows, Failure, Summary, inputs_of, post_inputs, batch_upsert,
}

lookup-erase_email :
    (contact : Object) → lookup (codes "email") (erase (codes "email") contact) ≡ none
lookup-erase_email contact = rw (lookup-erase, eq_refl)

module _ (runtime : Runtime) where
  abbrev pub has_email : Object → Bool
  has_email contact = truthy (get contact (codes "email") (str []))

  abbrev email_of : Object → Value
  email_of contact = get contact (codes "email") (str [])

  length-inputs_of :
      (contacts : List Object)
      → length (inputs_of runtime contacts) ≡ length (keep has_email contacts)
  unfolding inputs_of keep
  length-inputs_of [] = refl
  length-inputs_of (contact ∷ contacts) = ground (arith, length-inputs_of contacts)

  -- The inputs are the contacts that have an email, in order, each under its email, and the email
  -- is in no input's properties.
  pub inputs_of-ids :
      (contacts : List Object)
      → (map (λ (input : Input). input.id) (inputs_of runtime contacts)
          ≡ map email_of (keep has_email contacts))
        × All
            (λ (input : Input). lookup (codes "email") input.properties ≡ none)
            (inputs_of runtime contacts)
  unfolding inputs_of keep
  inputs_of-ids [] = (refl, tt)
  inputs_of-ids (contact ∷ contacts) = elim (Bool-cases (has_email contact)) [
    | inl given ↦ rw given (
        (
          ap (λ (ids : List Value). email_of contact ∷ ids) (inputs_of-ids contacts).0,
          (lookup-erase_email contact, (inputs_of-ids contacts).1),
        ))
    | inr absent ↦ rw absent (inputs_of-ids contacts)
  ]

  summarise-total :
      (total : ℕ) (body : Object) {summary : Summary}
      → summarise runtime total body ≡ ok summary
      → (summary.total ≡ total) × (length summary.failed ≡ length summary.errors)
  unfolding summarise
  summarise-total total body h =
      let (results, p, q) = >>=-eq-ok (rows (get body (codes "results") (array nil))) _ h in
      let (errs, p', q') = >>=-eq-ok (rows (get body (codes "errors") (array nil))) _ q in
      let failed : List Failure = map (failure_of runtime) errs in
      (ground arith, ground (arith, length-map (raw_error runtime) failed))

  batch_reply-total :
      (total : ℕ) (reply : Reply) {summary : Summary}
      → batch_reply runtime total reply ≡ ok summary
      → (summary.total ≡ total) × (length summary.failed ≡ length summary.errors)
  unfolding batch_reply
  batch_reply-total total (request_error message) h = absurd (ground arith)
  batch_reply-total total (response r) {summary} h = elim (Bool-cases r.is_error) [
    | inl bad ↦
        let (kind, message, e, k) = parse_error-IsError runtime {A = Summary} r in
        absurd (ground (arith, e))
    | inr fine ↦ elim (Option-cases r.json) [
      | inl e ↦ absurd (ground arith)
      | inr (body, e) ↦ summarise-total total body {summary = summary} (ground arith)
    ]
  ]

  post_inputs-total :
      (post : List Input → Reply) (timestamps : List ℕ) (now later : ℕ) (inputs : List Input)
      {summary : Summary}
      → (post_inputs runtime post timestamps now later inputs).result ≡ ok summary
      → (summary.total ≡ length inputs) × (length summary.failed ≡ length summary.errors)
  unfolding post_inputs
  post_inputs-total post timestamps now later [] h = (ground arith, ground arith)
  post_inputs-total post timestamps now later (input ∷ inputs) h =
      batch_reply-total (length (input ∷ inputs)) (post (input ∷ inputs)) h

  -- A summary that is returned counts the contacts with an email, and has one raw error for each
  -- failed contact.
  pub batch_upsert-total :
      (post : List Input → Reply) (timestamps : List ℕ) (now later : ℕ) (contacts : List Object)
      {summary : Summary}
      → (batch_upsert runtime post timestamps now later contacts).result ≡ ok summary
      → (summary.total ≡ length (keep has_email contacts))
        × (length summary.failed ≡ length summary.errors)
  unfolding batch_upsert
  batch_upsert-total post timestamps now later contacts h =
      rw (← length-inputs_of contacts)
        (post_inputs-total post timestamps now later (inputs_of runtime contacts) h)

  post_inputs-IsError :
      (post : List Input → Reply) (timestamps : List ℕ) (now later : ℕ) (inputs : List Input)
      {r : Response}
      → inputs ≢ []
      → post inputs ≡ response r
      → r.is_error ≡ true
      → (kind : Kind) × (message : Text) × ((post_inputs runtime post timestamps now later
            inputs).result
          ≡ raised kind message)
        × IsError r kind
  unfolding post_inputs batch_reply
  post_inputs-IsError post timestamps now later [] some_input answer bad = absurd (some_input refl)
  post_inputs-IsError post timestamps now later (input ∷ inputs) {r} some_input answer bad =
      let (kind, message, e, k) = parse_error-IsError runtime {A = Summary} r in
      (kind, message, simp (answer, bad) e, k)

  -- Where some contact has an email and the answer is an error, the call raises: HubSpotAuthError for
  -- the status 401 or 403, HubSpotRateLimitError for 429, HubSpotValidationError for 400, HubSpotError
  -- for any other; unless the answer lists a message that is no text, and then a TypeError.
  pub batch_upsert-IsError :
      (post : List Input → Reply) (timestamps : List ℕ) (now later : ℕ) (contacts : List Object)
      {r : Response}
      → inputs_of runtime contacts ≢ []
      → post (inputs_of runtime contacts) ≡ response r
      → r.is_error ≡ true
      → (kind : Kind) × (message : Text) × ((batch_upsert runtime post timestamps now later
            contacts).result
          ≡ raised kind message)
        × IsError r kind
  unfolding batch_upsert
  batch_upsert-IsError post timestamps now later contacts some_input answer bad =
      post_inputs-IsError post timestamps now later (inputs_of runtime contacts) some_input answer
        bad

  posted-post_inputs :
      (post : List Input → Reply) (timestamps : List ℕ) (now later : ℕ) (inputs : List Input)
      → inputs ≢ []
      → (post_inputs runtime post timestamps now later inputs).posted ≡ some inputs
  unfolding post_inputs
  posted-post_inputs post timestamps now later [] h = absurd (h refl)
  posted-post_inputs post timestamps now later (input ∷ inputs) h = refl

  pub posted-batch_upsert :
      (post : List Input → Reply) (timestamps : List ℕ) (now later : ℕ) (contacts : List Object)
      → inputs_of runtime contacts ≢ []
      → (batch_upsert runtime post timestamps now later contacts).posted
        ≡ some (inputs_of runtime contacts)
  unfolding batch_upsert
  posted-batch_upsert post timestamps now later contacts h =
      posted-post_inputs post timestamps now later (inputs_of runtime contacts) h
