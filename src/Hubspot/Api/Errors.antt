-- ===== src/Hubspot/Api/Errors.antt =====
-- The exceptions that `_parse_error` of src/utils/hubspot_client/__init__.py raises.
use property_management_lead.Common.{
  ◌⊎◌, ◌||◌, not, eqb, subst, sym, ap, ℕ, ◌≡◌, refl, ◌≢◌, Bool, true, false, Option, none, some,
  List, [], ◌∷◌, ◌++◌, Text, codes, text_eq, arith, Bool-cases, inl, inr, is_empty, take,
  if◌then◌else◌,
}
use property_management_lead.Common.Dict.{lookup}
use property_management_lead.Common.Result.{
  Kind, Result, ok, raised, type_error, hubspot_auth_error, hubspot_rate_limit_error,
  hubspot_validation_error, hubspot_error,
}
use property_management_lead.Common.Value.{
  Value, str, array, object, entries, Items, nil, cons, Object, get, Runtime,
}
use property_management_lead.Hubspot.Api.{
  Response, error_message, error_details, error_messages, join_messages, parse_error, error_kind,
  with_details, headline, status_message,
}

-- An answer lists a message that is no text.
abbrev pub is_text : Value → Bool
is_text (str s) = true
is_text value = false

abbrev pub has_odd_item : Items → Bool
has_odd_item nil = false
has_odd_item (cons (object fields) rest) =
    not (is_text (get (entries fields) (codes "message") (str []))) || has_odd_item rest
has_odd_item (cons value rest) = has_odd_item rest

abbrev pub has_odd_list : Option Value → Bool
has_odd_list (some (array items)) = has_odd_item items
has_odd_list value = false

abbrev pub has_odd_payload : Option Object → Bool
has_odd_payload none = false
has_odd_payload (some payload) = has_odd_list (lookup (codes "errors") payload)

abbrev pub has_odd_message : Response → Bool
has_odd_message r = has_odd_payload r.json

-- The exception for a status code.
abbrev pub IsClass : ℕ → Kind → Type 0
IsClass status kind =
    (((status ≡ 401) ⊎ (status ≡ 403)) × (kind ≡ hubspot_auth_error))
    ⊎ (((status ≡ 429) × (kind ≡ hubspot_rate_limit_error))
        ⊎ (((status ≡ 400) × (kind ≡ hubspot_validation_error))
            ⊎ ((status ≢ 401)
                × (status ≢ 403)
                × (status ≢ 429)
                × (status ≢ 400)
                × (kind ≡ hubspot_error))))

error_kind-IsClass : (status : ℕ) → IsClass status (error_kind status)
unfolding error_kind
error_kind-IsClass status = elim (Bool-cases (eqb status 401)) [
  | inl e ↦ inl (inl (ground (arith, e)), ground (arith, e))
  | inr no401 ↦ elim (Bool-cases (eqb status 403)) [
    | inl e ↦ inl (inr (ground (arith, e)), ground (arith, e))
    | inr no403 ↦ elim (Bool-cases (eqb status 429)) [
      | inl e ↦ inr (inl (ground (arith, e), ground (arith, e, no401, no403)))
      | inr no429 ↦ elim (Bool-cases (eqb status 400)) [
        | inl e ↦ inr (inr (inl (ground (arith, e), ground (arith, e, no401, no403, no429))))
        | inr no400 ↦ inr (
            inr (
              inr (
                (λ e. ground (arith, e, no401)),
                (λ e. ground (arith, e, no403)),
                (λ e. ground (arith, e, no429)),
                (λ e. ground (arith, e, no400)),
                ground (arith, no401, no403, no429, no400),
              )))
      ]
    ]
  ]
]

-- Joining texts returns; another message raises a TypeError.
abbrev Joins : Bool → Result Text → Type 0
Joins false joined = (text : Text) × (joined ≡ ok text)
Joins true joined = (message : Text) × (joined ≡ raised type_error message)

join_messages-str :
    (s : Text) (values : List Value) (is_odd : Bool)
    → Joins is_odd (join_messages values)
    → Joins is_odd (join_messages (str s ∷ values))
unfolding join_messages
join_messages-str s [] false h = (s, refl)
join_messages-str s [] true (message, e) = absurd (ground (arith, e))
join_messages-str s (value ∷ values) false (text, e) = (s ++ (codes "; " ++ text), rw e refl)
join_messages-str s (value ∷ values) true (message, e) = (message, rw e refl)

join_messages-odd :
    (value : Value) (values : List Value)
    → is_text value ≡ false
    → Joins true (join_messages (value ∷ values))
unfolding join_messages
join_messages-odd (str s) values e = cc
join_messages-odd value values e = (_, refl)

message-Joins :
    (value : Value) (values : List Value) (is_odd : Bool)
    → Joins is_odd (join_messages values)
    → Joins (not (is_text value) || is_odd) (join_messages (value ∷ values))
message-Joins (str s) values is_odd h = join_messages-str s values is_odd h
message-Joins value values is_odd h = join_messages-odd value values refl

error_messages-Joins :
    (items : Items) → Joins (has_odd_item items) (join_messages (error_messages items))
unfolding error_messages join_messages
error_messages-Joins nil = ([], refl)
error_messages-Joins (cons (object fields) rest) =
    message-Joins (get (entries fields) (codes "message") (str [])) (error_messages rest)
      (has_odd_item rest) (error_messages-Joins rest)
error_messages-Joins (cons value rest) = error_messages-Joins rest

error_details-Joins : (value : Option Value) → Joins (has_odd_list value) (error_details value)
unfolding error_details
error_details-Joins (some (array items)) = error_messages-Joins items
error_details-Joins value = ([], refl)

-- The class that the status code asks for, or a TypeError over a message that is no text.
abbrev pub IsError : Response → Kind → Type 0
IsError r kind =
    ((has_odd_message r ≡ false) × IsClass r.status kind)
    ⊎ ((has_odd_message r ≡ true) × (kind ≡ type_error))

module _ (runtime : Runtime) where
  error_message-Joins : (r : Response) → Joins (has_odd_message r) (error_message runtime r)
  unfolding error_message
  error_message-Joins r = from_json r.json refl
    where
      from_details :
          (payload : Object) (is_odd : Bool)
          → r.json ≡ some payload
          → Joins is_odd (error_details (lookup (codes "errors") payload))
          → Joins is_odd (error_message runtime r)
      from_details payload false e (details, d) = (
        with_details runtime (headline runtime payload r.status) details,
        rw (error_message, e, d) refl,
      )
      from_details payload true e (message, d) = (message, rw (error_message, e, d) refl)

      from_json :
          (json : Option Object)
          → r.json ≡ json
          → Joins (has_odd_message r) (error_message runtime r)
      from_json none e =
          subst (λ b. Joins b (error_message runtime r)) (sym (ap has_odd_payload e))
            (
              (if is_empty r.text then status_message runtime r.status else take 200 r.text),
              rw (error_message, e) refl,
            )
      from_json (some payload) e =
          subst (λ b. Joins b (error_message runtime r)) (sym (ap has_odd_payload e))
            (from_details payload (has_odd_list (lookup (codes "errors") payload)) e
              (error_details-Joins (lookup (codes "errors") payload)))

  pub parse_error-IsError :
      {A : Type 0} (r : Response)
      → (kind : Kind) × (message : Text) × (parse_error runtime {A = A} r ≡ raised kind message)
        × IsError r kind
  unfolding parse_error
  parse_error-IsError {A} r = elim (Bool-cases (has_odd_message r)) [
    | inl odd ↦
        let (message, e) =
          subst (λ b. Joins b (error_message runtime r)) odd (error_message-Joins r) in
        (type_error, message, rw e refl, inr (odd, refl))
    | inr plain ↦
        let (message, e) =
          subst (λ b. Joins b (error_message runtime r)) plain (error_message-Joins r) in
        (error_kind r.status, message, rw e refl, inl (plain, error_kind-IsClass r.status))
  ]
