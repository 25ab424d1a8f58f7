-- ===== src/Leads/Export/Contacts.antt =====
-- Which leads `export_to_hubspot` of src/agents/output_synthesis.py sends.
use mathlib.Core.Path.{ap₂}
use property_management_lead.Common.{
  ℕ, ◌≡◌, ◌≢◌, sym, refl, ap, ◌∙◌, Bool, true, false, none, some, List, [], ◌∷◌, Text, codes,
  text_eq, map, keep, is_empty, eq_iff, if◌then◌else◌, arith, Bool-cases, inl, inr, Option-cases,
}
use property_management_lead.Common.Dict.{Dict, lookup, insert, lookup-insert, NodupKeys}
use property_management_lead.Common.Result.{ok}
use property_management_lead.Common.Value.{
  Value, null, bool, int, float, str, array, object, Object, truthy, get, get-eq_of_lookup, Runtime,
}
use property_management_lead.Hubspot.Mapping.{
  map_lead_to_hubspot_properties, is_given, map_lead-NodupKeys,
  lookup-map_lead_to_hubspot_properties,
}
use property_management_lead.Hubspot.Api.{Reply, Input, empty_summary, inputs_of}
use property_management_lead.Hubspot.Api.Batch.{has_email, posted-batch_upsert}
use property_management_lead.Leads.{deduplicate}
use property_management_lead.Leads.Export.{
  update, contact_of, contacts_of, export_contacts, export_with, export_to_hubspot,
}

lookup-update :
    (contact : Object) (props : Dict Text Text) (key : Text)
    → NodupKeys props
    → lookup key (update contact props)
      ≡ elim (lookup key props) [ none ↦ lookup key contact | some value ↦ some (str value) ]
unfolding update lookup
lookup-update contact [] key u = refl
lookup-update contact ((k, v) ∷ props) key (fresh, u) = ground (
  arith,
  lookup-update (insert k (str v) contact) props key u,
  lookup-insert key k (str v) contact,
  eq_iff key k,
)

truthy-is_given : (value : Value) → truthy value ≡ true → is_given value ≡ true
unfolding truthy is_given
truthy-is_given null h = absurd (ground arith)
truthy-is_given (str s) h = h
truthy-is_given (bool b) h = refl
truthy-is_given (int z) h = refl
truthy-is_given (float repr) h = refl
truthy-is_given (array items) h = refl
truthy-is_given (object fields) h = refl

abbrev email_of : Object → Value
email_of lead = get lead (codes "unmasked_principal_email") (str [])

abbrev pub with_email : Object → Bool
with_email lead = truthy (email_of lead)

map-eq-nil : {A B : Type 0} (f : A → B) (xs : List A) → map f xs ≡ [] → xs ≡ []
map-eq-nil f [] h = refl
map-eq-nil f (x ∷ xs) h = absurd (ground arith)

truthy-str : (s : Text) → is_empty s ≡ false → truthy (str s) ≡ true
unfolding truthy
truthy-str s h = ground arith

given_property :
    (runtime : Runtime) (lead : Object)
    → with_email lead ≡ true
    → (if is_given (get lead (codes "unmasked_principal_email") null)
        then some (runtime.to_str (get lead (codes "unmasked_principal_email") null))
        else none)
      ≡ some (runtime.to_str (email_of lead))
unfolding get truthy
given_property runtime lead h =
    elim (Option-cases (lookup (codes "unmasked_principal_email") lead)) [
      | inl e ↦ absurd (ground arith)
      | inr (value, e) ↦ ground (arith, truthy-is_given value)
    ]

-- `runtime` with Python's law that the text of a truthy value is not empty.
module _ (runtime : Runtime)
    (to_str_truthy : (value : Value)
      → truthy value ≡ true
      → is_empty (runtime.to_str value) ≡ false) where
  -- The text under which a lead is sent.
  abbrev pub email_text : Object → Value
  email_text lead = str (runtime.to_str (email_of lead))

  mapped_email :
      (lead : Object)
      → with_email lead ≡ true
      → lookup (codes "email") (map_lead_to_hubspot_properties runtime lead)
        ≡ some (runtime.to_str (email_of lead))
  mapped_email lead h =
      lookup-map_lead_to_hubspot_properties runtime lead 4 refl ∙ given_property runtime lead h

  contact_of-email :
      (lead : Object)
      → with_email lead ≡ true
      → lookup (codes "email") (contact_of runtime (email_of lead) lead) ≡ some (email_text lead)
  unfolding contact_of
  contact_of-email lead h =
      lookup-update _ _ (codes "email") (map_lead-NodupKeys runtime lead) ∙ rw (mapped_email lead h)

  contact_of-sent :
      (lead : Object)
      → with_email lead ≡ true
      → (get (contact_of runtime (email_of lead) lead) (codes "email") (str []) ≡ email_text lead)
        × (has_email runtime (contact_of runtime (email_of lead) lead) ≡ true)
  contact_of-sent lead h =
      let same : get (contact_of runtime (email_of lead) lead) (codes "email") (str [])
          ≡ email_text lead =
        get-eq_of_lookup _ (codes "email") (str []) (contact_of-email lead h) in
      (same, ap truthy same ∙ truthy-str _ (to_str_truthy (email_of lead) h))

  ids-contacts_of :
      (leads : List Object)
      → map (λ (input : Input). input.id) (inputs_of runtime (contacts_of runtime leads))
        ≡ map email_text (keep with_email leads)
  unfolding contacts_of inputs_of keep
  ids-contacts_of [] = refl
  ids-contacts_of (lead ∷ leads) = elim (Bool-cases (with_email lead)) [
    | inl given ↦
        let (same, sent) = contact_of-sent lead given in
        rw given
          (rw sent (ap₂ (λ (id : Value) (ids : List Value). id ∷ ids) same (ids-contacts_of leads)))
    | inr absent ↦ rw absent (ids-contacts_of leads)
  ]

  posted-export_contacts :
      (post : List Input → Reply) (timestamps : List ℕ) (now later : ℕ) (contacts : List Object)
      → inputs_of runtime contacts ≢ []
      → (export_contacts runtime post timestamps now later contacts).posted
        ≡ some (inputs_of runtime contacts)
  unfolding export_contacts
  posted-export_contacts post timestamps now later [] h = absurd (h (unfold inputs_of in refl))
  posted-export_contacts post timestamps now later (contact ∷ contacts) h =
      posted-batch_upsert runtime post timestamps now later (contact ∷ contacts) h

  contacts_of-eq-nil :
      (leads : List Object) → keep with_email leads ≡ [] → contacts_of runtime leads ≡ []
  unfolding contacts_of keep
  contacts_of-eq-nil [] h = refl
  contacts_of-eq-nil (lead ∷ leads) h = ground (arith, contacts_of-eq-nil leads)

  -- Where the text of a truthy value is never empty, the client is configured, the leads can be
  -- deduplicated and some of those left have an email: one input is posted for each deduplicated
  -- lead with an email, in order, under the text of that email.
  pub posted-export_to_hubspot :
      (post : List Input → Reply) (timestamps : List ℕ) (now later : ℕ) (leads : List Object)
      {cleaned : List Object}
      → deduplicate runtime leads ≡ ok cleaned
      → keep with_email cleaned ≢ []
      → (inputs : List Input) × ((export_to_hubspot runtime post
            (some timestamps)
            now
            later
            leads).posted
          ≡ some inputs)
        × (map (λ (input : Input). input.id) inputs ≡ map email_text (keep with_email cleaned))
  unfolding export_to_hubspot
  posted-export_to_hubspot post timestamps now later leads {cleaned} unique some_email = (
    inputs_of runtime (contacts_of runtime cleaned),
    rw (unique, export_with)
        (posted-export_contacts post timestamps now later _ (λ e. some_email (
          map-eq-nil email_text _
            (sym (ids-contacts_of cleaned) ∙ ap (map (λ (input : Input). input.id)) e)))),
    ids-contacts_of cleaned,
  )

  -- Where the client is configured, the leads can be deduplicated and none of those left has an
  -- email: nothing is posted, the rate limit is not touched, and the summary is empty.
  pub export_to_hubspot_nothing :
      (post : List Input → Reply) (timestamps : List ℕ) (now later : ℕ) (leads : List Object)
      {cleaned : List Object}
      → deduplicate runtime leads ≡ ok cleaned
      → keep with_email cleaned ≡ []
      → export_to_hubspot runtime post (some timestamps) now later leads
        ≡ record { timestamps = timestamps; posted = none; result = ok empty_summary }
  unfolding export_to_hubspot
  export_to_hubspot_nothing post timestamps now later leads {cleaned} unique no_email =
      rw (unique, export_with) (rw (contacts_of-eq-nil cleaned no_email, export_contacts) refl)
