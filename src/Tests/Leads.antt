-- ===== src/Tests/Leads.antt =====
-- Runs of src/agents/output_synthesis.py.
use property_management_lead.Common.{
  ◌≡◌, refl, some, List, [], ◌∷◌, codes, text_eq, arith, map, keep, All,
}
use property_management_lead.Common.Dict.{lookup, insert}
use property_management_lead.Common.Value.{str, Object, truthy, get, Key, str_key, key_of, key_eq}
use property_management_lead.Hubspot.Api.{request_error, Input}
use property_management_lead.Leads.{deduplicate, remember, remember_all}
use property_management_lead.Leads.Dedup.{IsDistinct, last_with, IsHashable, deduplicate-keeps_last}
use property_management_lead.Leads.Export.{export_to_hubspot}
use property_management_lead.Leads.Export.Contacts.{
  with_email, email_text, posted-export_to_hubspot,
}
use property_management_lead.Tests.{python, text_of_truthy}

abbrev first : Object
first = (codes "apn", str (codes "123-45")) ∷ (codes "county", str (codes "Orange County")) ∷ []

abbrev other : Object
other = (codes "apn", str (codes "678-90")) ∷ []

abbrev second : Object
second =
    (codes "apn", str (codes "123-45"))
    ∷ (codes "unmasked_principal_email", str (codes "a@b.c"))
    ∷ []

deduplicate-keeps_last_example :
    IsDistinct python (second ∷ other ∷ [])
    × ((key : Key)
        → last_with python key (second ∷ other ∷ [])
          ≡ last_with python key (first ∷ other ∷ second ∷ []))
unfolding deduplicate remember_all remember lookup insert get truthy key_of key_eq text_eq
deduplicate-keeps_last_example = deduplicate-keeps_last python (first ∷ other ∷ second ∷ []) refl

All-IsHashable : All (IsHashable python) (first ∷ other ∷ [])
unfolding get truthy key_of lookup text_eq
All-IsHashable = ((λ t e. cc), ((λ t e. cc), tt))

both-IsDistinct : IsDistinct python (first ∷ other ∷ [])
unfolding get truthy key_of lookup text_eq last_with key_eq
both-IsDistinct =
    ((str_key (codes "123-45"), refl, refl), ((str_key (codes "678-90"), refl, refl), tt))

posted-export_to_hubspot_example :
    (inputs : List Input) × ((export_to_hubspot python
        (λ posted. request_error [])
        (some [])
        0
        0
        (second ∷ other ∷ [])).posted
      ≡ some inputs)
    × (map (λ (input : Input). input.id) inputs
        ≡ map (email_text python text_of_truthy) (keep with_email (second ∷ other ∷ [])))
unfolding deduplicate remember_all remember lookup insert get truthy key_of key_eq text_eq keep
posted-export_to_hubspot_example =
    posted-export_to_hubspot python text_of_truthy (λ posted. request_error []) [] 0 0
      (second ∷ other ∷ []) {cleaned = second ∷ other ∷ []} refl (λ e. ground arith)
