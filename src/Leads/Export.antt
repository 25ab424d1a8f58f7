-- ===== src/Leads/Export.antt =====
-- `export_to_hubspot` of src/agents/output_synthesis.py. The client is the optional timestamps of
-- src/utils/hubspot_client; what it raises is raised again.
pub mod Contacts
use property_management_lead.Common.{
  ℕ, Option, none, some, List, [], ◌∷◌, Text, codes, text_eq, map, if◌then◌else◌,
}
use property_management_lead.Common.Dict.{Dict, insert}
use property_management_lead.Common.Result.{Result, ok, raised, value_error}
use property_management_lead.Common.Value.{Value, str, Object, truthy, get, Runtime}
use property_management_lead.Hubspot.Mapping.{map_lead_to_hubspot_properties}
use property_management_lead.Hubspot.Api.{Reply, Input, Call, Summary, empty_summary, batch_upsert}
use property_management_lead.Leads.{deduplicate}

-- `contact.update(props)`
update : Object → Dict Text Text → Object
update contact [] = contact
update contact ((key, value) ∷ props) = update (insert key (str value) contact) props

module _ (runtime : Runtime) where
  contact_of : Value → Object → Object
  unfolding update
  contact_of email lead =
      update ((codes "email", email) ∷ []) (map_lead_to_hubspot_properties runtime lead)

  -- The loop that skips the leads without an email.
  unfoldable pub contacts_of : List Object → List Object
  unfolding contact_of
  contacts_of [] = []
  contacts_of (lead ∷ leads) =
      let rest = contacts_of leads in
      let email = get lead (codes "unmasked_principal_email") (str []) in
      if truthy email then contact_of email lead ∷ rest else rest

  -- Without contacts the client is not called.
  export_contacts : (List Input → Reply) → List ℕ → ℕ → ℕ → List Object → Call Summary
  export_contacts post timestamps now later [] = record {
    timestamps = timestamps;
    posted = none;
    result = ok empty_summary;
  }
  export_contacts post timestamps now later (contact ∷ contacts) =
      batch_upsert runtime post timestamps now later (contact ∷ contacts)

  export_with : (List Input → Reply) → List ℕ → ℕ → ℕ → Result (List Object) → Call Summary
  unfolding export_contacts contacts_of
  export_with post timestamps now later (raised kind message) = record {
    timestamps = timestamps;
    posted = none;
    result = raised kind message;
  }
  export_with post timestamps now later (ok cleaned) =
      export_contacts post timestamps now later (contacts_of cleaned)

  -- `client` is none where the agent has no `hubspot_client`.
  unfoldable pub export_to_hubspot :
      (List Input → Reply) → Option (List ℕ) → ℕ → ℕ → List Object → Call Summary
  unfolding export_with
  export_to_hubspot post none now later leads = record {
    timestamps = [];
    posted = none;
    result = raised value_error (
        codes
          "HubSpot client is not configured. Provide a hubspot_client to the agent constructor.");
  }
  export_to_hubspot post (some timestamps) now later leads =
      export_with post timestamps now later (deduplicate runtime leads)
