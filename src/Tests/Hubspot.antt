-- ===== src/Tests/Hubspot.antt =====
-- Runs of src/utils/hubspot_client/__init__.py.
use property_management_lead.Common.{
  ◌≡◌, refl, true, false, none, some, List, [], ◌∷◌, Text, codes, text_eq, arith,
}
use property_management_lead.Common.Dict.{lookup}
use property_management_lead.Common.Result.{Kind, raised}
use property_management_lead.Common.Value.{
  str, array, object, nil, cons, field, end, Object, truthy, get,
}
use property_management_lead.Hubspot.Window.{sleep_for, wait_if_needed, prune, append_bounded}
use property_management_lead.Hubspot.Window.Spacing.{
  Requests, start, next, IsSpaced, Requests-IsSpaced,
}
use property_management_lead.Hubspot.Api.{
  Response, Reply, response, Input, Summary, inputs_of, batch_upsert,
}
use property_management_lead.Hubspot.Api.Batch.{batch_upsert-IsError}
use property_management_lead.Hubspot.Api.Errors.{IsError}
use property_management_lead.Tests.{python}

two_requests : Requests (7 ∷ 5 ∷ []) (5 ∷ 7 ∷ []) 7
unfolding sleep_for wait_if_needed prune append_bounded
two_requests = next 6 7 (next 5 5 (start 0) (omega arith) (omega arith)) (omega arith) (omega arith)

Requests-IsSpaced_example : IsSpaced (7 ∷ 5 ∷ [])
Requests-IsSpaced_example = Requests-IsSpaced two_requests

abbrev contact : Object
contact = (codes "email", str (codes "a@b.c")) ∷ (codes "phone", str (codes "7145550123")) ∷ []

abbrev lead : Object
lead = (codes "apn", str (codes "123-45")) ∷ (codes "county", str []) ∷ []

abbrev created : Object
created =
    (codes "results", array (cons (object (field (codes "id") (str (codes "17")) end)) nil)) ∷ []

abbrev accept : List Input → Reply
accept inputs = response (record { status = 200; is_error = false; text = []; json = some created })

abbrev summary : Summary
summary = record { total = 1; succeeded = codes "17" ∷ []; failed = []; errors = [] }

abbrev too_many : Response
too_many = record { status = 429; is_error = true; text = codes "slow down"; json = none }

batch_upsert-IsError_example :
    (kind : Kind) × (message : Text) × ((batch_upsert python
        (λ inputs. response too_many)
        []
        0
        0
        (contact ∷ [])).result
      ≡ raised kind message)
    × IsError too_many kind
unfolding inputs_of get lookup truthy text_eq
batch_upsert-IsError_example =
    batch_upsert-IsError python (λ inputs. response too_many) [] 0 0 (contact ∷ []) {r = too_many}
      (λ e. ground arith) refl refl
