-- ===== src/Tests/County.antt =====
-- Runs of src/scrapers/county_assessor.py.
use property_management_lead.Common.{
  ℕ, zero, suc, ◌+◌, ◌*◌, ◌≡◌, refl, Bool, true, false, none, some, [], ◌++◌, Text, codes, text_eq,
  all, leb, keep, contains, strip, nat_eq,
}
use property_management_lead.Common.Dict.{lookup}
use property_management_lead.Common.Quoting.{read_quoted}
use property_management_lead.Common.Result.{ok}
use property_management_lead.Common.Value.{
  Value, str, object, array, cons, nil, field, end, get, truthy, entries,
}
use property_management_lead.RateLimiter.{second, default_base, init, failure_count, wait_if_needed}
use property_management_lead.County.Where.{
  apn_char, validate_address, validate_apn, address_clause, apn_clause,
}
use property_management_lead.County.Where.Safe.{
  printable, read_quoted-address_clause, read_quoted-apn_clause,
}
use property_management_lead.County.Query.{
  max_retries, Answer, timeout, answer, verdict, attempts, arcgis_query,
}
use property_management_lead.County.Query.Retry.{
  total, Found, Retried, arcgis_query_exhausted, arcgis_query-Found,
}
use property_management_lead.Tests.{ascii}

read_quoted-address_clause_example :
    (literal : Text) × (address_clause ascii (codes "1 Main' OR 1=1 --")
      ≡ ok (codes "UPPER(SITEADDR) LIKE '" ++ literal))
    × (read_quoted 39 false literal
        ≡ some (codes "%" ++ (printable (codes "1 Main OR 11 --") ++ codes "%"), []))
unfolding validate_address strip keep
read_quoted-address_clause_example =
    read_quoted-address_clause ascii (codes "1 Main' OR 1=1 --") refl

read_quoted-apn_clause_example :
    (literal : Text) × (apn_clause ascii (codes "123-45'--x") ≡ ok (codes "APN = '" ++ literal))
    × (read_quoted 39 false literal ≡ some (printable (codes "123-45--"), []))
    × (all (apn_char ascii) (codes "123-45--") ≡ true)
unfolding validate_apn strip keep
read_quoted-apn_clause_example = read_quoted-apn_clause ascii (codes "123-45'--x") refl

abbrev county : Text
county = codes "orange_county"

abbrev is_failure : ℕ → Bool
is_failure status = leb 400 status

busy : Retried is_failure county (λ attempt. answer 503 none) 0 4
unfolding verdict contains
busy = (refl, (refl, (refl, (refl, tt))))

arcgis_query_exhausted_example :
    let o = arcgis_query is_failure county (λ attempt. answer 503 none) (init default_base) 0 0 in
    (o.requests ≡ 1 + max_retries)
    × (o.result ≡ ok none)
    × (failure_count o.limiter county
        ≡ failure_count (init default_base) county + (1 + max_retries))
    × (total o.sleeps ≡ 0 + 11 * second)
unfolding wait_if_needed failure_count lookup
arcgis_query_exhausted_example =
    arcgis_query_exhausted is_failure county (λ attempt. answer 503 none) (init default_base) 0 0
      refl busy

abbrev parcel : Value
parcel = object (field (codes "APN") (str (codes "123-45")) end)

abbrev body : Value
body = object (
    field (codes "features") (array (cons (object (field (codes "attributes") parcel end)) nil))
      end)

-- A timeout, then the parcel.
abbrev served : ℕ → Answer
served zero = timeout
served (suc attempt) = answer 200 (some body)

arcgis_query-Found_example :
    Found is_failure county served 0 parcel
      (arcgis_query is_failure county served (init default_base) 0 0)
unfolding arcgis_query attempts wait_if_needed failure_count lookup verdict contains text_eq get
    truthy entries
arcgis_query-Found_example =
    arcgis_query-Found is_failure county served (init default_base) 0 0 parcel refl
