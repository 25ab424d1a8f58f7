-- ===== src/County/Search.antt =====
-- The public look-ups of src/scrapers/county_assessor.py. The server's answers depend on the
-- endpoint, the `where` clause and the attempt.
use property_management_lead.Common.{
  ℕ, Bool, Option, none, some, [], ◌∷◌, ◌++◌, map, Text, codes, text_eq, eqb, is_empty,
  if◌then◌else◌,
}
use property_management_lead.Common.Dict.{Dict, lookup}
use property_management_lead.Common.Result.{
  Kind, Result, ok, raised, value_error, other_error, ◌>>=◌,
}
use property_management_lead.Common.Value.{Value, str, object, entries, truthy, get, Runtime}
use property_management_lead.RateLimiter.{RateLimiter}
use property_management_lead.County.Where.{address_clause, apn_clause}
use property_management_lead.County.Query.{Answer, Outcome, arcgis_query}

abbrev county_endpoints : Dict Text Text
county_endpoints =
    (
      codes "Orange County",
      codes "https://maps.ocgov.com/ocgis/rest/services/Assessor/Parcels/MapServer/0/query",
    )
    ∷ (
      codes "Los Angeles County",
      codes
          "https://gis.lacounty.gov/server/rest/services/Tax_Assessor/Assessor_Parcels/MapServer/0/query",
    )
    ∷ []

unfoldable pub get_endpoint : Text → Result Text
get_endpoint county = elim (lookup county county_endpoints) [
  | none ↦ raised value_error (codes "Unsupported county: " ++ county)
  | some endpoint ↦ ok endpoint
]

-- The limiter with an exception raised before any request.
refuse : RateLimiter → Kind → Text → Outcome
refuse limiter kind message = record {
  limiter = limiter;
  sleeps = [];
  requests = 0;
  result = raised kind message;
}

-- The server: its answer to each attempt at a query, and when httpx raises for a status.
pub record Server : Type 0 where
  pub raises_status : ℕ → Bool
  pub answers : Text → Text → ℕ → Answer

module _ (runtime : Runtime) (server : Server) where
  domain_label : Text → Text
  domain_label county = map (λ c. if eqb c b' ' then b'_' else c) (runtime.unicode.lower county)

  search : Result Text → Result Text → Text → RateLimiter → ℕ → ℕ → Outcome
  unfolding refuse domain_label
  search (raised kind message) clause county limiter now jitter = refuse limiter kind message
  search (ok endpoint) (raised kind message) county limiter now jitter = refuse limiter kind message
  search (ok endpoint) (ok clause) county limiter now jitter =
      arcgis_query server.raises_status (domain_label county) (server.answers endpoint clause)
        limiter now jitter

  unfoldable pub search_by_address : Text → Text → RateLimiter → ℕ → ℕ → Outcome
  unfolding search
  search_by_address address county limiter now jitter =
      search (get_endpoint county) (address_clause runtime.unicode address) county limiter now
        jitter

  unfoldable pub search_by_apn : Text → Text → RateLimiter → ℕ → ℕ → Outcome
  unfolding search
  search_by_apn apn county limiter now jitter =
      search (get_endpoint county) (apn_clause runtime.unicode apn) county limiter now jitter

  -- `str(attributes.get("APN", "") or "")`, None if that is empty.
  apn_of : Option Value → Result (Option Text)
  apn_of none = ok none
  apn_of (some (object fields)) =
      let value = get (entries fields) (codes "APN") (str []) in
      let apn = if truthy value then runtime.to_str value else [] in
      if is_empty apn then ok none else ok (some apn)
  apn_of (some value) = raised other_error (codes "object has no attribute 'get'")

  unfoldable pub lookup_apn_by_address : Text → Text → RateLimiter → ℕ → ℕ → Result (Option Text)
  unfolding apn_of
  lookup_apn_by_address address county limiter now jitter = do
    attributes ← (search_by_address address county limiter now jitter).result
    apn_of attributes
