-- ===== src/Tests/Entity.antt =====
-- Runs of src/agents/entity_unmasking.py, with a search that finds one entity.
use property_management_lead.Common.{
  ◌≡◌, ◌≢◌, refl, sym, ◌∙◌, ℕ, Bool, true, ◌||◌, ◌-◌, none, codes, text_eq, eqb, if◌then◌else◌,
  arith, any,
}
use property_management_lead.Common.Result.{ok}
use property_management_lead.Common.Value.{str, object, array, nil, cons, Fields, end, field}
use property_management_lead.Entity.Owner.{is_entity, classify_entity_type, found}
use property_management_lead.Entity.Owner.Classified.{is_entity-classify_entity_type}
use property_management_lead.Entity.Patterns.{search, matches, boundary}
use property_management_lead.Entity.Sos.{
  SosWeb, received, request_error, search_sos, perform_sos_lookup,
}
use property_management_lead.Entity.Sos.Status.{Reports, perform_sos_lookup-Reports}
use property_management_lead.Tests.{ascii, python, between}

abbrev up : ℕ → ℕ
up c = if between b'a' b'z' c then c - 32 else c

-- `re.IGNORECASE` on ASCII
abbrev same : ℕ → ℕ → Bool
same c d = eqb c d || eqb c (up d)

up_word : (c : ℕ) → ascii.is_word (up c) ≡ ascii.is_word c
up_word c = ground arith

llc_type : classify_entity_type ascii (codes "Oak Llc") ≡ codes "llc"
unfolding classify_entity_type found search matches boundary any
llc_type = refl

no_individual : codes "llc" ≢ codes "individual"
no_individual e = cc

is_entity-classify_entity_type_example : is_entity ascii same (codes "Oak Llc") ≡ true
is_entity-classify_entity_type_example =
    is_entity-classify_entity_type ascii same up up_word (λ c d h. ground (arith, h)) refl refl
      (codes "Oak Llc") refl (λ e. no_individual (sym llc_type ∙ e))

abbrev hit : Fields
hit = field (codes "entityNumber") (str (codes "201")) end

abbrev web : SosWeb
web = record {
  runtime = python;
  post =
      λ name. received (ok (object (field (codes "results") (array (cons (object hit) nil)) end)));
  download = λ url. request_error (codes "timed out");
}

perform_sos_lookup-Reports_example :
    Reports web none
      (search_sos (web.post (codes "Oak LLC")))
      (perform_sos_lookup web (codes "Oak LLC") none)
perform_sos_lookup-Reports_example = perform_sos_lookup-Reports web none (codes "Oak LLC")
