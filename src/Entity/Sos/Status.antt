-- ===== src/Entity/Sos/Status.antt =====
-- The statuses that `perform_sos_lookup` of src/agents/entity_unmasking.py reports.
use property_management_lead.Common.{
  ◌≡◌, refl, Bool, true, false, ◌∙◌, subst, sym, ap, Option, none, some, [], ◌∷◌, Text, codes,
  text_eq, arith, ◌⊎◌, inl, inr, Bool-cases, if◌then◌else◌,
}
use property_management_lead.Common.Dict.{lookup, insert}
use property_management_lead.Common.Result.{
  Result, ok, raised, ◌>>=◌, Kind, ok_injective, >>=-eq-ok, Result-cases,
}
use property_management_lead.Common.Value.{
  Value, null, str, array, object, entries, get, nil, Object, truthy,
}
use property_management_lead.Common.Json.{get_of}
use property_management_lead.Entity.Sos.{
  SosWeb, LlmClient, search_sos, not_found, failed, found_entity, with_pdf, found_hit, statement,
  download_and_parse_sos_pdf, perform_sos_lookup,
}

abbrev pub HasStatus : Text → Object → Type 0
HasStatus status result = lookup (codes "status") result ≡ some (str status)

-- The entry of a look-up that gave no entity.
abbrev pub IsEmpty : Object → Type 0
IsEmpty result =
    (lookup (codes "sos_number") result ≡ some null)
    × (lookup (codes "principals") result ≡ some (array nil))

-- The number under which a hit stands, None where it has none.
abbrev pub HasNumber : Value → Object → Type 0
HasNumber hit result =
    (number : Value) × (get_of hit (codes "entityNumber") null ≡ ok number)
    × (lookup (codes "sos_number") result ≡ some number)

found_hit-status :
    (entity_number entity_type : Value) (pdf : Option Object)
    → let result = with_pdf (found_entity entity_number entity_type) pdf in
      HasStatus (codes "found") result × (lookup (codes "sos_number") result ≡ some entity_number)
unfolding with_pdf found_entity insert lookup text_eq
found_hit-status entity_number entity_type none = (refl, refl)
found_hit-status entity_number entity_type (some []) = (refl, refl)
found_hit-status entity_number entity_type (some (entry ∷ pdf)) = (refl, refl)

-- A result with the hit's number.
abbrev pub IsFound : Value → Object → Type 0
IsFound hit result = HasStatus (codes "found") result × HasNumber hit result

-- What is done with the parts of a hit.
found_hit-IsFound :
    (web : SosWeb) (llm : Option LlmClient) (hit : Value) {result : Object}
    → found_hit web llm hit ≡ ok result
    → IsFound hit result
unfolding found_hit
found_hit-IsFound web llm hit {result} e =
    let (entity_number, number, e1) = >>=-eq-ok (get_of hit (codes "entityNumber") null) _ e in
    let (entity_type, _, e2) = >>=-eq-ok (get_of hit (codes "entityType") null) _ e1 in
    let (pdf, _, e3) = >>=-eq-ok (statement web llm entity_number) _ e2 in
    let (status, numbered) = found_hit-status entity_number entity_type pdf in
    subst (IsFound hit) (ok_injective e3) (status, (entity_number, number, numbered))

abbrev is_dict : Value → Bool
is_dict (object fields) = true
is_dict value = false

bind_ok-raised :
    {A B : Type 0} (r : Result A) (f : A → B) {kind : Kind} {message : Text}
    → (do x ← r; ok (f x)) ≡ raised kind message
    → r ≡ raised kind message
bind_ok-raised (ok x) f e = cc
bind_ok-raised (raised k m) f e = cc

-- The exception is one of fetching the statement of the hit's number with a language model.
abbrev pub IsRaisedBy : SosWeb → Option LlmClient → Value → Kind → Text → Type 0
IsRaisedBy web llm hit kind message =
    (client : LlmClient) × (llm ≡ some client)
    × ((number : Value) × (get_of hit (codes "entityNumber") null ≡ ok number)
        × (download_and_parse_sos_pdf web number client ≡ raised kind message))

-- Over a dict, only fetching the statement raises.
found_hit-raised :
    (web : SosWeb) (llm : Option LlmClient) (hit : Value) {kind : Kind} {message : Text}
    → found_hit web llm hit ≡ raised kind message
    → (is_dict hit ≡ false) ⊎ IsRaisedBy web llm hit kind message
unfolding found_hit get_of statement
found_hit-raised web (some llm) (object fields) e =
    let number = get (entries fields) (codes "entityNumber") null in
    let fetched = bind_ok-raised (statement web (some llm) number) _ e in
    elim (Bool-cases (truthy number)) [
      | inl t ↦ inr (
        llm,
        refl,
        (
          number,
          refl,
          sym (ap (λ b. if b then download_and_parse_sos_pdf web number llm else ok none) t)
              ∙ fetched,
        ),
      )
      | inr f ↦ absurd (ground (arith, fetched, f))
    ]
found_hit-raised web none (object fields) e = cc
found_hit-raised web llm hit e = inl refl

not_found-lem : HasStatus (codes "not_found") not_found × IsEmpty not_found
unfolding lookup text_eq
not_found-lem = (refl, (refl, refl))

failed-lem :
    (message : Text)
    → HasStatus (codes "error") (failed message)
      × IsEmpty (failed message)
      × (lookup (codes "_error") (failed message) ≡ some (str message))
unfolding lookup insert text_eq failed
failed-lem message = (refl, (refl, refl), refl)

-- A result without an entity, and its status.
abbrev pub IsWithout : Text → Object → Type 0
IsWithout status result = HasStatus status result × IsEmpty result

-- What a look-up makes of what the search gave: with an exception it returns an error with its
-- message, without an entity that it found none, and with one that it found it, or an exception, but
-- that only over a value that is no dict or from fetching the entity's statement.
abbrev pub Reports : SosWeb → Option LlmClient → Result (Option Value) → Result Object → Type 0
Reports web llm (raised kind message) looked_up =
    (result : Object) × (looked_up ≡ ok result)
    × (HasStatus (codes "error") result
        × IsEmpty result
        × (lookup (codes "_error") result ≡ some (str message)))
Reports web llm (ok none) looked_up =
    (result : Object) × (looked_up ≡ ok result) × IsWithout (codes "not_found") result
Reports web llm (ok (some hit)) looked_up =
    ((truthy hit ≡ false)
      × ((result : Object) × (looked_up ≡ ok result) × IsWithout (codes "not_found") result))
    ⊎ ((truthy hit ≡ true)
        × (((result : Object) × (looked_up ≡ ok result) × IsFound hit result)
            ⊎ ((kind : Kind) × (message : Text) × (looked_up ≡ raised kind message)
                × ((is_dict hit ≡ false) ⊎ IsRaisedBy web llm hit kind message))))

module _ (web : SosWeb) (llm : Option LlmClient) where
  reported : Result (Option Value) → Result Object
  reported (raised kind message) = ok (failed message)
  reported (ok none) = ok not_found
  reported (ok (some hit)) = if truthy hit then found_hit web llm hit else ok not_found

  reported-Reports :
      (searched : Result (Option Value)) → Reports web llm searched (reported searched)
  unfolding reported
  reported-Reports (raised kind message) = (failed message, refl, failed-lem message)
  reported-Reports (ok none) = (not_found, refl, not_found-lem)
  reported-Reports (ok (some hit)) = elim (Bool-cases (truthy hit)) [
    | inl t ↦
        let same = ap (λ b. if b then found_hit web llm hit else ok not_found) t in
        inr (
          t,
          elim (Result-cases (found_hit web llm hit)) [
            | inl (result, e) ↦ inl (result, same ∙ e, found_hit-IsFound web llm hit e)
            | inr (kind, message, e) ↦ inr (kind, message, same ∙ e, found_hit-raised web llm hit e)
          ],
        )
    | inr f ↦ inl (
      f,
      (not_found, ap (λ b. if b then found_hit web llm hit else ok not_found) f, not_found-lem),
    )
  ]

  perform_sos_lookup-reported :
      (recorded_owner : Text)
      → perform_sos_lookup web recorded_owner llm ≡ reported (search_sos (web.post recorded_owner))
  unfolding perform_sos_lookup reported
  perform_sos_lookup-reported recorded_owner =
      elim (Result-cases (search_sos (web.post recorded_owner))) [
        | inr (kind, message, e) ↦ rw (perform_sos_lookup, e) refl
        | inl (none, e) ↦ rw (perform_sos_lookup, e) refl
        | inl (some hit, e) ↦ rw (perform_sos_lookup, e) refl
      ]

  -- A look-up whose search raises returns the status `error` with the message; one whose search
  -- finds nothing, or nothing truthy, returns `not_found`, and neither has a number or principals.
  -- One whose search finds an entity returns `found` with the number of that entity, or raises: only
  -- where the entity is no dict, or what fetching its statement with a language model raises.
  pub perform_sos_lookup-Reports :
      (recorded_owner : Text)
      → Reports web llm
          (search_sos (web.post recorded_owner))
          (perform_sos_lookup web recorded_owner llm)
  perform_sos_lookup-Reports recorded_owner =
      subst (Reports web llm (search_sos (web.post recorded_owner)))
        (sym (perform_sos_lookup-reported recorded_owner))
        (reported-Reports (search_sos (web.post recorded_owner)))
