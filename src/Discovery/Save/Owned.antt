-- ===== src/Discovery/Save/Owned.antt =====
-- The rows of the table `ownership` that src/agents/discovery.py writes: ids, references and
-- pairs of APN and owner.
use property_management_lead.Common.{
  ℕ, ◌+◌, ◌<◌, ◌≡◌, ◌≢◌, refl, Bool, ◌&&◌, Option, none, some, List, [], ◌∷◌, ◌++◌, Text, text_eq,
  ◌==◌, eq_iff, eqb, if◌then◌else◌, arith,
}
use property_management_lead.Common.Dict.{Dict, lookup}
use property_management_lead.Discovery.Save.{Property, Owner, find_owner, update_owner}

-- Each owner row has a fresh id, a property, and a pair of APN and name of its own.
abbrev pub IsOwned : Dict Text Property → ℕ → List Owner → Type 0
IsOwned properties next [] = Unit
IsOwned properties next (o ∷ owners) =
    ((o.id < next)
      × (lookup o.apn properties ≢ none)
      × (find_owner owners o.apn o.recorded_owner ≡ none))
    × IsOwned properties next owners

pub IsOwned-more :
    (properties properties' : Dict Text Property) (next : ℕ) (owners : List Owner)
    → ((apn : Text) → lookup apn properties ≢ none → lookup apn properties' ≢ none)
    → IsOwned properties next owners
    → IsOwned properties' next owners
IsOwned-more properties properties' next [] more h = tt
IsOwned-more properties properties' next (o ∷ owners) more (h, hs) =
    ((h.0, more o.apn h.1, h.2), IsOwned-more properties properties' next owners more hs)

find_owner-update_owner :
    (owners : List Owner) (id : ℕ) (mailing : Option Text) (absentee : Bool) (apn name : Text)
    → find_owner (update_owner owners id mailing absentee) apn name ≡ find_owner owners apn name
unfolding find_owner update_owner
find_owner-update_owner [] id mailing absentee apn name = refl
find_owner-update_owner (o ∷ owners) id mailing absentee apn name =
    ground (arith, find_owner-update_owner owners id mailing absentee apn name)

-- Replacing a row by one with the same id, APN and name.
IsOwned-head :
    (properties : Dict Text Property) (next : ℕ) (owners owners' : List Owner) (o o' : Owner)
    → o'.id ≡ o.id
    → o'.apn ≡ o.apn
    → o'.recorded_owner ≡ o.recorded_owner
    → ((apn name : Text) → find_owner owners' apn name ≡ find_owner owners apn name)
    → IsOwned properties next (o ∷ owners)
    → IsOwned properties next owners'
    → IsOwned properties next (o' ∷ owners')
IsOwned-head properties next owners owners' o o' same_id same_apn same_name same ((a, b, c), _)
      rest =
    ((ground arith, rw same_apn b, rw (same, same_apn, same_name) c), rest)

pub update_owner-IsOwned :
    (properties : Dict Text Property) (next : ℕ) (owners : List Owner) (id : ℕ)
    (mailing : Option Text) (absentee : Bool)
    → IsOwned properties next owners
    → IsOwned properties next (update_owner owners id mailing absentee)
unfolding update_owner
update_owner-IsOwned properties next [] id mailing absentee h = tt
update_owner-IsOwned properties next (o ∷ owners) id mailing absentee (h, hs) =
    IsOwned-head properties next owners (update_owner owners id mailing absentee) o
      (if eqb o.id id then record o { mailing_address = mailing; is_absentee = absentee } else o)
      (ground arith) (ground arith) (ground arith)
      (λ apn name. find_owner-update_owner owners id mailing absentee apn name) (h, hs)
      (update_owner-IsOwned properties next owners id mailing absentee hs)

find_owner-append :
    (owners : List Owner) (last : Owner) (apn name : Text)
    → find_owner (owners ++ last ∷ []) apn name ≡ elim (find_owner owners apn name) [
      | none ↦ if last.apn == apn && last.recorded_owner == name then some last.id else none
      | some id ↦ some id
    ]
unfolding find_owner
find_owner-append [] last apn name = refl
find_owner-append (o ∷ owners) last apn name =
    ground (arith, find_owner-append owners last apn name)

find_owner_tail :
    (o : Owner) (owners : List Owner) (apn name : Text)
    → find_owner (o ∷ owners) apn name ≡ none
    → (¬ ((o.apn ≡ apn) × (o.recorded_owner ≡ name))) × (find_owner owners apn name ≡ none)
unfolding find_owner
find_owner_tail o owners apn name e = (
  λ (p, q). ground (arith, e, p, q, eq_iff o.apn apn, eq_iff o.recorded_owner name),
  ground (arith, eq_iff o.apn apn, eq_iff o.recorded_owner name),
)

pub insert-IsOwned :
    (properties : Dict Text Property) (next : ℕ) (owners : List Owner) (last : Owner)
    → last.id ≡ next
    → lookup last.apn properties ≢ none
    → find_owner owners last.apn last.recorded_owner ≡ none
    → IsOwned properties next owners
    → IsOwned properties (next + 1) (owners ++ last ∷ [])
unfolding find_owner
insert-IsOwned properties next [] last fresh known absent h = ((omega arith, known, refl), tt)
insert-IsOwned properties next (o ∷ owners) last fresh known absent (h, hs) =
    let earlier = find_owner_tail o owners last.apn last.recorded_owner absent in
    (
      (
        omega arith,
        h.1,
        ground (
          arith,
          find_owner-append owners last o.apn o.recorded_owner,
          h.2,
          earlier.0,
          eq_iff last.apn o.apn,
          eq_iff last.recorded_owner o.recorded_owner,
        ),
      ),
      insert-IsOwned properties next owners last fresh known earlier.1 hs,
    )
